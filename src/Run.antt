-- ===== src/Run.antt =====
-- `rstream run` (cmd/rstream/internal): the desired tunnels and the reconciler that starts and stops
-- them.
pub mod Model
pub mod Labels
pub mod Reconciler
