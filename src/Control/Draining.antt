-- ===== src/Control/Draining.antt =====
-- client.go: `drainingProxyTransport`, a transport that is closed when it is detached and its last connection is
-- closed. Each operation is split at its critical sections: `dialing` counts the dials between their
-- two sections, `releasing` the goroutines about to call `release`, and `due` those about to call
-- `closeUnderlying`. The transport has a dialer.
pub mod Safety
use rstream_go.Base.{
  ℕ, zero, suc, ◌+◌, ◌-◌, ◌≤◌, ◌<◌, Bool, true, false, not, ◌&&◌, ◌||◌, Option, none, some, List,
  [], ◌∷◌, ◌++◌, ◌≡◌, ◌⊎◌, inl, inr, refl, ◌∙◌, ap, arith, if◌then◌else◌, ◌==◌, bit, get_elem?, set,
  ltb, if_rule, option_rule,
}

-- `closes` counts the calls of the underlying `Close`; `conns` says which of its connections are open.
pub record Transport : Type 0 where
  pub active : ℕ
  pub is_detached : Bool
  pub is_closed : Bool
  pub is_once_done : Bool
  pub closes : ℕ
  pub dialing : ℕ
  pub releasing : ℕ
  pub due : ℕ
  pub conns : List Bool

-- `Dial` up to the underlying dial, and whether it goes on.
unfoldable pub begin_dial : Transport → Transport × Bool
begin_dial t =
    if t.is_detached || t.is_closed
    then (t, false)
    else (record t { active = t.active + 1; dialing = t.dialing + 1 }, true)

-- `Dial` behind it.
unfoldable pub end_dial : Bool → Transport → Transport
end_dial succeeded t =
    if t.dialing == 0
    then t
    else if not succeeded || t.is_detached || t.is_closed
    then record t { dialing = t.dialing - 1; releasing = t.releasing + 1 }
    else record t { dialing = t.dialing - 1; conns = t.conns ++ (true ∷ []) }

-- `release`
unfoldable pub release : Transport → Transport
release t =
    let left : ℕ = if ltb 0 t.active then t.active - 1 else t.active in
    if t.releasing == 0 then t else record t {
      active = left;
      releasing = t.releasing - 1;
      due = if t.is_detached && (left == 0) then t.due + 1 else t.due;
    }

-- `Detach` up to `closeUnderlying`
unfoldable pub detach : Transport → Transport
detach t = record t { is_detached = true; due = if t.active == 0 then t.due + 1 else t.due }

-- `Close` up to `closeUnderlying`
unfoldable pub close : Transport → Transport
close t = record t { is_closed = true; is_detached = true; due = t.due + 1 }

-- `closeUnderlying`
unfoldable pub close_underlying : Transport → Transport
close_underlying t =
    if t.due == 0
    then t
    else if t.is_once_done
    then record t { due = t.due - 1 }
    else record t { due = t.due - 1; is_once_done = true; closes = t.closes + 1 }

-- `drainingProxyConn.Close`, up to `release`
unfoldable pub close_conn : ℕ → Transport → Transport
close_conn i t = elim (get_elem? t.conns i) [
  | none ↦ t
  | some is_open ↦
      if is_open then record t { conns = set t.conns i false; releasing = t.releasing + 1 } else t
]

pub data Op : Type 0 where
  begins_dial : Op
  ends_dial : Bool → Op
  releases : Op
  detaches : Op
  closes_transport : Op
  closes_underlying : Op
  closes_conn : ℕ → Op

unfoldable pub apply : Op → Transport → Transport
unfolding begin_dial end_dial release detach close close_underlying close_conn
apply begins_dial t = (begin_dial t).0
apply (ends_dial b) t = end_dial b t
apply releases t = release t
apply detaches t = detach t
apply closes_transport t = close t
apply closes_underlying t = close_underlying t
apply (closes_conn i) t = close_conn i t

unfoldable pub apply_all : List Op → Transport → Transport
unfolding apply
apply_all [] t = t
apply_all (o ∷ os) t = apply_all os (apply o t)

abbrev pub fresh : Transport
fresh = record {
  active = 0;
  is_detached = false;
  is_closed = false;
  is_once_done = false;
  closes = 0;
  dialing = 0;
  releasing = 0;
  due = 0;
  conns = [];
}

abbrev pub open_conns : List Bool → ℕ
open_conns [] = 0
open_conns (b ∷ bs) = bit b + open_conns bs
