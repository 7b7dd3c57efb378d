-- ===== src/Cors/Wrap.antt =====
-- httpcors/cors.go: the other methods of the response writer, `Finish` and `Wrap`. The handler `next` is a
-- parameter, a function on the writer that it is given.
use rstream_go.Base.{Bool, true, Option, none, some, ◌++◌, if◌then◌else◌, Text, codes}
use rstream_go.Cors.{Runes}
use rstream_go.Cors.Response.{Header, Policy, Writer, write_header}
use rstream_go.Cors.Origins.{Request, passed, admitted, refused, target_text, prepare, preflight}

module _ (runes : Runes) where
  -- `Write` and `FlushError`, up to the call of the wrapped writer.
  unfoldable pub ensure_header : Writer → Writer
  unfolding write_header
  ensure_header w = if w.written then w else write_header runes 200 w

  -- `Hijack`, when the wrapped writer's own succeeds.
  unfoldable pub hijack : Bool → Writer → Writer
  hijack ok w = if ok then record w { written = true } else w

  -- `Finish`
  unfoldable pub finish_response : Writer → Writer
  unfolding write_header
  finish_response w = write_header runes 200 w

  -- `Wrap`; `none` is the request that goes to `next` with the writer of the server itself.
  unfoldable pub wrap :
      Option Policy → (Writer → Writer) → Bool → Text → Header → Request → Option Writer
  unfolding prepare preflight write_header finish_response
  wrap none next has_tls host h r = none
  wrap (some p) next has_tls host h r =
      let scheme = if has_tls then codes "https" else codes "http" in
      let target = target_text runes (scheme ++ (codes "://" ++ host)) in
      elim (prepare runes (some p) h r target) [
        | passed ↦ none
        | refused w ↦ some w
        | admitted w ↦ elim (preflight runes (some p) r) [
          | some status ↦ some (write_header runes status w)
          | none ↦ some (finish_response (next w))
        ]
      ]
