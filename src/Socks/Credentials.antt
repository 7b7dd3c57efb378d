-- ===== src/Socks/Credentials.antt =====
-- socks5_proxy.go: the credentials of a configuration on the wire.
use mathlib.Core.Path.{subst}
use rstream_go.Base.{
  ◌≤◌, ◌≡◌, refl, inl, inr, arith, true, ◌&&◌, Option, some, [], ◌∷◌, ◌++◌, if◌then◌else◌, ◌==◌,
  length, is_nil, Text, codes, Option-cases, append-nil,
}
use rstream_go.Socks.{Bytes, auth_failed, read_failed, Outcome, done, err, byte, ◌>>=◌, read_full}
use rstream_go.Socks.Wire.{read_full_exact}
use rstream_go.Socks.Client.{
  Url, ProxyConfig, has_scheme, choose_credentials, config_from_raw, user_pass_request,
}

-- A string with its length before it, and the request of RFC 1929, as a server reads them.
unfoldable pub read_string : Bytes → Outcome (Text × Bytes)
unfolding read_full
read_string [] = err read_failed
read_string (size ∷ r) = read_full size r

unfoldable pub read_credentials : Bytes → Outcome (Text × Text)
unfolding read_string
read_credentials [] = err read_failed
read_credentials (v ∷ r) = do
  (username, r') ← read_string r
  (password, r'') ← read_string r'
  if v == 1 && is_nil r'' then done (username, password) else err auth_failed

config_from_raw_short :
    (parse : Text → Option Url) (join : Text → Text → Text) (raw : Text) (u p : Option Text)
    (cfg : ProxyConfig)
    → config_from_raw parse join raw u p ≡ some cfg
    → cfg.auth ≡ true
    → (length cfg.username ≤ 255) × (length cfg.password ≤ 255)
unfolding config_from_raw
config_from_raw_short parse join raw u p cfg h auth =
    elim (Option-cases (parse (if has_scheme raw then raw else codes "socks5://" ++ raw))) [
      | inl e ↦ absurd (ground (arith, h, e))
      | inr (url, e) ↦ elim (Option-cases (choose_credentials u p url.user)) [
        | inl q ↦ absurd (ground (arith, h, e, q))
        | inr ((has, name, word), q) ↦ ground (arith, h, e, q, auth)
      ]
    ]

-- Whatever the proxy's URL and the options say, where a configuration with credentials is accepted a server that
-- follows RFC 1929 reads from the request of the client exactly its user name and its password.
pub read_credentials-request :
    (parse : Text → Option Url) (join : Text → Text → Text) (raw : Text) (u p : Option Text)
    (cfg : ProxyConfig)
    → config_from_raw parse join raw u p ≡ some cfg
    → cfg.auth ≡ true
    → read_credentials (user_pass_request cfg.username cfg.password)
      ≡ done (cfg.username, cfg.password)
unfolding read_credentials read_string
read_credentials-request parse join raw u p cfg h auth =
    let (a, b) = config_from_raw_short parse join raw u p cfg h auth in
    let e =
      read_full_exact (byte (length cfg.username)) cfg.username
        (byte (length cfg.password) ∷ cfg.password) (omega (arith, a)) in
    let q = read_full_exact (byte (length cfg.password)) cfg.password [] (omega (arith, b)) in
    let r : read_full (byte (length cfg.password)) cfg.password ≡ done (cfg.password, []) =
      subst (λ x. read_full (byte (length cfg.password)) x ≡ done (cfg.password, []))
        (append-nil cfg.password) q in
    rw (read_credentials, e, r) refl
