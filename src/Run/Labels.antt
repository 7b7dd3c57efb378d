-- ===== src/Run/Labels.antt =====
-- cmd/rstream/internal/runmodel/types.go: the target of a forward, managed labels and names. The classes and
-- the lower case of a character are parameters, `net.SplitHostPort` too.
use rstream_go.Base.{
  ℕ, Bool, true, false, ◌||◌, Option, none, some, map, any, if◌then◌else◌, ◌==◌, is_nil, Text,
  codes, trim_space, Dict, insert,
}
use rstream_go.Run.Model.{ForwardTarget}

-- Host and port; a text without a colon is the port.
unfoldable pub split_target : (Text → Option (Text × Text)) → Text → Text → Option (Text × Text)
split_target split_host_port default_host clean = elim (any (λ c. c == 58) clean) [
  | false ↦ some (default_host, clean)
  | true ↦ elim (split_host_port clean) [
    | none ↦ none
    | some (host, port) ↦ some (trim_space host, trim_space port)
  ]
]

-- `ParseForwardTarget`
unfoldable pub parse_forward_target :
    (Text → Option (Text × Text)) → Text → Text → Option ForwardTarget
unfolding split_target
parse_forward_target split_host_port raw default_host =
    let clean = trim_space raw in
    let parts = split_target split_host_port default_host clean in
    if is_nil clean then none else elim parts [
      | none ↦ none
      | some (host, port) ↦
          if is_nil (trim_space host) || is_nil (trim_space port)
          then none
          else some (record { host = host; port = port })
    ]

-- `ApplyManagedLabels`, on the labels.
unfoldable pub apply_managed_labels : Text → Dict Text → Dict Text
apply_managed_labels source labels =
    let labels' = insert (codes "rstream.managed-by") (codes "run") labels in
    if is_nil (trim_space source) then labels' else insert (codes "rstream.source") source labels'

-- `SanitizeName`
unfoldable pub sanitize_name : (ℕ → Bool) → (ℕ → Bool) → (ℕ → ℕ) → Text → Text
sanitize_name is_letter is_digit to_lower name =
    map
      (λ c.
        if is_letter c || is_digit c
        then to_lower c
        else if c == 45 || c == 95 || c == 46
        then c
        else 45)
      (trim_space name)
