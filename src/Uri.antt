-- ===== src/Uri.antt =====
-- route/uris.go: route URIs and their wildcards. A URI is a list of ASCII codes.
use gorouter.Base.{Text, Option, none, some, codes, cut, trim_prefix, trim_suffix, to_lower, ◌++◌}

abbrev pub Uri : Type 0
Uri = Text

-- `String` drops one trailing slash.
unfoldable pub uri_string : Uri → Text
uri_string u = trim_suffix u (codes "/")

unfoldable pub uri_to_lower : Uri → Uri
uri_to_lower u = to_lower (uri_string u)

-- `none` is the error; the code then returns `u` itself beside it.
unfoldable pub next_wildcard : Uri → Option Uri
next_wildcard u = elim (cut b'.' (trim_prefix (uri_string u) (codes "*."))) [
  | none ↦ none
  | some (before, suffix) ↦ some (codes "*." ++ suffix)
]

unfoldable pub route_key : Uri → Uri
route_key u = elim (cut b'?' (uri_to_lower u)) [ none ↦ uri_to_lower u | some (key, query) ↦ key ]
