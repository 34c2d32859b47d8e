-- ===== src/Trie/Segments.antt =====
-- The rounds of the loops over a key: `segments` lists what `parts` yields round after round.
use mathlib.Core.Path.{◌≡◌, refl}
use gorouter.Base.{
  Text, List, [], ◌∷◌, Option, none, some, ◌==◌, arith, cut, Option-cases, Bool-cases, inl, inr,
  ◌≢◌, trim_prefix, codes,
}
use gorouter.Trie.{parts, segments, path_of}
use gorouter.Uri.{Uri, uri_string}

pub segments-cons : (key : Text) → (s : Text) × (ss : List Text) × (segments key ≡ s ∷ ss)
unfolding segments
segments-cons [] = ([], [], refl)
segments-cons (c ∷ key) =
    let (s, ss, e) = segments-cons key in
    elim (Bool-cases (c == b'/')) [
      | inl slash ↦ ([], segments key, rw slash)
      | inr plain ↦ (c ∷ s, ss, rw (plain, e))
    ]

abbrev pub rounds : Text × Option Text → List Text
rounds (s, none) = s ∷ []
rounds (s, some key) = s ∷ segments key

-- The segments of a key are the rounds of a loop over it: the first part, and the segments of the
-- rest while there is one.
pub segments-parts : (key : Text) → segments key ≡ rounds (parts key)
unfolding segments parts cut
segments-parts [] = refl
segments-parts (c ∷ key) = elim (Bool-cases (c == b'/')) [
  | inl slash ↦ ground arith
  | inr plain ↦ elim (Option-cases (cut b'/' key)) [
    | inl e ↦ ground (arith, segments-parts key)
    | inr (p, e) ↦ ground (arith, segments-parts key)
  ]
]

pub path_of-ne-nil : (uri : Uri) → path_of uri ≢ []
unfolding path_of
path_of-ne-nil uri e =
    let (s, ss, path) = segments-cons (trim_prefix (uri_string uri) (codes "/")) in cc
