-- ===== src/Registry/Lookup.antt =====
-- registry/registry.go: Lookup with its loop over the wildcards of a URI.
use gorouter.Base.{
  ℕ, zero, suc, ◌+◌, ◌<◌, ◌≤◌, ◌≡◌, refl, ap, [], ◌∷◌, ◌++◌, Option, none, some, Text, codes, cut,
  trim_prefix, trim_suffix, arith, length, Option-cases, inl, inr, ◌==◌, Bool-cases,
}
use gorouter.Uri.{Uri, route_key, next_wildcard, uri_string}
use gorouter.Trie.{Trie, match_uri}
use gorouter.Registry.{Registry, lookup, lookup_loop}

-- `v` is the answer for the first of the URI and the wildcards after it that matches, and `none`
-- if there are no more wildcards.
pub data LooksUp (t : Trie ℕ) : Uri → Option ℕ → Type 0 where
  hit : (uri : Uri) (v : ℕ) → match_uri t uri ≡ some v → LooksUp t uri (some v)
  stop : (uri : Uri) → match_uri t uri ≡ none → next_wildcard uri ≡ none → LooksUp t uri none
  step :
      (uri w : Uri) (o : Option ℕ)
      → match_uri t uri ≡ none
      → next_wildcard uri ≡ some w
      → LooksUp t w o
      → LooksUp t uri o

-- The URI without a leading "*.", which gets shorter from wildcard to wildcard.
abbrev pub rest_of : Uri → Text
rest_of uri = trim_prefix (uri_string uri) (codes "*.")

length-cut : (c : ℕ) (s a b : Text) → cut c s ≡ some (a, b) → length b < length s
unfolding cut
length-cut c [] a b e = cc
length-cut c (d ∷ s) a b e = elim (Bool-cases (d == c)) [
  | inl here ↦ ground arith
  | inr later ↦ elim (Option-cases (cut c s)) [
    | inl missing ↦ absurd (ground arith)
    | inr (p, found) ↦ ground (arith, length-cut c s p.0 p.1)
  ]
]

length-trim_suffix : (s p : Text) → length (trim_suffix s p) ≤ length s
unfolding trim_suffix
length-trim_suffix [] p = omega arith
length-trim_suffix (c ∷ s) p = ground (arith, length-trim_suffix s p)

rest_of-wildcard : (s : Text) → rest_of (codes "*." ++ s) ≡ trim_suffix s (codes "/")
unfolding uri_string trim_suffix trim_prefix
rest_of-wildcard s = refl

pub next_wildcard-shorter :
    (uri w : Uri) → next_wildcard uri ≡ some w → length (rest_of w) < length (rest_of uri)
unfolding next_wildcard
next_wildcard-shorter uri w e = elim (Option-cases (cut b'.' (rest_of uri))) [
  | inl missing ↦ absurd (ground arith)
  | inr ((a, b), found) ↦
      let is_w : codes "*." ++ b ≡ w = ground arith in
      omega (
        arith,
        length-cut b'.' (rest_of uri) a b found,
        length-trim_suffix b (codes "/"),
        ap length (rest_of-wildcard b),
        ap (λ u. length (rest_of u)) is_w,
      )
]

lookup_loop-LooksUp :
    (fuel : ℕ) (t : Trie ℕ) (uri : Uri)
    → length (rest_of uri) < fuel
    → (o : Option ℕ) × (lookup_loop fuel t uri ≡ some o) × LooksUp t uri o
unfolding lookup_loop
lookup_loop-LooksUp zero t uri enough = absurd (omega arith)
lookup_loop-LooksUp (suc fuel) t uri enough = elim (Option-cases (match_uri t uri)) [
  | inr (v, matched) ↦ (some v, ground arith, hit uri v matched)
  | inl miss ↦ elim (Option-cases (next_wildcard uri)) [
    | inl last ↦ (none, ground arith, stop uri miss last)
    | inr (w, more) ↦
        let (o, done, spec) =
          lookup_loop-LooksUp fuel t w (omega (arith, next_wildcard-shorter uri w more)) in
        (o, ground arith, step uri w o miss more spec)
  ]
]

-- The loop of Lookup ends for every URI, and the answer is the one for the first of the URI's key
-- and its wildcards that MatchUri knows, or nil if it knows none of them.
pub lookup-LooksUp :
    (r : Registry) (uri : Uri)
    → (o : Option ℕ) × (lookup r uri ≡ some o) × LooksUp r.by_uri (route_key uri) o
unfolding lookup
lookup-LooksUp r uri =
    lookup_loop-LooksUp (length (rest_of (route_key uri)) + 1) r.by_uri (route_key uri)
      (omega arith)
