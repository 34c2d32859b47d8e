-- ===== src/Trie/Maps.antt =====
-- The map of children: what `get` reads after `put` and `remove`.
use mathlib.Core.Path.{◌≡◌, refl}
use gorouter.Base.{Text, text_eq, text_eq_iff, none, some, if◌then◌else◌, arith}
use gorouter.Trie.{Trie, Children, nil, cons, get, put, remove}

module _ {V : Type 0} where
  pub get-put :
      (k j : Text) (t : Trie V) (cs : Children V)
      → get j (put k t cs) ≡ (if text_eq k j then some t else get j cs)
  unfolding get put
  get-put k j t nil = refl
  get-put k j t (cons i u cs) =
      ground (arith, text_eq_iff k j, text_eq_iff i k, text_eq_iff i j, get-put k j t cs)

  pub get-remove :
      (k j : Text) (cs : Children V)
      → get j (remove k cs) ≡ (if text_eq k j then none else get j cs)
  unfolding get remove
  get-remove k j nil = ground arith
  get-remove k j (cons i u cs) =
      ground (arith, text_eq_iff k j, text_eq_iff i k, text_eq_iff i j, get-remove k j cs)
