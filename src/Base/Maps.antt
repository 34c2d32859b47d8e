-- ===== src/Base/Maps.antt =====
-- Go maps with text keys, as association lists.
use mathlib.Core.Path.{◌≡◌, refl}
use native.Mathlib.Omega.{arith}
use mathlib.Core.Option.{Option, none, some}
use mathlib.Core.List.{List, [], ◌∷◌}
use gorouter.Base.Tests.{if◌then◌else◌}
use gorouter.Base.Texts.{Text, text_eq, text_eq_iff}

abbrev pub Map {ℓ} : Type ℓ → Type ℓ
Map V = List (Text × V)

module _ {ℓ} {V : Type ℓ} where
  unfoldable pub map_get : Text → Map V → Option V
  map_get k [] = none
  map_get k ((j, v) ∷ m) = if text_eq j k then some v else map_get k m

  unfoldable pub map_put : Text → V → Map V → Map V
  map_put k v [] = (k, v) ∷ []
  map_put k v ((j, w) ∷ m) = if text_eq j k then (j, v) ∷ m else (j, w) ∷ map_put k v m

  unfoldable pub map_delete : Text → Map V → Map V
  map_delete k [] = []
  map_delete k ((j, w) ∷ m) = if text_eq j k then map_delete k m else (j, w) ∷ map_delete k m

  pub get-put :
      (k j : Text) (v : V) (m : Map V)
      → map_get j (map_put k v m) ≡ (if text_eq k j then some v else map_get j m)
  unfolding map_get map_put
  get-put k j v [] = refl
  get-put k j v ((i, w) ∷ m) =
      ground (arith, text_eq_iff k j, text_eq_iff i k, text_eq_iff i j, get-put k j v m)

  pub get-delete :
      (k j : Text) (m : Map V)
      → map_get j (map_delete k m) ≡ (if text_eq k j then none else map_get j m)
  unfolding map_get map_delete
  get-delete k j [] = ground arith
  get-delete k j ((i, w) ∷ m) =
      ground (arith, text_eq_iff k j, text_eq_iff i k, text_eq_iff i j, get-delete k j m)
