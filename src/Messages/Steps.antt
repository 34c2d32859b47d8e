-- ===== src/Messages/Steps.antt =====
-- router/router.go: messages as steps of the routing table.
use gorouter.Base.{subst, ℕ, ◌≡◌, ◌⊎◌, ◌↔◌, inl, inr, refl, List, some, Text}
use mathlib.Core.Quot
use mathlib.Core.Quot.{Quot, Quot-set, lift_prop_prop}
use mathlib.Core.Logic.{↔_prop, ∥∥₁_elim, ∥∥₁_map, ∥∥₁_prop}
use gorouter.Messages.{World, handle_register, handle_unregister}
use gorouter.Messages.Domain.{address, Reaches}
use gorouter.Messages.Table.{
  PlainMessage, Claims, Settled, SameTable, RoutingTable, handle_register-Reaches,
  handle_unregister-Reaches,
}

-- A message of router.register, with the clock that Register reads, or of router.unregister.
pub data Step : Type 0 where
  announce : (ℕ → ℕ) → PlainMessage → Step
  withdraw : PlainMessage → Step

abbrev pub sender : Step → Text
sender (announce clock m) = address m.0
sender (withdraw m) = address m.0

-- The world after the handler of the step.
unfoldable pub take_step : Step → Settled → Settled
take_step (announce clock (rm, id)) (w, c) =
    (handle_register clock w (some rm), (handle_register-Reaches clock rm w c id).0)
take_step (withdraw (rm, id)) (w, c) =
    let (w', done, clean, routes) = handle_unregister-Reaches rm w c in (w', clean)

-- Whether a path reaches an address after a step, if R says whether it did before.
abbrev pub After : Step → List Text → Text → Type 0 → Type 0
After (announce clock m) ks a R = Claims m.0 ks a ⊎ R
After (withdraw m) ks a R = R × ¬ Claims m.0 ks a

take_step-After :
    (s : Step) (w : Settled) (ks : List Text) (a : Text)
    → Reaches (take_step s w).0 ks a ↔ After s ks a (Reaches w.0 ks a)
unfolding take_step
take_step-After (announce clock (rm, id)) (w, c) ks a =
    (handle_register-Reaches clock rm w c id).1 ks a
take_step-After (withdraw (rm, id)) (w, c) ks a =
    let (w', done, clean, routes) = handle_unregister-Reaches rm w c in routes ks a

module _ {R S : Type 0} (ks : List Text) (a : Text) where
  pub After-map : (s : Step) → (R → S) → After s ks a R → After s ks a S
  After-map (announce clock m) f o = elim o [ inl claimed ↦ inl claimed | inr r ↦ inr (f r) ]
  After-map (withdraw m) f (r, out) = (f r, out)

  pub After_hidden : (s : Step) → (R → ∥ S ∥₁) → After s ks a R → ∥ After s ks a S ∥₁
  After_hidden (announce clock m) f o = elim o [
    | inl claimed ↦ ∣ inl claimed ∣₁
    | inr r ↦ ∥∥₁_map (f r) (λ x. inr x)
  ]
  After_hidden (withdraw m) f (r, out) = ∥∥₁_map (f r) (λ x. (x, out))

step_keeps :
    (s : Step) (v w : Settled) (ks : List Text) (a : Text)
    → (∥ Reaches v.0 ks a ∥₁ → ∥ Reaches w.0 ks a ∥₁)
    → ∥ Reaches (take_step s v).0 ks a ∥₁
    → ∥ Reaches (take_step s w).0 ks a ∥₁
step_keeps s v w ks a f h = ∥∥₁_elim h ∥∥₁_prop (λ r.
    ∥∥₁_map (After_hidden ks a s (λ x. f ∣ x ∣₁) ((take_step-After s v ks a).0 r))
      (λ o. (take_step-After s w ks a).1 o))

pub step_respects :
    (s : Step) (v w : Settled) → SameTable v w → SameTable (take_step s v) (take_step s w)
step_respects s v w same ks a =
    (step_keeps s v w ks a (same ks a).0, step_keeps s w v ks a (same ks a).1)

-- The step on tables.
abbrev pub step : Step → RoutingTable → RoutingTable
step s =
    Quot.lift Quot-set (λ w. Quot.mk (take_step s w))
      (λ v w same. Quot.sound (step_respects s v w same))

-- The table has a route from the path to the address.
abbrev pub Serves : RoutingTable → List Text → Text → Type 0
Serves t ks a =
    (Quot.lift_prop {r = SameTable} (λ w. (∥ Reaches w.0 ks a ∥₁, ∥∥₁_prop)) (λ v w same. same ks a)
      t).0

Serves-IsProp : (t : RoutingTable) (ks : List Text) (a : Text) → IsProp (Serves t ks a)
Serves-IsProp t ks a =
    lift_prop_prop (λ w. (∥ Reaches w.0 ks a ∥₁, ∥∥₁_prop)) (λ v w same. same ks a) t

-- The routes of a table after a step.
pub Serves-step :
    (s : Step) (t : RoutingTable) (ks : List Text) (a : Text)
    → Serves (step s t) ks a ↔ ∥ After s ks a (Serves t ks a) ∥₁
Serves-step s t ks a =
    Quot.ind {β = λ t. Serves (step s t) ks a ↔ ∥ After s ks a (Serves t ks a) ∥₁}
      (λ t. ↔_prop (Serves-IsProp (step s t) ks a) ∥∥₁_prop)
      (λ w. (
        λ h. ∥∥₁_map h (λ r. After-map ks a s (λ x. ∣ x ∣₁) ((take_step-After s w ks a).0 r)),
        λ h.
            ∥∥₁_elim h ∥∥₁_prop
              (λ o. ∥∥₁_map (After_hidden ks a s (λ x. x) o) (λ r. (take_step-After s w ks a).1 r)),
      ))
      t

-- Tables that serve the same are equal.
pub Serves-ext :
    (t u : RoutingTable) → ((ks : List Text) (a : Text) → Serves t ks a ↔ Serves u ks a) → t ≡ u
Serves-ext t u =
    Quot.ind {β = λ t. ((ks : List Text) (a : Text) → Serves t ks a ↔ Serves u ks a) → t ≡ u}
      (λ t. hlevel Quot-set)
      (λ v.
        Quot.ind
          {β = λ u.
            ((ks : List Text) (a : Text) → Serves (Quot.mk v) ks a ↔ Serves u ks a) → Quot.mk v ≡ u}
          (λ u. hlevel Quot-set) (λ w same. Quot.sound same) u)
      t

-- Equal tables serve the same.
pub same-Serves :
    (t u : RoutingTable) (ks : List Text) (a : Text) → t ≡ u → Serves t ks a → Serves u ks a
same-Serves t u ks a e h = subst (λ v. Serves v ks a) e h

-- The step's handler takes the one world to the other.
abbrev pub Handles : Step → World → World → Type 0
Handles (announce clock m) w w' = handle_register clock w (some m.0) ≡ w'
Handles (withdraw m) w w' = handle_unregister w (some m.0) ≡ some w'

take_step-Handles : (s : Step) (w : Settled) → Handles s w.0 (take_step s w).0
unfolding take_step
take_step-Handles (announce clock (rm, id)) (w, c) = refl
take_step-Handles (withdraw (rm, id)) (w, c) =
    let (w', done, clean, routes) = handle_unregister-Reaches rm w c in done
