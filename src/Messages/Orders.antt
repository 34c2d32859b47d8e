-- ===== src/Messages/Orders.antt =====
-- router/router.go: the orders in which messages come.
use gorouter.Base.{ap, sym, ◌∙◌, ◌≡◌, ◌≢◌, inl, inr, refl, List, [], ◌∷◌, Text}
use mathlib.Core.Quot.{Quot}
use mathlib.Core.Logic.{∥∥₁_elim, ∥∥₁_map, ∥∥₁_prop}
use gorouter.Messages.Table.{Settled, SameTable, RoutingTable}
use gorouter.Messages.Steps.{
  Step, announce, withdraw, sender, take_step, After, After-map, After_hidden, step, Serves,
  Serves-step, Serves-ext, same-Serves,
}

module _ (R : Type 0) (ks : List Text) (a : Text) where
  -- Two steps of different senders come to the same in both orders.
  After_swap :
      (s s' : Step)
      → sender s ≢ sender s'
      → After s ks a (After s' ks a R)
      → After s' ks a (After s ks a R)
  After_swap (announce f m) (announce g n) apart o = elim o [
    | inl claimed ↦ inr (inl claimed)
    | inr rest ↦ elim rest [ inl claimed ↦ inl claimed | inr r ↦ inr (inr r) ]
  ]
  After_swap (announce f m) (withdraw n) apart o = elim o [
    | inl claimed ↦ (inl claimed, λ other. apart (sym claimed.2 ∙ other.2))
    | inr (r, out) ↦ (inr r, out)
  ]
  After_swap (withdraw m) (announce g n) apart (o, out) = elim o [
    | inl claimed ↦ inl claimed
    | inr r ↦ inr (r, out)
  ]
  After_swap (withdraw m) (withdraw n) apart ((r, out), out') = ((r, out'), out)

-- Steps of different senders come to the same table in both orders.
step_comm :
    (s s' : Step) (t : RoutingTable)
    → sender s ≢ sender s'
    → step s (step s' t) ≡ step s' (step s t)
step_comm s s' t apart =
    let half : (q q' : Step)
        → sender q ≢ sender q'
        → (ks : List Text) (a : Text) → Serves (step q (step q' t)) ks a
        → Serves (step q' (step q t)) ks a =
      λ q q' ne ks a h. (Serves-step q' (step q t) ks a).1 (
        ∥∥₁_elim ((Serves-step q (step q' t) ks a).0 h) ∥∥₁_prop (λ o.
          ∥∥₁_elim (After_hidden ks a q (λ x. (Serves-step q' t ks a).0 x) o) ∥∥₁_prop (λ both.
            ∥∥₁_map ∣ After_swap (Serves t ks a) ks a q q' ne both ∣₁
              (λ other. After-map ks a q' (λ x. (Serves-step q t ks a).1 ∣ x ∣₁) other)))) in
    Serves-ext (step s (step s' t)) (step s' (step s t))
      (λ ks a. (half s s' apart ks a, half s' s (λ e. apart (sym e)) ks a))

abbrev pub run : List Step → RoutingTable → RoutingTable
run [] t = t
run (s ∷ ss) t = run ss (step s t)

-- The third list is an interleaving of the first two.
pub data Merge : List Step → List Step → List Step → Type 0 where
  both_done : Merge [] [] []
  first : (s : Step) {ss ts us : List Step} → Merge ss ts us → Merge (s ∷ ss) ts (s ∷ us)
  second : (t : Step) {ss ts us : List Step} → Merge ss ts us → Merge ss (t ∷ ts) (t ∷ us)

abbrev pub NotFrom : Text → List Step → Type 0
NotFrom a [] = Unit
NotFrom a (s ∷ ss) = (a ≢ sender s) × NotFrom a ss

-- No sender of the first list is one of the second.
abbrev pub AreForeign : List Step → List Step → Type 0
AreForeign ss [] = Unit
AreForeign ss (t ∷ ts) = NotFrom (sender t) ss × AreForeign ss ts

run-step :
    (s : Step) (ss : List Step) (t : RoutingTable)
    → NotFrom (sender s) ss
    → run ss (step s t) ≡ step s (run ss t)
run-step s [] t apart = refl
run-step s (q ∷ ss) t (ne, apart) =
    ap (run ss) (step_comm q s t (λ e. ne (sym e))) ∙ run-step s ss (step q t) apart

foreign_tail : (s : Step) (ss ts : List Step) → AreForeign (s ∷ ss) ts → AreForeign ss ts
foreign_tail s ss [] f = tt
foreign_tail s ss (t ∷ ts) ((ne, apart), f) = (apart, foreign_tail s ss ts f)

run-Merge :
    (ss ts us : List Step) (t : RoutingTable)
    → Merge ss ts us
    → AreForeign ss ts
    → run us t ≡ run ts (run ss t)
run-Merge _ _ _ t both_done f = refl
run-Merge _ _ _ t (first s {ss} {ts} {us} m) f =
    run-Merge ss ts us (step s t) m (foreign_tail s ss ts f)
run-Merge _ _ _ t (second q {ss} {ts} {us} m) (apart, f) =
    run-Merge ss ts us (step q t) m f ∙ ap (run ts) (run-step q ss t apart)

-- The worlds after the handlers of the steps.
unfoldable pub run_steps : List Step → Settled → Settled
run_steps [] w = w
run_steps (s ∷ ss) w = run_steps ss (take_step s w)

run-run_steps : (ss : List Step) (w : Settled) → run ss (Quot.mk w) ≡ Quot.mk (run_steps ss w)
unfolding run_steps
run-run_steps [] w = refl
run-run_steps (s ∷ ss) w = run-run_steps ss (take_step s w)

-- Messages of two groups of instances that share no address may come in any interleaving: the
-- same paths have routes to the same addresses afterwards, if the messages of each group keep
-- their order. The world is sound and holds only endpoints of messages, and no instance id has a
-- colon.
pub run_steps-SameTable :
    (ss ts us us' : List Step) (w : Settled)
    → AreForeign ss ts
    → Merge ss ts us
    → Merge ss ts us'
    → SameTable (run_steps us w) (run_steps us' w)
run_steps-SameTable ss ts us us' w f m m' ks a =
    let t : RoutingTable = Quot.mk w in
    let e : ◌≡◌ {A = RoutingTable} (Quot.mk (run_steps us w)) (Quot.mk (run_steps us' w)) =
      sym (run-run_steps us w)
      ∙ run-Merge ss ts us t m f
      ∙ sym (run-Merge ss ts us' t m' f)
      ∙ run-run_steps us' w in
    (
      same-Serves (Quot.mk (run_steps us w)) (Quot.mk (run_steps us' w)) ks a e,
      same-Serves (Quot.mk (run_steps us' w)) (Quot.mk (run_steps us w)) ks a (sym e),
    )
