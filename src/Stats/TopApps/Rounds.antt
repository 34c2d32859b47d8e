-- ===== src/Stats/TopApps/Rounds.antt =====
-- stats/top_apps.go: the loop of trim.
use gorouter.Base.{
  ap, sym, subst, ◌∙◌, ℕ, zero, suc, ◌+◌, ◌<◌, ◌≤◌, ◌≡◌, inl, inr, refl, List, [], ◌∷◌, true, arith,
  eq_cases, lt_cases, List-cases, length,
}
use gorouter.Stats.Table.Marks.{view_some}
use gorouter.Stats.TopApps.{Slot, TopApps, trim_slots, first_mark, top_ops, trim_loop, trim}
use gorouter.Stats.TopApps.Slots.{trim_slots_lem}
use gorouter.Stats.TopApps.Counts.{content, sooner, busier, called, tops-IsKind, IsListed, IsSound}
use gorouter.Stats.TopApps.Trims.{
  refers, strike, length-strike, top_empty, top_stop, top_drop, top_keep,
}
use gorouter.Stats.TopApps.Round.{
  TrimsTo, all_late, take_first, lessened, removed, stopped, trimmed_here, removed_lem,
  lessened_lem,
}

late_left :
    (x : TopApps) (t u : ℕ) (sl : Slot) (ss : List Slot)
    → IsSound x
    → IsListed x u
    → (trim_slots (x.apps.entries u).t t).0 ≡ sl ∷ ss
    → t < sl.t
unfolding first_mark
late_left x t u sl ss s l some_more =
    let known =
      view_some top_ops sooner busier content tops-IsKind called x (x.apps.entries u).application_id
        u l in
    let (some_slots, rising, sum) =
      s.good (x.apps.entries u).application_id (content (x.apps.entries u)) known in
    let (rising', parts, after, starts) = trim_slots_lem 0 t (x.apps.entries u).t rising in
    elim starts [ inl empty ↦ absurd cc | inr late ↦ subst (λ r. t < first_mark r) some_more late ]

-- With fewer entries to come than rounds, trim ends.
trim_loop-TrimsTo :
    (fuel : ℕ) (x : TopApps) (t : ℕ) (l : List ℕ)
    → length l < fuel
    → IsSound x
    → ((r : ℕ) → IsListed x r → first_mark (x.apps.entries r).t ≤ t → refers l r ≡ true)
    → TrimsTo x t (trim_loop fuel x t)
trim_loop-TrimsTo zero x t l enough s covers = absurd (omega (arith, enough))
trim_loop-TrimsTo (suc fuel) x t l enough s covers = elim (eq_cases x.apps.one.len 0) [
  | inl empty ↦
      let nobody : (r : ℕ) → IsListed x r → t < first_mark (x.apps.entries r).t = λ r m.
        let (k, inside, h) = (s.agree.pair.in_one r).1 m in absurd (omega (arith, inside, empty)) in
      (x, top_empty fuel x t empty, s, all_late x t s nobody)
  | inr more ↦
      let some_left : 0 < x.apps.one.len = omega (arith, more) in
      let (b, c, u, popped, gone, k) = take_first x s some_left in
      let same : first_mark (c.entries u).t ≡ first_mark (x.apps.entries u).t =
        ap (λ d. first_mark d.0) (k.keeps u) in
      elim (lt_cases t (first_mark (x.apps.entries u).t)) [
        | inl late ↦
            subst (λ o. TrimsTo x t o)
              (sym (top_stop fuel x t b c u some_left popped gone (omega (arith, same, late))))
              (stopped x t s c u k late)
        | inr early ↦
            let shorter = length-strike l u (covers u k.was early) in
            let enough' : length (strike l u) < fuel = omega (arith, shorter, enough) in
            let early' : first_mark (c.entries u).t ≤ t = omega (arith, same, early) in
            let here = trimmed_here x t s c u k in
            elim (List-cases (trim_slots (x.apps.entries u).t t).0) [
              | inl empty ↦
                  let (s1, trims, covers') = removed_lem x t s c u k l empty covers in
                  let (x', went, s', last) =
                    trim_loop-TrimsTo fuel (removed x t s c u k) t (strike l u) enough' s1
                      covers' in
                  (
                    x',
                    top_drop fuel x t b c u some_left popped gone early' (here ∙ empty) ∙ went,
                    s',
                    λ a. last a ∙ trims a,
                  )
              | inr (sl, ss, some_more) ↦
                  let (s1, trims, covers') = lessened_lem x t s c u k l sl ss some_more covers in
                  let (x', went, s', last) =
                    trim_loop-TrimsTo fuel (lessened x t s c u k) t (strike l u) enough' s1
                      covers' in
                  (
                    x',
                    top_keep fuel x t b c u some_left popped gone sl ss early' (here ∙ some_more)
                          (late_left x t u sl ss s k.was some_more)
                        ∙ went,
                    s',
                    λ a. last a ∙ trims a,
                  )
            ]
      ]
]

-- The references in the first elements of a heap.
abbrev elems : ℕ → (ℕ → ℕ) → List ℕ
elems zero f = []
elems (suc n) f = f n ∷ elems n f

length-elems : (n : ℕ) (f : ℕ → ℕ) → length (elems n f) ≡ n
length-elems zero f = refl
length-elems (suc n) f = ap suc (length-elems n f)

refers-elems : (n : ℕ) (f : ℕ → ℕ) (k : ℕ) → k < n → refers (elems n f) (f k) ≡ true
refers-elems zero f k h = absurd (omega (arith, h))
refers-elems (suc n) f k h = elim (eq_cases k n) [
  | inl e ↦ ground (arith, ap f e)
  | inr differ ↦ ground (arith, refers-elems n f k (omega (arith, h, differ)))
]

pub trim-TrimsTo : (x : TopApps) (t : ℕ) → IsSound x → TrimsTo x t (trim x t)
unfolding trim
trim-TrimsTo x t s =
    let n = x.apps.one.len in
    let l = elems n x.apps.one.elem in
    trim_loop-TrimsTo (n + 1) x t l (omega (arith, length-elems n x.apps.one.elem)) s (λ r m early.
      let (k, inside, h) = (s.agree.pair.in_one r).1 m in
      subst (λ q. refers l q ≡ true) h (refers-elems n x.apps.one.elem k inside))
