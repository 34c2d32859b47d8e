-- ===== src/Stats/TopApps/Trims.antt =====
-- stats/top_apps.go: what trim does to the slots of the applications.
use gorouter.Base.{
  ℕ, suc, ◌<◌, ◌≤◌, ◌≡◌, ◌≢◌, inl, inr, refl, List, [], ◌∷◌, some, Bool, true, false, ◌||◌, arith,
  if◌then◌else◌, ◌==◌, eq_cases, length,
}
use gorouter.Stats.Both.{Both, pop_one, remove_two}
use gorouter.Stats.Table.{mark_entry}
use gorouter.Stats.Table.Drops.{dropped}
use gorouter.Stats.TopApps.{
  Slot, Entry, TopApps, trim_slots, entry_trim, first_mark, less_first, less_requests, set_ti,
  set_ni, top_ops, trim_loop,
}
use gorouter.Stats.TopApps.Counts.{content, sooner, busier, called, tops-IsKind}

-- The references of a list.
abbrev pub refers : List ℕ → ℕ → Bool
refers [] r = false
refers (q ∷ qs) r = q == r || refers qs r

abbrev pub strike : List ℕ → ℕ → List ℕ
strike [] r = []
strike (q ∷ qs) r = if q == r then strike qs r else q ∷ strike qs r

strike_shorter : (qs : List ℕ) (r : ℕ) → length (strike qs r) ≤ length qs
strike_shorter [] r = omega arith
strike_shorter (q ∷ qs) r = ground (arith, strike_shorter qs r)

pub length-strike : (qs : List ℕ) (r : ℕ) → refers qs r ≡ true → length (strike qs r) < length qs
length-strike [] r h = absurd cc
length-strike (q ∷ qs) r h = elim (eq_cases q r) [
  | inl e ↦ ground (arith, e, strike_shorter qs r)
  | inr n ↦
      let rest : refers qs r ≡ true = ground (arith, n, h) in
      ground (arith, n, length-strike qs r rest)
]

pub refers-strike :
    (qs : List ℕ) (q r : ℕ) → q ≢ r → refers qs q ≡ true → refers (strike qs r) q ≡ true
refers-strike [] q r n h = absurd cc
refers-strike (p ∷ qs) q r n h = elim (eq_cases p r) [
  | inl e ↦
      let rest : refers qs q ≡ true = ground (arith, e, n, h) in
      ground (arith, e, refers-strike qs q r n rest)
  | inr a ↦ elim (eq_cases p q) [
    | inl e ↦ ground (arith, e, a)
    | inr b ↦
        let rest : refers qs q ≡ true = ground (arith, b, h) in
        ground (arith, a, b, refers-strike qs q r n rest)
  ]
]

-- Slots that start late stay.
pub trim-late : (ss : List Slot) (t : ℕ) → t < first_mark ss → (trim_slots ss t).0 ≡ ss
unfolding trim_slots first_mark
trim-late [] t h = refl
trim-late (s ∷ ss) t h = ground (arith, h)

pub trim-none : (t : ℕ) → (trim_slots [] t).0 ≡ []
unfolding trim_slots
trim-none t = refl

pub top_empty :
    (fuel : ℕ) (x : TopApps) (t : ℕ) → x.apps.one.len ≡ 0 → trim_loop (suc fuel) x t ≡ some x
unfolding trim_loop
top_empty fuel x t e = ground (arith, e)

-- A round takes the entry u from both heaps.
module _ (fuel : ℕ) (x : TopApps) (t : ℕ) (b c : Both Entry) (u : ℕ)
    (some_left : 0 < x.apps.one.len) (popped : pop_one less_first set_ti x.apps ≡ some (b, u))
    (gone : remove_two less_requests set_ni b (b.entries u).ni ≡ some (c, u)) where
  pub top_stop :
      t < first_mark (c.entries u).t
      → trim_loop (suc fuel) x t ≡ some (mark_entry top_ops (record x { apps = c }) u (λ e. e))
  unfolding trim_loop
  top_stop late = ground (arith, some_left, popped, gone, late)

  abbrev pub left : List Slot
  left = (entry_trim (c.entries u) t).t

  pub top_drop :
      first_mark (c.entries u).t ≤ t
      → left ≡ []
      → trim_loop (suc fuel) x t
        ≡ trim_loop fuel
            (dropped top_ops sooner busier content tops-IsKind called x
              (c.entries u).application_id
              c)
            t
  unfolding trim_loop
  top_drop early empty = ground (arith, some_left, popped, gone, early, empty)

  pub top_keep :
      (s : Slot) (ss : List Slot)
      → first_mark (c.entries u).t ≤ t
      → left ≡ s ∷ ss
      → t < s.t
      → trim_loop (suc fuel) x t
        ≡ trim_loop fuel (mark_entry top_ops (record x { apps = c }) u (λ e. entry_trim e t)) t
  unfolding trim_loop
  top_keep s ss early some_more late =
      ground (arith, some_left, popped, gone, early, some_more, late)
