-- ===== src/Stats/TopApps/Slots.antt =====
-- stats/top_apps.go: the time slots of an entry.
use gorouter.Base.{
  ap, sym, subst, ℕ, ◌+◌, ◌<◌, ◌≤◌, ◌≡◌, ◌≢◌, ◌⊎◌, inl, inr, refl, List, [], ◌∷◌, ◌++◌, true, arith,
  if◌then◌else◌, ltb, Bool-cases,
}
use gorouter.Stats.TopApps.{Slot, needs_slot, bump, mark_slots, trim_slots, first_mark}

abbrev pub total : List Slot → ℕ
total [] = 0
total (s ∷ ss) = s.n + total ss

-- The requests after the second t.
abbrev pub total_after : ℕ → List Slot → ℕ
total_after t [] = 0
total_after t (s ∷ ss) = (if ltb t s.t then s.n else 0) + total_after t ss

-- The seconds go up from above u.
abbrev pub AreRising : ℕ → List Slot → Type 0
AreRising u [] = Unit
AreRising u (s ∷ ss) = (u ≤ s.t) × AreRising (s.t + 1) ss

total-bump : (s : Slot) (ss : List Slot) → total (bump (s ∷ ss)) ≡ total (s ∷ ss) + 1
unfolding bump
total-bump s [] = omega arith
total-bump s (s2 ∷ ss) = omega (arith, total-bump s2 ss)

total-append : (ss : List Slot) (s : Slot) → total (ss ++ s ∷ []) ≡ total ss + s.n
total-append [] s = omega arith
total-append (r ∷ ss) s = omega (arith, total-append ss s)

pub total-mark_slots : (ss : List Slot) (t : ℕ) → total (mark_slots ss t) ≡ total ss + 1
unfolding mark_slots bump needs_slot
total-mark_slots [] t = ground arith
total-mark_slots (s ∷ ss) t = elim (Bool-cases (needs_slot (s ∷ ss) t)) [
  | inl needs ↦ ground (
    arith,
    needs,
    total-bump s (ss ++ (record { t = t; n = 0 }) ∷ []),
    total-append ss (record { t = t; n = 0 }),
  )
  | inr full ↦ ground (arith, full, total-bump s ss)
]

AreRising-bump : (u : ℕ) (ss : List Slot) → AreRising u ss → AreRising u (bump ss)
unfolding bump
AreRising-bump u [] h = tt
AreRising-bump u (s ∷ []) h = h
AreRising-bump u (s ∷ s2 ∷ ss) (h, r) = (h, AreRising-bump (s.t + 1) (s2 ∷ ss) r)

AreRising-append :
    (u : ℕ) (s : Slot) (ss : List Slot) (t : ℕ)
    → AreRising u (s ∷ ss)
    → needs_slot (s ∷ ss) t ≡ true
    → AreRising u ((s ∷ ss) ++ (record { t = t; n = 0 }) ∷ [])
unfolding needs_slot
AreRising-append u s [] t (h, r) w = (h, (ground arith, tt))
AreRising-append u s (s2 ∷ ss) t (h, r) w = (h, AreRising-append (s.t + 1) s2 ss t r w)

pub AreRising-mark_slots : (ss : List Slot) (t : ℕ) → AreRising 0 ss → AreRising 0 (mark_slots ss t)
unfolding mark_slots needs_slot
AreRising-mark_slots [] t h = AreRising-bump 0 ((record { t = t; n = 0 }) ∷ []) (omega arith, tt)
AreRising-mark_slots (s ∷ ss) t h = elim (Bool-cases (needs_slot (s ∷ ss) t)) [
  | inl needs ↦
      let e : mark_slots (s ∷ ss) t ≡ bump ((s ∷ ss) ++ (record { t = t; n = 0 }) ∷ []) =
        ground (arith, needs) in
      subst (λ r. AreRising 0 r) (sym e)
        (AreRising-bump 0 ((s ∷ ss) ++ (record { t = t; n = 0 }) ∷ [])
          (AreRising-append 0 s ss t h needs))
  | inr full ↦
      let e : mark_slots (s ∷ ss) t ≡ bump (s ∷ ss) = ground (arith, full) in
      subst (λ r. AreRising 0 r) (sym e) (AreRising-bump 0 (s ∷ ss) h)
]

-- A slot is left after a mark.
pub mark_slots_some : (ss : List Slot) (t : ℕ) → mark_slots ss t ≢ []
mark_slots_some ss t e = omega (arith, total-mark_slots ss t, ap total e)

AreRising-lower : (u w : ℕ) (ss : List Slot) → u ≤ w → AreRising w ss → AreRising u ss
AreRising-lower u w [] le h = tt
AreRising-lower u w (s ∷ ss) le (h, r) = (omega (arith, le, h), r)

total_after-all : (u t : ℕ) (ss : List Slot) → AreRising u ss → t < u → total_after t ss ≡ total ss
total_after-all u t [] h early = refl
total_after-all u t (s ∷ ss) (h, r) early =
    let rest = total_after-all (s.t + 1) t ss r (omega (arith, h, early)) in
    ground (arith, rest, h, early)

-- What Trim of an entry leaves and takes away.
abbrev Trims : ℕ → ℕ → List Slot → List Slot × ℕ → Type 0
Trims u t ss p =
    AreRising u p.0
    × (p.1 + total p.0 ≡ total ss)
    × (total p.0 ≡ total_after t ss)
    × ((p.0 ≡ []) ⊎ (t < first_mark p.0))

pub trim_slots_lem : (u t : ℕ) (ss : List Slot) → AreRising u ss → Trims u t ss (trim_slots ss t)
unfolding trim_slots first_mark
trim_slots_lem u t [] h = (tt, refl, refl, inl refl)
trim_slots_lem u t (s ∷ ss) (h, r) = elim (Bool-cases (ltb t s.t)) [
  | inl late ↦
      let e : trim_slots (s ∷ ss) t ≡ (s ∷ ss, 0) = ground (arith, late) in
      let all = total_after-all (s.t + 1) t ss r (ground (arith, late)) in
      subst (λ p. Trims u t (s ∷ ss) p) (sym e)
        ((h, r), omega arith, ground (arith, all, late), inr (ground (arith, late)))
  | inr early ↦
      let rest = trim_slots ss t in
      let e : trim_slots (s ∷ ss) t ≡ (rest.0, s.n + rest.1) = ground (arith, early) in
      let (rising, sum, left, first) = trim_slots_lem (s.t + 1) t ss r in
      subst (λ p. Trims u t (s ∷ ss) p) (sym e)
        (
          AreRising-lower u (s.t + 1) rest.0 (omega (arith, h)) rising,
          omega (arith, sum),
          ground (arith, left, early),
          first,
        )
]
