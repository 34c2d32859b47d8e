-- ===== src/Stats/Order.antt =====
-- The order of a heap as an array of values: its parents, and what a swap changes.
use gorouter.Base.{
  ℕ, sym, ◌∙◌, ◌+◌, ◌-◌, ◌*◌, ◌/◌, ◌<◌, ◌≤◌, ◌≡◌, ◌≢◌, ◌⊎◌, inl, inr, Bool, true, false, arith,
  eq_cases,
}

unfoldable pub parent : ℕ → ℕ
parent k = (k - 1) / 2

pub parent_lt : (k : ℕ) → 0 < k → parent k < k
unfolding parent
parent_lt k some_k = omega arith

pub parent_left : (i : ℕ) → parent (2 * i + 1) ≡ i
unfolding parent
parent_left i = omega arith

pub parent_right : (i : ℕ) → parent (2 * i + 1 + 1) ≡ i
unfolding parent
parent_right i = omega arith

pub children : (k i : ℕ) → 0 < k → parent k ≡ i → (k ≡ 2 * i + 1) ⊎ (k ≡ 2 * i + 1 + 1)
unfolding parent
children k i some_k e = ground arith

module _ {C : Type 0} (before : C → C → Bool) where
  abbrev pub Leq : C → C → Type 0
  Leq a b = before b a ≡ false

  pub record IsOrder : Type 0 where
    pub flip : (a b : C) → before a b ≡ true → Leq a b
    pub trans : (a b c : C) → Leq a b → Leq b c → Leq a c

  -- The first n values are a heap.
  abbrev pub IsHeap : ℕ → (ℕ → C) → Type 0
  IsHeap n v = (k : ℕ) → 0 < k → k < n → Leq (v (parent k)) (v k)

  -- A heap but for the value at j, which may be too small.
  pub record Rising (n : ℕ) (v : ℕ → C) (j : ℕ) : Type 0 where
    pub others : (k : ℕ) → 0 < k → k < n → k ≢ j → Leq (v (parent k)) (v k)
    pub bridge : (k : ℕ) → 0 < k → k < n → parent k ≡ j → 0 < j → Leq (v (parent j)) (v k)

  -- A heap but for the value at i, which may be too large, and at `top`, where it comes from.
  pub record Sinking (n : ℕ) (v : ℕ → C) (top i : ℕ) : Type 0 where
    pub below : top ≤ i
    pub others :
        (k : ℕ) → 0 < k → k < n → parent k ≢ i → (k ≡ top → i ≢ top) → Leq (v (parent k)) (v k)
    pub bridge : (k : ℕ) → 0 < k → k < n → parent k ≡ i → 0 < i → Leq (v (parent i)) (v k)

  pub record Exchanged (v v' : ℕ → C) (i j : ℕ) : Type 0 where
    pub here : v' i ≡ v j
    pub there : v' j ≡ v i
    pub rest : (k : ℕ) → k ≢ i → k ≢ j → v' k ≡ v k

  module _ (order : IsOrder) (n : ℕ) (v : ℕ → C) where
    pub Rising-end : (j : ℕ) → Rising n v j → (j ≡ 0) ⊎ Leq (v (parent j)) (v j) → IsHeap n v
    Rising-end j r (inl e) k some_k inside = r.others k some_k inside (λ h. omega (arith, h, e))
    Rising-end j r (inr ok) k some_k inside = elim (eq_cases k j) [
      | inl e ↦ cc
      | inr differ ↦ r.others k some_k inside differ
    ]

    pub Rising-step :
        (v' : ℕ → C) (j : ℕ)
        → Rising n v j
        → 0 < j
        → j < n
        → before (v j) (v (parent j)) ≡ true
        → Exchanged v v' (parent j) j
        → Rising n v' (parent j)
    Rising-step v' j r some_j inside less x =
        let i = parent j in
        let higher : i < j = parent_lt j some_j in
        let lower = order.flip (v j) (v i) less in
        let here : v' i ≡ v j = x.here in
        let there : v' j ≡ v i = x.there in
        record {
          others = λ k some_k in_k differ. elim (eq_cases k j) [
            | inl e ↦ cc
            | inr k_j ↦
                let kept = x.rest k differ k_j in
                let upper = r.others k some_k in_k k_j in
                elim (eq_cases (parent k) j) [
                  | inl under ↦ let b = r.bridge k some_k in_k under some_j in cc
                  | inr apart ↦ elim (eq_cases (parent k) i) [
                    | inl beside ↦
                        let u : Leq (v i) (v k) = cc in
                        let w = order.trans (v j) (v i) (v k) lower u in cc
                    | inr away ↦ let p = x.rest (parent k) away apart in cc
                  ]
                ]
          ];
          bridge = λ k some_k in_k under some_i.
              let above : parent i < i = parent_lt i some_i in
              let p =
                x.rest (parent i) (λ h. omega (arith, h, above))
                  (λ h. omega (arith, h, above, higher)) in
              let u =
                r.others i some_i (omega (arith, higher, inside)) (λ h. omega (arith, h, higher)) in
              elim (eq_cases k j) [
                | inl e ↦ cc
                | inr k_j ↦
                    let k_i : k ≢ i = λ h. omega (arith, h, under, parent_lt k some_k) in
                    let kept = x.rest k k_i k_j in
                    let o = r.others k some_k in_k k_j in
                    let o' : Leq (v i) (v k) = cc in
                    let w = order.trans (v (parent i)) (v i) (v k) u o' in cc
              ];
        }

    pub Sinking-end :
        (top i : ℕ)
        → Sinking n v top i
        → ((k : ℕ) → 0 < k → k < n → parent k ≡ i → Leq (v i) (v k))
        → Rising n v top
    Sinking-end top i s ok = record {
      others = λ k some_k in_k differ. elim (eq_cases (parent k) i) [
        | inl under ↦ let o = ok k some_k in_k under in cc
        | inr apart ↦ s.others k some_k in_k apart (λ h. absurd (differ h))
      ];
      bridge = λ k some_k in_k under some_top. elim (eq_cases top i) [
        | inl e ↦ let b = s.bridge k some_k in_k (under ∙ e) (omega (arith, e, some_top)) in cc
        | inr differ ↦
            let kp = parent_lt k some_k in
            let tp = parent_lt top some_top in
            let o =
              s.others top some_top (omega (arith, kp, in_k, under))
                (λ h. omega (arith, h, tp, s.below)) (λ h g. absurd (differ (sym g))) in
            let o2 =
              s.others k some_k in_k (λ h. absurd (differ (sym under ∙ h)))
                (λ h. absurd (omega (arith, h, kp, under))) in
            let o3 : Leq (v top) (v k) = cc in order.trans (v (parent top)) (v top) (v k) o o3
      ];
    }

    pub Sinking-step :
        (v' : ℕ → C) (top i c : ℕ)
        → Sinking n v top i
        → 0 < c
        → c < n
        → parent c ≡ i
        → before (v c) (v i) ≡ true
        → ((k : ℕ) → 0 < k → k < n → parent k ≡ i → Leq (v c) (v k))
        → Exchanged v v' i c
        → Sinking n v' top c
    Sinking-step v' top i c s some_c in_c child less first x =
        let lower = order.flip (v c) (v i) less in
        let deeper : i < c = omega (arith, child, parent_lt c some_c) in
        let here : v' i ≡ v c = x.here in
        let there : v' c ≡ v i = x.there in
        record {
          below = omega (arith, deeper, s.below);
          others = λ k some_k in_k apart again. elim (eq_cases k c) [
            | inl e ↦ cc
            | inr k_c ↦ elim (eq_cases (parent k) i) [
              | inl under ↦
                  let k_i : k ≢ i = λ h. omega (arith, h, under, parent_lt k some_k) in
                  let kept = x.rest k k_i k_c in let f = first k some_k in_k under in cc
              | inr away ↦
                  let p = x.rest (parent k) away apart in
                  elim (eq_cases k i) [
                    | inl e ↦ let b = s.bridge c some_c in_c child (omega (arith, e, some_k)) in cc
                    | inr k_i ↦
                        let kept = x.rest k k_i k_c in
                        let o = s.others k some_k in_k away (λ h g. absurd (k_i (h ∙ sym g))) in cc
                  ]
            ]
          ];
          bridge = λ k some_k in_k under some_c'.
              let kp = parent_lt k some_k in
              let kept =
                x.rest k (λ h. omega (arith, h, kp, under, deeper))
                  (λ h. omega (arith, h, kp, under)) in
              let o =
                s.others k some_k in_k (λ h. omega (arith, h, under, deeper))
                  (λ h. absurd (omega (arith, h, kp, under, deeper, s.below))) in
              cc;
        }
