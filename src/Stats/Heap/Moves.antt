-- ===== src/Stats/Heap/Moves.antt =====
-- stats/heap.go: an element that goes up or down until the heap is in order.
use gorouter.Base.{
  ap, sym, subst, ◌∙◌, ℕ, zero, suc, ◌+◌, ◌-◌, ◌*◌, ◌<◌, ◌≤◌, ◌≡◌, ◌⊎◌, inl, inr, refl, Option,
  Bool, true, false, arith, eq_cases, lt_cases, Bool-cases,
}
use gorouter.Stats.Order.{
  parent, parent_lt, parent_left, parent_right, children, Leq, IsOrder, IsHeap, Rising, Sinking,
  Rising-end, Rising-step, Sinking-end, Sinking-step,
}
use gorouter.Stats.Heap.{Heap, swap, less_at, up_loop, up, child, down_loop, down}
use gorouter.Stats.Heap.Swaps.{
  IsEntry, value, Moved, Moved-refl, Moved-trans, swap-Moved, swap-Exchanged,
}

module _ {E C : Type 0} (core : E → C) (index : E → Option ℕ) (before : C → C → Bool)
    (less : E → E → Bool) (set_index : E → Option ℕ → E)
    (entry : IsEntry less set_index before core index) (order : IsOrder before) where
  less_at_lem :
      (x : Heap E) (i j : ℕ)
      → less_at less set_index x i j ≡ before (value core index x i) (value core index x j)
  unfolding less_at
  less_at_lem x i j = entry.less_core (x.entries (x.elem i)) (x.entries (x.elem j))

  Leq-refl : (a : C) → Leq before a a
  Leq-refl a = elim (Bool-cases (before a a)) [ inl e ↦ order.flip a a e | inr ok ↦ ok ]

  abbrev pub Rises : ℕ → Heap E → Heap E → Type 0
  Rises n x x' = Moved core index n x x' × IsHeap before n (value core index x')

  up_none : (x : Heap E) (j : ℕ) → up_loop less set_index zero x j ≡ x
  unfolding up_loop
  up_none x j = refl

  child_left :
      (x : Heap E) (i n : ℕ)
      → (n ≤ 2 * i + 1 + 1)
        ⊎ (before (value core index x (2 * i + 1)) (value core index x (2 * i + 1 + 1)) ≡ true)
      → child less set_index x i n ≡ 2 * i + 1
  unfolding child
  child_left x i n (inl alone) = ground (arith, alone)
  child_left x i n (inr smaller) =
      ground (arith, smaller, less_at_lem x (2 * i + 1) (2 * i + 1 + 1))

  child_right :
      (x : Heap E) (i n : ℕ)
      → 2 * i + 1 + 1 < n
      → before (value core index x (2 * i + 1)) (value core index x (2 * i + 1 + 1)) ≡ false
      → child less set_index x i n ≡ 2 * i + 1 + 1
  unfolding child
  child_right x i n both ok = ground (arith, both, ok, less_at_lem x (2 * i + 1) (2 * i + 1 + 1))

  up_stop :
      (fuel : ℕ) (x : Heap E) (j : ℕ)
      → (j ≡ 0) ⊎ (before (value core index x j) (value core index x (parent j)) ≡ false)
      → up_loop less set_index (suc fuel) x j ≡ x
  unfolding up_loop parent
  up_stop fuel x j (inl top) = ground (arith, top)
  up_stop fuel x j (inr ok) = ground (arith, ok, less_at_lem x j (parent j))

  up_go :
      (fuel : ℕ) (x : Heap E) (j : ℕ)
      → parent j < j
      → before (value core index x j) (value core index x (parent j)) ≡ true
      → up_loop less set_index (suc fuel) x j
        ≡ up_loop less set_index fuel (swap less set_index x (parent j) j) (parent j)
  unfolding up_loop
  up_go fuel x j higher smaller = ground (arith, smaller, higher, less_at_lem x j (parent j))

  up_loop-Rises :
      (fuel : ℕ) (x : Heap E) (j n : ℕ)
      → j ≤ fuel
      → j < n
      → n ≤ x.len
      → Rising before n (value core index x) j
      → Rises n x (up_loop less set_index fuel x j)
  up_loop-Rises zero x j n enough in_j in_n r =
      let stop : up_loop less set_index zero x j ≡ x = up_none x j in
      subst (λ y. Rises n x y) (sym stop)
        (
          Moved-refl core index n x,
          Rising-end before order n (value core index x) j r (inl (omega (arith, enough))),
        )
  up_loop-Rises (suc fuel) x j n enough in_j in_n r =
      let v = value core index x in
      let i = parent j in
      let stays = λ (h : (j ≡ 0) ⊎ Leq before (v i) (v j)).
        subst (λ y. Rises n x y) (sym (up_stop fuel x j h))
          (Moved-refl core index n x, Rising-end before order n v j r h) in
      elim (eq_cases j 0) [
        | inl top ↦ stays (inl top)
        | inr below ↦
            let some_j : 0 < j = omega (arith, below) in
            let higher : i < j = parent_lt j some_j in
            elim (Bool-cases (before (v j) (v i))) [
              | inr ok ↦ stays (inr ok)
              | inl smaller ↦
                  let y = swap less set_index x i j in
                  let m =
                    swap-Moved core index before less set_index entry x i j n
                      (omega (arith, higher, in_j)) in_j in_n in
                  let e = swap-Exchanged core index before less set_index entry x i j in
                  let r' =
                    Rising-step before order n v (value core index y) j r some_j in_j smaller e in
                  let (m', ok) =
                    up_loop-Rises fuel y i n (omega (arith, higher, enough))
                      (omega (arith, higher, in_j)) (omega (arith, in_n, m.len)) r' in
                  subst (λ z. Rises n x z) (sym (up_go fuel x j higher smaller))
                    (Moved-trans core index n x y (up_loop less set_index fuel y i) m m', ok)
            ]
      ]

  pub up-Rises :
      (x : Heap E) (j n : ℕ)
      → j < n
      → n ≤ x.len
      → Rising before n (value core index x) j
      → Rises n x (up less set_index x j)
  unfolding up
  up-Rises x j n in_j in_n r = up_loop-Rises j x j n (omega arith) in_j in_n r

  -- The child that goes up is the first of the children.
  child_lem :
      (x : Heap E) (i n : ℕ)
      → 2 * i + 1 < n
      → (0 < child less set_index x i n)
        × (child less set_index x i n < n)
        × (parent (child less set_index x i n) ≡ i)
        × ((k : ℕ)
            → 0 < k
            → k < n
            → parent k ≡ i
            → Leq before (value core index x (child less set_index x i n)) (value core index x k))
  child_lem x i n some_left =
      let v = value core index x in
      let l = 2 * i + 1 in
      let c = child less set_index x i n in
      let t = less_at_lem x l (l + 1) in
      elim (lt_cases (l + 1) n) [
        | inr alone ↦
            let here : c ≡ l = child_left x i n (inl alone) in
            (
              omega (arith, here),
              omega (arith, here, some_left),
              ap parent here ∙ parent_left i,
              λ k some_k in_k under. elim (children k i some_k under) [
                | inl e ↦ let f : Leq before (v l) (v l) = Leq-refl (v l) in cc
                | inr e ↦ absurd (omega (arith, e, in_k, alone))
              ],
            )
        | inl both ↦ elim (Bool-cases (before (v l) (v (l + 1)))) [
          | inl smaller ↦
              let here : c ≡ l = child_left x i n (inr smaller) in
              let f = order.flip (v l) (v (l + 1)) smaller in
              (
                omega (arith, here),
                omega (arith, here, some_left),
                ap parent here ∙ parent_left i,
                λ k some_k in_k under. elim (children k i some_k under) [
                  | inl e ↦ let g = Leq-refl (v l) in cc
                  | inr e ↦ cc
                ],
              )
          | inr ok ↦
              let here : c ≡ l + 1 = child_right x i n both ok in
              (
                omega (arith, here),
                omega (arith, here, both),
                ap parent here ∙ parent_right i,
                λ k some_k in_k under. elim (children k i some_k under) [
                  | inl e ↦ cc
                  | inr e ↦ let g = Leq-refl (v (l + 1)) in cc
                ],
              )
        ]
      ]

  abbrev pub Sinks : ℕ → ℕ → Heap E → Heap E → Type 0
  Sinks n top x x' = Moved core index n x x' × Rising before n (value core index x') top

  down_none : (x : Heap E) (i n : ℕ) → down_loop less set_index zero x i n ≡ x
  unfolding down_loop
  down_none x i n = refl

  down_stop :
      (fuel : ℕ) (x : Heap E) (i n : ℕ)
      → (n ≤ 2 * i + 1)
        ⊎ (before (value core index x (child less set_index x i n)) (value core index x i) ≡ false)
      → down_loop less set_index (suc fuel) x i n ≡ x
  unfolding down_loop
  down_stop fuel x i n (inl leaf) = ground (arith, leaf)
  down_stop fuel x i n (inr ok) = ground (arith, ok, less_at_lem x (child less set_index x i n) i)

  down_go :
      (fuel : ℕ) (x : Heap E) (i n : ℕ)
      → 2 * i + 1 < n
      → before (value core index x (child less set_index x i n)) (value core index x i) ≡ true
      → down_loop less set_index (suc fuel) x i n
        ≡ down_loop less set_index fuel
            (swap less set_index x i (child less set_index x i n))
            (child less set_index x i n)
            n
  unfolding down_loop
  down_go fuel x i n inner smaller =
      ground (arith, inner, smaller, less_at_lem x (child less set_index x i n) i)

  down_loop-Sinks :
      (fuel : ℕ) (x : Heap E) (top i n : ℕ)
      → n ≤ i + fuel
      → n ≤ x.len
      → Sinking before n (value core index x) top i
      → Sinks n top x (down_loop less set_index fuel x i n)
  down_loop-Sinks zero x top i n enough in_n s =
      subst (λ y. Sinks n top x y) (sym (down_none x i n))
        (
          Moved-refl core index n x,
          Sinking-end before order n (value core index x) top i s (λ k some_k in_k under.
              absurd (omega (arith, parent_lt k some_k, under, in_k, enough))),
        )
  down_loop-Sinks (suc fuel) x top i n enough in_n s =
      let v = value core index x in
      let c = child less set_index x i n in
      elim (lt_cases (2 * i + 1) n) [
        | inr leaf ↦
            subst (λ y. Sinks n top x y) (sym (down_stop fuel x i n (inl leaf)))
              (
                Moved-refl core index n x,
                Sinking-end before order n v top i s (λ k some_k in_k under.
                    elim (children k i some_k under) [
                      | inl e ↦ absurd (omega (arith, e, in_k, leaf))
                      | inr e ↦ absurd (omega (arith, e, in_k, leaf))
                    ]),
              )
        | inl inner ↦
            let (some_c, in_c, under_i, first) = child_lem x i n inner in
            elim (Bool-cases (before (v c) (v i))) [
              | inr ok ↦
                  subst (λ y. Sinks n top x y) (sym (down_stop fuel x i n (inr ok)))
                    (
                      Moved-refl core index n x,
                      Sinking-end before order n v top i s (λ k some_k in_k under.
                          order.trans (v i) (v c) (v k) ok (first k some_k in_k under)),
                    )
              | inl smaller ↦
                  let deeper : i < c = omega (arith, parent_lt c some_c, under_i) in
                  let y = swap less set_index x i c in
                  let m =
                    swap-Moved core index before less set_index entry x i c n
                      (omega (arith, deeper, in_c)) in_c in_n in
                  let e = swap-Exchanged core index before less set_index entry x i c in
                  let s' =
                    Sinking-step before order n v (value core index y) top i c s some_c in_c under_i
                      smaller first e in
                  let (m', r) =
                    down_loop-Sinks fuel y top c n (omega (arith, enough, deeper))
                      (omega (arith, in_n, m.len)) s' in
                  subst (λ z. Sinks n top x z) (sym (down_go fuel x i n inner smaller))
                    (Moved-trans core index n x y (down_loop less set_index fuel y c n) m m', r)
            ]
      ]

  pub down-Sinks :
      (x : Heap E) (i n : ℕ)
      → n ≤ x.len
      → Sinking before n (value core index x) i i
      → Sinks n i x (down less set_index x i n)
  unfolding down
  down-Sinks x i n in_n s = down_loop-Sinks (n - i) x i i n (omega arith) in_n s
