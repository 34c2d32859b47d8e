-- ===== src/Stats/Heap/Takes.antt =====
-- stats/heap.go: what Pop and Remove take away.
use gorouter.Base.{
  ap, sym, subst, ◌∙◌, ℕ, suc, ◌-◌, ◌<◌, ◌≤◌, ◌≡◌, ◌≢◌, inl, inr, refl, Option, none, some, Bool,
  arith, eq_cases, Bool-cases, if◌then◌else◌, ◌==◌,
}
use gorouter.Stats.Order.{parent, parent_lt, Leq, IsOrder, IsHeap, Rising, Sinking, Rising-end}
use gorouter.Stats.Heap.{
  Heap, assign, swap, up, down, pop_last, heap_pop, heap_remove, heap_remove_at,
}
use gorouter.Stats.Heap.Swaps.{
  IsEntry, value, Moved, Moved-refl, Moved-trans, Moved-fewer, swap-Moved, swap-Exchanged,
  swap_elem, IsIndexed-injective, assign_core, assign_index,
}
use gorouter.Stats.Heap.Moves.{up-Rises, down-Sinks}
use gorouter.Stats.Heap.Laws.{IsValid, Has, Taken, root_least}

module _ {E C : Type 0} (core : E → C) (index : E → Option ℕ) (before : C → C → Bool)
    (less : E → E → Bool) (set_index : E → Option ℕ → E)
    (entry : IsEntry less set_index before core index) (order : IsOrder before) where
  pop_elem : (y : Heap E) (n k : ℕ) → (pop_last less set_index y n).0.elem k ≡ y.elem k
  unfolding pop_last assign
  pop_elem y n k = refl

  pop_len : (y : Heap E) (n : ℕ) → (pop_last less set_index y n).0.len ≡ n
  unfolding pop_last assign
  pop_len y n = refl

  pop_core :
      (y : Heap E) (n r : ℕ) → core ((pop_last less set_index y n).0.entries r) ≡ core (y.entries r)
  unfolding pop_last
  pop_core y n r = assign_core core index before less set_index entry y n none r

  pop_index :
      (y : Heap E) (n r : ℕ)
      → index ((pop_last less set_index y n).0.entries r)
        ≡ (if r == y.elem n then none else index (y.entries r))
  unfolding pop_last
  pop_index y n r = assign_index core index before less set_index entry y n none r

  -- An element that went to the end of the slice leaves it.
  pop_last-Taken :
      (x y : Heap E) (n a : ℕ)
      → IsValid core index before x
      → x.len ≡ suc n
      → Moved core index (suc n) x y
      → y.elem n ≡ a
      → IsHeap before n (value core index y)
      → Taken core index before x a (pop_last less set_index y n).0
  pop_last-Taken x y n a (indexed, heap) l m e h =
      let z = (pop_last less set_index y n).0 in
      let len = pop_len y n in
      let all = m.indexed indexed in
      let in_all : (k : ℕ) → k ≤ n → k < y.len = λ k in_k. omega (arith, in_k, m.len, l) in
      let apart : (k : ℕ) → k < n → y.elem k ≢ y.elem n = λ k in_k w.
        let same : k ≡ n =
          IsIndexed-injective core index y k n all (in_all k (omega (arith, in_k)))
            (in_all n (omega arith)) w in
        omega (arith, same, in_k) in
      record {
        valid = (
          λ k in_k.
              let inside : k < n = omega (arith, in_k, len) in
              let i = all k (in_all k (omega (arith, inside))) in
              let e' = pop_elem y n k in
              ground (arith, pop_index y n (y.elem k), e', i, apart k inside),
          λ k some_k in_k.
              let o = h k some_k (omega (arith, in_k, len)) in
              let ek = pop_elem y n k in
              let ep = pop_elem y n (parent k) in
              let ck = pop_core y n (y.elem k) in let cp = pop_core y n (y.elem (parent k)) in cc,
        );
        shorter = omega (arith, l, len);
        same = λ r. pop_core y n r ∙ m.same r;
        member = let (k, in_k, w) = m.back a (n, omega arith, e) in (k, omega (arith, in_k, l), w);
        has = λ r. (
          λ (k, in_k, w).
              let inside : k < n = omega (arith, in_k, len) in
              let here : y.elem k ≡ r = sym (pop_elem y n k) ∙ w in
              let (j, in_j, u) = m.back r (k, omega (arith, inside), here) in
              ((j, omega (arith, in_j, l), u), λ same. apart k inside (here ∙ same ∙ sym e)),
          λ ((k, in_k, w), differ).
              let (j, in_j, u) = m.forth r (k, omega (arith, in_k, l), w) in
              elim (eq_cases j n) [
                | inl last ↦ absurd (differ (sym u ∙ ap y.elem last ∙ e))
                | inr n_j ↦ (j, omega (arith, in_j, n_j, len), pop_elem y n j ∙ u)
              ],
        );
      }

  sunk :
      (x : Heap E) (i n : ℕ)
      → IsValid core index before x
      → x.len ≡ suc n
      → i ≤ n
      → (let y = down less set_index (swap less set_index x i n) i n in
          Moved core index (suc n) x y
          × (y.elem n ≡ x.elem i)
          × Rising before n (value core index y) i)
  sunk x i n (indexed, heap) l in_i =
      let v = value core index x in
      let y1 = swap less set_index x i n in
      let m =
        swap-Moved core index before less set_index entry x i n (suc n) (omega (arith, in_i))
          (omega arith) (omega (arith, l)) in
      let e = swap-Exchanged core index before less set_index entry x i n in
      let s : Sinking before n (value core index y1) i i = record {
        below = omega arith;
        others = λ k some_k in_k away again.
            let p = parent_lt k some_k in
            let ek = e.rest k (λ h. again h refl) (λ h. omega (arith, h, in_k)) in
            let ep = e.rest (parent k) away (λ h. omega (arith, h, in_k, p)) in
            let o = heap k some_k (omega (arith, in_k, l)) in cc;
        bridge = λ k some_k in_k under some_i.
            let p = parent_lt k some_k in
            let q = parent_lt i some_i in
            let ek = e.rest k (λ h. omega (arith, h, p, under)) (λ h. omega (arith, h, in_k)) in
            let ep =
              e.rest (parent i) (λ h. omega (arith, h, q)) (λ h. omega (arith, h, q, in_i)) in
            let o = heap k some_k (omega (arith, in_k, l)) in
            let o' : Leq before (v i) (v k) = cc in
            let u = heap i some_i (omega (arith, in_k, p, under, l)) in
            let w = order.trans (v (parent i)) (v i) (v k) u o' in cc;
      } in
      let y = down less set_index y1 i n in
      let (m', r) =
        down-Sinks core index before less set_index entry order y1 i n (omega (arith, m.len, l))
          s in
      (
        Moved-trans core index (suc n) x y1 y m
            (Moved-fewer core index n (suc n) y1 y (omega arith) m'),
        m'.beyond n (omega arith)
            ∙ ground (arith, swap_elem core index before less set_index entry x i n n),
        r,
      )

  Leq-refl : (a : C) → Leq before a a
  Leq-refl a = elim (Bool-cases (before a a)) [ inl e ↦ order.flip a a e | inr ok ↦ ok ]

  heap_pop_eq :
      (x : Heap E) (n : ℕ)
      → x.len ≡ suc n
      → heap_pop less set_index x
        ≡ some (pop_last less set_index (down less set_index (swap less set_index x 0 n) 0 n) n)
  unfolding heap_pop
  heap_pop_eq x n l = ground (arith, l)

  heap_remove_eq :
      (x : Heap E) (i n : ℕ)
      → x.len ≡ suc n
      → i ≤ n
      → heap_remove less set_index x (some i)
        ≡ some (pop_last less set_index (heap_remove_at less set_index x i n) n)
  unfolding heap_remove
  heap_remove_eq x i n l in_i = ground (arith, l, in_i)

  -- Pop answers the least element and takes it away.
  pub heap_pop_lem :
      (x : Heap E)
      → IsValid core index before x
      → 0 < x.len
      → (x' : Heap E) × (a : ℕ) × (heap_pop less set_index x ≡ some (x', a))
        × Taken core index before x a x'
        × ((r : ℕ)
            → Has core index before x r
            → Leq before (core (x.entries a)) (core (x.entries r)))
  unfolding pop_last
  heap_pop_lem x (indexed, heap) some_left =
      let n = x.len - 1 in
      let l : x.len ≡ suc n = omega (arith, some_left) in
      let a = x.elem 0 in
      let y = down less set_index (swap less set_index x 0 n) 0 n in
      let (m, e, r) = sunk x 0 n (indexed, heap) l (omega arith) in
      let h = Rising-end before order n (value core index y) 0 r (inl refl) in
      (
        (pop_last less set_index y n).0,
        a,
        heap_pop_eq x n l ∙ ap (λ u. some ((pop_last less set_index y n).0, u)) e,
        pop_last-Taken x y n a (indexed, heap) l m e h,
        λ b (k, in_k, w).
            subst (λ u. Leq before (core (x.entries a)) (core (x.entries u))) w
              (root_least core index before order k x.len (value core index x) k (omega arith) in_k
                (Leq-refl (core (x.entries a))) heap),
      )

  removed_at :
      (x : Heap E) (i n : ℕ)
      → IsValid core index before x
      → x.len ≡ suc n
      → i ≤ n
      → (let y = heap_remove_at less set_index x i n in
          Moved core index (suc n) x y
          × (y.elem n ≡ x.elem i)
          × IsHeap before n (value core index y))
  unfolding heap_remove_at
  removed_at x i n (indexed, heap) l in_i = elim (eq_cases i n) [
    | inl last ↦
        let stay : heap_remove_at less set_index x i n ≡ x = ground (arith, last) in
        subst
          (λ y.
            Moved core index (suc n) x y
            × (y.elem n ≡ x.elem i)
            × IsHeap before n (value core index y))
          (sym stay)
          (
            Moved-refl core index (suc n) x,
            ap x.elem (sym last),
            λ k some_k in_k. heap k some_k (omega (arith, in_k, l)),
          )
    | inr inner ↦
        let y = down less set_index (swap less set_index x i n) i n in
        let z = up less set_index y i in
        let (m, e, r) = sunk x i n (indexed, heap) l in_i in
        let (m', h) =
          up-Rises core index before less set_index entry order y i n (omega (arith, in_i, inner))
            (omega (arith, m.len, l)) r in
        let go : heap_remove_at less set_index x i n ≡ z = ground (arith, inner) in
        subst
          (λ y.
            Moved core index (suc n) x y
            × (y.elem n ≡ x.elem i)
            × IsHeap before n (value core index y))
          (sym go)
          (
            Moved-trans core index (suc n) x y z m
                (Moved-fewer core index n (suc n) y z (omega arith) m'),
            m'.beyond n (omega arith) ∙ e,
            h,
          )
  ]

  -- Remove at the index of an element takes it away.
  pub heap_remove_lem :
      (x : Heap E) (a : ℕ)
      → IsValid core index before x
      → Has core index before x a
      → (x' : Heap E) × (heap_remove less set_index x (index (x.entries a)) ≡ some (x', a))
        × Taken core index before x a x'
  unfolding pop_last
  heap_remove_lem x a (indexed, heap) (i, in_i, here) =
      let n = x.len - 1 in
      let l : x.len ≡ suc n = omega (arith, in_i) in
      let low : i ≤ n = omega (arith, in_i, l) in
      let y = heap_remove_at less set_index x i n in
      let (m, e, h) = removed_at x i n (indexed, heap) l low in
      let at : index (x.entries a) ≡ some i =
        ap (λ u. index (x.entries u)) (sym here) ∙ indexed i in_i in
      (
        (pop_last less set_index y n).0,
        ap (heap_remove less set_index x) at
            ∙ heap_remove_eq x i n l low
            ∙ ap (λ u. some ((pop_last less set_index y n).0, u)) (e ∙ here),
        pop_last-Taken x y n a (indexed, heap) l m (e ∙ here) h,
      )
