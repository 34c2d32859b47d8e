-- ===== src/Stats/Heap/Snapshot.antt =====
-- stats/heap.go: a copy of a heap, whose SetIndex does nothing: its elements move as in the heap.
use gorouter.Base.{
  ap, sym, subst, ◌∙◌, ℕ, zero, suc, ◌+◌, ◌-◌, ◌*◌, ◌≡◌, inl, inr, refl, Option, some, none, Bool,
  true, false, not, ◌&&◌, ◌||◌, arith, if◌then◌else◌, ltb, eq_cases,
}
use gorouter.Stats.Heap.{
  Heap, update, assign, swap, less_at, child, down_loop, down, pop_last, heap_pop,
}

module _ {E C : Type 0} (core : E → C) where
  -- The same elements, but for the indices of their entries.
  pub record Same (x y : Heap E) : Type 0 where
    pub len : x.len ≡ y.len
    pub elem : (k : ℕ) → x.elem k ≡ y.elem k
    pub same : (r : ℕ) → core (x.entries r) ≡ core (y.entries r)

  pub Same-refl : (x : Heap E) → Same x x
  Same-refl x = record { len = refl; elem = λ k. refl; same = λ r. refl }

  Same-if :
      (b c : Bool) (x y u w : Heap E)
      → b ≡ c
      → Same x y
      → Same u w
      → Same (if b then x else u) (if c then y else w)
  Same-if true true x y u w e s t = s
  Same-if false false x y u w e s t = t
  Same-if true false x y u w e s t = absurd cc
  Same-if false true x y u w e s t = absurd cc

  module _ (less : E → E → Bool) (set : E → Option ℕ → E) where
    assign_len : (x : Heap E) (i : ℕ) (k : Option ℕ) → (assign less set x i k).len ≡ x.len
    unfolding assign
    assign_len x i k = refl

    assign_elem :
        (x : Heap E) (i : ℕ) (k : Option ℕ) (n : ℕ) → (assign less set x i k).elem n ≡ x.elem n
    unfolding assign
    assign_elem x i k n = refl

    assign_keeps :
        ((e : E) (k : Option ℕ) → core (set e k) ≡ core e)
        → (x : Heap E) (i : ℕ) (k : Option ℕ) (r : ℕ)
        → core ((assign less set x i k).entries r) ≡ core (x.entries r)
    unfolding assign update
    assign_keeps keeps x i k r = elim (eq_cases r (x.elem i)) [
      | inl e ↦ ground (arith, keeps (x.entries (x.elem i)) k)
      | inr n ↦ ground arith
    ]

    pop_eq :
        (x : Heap E) (n : ℕ)
        → x.len ≡ suc n
        → heap_pop less set x ≡ some (pop_last less set (down less set (swap less set x 0 n) 0 n) n)
    unfolding heap_pop
    pop_eq x n l = ground (arith, l)

    pop_none : (x : Heap E) → x.len ≡ 0 → heap_pop less set x ≡ none
    unfolding heap_pop
    pop_none x l = ground (arith, l)

  module _ (before : C → C → Bool) (less : E → E → Bool) (set_a set_b : E → Option ℕ → E)
      (reads : (e f : E) → less e f ≡ before (core e) (core f))
      (keeps_a : (e : E) (k : Option ℕ) → core (set_a e k) ≡ core e)
      (keeps_b : (e : E) (k : Option ℕ) → core (set_b e k) ≡ core e) where
    assign-Same :
        (x y : Heap E) (i j : ℕ) (k l : Option ℕ)
        → Same x y
        → Same (assign less set_a x i k) (assign less set_b y j l)
    assign-Same x y i j k l s = record {
      len = assign_len less set_a x i k ∙ s.len ∙ sym (assign_len less set_b y j l);
      elem = λ n. assign_elem less set_a x i k n ∙ s.elem n ∙ sym (assign_elem less set_b y j l n);
      same = λ r.
          assign_keeps less set_a keeps_a x i k r
          ∙ s.same r
          ∙ sym (assign_keeps less set_b keeps_b y j l r);
    }

    swap-Same :
        (x y : Heap E) (i j : ℕ) → Same x y → Same (swap less set_a x i j) (swap less set_b y i j)
    unfolding swap update
    swap-Same x y i j s =
        let x1 = record x { elem = update (update x.elem i (x.elem j)) j (x.elem i) } in
        let y1 = record y { elem = update (update y.elem i (y.elem j)) j (y.elem i) } in
        let s1 : Same x1 y1 = record {
          len = s.len;
          elem = λ k. ground (arith, s.elem k, s.elem i, s.elem j);
          same = s.same;
        } in
        assign-Same (assign less set_a x1 i (some i)) (assign less set_b y1 i (some i)) j j (some j)
          (some j) (assign-Same x1 y1 i i (some i) (some i) s1)

    less_at_lem :
        (x y : Heap E) (i j : ℕ) → Same x y → less_at less set_a x i j ≡ less_at less set_b y i j
    unfolding less_at
    less_at_lem x y i j s =
        let a = reads (x.entries (x.elem i)) (x.entries (x.elem j)) in
        let b = reads (y.entries (y.elem i)) (y.entries (y.elem j)) in
        let ei = s.elem i in
        let ej = s.elem j in let si = s.same (x.elem i) in let sj = s.same (x.elem j) in cc

    child_lem :
        (x y : Heap E) (i n : ℕ) → Same x y → child less set_a x i n ≡ child less set_b y i n
    unfolding child
    child_lem x y i n s =
        ap (λ b. if ltb (2 * i + 1 + 1) n && not b then 2 * i + 1 + 1 else 2 * i + 1)
          (less_at_lem x y (2 * i + 1) (2 * i + 1 + 1) s)

    down_loop-Same :
        (fuel : ℕ) (x y : Heap E) (i n : ℕ)
        → Same x y
        → Same (down_loop less set_a fuel x i n) (down_loop less set_b fuel y i n)
    unfolding down_loop
    down_loop-Same zero x y i n s = s
    down_loop-Same (suc fuel) x y i n s =
        let c = child less set_a x i n in
        let d = child less set_b y i n in
        let e : c ≡ d = child_lem x y i n s in
        Same-if (not (ltb (2 * i + 1) n) || not (less_at less set_a x c i))
          (not (ltb (2 * i + 1) n) || not (less_at less set_b y d i)) x y
          (down_loop less set_a fuel (swap less set_a x i c) c n)
          (down_loop less set_b fuel (swap less set_b y i d) d n)
          (ap (λ b. not (ltb (2 * i + 1) n) || not b)
            (less_at_lem x y c i s ∙ ap (λ u. less_at less set_b y u i) e))
          s
          (subst
            (λ u.
              Same (down_loop less set_a fuel (swap less set_a x i c) c n)
                (down_loop less set_b fuel (swap less set_b y i u) u n))
            e
            (down_loop-Same fuel (swap less set_a x i c) (swap less set_b y i c) c n
              (swap-Same x y i c s)))

    -- Pop of a copy answers the same element.
    pub heap_pop-Same :
        (x y x' : Heap E) (a : ℕ)
        → Same x y
        → heap_pop less set_a x ≡ some (x', a)
        → (y' : Heap E) × (heap_pop less set_b y ≡ some (y', a)) × Same x' y'
    unfolding pop_last down
    heap_pop-Same x y x' a s h = elim (eq_cases x.len 0) [
      | inl e ↦ absurd (ground (arith, h, pop_none less set_a x e))
      | inr more ↦
          let n = x.len - 1 in
          let l : x.len ≡ suc n = omega (arith, more) in
          let x1 = down less set_a (swap less set_a x 0 n) 0 n in
          let y1 = down less set_b (swap less set_b y 0 n) 0 n in
          let d =
            down_loop-Same (n - 0) (swap less set_a x 0 n) (swap less set_b y 0 n) 0 n
              (swap-Same x y 0 n s) in
          let t = assign-Same x1 y1 n n none none d in
          let first = pop_eq less set_a x n l in
          let both : some (x', a) ≡ some (pop_last less set_a x1 n) = sym h ∙ first in
          let left : x' ≡ (pop_last less set_a x1 n).0 = cc in
          let answer : a ≡ x1.elem n = cc in
          let s' : Same (pop_last less set_a x1 n).0 (pop_last less set_b y1 n).0 = record {
            len = refl;
            elem = t.elem;
            same = t.same;
          } in
          (
            (pop_last less set_b y1 n).0,
            pop_eq less set_b y n (sym s.len ∙ l)
                ∙ ap (λ u. some ((pop_last less set_b y1 n).0, u)) (sym (d.elem n) ∙ sym answer),
            subst (λ u. Same u (pop_last less set_b y1 n).0) (sym left) s',
          )
    ]
