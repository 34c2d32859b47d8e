-- ===== src/Stats/Heap/Swaps.antt =====
-- stats/heap.go: what a swap of two elements keeps.
use gorouter.Base.{
  sym, ◌∙◌, ℕ, ◌<◌, ◌≤◌, ◌≡◌, ◌≢◌, inl, inr, refl, Option, some, Bool, arith, eq_cases, lt_cases,
  if◌then◌else◌, ◌==◌,
}
use gorouter.Stats.Order.{Exchanged}
use gorouter.Stats.Heap.{Heap, update, assign, swap}

-- An entry has an index, which SetIndex sets, and a core, which it keeps and Less reads.
pub record IsEntry {E C : Type 0} (less : E → E → Bool) (set_index : E → Option ℕ → E)
    (before : C → C → Bool) (core : E → C) (index : E → Option ℕ) : Type 0 where
  pub core_set : (e : E) (k : Option ℕ) → core (set_index e k) ≡ core e
  pub index_set : (e : E) (k : Option ℕ) → index (set_index e k) ≡ k
  pub less_core : (e f : E) → less e f ≡ before (core e) (core f)

module _ {E C : Type 0} (core : E → C) (index : E → Option ℕ) where
  abbrev pub value : Heap E → ℕ → C
  value x k = core (x.entries (x.elem k))

  abbrev pub IsIndexed : Heap E → Type 0
  IsIndexed x = (k : ℕ) → k < x.len → index (x.entries (x.elem k)) ≡ some k

  abbrev pub HasBelow : ℕ → Heap E → ℕ → Type 0
  HasBelow n x r = (k : ℕ) × (k < n) × (x.elem k ≡ r)

  -- Swaps of the first n elements lead from x to x'.
  pub record Moved (n : ℕ) (x x' : Heap E) : Type 0 where
    pub len : x'.len ≡ x.len
    pub same : (r : ℕ) → core (x'.entries r) ≡ core (x.entries r)
    pub beyond : (k : ℕ) → n ≤ k → x'.elem k ≡ x.elem k
    pub forth : (r : ℕ) → HasBelow n x r → HasBelow n x' r
    pub back : (r : ℕ) → HasBelow n x' r → HasBelow n x r
    pub indexed : IsIndexed x → IsIndexed x'

  pub Moved-refl : (n : ℕ) (x : Heap E) → Moved n x x
  Moved-refl n x = record {
    len = refl;
    same = λ r. refl;
    beyond = λ k out. refl;
    forth = λ r h. h;
    back = λ r h. h;
    indexed = λ h. h;
  }

  pub Moved-trans : (n : ℕ) (x y z : Heap E) → Moved n x y → Moved n y z → Moved n x z
  Moved-trans n x y z f g = record {
    len = g.len ∙ f.len;
    same = λ r. g.same r ∙ f.same r;
    beyond = λ k out. g.beyond k out ∙ f.beyond k out;
    forth = λ r h. g.forth r (f.forth r h);
    back = λ r h. f.back r (g.back r h);
    indexed = λ h. g.indexed (f.indexed h);
  }

  -- Swaps of fewer elements.
  pub Moved-fewer : (n m : ℕ) (x y : Heap E) → n ≤ m → Moved n x y → Moved m x y
  Moved-fewer n m x y fewer f = record {
    len = f.len;
    same = f.same;
    beyond = λ k out. f.beyond k (omega (arith, fewer, out));
    forth = λ r (k, in_m, e). elim (lt_cases k n) [
      | inl inside ↦
          let (j, in_n, e') = f.forth r (k, inside, e) in (j, omega (arith, in_n, fewer), e')
      | inr out ↦ (k, in_m, f.beyond k out ∙ e)
    ];
    back = λ r (k, in_m, e). elim (lt_cases k n) [
      | inl inside ↦
          let (j, in_n, e') = f.back r (k, inside, e) in (j, omega (arith, in_n, fewer), e')
      | inr out ↦ (k, in_m, sym (f.beyond k out) ∙ e)
    ];
    indexed = f.indexed;
  }

  pub IsIndexed-injective :
      (x : Heap E) (a b : ℕ) → IsIndexed x → a < x.len → b < x.len → x.elem a ≡ x.elem b → a ≡ b
  IsIndexed-injective x a b h in_a in_b e =
      let ia = h a in_a in let ib = h b in_b in let same : some a ≡ some b = cc in cc

  module _ (before : C → C → Bool) (less : E → E → Bool) (set_index : E → Option ℕ → E)
      (entry : IsEntry less set_index before core index) where
    pub assign_core :
        (x : Heap E) (i : ℕ) (k : Option ℕ) (r : ℕ)
        → core ((assign less set_index x i k).entries r) ≡ core (x.entries r)
    unfolding assign update
    assign_core x i k r = elim (eq_cases r (x.elem i)) [
      | inl e ↦ ground (arith, entry.core_set (x.entries (x.elem i)) k)
      | inr n ↦ ground arith
    ]

    pub assign_index :
        (x : Heap E) (i : ℕ) (k : Option ℕ) (r : ℕ)
        → index ((assign less set_index x i k).entries r)
          ≡ (if r == x.elem i then k else index (x.entries r))
    unfolding assign update
    assign_index x i k r = ground (arith, entry.index_set (x.entries (x.elem i)) k)

    pub swap_elem :
        (x : Heap E) (i j k : ℕ)
        → (swap less set_index x i j).elem k
          ≡ (if k == j then x.elem i else if k == i then x.elem j else x.elem k)
    unfolding swap assign update
    swap_elem x i j k = refl

    swap_len : (x : Heap E) (i j : ℕ) → (swap less set_index x i j).len ≡ x.len
    unfolding swap assign
    swap_len x i j = refl

    swap_core :
        (x : Heap E) (i j r : ℕ) → core ((swap less set_index x i j).entries r) ≡ core (x.entries r)
    unfolding swap
    swap_core x i j r =
        let y = record x { elem = update (update x.elem i (x.elem j)) j (x.elem i) } in
        assign_core (assign less set_index y i (some i)) j (some j) r ∙ assign_core y i (some i) r

    swap_index :
        (x : Heap E) (i j r : ℕ)
        → index ((swap less set_index x i j).entries r) ≡ (
            if r == (swap less set_index x i j).elem j
            then some j
            else if r == (swap less set_index x i j).elem i
            then some i
            else index (x.entries r))
    unfolding swap assign
    swap_index x i j r =
        let y = record x { elem = update (update x.elem i (x.elem j)) j (x.elem i) } in
        let z = assign less set_index y i (some i) in
        let a = assign_index z j (some j) r in
        let b = assign_index y i (some i) r in ground (arith, a, b)

    pub swap-Exchanged :
        (x : Heap E) (i j : ℕ) → Exchanged before (value x) (value (swap less set_index x i j)) i j
    unfolding swap assign
    swap-Exchanged x i j = record {
      here = elim (eq_cases i j) [
        | inl e ↦ ground (arith, e, swap_core x i j (x.elem i), swap_elem x i j i)
        | inr n ↦ ground (arith, n, swap_core x i j (x.elem j), swap_elem x i j i)
      ];
      there = ground (arith, swap_core x i j (x.elem i), swap_elem x i j j);
      rest = λ k k_i k_j. ground (arith, swap_core x i j (x.elem k), swap_elem x i j k);
    }

    pub swap-Moved :
        (x : Heap E) (i j n : ℕ) → i < n → j < n → n ≤ x.len → Moved n x (swap less set_index x i j)
    swap-Moved x i j n in_i in_j in_n = record {
      len = swap_len x i j;
      same = λ r. swap_core x i j r;
      beyond = λ k out. ground (arith, swap_elem x i j k);
      forth = λ r (k, in_k, e). elim (eq_cases k i) [
        | inl k_i ↦ (j, in_j, ground (arith, swap_elem x i j j))
        | inr away ↦ elim (eq_cases k j) [
          | inl k_j ↦ (i, in_i, ground (arith, swap_elem x i j i))
          | inr apart ↦ (k, in_k, ground (arith, swap_elem x i j k))
        ]
      ];
      back = λ r (k, in_k, e). elim (eq_cases k j) [
        | inl k_j ↦ (i, in_i, ground (arith, swap_elem x i j k))
        | inr apart ↦ elim (eq_cases k i) [
          | inl k_i ↦ (j, in_j, ground (arith, swap_elem x i j k))
          | inr away ↦ (k, in_k, ground (arith, swap_elem x i j k))
        ]
      ];
      indexed = λ h k in_k. elim (eq_cases k j) [
        | inl k_j ↦ ground (arith, swap_index x i j (x.elem i), swap_elem x i j j)
        | inr apart ↦ elim (eq_cases k i) [
          | inl k_i ↦
              let apart' : x.elem i ≢ x.elem j = λ e. apart (
                k_i
                ∙ IsIndexed-injective x i j h (omega (arith, in_i, in_n))
                    (omega (arith, in_j, in_n)) e) in
              ground
                (arith, swap_index x i j (x.elem j), swap_elem x i j i, swap_elem x i j j, apart')
          | inr away ↦
              let inside : k < x.len = omega (arith, in_k, swap_len x i j) in
              let not_i : x.elem k ≢ x.elem i =
                λ e. away (IsIndexed-injective x k i h inside (omega (arith, in_i, in_n)) e) in
              let not_j : x.elem k ≢ x.elem j =
                λ e. apart (IsIndexed-injective x k j h inside (omega (arith, in_j, in_n)) e) in
              ground (
                arith,
                swap_index x i j (x.elem k),
                swap_elem x i j i,
                swap_elem x i j j,
                swap_elem x i j k,
                not_i,
                not_j,
                h k inside,
              )
        ]
      ];
    }
