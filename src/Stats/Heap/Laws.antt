-- ===== src/Stats/Heap/Laws.antt =====
-- stats/heap.go: what Push, Pop and Remove do to a heap as a set of entries.
use gorouter.Base.{
  ◌∙◌, ℕ, zero, suc, ◌+◌, ◌<◌, ◌≤◌, ◌≡◌, ◌≢◌, ◌⊎◌, ◌↔◌, inl, inr, refl, Option, some, Bool, arith,
  eq_cases, if◌then◌else◌, ◌==◌,
}
use gorouter.Stats.Order.{parent, parent_lt, Leq, IsOrder, IsHeap, Rising}
use gorouter.Stats.Heap.{Heap, update, assign, heap_push}
use gorouter.Stats.Heap.Swaps.{IsEntry, value, IsIndexed, HasBelow, assign_core, assign_index}
use gorouter.Stats.Heap.Moves.{up-Rises}

module _ {E C : Type 0} (core : E → C) (index : E → Option ℕ) (before : C → C → Bool) where
  abbrev pub IsValid : Heap E → Type 0
  IsValid x = IsIndexed core index x × IsHeap before x.len (value core index x)

  abbrev pub Has : Heap E → ℕ → Type 0
  Has x r = HasBelow core index x.len x r

  -- The element a came to the heap.
  pub record Pushed (x : Heap E) (a : ℕ) (x' : Heap E) : Type 0 where
    pub valid : IsValid x'
    pub same : (r : ℕ) → core (x'.entries r) ≡ core (x.entries r)
    pub has : (r : ℕ) → Has x' r ↔ (Has x r ⊎ (r ≡ a))

  -- The element a left the heap.
  pub record Taken (x : Heap E) (a : ℕ) (x' : Heap E) : Type 0 where
    pub valid : IsValid x'
    pub shorter : x.len ≡ x'.len + 1
    pub same : (r : ℕ) → core (x'.entries r) ≡ core (x.entries r)
    pub member : Has x a
    pub has : (r : ℕ) → Has x' r ↔ (Has x r × (r ≢ a))

  -- A heap stays valid where its entries keep their indices and their order.
  pub IsValid-agrees :
      (x x' : Heap E)
      → x'.len ≡ x.len
      → ((k : ℕ) → x'.elem k ≡ x.elem k)
      → ((r : ℕ) → Has x r → index (x'.entries r) ≡ index (x.entries r))
      → ((q r : ℕ)
          → Has x q
          → Has x r
          → before (core (x'.entries q)) (core (x'.entries r))
            ≡ before (core (x.entries q)) (core (x.entries r)))
      → IsValid x
      → IsValid x'
  IsValid-agrees x x' len elem keep order (indexed, heap) = (
    λ k in_k.
        let inside : k < x.len = omega (arith, in_k, len) in
        let e = elem k in
        let i = keep (x.elem k) (k, inside, refl) in let j = indexed k inside in cc,
    λ k some_k in_k.
        let inside : k < x.len = omega (arith, in_k, len) in
        let above : parent k < x.len = omega (arith, parent_lt k some_k, inside) in
        let e = elem k in
        let p = elem (parent k) in
        let o = order (x.elem k) (x.elem (parent k)) (k, inside, refl) (parent k, above, refl) in
        let h = heap k some_k inside in cc,
  )

  module _ (order : IsOrder before) where
    -- The first element of a heap is the least.
    pub root_least :
        (fuel n : ℕ) (v : ℕ → C) (k : ℕ)
        → k ≤ fuel
        → k < n
        → Leq before (v 0) (v 0)
        → IsHeap before n v
        → Leq before (v 0) (v k)
    root_least fuel n v zero enough in_k least h = least
    root_least zero n v (suc k) enough in_k least h = absurd (omega (arith, enough))
    root_least (suc fuel) n v (suc k) enough in_k least h =
        let p = parent_lt (suc k) (omega arith) in
        order.trans (v 0) (v (parent (suc k))) (v (suc k))
          (root_least fuel n v (parent (suc k)) (omega (arith, p, enough)) (omega (arith, p, in_k))
            least h)
          (h (suc k) (omega arith) in_k)

  module _ (less : E → E → Bool) (set_index : E → Option ℕ → E)
      (entry : IsEntry less set_index before core index) (order : IsOrder before) where
    -- The slice with an element more.
    abbrev appended : Heap E → ℕ → Heap E
    appended x a =
        assign less set_index (record x { len = x.len + 1; elem = update x.elem x.len a }) x.len
          (some x.len)

    appended_len : (x : Heap E) (a : ℕ) → (appended x a).len ≡ x.len + 1
    unfolding assign
    appended_len x a = refl

    appended_elem :
        (x : Heap E) (a k : ℕ) → (appended x a).elem k ≡ (if k == x.len then a else x.elem k)
    unfolding assign update
    appended_elem x a k = refl

    appended_core : (x : Heap E) (a r : ℕ) → core ((appended x a).entries r) ≡ core (x.entries r)
    appended_core x a r =
        assign_core core index before less set_index entry
          (record x { len = x.len + 1; elem = update x.elem x.len a }) x.len (some x.len) r

    appended_index :
        (x : Heap E) (a r : ℕ)
        → index ((appended x a).entries r) ≡ (if r == a then some x.len else index (x.entries r))
    unfolding update
    appended_index x a r = ground (
      arith,
      assign_index core index before less set_index entry
          (record x { len = x.len + 1; elem = update x.elem x.len a }) x.len (some x.len) r,
    )

    appended-IsIndexed :
        (x : Heap E) (a : ℕ)
        → IsIndexed core index x
        → ¬ Has x a
        → IsIndexed core index (appended x a)
    appended-IsIndexed x a v new k in_k = elim (eq_cases k x.len) [
      | inl e ↦ ground (arith, appended_elem x a k, appended_index x a a)
      | inr n ↦
          let inside : k < x.len = omega (arith, in_k, n, appended_len x a) in
          let other : x.elem k ≢ a = λ h. new (k, inside, h) in
          ground (arith, appended_elem x a k, appended_index x a (x.elem k), v k inside, other)
    ]

    value-appended :
        (x : Heap E) (a k : ℕ)
        → k < x.len
        → value core index (appended x a) k ≡ value core index x k
    value-appended x a k inside =
        ground (arith, appended_elem x a k, appended_core x a (x.elem k), inside)

    appended-Rising :
        (x : Heap E) (a : ℕ)
        → IsHeap before x.len (value core index x)
        → Rising before (x.len + 1) (value core index (appended x a)) x.len
    appended-Rising x a h = record {
      others = λ k some_k in_k differ.
          let inside : k < x.len = omega (arith, in_k, differ) in
          let p = parent_lt k some_k in
          let ek = value-appended x a k inside in
          let ep = value-appended x a (parent k) (omega (arith, p, inside)) in
          let o = h k some_k inside in cc;
      bridge =
          λ k some_k in_k under some_len. absurd (omega (arith, parent_lt k some_k, under, in_k));
    }

    pub heap_push-Pushed :
        (x : Heap E) (a : ℕ) → IsValid x → ¬ Has x a → Pushed x a (heap_push less set_index x a)
    unfolding heap_push
    heap_push-Pushed x a (indexed, heap) new =
        let y = appended x a in
        let (m, h) =
          up-Rises core index before less set_index entry order y x.len (x.len + 1) (omega arith)
            (omega (arith, appended_len x a)) (appended-Rising x a heap) in
        let len = m.len ∙ appended_len x a in
        let z = heap_push less set_index x a in
        record {
          valid = (
            m.indexed (appended-IsIndexed x a indexed new),
            λ k some_k in_k. h k some_k (omega (arith, in_k, len)),
          );
          same = λ r. m.same r ∙ appended_core x a r;
          has = λ r. (
            λ (k, in_k, e).
                let (j, in_j, e') = m.back r (k, omega (arith, in_k, len), e) in
                elim (eq_cases j x.len) [
                  | inl last ↦ inr (ground (arith, appended_elem x a j, last))
                  | inr n ↦ inl (j, omega (arith, in_j, n), ground (arith, appended_elem x a j, n))
                ],
            λ w. elim w [
              | inl (k, in_k, e) ↦
                  let (j, in_j, e') =
                    m.forth r (k, omega (arith, in_k), ground (arith, appended_elem x a k, in_k)) in
                  (j, omega (arith, in_j, len), e')
              | inr e ↦
                  let (j, in_j, e') =
                    m.forth r (x.len, omega arith, ground (arith, appended_elem x a x.len)) in
                  (j, omega (arith, in_j, len), e')
            ],
          );
        }
