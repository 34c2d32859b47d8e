-- ===== src/Stats/Heap.antt =====
-- stats/heap.go: Heap, with the functions of the standard library's container/heap that the code
-- calls on it. Its elements are references to the entries, and an entry keeps its index; the
-- elements at `len` and beyond are not part of the slice. A panic is `none`.
pub mod Swaps
pub mod Moves
pub mod Laws
pub mod Takes
pub mod Snapshot
use gorouter.Base.{
  ℕ, zero, suc, ◌+◌, ◌-◌, ◌*◌, Option, none, some, Bool, true, false, not, ◌&&◌, ◌||◌,
  if◌then◌else◌, ltb, ◌==◌,
}
use gorouter.Stats.Order.{parent}

-- The slice h, and the entries that it shares.
pub record Heap (E : Type 0) : Type 0 where
  pub len : ℕ
  pub elem : ℕ → ℕ
  pub entries : ℕ → E

unfoldable pub update : {A : Type 0} → (ℕ → A) → ℕ → A → ℕ → A
update f i a j = if j == i then a else f j

-- What a type of heap has: Less on entries, and SetIndex, where no index is -1.
module _ {E : Type 0} (less : E → E → Bool) (set_index : E → Option ℕ → E) where
  unfoldable pub assign : Heap E → ℕ → Option ℕ → Heap E
  assign x i j = record x {
    entries = update x.entries (x.elem i) (set_index (x.entries (x.elem i)) j);
  }

  unfoldable pub swap : Heap E → ℕ → ℕ → Heap E
  swap x i j =
      assign
        (assign (record x { elem = update (update x.elem i (x.elem j)) j (x.elem i) }) i (some i)) j
        (some j)

  unfoldable pub less_at : Heap E → ℕ → ℕ → Bool
  less_at x i j = less (x.entries (x.elem i)) (x.entries (x.elem j))

  -- `up` of container/heap; the first argument bounds j.
  unfoldable pub up_loop : ℕ → Heap E → ℕ → Heap E
  up_loop zero x j = x
  up_loop (suc fuel) x j =
      let rest = up_loop fuel (swap x (parent j) j) (parent j) in
      if parent j == j || not (less_at x j (parent j)) then x else rest

  unfoldable pub up : Heap E → ℕ → Heap E
  up x j = up_loop j x j

  -- The child that goes up: the right one where there is one and the left one is not less.
  unfoldable pub child : Heap E → ℕ → ℕ → ℕ
  child x i n =
      let left = 2 * i + 1 in
      if ltb (left + 1) n && not (less_at x left (left + 1)) then left + 1 else left

  -- `down` of container/heap; the first argument bounds n - i.
  unfoldable pub down_loop : ℕ → Heap E → ℕ → ℕ → Heap E
  down_loop zero x i n = x
  down_loop (suc fuel) x i n =
      let c = child x i n in
      let rest = down_loop fuel (swap x i c) c n in
      if not (ltb (2 * i + 1) n) || not (less_at x c i) then x else rest

  unfoldable pub down : Heap E → ℕ → ℕ → Heap E
  down x i n = down_loop (n - i) x i n

  unfoldable pub heap_push : Heap E → ℕ → Heap E
  heap_push x a =
      let x' = record x { len = x.len + 1; elem = update x.elem x.len a } in
      up (assign x' x.len (some x.len)) x.len

  -- Pop of Heap: the last element.
  unfoldable pub pop_last : Heap E → ℕ → Heap E × ℕ
  pop_last x n = (record (assign x n none) { len = n }, x.elem n)

  unfoldable pub heap_pop : Heap E → Option (Heap E × ℕ)
  heap_pop x = elim x.len [ zero ↦ none | suc n ↦ some (pop_last (down (swap x 0 n) 0 n) n) ]

  unfoldable pub heap_remove_at : Heap E → ℕ → ℕ → Heap E
  heap_remove_at x i n = if i == n then x else up (down (swap x i n) i n) i

  -- `heap.Remove`; there is no element at -1.
  unfoldable pub heap_remove : Heap E → Option ℕ → Option (Heap E × ℕ)
  heap_remove x none = none
  heap_remove x (some i) = elim x.len [
    | zero ↦ none
    | suc n ↦ if ltb n i then none else some (pop_last (heap_remove_at x i n) n)
  ]
