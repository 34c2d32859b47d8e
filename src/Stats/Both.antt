-- ===== src/Stats/Both.antt =====
-- stats/active_apps.go, stats/top_apps.go: the two heaps of shared entries that both keep, with the
-- calls of container/heap on the one and on the other. A panic is `none`.
pub mod Laws
use gorouter.Base.{ℕ, Option, none, some, Bool}
use gorouter.Stats.Heap.{Heap, heap_push, heap_pop, heap_remove}

pub record Slice : Type 0 where
  pub len : ℕ
  pub elem : ℕ → ℕ

pub record Both (E : Type 0) : Type 0 where
  pub entries : ℕ → E
  pub one : Slice
  pub two : Slice

abbrev pub heap_one : {E : Type 0} → Both E → Heap E
heap_one x = record { len = x.one.len; elem = x.one.elem; entries = x.entries }

abbrev pub heap_two : {E : Type 0} → Both E → Heap E
heap_two x = record { len = x.two.len; elem = x.two.elem; entries = x.entries }

abbrev pub with_one : {E : Type 0} → Both E → Heap E → Both E
with_one x h = record x { entries = h.entries; one = record { len = h.len; elem = h.elem } }

abbrev pub with_two : {E : Type 0} → Both E → Heap E → Both E
with_two x h = record x { entries = h.entries; two = record { len = h.len; elem = h.elem } }

abbrev pub and_one : {E : Type 0} → Both E → Option (Heap E × ℕ) → Option (Both E × ℕ)
and_one x none = none
and_one x (some (h, r)) = some (with_one x h, r)

abbrev pub and_two : {E : Type 0} → Both E → Option (Heap E × ℕ) → Option (Both E × ℕ)
and_two x none = none
and_two x (some (h, r)) = some (with_two x h, r)

module _ {E : Type 0} (less : E → E → Bool) (set_index : E → Option ℕ → E) where
  unfoldable pub push_one : Both E → ℕ → Both E
  push_one x r = with_one x (heap_push less set_index (heap_one x) r)

  unfoldable pub push_two : Both E → ℕ → Both E
  push_two x r = with_two x (heap_push less set_index (heap_two x) r)

  unfoldable pub pop_one : Both E → Option (Both E × ℕ)
  pop_one x = and_one x (heap_pop less set_index (heap_one x))

  -- The index is that of an entry.
  unfoldable pub remove_one : Both E → Option ℕ → Option (Both E × ℕ)
  remove_one x i = and_one x (heap_remove less set_index (heap_one x) i)

  unfoldable pub remove_two : Both E → Option ℕ → Option (Both E × ℕ)
  remove_two x i = and_two x (heap_remove less set_index (heap_two x) i)
