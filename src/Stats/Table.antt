-- ===== src/Stats/Table.antt =====
-- stats/active_apps.go, stats/top_apps.go: what ActiveApps and TopApps share: a map from the names of
-- applications to their entries, and the two heaps of these entries.
pub mod Invariant
pub mod Marks
pub mod Drops
use gorouter.Base.{ℕ, ◌+◌, [], Option, none, some, Bool, Text, Map, map_put}
use gorouter.Stats.Heap.{update}
use gorouter.Stats.Both.{Both, Slice, push_one, push_two, remove_one, remove_two}

-- Less and SetIndex of the two heaps, and the fields that SetIndex writes.
pub record Ops (E : Type 0) : Type 0 where
  pub less_one : E → E → Bool
  pub set_one : E → Option ℕ → E
  pub index_one : E → Option ℕ
  pub less_two : E → E → Bool
  pub set_two : E → Option ℕ → E
  pub index_two : E → Option ℕ

-- The map m holds references to the entries.
pub record Table (E : Type 0) : Type 0 where
  pub m : Map ℕ
  pub next_ref : ℕ
  pub apps : Both E

abbrev pub empty_slice : Slice
empty_slice = record { len = 0; elem = λ k. 0 }

-- The entry of a reference that is not there is never read.
abbrev pub empty_table : {E : Type 0} → E → Table E
empty_table e = record {
  m = [];
  next_ref = 0;
  apps = record { entries = λ r. e; one = empty_slice; two = empty_slice };
}

module _ {E : Type 0} (o : Ops E) where
  -- The entry y is changed by f and pushed on both heaps.
  unfoldable pub mark_entry : Table E → ℕ → (E → E) → Table E
  mark_entry x y f =
      let b = record (x.apps) { entries = update x.apps.entries y (f (x.apps.entries y)) } in
      record x { apps = push_two o.less_two o.set_two (push_one o.less_one o.set_one b y) y }

  -- A new entry under its name.
  unfoldable pub add_entry : Table E → Text → E → Table E
  add_entry x id e = record x {
    m = map_put id x.next_ref x.m;
    next_ref = x.next_ref + 1;
    apps = record (x.apps) { entries = update x.apps.entries x.next_ref e };
  }

  -- `heap.Remove` from both heaps, at the indices of the entry y, with what each answers.
  unfoldable pub take_entry : Table E → ℕ → Option (Table E × ℕ × ℕ)
  take_entry x y = elim (remove_one o.less_one o.set_one x.apps (o.index_one (x.apps.entries y))) [
    | none ↦ none
    | some (b, r) ↦ elim (remove_two o.less_two o.set_two b (o.index_two (b.entries y))) [
      | none ↦ none
      | some (c, q) ↦ some (record x { apps = c }, r, q)
    ]
  ]
