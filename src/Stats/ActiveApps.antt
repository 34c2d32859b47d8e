-- ===== src/Stats/ActiveApps.antt =====
-- stats/active_apps.go: the applications that had requests, each with the second of its last one, by
-- a heap of the oldest and a heap of the newest. Mark and Trim are one step under
-- the lock each; ActiveSince copies the heap under it and pops the copy, which shares the entries,
-- afterwards, so it is one step only where no Mark comes in between. Times are in seconds: Mark,
-- Trim and ActiveSince take the Unix() of what they get.
pub mod Times
pub mod Trims
pub mod Actives
pub mod Refinement
mod Tests
use gorouter.Base.{
  ℕ, zero, suc, List, [], ◌∷◌, Option, none, some, Bool, true, false, not, Text, map_get,
  map_delete, if◌then◌else◌, ltb,
}
use gorouter.Stats.Heap.{Heap, heap_pop}
use gorouter.Stats.Both.{heap_two, push_one, pop_one, remove_two}
use gorouter.Stats.Table.{Ops, Table, empty_table, mark_entry, add_entry, take_entry}

-- activeAppsEntry; an index that is -1 is `none`.
pub record Entry : Type 0 where
  pub t : ℕ
  pub ti : Option ℕ
  pub tj : Option ℕ
  pub application_id : Text

unfoldable pub entry_mark : Entry → ℕ → Entry
entry_mark x t = if ltb x.t t then record x { t = t } else x

-- byTimeMinHeap
unfoldable pub less_min : Entry → Entry → Bool
less_min yi yj = ltb yi.t yj.t

unfoldable pub set_ti : Entry → Option ℕ → Entry
set_ti y j = record y { ti = j }

-- byTimeMaxHeap
unfoldable pub less_max : Entry → Entry → Bool
less_max yi yj = ltb yj.t yi.t

unfoldable pub set_tj : Entry → Option ℕ → Entry
set_tj y j = record y { tj = j }

-- SetIndex of the snapshot does nothing.
unfoldable pub set_none : Entry → Option ℕ → Entry
set_none y j = y

abbrev pub apps_ops : Ops Entry
apps_ops = record {
  less_one = less_min;
  set_one = set_ti;
  index_one = λ e. e.ti;
  less_two = less_max;
  set_two = set_tj;
  index_two = λ e. e.tj;
}

-- The heaps i and j are the first and the second one of the table.
abbrev pub ActiveApps : Type 0
ActiveApps = Table Entry

-- The zero value of an index is 0.
abbrev pub new_entry : Text → Entry
new_entry id = record { t = 0; ti = some 0; tj = some 0; application_id = id }

unfoldable pub new_active_apps : ActiveApps
new_active_apps = empty_table (new_entry [])

unfoldable pub mark : ActiveApps → Text → ℕ → Option ActiveApps
mark x id t = elim (map_get id x.m) [
  | none ↦ some (
      mark_entry apps_ops (add_entry apps_ops x id (new_entry id)) x.next_ref (λ e. entry_mark e t))
  | some y ↦ elim (take_entry apps_ops x y) [
    | none ↦ none
    | some (x', r, q) ↦ some (mark_entry apps_ops x' y (λ e. entry_mark e t))
  ]
]

-- The loop of Trim; the first argument bounds the length of the heap i.
unfoldable pub trim_loop : ℕ → ActiveApps → ℕ → Option ActiveApps
trim_loop zero x t = some x
trim_loop (suc fuel) x t = elim (ltb 0 x.apps.one.len) [
  | false ↦ some x
  | true ↦ elim (pop_one less_min set_ti x.apps) [
    | none ↦ none
    | some (b, z) ↦ elim (ltb t (b.entries z).t) [
      | true ↦ some (record x { apps = push_one less_min set_ti b z })
      | false ↦ elim (remove_two less_max set_tj b (b.entries z).tj) [
        | none ↦ none
        | some (c, q) ↦
            trim_loop fuel (record x { m = map_delete (c.entries z).application_id x.m; apps = c })
              t
      ]
    ]
  ]
]

unfoldable pub trim : ActiveApps → ℕ → Option ActiveApps
trim x t = trim_loop x.apps.one.len x t

-- The loop of ActiveSince on the snapshot, with its length as the first argument.
unfoldable pub collect : ℕ → Heap Entry → ℕ → Option (List Text)
collect zero a t = some []
collect (suc left) a t = elim (heap_pop less_max set_none a) [
  | none ↦ none
  | some (a', z) ↦ elim (ltb (a'.entries z).t t) [
    | true ↦ some []
    | false ↦ elim (collect left a' t) [
      | none ↦ none
      | some b ↦ some ((a'.entries z).application_id ∷ b)
    ]
  ]
]

unfoldable pub active_since : ActiveApps → ℕ → Option (List Text)
active_since x t = collect x.apps.two.len (heap_two x.apps) t
