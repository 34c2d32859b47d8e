-- ===== src/Stats/TopApps.antt =====
-- stats/top_apps.go: the requests of applications in the last seconds, by a heap of the first second
-- and a heap of the most requests. Mark and Trim are one step under the lock each;
-- TopSince pops its copy of the heap, which shares the entries, after it has given up the lock, so
-- it is one step only where no Mark comes in between. Times are in seconds: Mark, Trim and TopSince
-- take the Unix() of what they get. A panic is `none`.
pub mod Slots
pub mod Counts
pub mod Trims
pub mod Round
pub mod Rounds
pub mod Tops
pub mod Refinement
mod Tests
use gorouter.Base.{
  ℕ, zero, suc, ◌+◌, ◌-◌, List, [], ◌∷◌, ◌++◌, Option, none, some, Bool, true, false, Text, map_get,
  map_delete, if◌then◌else◌, ltb, leb, ◌==◌, ◌&&◌,
}
use gorouter.Stats.Heap.{Heap, heap_pop}
use gorouter.Stats.Both.{heap_two, pop_one, remove_two}
use gorouter.Stats.Table.{Ops, Table, empty_table, mark_entry, add_entry, take_entry}

-- topAppsEntryTimeSlot: a second and its number of requests.
pub record Slot : Type 0 where
  pub t : ℕ
  pub n : ℕ

-- topAppsEntry; an index that is -1 is `none`.
pub record Entry : Type 0 where
  pub ti : Option ℕ
  pub ni : Option ℕ
  pub t : List Slot
  pub n : ℕ
  pub application_id : Text

-- `n == 0 || x.t[n-1].t < t`
unfoldable pub needs_slot : List Slot → ℕ → Bool
needs_slot [] t = true
needs_slot (s ∷ []) t = ltb s.t t
needs_slot (s ∷ s2 ∷ ss) t = needs_slot (s2 ∷ ss) t

-- `x.t[n-1].n++`
unfoldable pub bump : List Slot → List Slot
bump [] = []
bump (s ∷ []) = record s { n = s.n + 1 } ∷ []
bump (s ∷ s2 ∷ ss) = s ∷ bump (s2 ∷ ss)

unfoldable pub mark_slots : List Slot → ℕ → List Slot
mark_slots ss t = bump (if needs_slot ss t then ss ++ (record { t = t; n = 0 }) ∷ [] else ss)

unfoldable pub entry_mark : Entry → ℕ → Entry
entry_mark x t = record x { t = mark_slots x.t t; n = x.n + 1 }

-- The loop of Trim: the slots that stay, and the requests of those that go.
unfoldable pub trim_slots : List Slot → ℕ → List Slot × ℕ
trim_slots [] t = ([], 0)
trim_slots (s ∷ ss) t =
    let rest = trim_slots ss t in if ltb t s.t then (s ∷ ss, 0) else (rest.0, s.n + rest.1)

unfoldable pub entry_trim : Entry → ℕ → Entry
entry_trim x t = record x { t = (trim_slots x.t t).0; n = x.n - (trim_slots x.t t).1 }

-- `x.t[0].t`, of an entry that has slots.
unfoldable pub first_mark : List Slot → ℕ
first_mark [] = 0
first_mark (s ∷ ss) = s.t

-- byFirstMarkTimeHeap
unfoldable pub less_first : Entry → Entry → Bool
less_first yi yj = ltb (first_mark yi.t) (first_mark yj.t)

unfoldable pub set_ti : Entry → Option ℕ → Entry
set_ti y j = record y { ti = j }

-- byRequestsHeap
unfoldable pub less_requests : Entry → Entry → Bool
less_requests yi yj = ltb yj.n yi.n

unfoldable pub set_ni : Entry → Option ℕ → Entry
set_ni y j = record y { ni = j }

-- SetIndex of the snapshot does nothing.
unfoldable pub set_none : Entry → Option ℕ → Entry
set_none y j = y

abbrev pub top_ops : Ops Entry
top_ops = record {
  less_one = less_first;
  set_one = set_ti;
  index_one = λ e. e.ti;
  less_two = less_requests;
  set_two = set_ni;
  index_two = λ e. e.ni;
}

-- The heaps t and n are the first and the second one of the table.
abbrev pub TopApps : Type 0
TopApps = Table Entry

-- The zero value of an index is 0.
abbrev pub new_entry : Text → Entry
new_entry id = record { ti = some 0; ni = some 0; t = []; n = 0; application_id = id }

unfoldable pub new_top_apps : TopApps
new_top_apps = empty_table (new_entry [])

unfoldable pub mark : TopApps → Text → ℕ → Option TopApps
mark x id t = elim (map_get id x.m) [
  | none ↦
      some (
        mark_entry top_ops (add_entry top_ops x id (new_entry id)) x.next_ref (λ e. entry_mark e t))
  | some y ↦ elim (take_entry top_ops x y) [
    | none ↦ none
    | some (x', z1, z2) ↦ elim (z1 == y && z2 == y) [
      | false ↦ none
      | true ↦ some (mark_entry top_ops x' y (λ e. entry_mark e t))
    ]
  ]
]

-- The loop of trim; it pushes an entry back as it is, or trimmed. The first argument bounds the
-- number of rounds.
unfoldable pub trim_loop : ℕ → TopApps → ℕ → Option TopApps
trim_loop zero x t = none
trim_loop (suc fuel) x t = elim (ltb 0 x.apps.one.len) [
  | false ↦ some x
  | true ↦ elim (pop_one less_first set_ti x.apps) [
    | none ↦ none
    | some (b, u) ↦ elim (remove_two less_requests set_ni b (b.entries u).ni) [
      | none ↦ none
      | some (c, v) ↦ elim (v == u) [
        | false ↦ none
        | true ↦ elim (ltb t (first_mark (c.entries u).t)) [
          | true ↦ some (mark_entry top_ops (record x { apps = c }) u (λ e. e))
          | false ↦ elim ((entry_trim (c.entries u) t).t) [
            | [] ↦
                trim_loop fuel
                  (record x { m = map_delete (c.entries u).application_id x.m; apps = c }) t
            | s ∷ ss ↦ elim (leb s.t t) [
              | true ↦ none
              | false ↦
                  trim_loop fuel
                    (mark_entry top_ops (record x { apps = c }) u (λ e. entry_trim e t)) t
            ]
          ]
        ]
      ]
    ]
  ]
]

unfoldable pub trim : TopApps → ℕ → Option TopApps
trim x t = trim_loop (x.apps.one.len + 1) x t

-- TopAppsTopEntry
pub record TopEntry : Type 0 where
  pub application_id : Text
  pub requests : ℕ

-- The loop of TopSince on the snapshot, with its length and the number of answers to go.
unfoldable pub collect_top : ℕ → ℕ → Heap Entry → Option (List TopEntry)
collect_top zero n a = some []
collect_top (suc left) zero a = some []
collect_top (suc left) (suc n) a = elim (heap_pop less_requests set_none a) [
  | none ↦ none
  | some (a', z) ↦ elim (collect_top left n a') [
    | none ↦ none
    | some s ↦
        some (
          record { application_id = (a'.entries z).application_id; requests = (a'.entries z).n }
          ∷ s)
  ]
]

unfoldable pub top_since : TopApps → ℕ → ℕ → Option (TopApps × List TopEntry)
top_since x t n = elim (trim x (t - 1)) [
  | none ↦ none
  | some x' ↦ elim (collect_top x'.apps.two.len n (heap_two x'.apps)) [
    | none ↦ none
    | some s ↦ some (x', s)
  ]
]
