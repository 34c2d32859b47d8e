-- ===== src/Stats/TopApps/Tests.antt =====
-- The requests of three applications.
use gorouter.Base.{
  ℕ, ◌≡◌, refl, List, [], ◌∷◌, Option, none, some, Text, codes, map_get, map_put, map_delete,
  if◌then◌else◌, text_eq,
}
use gorouter.Stats.Order.{parent}
use gorouter.Stats.Heap.{
  update, assign, swap, less_at, up_loop, up, child, down_loop, down, heap_push, pop_last, heap_pop,
  heap_remove_at, heap_remove,
}
use gorouter.Stats.Both.{push_one, push_two, pop_one, remove_one, remove_two}
use gorouter.Stats.Table.{mark_entry, add_entry, take_entry}
use gorouter.Stats.TopApps.{
  TopApps, TopEntry, new_top_apps, mark, trim, top_since, entry_mark, entry_trim, mark_slots, bump,
  needs_slot, trim_slots, first_mark, less_first, less_requests, set_ti, set_ni, set_none,
  trim_loop, collect_top,
}
use gorouter.Stats.TopApps.Counts.{IsSound, slots_of, mark-Marks, new_top_apps-IsSound}
use gorouter.Stats.TopApps.Slots.{total, total_after}
use gorouter.Stats.TopApps.Round.{TrimsTo}
use gorouter.Stats.TopApps.Refinement.{Answers, top_apps_lem}

abbrev marks : List (Text × ℕ) → Option TopApps → Option TopApps
marks ms none = none
marks [] (some x) = some x
marks ((id, t) ∷ ms) (some x) = marks ms (mark x id t)

abbrev and_trim : Option TopApps → ℕ → Option TopApps
and_trim none t = none
and_trim (some x) t = trim x t

abbrev answer : Option (TopApps × List TopEntry) → List (Text × ℕ)
answer none = []
answer (some (x, s)) = pairs s
  where
    pairs : List TopEntry → List (Text × ℕ)
    pairs [] = []
    pairs (e ∷ es) = (e.application_id, e.requests) ∷ pairs es

abbrev and_top : Option TopApps → ℕ → ℕ → List (Text × ℕ)
and_top none t n = []
and_top (some x) t n = answer (top_since x t n)

abbrev busy : Option TopApps
busy =
    marks
      ((codes "a", 5)
        ∷ (codes "b", 5)
        ∷ (codes "a", 5)
        ∷ (codes "a", 6)
        ∷ (codes "b", 8)
        ∷ (codes "c", 9)
        ∷ (codes "b", 9)
        ∷ [])
      (some new_top_apps)

abbrev Runs : Type 0
Runs =
    (and_top busy 0 2 ≡ (codes "b", 3) ∷ (codes "a", 3) ∷ [])
    × (and_top busy 6 5 ≡ (codes "b", 2) ∷ (codes "a", 1) ∷ (codes "c", 1) ∷ [])
    × (and_top (and_trim busy 8) 0 5 ≡ (codes "c", 1) ∷ (codes "b", 1) ∷ [])

all_Runs : Runs
unfolding new_top_apps mark trim top_since entry_mark entry_trim mark_slots bump needs_slot
    trim_slots first_mark less_first less_requests set_ti set_ni set_none mark_entry add_entry
    take_entry trim_loop collect_top push_one push_two pop_one remove_one remove_two update assign
    swap less_at up_loop up child down_loop down heap_push pop_last heap_pop heap_remove_at
    heap_remove parent map_get map_put map_delete
all_Runs = (refl, refl, refl)

abbrev first :
    (x : TopApps) × (mark new_top_apps (codes "a") 5 ≡ some x)
    × IsSound x
    × ((a : Text)
        → slots_of x a ≡ (
            if text_eq (codes "a") a
            then mark_slots (slots_of new_top_apps (codes "a")) 5
            else slots_of new_top_apps a))
first = mark-Marks new_top_apps (codes "a") 5 new_top_apps-IsSound

-- Of one application.
top_apps_lem_example :
    ((x : TopApps) × (mark first.0 (codes "b") 7 ≡ some x)
      × IsSound x
      × ((a : Text)
          → slots_of x a ≡ (
              if text_eq (codes "b") a
              then mark_slots (slots_of first.0 (codes "b")) 7
              else slots_of first.0 a)))
    × TrimsTo first.0 7 (trim first.0 7)
    × ((a : Text)
        → total (trim_slots (slots_of first.0 a) 7).0 ≡ total_after 7 (slots_of first.0 a))
    × Answers first.0 7 10 (top_since first.0 7 10)
top_apps_lem_example = top_apps_lem first.0 (codes "b") 7 10 first.2
