-- ===== src/Stats/ActiveApps/Tests.antt =====
-- A few applications.
use gorouter.Base.{
  ℕ, ◌≡◌, refl, List, [], ◌∷◌, Option, none, some, Text, codes, map_get, map_put, map_delete,
  if◌then◌else◌, text_eq,
}
use gorouter.Stats.Order.{parent}
use gorouter.Stats.Heap.{
  update, assign, swap, less_at, up_loop, up, child, down_loop, down, heap_push, pop_last, heap_pop,
  heap_remove_at, heap_remove,
}
use gorouter.Stats.Both.{push_one, push_two, pop_one, remove_one, remove_two}
use gorouter.Stats.ActiveApps.{
  ActiveApps, new_active_apps, mark, trim, active_since, entry_mark, less_min, less_max, set_ti,
  set_tj, set_none, trim_loop, collect,
}
use gorouter.Stats.Table.{mark_entry, add_entry, take_entry}
use gorouter.Stats.ActiveApps.Times.{
  IsSound, last_mark, newest, mark-Marks, new_active_apps-IsSound,
}
use gorouter.Stats.ActiveApps.Trims.{since}
use gorouter.Stats.ActiveApps.Actives.{listing, AreApart, reaches}
use gorouter.Stats.ActiveApps.Refinement.{active_apps_lem}

abbrev and_mark : Option ActiveApps → Text → ℕ → Option ActiveApps
and_mark none id t = none
and_mark (some x) id t = mark x id t

abbrev and_trim : Option ActiveApps → ℕ → Option ActiveApps
and_trim none t = none
and_trim (some x) t = trim x t

abbrev and_active : Option ActiveApps → ℕ → Option (List Text)
and_active none t = none
and_active (some x) t = active_since x t

abbrev marked : Option ActiveApps
marked =
    and_mark
      (and_mark (and_mark (and_mark (some new_active_apps) (codes "a") 5) (codes "b") 3) (codes "c")
        9)
      (codes "a") 7

abbrev Runs : Type 0
Runs =
    (and_active marked 0 ≡ some (codes "c" ∷ codes "a" ∷ codes "b" ∷ []))
    × (and_active marked 7 ≡ some (codes "c" ∷ codes "a" ∷ []))
    × (and_active (and_trim marked 3) 0 ≡ some (codes "c" ∷ codes "a" ∷ []))
    × (and_active (and_trim marked 9) 0 ≡ some [])

all_Runs : Runs
unfolding new_active_apps mark trim active_since entry_mark less_min less_max set_ti set_tj set_none
    mark_entry add_entry take_entry trim_loop collect push_one push_two pop_one remove_one
    remove_two update assign swap less_at up_loop up child down_loop down heap_push pop_last
    heap_pop heap_remove_at heap_remove parent map_get map_put map_delete
all_Runs = (refl, refl, refl, refl)

abbrev first :
    (x : ActiveApps) × (mark new_active_apps (codes "a") 5 ≡ some x)
    × IsSound x
    × ((a : Text)
        → last_mark x a ≡ (
            if text_eq (codes "a") a
            then some (newest (last_mark new_active_apps (codes "a")) 5)
            else last_mark new_active_apps a))
first = mark-Marks new_active_apps (codes "a") 5 new_active_apps-IsSound

-- Of one application.
active_apps_lem_example :
    ((x : ActiveApps) × (mark first.0 (codes "b") 7 ≡ some x)
      × IsSound x
      × ((a : Text)
          → last_mark x a ≡ (
              if text_eq (codes "b") a
              then some (newest (last_mark first.0 (codes "b")) 7)
              else last_mark first.0 a)))
    × ((x : ActiveApps) × (trim first.0 7 ≡ some x)
        × IsSound x
        × ((a : Text) → last_mark x a ≡ since 7 (last_mark first.0 a)))
    × ((ids : List Text) × (active_since first.0 7 ≡ some ids)
        × AreApart ids
        × ((a : Text) → listing ids a ≡ reaches 7 (last_mark first.0 a)))
active_apps_lem_example = active_apps_lem first.0 (codes "b") 7 first.2
