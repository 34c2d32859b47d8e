-- ===== src/Stats/ActiveApps/Refinement.antt =====
-- stats/active_apps.go: ActiveApps as a map from applications to times.
use gorouter.Base.{ℕ, ◌≡◌, List, some, Text, if◌then◌else◌, text_eq}
use gorouter.Stats.ActiveApps.{ActiveApps, mark, trim, active_since}
use gorouter.Stats.ActiveApps.Times.{IsSound, last_mark, newest, mark-Marks}
use gorouter.Stats.ActiveApps.Trims.{since, trim-Trims}
use gorouter.Stats.ActiveApps.Actives.{listing, AreApart, reaches, active_since_lem}

-- ActiveApps refines a map from applications to the second of their last request, while its map
-- and its two heaps agree: they hold the same entries, each at the index that it keeps, and both
-- heaps are in order. Mark, Trim and ActiveSince do not panic, and Mark and Trim keep the
-- agreement. After Mark an application has the later of its time and the new one, and all others
-- have theirs. Trim takes away exactly the applications whose time is not after t. ActiveSince
-- answers exactly the applications whose time is not before t, none of them twice.
pub active_apps_lem :
    (x : ActiveApps) (id : Text) (t : ℕ)
    → IsSound x
    → ((x' : ActiveApps) × (mark x id t ≡ some x')
        × IsSound x'
        × ((a : Text)
            → last_mark x' a
              ≡ (if text_eq id a then some (newest (last_mark x id) t) else last_mark x a)))
      × ((x' : ActiveApps) × (trim x t ≡ some x')
          × IsSound x'
          × ((a : Text) → last_mark x' a ≡ since t (last_mark x a)))
      × ((ids : List Text) × (active_since x t ≡ some ids)
          × AreApart ids
          × ((a : Text) → listing ids a ≡ reaches t (last_mark x a)))
active_apps_lem x id t s = (mark-Marks x id t s, trim-Trims x t s, active_since_lem x t s)
