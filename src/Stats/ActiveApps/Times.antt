-- ===== src/Stats/ActiveApps/Times.antt =====
-- stats/active_apps.go: ActiveApps as a map from applications to times, and what Mark does to it.
use gorouter.Base.{
  ap, sym, ◌∙◌, [], ℕ, ◌≡◌, inl, inr, refl, Option, none, some, Bool, true, false, arith, Text,
  map_get, if◌then◌else◌, ltb, text_eq, Option-cases,
}
use gorouter.Stats.Table.{mark_entry, add_entry}
use gorouter.Stats.Table.Invariant.{IsKind, empty_table-IsSound}
use gorouter.Stats.Table.Marks.{Listed, Sound, look, view_some, view_none, again_lem, added_lem}
use gorouter.Stats.ActiveApps.{
  Entry, ActiveApps, entry_mark, less_min, less_max, set_ti, set_tj, apps_ops, new_entry,
  new_active_apps, mark,
}

abbrev pub content : Entry → ℕ × Text
content e = (e.t, e.application_id)

abbrev pub older : ℕ × Text → ℕ × Text → Bool
older a b = ltb a.0 b.0

abbrev pub newer : ℕ × Text → ℕ × Text → Bool
newer a b = ltb b.0 a.0

abbrev pub called : ℕ × Text → Text
called d = d.1

pub entries-IsKind : IsKind apps_ops older newer content
unfolding less_min less_max set_ti set_tj
entries-IsKind = record {
  less_one_lem = λ e f. refl;
  less_two_lem = λ e f. refl;
  content_one = λ e k. refl;
  content_two = λ e k. refl;
  one_one = λ e k. refl;
  two_two = λ e k. refl;
  one_two = λ e k. refl;
  two_one = λ e k. refl;
  order_one = record { flip = λ a b h. ground arith; trans = λ a b c h g. ground arith };
  order_two = record { flip = λ a b h. ground arith; trans = λ a b c h g. ground arith };
}

abbrev pub IsListed : ActiveApps → ℕ → Type 0
IsListed x r = Listed apps_ops older newer content entries-IsKind called x r

-- The map and the heaps agree.
abbrev pub IsSound : ActiveApps → Type 0
IsSound x = Sound apps_ops older newer content entries-IsKind called x

abbrev pub data_of : ActiveApps → Text → Option (ℕ × Text)
data_of x a = look apps_ops older newer content entries-IsKind called x a

abbrev pub time_of : Option (ℕ × Text) → Option ℕ
time_of none = none
time_of (some (t, id)) = some t

-- The second of the last request of an application.
abbrev pub last_mark : ActiveApps → Text → Option ℕ
last_mark x a = time_of (data_of x a)

abbrev pub later : ℕ → ℕ → ℕ
later u t = if ltb u t then t else u

abbrev pub newest : Option ℕ → ℕ → ℕ
newest none t = t
newest (some u) t = later u t

abbrev later_data : ℕ → ℕ × Text → ℕ × Text
later_data t d = (later d.0 t, d.1)

content-entry_mark : (t : ℕ) (e : Entry) → content (entry_mark e t) ≡ later_data t (content e)
unfolding entry_mark
content-entry_mark t e = ground arith

pub last_some :
    (x : ActiveApps) (a : Text) (r : ℕ)
    → map_get a x.m ≡ some r
    → last_mark x a ≡ some (x.apps.entries r).t
last_some x a r h =
    ap time_of (view_some apps_ops older newer content entries-IsKind called x a r h)

pub last_none : (x : ActiveApps) (a : Text) → map_get a x.m ≡ none → last_mark x a ≡ none
last_none x a h = ap time_of (view_none apps_ops older newer content entries-IsKind called x a h)

pub new_active_apps-IsSound : IsSound new_active_apps
unfolding new_active_apps
new_active_apps-IsSound =
    empty_table-IsSound apps_ops older newer content entries-IsKind called (new_entry [])

-- The time of data that was changed for one application.
pub time_of-if :
    (b : Bool) (d : ℕ × Text) (o : Option (ℕ × Text)) (u : ℕ)
    → d.0 ≡ u
    → time_of (if b then some d else o) ≡ (if b then some u else time_of o)
time_of-if true d o u e = ap some e
time_of-if false d o u e = refl

pub mark-Marks :
    (x : ActiveApps) (id : Text) (t : ℕ)
    → IsSound x
    → (x' : ActiveApps) × (mark x id t ≡ some x')
      × IsSound x'
      × ((a : Text)
          → last_mark x' a
            ≡ (if text_eq id a then some (newest (last_mark x id) t) else last_mark x a))
unfolding mark
mark-Marks x id t s = elim (Option-cases (map_get id x.m)) [
  | inl new ↦
      let f = λ (e : Entry). entry_mark e t in
      let c = content-entry_mark t (new_entry id) in
      let (s', v) =
        added_lem apps_ops older newer content entries-IsKind called x id (new_entry id) f s new
          (ap called c) in
      let zeros : later 0 t ≡ t = ground arith in
      let first : (content (f (new_entry id))).0 ≡ newest (last_mark x id) t =
        ap (λ d. d.0) c ∙ zeros ∙ sym (ap (λ o. newest o t) (last_none x id new)) in
      (
        mark_entry apps_ops (add_entry apps_ops x id (new_entry id)) x.next_ref f,
        ground (arith, new),
        s',
        λ a.
            ap time_of (v a)
            ∙ time_of-if (text_eq id a) (content (f (new_entry id))) (data_of x a)
                (newest (last_mark x id) t) first,
      )
  | inr (r, h) ↦
      let f = λ (e : Entry). entry_mark e t in
      let (c, took, s', v) =
        again_lem apps_ops older newer content entries-IsKind called x id r f (later_data t) s h
          (content-entry_mark t) (λ d. refl) in
      (
        mark_entry apps_ops (record x { apps = c }) r f,
        ground (arith, h, took),
        s',
        λ a.
            ap time_of (v a)
            ∙ time_of-if (text_eq id a) (later_data t (content (x.apps.entries r))) (data_of x a)
                (newest (last_mark x id) t) (sym (ap (λ o. newest o t) (last_some x id r h))),
      )
]
