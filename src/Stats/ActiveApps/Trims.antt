-- ===== src/Stats/ActiveApps/Trims.antt =====
-- stats/active_apps.go: what Trim does to the times of the applications.
use gorouter.Base.{
  ap, sym, subst, ◌∙◌, ℕ, zero, suc, ◌<◌, ◌≤◌, ◌≡◌, inl, inr, refl, Option, none, some, Bool, true,
  false, arith, Text, map_get, if◌then◌else◌, ltb, text_eq, text_eq_iff, eq_cases, Option-cases,
  Bool-cases,
}
use gorouter.Stats.Both.{Both, pop_one, push_one, remove_two}
use gorouter.Stats.Both.Laws.{Without, pop_one_lem, remove_two_lem}
use gorouter.Stats.Table.Marks.{listed}
use gorouter.Stats.Table.Drops.{Dropped, dropped, dropped-IsSound, dropped_view, kept_back}
use gorouter.Stats.ActiveApps.{
  Entry, ActiveApps, less_min, less_max, set_ti, set_tj, apps_ops, trim_loop, trim,
}
use gorouter.Stats.ActiveApps.Times.{
  content, older, newer, called, entries-IsKind, IsListed, IsSound, data_of, time_of, last_mark,
  last_some, last_none,
}

-- The times that are later than t.
abbrev pub since : ℕ → Option ℕ → Option ℕ
since t none = none
since t (some u) = if ltb t u then some u else none

-- Where all times are later, nothing is to be trimmed.
rests :
    (x : ActiveApps) (t : ℕ)
    → IsSound x
    → ((r : ℕ) → IsListed x r → t < (x.apps.entries r).t)
    → (a : Text) → last_mark x a ≡ since t (last_mark x a)
rests x t s all a = elim (Option-cases (map_get a x.m)) [
  | inl gone ↦ last_none x a gone ∙ sym (ap (since t) (last_none x a gone))
  | inr (q, w) ↦
      let l = all q (listed apps_ops older newer content entries-IsKind called x a q s w) in
      last_some x a q w ∙ ground (arith, l) ∙ sym (ap (since t) (last_some x a q w))
]

abbrev Gone : ActiveApps → ℕ → Both Entry → Type 0
Gone x z c = Dropped apps_ops older newer content entries-IsKind called x z c

abbrev without : ActiveApps → ℕ → Both Entry → ActiveApps
without x z c =
    dropped apps_ops older newer content entries-IsKind called x (c.entries z).application_id c

abbrev Trimmed : ActiveApps → ℕ → Option ActiveApps → Type 0
Trimmed x t o =
    (x' : ActiveApps) × (o ≡ some x')
    × IsSound x'
    × ((a : Text) → last_mark x' a ≡ since t (last_mark x a))

trim_empty : (fuel : ℕ) (x : ActiveApps) (t : ℕ) → x.apps.one.len ≡ 0 → trim_loop fuel x t ≡ some x
unfolding trim_loop
trim_empty zero x t e = refl
trim_empty (suc fuel) x t e = ground (arith, e)

trim_stop :
    (fuel : ℕ) (x : ActiveApps) (t : ℕ) (b : Both Entry) (z : ℕ)
    → 0 < x.apps.one.len
    → pop_one less_min set_ti x.apps ≡ some (b, z)
    → t < (b.entries z).t
    → trim_loop (suc fuel) x t ≡ some (record x { apps = push_one less_min set_ti b z })
unfolding trim_loop
trim_stop fuel x t b z some_left popped late = ground (arith, some_left, popped, late)

trim_drop :
    (fuel : ℕ) (x : ActiveApps) (t : ℕ) (b c : Both Entry) (z q : ℕ)
    → 0 < x.apps.one.len
    → pop_one less_min set_ti x.apps ≡ some (b, z)
    → (b.entries z).t ≤ t
    → remove_two less_max set_tj b (b.entries z).tj ≡ some (c, q)
    → trim_loop (suc fuel) x t ≡ trim_loop fuel (without x z c) t
unfolding trim_loop
trim_drop fuel x t b c z q some_left popped early gone =
    ground (arith, some_left, popped, early, gone)

no_time :
    (b : Bool) (o : Option (ℕ × Text))
    → time_of (if b then none else o) ≡ (if b then none else time_of o)
no_time true o = refl
no_time false o = refl

without_last :
    (x : ActiveApps) (z : ℕ) (c : Both Entry) (a : Text)
    → Gone x z c
    → (c.entries z).application_id ≡ (x.apps.entries z).application_id
    → last_mark (without x z c) a
      ≡ (if text_eq (x.apps.entries z).application_id a then none else last_mark x a)
without_last x z c a d named =
    let id = (c.entries z).application_id in
    let v = dropped_view apps_ops older newer content entries-IsKind called x z c id a d in
    ap time_of v
    ∙ no_time (text_eq id a) (data_of x a)
    ∙ ap (λ j. if text_eq j a then none else last_mark x a) named

drop_since :
    (x : ActiveApps) (z t : ℕ) (a : Text)
    → IsListed x z
    → (x.apps.entries z).t ≤ t
    → since t (if text_eq (x.apps.entries z).application_id a then none else last_mark x a)
      ≡ since t (last_mark x a)
drop_since x z t a l early =
    let name = (x.apps.entries z).application_id in
    elim (Bool-cases (text_eq name a)) [
      | inl same ↦
          let here : map_get a x.m ≡ some z =
            subst (λ u. map_get u x.m ≡ some z) ((text_eq_iff name a).0 same) l in
          ground (arith, same, early) ∙ sym (ap (since t) (last_some x a z here))
      | inr differ ↦ ground (arith, differ)
    ]

empty-Trimmed :
    (fuel : ℕ) (x : ActiveApps) (t : ℕ)
    → x.apps.one.len ≡ 0
    → IsSound x
    → Trimmed x t (trim_loop fuel x t)
empty-Trimmed fuel x t e s = (
  x,
  trim_empty fuel x t e,
  s,
  rests x t s
      (λ r l. let (k, inside, h) = (s.pair.in_one r).1 l in absurd (omega (arith, inside, e))),
)

trim_loop-Trimmed :
    (fuel : ℕ) (x : ActiveApps) (t : ℕ)
    → x.apps.one.len ≤ fuel
    → IsSound x
    → Trimmed x t (trim_loop fuel x t)
trim_loop-Trimmed zero x t enough s = empty-Trimmed zero x t (omega (arith, enough)) s
trim_loop-Trimmed (suc fuel) x t enough s = elim (eq_cases x.apps.one.len 0) [
  | inl empty ↦ empty-Trimmed (suc fuel) x t empty s
  | inr more ↦
      let u = IsListed x in
      let some_left : 0 < x.apps.one.len = omega (arith, more) in
      let (b, z, popped, l, p, keeps, shorter, least) =
        pop_one_lem less_min set_ti older (λ e. e.ti) less_max set_tj newer (λ e. e.tj) content
          entries-IsKind u u x.apps s.pair some_left in
      let time = ap (λ c. c.0) (keeps z) in
      elim (Bool-cases (ltb t (x.apps.entries z).t)) [
        | inl late ↦
            let all : (r : ℕ) → u r → t < (x.apps.entries r).t =
              λ r m. let w = least r m in ground (arith, w, late) in
            let (s', last) =
              kept_back apps_ops older newer content entries-IsKind called x b z s l p keeps in
            (
              record x { apps = push_one less_min set_ti b z },
              trim_stop fuel x t b z some_left popped (ground (arith, late, time)),
              s',
              λ a. ap time_of (last a) ∙ rests x t s all a,
            )
        | inr early ↦
            let (c, gone, q, keeps', same) =
              remove_two_lem less_min set_ti older (λ e. e.ti) less_max set_tj newer (λ e. e.tj)
                content entries-IsKind (Without u z) u b z p l in
            let d : Gone x z c = record { pair = q; keeps = λ r. keeps' r ∙ keeps r; was = l } in
            let x1 = without x z c in
            let named = ap (λ v. v.1) (keeps' z ∙ keeps z) in
            let (x', went, s', last) =
              trim_loop-Trimmed fuel x1 t (omega (arith, enough, shorter, same)) (
                dropped-IsSound apps_ops older newer content entries-IsKind called x z c
                  (c.entries z).application_id s d named) in
            (
              x',
              trim_drop fuel x t b c z z some_left popped (ground (arith, early, time)) gone ∙ went,
              s',
              λ a.
                  last a
                  ∙ ap (since t) (without_last x z c a d named)
                  ∙ drop_since x z t a l (ground (arith, early)),
            )
      ]
]

pub trim-Trims :
    (x : ActiveApps) (t : ℕ)
    → IsSound x
    → (x' : ActiveApps) × (trim x t ≡ some x')
      × IsSound x'
      × ((a : Text) → last_mark x' a ≡ since t (last_mark x a))
unfolding trim
trim-Trims x t s = trim_loop-Trimmed x.apps.one.len x t (omega arith) s
