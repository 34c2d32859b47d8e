-- ===== src/Stats/TopApps/Round.antt =====
-- stats/top_apps.go: one round of the loop of trim.
use gorouter.Base.{
  ap, sym, ◌∙◌, ℕ, ◌-◌, ◌<◌, ◌≤◌, ◌≡◌, inl, inr, refl, List, [], ◌∷◌, Option, none, some, true,
  arith, Text, map_get, if◌then◌else◌, text_eq, text_eq_iff, eq_cases, Option-cases, Bool-cases,
}
use gorouter.Stats.Both.{Both, pop_one, remove_two}
use gorouter.Stats.Both.Laws.{Without, pop_one_lem, remove_two_lem}
use gorouter.Stats.Table.{mark_entry}
use gorouter.Stats.Table.Marks.{Apps, listed, back_lem, view_some, view_none}
use gorouter.Stats.Table.Drops.{Dropped, dropped, dropped-IsSound, dropped_view, dropped-members}
use gorouter.Stats.TopApps.{
  Slot, Entry, TopApps, trim_slots, entry_trim, first_mark, less_first, less_requests, set_ti,
  set_ni, top_ops,
}
use gorouter.Stats.TopApps.Slots.{trim_slots_lem}
use gorouter.Stats.TopApps.Counts.{
  Data, content, sooner, busier, called, tops-IsKind, IsListed, IsSound, IsGood, data_of, slots,
  slots_of, changed-IsGood,
}
use gorouter.Stats.TopApps.Trims.{refers, strike, refers-strike, trim-late, trim-none}

-- Trim leaves of the slots of each application what Trim of an entry leaves.
abbrev pub TrimsTo : TopApps → ℕ → Option TopApps → Type 0
TrimsTo x t o =
    (x' : TopApps) × (o ≡ some x')
    × IsSound x'
    × ((a : Text) → slots_of x' a ≡ (trim_slots (slots_of x a) t).0)

slots_listed :
    (x : TopApps) (a : Text) (r : ℕ) → map_get a x.m ≡ some r → slots_of x a ≡ (x.apps.entries r).t
slots_listed x a r h = ap slots (view_some top_ops sooner busier content tops-IsKind called x a r h)

slots_unknown : (x : TopApps) (a : Text) → map_get a x.m ≡ none → slots_of x a ≡ []
slots_unknown x a h = ap slots (view_none top_ops sooner busier content tops-IsKind called x a h)

-- All slots are late: nothing goes.
pub all_late :
    (x : TopApps) (t : ℕ)
    → IsSound x
    → ((r : ℕ) → IsListed x r → t < first_mark (x.apps.entries r).t)
    → (a : Text) → slots_of x a ≡ (trim_slots (slots_of x a) t).0
all_late x t s late a = elim (Option-cases (map_get a x.m)) [
  | inl gone ↦
      let e = slots_unknown x a gone in e ∙ sym (trim-none t) ∙ ap (λ u. (trim_slots u t).0) (sym e)
  | inr (r, h) ↦
      let e = slots_listed x a r h in
      let l = late r (listed top_ops sooner busier content tops-IsKind called x a r s.agree h) in
      e ∙ sym (trim-late (x.apps.entries r).t t l) ∙ ap (λ u. (trim_slots u t).0) (sym e)
]

-- The entry u is in no heap.
pub record Out (x : TopApps) (u : ℕ) (c : Both Entry) : Type 0 where
  pub was : IsListed x u
  pub pair :
      Apps top_ops sooner busier content tops-IsKind called
        (Without (IsListed x) u)
        (Without (IsListed x) u)
        c
  pub keeps : (q : ℕ) → content (c.entries q) ≡ content (x.apps.entries q)
  pub first :
      (r : ℕ) → IsListed x r → first_mark (x.apps.entries u).t ≤ first_mark (x.apps.entries r).t

pub take_first :
    (x : TopApps)
    → IsSound x
    → 0 < x.apps.one.len
    → (b c : Both Entry) × (u : ℕ) × (pop_one less_first set_ti x.apps ≡ some (b, u))
      × (remove_two less_requests set_ni b (b.entries u).ni ≡ some (c, u))
      × Out x u c
take_first x s some_left =
    let l = IsListed x in
    let (b, u, popped, was, p, keeps, shorter, least) =
      pop_one_lem less_first set_ti sooner (λ e. e.ti) less_requests set_ni busier (λ e. e.ni)
        content tops-IsKind l l x.apps s.agree.pair some_left in
    let (c, gone, q, keeps', same) =
      remove_two_lem less_first set_ti sooner (λ e. e.ti) less_requests set_ni busier (λ e. e.ni)
        content tops-IsKind (Without l u) l b u p was in
    (
      b,
      c,
      u,
      popped,
      gone,
      record {
        was = was;
        pair = q;
        keeps = λ r. keeps' r ∙ keeps r;
        first = λ r m. let w = least r m in ground (arith, w);
      },
    )

module _ (x : TopApps) (t : ℕ) (s : IsSound x) (c : Both Entry) (u : ℕ) (k : Out x u c) where
  abbrev id : Text
  id = (x.apps.entries u).application_id

  abbrev pushed : TopApps
  pushed = mark_entry top_ops (record x { apps = c }) u (λ e. e)

  abbrev pub lessened : TopApps
  lessened = mark_entry top_ops (record x { apps = c }) u (λ e. entry_trim e t)

  abbrev pub removed : TopApps
  removed =
      dropped top_ops sooner busier content tops-IsKind called x (c.entries u).application_id c

  pub stopped : t < first_mark (x.apps.entries u).t → TrimsTo x t (some pushed)
  stopped late =
      let (w, s', v) =
        back_lem top_ops sooner busier content tops-IsKind called x c u (λ e. e) (λ d. d) s.agree
          k.was k.pair k.keeps (λ e. refl) (λ d. refl) in
      let d = content (x.apps.entries u) in
      let here = view_some top_ops sooner busier content tops-IsKind called x id u k.was in
      let same : (a : Text) → data_of pushed a ≡ data_of x a = λ a.
        v a ∙ elim (Bool-cases (text_eq id a)) [
          | inl e ↦
              ap (λ b. if b then some d else data_of x a) e
              ∙ sym here
              ∙ ap (data_of x) ((text_eq_iff id a).0 e)
          | inr n ↦ ap (λ b. if b then some d else data_of x a) n
        ] in
      (
        pushed,
        refl,
        record { agree = s'; good = λ a e h. s.good a e (sym (same a) ∙ h) },
        λ a. ap slots (same a) ∙ all_late x t s (λ r m. omega (arith, k.first r m, late)) a,
      )

  pub trimmed_here : (entry_trim (c.entries u) t).t ≡ (trim_slots (x.apps.entries u).t t).0
  unfolding entry_trim
  trimmed_here = ap (λ d. (trim_slots d.0 t).0) (k.keeps u)

  here_slots : slots_of x id ≡ (x.apps.entries u).t
  here_slots = slots_listed x id u k.was

  -- The list refers to all entries that have a slot to lose.
  abbrev Covers : TopApps → List ℕ → Type 0
  Covers y l = (r : ℕ) → IsListed y r → first_mark (y.apps.entries r).t ≤ t → refers l r ≡ true

  pub removed_lem :
      (l : List ℕ)
      → (trim_slots (x.apps.entries u).t t).0 ≡ []
      → Covers x l
      → IsSound removed
        × ((a : Text) → (trim_slots (slots_of removed a) t).0 ≡ (trim_slots (slots_of x a) t).0)
        × Covers removed (strike l u)
  removed_lem l empty covers =
      let name = (c.entries u).application_id in
      let named : name ≡ id = ap called (k.keeps u) in
      let d : Dropped top_ops sooner busier content tops-IsKind called x u c = record {
        pair = k.pair;
        keeps = k.keeps;
        was = k.was;
      } in
      let view = λ (a : Text).
        dropped_view top_ops sooner busier content tops-IsKind called x u c name a d in
      let members =
        dropped-members top_ops sooner busier content tops-IsKind called x u c name d named in
      (
        record {
          agree =
              dropped-IsSound top_ops sooner busier content tops-IsKind called x u c name s.agree d
                named;
          good = λ a e h.
              let h' = sym (view a) ∙ h in
              elim (Bool-cases (text_eq name a)) [
                | inl same ↦
                    let w = sym (ap (λ b. if b then none else data_of x a) same) ∙ h' in absurd cc
                | inr differ ↦
                    s.good a e (sym (ap (λ b. if b then none else data_of x a) differ) ∙ h')
              ];
        },
        λ a. elim (Bool-cases (text_eq name a)) [
          | inl same ↦
              let at : id ≡ a = sym named ∙ (text_eq_iff name a).0 same in
              let none_left : slots_of removed a ≡ [] =
                ap slots (view a ∙ ap (λ b. if b then none else data_of x a) same) in
              ap (λ r. (trim_slots r t).0) none_left
              ∙ trim-none t
              ∙ sym empty
              ∙ ap (λ r. (trim_slots r t).0) (sym here_slots ∙ ap (slots_of x) at)
          | inr differ ↦
              ap (λ r. (trim_slots r t).0)
                (ap slots (view a ∙ ap (λ b. if b then none else data_of x a) differ))
        ],
        λ r m early.
            let (m', n) = (members r).1 m in
            let e = ap (λ d. first_mark d.0) (k.keeps r) in
            refers-strike l r u n (covers r m' (omega (arith, e, early))),
      )

  abbrev less_data : Data → Data
  less_data d = ((trim_slots d.0 t).0, d.1 - (trim_slots d.0 t).1, d.2)

  pub lessened_lem :
      (l : List ℕ) (sl : Slot) (ss : List Slot)
      → (trim_slots (x.apps.entries u).t t).0 ≡ sl ∷ ss
      → Covers x l
      → IsSound lessened
        × ((a : Text) → (trim_slots (slots_of lessened a) t).0 ≡ (trim_slots (slots_of x a) t).0)
        × Covers lessened (strike l u)
  unfolding entry_trim
  lessened_lem l sl ss more covers =
      let d0 = content (x.apps.entries u) in
      let d = less_data d0 in
      let known = view_some top_ops sooner busier content tops-IsKind called x id u k.was in
      let (w, s', v) =
        back_lem top_ops sooner busier content tops-IsKind called x c u (λ e. entry_trim e t)
          less_data s.agree k.was k.pair k.keeps (λ e. refl) (λ d. refl) in
      let (some_slots, rising, sum) = s.good id d0 known in
      let (rising', parts, after, starts) = trim_slots_lem 0 t (x.apps.entries u).t rising in
      let late : t < first_mark (trim_slots (x.apps.entries u).t t).0 = elim starts [
        | inl empty ↦ absurd cc
        | inr late ↦ late
      ] in
      let good : IsGood d = (λ e. absurd cc, rising', omega (arith, parts, sum)) in
      (
        record { agree = s'; good = changed-IsGood x lessened id d s good v },
        λ a. elim (Bool-cases (text_eq id a)) [
          | inl same ↦
              let at : id ≡ a = (text_eq_iff id a).0 same in
              let left : slots_of lessened a ≡ d.0 =
                ap slots (v a ∙ ap (λ b. if b then some d else data_of x a) same) in
              ap (λ r. (trim_slots r t).0) left
              ∙ trim-late d.0 t late
              ∙ ap (λ r. (trim_slots r t).0) (sym here_slots ∙ ap (slots_of x) at)
          | inr differ ↦
              ap (λ r. (trim_slots r t).0)
                (ap slots (v a ∙ ap (λ b. if b then some d else data_of x a) differ))
        ],
        λ r m early. elim (eq_cases r u) [
          | inl e ↦
              let f = ap (λ q. first_mark (lessened.apps.entries q).t) e in
              let g = ap (λ d. first_mark d.0) w.here in absurd (omega (arith, f, g, early, late))
          | inr n ↦
              let o = w.others r n ∙ k.keeps r in
              let m' : IsListed x r =
                ap (λ d. map_get (called d) x.m) (sym o)
                ∙ ap (map_get (called (content (lessened.apps.entries r)))) (sym w.map)
                ∙ m in
              let e = ap (λ d. first_mark d.0) o in
              refers-strike l r u n (covers r m' (omega (arith, e, early)))
        ],
      )
