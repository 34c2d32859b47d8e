-- ===== src/Stats/TopApps/Counts.antt =====
-- stats/top_apps.go: TopApps as a map from applications to their time slots, and what Mark does to it.
use gorouter.Base.{
  ap, sym, subst, ◌∙◌, ℕ, ◌+◌, ◌≡◌, ◌≢◌, inl, inr, refl, List, [], Option, none, some, Bool, true,
  false, arith, Text, map_get, if◌then◌else◌, ltb, text_eq, Option-cases, Bool-cases,
}
use gorouter.Stats.Table.{mark_entry, add_entry}
use gorouter.Stats.Table.Invariant.{IsKind, empty_table-IsSound}
use gorouter.Stats.Table.Marks.{Listed, Sound, look, view_some, view_none, again_lem, added_lem}
use gorouter.Stats.TopApps.{
  Slot, Entry, TopApps, mark_slots, entry_mark, first_mark, less_first, less_requests, set_ti,
  set_ni, top_ops, new_entry, new_top_apps, mark,
}
use gorouter.Stats.TopApps.Slots.{
  total, AreRising, total-mark_slots, AreRising-mark_slots, mark_slots_some,
}

-- The slots, the number of requests and the name.
abbrev pub Data : Type 0
Data = List Slot × ℕ × Text

abbrev pub content : Entry → Data
content e = (e.t, e.n, e.application_id)

abbrev pub sooner : Data → Data → Bool
sooner a b = ltb (first_mark a.0) (first_mark b.0)

abbrev pub busier : Data → Data → Bool
busier a b = ltb b.1 a.1

abbrev pub called : Data → Text
called d = d.2

pub tops-IsKind : IsKind top_ops sooner busier content
unfolding less_first less_requests set_ti set_ni
tops-IsKind = record {
  less_one_lem = λ e f. refl;
  less_two_lem = λ e f. refl;
  content_one = λ e k. refl;
  content_two = λ e k. refl;
  one_one = λ e k. refl;
  two_two = λ e k. refl;
  one_two = λ e k. refl;
  two_one = λ e k. refl;
  order_one = record { flip = λ a b h. ground arith; trans = λ a b c h g. ground arith };
  order_two = record { flip = λ a b h. ground arith; trans = λ a b c h g. ground arith };
}

abbrev pub IsListed : TopApps → ℕ → Type 0
IsListed x r = Listed top_ops sooner busier content tops-IsKind called x r

abbrev pub data_of : TopApps → Text → Option Data
data_of x a = look top_ops sooner busier content tops-IsKind called x a

-- The slots are there, in order, and their sum is kept.
abbrev pub IsGood : Data → Type 0
IsGood d = (d.0 ≢ []) × AreRising 0 d.0 × (d.1 ≡ total d.0)

-- The map and the heaps agree, and the data of each application is good.
pub record IsSound (x : TopApps) : Type 0 where
  pub agree : Sound top_ops sooner busier content tops-IsKind called x
  pub good : (a : Text) (d : Data) → data_of x a ≡ some d → IsGood d

abbrev pub slots : Option Data → List Slot
slots none = []
slots (some d) = d.0

-- The slots of an application; none are left of one that is not known.
abbrev pub slots_of : TopApps → Text → List Slot
slots_of x a = slots (data_of x a)

pub new_top_apps-IsSound : IsSound new_top_apps
unfolding new_top_apps map_get
new_top_apps-IsSound = record {
  agree = empty_table-IsSound top_ops sooner busier content tops-IsKind called (new_entry []);
  good = λ a d h. absurd cc;
}

abbrev marked_data : ℕ → Data → Data
marked_data t d = (mark_slots d.0 t, d.1 + 1, d.2)

content-entry_mark : (t : ℕ) (e : Entry) → content (entry_mark e t) ≡ marked_data t (content e)
unfolding entry_mark
content-entry_mark t e = refl

marked-IsGood :
    (t : ℕ) (ss : List Slot) (n : ℕ) (id : Text)
    → AreRising 0 ss
    → n ≡ total ss
    → IsGood (mark_slots ss t, n + 1, id)
marked-IsGood t ss n id r e =
    (mark_slots_some ss t, AreRising-mark_slots ss t r, omega (arith, e, total-mark_slots ss t))

-- One application has other data.
pub changed-IsGood :
    (x x' : TopApps) (id : Text) (d : Data)
    → IsSound x
    → IsGood d
    → ((a : Text) → data_of x' a ≡ (if text_eq id a then some d else data_of x a))
    → (a : Text) (e : Data) → data_of x' a ≡ some e
    → IsGood e
changed-IsGood x x' id d s g v a e h = elim (Bool-cases (text_eq id a)) [
  | inl same ↦
      let w : some d ≡ some e =
        sym (ap (λ b. if b then some d else data_of x a) same) ∙ sym (v a) ∙ h in
      let eq : d ≡ e = cc in subst (λ u. IsGood u) eq g
  | inr differ ↦
      s.good a e (sym (ap (λ b. if b then some d else data_of x a) differ) ∙ sym (v a) ∙ h)
]

slots-if :
    (b : Bool) (d : Data) (o : Option Data)
    → slots (if b then some d else o) ≡ (if b then d.0 else slots o)
slots-if true d o = refl
slots-if false d o = refl

-- What a mark of an application makes of the table.
abbrev Marks : TopApps → Text → ℕ → Type 0
Marks x id t =
    (x' : TopApps) × (mark x id t ≡ some x')
    × IsSound x'
    × ((a : Text)
        → slots_of x' a ≡ (if text_eq id a then mark_slots (slots_of x id) t else slots_of x a))

module _ (x : TopApps) (id : Text) (t : ℕ) (s : IsSound x) where
  new-Marks : map_get id x.m ≡ none → Marks x id t
  unfolding mark
  new-Marks new =
      let f = λ (e : Entry). entry_mark e t in
      let c = content-entry_mark t (new_entry id) in
      let (s', v) =
        added_lem top_ops sooner busier content tops-IsKind called x id (new_entry id) f s.agree new
          (ap called c) in
      let x' = mark_entry top_ops (add_entry top_ops x id (new_entry id)) x.next_ref f in
      let d = marked_data t (content (new_entry id)) in
      let v' : (a : Text) → data_of x' a ≡ (if text_eq id a then some d else data_of x a) =
        λ a. v a ∙ ap (λ u. if text_eq id a then some u else data_of x a) c in
      let none_yet =
        ap slots (view_none top_ops sooner busier content tops-IsKind called x id new) in
      (
        x',
        ground (arith, new),
        record {
          agree = s';
          good = changed-IsGood x x' id d s (marked-IsGood t [] 0 id tt refl) v';
        },
        λ a.
            ap slots (v' a)
            ∙ slots-if (text_eq id a) d (data_of x a)
            ∙ ap (λ u. if text_eq id a then mark_slots u t else slots_of x a) (sym none_yet),
      )

  again-Marks : (r : ℕ) → map_get id x.m ≡ some r → Marks x id t
  unfolding mark
  again-Marks r h =
      let f = λ (e : Entry). entry_mark e t in
      let (c, took, s', v) =
        again_lem top_ops sooner busier content tops-IsKind called x id r f (marked_data t) s.agree
          h (content-entry_mark t) (λ d. refl) in
      let x' = mark_entry top_ops (record x { apps = c }) r f in
      let d0 = content (x.apps.entries r) in
      let some_data = view_some top_ops sooner busier content tops-IsKind called x id r h in
      let (some_slots, rising, sum) = s.good id d0 some_data in
      (
        x',
        ground (arith, h, took),
        record {
          agree = s';
          good =
              changed-IsGood x x' id (marked_data t d0) s
                (marked-IsGood t d0.0 d0.1 d0.2 rising sum) v;
        },
        λ a.
            ap slots (v a)
            ∙ slots-if (text_eq id a) (marked_data t d0) (data_of x a)
            ∙ ap (λ u. if text_eq id a then mark_slots u t else slots_of x a)
                (sym (ap slots some_data)),
      )

pub mark-Marks :
    (x : TopApps) (id : Text) (t : ℕ)
    → IsSound x
    → (x' : TopApps) × (mark x id t ≡ some x')
      × IsSound x'
      × ((a : Text)
          → slots_of x' a ≡ (if text_eq id a then mark_slots (slots_of x id) t else slots_of x a))
mark-Marks x id t s = elim (Option-cases (map_get id x.m)) [
  | inl new ↦ new-Marks x id t s new
  | inr (r, h) ↦ again-Marks x id t s r h
]
