-- ===== src/Stats/Table/Invariant.antt =====
-- stats/active_apps.go, stats/top_apps.go: when the map and the heaps agree, and what they stand for:
-- the data of each application.
use gorouter.Base.{ap, ◌∙◌, ℕ, ◌<◌, ◌≡◌, ◌≢◌, refl, Option, none, some, Bool, arith, Text, map_get}
use gorouter.Stats.Heap.{update}
use gorouter.Stats.Both.{Both, push_one}
use gorouter.Stats.Both.Laws.{
  IsShared, IsPair, With, push_one_lem, push_two_lem, change_lem, update_here, update_other,
}
use gorouter.Stats.Table.{Ops, Table, mark_entry, empty_table}

module _ {E D : Type 0} (o : Ops E) (before_one before_two : D → D → Bool) (content : E → D) where
  abbrev pub IsKind : Type 0
  IsKind =
      IsShared o.less_one o.set_one before_one o.index_one o.less_two o.set_two before_two
        o.index_two content

  module _ (k : IsKind) (name : D → Text) where
    abbrev pub IsApps : (ℕ → Type 0) → (ℕ → Type 0) → Both E → Type 0
    IsApps s u x =
        IsPair o.less_one o.set_one before_one o.index_one o.less_two o.set_two before_two
          o.index_two content k s u x

    -- The map refers to the entry under its name.
    abbrev pub IsListed : Table E → ℕ → Type 0
    IsListed x r = map_get (name (content (x.apps.entries r))) x.m ≡ some r

    -- Both heaps hold what the map refers to.
    pub record IsSound (x : Table E) : Type 0 where
      pub pair : IsApps (IsListed x) (IsListed x) x.apps
      pub known :
          (id : Text) (r : ℕ) → map_get id x.m ≡ some r → name (content (x.apps.entries r)) ≡ id
      pub old : (r : ℕ) → IsListed x r → r < x.next_ref

    -- The data of an application.
    abbrev pub view : Table E → Text → Option D
    view x id = elim (map_get id x.m) [ none ↦ none | some r ↦ some (content (x.apps.entries r)) ]

    pub record Marked (s : ℕ → Type 0) (x : Table E) (y : ℕ) (d : D) (x' : Table E) : Type 0 where
      pub pair : IsApps (With s y) (With s y) x'.apps
      pub others : (r : ℕ) → r ≢ y → content (x'.apps.entries r) ≡ content (x.apps.entries r)
      pub here : content (x'.apps.entries y) ≡ d
      pub map : x'.m ≡ x.m
      pub next_ref : x'.next_ref ≡ x.next_ref

    -- An entry that was in no heap is changed and in both.
    pub mark_entry-Marked :
        (s : ℕ → Type 0) (x : Table E) (y : ℕ) (f : E → E)
        → IsApps s s x.apps
        → ¬ s y
        → Marked s x y (content (f (x.apps.entries y))) (mark_entry o x y f)
    unfolding mark_entry
    mark_entry-Marked s x y f p out =
        let e = f (x.apps.entries y) in
        let b = record (x.apps) { entries = update x.apps.entries y e } in
        let q =
          change_lem o.less_one o.set_one before_one o.index_one o.less_two o.set_two before_two
            o.index_two content k s s x.apps y e p out out in
        let c = push_one o.less_one o.set_one b y in
        let (q1, k1) =
          push_one_lem o.less_one o.set_one before_one o.index_one o.less_two o.set_two before_two
            o.index_two content k s s b y q out in
        let (q2, k2) =
          push_two_lem o.less_one o.set_one before_one o.index_one o.less_two o.set_two before_two
            o.index_two content k (With s y) s c y q1 out in
        record {
          pair = q2;
          others = λ r n. k2 r ∙ k1 r ∙ ap content (update_other x.apps.entries y e r n);
          here = k2 y ∙ k1 y ∙ ap content (update_here x.apps.entries y e);
          map = refl;
          next_ref = refl;
        }

    pub empty_table-IsSound : (e : E) → IsSound (empty_table e)
    unfolding map_get
    empty_table-IsSound e = record {
      pair = record {
        valid_one = (λ k h. absurd (omega (arith, h)), λ k h g. absurd (omega (arith, g)));
        valid_two = (λ k h. absurd (omega (arith, h)), λ k h g. absurd (omega (arith, g)));
        in_one = λ r. (λ (k, h, w). absurd (omega (arith, h)), λ l. absurd cc);
        in_two = λ r. (λ (k, h, w). absurd (omega (arith, h)), λ l. absurd cc);
      };
      known = λ id r h. absurd cc;
      old = λ r h. absurd cc;
    }
