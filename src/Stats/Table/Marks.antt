-- ===== src/Stats/Table/Marks.antt =====
-- stats/active_apps.go, stats/top_apps.go: what a change of an entry, and a new one, do to the data
-- of the applications.
use gorouter.Base.{
  ap, sym, subst, ◌∙◌, ℕ, ◌+◌, ◌≡◌, ◌≢◌, ◌↔◌, inl, inr, refl, Option, none, some, Bool, arith, Text,
  map_get, get-put, if◌then◌else◌, text_eq, text_eq_iff, text_eq_refl, eq_cases, Option-cases,
  Bool-cases,
}
use gorouter.Stats.Both.{Both}
use gorouter.Stats.Both.Laws.{
  IsPair-iff, With, Without, remove_one_lem, remove_two_lem, change_lem, update_here, update_other,
}
use gorouter.Stats.Table.{Ops, Table, mark_entry, add_entry, take_entry}
use gorouter.Stats.Table.Invariant.{
  IsKind, IsApps, IsListed, IsSound, view, Marked, mark_entry-Marked,
}

module _ {E D : Type 0} (o : Ops E) (before_one before_two : D → D → Bool) (content : E → D)
    (k : IsKind o before_one before_two content) (name : D → Text) where
  abbrev pub Listed : Table E → ℕ → Type 0
  Listed x r = IsListed o before_one before_two content k name x r

  abbrev pub Sound : Table E → Type 0
  Sound x = IsSound o before_one before_two content k name x

  abbrev pub Apps : (ℕ → Type 0) → (ℕ → Type 0) → Both E → Type 0
  Apps s u c = IsApps o before_one before_two content k name s u c

  abbrev pub look : Table E → Text → Option D
  look x a = view o before_one before_two content k name x a

  pub listed : (x : Table E) (id : Text) (r : ℕ) → Sound x → map_get id x.m ≡ some r → Listed x r
  listed x id r s h = let w = s.known id r h in cc

  pub view_some :
      (x : Table E) (a : Text) (r : ℕ)
      → map_get a x.m ≡ some r
      → look x a ≡ some (content (x.apps.entries r))
  view_some x a r h = ground (arith, h)

  pub view_none : (x : Table E) (a : Text) → map_get a x.m ≡ none → look x a ≡ none
  view_none x a h = ground (arith, h)

  -- An entry that is listed leaves both heaps.
  pub take_entry_lem :
      (x : Table E) (r : ℕ)
      → Sound x
      → Listed x r
      → (c : Both E) × (take_entry o x r ≡ some (record x { apps = c }, r, r))
        × Apps (Without (Listed x) r) (Without (Listed x) r) c
        × ((q : ℕ) → content (c.entries q) ≡ content (x.apps.entries q))
  unfolding take_entry
  take_entry_lem x r s l =
      let u = Listed x in
      let (b, taken, p, keeps) =
        remove_one_lem o.less_one o.set_one before_one o.index_one o.less_two o.set_two before_two
          o.index_two content k u u x.apps r s.pair l in
      let (c, gone, q, keeps', same) =
        remove_two_lem o.less_one o.set_one before_one o.index_one o.less_two o.set_two before_two
          o.index_two content k (Without u r) u b r p l in
      (c, ground (arith, taken, gone), q, λ q. keeps' q ∙ keeps q)

  abbrev pub Again : Table E → Both E → ℕ → D → Table E → Type 0
  Again x c r d x' =
      Marked o before_one before_two content k name (Without (Listed x) r) (record x { apps = c }) r
        d x'

  -- The entry r of the application is back with the data d.
  pub Again-IsSound :
      (x x' : Table E) (c : Both E) (r : ℕ) (d : D)
      → Sound x
      → Listed x r
      → ((q : ℕ) → content (c.entries q) ≡ content (x.apps.entries q))
      → name d ≡ name (content (x.apps.entries r))
      → Again x c r d x'
      → Sound x'
  Again-IsSound x x' c r d s l keeps named w =
      let app : (q : ℕ) → name (content (x'.apps.entries q)) ≡ name (content (x.apps.entries q)) =
        λ q. elim (eq_cases q r) [
          | inl e ↦
              ap (λ u. name (content (x'.apps.entries u))) e
              ∙ ap name w.here
              ∙ named
              ∙ ap (λ u. name (content (x.apps.entries u))) (sym e)
          | inr n ↦ ap name (w.others q n ∙ keeps q)
        ] in
      let m = w.map in
      let members : (q : ℕ) → With (Without (Listed x) r) r q ↔ Listed x' q = λ q. (
        λ v. elim v [ inl (v, n) ↦ let a = app q in cc | inr e ↦ let a = app q in cc ],
        λ h.
            let a = app q in
            let v : Listed x q = cc in elim (eq_cases q r) [ inl e ↦ inr e | inr n ↦ inl (v, n) ],
      ) in
      record {
        pair =
            IsPair-iff o.less_one o.set_one before_one o.index_one o.less_two o.set_two before_two
              o.index_two content k (With (Without (Listed x) r) r) (With (Without (Listed x) r) r)
              (Listed x') (Listed x') x'.apps members members w.pair;
        known = λ id q h. app q ∙ s.known id q (sym (ap (map_get id) m) ∙ h);
        old =
            λ q h. let a = app q in let v : Listed x q = cc in omega (arith, s.old q v, w.next_ref);
      }

  pub Again-view :
      (x x' : Table E) (c : Both E) (id : Text) (r : ℕ) (d : D)
      → Sound x
      → map_get id x.m ≡ some r
      → ((q : ℕ) → content (c.entries q) ≡ content (x.apps.entries q))
      → Again x c r d x'
      → (a : Text) → look x' a ≡ (if text_eq id a then some d else look x a)
  Again-view x x' c id r d s h keeps w a =
      let i = text_eq_iff id a in
      let m = w.map in
      elim (Option-cases (map_get a x.m)) [
        | inl gone ↦
            view_none x' a (ap (map_get a) m ∙ gone)
            ∙ ground (arith, i, gone, h, view_none x a gone)
        | inr (q, v) ↦ view_some x' a q (ap (map_get a) m ∙ v) ∙ elim (eq_cases q r) [
          | inl e ↦
              let same : id ≡ a =
                sym (s.known id r h)
                ∙ ap (λ u. name (content (x.apps.entries u))) (sym e)
                ∙ s.known a q v in
              ap (λ u. some (content (x'.apps.entries u))) e
              ∙ ap some w.here
              ∙ ground (arith, i.1 same)
          | inr n ↦ ap some (w.others q n ∙ keeps q) ∙ ground (arith, i, h, v, n, view_some x a q v)
        ]
      ]

  -- An entry that left both heaps is changed by f and put back.
  pub back_lem :
      (x : Table E) (c : Both E) (r : ℕ) (f : E → E) (step : D → D)
      → Sound x
      → Listed x r
      → Apps (Without (Listed x) r) (Without (Listed x) r) c
      → ((q : ℕ) → content (c.entries q) ≡ content (x.apps.entries q))
      → ((e : E) → content (f e) ≡ step (content e))
      → ((d : D) → name (step d) ≡ name d)
      → (let d = step (content (x.apps.entries r)) in
          let x' = mark_entry o (record x { apps = c }) r f in
          Again x c r d x'
          × Sound x'
          × ((a : Text)
              → look x' a
                ≡ (if text_eq (name (content (x.apps.entries r))) a then some d else look x a)))
  back_lem x c r f step s l p keeps steps names =
      let x1 = record x { apps = c } in
      let x' = mark_entry o x1 r f in
      let d = step (content (x.apps.entries r)) in
      let w =
        mark_entry-Marked o before_one before_two content k name (Without (Listed x) r) x1 r f p
          (λ (m, n). n refl) in
      let here : content (f (c.entries r)) ≡ d = steps (c.entries r) ∙ ap step (keeps r) in
      let w' : Again x c r d x' = subst (λ u. Again x c r u x') here w in
      (
        w',
        Again-IsSound x x' c r d s l keeps (names (content (x.apps.entries r))) w',
        Again-view x x' c (name (content (x.apps.entries r))) r d s l keeps w',
      )

  -- An entry that is taken, changed by f and put back.
  pub again_lem :
      (x : Table E) (id : Text) (r : ℕ) (f : E → E) (step : D → D)
      → Sound x
      → map_get id x.m ≡ some r
      → ((e : E) → content (f e) ≡ step (content e))
      → ((d : D) → name (step d) ≡ name d)
      → (c : Both E) × (take_entry o x r ≡ some (record x { apps = c }, r, r))
        × Sound (mark_entry o (record x { apps = c }) r f)
        × ((a : Text)
            → look (mark_entry o (record x { apps = c }) r f) a
              ≡ (if text_eq id a then some (step (content (x.apps.entries r))) else look x a))
  again_lem x id r f step s h steps names =
      let l = listed x id r s h in
      let (c, took, p, keeps) = take_entry_lem x r s l in
      let (w, s', v) = back_lem x c r f step s l p keeps steps names in
      let x' = mark_entry o (record x { apps = c }) r f in
      let d = step (content (x.apps.entries r)) in
      (
        c,
        took,
        s',
        subst (λ j. (a : Text) → look x' a ≡ (if text_eq j a then some d else look x a))
            (s.known id r h) v,
      )

  -- What a table with a new entry has.
  module _ (x x' : Table E) (id : Text) (s : Sound x) (new : map_get id x.m ≡ none) where
    added-IsSound :
        Apps (With (Listed x) x.next_ref) (With (Listed x) x.next_ref) x'.apps
        → ((q : ℕ) → q ≢ x.next_ref → content (x'.apps.entries q) ≡ content (x.apps.entries q))
        → name (content (x'.apps.entries x.next_ref)) ≡ id
        → ((j : Text) → map_get j x'.m ≡ (if text_eq id j then some x.next_ref else map_get j x.m))
        → x'.next_ref ≡ x.next_ref + 1
        → Sound x'
    added-IsSound p same mine get next =
        let r = x.next_ref in
        let unlisted : ¬ Listed x r = λ l. omega (arith, s.old r l) in
        let app = λ (q : ℕ) (n : q ≢ r). ap name (same q n) in
        let members : (q : ℕ) → With (Listed x) r q ↔ Listed x' q = λ q. elim (eq_cases q r) [
          | inl e ↦
              let t = text_eq_refl id in
              let here : Listed x' r = ap (λ j. map_get j x'.m) mine ∙ get id ∙ ground arith in
              (λ w. subst (λ u. Listed x' u) (sym e) here, λ h. inr e)
          | inr n ↦
              let a = ap (λ j. map_get j x'.m) (app q n) in
              let j = name (content (x.apps.entries q)) in
              let i = text_eq_iff id j in
              (
                λ w. elim w [
                  | inl l ↦ a ∙ get j ∙ ground (arith, i, l, new)
                  | inr e' ↦ absurd (n e')
                ],
                λ h. let h' = sym (get j) ∙ sym a ∙ h in inl (ground (arith, i, h')),
              )
        ] in
        record {
          pair =
              IsPair-iff o.less_one o.set_one before_one o.index_one o.less_two o.set_two before_two
                o.index_two content k (With (Listed x) r) (With (Listed x) r) (Listed x')
                (Listed x') x'.apps members members p;
          known = λ j q h.
              let h' = sym (get j) ∙ h in
              let i = text_eq_iff id j in
              elim (eq_cases q r) [
                | inl e ↦ elim (Bool-cases (text_eq id j)) [
                  | inl found ↦ ap (λ u. name (content (x'.apps.entries u))) e ∙ mine ∙ i.0 found
                  | inr differ ↦
                      let w : map_get j x.m ≡ some r = ground (arith, h', differ) in
                      absurd (unlisted (listed x j r s w))
                ]
                | inr n ↦
                    let w : map_get j x.m ≡ some q = ground (arith, h', n) in
                    app q n ∙ s.known j q w
              ];
          old = λ q h. elim ((members q).1 h) [
            | inl l ↦ omega (arith, s.old q l, next)
            | inr e ↦ omega (arith, e, next)
          ];
        }

    added_view :
        (d : D)
        → ((q : ℕ) → q ≢ x.next_ref → content (x'.apps.entries q) ≡ content (x.apps.entries q))
        → content (x'.apps.entries x.next_ref) ≡ d
        → ((j : Text) → map_get j x'.m ≡ (if text_eq id j then some x.next_ref else map_get j x.m))
        → (a : Text) → look x' a ≡ (if text_eq id a then some d else look x a)
    added_view d same here get a = elim (Bool-cases (text_eq id a)) [
      | inl found ↦
          view_some x' a x.next_ref (get a ∙ ground (arith, found))
          ∙ ap some here
          ∙ ground (arith, found)
      | inr differ ↦ elim (Option-cases (map_get a x.m)) [
        | inl gone ↦
            view_none x' a (get a ∙ ground (arith, differ, gone))
            ∙ ground (arith, differ, view_none x a gone)
        | inr (q, w) ↦
            let q_r : q ≢ x.next_ref = λ u. omega (arith, u, s.old q (listed x a q s w)) in
            view_some x' a q (get a ∙ ground (arith, differ, w))
            ∙ ap some (same q q_r)
            ∙ ground (arith, differ, view_some x a q w)
      ]
    ]

  -- A new entry e, changed by f.
  pub added_lem :
      (x : Table E) (id : Text) (e : E) (f : E → E)
      → Sound x
      → map_get id x.m ≡ none
      → name (content (f e)) ≡ id
      → (let x' = mark_entry o (add_entry o x id e) x.next_ref f in
          Sound x'
          × ((a : Text) → look x' a ≡ (if text_eq id a then some (content (f e)) else look x a)))
  unfolding add_entry
  added_lem x id e f s new named =
      let r = x.next_ref in
      let x1 = add_entry o x id e in
      let x' = mark_entry o x1 r f in
      let unlisted : ¬ Listed x r = λ l. omega (arith, s.old r l) in
      let p =
        change_lem o.less_one o.set_one before_one o.index_one o.less_two o.set_two before_two
          o.index_two content k (Listed x) (Listed x) x.apps r e s.pair unlisted unlisted in
      let w =
        mark_entry-Marked o before_one before_two content k name (Listed x) x1 r f p unlisted in
      let same : (q : ℕ) → q ≢ r → content (x'.apps.entries q) ≡ content (x.apps.entries q) =
        λ q n. w.others q n ∙ ap content (update_other x.apps.entries r e q n) in
      let here : content (x'.apps.entries r) ≡ content (f e) =
        w.here ∙ ap (λ u. content (f u)) (update_here x.apps.entries r e) in
      let get = λ (j : Text). ap (map_get j) w.map ∙ get-put id j r x.m in
      (
        added-IsSound x x' id s new w.pair same (ap name here ∙ named) get w.next_ref,
        added_view x x' id s new (content (f e)) same here get,
      )
