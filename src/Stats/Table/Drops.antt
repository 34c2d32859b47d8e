-- ===== src/Stats/Table/Drops.antt =====
-- stats/active_apps.go, stats/top_apps.go: an entry that leaves the heaps and the map, and one that
-- comes back to a heap.
use gorouter.Base.{
  ap, sym, subst, ◌∙◌, ℕ, ◌≡◌, ◌↔◌, inl, inr, refl, Option, none, some, Bool, arith, Text, map_get,
  map_delete, get-delete, if◌then◌else◌, text_eq, text_eq_iff, eq_cases, Option-cases, Bool-cases,
}
use gorouter.Stats.Both.{Both, push_one}
use gorouter.Stats.Both.Laws.{IsPair-iff, With, Without, push_one_lem}
use gorouter.Stats.Table.{Ops, Table}
use gorouter.Stats.Table.Invariant.{IsKind}
use gorouter.Stats.Table.Marks.{Listed, Sound, Apps, look, view_some, view_none}

module _ {E D : Type 0} (o : Ops E) (before_one before_two : D → D → Bool) (content : E → D)
    (k : IsKind o before_one before_two content) (name : D → Text) where
  abbrev ListedIn : Table E → ℕ → Type 0
  ListedIn x r = Listed o before_one before_two content k name x r

  abbrev viewed : Table E → Text → Option D
  viewed x a = look o before_one before_two content k name x a

  -- An entry z left both heaps.
  pub record Dropped (x : Table E) (z : ℕ) (c : Both E) : Type 0 where
    pub pair :
        Apps o before_one before_two content k name
          (Without (ListedIn x) z)
          (Without (ListedIn x) z)
          c
    pub keeps : (q : ℕ) → content (c.entries q) ≡ content (x.apps.entries q)
    pub was : ListedIn x z

  -- `id` is its name.
  abbrev pub dropped : Table E → Text → Both E → Table E
  dropped x id c = record x { m = map_delete id x.m; apps = c }

  pub dropped-members :
      (x : Table E) (z : ℕ) (c : Both E) (id : Text)
      → Dropped x z c
      → id ≡ name (content (x.apps.entries z))
      → (q : ℕ) → Without (ListedIn x) z q ↔ ListedIn (dropped x id c) q
  dropped-members x z c id d named q =
      let a = name (content (x.apps.entries q)) in
      let g = get-delete id a x.m in
      let i = text_eq_iff id a in
      let w = d.was in
      let to = ap (λ u. map_get (name u) (dropped x id c).m) (d.keeps q) in
      (
        λ (l, n). to ∙ g ∙ elim (Bool-cases (text_eq id a)) [
          | inl same ↦
              let e : some q ≡ some z =
                sym l ∙ ap (λ j. map_get j x.m) (sym (i.0 same) ∙ named) ∙ w in
              absurd (n cc)
          | inr differ ↦ ground (arith, differ, l)
        ],
        λ h.
            let h' = sym g ∙ sym to ∙ h in
            let l : ListedIn x q = ground (arith, h') in
            (
              l,
              λ e.
                  let same : id ≡ a = named ∙ ap (λ u. name (content (x.apps.entries u))) (sym e) in
                  absurd (ground (arith, i.1 same, h')),
            ),
      )

  pub dropped-IsSound :
      (x : Table E) (z : ℕ) (c : Both E) (id : Text)
      → Sound o before_one before_two content k name x
      → Dropped x z c
      → id ≡ name (content (x.apps.entries z))
      → Sound o before_one before_two content k name (dropped x id c)
  dropped-IsSound x z c id s d named =
      let members = dropped-members x z c id d named in
      record {
        pair =
            IsPair-iff o.less_one o.set_one before_one o.index_one o.less_two o.set_two before_two
              o.index_two content k (Without (ListedIn x) z) (Without (ListedIn x) z)
              (ListedIn (dropped x id c)) (ListedIn (dropped x id c)) c members members d.pair;
        known = λ j q h.
            let h' = sym (get-delete id j x.m) ∙ h in
            let w : map_get j x.m ≡ some q = ground (arith, h') in
            ap name (d.keeps q) ∙ s.known j q w;
        old = λ q h. s.old q ((members q).1 h).0;
      }

  pub dropped_view :
      (x : Table E) (z : ℕ) (c : Both E) (id a : Text)
      → Dropped x z c
      → viewed (dropped x id c) a ≡ (if text_eq id a then none else viewed x a)
  dropped_view x z c id a d =
      let y = dropped x id c in
      let g = get-delete id a x.m in
      elim (Bool-cases (text_eq id a)) [
        | inl same ↦
            view_none o before_one before_two content k name y a (g ∙ ground (arith, same))
            ∙ ground (arith, same)
        | inr differ ↦ elim (Option-cases (map_get a x.m)) [
          | inl gone ↦
              view_none o before_one before_two content k name y a
                (g ∙ ground (arith, differ, gone))
              ∙ ground (arith, differ, view_none o before_one before_two content k name x a gone)
          | inr (q, w) ↦
              view_some o before_one before_two content k name y a q (g ∙ ground (arith, differ, w))
              ∙ ap some (d.keeps q)
              ∙ ground (arith, differ, view_some o before_one before_two content k name x a q w)
        ]
      ]

  -- The same data in other heaps.
  pub same_view :
      (x x' : Table E) (a : Text)
      → x'.m ≡ x.m
      → ((q : ℕ) → content (x'.apps.entries q) ≡ content (x.apps.entries q))
      → viewed x' a ≡ viewed x a
  same_view x x' a m keeps = elim (Option-cases (map_get a x.m)) [
    | inl gone ↦
        view_none o before_one before_two content k name x' a (ap (map_get a) m ∙ gone)
        ∙ sym (view_none o before_one before_two content k name x a gone)
    | inr (q, w) ↦
        view_some o before_one before_two content k name x' a q (ap (map_get a) m ∙ w)
        ∙ ap some (keeps q)
        ∙ sym (view_some o before_one before_two content k name x a q w)
  ]

  -- An entry that was popped from the one heap comes back to it.
  pub kept_back :
      (x : Table E) (b : Both E) (z : ℕ)
      → Sound o before_one before_two content k name x
      → ListedIn x z
      → Apps o before_one before_two content k name (Without (ListedIn x) z) (ListedIn x) b
      → ((q : ℕ) → content (b.entries q) ≡ content (x.apps.entries q))
      → (let x' = record x { apps = push_one o.less_one o.set_one b z } in
          Sound o before_one before_two content k name x' × ((a : Text) → viewed x' a ≡ viewed x a))
  kept_back x b z s l p keeps =
      let u = ListedIn x in
      let (p', w) =
        push_one_lem o.less_one o.set_one before_one o.index_one o.less_two o.set_two before_two
          o.index_two content k (Without u z) u b z p (λ (m, n). n refl) in
      let x' = record x { apps = push_one o.less_one o.set_one b z } in
      let same = λ (q : ℕ). w q ∙ keeps q in
      let listed' : (q : ℕ) → u q ↔ ListedIn x' q =
        λ q. let e = ap (λ c. map_get (name c) x.m) (same q) in (λ m. e ∙ m, λ m. sym e ∙ m) in
      let members : (q : ℕ) → With (Without u z) z q ↔ ListedIn x' q = λ q. (
        λ v. elim v [ inl (m, n) ↦ (listed' q).0 m | inr e ↦ (listed' q).0 (subst u (sym e) l) ],
        λ m. elim (eq_cases q z) [ inl e ↦ inr e | inr n ↦ inl ((listed' q).1 m, n) ],
      ) in
      (
        record {
          pair =
              IsPair-iff o.less_one o.set_one before_one o.index_one o.less_two o.set_two before_two
                o.index_two content k (With (Without u z) z) u (ListedIn x') (ListedIn x') x'.apps
                members listed' p';
          known = λ j q h. ap name (same q) ∙ s.known j q h;
          old = λ q h. s.old q ((listed' q).1 h);
        },
        λ a. same_view x x' a refl same,
      )
