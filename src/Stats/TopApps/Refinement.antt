-- ===== src/Stats/TopApps/Refinement.antt =====
-- stats/top_apps.go: TopApps as a map from applications to time slots.
use gorouter.Base.{
  ap, sym, subst, ◌∙◌, ℕ, ◌-◌, ◌≤◌, ◌≡◌, ◌≢◌, ◌⊎◌, inl, inr, refl, List, [], ◌∷◌, Option, some,
  true, arith, Text, map_get, if◌then◌else◌, text_eq, Option-cases, length,
}
use gorouter.Stats.Both.{heap_two}
use gorouter.Stats.Heap.Snapshot.{Same-refl}
use gorouter.Stats.Table.Marks.{listed, view_some, view_none}
use gorouter.Stats.ActiveApps.Actives.{listing, AreApart}
use gorouter.Stats.TopApps.{
  TopApps, TopEntry, mark, mark_slots, trim, trim_slots, top_since, collect_top, top_ops,
}
use gorouter.Stats.TopApps.Slots.{total, total_after, trim_slots_lem}
use gorouter.Stats.TopApps.Counts.{
  content, sooner, busier, called, tops-IsKind, IsSound, data_of, slots, slots_of, mark-Marks,
}
use gorouter.Stats.TopApps.Round.{TrimsTo}
use gorouter.Stats.TopApps.Rounds.{trim-TrimsTo}
use gorouter.Stats.TopApps.Tops.{names, AreAbove, In, name, AreOf, collect_top-Tops}

-- Each answer is an application with slots, and their number of requests.
abbrev pub AreTrue : TopApps → List TopEntry → Type 0
AreTrue x [] = Unit
AreTrue x (e ∷ s) =
    (slots_of x e.application_id ≢ [])
    × (total (slots_of x e.application_id) ≡ e.requests)
    × AreTrue x s

-- The n applications with the most requests.
pub record IsTop (x : TopApps) (n : ℕ) (s : List TopEntry) : Type 0 where
  pub all_true : AreTrue x s
  pub apart : AreApart (names s)
  pub short : length s ≤ n
  pub rest :
      (a : Text)
      → slots_of x a ≢ []
      → (listing (names s) a ≡ true) ⊎ ((length s ≡ n) × AreAbove (total (slots_of x a)) s)

good_of :
    (x : TopApps) (a : Text) (r : ℕ)
    → IsSound x
    → map_get a x.m ≡ some r
    → (slots_of x a ≢ []) × (total (slots_of x a) ≡ (x.apps.entries r).n)
good_of x a r s h =
    let v = view_some top_ops sooner busier content tops-IsKind called x a r h in
    let (some_slots, rising, sum) = s.good a (content (x.apps.entries r)) v in
    let e = ap slots v in (λ w. some_slots (sym e ∙ w), ap total e ∙ sym sum)

AreTrue-of : (x : TopApps) (s : List TopEntry) → IsSound x → AreOf (heap_two x.apps) s → AreTrue x s
AreTrue-of x [] sound h = tt
AreTrue-of x (e ∷ s) sound ((r, m, named, count), h) =
    let l : map_get e.application_id x.m ≡ some r =
      subst (λ u. map_get u x.m ≡ some r) named ((sound.agree.pair.in_two r).0 m) in
    let (some_slots, sum) = good_of x e.application_id r sound l in
    (some_slots, sum ∙ count, AreTrue-of x s sound h)

IsTop-of :
    (x : TopApps) (n : ℕ)
    → IsSound x
    → (s : List TopEntry) × (collect_top x.apps.two.len n (heap_two x.apps) ≡ some s) × IsTop x n s
IsTop-of x n sound =
    let y = heap_two x.apps in
    let inj : (q r : ℕ) → In y q → In y r → name y q ≡ name y r → q ≡ r = λ q r m w e.
      let lq = (sound.agree.pair.in_two q).0 m in
      let lr = (sound.agree.pair.in_two r).0 w in
      let both : some q ≡ some r = sym lq ∙ ap (λ j. map_get j x.m) e ∙ lr in cc in
    let (s, went, t) =
      collect_top-Tops x.apps.two.len n y y refl sound.agree.pair.valid_two (Same-refl content y)
        inj in
    (
      s,
      went,
      record {
        all_true = AreTrue-of x s sound t.of;
        apart = t.apart;
        short = t.short;
        rest = λ a known. elim (Option-cases (map_get a x.m)) [
          | inl gone ↦ absurd (
              known
                (ap slots (view_none top_ops sooner busier content tops-IsKind called x a gone)))
          | inr (r, l) ↦
              let m =
                (sound.agree.pair.in_two r).1
                  (listed top_ops sooner busier content tops-IsKind called x a r sound.agree l) in
              let named : name y r ≡ a = sound.agree.known a r l in
              let (some_slots, sum) = good_of x a r sound l in
              elim (t.rest r m) [
                | inl there ↦ inl (subst (λ u. listing (names s) u ≡ true) named there)
                | inr (full, above) ↦ inr (full, subst (λ u. AreAbove u s) (sym sum) above)
              ]
        ];
      },
    )

-- What TopSince answers, with the table that it leaves.
abbrev pub Answers : TopApps → ℕ → ℕ → Option (TopApps × List TopEntry) → Type 0
Answers x t n o =
    (x' : TopApps) × (s : List TopEntry) × (o ≡ some (x', s))
    × IsSound x'
    × ((a : Text) → slots_of x' a ≡ (trim_slots (slots_of x a) (t - 1)).0)
    × IsTop x' n s

pub top_since-Answers : (x : TopApps) (t n : ℕ) → IsSound x → Answers x t n (top_since x t n)
unfolding top_since
top_since-Answers x t n sound =
    let (x', went, sound', last) = trim-TrimsTo x (t - 1) sound in
    let (s, done, top) = IsTop-of x' n sound' in
    (x', s, ground (arith, went, done), sound', last, top)

-- What a trim leaves is what came after t.
total_left :
    (x : TopApps) (t : ℕ)
    → IsSound x
    → (a : Text) → total (trim_slots (slots_of x a) t).0 ≡ total_after t (slots_of x a)
unfolding trim_slots
total_left x t s a = elim (Option-cases (data_of x a)) [
  | inl gone ↦
      let e = ap slots gone in ap (λ u. total (trim_slots u t).0) e ∙ ap (total_after t) (sym e)
  | inr (d, known) ↦
      let e = ap slots known in
      let (some_slots, rising, sum) = s.good a d known in
      let (rising', parts, after, starts) = trim_slots_lem 0 t d.0 rising in
      ap (λ u. total (trim_slots u t).0) e ∙ after ∙ ap (total_after t) (sym e)
]

-- TopApps refines a map from applications to time slots, while its map and its two heaps agree
-- and the slots of each application are there, in order of time, and add up to its number of
-- requests. Mark, Trim and TopSince do not panic and keep this, and the loop of trim ends. Mark
-- adds a request to the slots of the application and to no other. Trim leaves of the slots of
-- each application what Trim of an entry leaves, which are the requests after t. TopSince trims
-- up to the second before, and answers at most n different applications, each with its number of
-- requests: an application that it leaves out has no more requests than any of them, and then
-- there are n of them.
pub top_apps_lem :
    (x : TopApps) (id : Text) (t n : ℕ)
    → IsSound x
    → ((x' : TopApps) × (mark x id t ≡ some x')
        × IsSound x'
        × ((a : Text)
            → slots_of x' a
              ≡ (if text_eq id a then mark_slots (slots_of x id) t else slots_of x a)))
      × TrimsTo x t (trim x t)
      × ((a : Text) → total (trim_slots (slots_of x a) t).0 ≡ total_after t (slots_of x a))
      × Answers x t n (top_since x t n)
top_apps_lem x id t n s =
    (mark-Marks x id t s, trim-TrimsTo x t s, total_left x t s, top_since-Answers x t n s)
