-- ===== src/Stats/ActiveApps/Actives.antt =====
-- stats/active_apps.go: what ActiveSince answers.
use gorouter.Base.{
  ap, sym, subst, ◌∙◌, ℕ, zero, suc, ◌<◌, ◌≤◌, ◌≡◌, inl, inr, refl, List, [], ◌∷◌, Option, none,
  some, Bool, true, false, ◌||◌, arith, Text, map_get, leb, text_eq, text_eq_iff, eq_cases,
  lt_cases, Option-cases, Bool-cases,
}
use gorouter.Stats.Heap.{Heap, heap_pop}
use gorouter.Stats.Heap.Swaps.{IsEntry}
use gorouter.Stats.Heap.Laws.{IsValid, Has, Taken}
use gorouter.Stats.Heap.Takes.{heap_pop_lem}
use gorouter.Stats.Heap.Snapshot.{Same, Same-refl, heap_pop-Same}
use gorouter.Stats.Both.{heap_two}
use gorouter.Stats.ActiveApps.{
  Entry, ActiveApps, less_max, set_tj, set_none, apps_ops, collect, active_since,
}
use gorouter.Stats.Table.Marks.{listed}
use gorouter.Stats.ActiveApps.Times.{
  content, older, newer, called, entries-IsKind, IsSound, last_mark, last_some, last_none,
}

abbrev pub listing : List Text → Text → Bool
listing [] a = false
listing (b ∷ bs) a = text_eq b a || listing bs a

abbrev pub AreApart : List Text → Type 0
AreApart [] = Unit
AreApart (b ∷ bs) = (listing bs b ≡ false) × AreApart bs

abbrev IsMax : Heap Entry → Type 0
IsMax y = IsValid content (λ e. e.tj) newer y

abbrev In : Heap Entry → ℕ → Type 0
In y r = Has content (λ e. e.tj) newer y r

abbrev name : Heap Entry → ℕ → Text
name y r = (y.entries r).application_id

max-IsEntry : IsEntry less_max set_tj newer content (λ e. e.tj)
unfolding less_max set_tj
max-IsEntry = record { core_set = λ e k. refl; index_set = λ e k. refl; less_core = λ e f. refl }

-- The names of the entries of a heap that are no older than t.
record Collects (y : Heap Entry) (t : ℕ) (ids : List Text) : Type 0 where
  only :
      (a : Text) → listing ids a ≡ true → (r : ℕ) × In y r × (name y r ≡ a) × (t ≤ (y.entries r).t)
  all : (r : ℕ) → In y r → t ≤ (y.entries r).t → listing ids (name y r) ≡ true
  apart : AreApart ids

pops :
    (y a : Heap Entry)
    → IsMax y
    → Same content y a
    → 0 < y.len
    → (y' a' : Heap Entry) × (z : ℕ) × (heap_pop less_max set_none a ≡ some (a', z))
      × Same content y' a'
      × Taken content (λ e. e.tj) newer y z y'
      × ((r : ℕ) → In y r → (y.entries r).t ≤ (y.entries z).t)
unfolding less_max set_tj set_none
pops y a v s some_left =
    let order = entries-IsKind.order_two in
    let (y', z, done, k, first) =
      heap_pop_lem content (λ e. e.tj) newer less_max set_tj max-IsEntry order y v some_left in
    let (a', done', s') =
      heap_pop-Same content newer less_max set_tj set_none (λ e f. refl) (λ e k. refl) (λ e k. refl)
        y a y' z s done in
    (y', a', z, done', s', k, λ r m. let w = first r m in ground (arith, w))

collect_stop :
    (left : ℕ) (a a' : Heap Entry) (t z : ℕ)
    → heap_pop less_max set_none a ≡ some (a', z)
    → (a'.entries z).t < t
    → collect (suc left) a t ≡ some []
unfolding collect
collect_stop left a a' t z popped early = ground (arith, popped, early)

collect_go :
    (left : ℕ) (a a' : Heap Entry) (t z : ℕ) (ids : List Text)
    → heap_pop less_max set_none a ≡ some (a', z)
    → t ≤ (a'.entries z).t
    → collect left a' t ≡ some ids
    → collect (suc left) a t ≡ some ((a'.entries z).application_id ∷ ids)
unfolding collect
collect_go left a a' t z ids popped late rest = ground (arith, popped, late, rest)

collect-zero : (a : Heap Entry) (t : ℕ) → collect zero a t ≡ some []
unfolding collect
collect-zero a t = refl

Collects-cons :
    (y y' : Heap Entry) (z t : ℕ) (id : Text) (ids : List Text)
    → Taken content (λ e. e.tj) newer y z y'
    → ((q r : ℕ) → In y q → In y r → name y q ≡ name y r → q ≡ r)
    → id ≡ name y z
    → t ≤ (y.entries z).t
    → Collects y' t ids
    → Collects y t (id ∷ ids)
Collects-cons y y' z t id ids k inj mine late c = record {
  only = λ b h. elim (Bool-cases (text_eq id b)) [
    | inl same ↦ (z, k.member, sym mine ∙ (text_eq_iff id b).0 same, late)
    | inr differ ↦
        let (r, m, e, w) = c.only b (ground (arith, h, differ)) in
        let kr = k.same r in
        (r, ((k.has r).0 m).0, sym (ap (λ d. d.1) kr) ∙ e, omega (arith, w, ap (λ d. d.0) kr))
  ];
  all = λ r m w. elim (eq_cases r z) [
    | inl e ↦
        let same : id ≡ name y r = mine ∙ ap (name y) (sym e) in
        ground (arith, (text_eq_iff id (name y r)).1 same)
    | inr n ↦
        let kr = k.same r in
        let rest = c.all r ((k.has r).1 (m, n)) (omega (arith, w, ap (λ d. d.0) kr)) in
        let rest' : listing ids (name y r) ≡ true =
          subst (λ u. listing ids u ≡ true) (ap (λ d. d.1) kr) rest in
        ground (arith, rest')
  ];
  apart = (
    elim (Bool-cases (listing ids id)) [
      | inl twice ↦
          let (r, m, e, w) = c.only id twice in
          let (m', n) = (k.has r).0 m in
          absurd (n (inj r z m' k.member (sym (ap (λ d. d.1) (k.same r)) ∙ e ∙ mine)))
      | inr once ↦ once
    ],
    c.apart,
  );
}

collect-Collects :
    (left : ℕ) (y a : Heap Entry) (t : ℕ)
    → y.len ≡ left
    → IsMax y
    → Same content y a
    → ((q r : ℕ) → In y q → In y r → name y q ≡ name y r → q ≡ r)
    → (ids : List Text) × (collect left a t ≡ some ids) × Collects y t ids
collect-Collects zero y a t l v s inj = (
  [],
  collect-zero a t,
  record {
    only = λ b h. absurd cc;
    all = λ r (k, inside, e) w. absurd (omega (arith, inside, l));
    apart = tt;
  },
)
collect-Collects (suc left) y a t l v s inj =
    let (y', a', z, popped, s', k, newest) = pops y a v s (omega (arith, l)) in
    let cz : content (a'.entries z) ≡ content (y.entries z) = sym (s'.same z) ∙ k.same z in
    let time : (a'.entries z).t ≡ (y.entries z).t = ap (λ c. c.0) cz in
    elim (lt_cases (y.entries z).t t) [
      | inl early ↦ (
        [],
        collect_stop left a a' t z popped (omega (arith, time, early)),
        record {
          only = λ b h. absurd cc;
          all = λ r m w. absurd (omega (arith, newest r m, w, early));
          apart = tt;
        },
      )
      | inr late ↦
          let app : (r : ℕ) → name y' r ≡ name y r = λ r. ap (λ c. c.1) (k.same r) in
          let inj' : (q r : ℕ) → In y' q → In y' r → name y' q ≡ name y' r → q ≡ r =
            λ q r m w e. inj q r ((k.has q).0 m).0 ((k.has r).0 w).0 (sym (app q) ∙ e ∙ app r) in
          let (ids, went, c) =
            collect-Collects left y' a' t (omega (arith, l, k.shorter)) k.valid s' inj' in
          let id = (a'.entries z).application_id in
          let mine : id ≡ name y z = ap (λ c. c.1) cz in
          (
            id ∷ ids,
            collect_go left a a' t z ids popped (omega (arith, time, late)) went,
            Collects-cons y y' z t id ids k inj mine late c,
          )
    ]

-- The time is there and no older than t.
abbrev pub reaches : ℕ → Option ℕ → Bool
reaches t none = false
reaches t (some u) = leb t u

pub active_since_lem :
    (x : ActiveApps) (t : ℕ)
    → IsSound x
    → (ids : List Text) × (active_since x t ≡ some ids)
      × AreApart ids
      × ((a : Text) → listing ids a ≡ reaches t (last_mark x a))
unfolding active_since
active_since_lem x t s =
    let y = heap_two x.apps in
    let inj : (q r : ℕ) → In y q → In y r → name y q ≡ name y r → q ≡ r = λ q r m w e.
      let lq = (s.pair.in_two q).0 m in
      let lr = (s.pair.in_two r).0 w in
      let both : some q ≡ some r = sym lq ∙ ap (λ j. map_get j x.m) e ∙ lr in cc in
    let (ids, went, c) =
      collect-Collects x.apps.two.len y y t refl s.pair.valid_two (Same-refl content y) inj in
    (
      ids,
      went,
      c.apart,
      λ a. elim (Bool-cases (listing ids a)) [
        | inl there ↦
            let (r, m, e, w) = c.only a there in
            let l : map_get a x.m ≡ some r =
              subst (λ u. map_get u x.m ≡ some r) e ((s.pair.in_two r).0 m) in
            there ∙ ground (arith, last_some x a r l, w)
        | inr absent ↦ elim (Option-cases (map_get a x.m)) [
          | inl gone ↦ absent ∙ ground (arith, last_none x a gone)
          | inr (r, l) ↦
              let m =
                (s.pair.in_two r).1
                  (listed apps_ops older newer content entries-IsKind called x a r s l) in
              elim (lt_cases (x.apps.entries r).t t) [
                | inl early ↦ absent ∙ ground (arith, last_some x a r l, early)
                | inr late ↦ let there = c.all r m late in let k = s.known a r l in absurd cc
              ]
        ]
      ],
    )
