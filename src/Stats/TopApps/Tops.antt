-- ===== src/Stats/TopApps/Tops.antt =====
-- stats/top_apps.go: what TopSince answers.
use gorouter.Base.{
  ap, sym, subst, ◌∙◌, ℕ, zero, suc, ◌<◌, ◌≤◌, ◌≡◌, ◌⊎◌, inl, inr, refl, List, [], ◌∷◌, some, true,
  arith, Text, text_eq, text_eq_iff, eq_cases, Bool-cases, length,
}
use gorouter.Stats.Heap.{Heap, heap_pop}
use gorouter.Stats.Heap.Swaps.{IsEntry}
use gorouter.Stats.Heap.Laws.{IsValid, Has, Taken}
use gorouter.Stats.Heap.Takes.{heap_pop_lem}
use gorouter.Stats.Heap.Snapshot.{Same, heap_pop-Same}
use gorouter.Stats.ActiveApps.Actives.{listing, AreApart}
use gorouter.Stats.TopApps.{Entry, TopEntry, less_requests, set_ni, set_none, collect_top}
use gorouter.Stats.TopApps.Counts.{content, busier, called, tops-IsKind}

abbrev pub names : List TopEntry → List Text
names [] = []
names (e ∷ s) = e.application_id ∷ names s

-- No entry has fewer requests.
abbrev pub AreAbove : ℕ → List TopEntry → Type 0
AreAbove n [] = Unit
AreAbove n (e ∷ s) = (n ≤ e.requests) × AreAbove n s

abbrev pub IsMax : Heap Entry → Type 0
IsMax y = IsValid content (λ e. e.ni) busier y

abbrev pub In : Heap Entry → ℕ → Type 0
In y r = Has content (λ e. e.ni) busier y r

abbrev pub name : Heap Entry → ℕ → Text
name y r = (y.entries r).application_id

abbrev pub IsOf : Heap Entry → TopEntry → Type 0
IsOf y e = (r : ℕ) × In y r × (name y r ≡ e.application_id) × ((y.entries r).n ≡ e.requests)

abbrev pub AreOf : Heap Entry → List TopEntry → Type 0
AreOf y [] = Unit
AreOf y (e ∷ s) = IsOf y e × AreOf y s

max-IsEntry : IsEntry less_requests set_ni busier content (λ e. e.ni)
unfolding less_requests set_ni
max-IsEntry = record { core_set = λ e k. refl; index_set = λ e k. refl; less_core = λ e f. refl }

-- The first entries of a heap, at most n.
pub record Tops (y : Heap Entry) (n : ℕ) (s : List TopEntry) : Type 0 where
  pub of : AreOf y s
  pub apart : AreApart (names s)
  pub short : length s ≤ n
  pub rest :
      (r : ℕ)
      → In y r
      → (listing (names s) (name y r) ≡ true) ⊎ ((length s ≡ n) × AreAbove (y.entries r).n s)

pops :
    (y a : Heap Entry)
    → IsMax y
    → Same content y a
    → 0 < y.len
    → (y' a' : Heap Entry) × (z : ℕ) × (heap_pop less_requests set_none a ≡ some (a', z))
      × Same content y' a'
      × Taken content (λ e. e.ni) busier y z y'
      × ((r : ℕ) → In y r → (y.entries r).n ≤ (y.entries z).n)
unfolding less_requests set_ni set_none
pops y a v s some_left =
    let order = tops-IsKind.order_two in
    let (y', z, done, k, first) =
      heap_pop_lem content (λ e. e.ni) busier less_requests set_ni max-IsEntry order y v
        some_left in
    let (a', done', s') =
      heap_pop-Same content busier less_requests set_ni set_none (λ e f. refl) (λ e k. refl)
        (λ e k. refl) y a y' z s done in
    (y', a', z, done', s', k, λ r m. let w = first r m in ground (arith, w))

collect_go :
    (left n : ℕ) (a a' : Heap Entry) (z : ℕ) (s : List TopEntry)
    → heap_pop less_requests set_none a ≡ some (a', z)
    → collect_top left n a' ≡ some s
    → collect_top (suc left) (suc n) a
      ≡ some (
          record { application_id = (a'.entries z).application_id; requests = (a'.entries z).n }
          ∷ s)
unfolding collect_top
collect_go left n a a' z s popped rest = ground (arith, popped, rest)

collect_none : (n : ℕ) (a : Heap Entry) → collect_top zero n a ≡ some []
unfolding collect_top
collect_none n a = refl

collect_enough : (left : ℕ) (a : Heap Entry) → collect_top (suc left) zero a ≡ some []
unfolding collect_top
collect_enough left a = refl

named_of :
    (y : Heap Entry) (s : List TopEntry) (a : Text)
    → AreOf y s
    → listing (names s) a ≡ true
    → (r : ℕ) × In y r × (name y r ≡ a)
named_of y [] a h l = absurd cc
named_of y (e ∷ s) a ((r, m, called, count), h) l = elim (Bool-cases (text_eq e.application_id a)) [
  | inl same ↦ (r, m, called ∙ (text_eq_iff e.application_id a).0 same)
  | inr differ ↦ named_of y s a h (ground (arith, differ, l))
]

AreOf-Taken :
    (y y' : Heap Entry) (z : ℕ) (s : List TopEntry)
    → Taken content (λ e. e.ni) busier y z y'
    → AreOf y' s
    → AreOf y s
AreOf-Taken y y' z [] k h = tt
AreOf-Taken y y' z (e ∷ s) k ((r, m, called, count), h) =
    let kr = k.same r in
    (
      (r, ((k.has r).0 m).0, sym (ap (λ d. d.2) kr) ∙ called, sym (ap (λ d. d.1) kr) ∙ count),
      AreOf-Taken y y' z s k h,
    )

Tops-cons :
    (y y' : Heap Entry) (z n : ℕ) (e : TopEntry) (s : List TopEntry)
    → Taken content (λ e. e.ni) busier y z y'
    → ((q r : ℕ) → In y q → In y r → name y q ≡ name y r → q ≡ r)
    → name y z ≡ e.application_id
    → (y.entries z).n ≡ e.requests
    → ((r : ℕ) → In y r → (y.entries r).n ≤ (y.entries z).n)
    → Tops y' n s
    → Tops y (suc n) (e ∷ s)
Tops-cons y y' z n e s k inj called count most t = record {
  of = ((z, k.member, called, count), AreOf-Taken y y' z s k t.of);
  apart = (
    elim (Bool-cases (listing (names s) e.application_id)) [
      | inl twice ↦
          let (r, m, w) = named_of y' s e.application_id t.of twice in
          let (m', n) = (k.has r).0 m in
          absurd (n (inj r z m' k.member (sym (ap (λ d. d.2) (k.same r)) ∙ w ∙ sym called)))
      | inr once ↦ once
    ],
    t.apart,
  );
  short = omega (arith, t.short);
  rest = λ r m. elim (eq_cases r z) [
    | inl same ↦
        let found =
          (text_eq_iff e.application_id (name y r)).1 (sym called ∙ ap (name y) (sym same)) in
        inl (ground (arith, found))
    | inr other ↦
        let kr = k.same r in
        elim (t.rest r ((k.has r).1 (m, other))) [
          | inl there ↦
              let there' : listing (names s) (name y r) ≡ true =
                subst (λ u. listing (names s) u ≡ true) (ap (λ d. d.2) kr) there in
              inl (ground (arith, there'))
          | inr (full, above) ↦ inr (
            omega (arith, full),
            (omega (arith, most r m, count), subst (λ u. AreAbove u s) (ap (λ d. d.1) kr) above),
          )
        ]
  ];
}

pub collect_top-Tops :
    (left n : ℕ) (y a : Heap Entry)
    → y.len ≡ left
    → IsMax y
    → Same content y a
    → ((q r : ℕ) → In y q → In y r → name y q ≡ name y r → q ≡ r)
    → (s : List TopEntry) × (collect_top left n a ≡ some s) × Tops y n s
collect_top-Tops zero n y a l v same inj = (
  [],
  collect_none n a,
  record {
    of = tt;
    apart = tt;
    short = omega arith;
    rest = λ r (k, inside, e). absurd (omega (arith, inside, l));
  },
)
collect_top-Tops (suc left) zero y a l v same inj = (
  [],
  collect_enough left a,
  record { of = tt; apart = tt; short = omega arith; rest = λ r m. inr (refl, tt) },
)
collect_top-Tops (suc left) (suc n) y a l v same inj =
    let (y', a', z, popped, same', k, most) = pops y a v same (omega (arith, l)) in
    let app : (r : ℕ) → name y' r ≡ name y r = λ r. ap (λ d. d.2) (k.same r) in
    let inj' : (q r : ℕ) → In y' q → In y' r → name y' q ≡ name y' r → q ≡ r =
      λ q r m w e. inj q r ((k.has q).0 m).0 ((k.has r).0 w).0 (sym (app q) ∙ e ∙ app r) in
    let (s, went, t) =
      collect_top-Tops left n y' a' (omega (arith, l, k.shorter)) k.valid same' inj' in
    let e : TopEntry = record {
      application_id = (a'.entries z).application_id;
      requests = (a'.entries z).n;
    } in
    let here = sym (k.same z) ∙ same'.same z in
    (
      e ∷ s,
      collect_go left n a a' z s popped went,
      Tops-cons y y' z n e s k inj (ap (λ d. d.2) here) (ap (λ d. d.1) here) most t,
    )
