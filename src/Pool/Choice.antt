-- ===== src/Pool/Choice.antt =====
-- What a request gets from a pool: `next`, the iterator, and the memory of failures.
use gorouter.Base.{
  subst, ◌∙◌, ℕ, ◌+◌, ◌<◌, ◌≡◌, ◌⊎◌, ◌↔◌, inl, inr, refl, [], ◌∷◌, Option, none, some, Text, arith,
  length, map_get, Option-cases, List-cases,
}
use gorouter.Endpoint.{Endpoint}
use gorouter.Pool.{Pool, next, start_idx, find_by_id, Iterator, initial_choice, iterator_next}
use gorouter.Pool.Invariant.{IsValid, IsLive}
use gorouter.Pool.Next.{Frame, Served, next_loop-Serves, Frame-IsValid}

-- `random.Intn`
abbrev pub IsIntn : (ℕ → ℕ) → Type 0
IsIntn random = (n : ℕ) → 0 < n → random n < n

-- One Next of the iterator `it` on the pool `p`, which answers `o`.
pub record Chooses (random : ℕ → ℕ) (now : ℕ) (p : Pool) (it : Iterator) (q : Pool) (it' : Iterator)
    (o : Option Endpoint) : Type 0 where
  pub spent : it'.initial_endpoint ≡ []
  pub kept : it'.last_endpoint ≡ o
  pub empty : (o ≡ none) ↔ (p.endpoints ≡ [])
  pub sticky :
      (e : Endpoint)
      → initial_choice p it.initial_endpoint ≡ some e
      → (o ≡ some e)
        × (q ≡ p)
        × ((it.initial_endpoint ≡ e.addr) ⊎ (it.initial_endpoint ≡ e.private_instance_id))
  pub no_session :
      (initial_choice p it.initial_endpoint ≡ none)
      ↔ ((it.initial_endpoint ≡ []) ⊎ (map_get it.initial_endpoint p.index ≡ none))
  pub turn : initial_choice p it.initial_endpoint ≡ none → next p random now ≡ some (q, o)
  pub served :
      (e : Endpoint) → initial_choice p it.initial_endpoint ≡ none → o ≡ some e → Served p now q e
  pub member : (e : Endpoint) → o ≡ some e → (r : ℕ) × IsLive p r × ((p.heap r).endpoint ≡ e)
  pub frame : Frame p q
  pub valid : IsValid q

pub Frame-refl : (p : Pool) → Frame p p
Frame-refl p = record {
  endpoints = refl;
  index = refl;
  next_ref = refl;
  retry = refl;
  data_of = λ s. (refl, refl, refl);
}

pub Frame-trans : (p q r : Pool) → Frame p q → Frame q r → Frame p r
Frame-trans p q r f g = record {
  endpoints = g.endpoints ∙ f.endpoints;
  index = g.index ∙ f.index;
  next_ref = g.next_ref ∙ f.next_ref;
  retry = g.retry ∙ f.retry;
  data_of = λ s. ground (arith, f.data_of s, g.data_of s);
}

module _ (p : Pool) (random : ℕ → ℕ) (now : ℕ) (v : IsValid p) (intn : IsIntn random) where
  start_idx-lt : 0 < length p.endpoints → start_idx p random < length p.endpoints
  unfolding start_idx
  start_idx-lt some_left = ground (arith, intn (length p.endpoints))

  -- On a valid pool `next` never panics, and its loop ends, where Intn answers below its bound:
  -- it answers nil for the empty pool, and otherwise an endpoint of the pool. That one has not
  -- failed, or its failure is over, unless all have failed. The turn goes to the place after it,
  -- and apart from the turn and the failures the pool stays.
  pub next-Served :
      ((p.endpoints ≡ []) × (next p random now ≡ some (p, none)))
      ⊎ ((q : Pool) × ((e : Endpoint) × (next p random now ≡ some (q, some e)) × Served p now q e))
  unfolding next
  next-Served = elim (List-cases p.endpoints) [
    | inl none_left ↦ inl (none_left, ground (arith, none_left))
    | inr (s, ss, some_left) ↦
        let start = start_idx p random in
        let room : start < length p.endpoints = start_idx-lt (ground (arith, some_left)) in
        let (q, (e, done, served)) =
          next_loop-Serves p now start v (length p.endpoints + 1) start
            (record p { next_idx = some start }) room room (ground arith)
            (record {
              frame = record {
                endpoints = refl;
                index = refl;
                next_ref = refl;
                retry = refl;
                data_of = λ s. (refl, refl, refl);
              };
              same_failed = λ s. refl;
              same_retry = refl;
              passed = λ j s there out. ground arith;
            }) in
        inr (q, (e, ground (arith, done, some_left), served))
  ]

  initial_choice-some :
      (id : Text) (e : Endpoint)
      → initial_choice p id ≡ some e
      → (r : ℕ) × IsLive p r
        × ((p.heap r).endpoint ≡ e)
        × ((id ≡ e.addr) ⊎ (id ≡ e.private_instance_id))
  unfolding initial_choice find_by_id
  initial_choice-some [] e h = cc
  initial_choice-some (c ∷ id) e h = elim (Option-cases (map_get (c ∷ id) p.index)) [
    | inl missing ↦ absurd (ground arith)
    | inr (r, found) ↦
        let (live, key) = v.keyed (c ∷ id) r found in
        let same : (p.heap r).endpoint ≡ e = ground arith in (r, live, same, ground arith)
  ]

  -- There is no session without an id, or with one that the pool does not know.
  initial_choice-none :
      (id : Text) → (initial_choice p id ≡ none) ↔ ((id ≡ []) ⊎ (map_get id p.index ≡ none))
  unfolding initial_choice find_by_id
  initial_choice-none [] = (λ h. inl refl, λ o. refl)
  initial_choice-none (c ∷ id) = elim (Option-cases (map_get (c ∷ id) p.index)) [
    | inl missing ↦ (λ h. inr missing, λ o. ground arith)
    | inr (r, found) ↦ (
      λ h. absurd (ground arith),
      λ o. elim o [ inl empty ↦ absurd cc | inr missing ↦ absurd (ground (arith, found, missing)) ],
    )
  ]

  -- The endpoint of the session.
  session-Chooses :
      (it : Iterator) (e : Endpoint)
      → initial_choice p it.initial_endpoint ≡ some e
      → Chooses random now p it p
          (record { initial_endpoint = []; last_endpoint = some e })
          (some e)
  session-Chooses it e chosen =
      let (r, live, is_e, key) = initial_choice-some it.initial_endpoint e chosen in
      record {
        spent = refl;
        kept = refl;
        empty = (λ h. cc, λ h. absurd (ground (arith, live)));
        sticky = λ e' h. (ground arith, refl, ground arith);
        no_session = initial_choice-none it.initial_endpoint;
        turn = λ h. absurd cc;
        served = λ e' h same. absurd cc;
        member = λ e' h. (r, live, ground arith);
        frame = Frame-refl p;
        valid = v;
      }

  -- The turn of an empty pool.
  nobody-Chooses :
      (it : Iterator)
      → initial_choice p it.initial_endpoint ≡ none
      → p.endpoints ≡ []
      → next p random now ≡ some (p, none)
      → Chooses random now p it p (record { initial_endpoint = []; last_endpoint = none }) none
  nobody-Chooses it no_session none_left went = record {
    spent = refl;
    kept = refl;
    empty = (λ h. none_left, λ h. refl);
    sticky = λ e h. cc;
    no_session = initial_choice-none it.initial_endpoint;
    turn = λ h. went;
    served = λ e h same. cc;
    member = λ e h. cc;
    frame = Frame-refl p;
    valid = v;
  }

  -- The turn of a pool with endpoints.
  turn-Chooses :
      (it : Iterator) (q : Pool) (e : Endpoint)
      → initial_choice p it.initial_endpoint ≡ none
      → next p random now ≡ some (q, some e)
      → Served p now q e
      → Chooses random now p it q
          (record { initial_endpoint = []; last_endpoint = some e })
          (some e)
  turn-Chooses it q e no_session went served = record {
    spent = refl;
    kept = refl;
    empty = (λ h. cc, λ h. absurd (ground (arith, served.live)));
    sticky = λ e' h. cc;
    no_session = initial_choice-none it.initial_endpoint;
    turn = λ h. went;
    served = λ e' h same. let eq : e ≡ e' = cc in subst (λ u. Served p now q u) eq served;
    member = λ e' h. (served.ref, served.live, ground (arith, served.serves));
    frame = served.frame;
    valid = Frame-IsValid p q served.frame v;
  }

  -- Next of an iterator on a valid pool, where Intn answers below its bound, does not panic. An
  -- iterator without an id, or with one that the pool does not know, answers what `next` of the
  -- pool answers, which is the next endpoint that is available, and moves the turn and the
  -- failures as that does; with the id of a session it answers the endpoint that has this
  -- instance id or address, and the pool is the same. It answers nil only for the empty pool,
  -- remembers what it answered, and uses the session once. The answer is an endpoint of the pool,
  -- and the pool stays valid and, but for its turn and its failures, the same.
  pub iterator_next_lem :
      (it : Iterator)
      → (q : Pool) × ((it' : Iterator) × ((o : Option Endpoint) × (iterator_next p it random now
              ≡ some (q, it', o))
            × Chooses random now p it q it' o))
  unfolding iterator_next
  iterator_next_lem it = elim (Option-cases (initial_choice p it.initial_endpoint)) [
    | inr (e, chosen) ↦ (
      p,
      (
        record { initial_endpoint = []; last_endpoint = some e },
        (some e, ground arith, session-Chooses it e chosen),
      ),
    )
    | inl no_session ↦ elim next-Served [
      | inl (none_left, done) ↦ (
        p,
        (
          record { initial_endpoint = []; last_endpoint = none },
          (none, ground arith, nobody-Chooses it no_session none_left done),
        ),
      )
      | inr (q, (e, done, served)) ↦ (
        q,
        (
          record { initial_endpoint = []; last_endpoint = some e },
          (some e, ground arith, turn-Chooses it q e no_session done served),
        ),
      )
    ]
  ]
