-- ===== src/Varz/Tallies.antt =====
-- varz/varz.go: how a metric goes on with the calls that it counts.
use gorouter.Base.{
  ap, sym, ◌∙◌, ℕ, suc, ◌+◌, ◌*◌, ◌≤◌, ◌≡◌, refl, List, [], ◌∷◌, ◌++◌, Option, none, some, Bool,
  true, false, not, ◌&&◌, arith, if◌then◌else◌, ◌==◌, ltb, leb,
}
use gorouter.Endpoint.{Endpoint}
use gorouter.Varz.{
  HttpMetric, new_http_metric, capture_request, status_class, count_class, capture_response,
}
use gorouter.Varz.Calls.{
  count, ones, durations, duration_of, is_request, is_response, status_within, is_within, is_other,
  Call, Tallies, bad_request, bad_gateway, routing_request, routing_response, report, active_tick,
  top_tick,
}

-- The class of a status, by its bounds.
class_lem :
    (o : Option ℕ) (k : ℕ)
    → 1 ≤ k
    → (status_class o == k) ≡ status_within (100 * k) (100 * k + 100) o
unfolding status_class
class_lem none k h = ground arith
class_lem (some s) k h = ground arith

classes_lem :
    (o : Option ℕ) → (leb 2 (status_class o) && ltb (status_class o) 6) ≡ status_within 200 600 o
unfolding status_class
classes_lem none = refl
classes_lem (some s) = ground arith

-- The fields after a class was counted.
record Classed (n : ℕ) (x y : HttpMetric) : Type 0 where
  requests : y.requests ≡ x.requests
  rate : y.rate ≡ x.rate
  latency : y.latency ≡ x.latency
  ok : y.responses_2xx ≡ (if n == 2 then 1 ∷ x.responses_2xx else x.responses_2xx)
  moved : y.responses_3xx ≡ (if n == 3 then 1 ∷ x.responses_3xx else x.responses_3xx)
  wrong : y.responses_4xx ≡ (if n == 4 then 1 ∷ x.responses_4xx else x.responses_4xx)
  failed : y.responses_5xx ≡ (if n == 5 then 1 ∷ x.responses_5xx else x.responses_5xx)
  other :
      y.responses_xxx ≡ (if not (leb 2 n && ltb n 6) then 1 ∷ x.responses_xxx else x.responses_xxx)

count_class-Classed : (n : ℕ) (x : HttpMetric) → Classed n x (count_class n x)
unfolding count_class
count_class-Classed n x = record {
  requests = ground arith;
  rate = ground arith;
  latency = ground arith;
  ok = ground arith;
  moved = ground arith;
  wrong = ground arith;
  failed = ground arith;
  other = ground arith;
}

ones_next : (n : ℕ) → 1 ∷ ones n ≡ ones (n + 1)
unfolding ones
ones_next n = let e : suc n ≡ n + 1 = omega arith in ap ones e

-- A call that is picked is counted if it passes the test.
count_picked :
    (picks test : Call → Bool) (c : Call) (cs : List Call) (k : List ℕ) (counts : Bool)
    → picks c ≡ true
    → test c ≡ counts
    → k ≡ ones (count (λ x. picks x && test x) cs)
    → (if counts then 1 ∷ k else k) ≡ ones (count (λ x. picks x && test x) (c ∷ cs))
unfolding count
count_picked picks test c cs k true p q h =
    let n = count (λ x. picks x && test x) cs in
    let one_more : n + 1 ≡ count (λ x. picks x && test x) (c ∷ cs) = ground (arith, p, q) in
    ap (λ t. 1 ∷ t) h ∙ ones_next n ∙ ap ones one_more
count_picked picks test c cs k false p q h =
    let same : count (λ x. picks x && test x) cs ≡ count (λ x. picks x && test x) (c ∷ cs) =
      ground (arith, p, q) in
    h ∙ ap ones same

-- A call that is picked adds its duration, if it has one.
durations_picked :
    (picks : Call → Bool) (c : Call) (cs : List Call) (k : List ℕ)
    → picks c ≡ true
    → k ≡ durations picks cs
    → duration_of c ++ k ≡ durations picks (c ∷ cs)
unfolding durations
durations_picked picks c cs k p h = ap (λ t. duration_of c ++ t) h ∙ ground (arith, p)

pub durations_not_picked :
    (picks : Call → Bool) (c : Call) (cs : List Call)
    → picks c ≡ false
    → durations picks cs ≡ durations picks (c ∷ cs)
unfolding durations
durations_not_picked picks c cs p = ground (arith, p)

pub count_not_picked :
    (picks test : Call → Bool) (c : Call) (cs : List Call)
    → picks c ≡ false
    → count (λ x. picks x && test x) cs ≡ count (λ x. picks x && test x) (c ∷ cs)
unfolding count
count_not_picked picks test c cs p = ground (arith, p)

module _ (picks : Call → Bool) (cs : List Call) (m : HttpMetric) where
  pub capture_response-Tallies :
      (b : Endpoint) (o : Option ℕ) (t d : ℕ)
      → picks (routing_response b o t d) ≡ true
      → Tallies picks cs m
      → Tallies picks (routing_response b o t d ∷ cs) (capture_response m o d)
  unfolding capture_response
  capture_response-Tallies b o t d p y =
      let c = routing_response b o t d in
      let k = count_class-Classed (status_class o) m in
      let within : (low : ℕ)
          → 1 ≤ low
          → is_within (100 * low) (100 * low + 100) c ≡ (status_class o == low) =
        λ low h. sym (class_lem o low h) in
      record {
        requests =
            k.requests ∙ count_picked picks is_request c cs m.requests false p refl y.requests;
        rate = k.rate ∙ count_picked picks is_request c cs m.rate false p refl y.rate;
        ok =
            k.ok
            ∙ count_picked picks (is_within 200 300) c cs m.responses_2xx (status_class o == 2) p
                (within 2 (omega arith)) y.ok;
        moved =
            k.moved
            ∙ count_picked picks (is_within 300 400) c cs m.responses_3xx (status_class o == 3) p
                (within 3 (omega arith)) y.moved;
        wrong =
            k.wrong
            ∙ count_picked picks (is_within 400 500) c cs m.responses_4xx (status_class o == 4) p
                (within 4 (omega arith)) y.wrong;
        failed =
            k.failed
            ∙ count_picked picks (is_within 500 600) c cs m.responses_5xx (status_class o == 5) p
                (within 5 (omega arith)) y.failed;
        other =
            k.other
            ∙ count_picked picks is_other c cs m.responses_xxx
                (not (leb 2 (status_class o) && ltb (status_class o) 6)) p
                (sym (ap not (classes_lem o))) y.other;
        latency = ap (λ l. d ∷ l) k.latency ∙ durations_picked picks c cs m.latency p y.latency;
      }

  -- A call that counts in none of the tests, or that is not picked.
  pub same-Tallies :
      (c : Call)
      → ((test : Call → Bool)
          → count (λ x. picks x && test x) cs ≡ count (λ x. picks x && test x) (c ∷ cs))
      → durations picks cs ≡ durations picks (c ∷ cs)
      → Tallies picks cs m
      → Tallies picks (c ∷ cs) m
  same-Tallies c same quiet y = record {
    requests = y.requests ∙ ap ones (same is_request);
    rate = y.rate ∙ ap ones (same is_request);
    ok = y.ok ∙ ap ones (same (is_within 200 300));
    moved = y.moved ∙ ap ones (same (is_within 300 400));
    wrong = y.wrong ∙ ap ones (same (is_within 400 500));
    failed = y.failed ∙ ap ones (same (is_within 500 600));
    other = y.other ∙ ap ones (same is_other);
    latency = y.latency ∙ quiet;
  }

  pub capture_request-Tallies :
      (b : Endpoint)
      → picks (routing_request b) ≡ true
      → Tallies picks cs m
      → Tallies picks (routing_request b ∷ cs) (capture_request m)
  unfolding capture_request
  capture_request-Tallies b p y =
      let c = routing_request b in
      record {
        requests = count_picked picks is_request c cs m.requests true p refl y.requests;
        rate = count_picked picks is_request c cs m.rate true p refl y.rate;
        ok = count_picked picks (is_within 200 300) c cs m.responses_2xx false p refl y.ok;
        moved = count_picked picks (is_within 300 400) c cs m.responses_3xx false p refl y.moved;
        wrong = count_picked picks (is_within 400 500) c cs m.responses_4xx false p refl y.wrong;
        failed = count_picked picks (is_within 500 600) c cs m.responses_5xx false p refl y.failed;
        other = count_picked picks is_other c cs m.responses_xxx false p refl y.other;
        latency = durations_picked picks c cs m.latency p y.latency;
      }

quiet_tests :
    (c : Call)
    → is_request c ≡ false
    → is_response c ≡ false
    → ((low high : ℕ) → is_within low high c ≡ false) × (is_other c ≡ false) × (duration_of c ≡ [])
quiet_tests bad_request p q = (λ low high. refl, refl, refl)
quiet_tests bad_gateway p q = (λ low high. refl, refl, refl)
quiet_tests (routing_request b) p q = (λ low high. refl, refl, refl)
quiet_tests (routing_response b o t d) p q = absurd cc
quiet_tests (report now) p q = (λ low high. refl, refl, refl)
quiet_tests (active_tick t) p q = (λ low high. refl, refl, refl)
quiet_tests (top_tick t) p q = (λ low high. refl, refl, refl)

-- The metric of all calls counts neither bad requests nor bad gateways nor reports.
pub quiet-Tallies :
    (cs : List Call) (m : HttpMetric) (c : Call)
    → is_request c ≡ false
    → is_response c ≡ false
    → Tallies (λ x. true) cs m
    → Tallies (λ x. true) (c ∷ cs) m
quiet-Tallies cs m c p q y =
    let (within, other, quiet) = quiet_tests c p q in
    let skip : (test : Call → Bool) (k : List ℕ)
        → test c ≡ false
        → k ≡ ones (count (λ x. true && test x) cs)
        → k ≡ ones (count (λ x. true && test x) (c ∷ cs)) =
      λ test k no_test h. count_picked (λ x. true) test c cs k false refl no_test h in
    record {
      requests = skip is_request m.requests p y.requests;
      rate = skip is_request m.rate p y.rate;
      ok = skip (is_within 200 300) m.responses_2xx (within 200 300) y.ok;
      moved = skip (is_within 300 400) m.responses_3xx (within 300 400) y.moved;
      wrong = skip (is_within 400 500) m.responses_4xx (within 400 500) y.wrong;
      failed = skip (is_within 500 600) m.responses_5xx (within 500 600) y.failed;
      other = skip is_other m.responses_xxx other y.other;
      latency =
          sym (ap (λ t. t ++ m.latency) quiet)
          ∙ durations_picked (λ x. true) c cs m.latency refl y.latency;
    }

-- A new metric has counted nothing.
pub new-Tallies : (picks : Call → Bool) → Tallies picks [] new_http_metric
unfolding count durations ones new_http_metric
new-Tallies picks = record {
  requests = refl;
  rate = refl;
  ok = refl;
  moved = refl;
  wrong = refl;
  failed = refl;
  other = refl;
  latency = refl;
}
