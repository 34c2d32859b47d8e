-- ===== src/RoundTrip/Service.antt =====
-- proxy/proxy_round_tripper.go: the loop of RouteServiceRoundTripper.
use gorouter.Base.{
  ◌==◌, ap, ◌<◌, ◌∙◌, ℕ, zero, suc, ◌+◌, ◌≤◌, ◌≡◌, inl, inr, refl, true, arith, Bool-cases,
}
use gorouter.RoundTrip.{
  Outcome, other_error, retryable_error, service_loop, service_round_trip, max_retries,
}

service_loop_lem :
    (transport : ℕ → Outcome) (left n : ℕ) (o : Outcome)
    → (k : ℕ) × (k ≤ left)
      × (service_loop transport (suc left) n o ≡ transport (n + k))
      × ((j : ℕ) → n ≤ j → j < n + k → retryable_error (transport j) ≡ true)
      × (retryable_error (transport (n + k)) ≡ true → k ≡ left)
unfolding service_loop
service_loop_lem transport zero n o =
    let here : n + 0 ≡ n = omega arith in
    (
      0,
      omega arith,
      ground (arith, here, ap transport here),
      (λ j low high. absurd (omega arith)),
      λ h. refl,
    )
service_loop_lem transport (suc left) n o = elim (Bool-cases (retryable_error (transport n))) [
  | inr final ↦
      let here : n + 0 ≡ n = omega arith in
      (
        0,
        omega arith,
        ground (arith, final, ap transport here),
        (λ j low high. absurd (omega arith)),
        λ h. absurd (ground (arith, ap transport here)),
      )
  | inl again ↦
      let (k, few, same, before, all) = service_loop_lem transport left (n + 1) (transport n) in
      let shift : n + 1 + k ≡ n + suc k = omega arith in
      (
        suc k,
        omega arith,
        ground (arith, again, same, ap transport shift),
        (λ j low high. elim (Bool-cases (n == j)) [
          | inl first ↦ let is_n : n ≡ j = ground arith in ground (arith, ap transport is_n)
          | inr later ↦ before j (ground arith) (omega arith)
        ]),
        λ h. omega (arith, all (ap retryable_error (ap transport shift) ∙ h)),
      )
]

-- The round trip of a route service answers what the transport answered at one of at most three
-- tries: those before it failed to connect, and it failed to connect itself only if it is the
-- third.
pub service_round_trip_lem :
    (transport : ℕ → Outcome)
    → (k : ℕ) × (k < max_retries)
      × (service_round_trip transport ≡ transport k)
      × ((j : ℕ) → j < k → retryable_error (transport j) ≡ true)
      × (retryable_error (transport k) ≡ true → k + 1 ≡ max_retries)
unfolding service_round_trip
service_round_trip_lem transport =
    let (k, few, same, before, all) = service_loop_lem transport 2 0 other_error in
    let here : 0 + k ≡ k = omega arith in
    (
      k,
      omega arith,
      same ∙ ap transport here,
      (λ j h. before j (omega arith) (omega arith)),
      λ h. omega (arith, all (ap retryable_error (ap transport here) ∙ h)),
    )
