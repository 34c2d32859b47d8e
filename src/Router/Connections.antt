-- ===== src/Router/Connections.antt =====
-- The state of each connection, as the router keeps it.
use gorouter.Base.{
  ℕ, ◌<◌, ◌≤◌, ◌≡◌, ◌≢◌, ◌⊎◌, inl, inr, refl, List, [], ◌∷◌, true, false, ◌&&◌, ◌||◌, if◌then◌else◌,
  ◌==◌, length, arith, Bool-cases,
}
use gorouter.Router.{
  Router, ConnState, state_new, state_active, state_idle, state_hijacked, state_closed, has, add,
  remove, on_active, on_idle, on_closed, signal_drained, switch_state, handle_conn_state,
}

has-add : (c d : ℕ) (cs : List ℕ) → has (add c cs) d ≡ (d == c || has cs d)
has-add c d cs = ground arith

has-remove : (c d : ℕ) (cs : List ℕ) → has (remove c cs) d ≡ (if d == c then false else has cs d)
has-remove c d [] = ground arith
has-remove c d (e ∷ cs) = ground (arith, has-remove c d cs)

length-remove_le : (c : ℕ) (cs : List ℕ) → length (remove c cs) ≤ length cs
length-remove_le c [] = omega arith
length-remove_le c (d ∷ cs) = ground (arith, length-remove_le c cs)

length-remove :
    (c : ℕ) (cs : List ℕ)
    → ((has cs c ≡ true) × (length (remove c cs) < length cs))
      ⊎ ((has cs c ≡ false) × (remove c cs ≡ cs))
length-remove c [] = inr (refl, refl)
length-remove c (d ∷ cs) = ground (arith, length-remove c cs, length-remove_le c cs)

-- What holds between two calls.
pub record IsValid (r : Router) : Type 0 where
  pub apart : (c : ℕ) → has r.idle_conns c ≡ true → has r.active_conns c ≡ false
  -- a drain that waits has an active connection to wait for
  pub waits : r.drain_done ≡ true → (r.drained ≡ false) × (length r.active_conns ≢ 0)
  pub closing : r.close_connections ≡ true → (c : ℕ) → has r.idle_conns c ≡ true → r.closed c ≡ true

pub data Status : Type 0 where
  unknown : Status
  idle : Status
  active : Status

abbrev pub status : Router → ℕ → Status
status r c = if has r.idle_conns c then idle else if has r.active_conns c then active else unknown

-- The state of a connection after an event.
abbrev pub next_status : ConnState → Status → Status
next_status state_new s = s
next_status state_active s = active
next_status state_idle s = idle
next_status state_hijacked s = unknown
next_status state_closed s = unknown

signal_drained-closing :
    (r : Router)
    → (r.close_connections ≡ true → (c : ℕ) → has r.idle_conns c ≡ true → r.closed c ≡ true)
    → (signal_drained r).close_connections ≡ true
    → (c : ℕ) → has (signal_drained r).idle_conns c ≡ true
    → (signal_drained r).closed c ≡ true
unfolding signal_drained
signal_drained-closing r h = elim (Bool-cases (r.drain_done && length r.active_conns == 0)) [
  | inl now ↦ rw (now, signal_drained) h
  | inr later ↦ rw (later, signal_drained) h
]

module _ (timeout : ℕ) (r : Router) (c : ℕ) (now : ℕ) (v : IsValid r) where
  switch_state-status :
      (s : ConnState) (d : ℕ)
      → status (switch_state timeout r c s now) d
        ≡ (if d == c then next_status s (status r c) else status r d)
  unfolding switch_state on_active on_idle on_closed
  switch_state-status state_new d = ground arith
  switch_state-status state_active d =
      ground (arith, has-add c d r.active_conns, has-remove c d r.idle_conns)
  switch_state-status state_idle d =
      ground (arith, has-add c d r.idle_conns, has-remove c d r.active_conns)
  switch_state-status state_hijacked d = ground (
    arith,
    v.apart c,
    has-remove c d r.idle_conns,
    has-remove c d r.active_conns,
    length-remove c r.idle_conns,
  )
  switch_state-status state_closed d = ground (
    arith,
    v.apart c,
    has-remove c d r.idle_conns,
    has-remove c d r.active_conns,
    length-remove c r.idle_conns,
  )

  -- Only the signal is left to be given.
  switch_state-apart :
      (s : ConnState) (d : ℕ)
      → has (switch_state timeout r c s now).idle_conns d ≡ true
      → has (switch_state timeout r c s now).active_conns d ≡ false
  unfolding switch_state on_active on_idle on_closed
  switch_state-apart state_new d h = v.apart d h
  switch_state-apart state_active d h =
      ground (arith, v.apart d, has-add c d r.active_conns, has-remove c d r.idle_conns)
  switch_state-apart state_idle d h =
      ground (arith, v.apart d, has-add c d r.idle_conns, has-remove c d r.active_conns)
  switch_state-apart state_hijacked d h =
      ground (arith, v.apart d, has-remove c d r.idle_conns, has-remove c d r.active_conns)
  switch_state-apart state_closed d h =
      ground (arith, v.apart d, has-remove c d r.idle_conns, has-remove c d r.active_conns)

  switch_state-closing :
      (s : ConnState)
      → (switch_state timeout r c s now).close_connections ≡ true
      → (d : ℕ) → has (switch_state timeout r c s now).idle_conns d ≡ true
      → (switch_state timeout r c s now).closed d ≡ true
  unfolding switch_state on_active on_idle on_closed
  switch_state-closing state_new e d h = v.closing e d h
  switch_state-closing state_active e d h =
      ground (arith, v.closing e d, has-remove c d r.idle_conns)
  switch_state-closing state_idle e d h = elim (Bool-cases r.close_connections) [
    | inl closing ↦ ground (arith, v.closing closing d, has-add c d r.idle_conns)
    | inr quiet ↦ absurd (ground arith)
  ]
  switch_state-closing state_hijacked e d h = elim (Bool-cases r.close_connections) [
    | inl closing ↦ ground (arith, v.closing closing d, has-remove c d r.idle_conns)
    | inr quiet ↦ absurd (ground arith)
  ]
  switch_state-closing state_closed e d h = elim (Bool-cases r.close_connections) [
    | inl closing ↦ ground (arith, v.closing closing d, has-remove c d r.idle_conns)
    | inr quiet ↦ absurd (ground arith)
  ]

  -- No case of the switch touches the signal.
  switch_state-signal :
      (s : ConnState)
      → ((switch_state timeout r c s now).drain_done ≡ r.drain_done)
        × ((switch_state timeout r c s now).drained ≡ r.drained)
  unfolding switch_state on_active on_idle on_closed
  switch_state-signal state_new = (refl, refl)
  switch_state-signal state_active = (refl, refl)
  switch_state-signal state_idle = ground arith
  switch_state-signal state_hijacked = ground arith
  switch_state-signal state_closed = ground arith

  -- HandleConnState keeps idle and active connections apart, and closes what becomes idle once
  -- connections are to be closed; a drain waits only while there are active connections.
  pub handle_conn_state-IsValid : (s : ConnState) → IsValid (handle_conn_state timeout r c s now)
  unfolding handle_conn_state signal_drained
  handle_conn_state-IsValid s = record {
    apart = λ d h. ground (arith, switch_state-apart s d);
    waits = λ h. ground (arith, switch_state-signal s, v.waits);
    closing = signal_drained-closing (switch_state timeout r c s now) (switch_state-closing s);
  }

  -- HandleConnState of a valid router moves one connection and no other: an active one is active,
  -- an idle one is idle, a hijacked or closed one is unknown to the router, and a new one stays
  -- what it was.
  pub handle_conn_state-status :
      (s : ConnState) (d : ℕ)
      → status (handle_conn_state timeout r c s now) d
        ≡ (if d == c then next_status s (status r c) else status r d)
  unfolding handle_conn_state signal_drained
  handle_conn_state-status s d = ground (arith, switch_state-status s d)

  pub handle_conn_state-signal :
      (s : ConnState)
      → let q = handle_conn_state timeout r c s now in
        ((r.drain_done ≡ false) → (q.drain_done ≡ false) × (q.drained ≡ r.drained))
        × ((r.drain_done ≡ true)
            → (length q.active_conns ≡ 0)
            → (q.drain_done ≡ false) × (q.drained ≡ true))
        × ((r.drain_done ≡ true) → (length q.active_conns ≢ 0) → q.drain_done ≡ true)
  unfolding handle_conn_state signal_drained
  handle_conn_state-signal s = (
    λ h. ground (arith, switch_state-signal s),
    λ h e. ground (arith, switch_state-signal s),
    λ h e. ground (arith, switch_state-signal s),
  )
