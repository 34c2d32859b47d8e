-- ===== src/Router/Draining.antt =====
-- Draining and stopping, over all that can happen to the connections.
use gorouter.Base.{
  ℕ, ◌≡◌, inl, inr, refl, sym, ◌∙◌, List, [], ◌∷◌, Bool, true, false, ◌||◌, ◌==◌, length, arith,
  Bool-cases,
}
use gorouter.Router.{
  Router, ConnState, new_router, handle_conn_state, close_idle_conns, start_drain, stop,
}
use gorouter.Router.Connections.{IsValid, handle_conn_state-IsValid, handle_conn_state-signal}

-- One call; the calls of HandleConnState, Drain and Stop are in any order.
pub data Step (timeout : ℕ) : Router → Router → Type 0 where
  changes :
      (r : Router) (c : ℕ) (s : ConnState) (now : ℕ)
      → Step timeout r (handle_conn_state timeout r c s now)
  drains : (r : Router) → Step timeout r (start_drain r)
  stops : (r : Router) → Step timeout r (stop r)

pub data Reaches (timeout : ℕ) : Router → Router → Type 0 where
  done : (r : Router) → Reaches timeout r r
  after : (r q p : Router) → Step timeout r q → Reaches timeout q p → Reaches timeout r p

pub new_router-IsValid : IsValid new_router
unfolding new_router
new_router-IsValid = record { apart = λ c h. cc; waits = λ h. cc; closing = λ h. cc }

close_idle_conns-IsValid : (r : Router) → IsValid r → IsValid (close_idle_conns r)
unfolding close_idle_conns
close_idle_conns-IsValid r v = record {
  apart = v.apart;
  waits = v.waits;
  closing = λ e c h. ground arith;
}

pub start_drain-IsValid : (r : Router) → IsValid r → IsValid (start_drain r)
unfolding start_drain close_idle_conns
start_drain-IsValid r v = record {
  apart = λ c h. ground (arith, v.apart c);
  waits = λ h. ground (arith, v.waits);
  closing = λ e c h. ground arith;
}

Step-IsValid : (timeout : ℕ) (r q : Router) → Step timeout r q → IsValid r → IsValid q
unfolding stop
Step-IsValid timeout _ _ (changes r c s now) v = handle_conn_state-IsValid timeout r c now v s
Step-IsValid timeout _ _ (drains r) v = start_drain-IsValid r v
Step-IsValid timeout _ _ (stops r) v = close_idle_conns-IsValid r v

Reaches-IsValid : (timeout : ℕ) (r q : Router) → Reaches timeout r q → IsValid r → IsValid q
Reaches-IsValid timeout _ _ (done r) v = v
Reaches-IsValid timeout _ _ (after r q p s rest) v =
    Reaches-IsValid timeout q p rest (Step-IsValid timeout r q s v)

-- Whatever calls of HandleConnState, Drain and Stop a new router gets, no connection is both idle
-- and active, a drain that waits has an active connection to wait for and its channel is not
-- closed, and once connections are to be closed every idle one has been closed.
pub reachable-IsValid : (timeout : ℕ) (r : Router) → Reaches timeout new_router r → IsValid r
reachable-IsValid timeout r h = Reaches-IsValid timeout new_router r h new_router-IsValid

-- The events of connections, as HandleConnState gets them.
pub record Event : Type 0 where
  pub conn : ℕ
  pub state : ConnState
  pub now : ℕ

abbrev pub run : ℕ → List Event → Router → Router
run timeout [] r = r
run timeout (e ∷ es) r = run timeout es (handle_conn_state timeout r e.conn e.state e.now)

-- At some moment from `r` on there is no active connection.
abbrev pub empties : ℕ → List Event → Router → Bool
empties timeout [] r = length r.active_conns == 0
empties timeout (e ∷ es) r =
    length r.active_conns == 0
    || empties timeout es (handle_conn_state timeout r e.conn e.state e.now)

stays_drained :
    (timeout : ℕ) (es : List Event) (r : Router)
    → IsValid r
    → r.drain_done ≡ false
    → (run timeout es r).drained ≡ r.drained
stays_drained timeout [] r v h = refl
stays_drained timeout (e ∷ es) r v h =
    let q = handle_conn_state timeout r e.conn e.state e.now in
    let (silent, same) = (handle_conn_state-signal timeout r e.conn e.now v e.state).0 h in
    stays_drained timeout es q (handle_conn_state-IsValid timeout r e.conn e.now v e.state) silent
    ∙ same

empties_now :
    (timeout : ℕ) (es : List Event) (q : Router)
    → (length q.active_conns == 0) ≡ true
    → empties timeout es q ≡ true
empties_now timeout [] q e = e
empties_now timeout (d ∷ es) q e = ground arith

waits_for_empty :
    (timeout : ℕ) (es : List Event) (r : Router)
    → IsValid r
    → r.drain_done ≡ true
    → (run timeout es r).drained ≡ empties timeout es r
waits_for_empty timeout [] r v h = ground (arith, v.waits h)
waits_for_empty timeout (e ∷ es) r v h =
    let q = handle_conn_state timeout r e.conn e.state e.now in
    let v' = handle_conn_state-IsValid timeout r e.conn e.now v e.state in
    let (_, emptied, busy_still) = handle_conn_state-signal timeout r e.conn e.now v e.state in
    elim (Bool-cases (length q.active_conns == 0)) [
      | inl empty ↦
          let (silent, given) = emptied h (ground arith) in
          ground (arith, stays_drained timeout es q v' silent, empties_now timeout es q empty)
      | inr busy ↦
          ground (arith, v.waits h, waits_for_empty timeout es q v' (busy_still h (ground arith)))
    ]

start_now :
    (r : Router)
    → IsValid r
    → (length r.active_conns == 0) ≡ true
    → ((start_drain r).drain_done ≡ false)
      × ((start_drain r).drained ≡ true)
      × ((length (start_drain r).active_conns == 0) ≡ true)
unfolding start_drain close_idle_conns
start_now r v empty = ground (arith, v.waits)

start_later :
    (r : Router) → (length r.active_conns == 0) ≡ false → (start_drain r).drain_done ≡ true
unfolding start_drain close_idle_conns
start_later r busy = ground arith

-- After Drain of a router that is valid, whatever happens to the connections, the channel that
-- Drain waits for is closed exactly if at some moment from the call on there is no active
-- connection.
pub start_drain-run :
    (timeout : ℕ) (es : List Event) (r : Router)
    → IsValid r
    → (run timeout es (start_drain r)).drained ≡ empties timeout es (start_drain r)
start_drain-run timeout es r v = elim (Bool-cases (length r.active_conns == 0)) [
  | inl empty ↦
      let v' = start_drain-IsValid r v in
      let (silent, given, still) = start_now r v empty in
      stays_drained timeout es (start_drain r) v' silent
      ∙ given
      ∙ sym (empties_now timeout es (start_drain r) still)
  | inr busy ↦
      waits_for_empty timeout es (start_drain r) (start_drain-IsValid r v) (start_later r busy)
]
