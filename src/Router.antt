-- ===== src/Router.antt =====
-- router/router.go: the connections of the router, and how it drains and stops. A connection is a
-- number; a map of empty structs is the list of its keys. Each function runs under `connLock`.
pub mod Connections
pub mod Draining
mod Tests
use gorouter.Base.{
  ℕ, ◌+◌, List, [], ◌∷◌, Option, none, some, Bool, true, false, ◌&&◌, ◌||◌, if◌then◌else◌, ltb,
  ◌==◌, length,
}

abbrev pub has : List ℕ → ℕ → Bool
has [] c = false
has (d ∷ cs) c = d == c || has cs c

-- `m[c] = struct{}{}`
abbrev pub add : ℕ → List ℕ → List ℕ
add c cs = if has cs c then cs else c ∷ cs

-- `delete(m, c)`
abbrev pub remove : ℕ → List ℕ → List ℕ
remove c [] = []
remove c (d ∷ cs) = if d == c then remove c cs else d ∷ remove c cs

-- `drain_done` says that the channel is not nil, and `drained` that the channel of the last Drain
-- is closed. `closed` and `deadline` are what the connections were told; no deadline is `none`.
pub record Router : Type 0 where
  pub close_connections : Bool
  pub idle_conns : List ℕ
  pub active_conns : List ℕ
  pub drain_done : Bool
  pub drained : Bool
  pub closed : ℕ → Bool
  pub deadline : ℕ → Option ℕ

unfoldable pub new_router : Router
new_router = record {
  close_connections = false;
  idle_conns = [];
  active_conns = [];
  drain_done = false;
  drained = false;
  closed = λ c. false;
  deadline = λ c. none;
}

-- http.ConnState
pub data ConnState : Type 0 where
  state_new : ConnState
  state_active : ConnState
  state_idle : ConnState
  state_hijacked : ConnState
  state_closed : ConnState

abbrev close_conn : Router → ℕ → Router
close_conn r c = record r { closed = λ d. if d == c then true else r.closed d }

abbrev set_deadline : Router → ℕ → Option ℕ → Router
set_deadline r c t = record r { deadline = λ d. if d == c then t else r.deadline d }

-- The cases of the switch in HandleConnState.
unfoldable pub on_active : Router → ℕ → Router
on_active r c =
    set_deadline
      (record r { active_conns = add c r.active_conns; idle_conns = remove c r.idle_conns }) c none

unfoldable pub on_idle : ℕ → Router → ℕ → ℕ → Router
on_idle endpoint_timeout r c now =
    let r' = record r { active_conns = remove c r.active_conns; idle_conns = add c r.idle_conns } in
    if r.close_connections
    then close_conn r' c
    else set_deadline r' c (if ltb 0 endpoint_timeout then some (now + endpoint_timeout) else none)

-- The test by the number of idle connections: one that was not idle was active.
unfoldable pub on_closed : Router → ℕ → Router
on_closed r c =
    let idle = remove c r.idle_conns in
    if length r.idle_conns == length idle
    then record r { idle_conns = idle; active_conns = remove c r.active_conns }
    else record r { idle_conns = idle }

unfoldable pub signal_drained : Router → Router
signal_drained r =
    if r.drain_done && length r.active_conns == 0
    then record r { drained = true; drain_done = false }
    else r

unfoldable pub switch_state : ℕ → Router → ℕ → ConnState → ℕ → Router
switch_state endpoint_timeout r c state_new now = r
switch_state endpoint_timeout r c state_active now = on_active r c
switch_state endpoint_timeout r c state_idle now = on_idle endpoint_timeout r c now
switch_state endpoint_timeout r c state_hijacked now = on_closed r c
switch_state endpoint_timeout r c state_closed now = on_closed r c

unfoldable pub handle_conn_state : ℕ → Router → ℕ → ConnState → ℕ → Router
handle_conn_state endpoint_timeout r c state now =
    signal_drained (switch_state endpoint_timeout r c state now)

unfoldable pub close_idle_conns : Router → Router
close_idle_conns r = record r {
  close_connections = true;
  closed = λ c. has r.idle_conns c || r.closed c;
}

-- The part of Drain between stopListening and the wait for `drained` or the timeout.
unfoldable pub start_drain : Router → Router
start_drain r =
    let r' = close_idle_conns r in
    if length r.active_conns == 0
    then record r' { drained = true }
    else record r' { drained = false; drain_done = true }

-- Stop, after stopListening.
unfoldable pub stop : Router → Router
stop r = close_idle_conns r
