-- ===== src/Router/Tests.antt =====
-- A router with two connections, on which the calls are run and the theorems applied.
use gorouter.Base.{◌≡◌, refl, [], ◌∷◌, some, true, false, if◌then◌else◌, ◌==◌}
use gorouter.Router.{
  Router, state_active, state_idle, state_closed, new_router, on_active, on_idle, on_closed,
  signal_drained, switch_state, handle_conn_state, close_idle_conns, start_drain,
}
use gorouter.Router.Connections.{
  IsValid, handle_conn_state-IsValid, handle_conn_state-status, status, next_status,
}
use gorouter.Router.Draining.{
  changes, Reaches, done, after, reachable-IsValid, new_router-IsValid, Event, run, empties,
  start_drain-run,
}

-- Connection 7 is active.
abbrev one : Router
one = handle_conn_state 60 new_router 7 state_active 100

-- And connection 8 is idle.
abbrev two : Router
two = handle_conn_state 60 one 8 state_idle 101

two-Reaches : Reaches 60 new_router two
two-Reaches =
    after new_router one two (changes new_router 7 state_active 100)
      (after one two two (changes one 8 state_idle 101) (done two))

abbrev leaves : Event
leaves = record { conn = 7; state = state_closed; now = 103 }

-- Drain closes the idle connection, and the active one ends the drain when it leaves.
drained_run :
    ((start_drain two).closed 8 ≡ true)
    × ((start_drain two).drained ≡ false)
    × ((run 60 (leaves ∷ []) (start_drain two)).drained ≡ true)
    × (two.deadline 8 ≡ some 161)
unfolding start_drain close_idle_conns handle_conn_state signal_drained switch_state on_active
    on_idle on_closed new_router
drained_run = (refl, refl, refl, refl)

reachable-IsValid_example : IsValid two
reachable-IsValid_example = reachable-IsValid 60 two two-Reaches

handle_conn_state-status_example :
    status (handle_conn_state 60 one 7 state_idle 102) 7
    ≡ (if 7 == 7 then next_status state_idle (status one 7) else status one 7)
handle_conn_state-status_example =
    handle_conn_state-status 60 one 7 102
      (handle_conn_state-IsValid 60 new_router 7 100 new_router-IsValid state_active) state_idle 7

start_drain-run_example :
    (run 60 (leaves ∷ []) (start_drain one)).drained ≡ empties 60 (leaves ∷ []) (start_drain one)
start_drain-run_example =
    start_drain-run 60 (leaves ∷ []) one
      (handle_conn_state-IsValid 60 new_router 7 100 new_router-IsValid state_active)
