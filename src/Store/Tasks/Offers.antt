-- ===== src/Store/Tasks/Offers.antt =====
-- The moves that the dashboard offers, src/types.ts, against those that an update of src/store.ts
-- accepts.
use mazzy_command_center.Prelude.{
  arith, ok, some, false, ◌↔◌, true, ◌≡◌, ◌≢◌, filter_where, any_where,
}
use mazzy_command_center.Types.{
  done, TaskState, includes_state, ui_transitions, is_allowed_transition, state_eq,
}
use mazzy_command_center.Types.{is_allowed_transition, ui_transitions, includes_state}
use mazzy_command_center.Store.Tasks.{done, TaskState, is_allowed_transition, next_state}

-- For every state other than the present one and DONE, the dashboard offers the move to it
-- exactly when the checks on the state of an update that does not edit the task accept it.
pub next_state-offered :
    (from to : TaskState)
    → to ≢ from
    → to ≢ done
    → (includes_state to (ui_transitions from) ≡ true) ↔ (next_state from false (some to) ≡ ok to)
unfolding includes_state ui_transitions is_allowed_transition filter_where any_where next_state
    state_eq
next_state-offered from to other open_yet = ground arith
