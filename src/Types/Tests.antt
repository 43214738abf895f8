-- ===== src/Types/Tests.antt =====
-- The tables of src/types.ts at concrete states.
use mazzy_command_center.Types.{done, review, includes_state, ui_transitions, is_allowed_transition}
use mazzy_command_center.Prelude.{true, false, ◌≡◌, refl}

-- A review may end in DONE, which the dashboard does not offer.
done_is_allowed : is_allowed_transition review done ≡ true
unfolding is_allowed_transition
done_is_allowed = refl

done_is_not_offered : includes_state done (ui_transitions review) ≡ false
unfolding includes_state ui_transitions
done_is_not_offered = refl
