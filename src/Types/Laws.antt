-- ===== src/Types/Laws.antt =====
-- The comparison of the task states of src/types.ts.
use mazzy_command_center.Prelude.{true, ◌≡◌, arith}
use mazzy_command_center.Types.{TaskState, state_eq}

pub state_eq-eq : (a b : TaskState) → state_eq a b ≡ true → a ≡ b
unfolding state_eq
state_eq-eq a b h = ground arith

pub state_eq_refl : (a : TaskState) → state_eq a a ≡ true
unfolding state_eq
state_eq_refl a = ground arith
