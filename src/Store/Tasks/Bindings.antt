-- ===== src/Store/Tasks/Bindings.antt =====
-- The bindings that `updateTask` of src/store.ts releases.
use mazzy_command_center.Prelude.{
  inl, inr, ◌⊎◌, ℕ, true, false, ◌≡◌, arith, count_where-update_where-none, Text,
}
use mazzy_command_center.Store.Rows.{Env, Task, Db}
use mazzy_command_center.Types.{RunBindingState, active, binding_state_eq}
use mazzy_command_center.Store.Queries.{
  active_bindings, release_active_bindings, event, is_active_binding, put_state,
}
use mazzy_command_center.Store.Tasks.{
  superseded, release_restarted, release_terminal, UpdatePlan, settle_bindings, is_terminal,
  terminal_release,
}

pub release_active_bindings-none :
    (db : Db) (id : ℕ) (state : RunBindingState) (at : ℕ)
    → binding_state_eq state active ≡ false
    → active_bindings (release_active_bindings db id state at) id ≡ 0
unfolding active_bindings release_active_bindings
release_active_bindings-none db id state at h =
    count_where-update_where-none (is_active_binding id) (is_active_binding id) (put_state state at)
      db.bindings (λ y e. e) (λ y e. ground arith)

pub settle_bindings-bindings :
    (db : Db) (env : Env) (current : Task) (p : UpdatePlan) (actor : Text)
    → (settle_bindings db env current p actor).bindings
      ≡ (release_terminal (release_restarted db env current p) env current p).bindings
unfolding settle_bindings event
settle_bindings-bindings db env current p actor = ground arith

release_terminal-none :
    (db : Db) (env : Env) (current : Task) (p : UpdatePlan)
    → (active_bindings db current.id ≡ 0) ⊎ (is_terminal p.state ≡ true)
    → active_bindings (release_terminal db env current p) current.id ≡ 0
unfolding release_terminal
release_terminal-none db env current p h =
    ground
      (arith, release_active_bindings-none db current.id (terminal_release p.state) (env.clock 0))

release_restarted-none :
    (db : Db) (env : Env) (current : Task) (p : UpdatePlan)
    → p.acceptance_restart ≡ true
    → active_bindings (release_restarted db env current p) current.id ≡ 0
unfolding release_restarted
release_restarted-none db env current p h =
    ground (arith, release_active_bindings-none db current.id superseded (env.clock 0))

pub settle_bindings-none :
    (db : Db) (env : Env) (current : Task) (p : UpdatePlan) (actor : Text)
    → (p.acceptance_restart ≡ true) ⊎ (is_terminal p.state ≡ true)
    → active_bindings (settle_bindings db env current p actor) current.id ≡ 0
unfolding active_bindings
settle_bindings-none db env current p actor h =
    rw (settle_bindings-bindings db env current p actor) (
      release_terminal-none (release_restarted db env current p) env current p (elim h [
        | inl restart ↦ inl (release_restarted-none db env current p restart)
        | inr ends ↦ inr ends
      ]))
