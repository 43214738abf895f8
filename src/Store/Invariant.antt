-- ===== src/Store/Invariant.antt =====
-- What holds of the tasks and bindings of src/store.ts between two calls.
pub mod Counts
pub mod Updates
pub mod Runs
pub mod Completions
pub mod Attestations
pub mod Others
pub mod Creation
use mazzy_command_center.Prelude.{
  ap, sym, Text, ◌∙◌, ◌==◌, inr, inl, arith, ◌⊎◌, ℕ, Bool, true, false, ◌||◌, ◌≡◌, ◌≤◌, some,
  count_where,
}
use mazzy_command_center.Types.{
  TaskState, review, done, failed, cancelled, state_eq, worker, reviewer, RunRole,
}
use mazzy_command_center.Store.Rows.{EventBody, RunBinding, Task, Db}
use mazzy_command_center.Store.Queries.{event, get_task, is_active}

-- What a schema allows at most once among the bindings: an active one of a role for a task, and
-- an id.
pub data Key : Type 0 where
  active_of : RunRole → ℕ → Key
  id_of : ℕ → Key

abbrev pub selects : Key → RunBinding → Bool
selects (active_of role id) b = is_active role id b
selects (id_of id) b = b.id == id

unfoldable pub key_count : Db → Key → ℕ
key_count db k = count_where (selects k) db.bindings

-- The active bindings of a role for a task.
abbrev pub active_count : Db → RunRole → ℕ → ℕ
active_count db role id = key_count db (active_of role id)

-- The states in which no worker may be active.
abbrev pub is_settled : TaskState → Bool
is_settled s = state_eq s review || state_eq s done || state_eq s failed || state_eq s cancelled

pub record Inv (db : Db) : Type 0 where
  pub one_of_each : (k : Key) → key_count db k ≤ 1
  pub settled :
      (id : ℕ) (t : Task)
      → get_task db id ≡ some t
      → is_settled t.state ≡ true
      → active_count db worker id ≡ 0

-- How the invariant is kept: no count grows, and a settled task is free of workers or was settled.
pub Inv-of_shrink :
    (db db' : Db)
    → ((k : Key) → key_count db' k ≤ key_count db k)
    → ((id : ℕ) (t : Task)
        → get_task db' id ≡ some t
        → is_settled t.state ≡ true
        → (active_count db' worker id ≡ 0)
          ⊎ ((old : Task) × (get_task db id ≡ some old) × (is_settled old.state ≡ true)))
    → Inv db
    → Inv db'
Inv-of_shrink db db' shrinks settles inv = record {
  one_of_each = λ k. omega (arith, shrinks k, inv.one_of_each k);
  settled = λ id t found s. elim (settles id t found s) [
    | inl free ↦ free
    | inr (old, was, settled) ↦
        omega (arith, shrinks (active_of worker id), inv.settled id old was settled)
  ];
}

-- The tables of the invariants are as they were.
pub record SameRows (db db' : Db) : Type 0 where
  pub tasks : db'.tasks ≡ db.tasks
  pub bindings : db'.bindings ≡ db.bindings
  pub requests : db'.requests ≡ db.requests

pub SameRows-trans : {a b c : Db} → SameRows a b → SameRows b c → SameRows a c
SameRows-trans x y = record {
  tasks = y.tasks ∙ x.tasks;
  bindings = y.bindings ∙ x.bindings;
  requests = y.requests ∙ x.requests;
}

pub event-SameRows :
    (db db' : Db) (id : ℕ) (body : EventBody) (actor : Text) (at : ℕ)
    → event db id body actor at ≡ db'
    → SameRows db db'
unfolding event
event-SameRows db db' id body actor at same = record {
  tasks = sym (ap (λ d. d.tasks) same);
  bindings = sym (ap (λ d. d.bindings) same);
  requests = sym (ap (λ d. d.requests) same);
}
