-- ===== src/Store/Tasks/Keys.antt =====
-- The idempotency keys of `createTask` in src/store.ts.
use mazzy_command_center.Store.Queries.{Priority, clamp_priority, clean_type, clean}
use mazzy_command_center.Prelude.{
  Bool, true, false, List, [], ◌∷◌, some, ◌≡◌, ◌≢◌, ok, arith, not, ltb, length, ◌||◌, ◌==◌, on_ok,
  on_guard, count_where, any_where, same_text?,
}
use mazzy_command_center.Prelude.Int.{ℤ}
use mazzy_command_center.Types.{draft, backlog, task, medium, state_eq}
use mazzy_command_center.Store.Rows.{
  Env, Task, Db, constraint, title_required, initial_state, key_too_long,
}
use mazzy_command_center.Store.Tasks.{
  create_fingerprint, when_key, task_clashes, clean, prior_task, new_task, CreateTaskInput,
  create_task, trim?, default, max_key_length, insert_task,
}

abbrev pub has_blank_key : Task → Bool
has_blank_key t = same_text? t.create_idempotency_key (some [])

counted {ℓ} :
    {A : Type ℓ} (p q : A → Bool) (xs : List A)
    → ((x : A) → p x ≡ true → q x ≡ true)
    → any_where p xs ≡ true
    → (count_where q xs == 0) ≡ false
unfolding any_where count_where
counted p q [] h k = cc
counted p q (x ∷ xs) h k = ground (arith, h x, counted p q xs h)

-- Once a task with a blank idempotency key is stored, no creation whose key is blank succeeds.
pub create_task-blank_key :
    (db : Db) (env : Env) (input : CreateTaskInput) (t : Task) (db' : Db)
    → trim? input.idempotency_key ≡ some []
    → any_where has_blank_key db.tasks ≡ true
    → create_task db env input ≢ ok (t, db')
unfolding create_task new_task insert_task prior_task
create_task-blank_key db env input t db' blank stored h =
    on_ok (clean input.title title_required) h λ title _ h1.
      on_ok (clean_type input.type task) h1 λ type _ h2.
        on_ok (clamp_priority (default input.priority (Priority.int (ℤ.pos 0)))) h2 λ priority _ h3.
          on_guard
            (state_eq (default input.state backlog) draft
              || state_eq (default input.state backlog) backlog)
            initial_state h3
            λ _ h4.
              on_guard
                (not (ltb max_key_length (length (default (trim? input.idempotency_key) []))))
                key_too_long h4
                λ _ h5.
                  let e = rw blank at h5 in
                  let key = trim? input.idempotency_key in
                  let t' : Task =
                    new_task env title (default (trim? input.description) []) type
                      (default input.state backlog) priority (default input.risk medium) key
                      (when_key key (
                        create_fingerprint env title (default (trim? input.description) []) type
                          (default input.state backlog) priority (default input.risk medium))) in
                  on_ok (insert_task db t') e λ inserted done _.
                    on_guard (count_where (task_clashes t') db.tasks == 0) constraint done
                      λ fresh _. cc (
                        fresh,
                        counted has_blank_key (task_clashes t') db.tasks (λ x k. ground arith)
                            stored,
                      )
