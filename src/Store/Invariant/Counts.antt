-- ===== src/Store/Invariant/Counts.antt =====
-- How the writes of src/store.ts change the number of active bindings.
use mathlib.Core.Path.{sym, subst}
use mazzy_command_center.Prelude.{
  ==_iff, count_where_mono, text_eq, any_where-count_where, update_where, ap, ℕ, ◌+◌, Bool, true,
  false, ◌≡◌, ◌≤◌, List, [], ◌∷◌, ◌++◌, ◌&&◌, ◌||◌, if◌then◌else◌, arith, any_where, count_where,
  count_where-append, count_where-update_where-le, refl, ◌==◌,
}
use mazzy_command_center.Types.{
  RunRole, worker, reviewer, RunBindingState, active, superseded, binding_state_eq,
}
use mazzy_command_center.Store.Rows.{RunBinding, Db}
use mazzy_command_center.Store.Queries.{
  is_active_binding, active_bindings, is_active, clashes, put_state, release_active_reviewers,
  release_active_bindings, release,
}
use mazzy_command_center.Store.Invariant.{id_of, active_of, selects, Key, key_count, active_count}

worker_clash :
    (a b c x y z w : Bool) → (a || b || c || (x && y) || (z && w)) ≡ false → y ≡ true → x ≡ false
worker_clash a b c x y z w h k = ground arith

reviewer_clash :
    (a b c x y z w : Bool) → (a || b || c || (x && y) || (z && w)) ≡ false → w ≡ true → z ≡ false
reviewer_clash a b c x y z w h k = ground arith

id_clash : (a b c d e : Bool) → (a || b || c || d || e) ≡ false → a ≡ false
id_clash a b c d e h = ground arith

selects_active :
    (role : RunRole) (id : ℕ) (b : RunBinding) → is_active role id b ≡ true → b.task_id ≡ id
selects_active role id b h = ground arith

count_where_of_fresh :
    (b : RunBinding) (bs : List RunBinding) (role : RunRole)
    → any_where (clashes b) bs ≡ false
    → is_active role b.task_id b ≡ true
    → count_where (is_active role b.task_id) bs ≡ 0
count_where_of_fresh b bs worker h a =
    any_where-count_where (is_active worker b.task_id) (clashes b) bs
      (λ y k.
        worker_clash (y.id == b.id) (text_eq y.run_id b.run_id)
          (text_eq y.idempotency_key b.idempotency_key) (is_active worker b.task_id y)
          (is_active worker b.task_id b) (is_active reviewer b.task_id y)
          (is_active reviewer b.task_id b) k a)
      h
count_where_of_fresh b bs reviewer h a =
    any_where-count_where (is_active reviewer b.task_id) (clashes b) bs
      (λ y k.
        reviewer_clash (y.id == b.id) (text_eq y.run_id b.run_id)
          (text_eq y.idempotency_key b.idempotency_key) (is_active worker b.task_id y)
          (is_active worker b.task_id b) (is_active reviewer b.task_id y)
          (is_active reviewer b.task_id b) k a)
      h

-- A binding that clashes with no row is the first that its keys select.
pub key_count_of_fresh :
    (db : Db) (b : RunBinding) (k : Key)
    → any_where (clashes b) db.bindings ≡ false
    → selects k b ≡ true
    → key_count db k ≡ 0
unfolding key_count
key_count_of_fresh db b (active_of role id) h s =
    let mine = selects_active role id b s in
    subst (λ j. count_where (is_active role j) db.bindings ≡ 0) mine
      (count_where_of_fresh b db.bindings role h
        (subst (λ j. is_active role j b ≡ true) (sym mine) s))
key_count_of_fresh db b (id_of id) h s =
    any_where-count_where (λ y. y.id == id) (clashes b) db.bindings
      (λ y k.
        subst (λ j. (y.id == j) ≡ false) ((==_iff b.id id).0 s)
          (id_clash (y.id == b.id) (text_eq y.run_id b.run_id)
            (text_eq y.idempotency_key b.idempotency_key)
            (is_active worker b.task_id y && is_active worker b.task_id b)
            (is_active reviewer b.task_id y && is_active reviewer b.task_id b) k))
      h

-- Whether a key selects a row.
abbrev pub counts : Key → RunBinding → ℕ
counts k b = if selects k b then 1 else 0

pub key_count_inserted :
    (db db' : Db) (b : RunBinding) (k : Key)
    → db'.bindings ≡ db.bindings ++ b ∷ []
    → key_count db' k ≡ key_count db k + counts k b
unfolding key_count count_where
key_count_inserted db db' b k e =
    ground
      (arith, ap (count_where (selects k)) e, count_where-append (selects k) db.bindings (b ∷ []))

calm_active :
    (f : RunBinding → RunBinding) (role : RunRole) (id : ℕ) (y : RunBinding)
    → (f y).id ≡ y.id
    → (f y).task_id ≡ y.task_id
    → (f y).role ≡ y.role
    → (binding_state_eq (f y).state active ≡ true → binding_state_eq y.state active ≡ true)
    → is_active role id y ≡ false
    → is_active role id (f y) ≡ false
calm_active f role id y i t r a h = ground arith

-- An update that keeps the ids and makes no binding active selects no more than before.
abbrev pub Calms : (RunBinding → RunBinding) → Type 0
Calms f =
    (b : RunBinding)
    → ((f b).id ≡ b.id)
      × ((f b).task_id ≡ b.task_id)
      × ((f b).role ≡ b.role)
      × ((binding_state_eq (f b).state active ≡ true) → (binding_state_eq b.state active ≡ true))

pub update_where-le :
    (db : Db) (test : RunBinding → Bool) (f : RunBinding → RunBinding) (k : Key)
    → Calms f
    → count_where (selects k) (update_where test f db.bindings) ≤ key_count db k
unfolding key_count
update_where-le db test f (active_of role id) calm =
    count_where-update_where-le (is_active role id) test f db.bindings
      (λ y t p. calm_active f role id y (calm y).0 (calm y).1 (calm y).2 (calm y).3 p)
update_where-le db test f (id_of id) calm =
    count_where-update_where-le (λ y. y.id == id) test f db.bindings
      (λ y t p. subst (λ n. (n == id) ≡ false) (sym (calm y).0) p)

pub put_state-Calms :
    (state : RunBindingState) (at : ℕ)
    → binding_state_eq state active ≡ false
    → Calms (put_state state at)
put_state-Calms state at h b = (refl, refl, refl, λ p. absurd (cc))

pub release_active_reviewers-le :
    (db : Db) (task at : ℕ) (k : Key)
    → key_count (release_active_reviewers db task at) k ≤ key_count db k
unfolding key_count release_active_reviewers
release_active_reviewers-le db task at k =
    update_where-le db (is_active reviewer task) (put_state superseded at) k
      (put_state-Calms superseded at refl)

pub release-le :
    (db : Db) (binding at : ℕ) (k : Key)
    → key_count (release db binding superseded at) k ≤ key_count db k
unfolding key_count release
release-le db binding at k =
    update_where-le db _ (put_state superseded at) k (put_state-Calms superseded at refl)

pub release_active_bindings-le :
    (db : Db) (task : ℕ) (state : RunBindingState) (at : ℕ) (k : Key)
    → binding_state_eq state active ≡ false
    → key_count (release_active_bindings db task state at) k ≤ key_count db k
unfolding key_count release_active_bindings
release_active_bindings-le db task state at k h =
    update_where-le db _ (put_state state at) k (put_state-Calms state at h)

-- A task without active bindings has none of either role.
pub active_count_of_none :
    (db : Db) (role : RunRole) (id : ℕ) → active_bindings db id ≡ 0 → active_count db role id ≡ 0
unfolding key_count active_bindings
active_count_of_none db role id h = omega (
  arith,
  count_where_mono (is_active role id) (is_active_binding id) db.bindings (λ y k. ground arith),
)
