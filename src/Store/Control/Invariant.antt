-- ===== src/Store/Control/Invariant.antt =====
-- What holds of the control requests of src/store.ts between two calls, and how a request moves.
use mathlib.Core.Path.{subst}
use mazzy_command_center.Prelude.{
  find-update_where_same, find-append_of_some, first_by-none-count_where,
  count_where-update_where-le, any_where-count_where, update_where_unique, count_where-append, ℕ,
  Bool, true, false, List, [], ◌∷◌, ◌++◌, none, some, ◌≡◌, ◌≤◌, ◌⊎◌, inl, inr, refl, sym, ap, ◌∙◌,
  arith, ◌==◌, ◌||◌, ◌&&◌, ==_iff, Bool-cases, find, update_where, any_where, count_where,
}
use mazzy_command_center.Types.{
  ControlRequestState, requested, delivered, claimed, request_state_eq, is_go,
}
use mazzy_command_center.Store.Rows.{ControlRequest, Db}
use mazzy_command_center.Store.Control.{
  ControlRequestState, is_outstanding_go, get_control_request, outstanding_go, request_clashes,
  earlier_request,
}
use mazzy_command_center.Store.Control.Outcome.{Changed, kept, added, moved, claims, IsNextRequest}

-- What there is at most one of: a GO that waits or is claimed for a revision of a task, and an id.
pub data RequestKey : Type 0 where
  go_for : ℕ → ℕ → RequestKey
  id_of : ℕ → RequestKey

abbrev pub picks : RequestKey → ControlRequest → Bool
picks (go_for task_id revision) r = is_outstanding_go task_id revision r
picks (id_of id) r = r.id == id

unfoldable pub request_count : Db → RequestKey → ℕ
request_count db k = count_where (picks k) db.requests

abbrev pub OneEach : Db → Type 0
OneEach db = (k : RequestKey) → request_count db k ≤ 1

next_picked :
    (k : RequestKey) (x y : ControlRequest)
    → IsNextRequest x y
    → picks k x ≡ false
    → picks k y ≡ false
next_picked (go_for task_id revision) x y n h = go_on x.state refl
  where
    go_on : (s : ControlRequestState) → x.state ≡ s → picks (go_for task_id revision) y ≡ false
    go_on requested e = ground (arith, n.same_task, n.same_revision, n.same_command)
    go_on delivered e = ground (arith, n.same_task, n.same_revision, n.same_command)
    go_on claimed e = ground (arith, n.same_task, n.same_revision, n.same_command)
    go_on s e = absurd (ground (arith, n.moves))
next_picked (id_of id) x y n h = subst (λ i. (i == id) ≡ false) (sym n.same_id) h

moved-le :
    (db : Db) (k : RequestKey) (test : ControlRequest → Bool) (f : ControlRequest → ControlRequest)
    → ((x : ControlRequest) → test x ≡ true → IsNextRequest x (f x))
    → count_where (picks k) (update_where test f db.requests) ≤ request_count db k
unfolding request_count
moved-le db k test f next =
    count_where-update_where-le (picks k) test f db.requests
      (λ y t p. next_picked k y (f y) (next y t) p)

-- A claim updates the row that it read and no other.
claims-update :
    (db : Db) (r : ControlRequest) (f : ControlRequest → ControlRequest)
    → OneEach db
    → get_control_request db r.id ≡ some r
    → (request_state_eq r.state requested || request_state_eq r.state delivered) ≡ true
    → update_where (λ x. (x.id == r.id) && true) f db.requests
      ≡ update_where
          (λ x.
            (x.id == r.id)
            && (request_state_eq x.state requested || request_state_eq x.state delivered))
          f
          db.requests
unfolding request_count get_control_request
claims-update db r f one found waits =
    sym (
      update_where_unique (λ x. x.id == r.id) (λ x. true) f db.requests r (one (id_of r.id)) found
        refl)
    ∙ update_where_unique (λ x. x.id == r.id)
        (λ x. request_state_eq x.state requested || request_state_eq x.state delivered) f
        db.requests r (one (id_of r.id)) found waits

fresh_count :
    (db : Db) (r : ControlRequest) (k : RequestKey)
    → any_where (request_clashes r) db.requests ≡ false
    → (is_go r.command ≡ true → outstanding_go db r.task_id r.expected_task_revision ≡ none)
    → picks k r ≡ true
    → request_count db k ≡ 0
unfolding request_count outstanding_go
fresh_count db r (id_of id) fresh alone h =
    any_where-count_where (λ y. y.id == id) (request_clashes r) db.requests
      (λ y c. subst (λ j. (y.id == j) ≡ false) ((==_iff r.id id).0 h) (ground arith)) fresh
fresh_count db r (go_for task_id revision) fresh alone h =
    let same_task : r.task_id ≡ task_id = ground arith in
    let same_revision : r.expected_task_revision ≡ revision = ground arith in
    let one_go : is_go r.command ≡ true = ground arith in
    subst (λ i. count_where (is_outstanding_go i revision) db.requests ≡ 0) same_task
      (subst (λ j. count_where (is_outstanding_go r.task_id j) db.requests ≡ 0) same_revision
        (first_by-none-count_where earlier_request
          (is_outstanding_go r.task_id r.expected_task_revision) db.requests (alone one_go)))

added_one :
    (db : Db) (r : ControlRequest) (k : RequestKey)
    → any_where (request_clashes r) db.requests ≡ false
    → (is_go r.command ≡ true → outstanding_go db r.task_id r.expected_task_revision ≡ none)
    → request_count db k ≤ 1
    → count_where (picks k) (db.requests ++ r ∷ []) ≤ 1
unfolding request_count count_where
added_one db r k fresh alone small =
    let sum = count_where-append (picks k) db.requests (r ∷ []) in
    elim (Bool-cases (picks k r)) [
      | inl here ↦ ground (arith, fresh_count db r k fresh alone here)
      | inr other ↦ ground arith
    ]

by_table :
    (db db' : Db) (l : List ControlRequest) (k : RequestKey)
    → db'.requests ≡ l
    → count_where (picks k) l ≤ 1
    → request_count db' k ≤ 1
unfolding request_count
by_table db db' l k e h = subst (λ r. count_where (picks k) r ≤ 1) (sym e) h

claims-next :
    (r : ControlRequest) (f : ControlRequest → ControlRequest)
    → ((x : ControlRequest)
        → (request_state_eq x.state requested || request_state_eq x.state delivered) ≡ true
        → IsNextRequest x (f x))
    → (x : ControlRequest)
    → ((x.id == r.id) && (request_state_eq x.state requested || request_state_eq x.state delivered))
      ≡ true
    → IsNextRequest x (f x)
claims-next r f next x t = next x (ground arith)

pub Changed-OneEach : (db db' : Db) → Changed db db' → OneEach db → OneEach db'
Changed-OneEach db db' (kept same) one k = subst (λ d. request_count d k ≤ 1) same (one k)
Changed-OneEach db db' (added r fresh alone table others) one k =
    by_table db db' _ k table (added_one db r k fresh alone (one k))
Changed-OneEach db db' (moved test f next table others) one k =
    by_table db db' _ k table (omega (arith, moved-le db k test f next, one k))
Changed-OneEach db db' (claims r f found waits next table others) one k =
    by_table db db' _ k (table ∙ claims-update db r f one found waits)
      (omega (arith, moved-le db k _ f (claims-next r f next), one k))

-- A request after an operation: as it was, or moved.
abbrev pub IsFollowedBy : Db → ℕ → ControlRequest → Type 0
IsFollowedBy db id r =
    (r' : ControlRequest) × (get_control_request db id ≡ some r') × ((r' ≡ r) ⊎ IsNextRequest r r')

moved-follows :
    (db db' : Db) (id : ℕ) (r : ControlRequest) (test : ControlRequest → Bool)
    (f : ControlRequest → ControlRequest)
    → ((x : ControlRequest) → test x ≡ true → IsNextRequest x (f x))
    → db'.requests ≡ update_where test f db.requests
    → get_control_request db id ≡ some r
    → IsFollowedBy db' id r
unfolding get_control_request
moved-follows db db' id r test f next table found =
    let there =
      ap (find (λ x. x.id == id)) table
      ∙ find-update_where_same (λ x. x.id == id) test f db.requests r
          (λ y t. ap (λ i. i == id) (next y t).same_id) found in
    elim (Bool-cases (test r)) [
      | inl hit ↦ (f r, rw hit at there, inr (next r hit))
      | inr miss ↦ (r, rw miss at there, inl refl)
    ]

pub Changed-follows :
    (db db' : Db) (id : ℕ) (r : ControlRequest)
    → Changed db db'
    → OneEach db
    → get_control_request db id ≡ some r
    → IsFollowedBy db' id r
unfolding get_control_request
Changed-follows db db' id r (kept same) one found =
    (r, subst (λ d. find (λ x. x.id == id) d.requests ≡ some r) same found, inl refl)
Changed-follows db db' id r (added new fresh alone table others) one found = (
  r,
  ap (find (λ x. x.id == id)) table
      ∙ find-append_of_some (λ x. x.id == id) db.requests (new ∷ []) r found,
  inl refl,
)
Changed-follows db db' id r (moved test f next table others) one found =
    moved-follows db db' id r test f next table found
Changed-follows db db' id r (claims q f here waits next table others) one found =
    moved-follows db db' id r _ f (claims-next q f next)
      (table ∙ claims-update db q f one here waits) found
