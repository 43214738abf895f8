-- ===== src/Registry/Parse/Unique.antt =====
-- In a registry that src/project-registry.ts has parsed, an id and a root each have one entry.
use mathlib.Core.Path.{subst}
use mazzy_command_center.Registry.Enroll.{is_bound}
use mazzy_command_center.Storage.Policy.{elements_of, is_version, is_text}
use mazzy_command_center.Routing.Policy.{entry_of, record_of}
use mazzy_command_center.Registry.{
  coerced_id, is_id, max_entries, ProjectId, max_registry_bytes, text_id, Entry, Registry, has_root,
  has_id,
}
use mazzy_command_center.Registry.Parse.{
  same_entry_root, same_entry_id, same_id, distinct_by, entries_of, count_elements, elements_of,
  is_version, entry_of, is_text, sorted_keys, record_of, domain_error, parse_registry, Json,
}
use mazzy_command_center.Prelude.{
  any_where-count_where, ◌<◌, ◌≤◌, count_where, some_or, Bool, true, false, List, [], ◌∷◌, some,
  ◌≡◌, ◌∙◌, inl, inr, refl, sym, arith, Text, codes, text_eq, text_eq-eq, text_eq_refl, ok, on_ok,
  on_guard, ok-eq, Bool-cases, find, any_where, ◌&&◌, &&-eq-true, leb,
}

distinct_by-count_where {ℓ} :
    {A : Type ℓ} (same : A → A → Bool) (p : A → Bool) (xs : List A)
    → ((x y : A) → p x ≡ true → same x y ≡ false → p y ≡ false)
    → distinct_by same xs ≡ true
    → count_where p xs ≤ 1
unfolding distinct_by count_where
distinct_by-count_where same p [] k h = omega arith
distinct_by-count_where same p (x ∷ xs) k h = elim (Bool-cases (p x)) [
  | inl here ↦ ground (arith, any_where-count_where p (same x) xs (λ y. k x y here))
  | inr other ↦ ground (arith, distinct_by-count_where same p xs k)
]

any_where-count_where-lt {ℓ} :
    {A : Type ℓ} (p q : A → Bool) (xs : List A)
    → ((x : A) → q x ≡ true → p x ≡ true)
    → any_where q xs ≡ true
    → 0 < count_where p xs
unfolding any_where count_where
any_where-count_where-lt p q [] k h = cc
any_where-count_where-lt p q (x ∷ xs) k h = ground (arith, k x, any_where-count_where-lt p q xs k)

-- Where one item at most passes a test, it is the one that is found.
find-any_where {ℓ} :
    {A : Type ℓ} (p q : A → Bool) (xs : List A)
    → count_where p xs ≤ 1
    → ((x : A) → q x ≡ true → p x ≡ true)
    → any_where q xs ≡ true
    → (x : A) × (find p xs ≡ some x) × (q x ≡ true)
unfolding find any_where count_where
find-any_where p q [] one k h = cc
find-any_where p q (x ∷ xs) one k h = elim (Bool-cases (p x)) [
  | inr other ↦
      let (y, found, holds) = find-any_where p q xs (ground arith) k (ground (arith, k x)) in
      (y, rw other found, holds)
  | inl here ↦ elim (Bool-cases (q x)) [
    | inl holds ↦ (x, rw here, holds)
    | inr fails ↦ absurd (ground (arith, any_where-count_where-lt p q xs k))
  ]
]

-- The ids and the roots of a list of entries are different.
pub record IsUnique (es : List Entry) : Type 0 where
  pub ids : distinct_by same_entry_id es ≡ true
  pub roots : distinct_by same_entry_root es ≡ true

pub parse_registry-IsUnique :
    (json : Json) (content : Text) (r : Registry)
    → parse_registry json content ≡ ok r
    → IsUnique r.projects
unfolding parse_registry
parse_registry-IsUnique json content r h =
    on_guard (leb (json.byte_length content) max_registry_bytes) domain_error h λ _ h1.
      on_ok (some_or (json.parse content) domain_error) h1 λ value _ h2.
        on_ok (some_or (record_of (some value)) domain_error) h2 λ fields _ h3.
          on_guard (text_eq (sorted_keys fields) (codes "projects,schema,version")) domain_error h3
            λ _ h4.
              on_guard (is_text (entry_of fields (codes "schema")) (codes "mazzy.project-registry"))
                domain_error h4
                λ _ h5.
                  on_guard (is_version (entry_of fields (codes "version")) 1) domain_error h5
                    λ _ h6.
                      on_ok
                        (some_or (elements_of (entry_of fields (codes "projects"))) domain_error) h6
                        λ items _ h7.
                          on_guard (leb (count_elements items) max_entries) domain_error h7 λ _ h8.
                            on_ok (entries_of json items) h8 λ projects _ h9.
                              on_guard
                                (distinct_by same_entry_id projects
                                  && distinct_by same_entry_root projects)
                                domain_error h9
                                λ unique same.
                                  subst (λ (p : Registry). IsUnique p.projects) (ok-eq same)
                                    (record {
                                      ids = (&&-eq-true _ _ unique).0;
                                      roots = (&&-eq-true _ _ unique).1;
                                    })

text_eq_other : (s t id : Text) → text_eq s id ≡ true → text_eq s t ≡ false → text_eq t id ≡ false
text_eq_other s t id h k = elim (Bool-cases (text_eq t id)) [
  | inr different ↦ different
  | inl same ↦
      let e : s ≡ t = text_eq-eq s id h ∙ sym (text_eq-eq t id same) in
      absurd (true_not_false (sym (text_eq_refl t) ∙ (rw e at k)))
]
  where
    true_not_false : true ≡ false → ⊥
    true_not_false c = cc

is_id-same :
    (a b : ProjectId) (id : Text) → is_id a id ≡ true → same_id a b ≡ false → is_id b id ≡ false
is_id-same (text_id s) (text_id t) id h k = text_eq_other s t id h k
is_id-same (text_id s) (coerced_id v) id h k = refl
is_id-same (coerced_id v) b id h k = cc

-- The one entry of a registry that is bound to an id and a root is found by either.
pub IsUnique-find :
    (es : List Entry) (id root : Text)
    → IsUnique es
    → any_where (is_bound id root) es ≡ true
    → ((e : Entry) × (find (has_id id) es ≡ some e) × (is_bound id root e ≡ true))
      × ((f : Entry) × (find (has_root root) es ≡ some f) × (is_bound id root f ≡ true))
IsUnique-find es id root unique bound = (
  find-any_where (has_id id) (is_bound id root) es
      (distinct_by-count_where same_entry_id (has_id id) es
        (λ e f. is_id-same e.project_id f.project_id id) unique.ids)
      (λ e h. (&&-eq-true _ _ h).0) bound,
  find-any_where (has_root root) (is_bound id root) es
      (distinct_by-count_where same_entry_root (has_root root) es
        (λ e f. text_eq_other e.root_digest f.root_digest root) unique.roots)
      (λ e h. (&&-eq-true _ _ h).1) bound,
)
