-- ===== src/Registry/Parse/Roundtrip.antt =====
-- A registry that src/project-registry.ts has read is read back from what it prints.
use mazzy_command_center.Graph.{number}
use mathlib.Core.Path.{subst}
use mazzy_command_center.Storage.Policy.{
  elements_of, is_version, is_text, text_leb, insert_text, sort_texts,
}
use mazzy_command_center.Routing.Policy.{
  null, object, no_element, array, element, entry_of, boolean, Elements, record_of, string, Value,
}
use mazzy_command_center.Registry.{
  max_entries, max_registry_bytes, coerced_id, Registry, is_uuid, ProjectId, is_base64url_digest,
  Entry,
}
use mazzy_command_center.Registry.Parse.{
  same_entry_root, same_entry_id, distinct_by, elements_of, is_version, object, is_text, array,
  number, element, entry_of, boolean, count_elements, domain_error, entry_values, registry_value,
  string_of, Elements, record_of, plain_text, entries_of, parse_registry, entry_value, iso_of,
  sort_texts, id_value, project_id_of, string, join_commas, Value, sorted_keys, Entry, Json,
  digest_of, entry_of_value,
}
use mazzy_command_center.Prelude.{
  suc, leb, some-eq, if◌then◌else◌, some_or, Bool, true, List, Option, none, some, ◌≡◌, ◌≤◌, ◌∙◌,
  inl, inr, refl, sym, ap, arith, Text, codes, text_eq, ok, on_ok, on_guard, ok-eq, Bool-cases,
  some_or-eq-ok, ◌&&◌,
}

-- What the reader has checked of an entry.
record IsChecked (json : Json) (e : Entry) : Type 0 where
  id : project_id_of (some (id_value e.project_id)) ≡ some e.project_id
  root : digest_of (some (string e.root_digest)) ≡ some e.root_digest
  fs_id : digest_of (some (string e.fs_id_digest)) ≡ some e.fs_id_digest
  repo : digest_of (some (string e.repo_digest)) ≡ some e.repo_digest
  first : iso_of json (some (string e.first_seen_at)) ≡ some e.first_seen_at
  last : iso_of json (some (string e.last_seen_at)) ≡ some e.last_seen_at

entry_of_value-entry_value :
    (json : Json) (e : Entry) → IsChecked json e → entry_of_value json (entry_value e) ≡ ok e
unfolding entry_of_value text_eq sorted_keys join_commas sort_texts insert_text text_leb
entry_of_value-entry_value json e c = rw (c.id, c.root, c.fs_id, c.repo, c.first, c.last) refl

-- A text that passed a test passes it again.
tested-again :
    (test : Text → Bool) (o : Option Text) (s : Text)
    → ◌≡◌ {A = Option Text}
        (elim o [ none ↦ none | some t ↦ if test t then some t else none ])
        (some s)
    → test s ≡ true
tested-again test none s h = absurd (cc)
tested-again test (some t) s h = elim (Bool-cases (test t)) [
  | inl passed ↦ rw (← some-eq (rw passed at h)) passed
  | inr failed ↦ absurd (none_not_some (rw failed at h))
]
  where
    none_not_some : ◌≡◌ {A = Option Text} none (some s) → ⊥
    none_not_some k = cc

digest_of-again :
    (v : Option Value) (s : Text) → digest_of v ≡ some s → digest_of (some (string s)) ≡ some s
unfolding digest_of
digest_of-again v s h = rw (tested-again is_base64url_digest (plain_text v) s h) refl

iso_of-again :
    (json : Json) (v : Option Value) (s : Text)
    → iso_of json v ≡ some s
    → iso_of json (some (string s)) ≡ some s
unfolding iso_of
iso_of-again json v s h = rw (tested-again json.is_iso (plain_text v) s h) refl

coerced-again :
    (v : Value) (p : ProjectId)
    → ◌≡◌ {A = Option ProjectId}
        (if is_uuid (string_of v) then some (coerced_id v) else none)
        (some p)
    → (p ≡ coerced_id v) × (is_uuid (string_of v) ≡ true)
coerced-again v p h = elim (Bool-cases (is_uuid (string_of v))) [
  | inl passed ↦ (sym (some-eq (rw passed at h)), passed)
  | inr failed ↦ absurd (none_not_some (rw failed at h))
]
  where
    none_not_some : ◌≡◌ {A = Option ProjectId} none (some p) → ⊥
    none_not_some k = cc

project_id_of-again :
    (v : Option Value) (p : ProjectId)
    → project_id_of v ≡ some p
    → project_id_of (some (id_value p)) ≡ some p
project_id_of-again none p h = absurd (cc)
project_id_of-again (some (string s)) p h = elim (Bool-cases (is_uuid s)) [
  | inl passed ↦
      subst (λ q. project_id_of (some (id_value q)) ≡ some q) (some-eq (rw passed at h))
        (rw passed refl)
  | inr failed ↦ absurd (none_not_some (rw failed at h))
]
  where
    none_not_some : ◌≡◌ {A = Option ProjectId} none (some p) → ⊥
    none_not_some k = cc
project_id_of-again (some null) p h =
    let (e, passed) = coerced-again null p h in
    subst (λ q. project_id_of (some (id_value q)) ≡ some q) (sym e) (rw passed refl)
project_id_of-again (some (boolean b)) p h =
    let (e, passed) = coerced-again (boolean b) p h in
    subst (λ q. project_id_of (some (id_value q)) ≡ some q) (sym e) (rw passed refl)
project_id_of-again (some (number n)) p h =
    let (e, passed) = coerced-again (number n) p h in
    subst (λ q. project_id_of (some (id_value q)) ≡ some q) (sym e) (rw passed refl)
project_id_of-again (some (array xs)) p h =
    let (e, passed) = coerced-again (array xs) p h in
    subst (λ q. project_id_of (some (id_value q)) ≡ some q) (sym e) (rw passed refl)
project_id_of-again (some (object fs)) p h =
    let (e, passed) = coerced-again (object fs) p h in
    subst (λ q. project_id_of (some (id_value q)) ≡ some q) (sym e) (rw passed refl)

entry_of_value-IsChecked :
    (json : Json) (v : Value) (e : Entry) → entry_of_value json v ≡ ok e → IsChecked json e
unfolding entry_of_value
entry_of_value-IsChecked json v e h = on_ok (some_or (record_of (some v)) domain_error) h λ fs _ h1.
    on_guard
      (text_eq (sorted_keys fs)
        (codes "firstSeenAt,fsIdDigest,lastSeenAt,projectId,repoDigest,rootDigest"))
      domain_error h1
      λ _ h2.
        on_ok (some_or (project_id_of (entry_of fs (codes "projectId"))) domain_error) h2 λ id i h3.
          on_ok (some_or (digest_of (entry_of fs (codes "rootDigest"))) domain_error) h3
            λ root r h4.
              on_ok (some_or (digest_of (entry_of fs (codes "fsIdDigest"))) domain_error) h4
                λ fs_id f h5.
                  on_ok (some_or (digest_of (entry_of fs (codes "repoDigest"))) domain_error) h5
                    λ repo p h6.
                      on_ok (some_or (iso_of json (entry_of fs (codes "firstSeenAt"))) domain_error)
                        h6
                        λ first a h7.
                          on_ok
                            (some_or (iso_of json (entry_of fs (codes "lastSeenAt"))) domain_error)
                            h7
                            λ last b same. subst (IsChecked json) (ok-eq same) (record {
                              id = project_id_of-again _ id (some_or-eq-ok _ domain_error i);
                              root = digest_of-again _ root (some_or-eq-ok _ domain_error r);
                              fs_id = digest_of-again _ fs_id (some_or-eq-ok _ domain_error f);
                              repo = digest_of-again _ repo (some_or-eq-ok _ domain_error p);
                              first = iso_of-again json _ first (some_or-eq-ok _ domain_error a);
                              last = iso_of-again json _ last (some_or-eq-ok _ domain_error b);
                            })

-- The entries are read back, and there are as many.
entries_of-again :
    (json : Json) (items : Elements) (es : List Entry)
    → entries_of json items ≡ ok es
    → (entries_of json (entry_values es) ≡ ok es)
      × (count_elements (entry_values es) ≡ count_elements items)
unfolding entries_of
entries_of-again json no_element es h =
    subst
      (λ xs. (entries_of json (entry_values xs) ≡ ok xs) × (count_elements (entry_values xs) ≡ 0))
      (ok-eq h) (refl, refl)
entries_of-again json (element v rest) es h = on_ok (entry_of_value json v) h λ e checked h1.
    on_ok (entries_of json rest) h1 λ others read same.
      let (back, count) = entries_of-again json rest others read in
      let first = entry_of_value-entry_value json e (entry_of_value-IsChecked json v e checked) in
      subst
        (λ xs.
          (entries_of json (entry_values xs) ≡ ok xs)
          × (count_elements (entry_values xs) ≡ suc (count_elements rest)))
        (ok-eq same) (rw (entries_of, first, back) refl, ap suc count)

parse_registry-printed :
    (json : Json) (printed : Text) (es : List Entry)
    → json.parse printed ≡ some (registry_value (record { projects = es }))
    → leb (json.byte_length printed) max_registry_bytes ≡ true
    → leb (count_elements (entry_values es)) max_entries ≡ true
    → entries_of json (entry_values es) ≡ ok es
    → (distinct_by same_entry_id es && distinct_by same_entry_root es) ≡ true
    → parse_registry json printed ≡ ok (record { projects = es })
unfolding parse_registry sorted_keys text_eq join_commas sort_texts insert_text text_leb
parse_registry-printed json printed es prints small few back unique =
    rw (small, prints, few, back, unique) refl

-- A registry that was parsed is parsed again, unchanged, from its printed form, when JSON.parse
-- gives back the printed value and the text is not too long.
pub parse_registry-again :
    (json : Json) (content printed : Text) (r : Registry)
    → parse_registry json content ≡ ok r
    → json.parse printed ≡ some (registry_value r)
    → json.byte_length printed ≤ max_registry_bytes
    → parse_registry json printed ≡ ok r
unfolding parse_registry
parse_registry-again json content printed r h prints small =
    on_guard (leb (json.byte_length content) max_registry_bytes) domain_error h λ _ h1.
      on_ok (some_or (json.parse content) domain_error) h1 λ value _ h2.
        on_ok (some_or (record_of (some value)) domain_error) h2 λ fields _ h3.
          on_guard (text_eq (sorted_keys fields) (codes "projects,schema,version")) domain_error h3
            λ _ h4.
              on_guard (is_text (entry_of fields (codes "schema")) (codes "mazzy.project-registry"))
                domain_error h4
                λ _ h5.
                  on_guard (is_version (entry_of fields (codes "version")) 1) domain_error h5
                    λ _ h6.
                      on_ok
                        (some_or (elements_of (entry_of fields (codes "projects"))) domain_error) h6
                        λ items _ h7.
                          on_guard (leb (count_elements items) max_entries) domain_error h7
                            λ few h8. on_ok (entries_of json items) h8 λ projects read h9.
                              on_guard
                                (distinct_by same_entry_id projects
                                  && distinct_by same_entry_root projects)
                                domain_error h9
                                λ unique same.
                                  let (back, count) = entries_of-again json items projects read in
                                  let e = ok-eq same in
                                  subst (λ (q : Registry). parse_registry json printed ≡ ok q) e
                                    (parse_registry-printed json printed projects
                                      (prints ∙ ap (λ q. some (registry_value q)) (sym e))
                                      (ground arith) (ground (arith, count)) back unique)
