-- ===== src/Prelude/TableLaws.antt =====
-- How an update or an insertion shows in a selection.
use Prim.Native.Nat.{◌<◌, ◌+◌, ◌≤◌}
use mathlib.Core.Path.{◌≡◌, refl}
use mathlib.Core.Logic.{inl, inr}
use mathlib.Core.Bool.{Bool, true, false, ◌&&◌}
use mathlib.Core.Option.{none, some}
use mathlib.Core.List.{List, [], ◌∷◌, ◌++◌, Memᴰ}
use native.Mathlib.Omega.{arith}
use mazzy_command_center.Prelude.Tests.{if◌then◌else◌, Bool-cases, Option-cases}
use mazzy_command_center.Prelude.Tables.{
  find, filter_where, update_where, count_where, any_where, last_of, first_by,
}

module _ {ℓ} {A : Type ℓ} where
  pub find_holds : (p : A → Bool) (xs : List A) (x : A) → find p xs ≡ some x → p x ≡ true
  unfolding find
  find_holds p [] x h = ground arith
  find_holds p (y ∷ xs) x h = ground (arith, find_holds p xs x)

  -- The updated row is the one that the selection finds afterwards, by a test `q` that the rows
  -- before it keep failing.
  pub find-update_where :
      (p q test : A → Bool) (f : A → A) (xs : List A) (x : A)
      → ((y : A) → p y ≡ false → q (if test y then f y else y) ≡ false)
      → find p xs ≡ some x
      → test x ≡ true
      → q (f x) ≡ true
      → find q (update_where test f xs) ≡ some (f x)
  unfolding find update_where
  find-update_where p q test f [] x miss h t k = ground arith
  find-update_where p q test f (y ∷ xs) x miss h t k =
      ground (arith, miss y, find-update_where p q test f xs x miss)

  -- An update that touches no row of a selection before or after leaves it as it was.
  pub filter_where-update_where :
      (p test : A → Bool) (f : A → A) (xs : List A)
      → ((y : A) → test y ≡ true → p y ≡ false)
      → ((y : A) → test y ≡ true → p (f y) ≡ false)
      → filter_where p (update_where test f xs) ≡ filter_where p xs
  unfolding filter_where update_where
  filter_where-update_where p test f [] h k = refl
  filter_where-update_where p test f (y ∷ xs) h k =
      ground (arith, h y, k y, filter_where-update_where p test f xs h k)

  pub find-update_where_ne :
      (p test : A → Bool) (f : A → A) (xs : List A)
      → ((y : A) → test y ≡ true → p y ≡ false)
      → ((y : A) → test y ≡ true → p (f y) ≡ false)
      → find p (update_where test f xs) ≡ find p xs
  unfolding find update_where
  find-update_where_ne p test f [] h k = refl
  find-update_where_ne p test f (y ∷ xs) h k =
      ground (arith, h y, k y, find-update_where_ne p test f xs h k)

  -- An update whose new rows are outside a selection makes it no larger.
  pub count_where-update_where-le :
      (p test : A → Bool) (f : A → A) (xs : List A)
      → ((y : A) → test y ≡ true → p y ≡ false → p (f y) ≡ false)
      → count_where p (update_where test f xs) ≤ count_where p xs
  unfolding count_where update_where
  count_where-update_where-le p test f [] k = ground arith
  count_where-update_where-le p test f (y ∷ xs) k =
      ground (arith, k y, count_where-update_where-le p test f xs k)

  -- An update that reaches every row of a selection and puts it outside empties the selection.
  pub count_where-update_where-none :
      (p test : A → Bool) (f : A → A) (xs : List A)
      → ((y : A) → test y ≡ false → p y ≡ false)
      → ((y : A) → test y ≡ true → p (f y) ≡ false)
      → count_where p (update_where test f xs) ≡ 0
  unfolding count_where update_where
  count_where-update_where-none p test f [] h k = ground arith
  count_where-update_where-none p test f (y ∷ xs) h k =
      ground (arith, h y, k y, count_where-update_where-none p test f xs h k)

  pub count_where-append :
      (p : A → Bool) (xs ys : List A)
      → count_where p (xs ++ ys) ≡ count_where p xs + count_where p ys
  unfolding count_where
  count_where-append p [] ys = omega arith
  count_where-append p (x ∷ xs) ys = ground (arith, count_where-append p xs ys)

  pub find-none-count_where : (p : A → Bool) (xs : List A) → find p xs ≡ none → count_where p xs ≡ 0
  unfolding find count_where
  find-none-count_where p [] h = refl
  find-none-count_where p (x ∷ xs) h = ground (arith, find-none-count_where p xs)

  pub count_where_zero-find : (p : A → Bool) (xs : List A) → count_where p xs ≡ 0 → find p xs ≡ none
  unfolding find count_where
  count_where_zero-find p [] h = refl
  count_where_zero-find p (x ∷ xs) h = ground (arith, count_where_zero-find p xs)

  pub find-append_of_some :
      (p : A → Bool) (xs ys : List A) (x : A) → find p xs ≡ some x → find p (xs ++ ys) ≡ some x
  unfolding find
  find-append_of_some p [] ys x h = ground arith
  find-append_of_some p (y ∷ xs) ys x h = ground (arith, find-append_of_some p xs ys x)

  pub find-append_of_none :
      (p : A → Bool) (xs ys : List A) → find p xs ≡ none → find p (xs ++ ys) ≡ find p ys
  unfolding find
  find-append_of_none p [] ys h = refl
  find-append_of_none p (y ∷ xs) ys h = ground (arith, find-append_of_none p xs ys)

  head_or_tail :
      (p : A → Bool) (y : A) (xs : List A) (x : A)
      → p y ≡ true
      → (Memᴰ x (filter_where p xs) → Memᴰ x xs × (p x ≡ true))
      → Memᴰ x (y ∷ filter_where p xs)
      → Memᴰ x (y ∷ xs) × (p x ≡ true)
  head_or_tail p y xs x keep rec (Memᴰ.head e) = (Memᴰ.head e, rw e keep)
  head_or_tail p y xs x keep rec (Memᴰ.tail m) = (Memᴰ.tail (rec m).0, (rec m).1)

  pub filter_where-Memᴰ :
      (p : A → Bool) (xs : List A) (x : A) → Memᴰ x (filter_where p xs) → Memᴰ x xs × (p x ≡ true)
  unfolding filter_where
  filter_where-Memᴰ p [] x m = elim m [ ]
  filter_where-Memᴰ p (y ∷ xs) x m = elim (Bool-cases (p y)) [
    | inl keep ↦ head_or_tail p y xs x keep (filter_where-Memᴰ p xs x) (rw keep at m)
    | inr drop ↦
        let (listed, holds) = filter_where-Memᴰ p xs x (rw drop at m) in (Memᴰ.tail listed, holds)
  ]

  pub any_where-Memᴰ :
      (p : A → Bool) (xs : List A) → any_where p xs ≡ true → (x : A) × Memᴰ x xs × (p x ≡ true)
  unfolding any_where
  any_where-Memᴰ p [] h = cc
  any_where-Memᴰ p (y ∷ xs) h = elim (Bool-cases (p y)) [
    | inl here ↦ (y, Memᴰ.head refl, here)
    | inr other ↦
        let (x, listed, holds) = any_where-Memᴰ p xs (ground arith) in (x, Memᴰ.tail listed, holds)
  ]

  pub last_of-Memᴰ : (xs : List A) (x : A) → last_of xs ≡ some x → Memᴰ x xs
  unfolding last_of
  last_of-Memᴰ [] x h = cc
  last_of-Memᴰ (y ∷ xs) x h = elim (Option-cases (last_of xs)) [
    | inl none_left ↦ Memᴰ.head (ground arith)
    | inr (z, e) ↦ Memᴰ.tail (last_of-Memᴰ xs x (ground arith))
  ]

  pub first_by-Memᴰ :
      (before : A → A → Bool) (xs : List A) (x : A) → first_by before xs ≡ some x → Memᴰ x xs
  unfolding first_by
  first_by-Memᴰ before [] x h = cc
  first_by-Memᴰ before (y ∷ xs) x h = elim (Option-cases (first_by before xs)) [
    | inl none_left ↦ Memᴰ.head (ground arith)
    | inr (z, e) ↦ elim (Bool-cases (before z y)) [
      | inl first ↦ Memᴰ.tail (first_by-Memᴰ before xs x (ground arith))
      | inr second ↦ Memᴰ.head (ground arith)
    ]
  ]

  -- A row that leaves a selection makes it smaller.
  pub count_where-update_where-lt :
      (p q test : A → Bool) (f : A → A) (xs : List A) (x : A)
      → ((y : A) → p y ≡ false → p (f y) ≡ false)
      → find q xs ≡ some x
      → p x ≡ true
      → test x ≡ true
      → p (f x) ≡ false
      → count_where p (update_where test f xs) < count_where p xs
  unfolding count_where update_where find
  count_where-update_where-lt p q test f [] x keeps h px tx pf = cc
  count_where-update_where-lt p q test f (y ∷ xs) x keeps h px tx pf = elim (Bool-cases (q y)) [
    | inl here ↦ ground (arith, count_where-update_where-le p test f xs (λ z t. keeps z))
    | inr other ↦ ground (arith, keeps y, count_where-update_where-lt p q test f xs x keeps)
  ]

  pub any_where-count_where :
      (p q : A → Bool) (xs : List A)
      → ((y : A) → q y ≡ false → p y ≡ false)
      → any_where q xs ≡ false
      → count_where p xs ≡ 0
  unfolding count_where any_where
  any_where-count_where p q [] k h = refl
  any_where-count_where p q (y ∷ xs) k h = ground (arith, k y, any_where-count_where p q xs k)

  pub count_where_mono :
      (p q : A → Bool) (xs : List A)
      → ((y : A) → p y ≡ true → q y ≡ true)
      → count_where p xs ≤ count_where q xs
  unfolding count_where
  count_where_mono p q [] k = omega arith
  count_where_mono p q (y ∷ xs) k = ground (arith, k y, count_where_mono p q xs k)

  -- An update that keeps what is selected: the row that is found afterwards is the one that was,
  -- updated if the update reaches it.
  pub find-update_where_same :
      (p test : A → Bool) (f : A → A) (xs : List A) (x : A)
      → ((y : A) → test y ≡ true → p (f y) ≡ p y)
      → find p xs ≡ some x
      → find p (update_where test f xs) ≡ some (if test x then f x else x)
  unfolding find update_where
  find-update_where_same p test f [] x keeps h = cc
  find-update_where_same p test f (y ∷ xs) x keeps h =
      ground (arith, keeps y, find-update_where_same p test f xs x keeps)

  pub update_where_none :
      (p : A → Bool) (f : A → A) (xs : List A) → count_where p xs ≡ 0 → update_where p f xs ≡ xs
  unfolding count_where update_where
  update_where_none p f [] h = refl
  update_where_none p f (y ∷ xs) h = ground (arith, update_where_none p f xs)

  update_where_none_both :
      (p q : A → Bool) (f : A → A) (xs : List A)
      → count_where p xs ≡ 0
      → update_where (λ y. p y && q y) f xs ≡ xs
  unfolding count_where update_where
  update_where_none_both p q f [] h = refl
  update_where_none_both p q f (y ∷ xs) h = ground (arith, update_where_none_both p q f xs)

  -- Where one row at most is selected, a test of the row that was found can join the selection.
  pub update_where_unique :
      (p q : A → Bool) (f : A → A) (xs : List A) (x : A)
      → count_where p xs ≤ 1
      → find p xs ≡ some x
      → q x ≡ true
      → update_where p f xs ≡ update_where (λ y. p y && q y) f xs
  unfolding count_where update_where find
  update_where_unique p q f [] x one h k = refl
  update_where_unique p q f (y ∷ xs) x one h k = elim (Bool-cases (p y)) [
    | inl here ↦ ground (arith, update_where_none p f xs, update_where_none_both p q f xs)
    | inr other ↦ ground (arith, update_where_unique p q f xs x)
  ]

  first_by_not_none :
      (before : A → A → Bool) (y : A) (xs : List A) → ¬ (first_by before (y ∷ xs) ≡ none)
  unfolding first_by
  first_by_not_none before y xs h = elim (Option-cases (first_by before xs)) [
    | inl e ↦ ground arith
    | inr (z, e) ↦ elim (Bool-cases (before z y)) [ inl a ↦ ground arith | inr a ↦ ground arith ]
  ]

  pub first_by-none-count_where :
      (before : A → A → Bool) (p : A → Bool) (xs : List A)
      → first_by before (filter_where p xs) ≡ none
      → count_where p xs ≡ 0
  unfolding first_by filter_where count_where
  first_by-none-count_where before p [] h = refl
  first_by-none-count_where before p (y ∷ xs) h = elim (Bool-cases (p y)) [
    | inl here ↦ absurd (first_by_not_none before y (filter_where p xs) (rw here at h))
    | inr other ↦ ground (arith, first_by-none-count_where before p xs)
  ]
