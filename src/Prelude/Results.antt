-- ===== src/Prelude/Results.antt =====
-- A value, or an error that was thrown.
use mathlib.Core.Path.{◌≡◌, refl}
use mathlib.Core.Logic.{◌⊎◌, inl, inr}
use mathlib.Core.Bool.{Bool, true, false}
use mathlib.Core.Option.{Option, none, some}

pub data Result {ℓ} (E : Type 0) (A : Type ℓ) : Type ℓ where
  err : E → Result E A
  ok : A → Result E A

-- `if (!test) throw e`
abbrev pub guard : {E : Type 0} → Bool → E → Result E (Unit {0})
guard test e = elim test [ false ↦ err e | true ↦ ok tt ]

-- The rest of a function runs on what its first part returned, unless that threw.
module _ {ℓ κ} {E : Type 0} {A : Type ℓ} {B : Type κ} where
  infixl 5 ◌>>=◌
  abbrev pub ◌>>=◌ : Result E A → (A → Result E B) → Result E B
  m >>= rest = elim m [ err thrown ↦ err thrown | ok value ↦ rest value ]

infixl 5 ◌>>◌
abbrev pub ◌>>◌ {ℓ} : {E : Type 0} {B : Type ℓ} → Result E (Unit {0}) → Result E B → Result E B
first >> rest = elim first [ err thrown ↦ err thrown | ok _ ↦ rest ]

abbrev pub some_or {ℓ} : {E : Type 0} {A : Type ℓ} → Option A → E → Result E A
some_or none e = err e
some_or (some a) e = ok a

abbrev pub is_ok {ℓ} : {E : Type 0} {A : Type ℓ} → Result E A → Bool
is_ok (ok a) = true
is_ok (err e) = false

-- What follows from the two parts of a chain that succeeds follows from the whole.
pub on_ok {ℓ κ μ} :
    {E : Type 0} {A : Type ℓ} {B : Type κ} {C : Type μ} (m : Result E A) {f : A → Result E B}
    {b : B}
    → (m >>= f) ≡ ok b
    → ((a : A) → m ≡ ok a → f a ≡ ok b → C)
    → C
on_ok (ok a) h k = k a refl h
on_ok (err e) h k = absurd (cc)

pub on_guard {ℓ μ} :
    {E : Type 0} {B : Type ℓ} {C : Type μ} (test : Bool) (e : E) {k : Result E B} {b : B}
    → (guard test e >> k) ≡ ok b
    → (test ≡ true → k ≡ ok b → C)
    → C
on_guard true e h k = k refl h
on_guard false e h k = absurd (cc)

pub some_or-eq-ok {ℓ} :
    {E : Type 0} {A : Type ℓ} (o : Option A) (e : E) {a : A} → some_or o e ≡ ok a → o ≡ some a
some_or-eq-ok none e h = cc
some_or-eq-ok (some b) e h = cc

pub ok-eq {ℓ} : {E : Type 0} {A : Type ℓ} {a b : A} → ◌≡◌ {A = Result E A} (ok a) (ok b) → a ≡ b
ok-eq h = cc

pub ok_of_err {ℓ} :
    {E : Type 0} {A : Type ℓ} {e : E} {a : A} → ◌≡◌ {A = Result E A} (err e) (ok a) → ⊥
ok_of_err h = cc

pub err_again {ℓ κ} :
    {E : Type 0} {A : Type ℓ} {B : Type κ} {d e : E}
    → ◌≡◌ {A = Result E B} (err d) (err e)
    → ◌≡◌ {A = Result E A} (err d) (err e)
err_again k = cc

-- A chain throws what one of its parts throws.
pub on_err {ℓ κ μ} :
    {E : Type 0} {A : Type ℓ} {B : Type κ} {C : Type μ} (m : Result E A) {f : A → Result E B}
    {e : E}
    → (m >>= f) ≡ err e
    → (m ≡ err e → C)
    → ((a : A) → m ≡ ok a → f a ≡ err e → C)
    → C
on_err (ok a) h first rest = rest a refl h
on_err (err e) h first rest = first (err_again h)

pub err-eq {ℓ} : {E : Type 0} {A : Type ℓ} {d e : E} → ◌≡◌ {A = Result E A} (err d) (err e) → d ≡ e
err-eq h = cc

pub guard-ok : {E : Type 0} (test : Bool) (e : E) {u : Unit {0}} → guard test e ≡ ok u → test ≡ true
guard-ok true e h = refl
guard-ok false e h = absurd (ok_of_err h)

-- To split on a result and keep the equation.
pub Result-cases {ℓ} :
    {E : Type 0} {A : Type ℓ} (r : Result E A) → ((e : E) × (r ≡ err e)) ⊎ ((a : A) × (r ≡ ok a))
Result-cases (err e) = inl (e, refl)
Result-cases (ok a) = inr (a, refl)

pub is_ok-cases {ℓ} :
    {E : Type 0} {A : Type ℓ} (r : Result E A) → is_ok r ≡ true → (a : A) × (r ≡ ok a)
is_ok-cases (ok a) h = (a, refl)
is_ok-cases (err e) h = cc

pub ok_again {ℓ} :
    {E D : Type 0} {A : Type ℓ} {a b : A}
    → ◌≡◌ {A = Result E A} (ok a) (ok b)
    → ◌≡◌ {A = Result D A} (ok a) (ok b)
ok_again h = cc
