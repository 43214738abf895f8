-- ===== src/Prelude/Texts.antt =====
-- JavaScript strings as lists of UTF-16 code units: equality, length and `trim`.
use Prim.Native.Nat.{ℕ}
use Prim.Native.Char.{code}
use Prim.Native.String.{String}
use mathlib.Core.Path.{◌≡◌, refl}
use mathlib.Core.Logic.{◌↔◌}
use mathlib.Core.Bool.{Bool, true, false, ◌&&◌, ◌||◌}
use mathlib.Core.Option.{Option, none, some}
use mathlib.Core.List.{List, [], ◌∷◌, reverse}
use native.Mathlib.Omega.{arith}
use mazzy_command_center.Prelude.Tests.{leb, ◌==◌, if◌then◌else◌}

abbrev pub Text : Type 0
Text = List ℕ

-- The code units of a literal (ASCII in this program).
abbrev pub codes : String → Text
codes String.[] = []
codes (String.◌∷◌ c s) = code c ∷ codes s

-- `a === b` on strings.
unfoldable pub text_eq : Text → Text → Bool
text_eq [] [] = true
text_eq [] (b ∷ ys) = false
text_eq (a ∷ xs) [] = false
text_eq (a ∷ xs) (b ∷ ys) = (a == b) && text_eq xs ys

pub text_eq-eq : (xs ys : Text) → text_eq xs ys ≡ true → xs ≡ ys
unfolding text_eq
text_eq-eq [] [] h = refl
text_eq-eq [] (b ∷ ys) h = cc
text_eq-eq (a ∷ xs) [] h = cc
text_eq-eq (a ∷ xs) (b ∷ ys) h = ground (arith, text_eq-eq xs ys)

pub text_eq_refl : (xs : Text) → text_eq xs xs ≡ true
unfolding text_eq
text_eq_refl [] = refl
text_eq_refl (a ∷ xs) = ground (arith, text_eq_refl xs)

pub text_eq_iff : (xs ys : Text) → (text_eq xs ys ≡ true) ↔ (xs ≡ ys)
text_eq_iff xs ys = (text_eq-eq xs ys, λ e. rw e (text_eq_refl ys))

-- `a === b` where both may be undefined.
abbrev pub same_text? : Option Text → Option Text → Bool
same_text? none none = true
same_text? none (some b) = false
same_text? (some a) none = false
same_text? (some a) (some b) = text_eq a b

-- The white space and line ends that `trim` takes off.
is_space : ℕ → Bool
is_space c =
    (leb 9 c && leb c 13)
    || (c == 32)
    || (c == 160)
    || (c == 0x1680)
    || (leb 0x2000 c && leb c 0x200a)
    || (c == 0x2028)
    || (c == 0x2029)
    || (c == 0x202f)
    || (c == 0x205f)
    || (c == 0x3000)
    || (c == 0xfeff)

trim_start : Text → Text
trim_start [] = []
trim_start (c ∷ s) = if is_space c then trim_start s else c ∷ s

unfoldable pub trim : Text → Text
unfolding trim_start is_space
trim s = reverse (trim_start (reverse (trim_start s)))

abbrev pub is_empty : Text → Bool
is_empty [] = true
is_empty (_ ∷ _) = false

-- `value?.trim() || undefined`
abbrev pub trim_or_none : Option Text → Option Text
trim_or_none none = none
trim_or_none (some s) = if is_empty (trim s) then none else some (trim s)

trim_test : trim (codes "  a b ") ≡ codes "a b"
unfolding trim
trim_test = refl
