-- ===== src/Prelude/Decimal.antt =====
-- Python's `str` of a number that is not negative, and `int` of a text.
use Prim.Native.Nat.{ℕ, zero, suc, ◌+◌, ◌-◌, ◌*◌, ◌/◌, ◌%◌, ◌<◌}
use mathlib.Core.Path.{◌≡◌, refl, sym, ◌∙◌, ap, subst}
use mathlib.Core.Logic.{◌≢◌, inl, inr}
use mathlib.Core.List.{reverse, reverse-cons, reverse-reverse, List, [], ◌∷◌, ◌++◌}
use mathlib.Core.Bool.{Bool, true, false, ◌&&◌}
use mathlib.Core.Option
use mathlib.Core.Option.{Option, none, some}
use native.Mathlib.Omega.{arith}
use aw_app_agents_platform_r.Prelude.Tests.{
  Bool-cases, ltb, leb, ◌==◌, if◌then◌else◌, ℤ, pos, negsuc,
}
use aw_app_agents_platform_r.Prelude.Lists.{All, All-append, length, length-append}
use aw_app_agents_platform_r.Prelude.Texts.{Text, strip, strip_left, is_space}

abbrev pub is_digit : ℕ → Bool
is_digit c = leb b'0' c && leb c b'9'

-- The decimal digits of `n`; the fuel is more than their number.
digits : ℕ → ℕ → Text
digits zero n = []
digits (suc f) n =
    let rest = digits f (n / 10) in
    if ltb n 10 then (b'0' + n) ∷ [] else rest ++ (b'0' + n % 10) ∷ []

unfoldable pub str : ℕ → Text
unfolding digits
str n = digits (suc n) n

-- The digits of `int`: one `_` may stand between two of them. `seen`: a digit stands before.
read_digits : ℕ → Bool → Text → Option ℕ
read_digits acc seen [] = if seen then some acc else none
read_digits acc seen (c ∷ s) =
    let more = read_digits (acc * 10 + (c - b'0')) true s in
    let skip = read_digits acc false s in
    if is_digit c then more else if (c == b'_') && seen then skip else none

negate : ℕ → ℤ
negate zero = pos zero
negate (suc n) = negsuc n

read_signed : Text → Option ℤ
unfolding read_digits negate
read_signed [] = none
read_signed (c ∷ s) =
    if c == b'-'
    then Option.map negate (read_digits 0 false s)
    else if c == b'+'
    then Option.map pos (read_digits 0 false s)
    else Option.map pos (read_digits 0 false (c ∷ s))

-- `int(t)`; `none` where it raises ValueError. Decimal digits outside ASCII are not modelled.
unfoldable pub int : Text → Option ℤ
unfolding read_signed
int t = read_signed (strip t)

abbrev pub IsDigit : ℕ → Type 0
IsDigit c = is_digit c ≡ true

All-IsDigit-append :
    (xs : Text) (d : ℕ) → All IsDigit xs → d < 10 → All IsDigit (xs ++ (b'0' + d) ∷ [])
All-IsDigit-append [] d h lt = (ground arith, tt)
All-IsDigit-append (x ∷ xs) d h lt = (h.0, All-IsDigit-append xs d h.1 lt)

digits-IsDigit : (f n : ℕ) → All IsDigit (digits f n)
unfolding digits
digits-IsDigit zero n = tt
digits-IsDigit (suc f) n = elim (Bool-cases (ltb n 10)) [
  | inl one ↦ rw one (ground arith, tt)
  | inr more ↦
      rw more
        (All-IsDigit-append (digits f (n / 10)) (n % 10) (digits-IsDigit f (n / 10)) (omega arith))
]

pub str-IsDigit : (n : ℕ) → All IsDigit (str n)
unfolding str
str-IsDigit n = digits-IsDigit (suc n) n

value : ℕ → Text → ℕ
value acc [] = acc
value acc (c ∷ s) = value (acc * 10 + (c - b'0')) s

value-append :
    (acc : ℕ) (s : Text) (d : ℕ) → value acc (s ++ (b'0' + d) ∷ []) ≡ value acc s * 10 + d
unfolding value
value-append acc [] d = omega arith
value-append acc (c ∷ s) d = value-append (acc * 10 + (c - b'0')) s d

value-digits : (f n : ℕ) → n < f → value 0 (digits f n) ≡ n
unfolding digits value
value-digits zero n h = absurd (omega arith)
value-digits (suc f) n h = elim (Bool-cases (ltb n 10)) [
  | inl one ↦ rw one (omega arith)
  | inr more ↦ rw more (
      omega (
        arith,
        value-append 0 (digits f (n / 10)) (n % 10),
        value-digits f (n / 10) (ground arith),
      ))
]

read_digits-value :
    (acc : ℕ) (s : Text) → All IsDigit s → read_digits acc true s ≡ some (value acc s)
unfolding read_digits value
read_digits-value acc [] h = refl
read_digits-value acc (c ∷ s) h = rw h.0 (read_digits-value (acc * 10 + (c - b'0')) s h.1)

IsDigit-not-space : (c : ℕ) → IsDigit c → is_space c ≡ false
unfolding is_space
IsDigit-not-space c h = ground arith

strip_left-digits : (s : Text) → All IsDigit s → strip_left s ≡ s
unfolding strip_left
strip_left-digits [] h = refl
strip_left-digits (c ∷ s) h = rw (IsDigit-not-space c h.0)

All-reverse {ℓ κ} : {A : Type ℓ} (P : A → Type κ) (xs : List A) → All P xs → All P (reverse xs)
All-reverse P [] h = tt
All-reverse P (x ∷ xs) h =
    subst (All P) (sym (reverse-cons x xs))
      (All-append P (reverse xs) (x ∷ []) (All-reverse P xs h.1) (h.0, tt))

strip-digits : (s : Text) → All IsDigit s → strip s ≡ s
unfolding strip
strip-digits s h =
    rw (strip_left-digits s h, strip_left-digits (reverse s) (All-reverse IsDigit s h))
      (reverse-reverse s)

read_signed-digits :
    (c : ℕ) (s : Text)
    → IsDigit c
    → All IsDigit s
    → read_signed (c ∷ s) ≡ some (pos (value 0 (c ∷ s)))
unfolding read_signed read_digits value
read_signed-digits c s h hs = ground (arith, read_digits-value (c - b'0') s hs)

int-digits : (s : Text) → All IsDigit s → s ≢ [] → int s ≡ some (pos (value 0 s))
unfolding int
int-digits [] h ne = absurd (ne refl)
int-digits (c ∷ s) h ne = rw (strip-digits (c ∷ s) h) (read_signed-digits c s h.0 h.1)

digits-ne-nil : (f n : ℕ) → digits (suc f) n ≢ []
unfolding digits
digits-ne-nil f n = elim (Bool-cases (ltb n 10)) [
  | inl one ↦ rw one (λ e. cc)
  | inr more ↦ rw more (λ e.
      absurd (omega (arith, ap length e, length-append (digits f (n / 10)) ((b'0' + n % 10) ∷ []))))
]

pub str-ne-nil : (n : ℕ) → str n ≢ []
unfolding str
str-ne-nil n = digits-ne-nil n n

-- `int(str(n)) == n`
pub int-str : (n : ℕ) → int (str n) ≡ some (pos n)
unfolding str
int-str n =
    int-digits (digits (suc n) n) (digits-IsDigit (suc n) n) (digits-ne-nil n n)
    ∙ ap (λ v. some (pos v)) (value-digits (suc n) n (omega arith))
