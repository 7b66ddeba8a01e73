-- ===== src/Prelude/Texts.antt =====
-- Text as a list of code points: equality, search from the right, and trimming, as Python's `str`
-- has them.
use Prim.Native.Char.{code}
use Prim.Native.String.{String}
use Prim.Native.Nat.{ℕ, ◌+◌}
use mathlib.Core.Path.{◌≡◌, refl}
use mathlib.Core.Bool.{Bool, true, false, ◌&&◌, ◌||◌}
use mathlib.Core.List.{List, [], ◌∷◌, ◌++◌, reverse}
use mathlib.Core.Option.{Option, none, some}
use native.Mathlib.Omega.{arith}
use aw_app_agents_platform_r.Prelude.Tests.{◌==◌, leb, if◌then◌else◌}
use aw_app_agents_platform_r.Prelude.Lists.{length, drop}

abbrev pub Text : Type 0
Text = List ℕ

abbrev pub codes : String → Text
codes String.[] = []
codes (String.◌∷◌ c s) = code c ∷ codes s

unfoldable pub text_eq : Text → Text → Bool
text_eq [] [] = true
text_eq (a ∷ s) (b ∷ t) = (a == b) && text_eq s t
text_eq _ _ = false

pub text_eq_refl : (s : Text) → text_eq s s ≡ true
unfolding text_eq
text_eq_refl [] = refl
text_eq_refl (a ∷ s) = ground (arith, text_eq_refl s)

pub text_eq→eq : (s t : Text) → text_eq s t ≡ true → s ≡ t
unfolding text_eq
text_eq→eq [] [] h = refl
text_eq→eq [] (b ∷ t) h = cc
text_eq→eq (a ∷ s) [] h = cc
text_eq→eq (a ∷ s) (b ∷ t) h = ground (arith, text_eq→eq s t)

pub text_eq-other : (s t : Text) → text_eq s t ≡ false → text_eq t s ≡ false
unfolding text_eq
text_eq-other [] [] h = absurd (cc h)
text_eq-other [] (b ∷ t) h = refl
text_eq-other (a ∷ s) [] h = refl
text_eq-other (a ∷ s) (b ∷ t) h = ground (arith, text_eq-other s t)

-- Python's truth of a text.
abbrev pub is_empty : Text → Bool
is_empty [] = true
is_empty (c ∷ s) = false

unfoldable pub starts_with : Text → Text → Bool
starts_with [] t = true
starts_with (a ∷ s) [] = false
starts_with (a ∷ s) (b ∷ t) = (a == b) && starts_with s t

-- What stands behind the last place where `sep` stands: `t.rsplit(sep, 1)[1]`, `none` where Python
-- raises IndexError since `sep` is absent. `sep` is not empty.
unfoldable pub after_last : Text → Text → Option Text
unfolding starts_with
after_last sep [] = none
after_last sep (c ∷ t) = elim (after_last sep t) [
  | some r ↦ some r
  | none ↦ if starts_with sep (c ∷ t) then some (drop (length sep) (c ∷ t)) else none
]

-- `sep in t`
unfoldable pub contains : Text → Text → Bool
unfolding starts_with
contains sep [] = is_empty sep
contains sep (c ∷ t) = starts_with sep (c ∷ t) || contains sep t

-- What a separator has behind it in the end of a text, it has in the text.
pub after_last-append :
    (sep s t r : Text) → after_last sep t ≡ some r → after_last sep (s ++ t) ≡ some r
unfolding after_last
after_last-append sep [] t r h = h
after_last-append sep (c ∷ s) t r h = rw (after_last-append sep s t r h, after_last)

pub contains-append : (sep s t : Text) → contains sep t ≡ true → contains sep (s ++ t) ≡ true
unfolding contains
contains-append sep [] t h = h
contains-append sep (c ∷ s) t h = ground (arith, contains-append sep s t h)

-- The white space of `str.strip` and `int`, below U+0100.
unfoldable pub is_space : ℕ → Bool
is_space c = (leb 9 c && leb c 13) || (leb 28 c && leb c 32) || (c == 133) || (c == 160)

unfoldable pub strip_left : Text → Text
unfolding is_space
strip_left [] = []
strip_left (c ∷ s) = let rest = strip_left s in if is_space c then rest else c ∷ s

unfoldable pub strip : Text → Text
unfolding strip_left
strip s = reverse (strip_left (reverse (strip_left s)))

-- `str.lower` on ASCII letters.
unfoldable pub lower : Text → Text
lower [] = []
lower (c ∷ s) = (if leb b'A' c && leb c b'Z' then c + 32 else c) ∷ lower s

-- `t in {…}`
unfoldable pub one_of : List Text → Text → Bool
one_of [] t = false
one_of (s ∷ rest) t = text_eq t s || one_of rest t
