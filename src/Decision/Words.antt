-- ===== src/Decision/Words.antt =====
-- What contains a text contains what that contains: `includes` and `startsWith` of the JavaScript
-- standard library.
use Prim.Native.Char.{Char, code}
use Prim.Native.String.{◌++◌, count}
use text.Mathlib.TextLemmas.{nil-append, cons-append, length-cons, length-nil}
use finance_next.Base.{String, true, ◌≡◌, refl, ◌==◌, string_key, nat_key, eq_of_same, ap, arith}
use finance_next.Auth.{starts_with}
use finance_next.Palette.{includes}

cons_not_nil : (c : Char) (s : String) → ¬ ((String.◌∷◌ c s == "") ≡ true)
cons_not_nil c s h =
    omega (arith, length-cons c s, ap count (eq_of_same (String.◌∷◌ c s) "" h), length-nil)

starts_with_trans :
    (s t w : String) → starts_with s t ≡ true → starts_with t w ≡ true → starts_with s w ≡ true
starts_with_trans s t String.[] h k = refl
starts_with_trans s String.[] (String.◌∷◌ e w) h k = cc
starts_with_trans String.[] (String.◌∷◌ d t) (String.◌∷◌ e w) h k = cc
starts_with_trans (String.◌∷◌ c s) (String.◌∷◌ d t) (String.◌∷◌ e w) h k = ground (
  arith,
  starts_with_trans s t w,
  nat_key.same_iff (code c) (code d),
  nat_key.same_iff (code d) (code e),
  nat_key.same_iff (code c) (code e),
)

includes_nil : (s : String) → includes s "" ≡ true
includes_nil String.[] = refl
includes_nil (String.◌∷◌ c s) = refl

starts_with-includes :
    (s t w : String) → starts_with s t ≡ true → includes t w ≡ true → includes s w ≡ true
starts_with-includes s t String.[] h k = includes_nil s
starts_with-includes s String.[] (String.◌∷◌ e w) h k = absurd (cons_not_nil e w k)
starts_with-includes String.[] (String.◌∷◌ d t) (String.◌∷◌ e w) h k = cc
starts_with-includes (String.◌∷◌ c s) (String.◌∷◌ d t) (String.◌∷◌ e w) h k = ground (
  arith,
  starts_with-includes s t (String.◌∷◌ e w),
  starts_with_trans (String.◌∷◌ c s) (String.◌∷◌ d t) (String.◌∷◌ e w),
)

pub includes_trans :
    (s t w : String) → includes s t ≡ true → includes t w ≡ true → includes s w ≡ true
includes_trans s String.[] String.[] h k = includes_nil s
includes_trans s String.[] (String.◌∷◌ e w) h k = absurd (cons_not_nil e w k)
includes_trans String.[] (String.◌∷◌ d t) w h k = absurd (cons_not_nil d t h)
includes_trans (String.◌∷◌ c s) (String.◌∷◌ d t) w h k = ground (
  arith,
  includes_trans s (String.◌∷◌ d t) w,
  starts_with-includes (String.◌∷◌ c s) (String.◌∷◌ d t) w,
)

starts_with_refl : (s : String) → starts_with s s ≡ true
starts_with_refl String.[] = refl
starts_with_refl (String.◌∷◌ c s) =
    ground (arith, starts_with_refl s, nat_key.same_iff (code c) (code c))

pub includes_refl : (s : String) → includes s s ≡ true
includes_refl String.[] = refl
includes_refl (String.◌∷◌ c s) = ground (arith, starts_with_refl (String.◌∷◌ c s))

pub includes-append : (s t : String) → includes (s ++ t) t ≡ true
includes-append String.[] t = rw (nil-append t) (includes_refl t)
includes-append (String.◌∷◌ c s) t = rw (cons-append c s t) (ground (arith, includes-append s t))
