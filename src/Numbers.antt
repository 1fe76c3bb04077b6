-- ===== src/Numbers.antt =====
-- JavaScript's finite numbers, as far as the client's rules on them go: their order, decimal
-- literals, rounding, and their texts. The two zeros count as one. The laws on literals are those of
-- IEEE doubles up to a thousand million, the greatest that the client uses: up to there the quotients
-- of different whole numbers by 10000 are different doubles.
pub mod Clamp
use finance_next.Base.{
  ℕ, String, Bool, true, false, not, ◌≡◌, refl, ◌⊎◌, inl, inr, Option, none, some, if◌then◌else◌,
  ◌≤◌, ◌<◌, ◌*◌, ◌==◌, string_key,
}
use finance_next.Json.{Json, null, boolean, number, text, array, object}

-- `literal n` is n / 10000. `read` is Number on a text, `print` String on an array or an object,
-- and `weigh` Number on one; `none` stands for a number that is not finite.
pub record Numbers (N : Type 0) : Type 0 where
  pub leq : N → N → Bool
  pub literal : ℕ → N
  pub round : N → N
  pub show : N → String
  pub read : String → Option N
  pub print : Json N → String
  pub weigh : Json N → Option N

pub record IsOrdered {N : Type 0} (num : Numbers N) : Type 0 where
  pub leq_refl : (a : N) → num.leq a a ≡ true
  pub leq_trans : (a b c : N) → num.leq a b ≡ true → num.leq b c ≡ true → num.leq a c ≡ true
  pub leq_total : (a b : N) → num.leq a b ≡ false → num.leq b a ≡ true
  pub round_mono : (a b : N) → num.leq a b ≡ true → num.leq (num.round a) (num.round b) ≡ true
  pub round_round : (a : N) → num.round (num.round a) ≡ num.round a
  pub round-whole :
      (a : ℕ) → a ≤ 1000000000 → num.round (num.literal (a * 10000)) ≡ num.literal (a * 10000)
  pub literal_mono :
      (a b : ℕ) → a ≤ b → b ≤ 10000000000000 → num.leq (num.literal a) (num.literal b) ≡ true
  pub literal_less :
      (a b : ℕ) → a < b → b ≤ 10000000000000 → num.leq (num.literal b) (num.literal a) ≡ false

abbrev pub is_given : Option String → Bool
is_given none = false
is_given (some s) = true

module _ {N : Type 0} (num : Numbers N) where
  -- `a < b`
  abbrev pub less : N → N → Bool
  less a b = not (num.leq b a)

  -- `Math.min(a, b)`
  abbrev pub lesser : N → N → N
  lesser a b = if num.leq a b then a else b

  -- A whole number.
  abbrev pub whole : ℕ → N
  whole n = num.literal (n * 10000)

  -- A number of hundredths.
  abbrev pub percent : ℕ → N
  percent n = num.literal (n * 100)

  -- `Number(v)`
  abbrev pub to_number : Option (Json N) → Option N
  to_number none = none
  to_number (some null) = some (num.literal 0)
  to_number (some (boolean b)) = some (num.literal (if b then 10000 else 0))
  to_number (some (number n)) = some n
  to_number (some (text s)) = num.read s
  to_number (some (array vs)) = num.weigh (array vs)
  to_number (some (object ms)) = num.weigh (object ms)

  -- Is a number zero?
  abbrev pub is_zero : N → Bool
  is_zero n = if num.leq n (num.literal 0) then num.leq (num.literal 0) n else false

  -- `String(v)` for a value that is not falsy, `none` for one that is.
  abbrev pub truthy_text : Option (Json N) → Option String
  truthy_text none = none
  truthy_text (some null) = none
  truthy_text (some (boolean b)) = if b then some "true" else none
  truthy_text (some (number n)) = if is_zero n then none else some (num.show n)
  truthy_text (some (text s)) = if s == "" then none else some s
  truthy_text (some (array vs)) = some (num.print (array vs))
  truthy_text (some (object ms)) = some (num.print (object ms))

  -- `Boolean(v)`
  abbrev pub truthy_value : Option (Json N) → Bool
  truthy_value v = is_given (truthy_text v)

  -- `clampNumber` on the number that the value is.
  unfoldable pub clamp_number : Option N → N → N → N → N
  clamp_number none fallback lo hi = fallback
  clamp_number (some n) fallback lo hi = if less n lo then fallback else lesser n hi

  unfoldable pub clamp_int : Option N → N → N → N → N
  unfolding clamp_number
  clamp_int v fallback lo hi = num.round (clamp_number v fallback lo hi)
