-- ===== src/Numbers/Clamp.antt =====
-- `clampNumber` and `clampInt` stay between their bounds.
use finance_next.Base.{ap, ◌∙◌, true, ◌≡◌, Option, none, some, Bool-cases, inl, inr}
use finance_next.Numbers.{Numbers, IsOrdered, lesser, clamp_number, clamp_int}

abbrev pub Within : {N : Type 0} → Numbers N → N → N → N → Type 0
Within num lo hi n = (num.leq lo n ≡ true) × (num.leq n hi ≡ true)

module _ {N : Type 0} {num : Numbers N} (laws : IsOrdered num) where
  pub lesser-Within :
      (lo a hi : N)
      → num.leq lo a ≡ true
      → num.leq lo hi ≡ true
      → Within num lo hi (lesser num a hi)
  lesser-Within lo a hi h k = elim (Bool-cases (num.leq a hi)) [
    | inl e ↦ rw e (h, e)
    | inr e ↦ rw e (k, laws.leq_refl hi)
  ]

  pub lesser_le_left : (a b : N) → num.leq (lesser num a b) a ≡ true
  lesser_le_left a b = elim (Bool-cases (num.leq a b)) [
    | inl e ↦ rw e (laws.leq_refl a)
    | inr e ↦ rw e (laws.leq_total a b e)
  ]

  pub clamp_number-Within :
      (v : Option N) (fallback lo hi : N)
      → Within num lo hi fallback
      → num.leq lo hi ≡ true
      → Within num lo hi (clamp_number num v fallback lo hi)
  unfolding clamp_number
  clamp_number-Within none fallback lo hi f h = f
  clamp_number-Within (some n) fallback lo hi f h = elim (Bool-cases (num.leq lo n)) [
    | inl e ↦ rw e (lesser-Within lo n hi e h)
    | inr e ↦ rw e f
  ]

  pub clamp_int-Within :
      (v : Option N) (fallback lo hi : N)
      → Within num lo hi fallback
      → num.leq lo hi ≡ true
      → num.round lo ≡ lo
      → num.round hi ≡ hi
      → Within num lo hi (clamp_int num v fallback lo hi)
  unfolding clamp_int
  clamp_int-Within v fallback lo hi f h rl rh =
      let w : Within num lo hi (clamp_number num v fallback lo hi) =
        clamp_number-Within v fallback lo hi f h in
      (cc (laws.round_mono lo _ w.0), cc (laws.round_mono _ hi w.1))

  -- A number above the lower bound is only made smaller.
  pub clamp_int_le_round :
      (n fallback lo hi : N)
      → num.leq lo n ≡ true
      → num.leq (clamp_int num (some n) fallback lo hi) (num.round n) ≡ true
  unfolding clamp_int clamp_number
  clamp_int_le_round n fallback lo hi h =
      rw (h, clamp_int) (laws.round_mono _ _ (lesser_le_left n hi))

  -- A number between the bounds is kept.
  pub clamp_number_fixed :
      (n fallback lo hi : N) → Within num lo hi n → clamp_number num (some n) fallback lo hi ≡ n
  unfolding clamp_number
  clamp_number_fixed n fallback lo hi (h, k) = rw (h, k)

  pub clamp_int_fixed :
      (n fallback lo hi : N)
      → Within num lo hi n
      → num.round n ≡ n
      → clamp_int num (some n) fallback lo hi ≡ n
  unfolding clamp_int
  clamp_int_fixed n fallback lo hi w r = ap num.round (clamp_number_fixed n fallback lo hi w) ∙ r
