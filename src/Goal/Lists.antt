-- ===== src/Goal/Lists.antt =====
-- What the cleaning of a list keeps.
use Prim.Native.String.{count}
use finance_next.Base.{
  ℕ, zero, suc, String, true, false, ◌||◌, ◌≡◌, ◌≤◌, inl, inr, List, [], ◌∷◌, ◌==◌, Bool-cases, All,
  length, has, string_key, arith,
}
use finance_next.Decision.Evidence.{not_blank}
use finance_next.Preset.{take_chars}
use finance_next.Preset.Names.{count-take_chars}
use finance_next.Goal.{clean_values}

pub length-clean_values :
    (norm cut : String → String) (n : ℕ) (seen vs : List String)
    → length (clean_values norm cut n seen vs) ≤ n
length-clean_values norm cut zero seen vs = omega arith
length-clean_values norm cut (suc n) seen [] = omega arith
length-clean_values norm cut (suc n) seen (v ∷ vs) =
    elim (Bool-cases (norm v == "" || has (norm v) seen)) [
      | inl e ↦ rw e (length-clean_values norm cut (suc n) seen vs)
      | inr e ↦ rw e (omega (arith, length-clean_values norm cut n (norm v ∷ seen) vs))
    ]

-- No value of the list is empty or was seen before, and none is there twice.
abbrev pub AreFresh : List String → List String → Type 0
AreFresh seen [] = Unit
AreFresh seen (v ∷ vs) = (not_blank v ≡ true) × (has v seen ≡ false) × AreFresh (v ∷ seen) vs

pub clean_values-AreFresh :
    (norm : String → String) (n : ℕ) (seen vs : List String)
    → AreFresh seen (clean_values norm (λ s. s) n seen vs)
clean_values-AreFresh norm zero seen vs = tt
clean_values-AreFresh norm (suc n) seen [] = tt
clean_values-AreFresh norm (suc n) seen (v ∷ vs) = elim (Bool-cases (norm v == "")) [
  | inl e ↦ rw e (clean_values-AreFresh norm (suc n) seen vs)
  | inr e ↦ elim (Bool-cases (has (norm v) seen)) [
    | inl k ↦ rw (e, k) (clean_values-AreFresh norm (suc n) seen vs)
    | inr k ↦ rw (e, k) (rw e, k, clean_values-AreFresh norm n (norm v ∷ seen) vs)
  ]
]

-- A text of at most 120 characters.
abbrev pub IsShort : String → Type 0
IsShort s = count s ≤ 120

pub clean_values-All-IsShort :
    (norm : String → String) (n : ℕ) (seen vs : List String)
    → All IsShort (clean_values norm (take_chars 120) n seen vs)
clean_values-All-IsShort norm zero seen vs = tt
clean_values-All-IsShort norm (suc n) seen [] = tt
clean_values-All-IsShort norm (suc n) seen (v ∷ vs) =
    elim (Bool-cases (norm v == "" || has (norm v) seen)) [
      | inl e ↦ rw e (clean_values-All-IsShort norm (suc n) seen vs)
      | inr e ↦ rw e (
        omega (arith, count-take_chars 120 (norm v)),
        clean_values-All-IsShort norm n (norm v ∷ seen) vs,
      )
    ]
