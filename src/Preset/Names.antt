-- ===== src/Preset/Names.antt =====
-- Names and symbols of a strategy, as the form gets them.
use Prim.Native.String.{◌++◌, count}
use text.Mathlib.TextLemmas.{length-append, nil-append, cons-append, length-cons}
use finance_next.Base.{
  ℕ, zero, suc, String, true, false, ◌≡◌, refl, ◌≤◌, inl, inr, Option, ◌==◌, min, Bool-cases,
  string_key, arith, same_refl,
}
use finance_next.Preset.{
  take_chars, ends_with, short_name, pad_name, with_usdt, normalize_name, normalize_symbol,
}

pub count-take_chars : (n : ℕ) (s : String) → count (take_chars n s) ≡ min n (count s)
count-take_chars zero s = ground arith
count-take_chars (suc n) String.[] = ground arith
count-take_chars (suc n) (String.◌∷◌ c s) =
    ground (arith, count-take_chars n s, length-cons c s, length-cons c (take_chars n s))

count-pad_name : (s : String) → 3 ≤ count (pad_name s)
count-pad_name s = elim (Bool-cases (s == "")) [
  | inl e ↦ rw (e, length-append "ai" "ai") (omega arith)
  | inr e ↦ rw (e, length-append s "ai") (omega (arith, filled s e))
]
  where
    filled : (s : String) → (s == "") ≡ false → 1 ≤ count s
    filled String.[] e = cc
    filled (String.◌∷◌ c s) e = omega (arith, length-cons c s)

short_name-Length : (base : String) → (3 ≤ count (short_name base)) × (count (short_name base) ≤ 8)
short_name-Length base = ground (
  arith,
  count-take_chars 8 base,
  count-take_chars 8 (pad_name (take_chars 8 base)),
  count-pad_name (take_chars 8 base),
)

ends_with_refl : (t : String) → ends_with t t ≡ true
ends_with_refl String.[] = refl
ends_with_refl (String.◌∷◌ c s) = rw (same_refl (String.◌∷◌ c s))

ends_with-append : (s t : String) → ends_with (s ++ t) t ≡ true
ends_with-append String.[] t = rw (nil-append t, ends_with_refl t)
ends_with-append (String.◌∷◌ c s) t = rw (cons-append c s t) (ground (arith, ends_with-append s t))

with_usdt-EndsWith : (raw : String) → ends_with (with_usdt raw) "USDT" ≡ true
with_usdt-EndsWith raw = elim (Bool-cases (raw == "")) [
  | inl e ↦ rw e
  | inr e ↦ elim (Bool-cases (ends_with raw "USDT")) [
    | inl k ↦ rw (e, k) k
    | inr k ↦ rw (e, k) (ends_with-append raw "USDT")
  ]
]

pub normalize_name-Length :
    (lower : String → String) (name symbol : Option String)
    → (3 ≤ count (normalize_name lower name symbol))
      × (count (normalize_name lower name symbol) ≤ 8)
unfolding normalize_name
normalize_name-Length lower name symbol = search short_name-Length

pub normalize_symbol-EndsWith :
    (upper : String → String) (symbol : Option String)
    → ends_with (normalize_symbol upper symbol) "USDT" ≡ true
unfolding normalize_symbol
normalize_symbol-EndsWith upper symbol = search with_usdt-EndsWith
