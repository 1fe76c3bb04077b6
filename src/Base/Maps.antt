-- ===== src/Base/Maps.antt =====
-- JavaScript's `Map`, as an association list in insertion order.
use mathlib.Core.Path.{◌≡◌, refl, sym, subst, subst₂}
use mathlib.Core.Bool.{true, false}
use mathlib.Core.Option
use mathlib.Core.Option.{Option, none, some}
use mathlib.Core.List.{List, [], ◌∷◌}
use mathlib.Core.Logic.{inl, inr}
use native.Mathlib.Omega.{arith}
use finance_next.Base.Tests.{Key, ◌==◌, if◌then◌else◌, Bool-cases, eq_of_same, same_refl}
use finance_next.Base.Lists.{All}
use finance_next.Base.Sets.{has, add, delete, IsNodup}

module _ {ℓ κ} {K : Type ℓ} {V : Type κ} ⦃key : Key K⦄ where
  -- `m.get(k)`
  abbrev pub lookup : K → List (K × V) → Option V
  lookup k [] = none
  lookup k ((j, v) ∷ m) = if j == k then some v else lookup k m

  -- `m.set(k, v)`: a key that is there keeps its place.
  abbrev pub insert : K → V → List (K × V) → List (K × V)
  insert k v [] = (k, v) ∷ []
  insert k v ((j, w) ∷ m) = if j == k then (j, v) ∷ m else (j, w) ∷ insert k v m

  -- `m.delete(k)`
  abbrev pub erase : K → List (K × V) → List (K × V)
  erase k [] = []
  erase k ((j, w) ∷ m) = if j == k then m else (j, w) ∷ erase k m

  abbrev pub keys : List (K × V) → List K
  keys [] = []
  keys ((k, v) ∷ m) = k ∷ keys m

  pub keys-insert : (k : K) (v : V) (m : List (K × V)) → keys (insert k v m) ≡ add k (keys m)
  keys-insert k v [] = refl
  keys-insert k v ((j, w) ∷ m) = ground (arith, keys-insert k v m)

  pub keys-erase : (k : K) (m : List (K × V)) → keys (erase k m) ≡ delete k (keys m)
  keys-erase k [] = refl
  keys-erase k ((j, w) ∷ m) = ground (arith, keys-erase k m)

  pub lookup-insert :
      (k j : K) (v : V) (m : List (K × V))
      → lookup j (insert k v m) ≡ (if k == j then some v else lookup j m)
  lookup-insert k j v [] = refl
  lookup-insert k j v ((i, w) ∷ m) =
      ground (arith, key.same_iff k j, key.same_iff i k, key.same_iff i j, lookup-insert k j v m)

  pub lookup_of_has-false : (k : K) (m : List (K × V)) → has k (keys m) ≡ false → lookup k m ≡ none
  lookup_of_has-false k [] h = refl
  lookup_of_has-false k ((j, v) ∷ m) h = ground (arith, lookup_of_has-false k m)

  pub lookup_of_has :
      (k : K) (m : List (K × V)) → has k (keys m) ≡ true → (v : V) × (lookup k m ≡ some v)
  lookup_of_has k [] h = cc
  lookup_of_has k ((j, v) ∷ m) h = elim (Bool-cases (j == k)) [
    | inl same ↦ (v, rw same)
    | inr other ↦ rw other (lookup_of_has k m (ground arith))
  ]

  pub lookup-erase :
      (k j : K) (m : List (K × V))
      → IsNodup (keys m)
      → lookup j (erase k m) ≡ (if k == j then none else lookup j m)
  lookup-erase k j [] h = ground arith
  lookup-erase k j ((i, w) ∷ m) (h, n) = ground (
    arith,
    key.same_iff k j,
    key.same_iff i k,
    key.same_iff i j,
    lookup-erase k j m n,
    lookup_of_has-false j m,
  )

  pub has_of_lookup :
      (k : K) (m : List (K × V)) {v : V} → lookup k m ≡ some v → has k (keys m) ≡ true
  has_of_lookup k [] h = cc
  has_of_lookup k ((j, w) ∷ m) {v} h = elim (Bool-cases (j == k)) [
    | inl same ↦ rw same
    | inr other ↦ rw other (has_of_lookup k m {v = v} (ground arith))
  ]

  pub has_of_lookup-none : (k : K) (m : List (K × V)) → lookup k m ≡ none → has k (keys m) ≡ false
  has_of_lookup-none k m h = elim (Bool-cases (has k (keys m))) [
    | inl there ↦ let (v, e) = lookup_of_has k m there in cc
    | inr absent ↦ absent
  ]

  pub insert-insert :
      (k : K) (v w : V) (m : List (K × V)) → insert k w (insert k v m) ≡ insert k w m
  insert-insert k v w [] = rw same_refl
  insert-insert k v w ((j, x) ∷ m) = ground (arith, insert-insert k v w m)

  pub insert-lookup_self :
      (k : K) (v : V) (m : List (K × V)) → lookup k m ≡ some v → insert k v m ≡ m
  insert-lookup_self k v [] h = cc
  insert-lookup_self k v ((j, x) ∷ m) h = ground (arith, insert-lookup_self k v m)

  pub erase-insert_new :
      (k : K) (v : V) (m : List (K × V)) → has k (keys m) ≡ false → erase k (insert k v m) ≡ m
  erase-insert_new k v [] h = rw same_refl
  erase-insert_new k v ((j, x) ∷ m) h = ground (arith, erase-insert_new k v m)

  module _ {μ} (P : K → V → Type μ) where
    pub All-insert :
        (k : K) (v : V) (m : List (K × V))
        → All (λ b. P b.0 b.1) m
        → P k v
        → All (λ b. P b.0 b.1) (insert k v m)
    All-insert k v [] h p = (p, tt)
    All-insert k v ((j, w) ∷ m) (q, h) p = elim (Bool-cases (j == k)) [
      | inl same ↦ rw same (subst (λ x. P x v) (sym (eq_of_same j k same)) p, h)
      | inr other ↦ rw other (q, All-insert k v m h p)
    ]

    pub All-erase :
        (k : K) (m : List (K × V)) → All (λ b. P b.0 b.1) m → All (λ b. P b.0 b.1) (erase k m)
    All-erase k [] h = tt
    All-erase k ((j, w) ∷ m) (q, h) = ground (arith, All-erase k m h)

    pub All-lookup :
        (k : K) (m : List (K × V)) {v : V} → All (λ b. P b.0 b.1) m → lookup k m ≡ some v → P k v
    All-lookup k [] h f = cc
    All-lookup k ((j, w) ∷ m) {v} (q, h) f = elim (Bool-cases (j == k)) [
      | inl same ↦ subst₂ P (eq_of_same j k same) (Option.some-injective _ _ (ground arith)) q
      | inr other ↦ All-lookup k m h (ground arith)
    ]
