-- ===== src/Base/Sets.antt =====
-- JavaScript's `Set`, as a list in insertion order.
use mathlib.Core.Path.{◌≡◌, refl, sym, ◌∙◌}
use mathlib.Core.Logic.{◌≢◌}
use mathlib.Core.Bool.{Bool, true, false, ◌||◌}
use mathlib.Core.List.{List, [], ◌∷◌, ◌++◌, append-nil, append_assoc}
use native.Mathlib.Omega.{arith}
use finance_next.Base.Tests.{Key, ◌==◌, if◌then◌else◌, same_refl}
use finance_next.Base.Lists.{All}

module _ {ℓ} {A : Type ℓ} ⦃key : Key A⦄ where
  -- `s.has(a)`
  abbrev pub has : A → List A → Bool
  has a [] = false
  has a (x ∷ xs) = x == a || has a xs

  -- `s.add(a)`
  abbrev pub add : A → List A → List A
  add a xs = if has a xs then xs else xs ++ a ∷ []

  -- `s.delete(a)`
  abbrev pub delete : A → List A → List A
  delete a [] = []
  delete a (x ∷ xs) = if x == a then xs else x ∷ delete a xs

  abbrev pub IsNodup : List A → Type 0
  IsNodup [] = Unit
  IsNodup (x ∷ xs) = (has x xs ≡ false) × IsNodup xs

  -- Adding the members of a list one by one.
  abbrev pub add_all : List A → List A → List A
  add_all [] xs = xs
  add_all (a ∷ as') xs = add_all as' (add a xs)

  pub has-append : (a : A) (xs ys : List A) → has a (xs ++ ys) ≡ (has a xs || has a ys)
  has-append a [] ys = refl
  has-append a (x ∷ xs) ys = ground (arith, has-append a xs ys)

  pub has-add : (a b : A) (xs : List A) → has b (add a xs) ≡ (a == b || has b xs)
  has-add a b xs = ground (arith, has-append b xs (a ∷ []), key.same_iff a b)

  pub has-delete_self : (a : A) (xs : List A) → IsNodup xs → has a (delete a xs) ≡ false
  has-delete_self a [] h = refl
  has-delete_self a (x ∷ xs) (h, k) = ground (arith, has-delete_self a xs k, key.same_iff x a)

  pub has-delete_ne : (a b : A) (xs : List A) → (a == b) ≡ false → has b (delete a xs) ≡ has b xs
  has-delete_ne a b [] h = refl
  has-delete_ne a b (x ∷ xs) h =
      ground (arith, has-delete_ne a b xs h, key.same_iff x a, key.same_iff a b)

  pub has-delete-false : (a b : A) (xs : List A) → has b xs ≡ false → has b (delete a xs) ≡ false
  has-delete-false a b [] h = refl
  has-delete-false a b (x ∷ xs) h = ground (arith, has-delete-false a b xs)

  pub IsNodup-push : (a : A) (xs : List A) → IsNodup xs → has a xs ≡ false → IsNodup (xs ++ a ∷ [])
  IsNodup-push a [] h k = (refl, tt)
  IsNodup-push a (x ∷ xs) (h, n) k = (
    ground (arith, has-append x xs (a ∷ []), key.same_iff x a, key.same_iff a x),
    IsNodup-push a xs n (ground arith),
  )

  pub IsNodup-add : (a : A) (xs : List A) → IsNodup xs → IsNodup (add a xs)
  IsNodup-add a xs h = ground (arith, IsNodup-push a xs h)

  pub IsNodup-delete : (a : A) (xs : List A) → IsNodup xs → IsNodup (delete a xs)
  IsNodup-delete a [] h = tt
  IsNodup-delete a (x ∷ xs) (h, k) =
      ground (arith, IsNodup-delete a xs k, has-delete-false a x xs h)

  IsNodup-middle : (xs : List A) (a : A) (ys : List A) → IsNodup (xs ++ a ∷ ys) → has a xs ≡ false
  IsNodup-middle [] a ys h = refl
  IsNodup-middle (x ∷ xs) a ys (h, n) = ground (
    arith,
    IsNodup-middle xs a ys n,
    has-append x xs (a ∷ ys),
    key.same_iff x a,
    key.same_iff a x,
  )

  pub add_all-nodup : (as' xs : List A) → IsNodup (xs ++ as') → add_all as' xs ≡ xs ++ as'
  add_all-nodup [] xs h = sym (append-nil xs)
  add_all-nodup (a ∷ as') xs h =
      let shift : (xs ++ a ∷ []) ++ as' ≡ xs ++ a ∷ as' = append_assoc xs (a ∷ []) as' in
      rw (IsNodup-middle xs a as' h) (add_all-nodup as' (xs ++ a ∷ []) (rw shift h) ∙ shift)

  pub add_all-present : (as' xs : List A) → All (λ a. has a xs ≡ true) as' → add_all as' xs ≡ xs
  add_all-present [] xs h = refl
  add_all-present (a ∷ as') xs (p, h) = rw p (add_all-present as' xs h)

  All-has_cons :
      (x : A) (xs ys : List A) → All (λ a. has a xs ≡ true) ys → All (λ a. has a (x ∷ xs) ≡ true) ys
  All-has_cons x xs [] h = tt
  All-has_cons x xs (y ∷ ys) (p, h) = (ground arith, All-has_cons x xs ys h)

  pub All-has_self : (xs : List A) → All (λ a. has a xs ≡ true) xs
  All-has_self [] = tt
  All-has_self (x ∷ xs) = (rw same_refl, All-has_cons x xs xs (All-has_self xs))

  pub delete-add_new : (a : A) (xs : List A) → has a xs ≡ false → delete a (xs ++ a ∷ []) ≡ xs
  delete-add_new a [] h = rw same_refl
  delete-add_new a (x ∷ xs) h = ground (arith, delete-add_new a xs)

  push-ne-nil : (xs : List A) (a : A) → xs ++ a ∷ [] ≢ []
  push-ne-nil [] a = cc
  push-ne-nil (x ∷ xs) a = cc

  pub add-ne-nil : (a : A) (xs : List A) → add a xs ≢ []
  add-ne-nil a [] = cc
  add-ne-nil a (x ∷ xs) = ground (arith, push-ne-nil (x ∷ xs) a)

  pub delete-add_fresh : (a : A) (xs : List A) → has a xs ≡ false → delete a (add a xs) ≡ xs
  delete-add_fresh a xs h = rw h (delete-add_new a xs h)
