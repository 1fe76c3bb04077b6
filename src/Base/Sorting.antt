-- ===== src/Base/Sorting.antt =====
-- `sort` of the JavaScript standard library, which is stable: `stays x y` says that the comparison of x
-- with y is at most 0, so that x stays before y.
use mathlib.Core.Path.{◌≡◌}
use mathlib.Core.Logic.{inl, inr}
use mathlib.Core.Bool.{Bool, true, false}
use mathlib.Core.List.{List, [], ◌∷◌, Perm}
use mathlib.Core.List.Perm
use finance_next.Base.Tests.{if◌then◌else◌, Bool-cases}
use finance_next.Base.Lists.{All, All-imp}

module _ {ℓ} {A : Type ℓ} (stays : A → A → Bool) where
  abbrev pub insert_ordered : A → List A → List A
  insert_ordered x [] = x ∷ []
  insert_ordered x (y ∷ ys) = if stays x y then x ∷ y ∷ ys else y ∷ insert_ordered x ys

  abbrev pub sort : List A → List A
  sort [] = []
  sort (x ∷ xs) = insert_ordered x (sort xs)

  -- Each element stays before all later ones.
  abbrev pub IsSorted : List A → Type ℓ
  IsSorted [] = Unit
  IsSorted (x ∷ xs) = All (λ y. stays x y ≡ true) xs × IsSorted xs

  insert_ordered-perm : (x : A) (xs : List A) → Perm (insert_ordered x xs) (x ∷ xs)
  insert_ordered-perm x [] = Perm.refl _
  insert_ordered-perm x (y ∷ ys) = elim (Bool-cases (stays x y)) [
    | inl e ↦ rw e (Perm.refl _)
    | inr e ↦ rw e (Perm.trans (Perm.cons y (insert_ordered-perm x ys)) (Perm.swap x y ys))
  ]

  pub sort-perm : (xs : List A) → Perm (sort xs) xs
  sort-perm [] = Perm.refl _
  sort-perm (x ∷ xs) = Perm.trans (insert_ordered-perm x (sort xs)) (Perm.cons x (sort-perm xs))

  insert_ordered-All {κ} :
      (P : A → Type κ) (x : A) (xs : List A) → P x → All P xs → All P (insert_ordered x xs)
  insert_ordered-All P x [] p h = (p, tt)
  insert_ordered-All P x (y ∷ ys) p (q, h) = elim (Bool-cases (stays x y)) [
    | inl e ↦ rw e (p, (q, h))
    | inr e ↦ rw e (q, insert_ordered-All P x ys p h)
  ]

  pub sort-All {κ} : (P : A → Type κ) (xs : List A) → All P xs → All P (sort xs)
  sort-All P [] h = tt
  sort-All P (x ∷ xs) (p, h) = insert_ordered-All P x (sort xs) p (sort-All P xs h)

  module _ (total : (x y : A) → stays x y ≡ false → stays y x ≡ true)
      (trans : (x y z : A) → stays x y ≡ true → stays y z ≡ true → stays x z ≡ true) where
    insert_ordered-IsSorted : (x : A) (xs : List A) → IsSorted xs → IsSorted (insert_ordered x xs)
    insert_ordered-IsSorted x [] h = (tt, tt)
    insert_ordered-IsSorted x (y ∷ ys) (k, h) = elim (Bool-cases (stays x y)) [
      | inl e ↦ rw e ((e, All-imp (λ z l. trans x y z e l) ys k), (k, h))
      | inr e ↦ rw e (insert_ordered-All _ x ys (total x y e) k, insert_ordered-IsSorted x ys h)
    ]

    pub sort-IsSorted : (xs : List A) → IsSorted (sort xs)
    sort-IsSorted [] = tt
    sort-IsSorted (x ∷ xs) = insert_ordered-IsSorted x (sort xs) (sort-IsSorted xs)
