-- ===== src/Go/Sort.antt =====
-- sort.SliceStable: the stable order by a `less` function, found by insertion.
use my_symphony.Base.{
  ◌||◌, any, if_elim, suc, length, refl, arith, true, ◌&&◌, false, ◌∙◌, All, not, ◌≡◌, List, [],
  ◌∷◌, Bool, if◌then◌else◌, Bool-cases, inl, inr,
}
use mathlib.Core.List.{Perm}
use mathlib.Core.List.Perm

module _ {ℓ} {A : Type ℓ} (less : A → A → Bool) where
  -- `a` stands before the elements of `xs` in the input, so it stays before its equals.
  unfoldable pub insert_stable : A → List A → List A
  insert_stable a [] = a ∷ []
  insert_stable a (x ∷ xs) = if less x a then x ∷ insert_stable a xs else a ∷ x ∷ xs

  unfoldable pub slice_stable : List A → List A
  unfolding insert_stable
  slice_stable [] = []
  slice_stable (x ∷ xs) = insert_stable x (slice_stable xs)

  insert_stable-perm : (a : A) (xs : List A) → Perm (insert_stable a xs) (a ∷ xs)
  unfolding insert_stable
  insert_stable-perm a [] = Perm.refl _
  insert_stable-perm a (x ∷ xs) = elim (Bool-cases (less x a)) [
    | inl e ↦ rw e (Perm.trans (Perm.cons x (insert_stable-perm a xs)) (Perm.swap a x xs))
    | inr e ↦ rw e (Perm.refl _)
  ]

  pub slice_stable-perm : (xs : List A) → Perm (slice_stable xs) xs
  unfolding slice_stable
  slice_stable-perm [] = Perm.refl _
  slice_stable-perm (x ∷ xs) =
      Perm.trans (insert_stable-perm x (slice_stable xs)) (Perm.cons x (slice_stable-perm xs))

  any-insert : (p : A → Bool) (a : A) (xs : List A) → any p (insert_stable a xs) ≡ (p a || any p xs)
  unfolding insert_stable
  any-insert p a [] = refl
  any-insert p a (x ∷ xs) = ground (arith, any-insert p a xs)

  pub any-slice_stable : (p : A → Bool) (xs : List A) → any p (slice_stable xs) ≡ any p xs
  unfolding slice_stable
  any-slice_stable p [] = refl
  any-slice_stable p (x ∷ xs) = any-insert p x (slice_stable xs) ∙ rw (any-slice_stable p xs) refl

  module _ {κ} (P : A → Type κ) where
    All-of_insert : (a : A) (xs : List A) → All P (insert_stable a xs) → P a × All P xs
    unfolding insert_stable
    All-of_insert a [] h = (h.0, tt)
    All-of_insert a (x ∷ xs) h =
        if_elim (λ ys. All P ys → P a × (P x × All P xs)) (less x a)
          (λ _ k. let rest = All-of_insert a xs k.1 in (rest.0, (k.0, rest.1))) (λ _ k. k) h

    -- What holds of every element after sorting held before.
    pub All-of_slice_stable : (xs : List A) → All P (slice_stable xs) → All P xs
    unfolding slice_stable
    All-of_slice_stable [] h = tt
    All-of_slice_stable (x ∷ xs) h =
        let parts = All-of_insert x (slice_stable xs) h in (parts.0, All-of_slice_stable xs parts.1)

-- What `less` must be for the order to be determined: a strict weak order.
pub record IsStrictWeak {ℓ} {A : Type ℓ} (less : A → A → Bool) : Type ℓ where
  pub asym : (a b : A) → less a b ≡ true → less b a ≡ false
  pub neg_trans : (a b c : A) → less a b ≡ false → less b c ≡ false → less a c ≡ false

module _ {ℓ} {A : Type ℓ} (less : A → A → Bool) where
  -- No element is less than one before it.
  abbrev pub Ordered : List A → Type ℓ
  Ordered [] = Unit
  Ordered (x ∷ xs) = All (λ y. less y x ≡ false) xs × Ordered xs

  -- The elements that compare equal to `k`, in their order.
  unfoldable pub equals : A → List A → List A
  equals k [] = []
  equals k (x ∷ xs) = if not (less x k) && not (less k x) then x ∷ equals k xs else equals k xs

module _ {ℓ} {A : Type ℓ} (less : A → A → Bool) (weak : IsStrictWeak less) where
  insert-All :
      (z a : A) (xs : List A)
      → less a z ≡ false
      → All (λ y. less y z ≡ false) xs
      → All (λ y. less y z ≡ false) (insert_stable less a xs)
  unfolding insert_stable
  insert-All z a [] h k = (h, tt)
  insert-All z a (x ∷ xs) h k = ground (arith, insert-All z a xs h k.1)

  All-le :
      (x a : A) (xs : List A)
      → less x a ≡ false
      → All (λ y. less y x ≡ false) xs
      → All (λ y. less y a ≡ false) xs
  All-le x a [] h k = tt
  All-le x a (y ∷ xs) h k = (weak.neg_trans y x a k.0 h, All-le x a xs h k.1)

  insert-Ordered : (a : A) (xs : List A) → Ordered less xs → Ordered less (insert_stable less a xs)
  unfolding insert_stable
  insert-Ordered a [] h = (tt, tt)
  insert-Ordered a (x ∷ xs) h = elim (Bool-cases (less x a)) [
    | inl e ↦ rw e (insert-All x a xs (weak.asym x a e) h.0, insert-Ordered a xs h.1)
    | inr e ↦ rw e ((e, All-le x a xs e h.0), h)
  ]

  pub slice_stable-Ordered : (xs : List A) → Ordered less (slice_stable less xs)
  unfolding slice_stable
  slice_stable-Ordered [] = tt
  slice_stable-Ordered (x ∷ xs) = insert-Ordered x (slice_stable less xs) (slice_stable-Ordered xs)

  insert-equals :
      (k a : A) (xs : List A) → equals less k (insert_stable less a xs) ≡ equals less k (a ∷ xs)
  unfolding insert_stable equals
  insert-equals k a [] = refl
  insert-equals k a (x ∷ xs) = ground (arith, insert-equals k a xs, weak.neg_trans x k a)

  equals-cons :
      (k x : A) (xs ys : List A)
      → equals less k xs ≡ equals less k ys
      → equals less k (x ∷ xs) ≡ equals less k (x ∷ ys)
  unfolding equals
  equals-cons k x xs ys e = ground arith

  -- Elements that compare equal keep their order.
  pub slice_stable-equals :
      (k : A) (xs : List A) → equals less k (slice_stable less xs) ≡ equals less k xs
  unfolding slice_stable
  slice_stable-equals k [] = refl
  slice_stable-equals k (x ∷ xs) =
      insert-equals k x (slice_stable less xs)
      ∙ equals-cons k x (slice_stable less xs) xs (slice_stable-equals k xs)

module _ {ℓ} {A : Type ℓ} (less : A → A → Bool) where
  length-insert_stable : (a : A) (xs : List A) → length (insert_stable less a xs) ≡ suc (length xs)
  unfolding insert_stable
  length-insert_stable a [] = refl
  length-insert_stable a (x ∷ xs) = ground (arith, length-insert_stable a xs)

  pub length-slice_stable : (xs : List A) → length (slice_stable less xs) ≡ length xs
  unfolding slice_stable
  length-slice_stable [] = refl
  length-slice_stable (x ∷ xs) =
      omega (arith, length-insert_stable x (slice_stable less xs), length-slice_stable xs)
