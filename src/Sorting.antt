-- ===== src/Sorting.antt =====
-- `Array.prototype.sort` with the comparator `(a, b) => a.key.localeCompare(b.key)`. The sort is
-- stable; the order of texts belongs to the engine's locale and is a parameter.
use dbtabase_workbench.Common.{
  ℕ, ◌≡◌, refl, ap, ◌∙◌, inl, inr, Bool, true, false, List, [], ◌∷◌, Text, ◌===◌, ===_iff, find,
  arith, if◌then◌else◌, Bool-cases, All, total, ◌+◌,
}
use mathlib.Core.List.{Perm}
use mathlib.Core.List.Perm

-- `after a b` is `a.localeCompare(b) > 0`.
pub record Collation : Type 0 where
  pub after : Text → Text → Bool
  pub after-self : (a : Text) → after a a ≡ false
  pub after_asymm : (a b : Text) → after a b ≡ true → after b a ≡ false
  pub after_trans : (a b c : Text) → after b a ≡ false → after c b ≡ false → after c a ≡ false

module _ {ℓ} {A : Type ℓ} (order : Collation) (key : A → Text) where
  unfoldable pub insert : A → List A → List A
  insert x [] = x ∷ []
  insert x (y ∷ ys) =
      let later = insert x ys in if order.after (key x) (key y) then y ∷ later else x ∷ y ∷ ys

  unfoldable pub sort : List A → List A
  unfolding insert
  sort [] = []
  sort (x ∷ xs) = insert x (sort xs)

  abbrev pub IsSorted : List A → Type 0
  IsSorted [] = Unit
  IsSorted (x ∷ []) = Unit
  IsSorted (x ∷ y ∷ ys) = (order.after (key x) (key y) ≡ false) × IsSorted (y ∷ ys)

  insert-Perm : (x : A) (xs : List A) → Perm (insert x xs) (x ∷ xs)
  unfolding insert
  insert-Perm x [] = Perm.refl (x ∷ [])
  insert-Perm x (y ∷ ys) = elim (Bool-cases (order.after (key x) (key y))) [
    | inl e ↦ rw e (Perm.trans (Perm.cons y (insert-Perm x ys)) (Perm.swap x y ys))
    | inr e ↦ rw e (Perm.refl _)
  ]

  pub sort-Perm : (xs : List A) → Perm (sort xs) xs
  unfolding sort
  sort-Perm [] = Perm.refl []
  sort-Perm (x ∷ xs) = Perm.trans (insert-Perm x (sort xs)) (Perm.cons x (sort-Perm xs))

  IsSorted-cons :
      (y x : A) (ys : List A)
      → order.after (key y) (key x) ≡ false
      → IsSorted (y ∷ ys)
      → IsSorted (insert x ys)
      → IsSorted (y ∷ insert x ys)
  unfolding insert
  IsSorted-cons y x [] h k s = (h, tt)
  IsSorted-cons y x (z ∷ zs) h k s = elim (Bool-cases (order.after (key x) (key z))) [
    | inl e ↦ rw e (k.0, rw e at s)
    | inr e ↦ rw e (h, rw e at s)
  ]

  insert-IsSorted : (x : A) (xs : List A) → IsSorted xs → IsSorted (insert x xs)
  unfolding insert
  insert-IsSorted x [] h = tt
  insert-IsSorted x (y ∷ []) h = elim (Bool-cases (order.after (key x) (key y))) [
    | inl e ↦ rw e (order.after_asymm _ _ e, tt)
    | inr e ↦ rw e (e, tt)
  ]
  insert-IsSorted x (y ∷ z ∷ zs) h = elim (Bool-cases (order.after (key x) (key y))) [
    | inl e ↦
        rw e
          (IsSorted-cons y x (z ∷ zs) (order.after_asymm _ _ e) h (insert-IsSorted x (z ∷ zs) h.1))
    | inr e ↦ rw e (e, h)
  ]

  pub sort-IsSorted : (xs : List A) → IsSorted (sort xs)
  unfolding sort
  sort-IsSorted [] = tt
  sort-IsSorted (x ∷ xs) = insert-IsSorted x (sort xs) (sort-IsSorted xs)

  -- Searching by the key is not affected by the order, since elements with one key keep theirs.
  find-insert :
      (k : Text) (x : A) (xs : List A)
      → find (λ y. key y === k) (insert x xs) ≡ find (λ y. key y === k) (x ∷ xs)
  unfolding insert
  find-insert k x [] = refl
  find-insert k x (y ∷ ys) =
      ground (arith, ===_iff (key x) k, ===_iff (key y) k, order.after-self k, find-insert k x ys)

  pub find-sort :
      (k : Text) (xs : List A) → find (λ y. key y === k) (sort xs) ≡ find (λ y. key y === k) xs
  unfolding sort
  find-sort k [] = refl
  find-sort k (x ∷ xs) = rw (find-insert k x (sort xs), find-sort k xs)

  insert-All {κ} : (P : A → Type κ) (x : A) (xs : List A) → P x → All P xs → All P (insert x xs)
  unfolding insert
  insert-All P x [] h k = (h, tt)
  insert-All P x (y ∷ ys) h k = elim (Bool-cases (order.after (key x) (key y))) [
    | inl e ↦ rw e (k.0, insert-All P x ys h k.1)
    | inr e ↦ rw e (h, k)
  ]

  -- What holds of every element holds of every element of the sorted list.
  pub sort-All {κ} : (P : A → Type κ) (xs : List A) → All P xs → All P (sort xs)
  unfolding sort
  sort-All P [] h = tt
  sort-All P (x ∷ xs) h = insert-All P x (sort xs) h.0 (sort-All P xs h.1)

  insert-total : (f : A → ℕ) (x : A) (xs : List A) → total f (insert x xs) ≡ f x + total f xs
  unfolding insert
  insert-total f x [] = refl
  insert-total f x (y ∷ ys) = ground (arith, insert-total f x ys)

  -- Every sum over the elements is that over the sorted list.
  pub sort-total : (f : A → ℕ) (xs : List A) → total f (sort xs) ≡ total f xs
  unfolding sort
  sort-total f [] = refl
  sort-total f (x ∷ xs) = insert-total f x (sort xs) ∙ ap (λ (n : ℕ). f x + n) (sort-total f xs)
