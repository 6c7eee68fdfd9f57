-- ===== src/Prelude/Sort.antt =====
-- Stable sorting by a Boolean comparison (`slice::sort_by`), and the removal of a first element
-- in that order (`BinaryHeap::pop`).
use mathlib.Core.List.{Perm}
use mathlib.Core.List.Perm
use lane.Prelude.{
  suc, ◌≡◌, refl, ap, Bool, true, false, Option, none, some, List, [], ◌∷◌, arith, if◌then◌else◌,
  length, filter, not, All, All-map_pred, filter-All, filter_none, Bool-cases, inl, inr, ◌++◌,
}

module _ {ℓ} {A : Type ℓ} where
  unfoldable pub insert : (A → A → Bool) → A → List A → List A
  insert le x [] = x ∷ []
  insert le x (y ∷ ys) = if le x y then x ∷ y ∷ ys else y ∷ insert le x ys

  unfoldable pub sort_by : (A → A → Bool) → List A → List A
  unfolding insert
  sort_by le [] = []
  sort_by le (x ∷ xs) = insert le x (sort_by le xs)

  -- Where the rest of the list has no element that comes before `x`, `x` is taken.
  abbrev pub choose : (A → A → Bool) → A → List A → Option (A × List A) → Option (A × List A)
  choose le x xs none = some (x, xs)
  choose le x xs (some (m, rest)) = if le x m then some (x, xs) else some (m, x ∷ rest)

  unfoldable pub pop_first : (A → A → Bool) → List A → Option (A × List A)
  pop_first le [] = none
  pop_first le (x ∷ xs) = choose le x xs (pop_first le xs)

  abbrev pub sorted_from : (A → A → Bool) → Option (A × List A) → List A
  sorted_from le none = []
  sorted_from le (some (m, rest)) = m ∷ sort_by le rest

  choose-sorted :
      (le : A → A → Bool) (x : A) (xs : List A) (o : Option (A × List A))
      → sort_by le xs ≡ sorted_from le o
      → insert le x (sort_by le xs) ≡ sorted_from le (choose le x xs o)
  unfolding sort_by
  choose-sorted le x xs none h = rw h refl
  choose-sorted le x xs (some (m, rest)) h = ground arith

  -- Taking first elements is sorting, for every comparison.
  pub sort_by-pop_first :
      (le : A → A → Bool) (xs : List A) → sort_by le xs ≡ sorted_from le (pop_first le xs)
  unfolding sort_by pop_first
  sort_by-pop_first le [] = refl
  sort_by-pop_first le (x ∷ xs) = choose-sorted le x xs (pop_first le xs) (sort_by-pop_first le xs)

  pub insert-perm : (le : A → A → Bool) (x : A) (xs : List A) → Perm (insert le x xs) (x ∷ xs)
  unfolding insert
  insert-perm le x [] = Perm.refl _
  insert-perm le x (y ∷ ys) = elim (Bool-cases (le x y)) [
    | inl e ↦ rw e (Perm.refl _)
    | inr e ↦ rw e (Perm.trans (Perm.cons y (insert-perm le x ys)) (Perm.swap x y ys))
  ]

  pub sort_by-perm : (le : A → A → Bool) (xs : List A) → Perm (sort_by le xs) xs
  unfolding sort_by
  sort_by-perm le [] = Perm.refl _
  sort_by-perm le (x ∷ xs) =
      Perm.trans (insert-perm le x (sort_by le xs)) (Perm.cons x (sort_by-perm le xs))

  pub length-insert :
      (le : A → A → Bool) (x : A) (xs : List A) → length (insert le x xs) ≡ suc (length xs)
  unfolding insert
  length-insert le x [] = refl
  length-insert le x (y ∷ ys) = ground (arith, length-insert le x ys)

  pub length-sort_by : (le : A → A → Bool) (xs : List A) → length (sort_by le xs) ≡ length xs
  unfolding sort_by
  length-sort_by le [] = refl
  length-sort_by le (x ∷ xs) =
      ground (arith, length-insert le x (sort_by le xs), length-sort_by le xs)

  -- A predicate of every element holds of every element of the sorted list.
  pub All-insert {κ} :
      (P : A → Type κ) (le : A → A → Bool) (x : A) (xs : List A)
      → P x
      → All P xs
      → All P (insert le x xs)
  unfolding insert
  All-insert P le x [] p h = (p, tt)
  All-insert P le x (y ∷ ys) p h = elim (Bool-cases (le x y)) [
    | inl e ↦ rw e (p, (h.0, h.1))
    | inr e ↦ rw e (h.0, All-insert P le x ys p h.1)
  ]

  pub All-sort_by {κ} :
      (P : A → Type κ) (le : A → A → Bool) (xs : List A) → All P xs → All P (sort_by le xs)
  unfolding sort_by
  All-sort_by P le [] h = tt
  All-sort_by P le (x ∷ xs) h = All-insert P le x (sort_by le xs) h.0 (All-sort_by P le xs h.1)

  abbrev pub IsSortedBy : (A → A → Bool) → List A → Type 0
  IsSortedBy le [] = Unit
  IsSortedBy le (x ∷ xs) = All (λ y. le x y ≡ true) xs × IsSortedBy le xs

-- A comparison that decides a total preorder.
pub record IsTotal {ℓ} {A : Type ℓ} (le : A → A → Bool) : Type ℓ where
  pub total : (a b : A) → le a b ≡ false → le b a ≡ true
  pub trans : (a b c : A) → le a b ≡ true → le b c ≡ true → le a c ≡ true

module _ {ℓ} {A : Type ℓ} (le : A → A → Bool) (t : IsTotal le) where
  All-le_trans :
      (x y : A) (ys : List A)
      → le x y ≡ true
      → All (λ z. le y z ≡ true) ys
      → All (λ z. le x z ≡ true) ys
  All-le_trans x y [] h a = tt
  All-le_trans x y (z ∷ zs) h a = (t.trans x y z h a.0, All-le_trans x y zs h a.1)

  pub insert-IsSortedBy : (x : A) (xs : List A) → IsSortedBy le xs → IsSortedBy le (insert le x xs)
  unfolding insert
  insert-IsSortedBy x [] s = (tt, tt)
  insert-IsSortedBy x (y ∷ ys) s = elim (Bool-cases (le x y)) [
    | inl e ↦ rw e ((e, All-le_trans x y ys e s.0), s)
    | inr e ↦
        rw e
          (All-insert (λ z. le y z ≡ true) le x ys (t.total x y e) s.0, insert-IsSortedBy x ys s.1)
  ]

  pub sort_by-IsSortedBy : (xs : List A) → IsSortedBy le (sort_by le xs)
  unfolding sort_by
  sort_by-IsSortedBy [] = tt
  sort_by-IsSortedBy (x ∷ xs) = insert-IsSortedBy x (sort_by le xs) (sort_by-IsSortedBy xs)

  -- Two elements that the comparison tells apart may be inserted in either order.
  pub insert_comm :
      (x y : A) (xs : List A)
      → le x y ≡ not (le y x)
      → insert le x (insert le y xs) ≡ insert le y (insert le x xs)
  unfolding insert
  insert_comm x y [] d = ground arith
  insert_comm x y (z ∷ zs) d = ground (
    arith,
    insert_comm x y zs d,
    t.total x z,
    t.total y z,
    t.total x y,
    t.trans x z y,
    t.trans y z x,
    t.trans x y z,
    t.trans y x z,
  )

  -- An element that comes first goes to the front.
  pub insert_first : (x : A) (xs : List A) → All (λ y. le x y ≡ true) xs → insert le x xs ≡ x ∷ xs
  unfolding insert
  insert_first x [] a = refl
  insert_first x (y ∷ ys) a = rw a.0

  split_first :
      (x y : A) (ys : List A)
      → le x y ≡ true
      → All (λ z. le x z ≡ true) ys
      → insert le x (y ∷ ys)
        ≡ filter (λ z. not (le x z)) (y ∷ ys) ++ x ∷ filter (λ z. le x z) (y ∷ ys)
  unfolding insert
  split_first x y ys e a = ground (
    arith,
    filter-All (λ z. le x z) ys a,
    filter_none (λ z. not (le x z)) ys (All-map_pred _ _ (λ z h. rw h) ys a),
  )

  -- An element is inserted behind the elements strictly before it.
  pub insert-split :
      (x : A) (xs : List A)
      → IsSortedBy le xs
      → insert le x xs ≡ filter (λ y. not (le x y)) xs ++ x ∷ filter (λ y. le x y) xs
  unfolding insert
  insert-split x [] s = refl
  insert-split x (y ∷ ys) s = elim (Bool-cases (le x y)) [
    | inl e ↦ split_first x y ys e (All-le_trans x y ys e s.0)
    | inr e ↦ rw e (ap (◌∷◌ y) (insert-split x ys s.1))
  ]

  -- A sorted list is left as it is.
  pub sort_by_sorted : (xs : List A) → IsSortedBy le xs → sort_by le xs ≡ xs
  unfolding sort_by
  sort_by_sorted [] s = refl
  sort_by_sorted (x ∷ xs) s = rw (sort_by_sorted xs s.1) (insert_first x xs s.0)

module _ {ℓ} {A : Type ℓ} where
  -- An element that comes before none goes to the end.
  pub insert_last :
      (le : A → A → Bool) (x : A) (xs : List A)
      → All (λ y. le x y ≡ false) xs
      → insert le x xs ≡ xs ++ x ∷ []
  unfolding insert
  insert_last le x [] a = refl
  insert_last le x (y ∷ ys) a = rw a.0 (ap (◌∷◌ y) (insert_last le x ys a.1))

  -- The predicate of the taken element and of the elements that are left.
  abbrev pub Taken {κ} : (A → Type κ) → Option (A × List A) → Type κ
  Taken P none = Unit
  Taken P (some (m, rest)) = P m × All P rest

  choose-Taken {κ} :
      (P : A → Type κ) (le : A → A → Bool) (x : A) (xs : List A) (o : Option (A × List A))
      → P x
      → All P xs
      → Taken P o
      → Taken P (choose le x xs o)
  choose-Taken P le x xs none p a t = (p, a)
  choose-Taken P le x xs (some (m, rest)) p a t = elim (Bool-cases (le x m)) [
    | inl e ↦ rw e (p, a)
    | inr e ↦ rw e (t.0, (p, t.1))
  ]

  pub All-pop_first {κ} :
      (P : A → Type κ) (le : A → A → Bool) (xs : List A) → All P xs → Taken P (pop_first le xs)
  unfolding pop_first
  All-pop_first P le [] a = tt
  All-pop_first P le (x ∷ xs) a =
      choose-Taken P le x xs (pop_first le xs) a.0 a.1 (All-pop_first P le xs a.1)
