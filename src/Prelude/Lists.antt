-- ===== src/Prelude/Lists.antt =====
-- Lists measured by native numbers and filtered by Boolean tests, and predicates on them.
use Prim.Native.Nat.{ℕ, zero, suc, ◌+◌, ◌-◌, ◌≤◌}
use mathlib.Core.Path.{◌≡◌, refl, ap, subst}
use mathlib.Core.Option.{Option, none, some}
use mathlib.Core.Bool.{Bool, true, false}
use mathlib.Core.List.{List, [], ◌∷◌, ◌++◌, map}
use native.Mathlib.Omega.{arith}
use lane.Prelude.Tests.{if◌then◌else◌}

module _ {ℓ} {A : Type ℓ} where
  abbrev pub length : List A → ℕ
  length [] = 0
  length (x ∷ xs) = suc (length xs)

  -- The library's `filter` takes a decision; this one takes a Boolean test.
  abbrev pub filter : (A → Bool) → List A → List A
  filter p [] = []
  filter p (x ∷ xs) = let rest = filter p xs in if p x then x ∷ rest else rest

  -- A predicate by recursion computes to tuples, which the tactics read and build.
  abbrev pub All {κ} : (A → Type κ) → List A → Type κ
  All P [] = Unit
  All P (x ∷ xs) = P x × All P xs

  pub length-append : (xs ys : List A) → length (xs ++ ys) ≡ length xs + length ys
  length-append [] ys = omega arith
  length-append (x ∷ xs) ys = omega (arith, length-append xs ys)

  pub append_snoc : (xs : List A) (x : A) (ys : List A) → (xs ++ x ∷ []) ++ ys ≡ xs ++ x ∷ ys
  append_snoc [] x ys = refl
  append_snoc (z ∷ xs) x ys = ap (◌∷◌ z) (append_snoc xs x ys)

  pub filter-append :
      (p : A → Bool) (xs ys : List A) → filter p (xs ++ ys) ≡ filter p xs ++ filter p ys
  filter-append p [] ys = refl
  filter-append p (x ∷ xs) ys = ground (arith, filter-append p xs ys)

  -- A stronger test keeps the same elements of what a weaker one has kept.
  pub filter-filter :
      (p q : A → Bool) (xs : List A)
      → ((x : A) → p x ≡ true → q x ≡ true)
      → filter p (filter q xs) ≡ filter p xs
  filter-filter p q [] h = refl
  filter-filter p q (x ∷ xs) h = ground (arith, filter-filter p q xs h, h x)

  pub length-filter-le : (p : A → Bool) (xs : List A) → length (filter p xs) ≤ length xs
  length-filter-le p [] = omega arith
  length-filter-le p (x ∷ xs) = ground (arith, length-filter-le p xs)

  pub All-append {κ} : (P : A → Type κ) (xs ys : List A) → All P xs → All P ys → All P (xs ++ ys)
  All-append P [] ys hx hy = hy
  All-append P (x ∷ xs) ys hx hy = (hx.0, All-append P xs ys hx.1 hy)

  pub All-map_pred {κ κ'} :
      (P : A → Type κ) (Q : A → Type κ')
      → ((a : A) → P a → Q a)
      → (xs : List A) → All P xs
      → All Q xs
  All-map_pred P Q f [] h = tt
  All-map_pred P Q f (x ∷ xs) h = (f x h.0, All-map_pred P Q f xs h.1)

  pub filter-All : (p : A → Bool) (xs : List A) → All (λ x. p x ≡ true) xs → filter p xs ≡ xs
  filter-All p [] h = refl
  filter-All p (x ∷ xs) h = rw h.0 (ap (◌∷◌ x) (filter-All p xs h.1))

  pub filter_none : (p : A → Bool) (xs : List A) → All (λ x. p x ≡ false) xs → filter p xs ≡ []
  filter_none p [] h = refl
  filter_none p (x ∷ xs) h = rw h.0 (filter_none p xs h.1)

  pub filter_congr :
      (p q : A → Bool) (xs : List A) → All (λ x. p x ≡ q x) xs → filter p xs ≡ filter q xs
  filter_congr p q [] h = refl
  filter_congr p q (x ∷ xs) h = rw (h.0, filter_congr p q xs h.1)

pub map-filter {ℓ κ} :
    {A : Type ℓ} {B : Type κ} (f : A → B) (p : B → Bool) (xs : List A)
    → map f (filter (λ x. p (f x)) xs) ≡ filter p (map f xs)
map-filter f p [] = refl
map-filter f p (x ∷ xs) = ground (arith, map-filter f p xs)

module _ {ℓ} {A : Type ℓ} where
  abbrev pub drop : ℕ → List A → List A
  drop zero xs = xs
  drop (suc n) [] = []
  drop (suc n) (x ∷ xs) = drop n xs

  abbrev pub take : ℕ → List A → List A
  take zero xs = []
  take (suc n) [] = []
  take (suc n) (x ∷ xs) = x ∷ take n xs

  pub length-drop : (n : ℕ) (xs : List A) → length (drop n xs) ≡ length xs - n
  length-drop zero xs = omega arith
  length-drop (suc n) [] = omega arith
  length-drop (suc n) (x ∷ xs) = omega (arith, length-drop n xs)

  pub drop-append : (n : ℕ) (xs ys : List A) → n ≤ length xs → drop n (xs ++ ys) ≡ drop n xs ++ ys
  drop-append zero xs ys h = refl
  drop-append (suc n) [] ys h = absurd (omega arith)
  drop-append (suc n) (x ∷ xs) ys h = drop-append n xs ys (omega arith)

module _ {ℓ} {A : Type ℓ} where
  abbrev pub get_elem? : List A → ℕ → Option A
  get_elem? [] i = none
  get_elem? (x ∷ xs) zero = some x
  get_elem? (x ∷ xs) (suc i) = get_elem? xs i

  -- A write out of bounds changes nothing.
  abbrev pub set : List A → ℕ → A → List A
  set [] i v = []
  set (x ∷ xs) zero v = v ∷ xs
  set (x ∷ xs) (suc i) v = x ∷ set xs i v

  abbrev put_back : A → Option (A × List A) → Option (A × List A)
  put_back x none = none
  put_back x (some (y, rest)) = some (y, x ∷ rest)

  -- The element at a position, and the others.
  abbrev pub pick : ℕ → List A → Option (A × List A)
  pick i [] = none
  pick zero (x ∷ xs) = some (x, xs)
  pick (suc i) (x ∷ xs) = put_back x (pick i xs)

  abbrev pub sum_by : (A → ℕ) → List A → ℕ
  sum_by f [] = 0
  sum_by f (x ∷ xs) = f x + sum_by f xs

  pub sum_by-append : (f : A → ℕ) (xs ys : List A) → sum_by f (xs ++ ys) ≡ sum_by f xs + sum_by f ys
  sum_by-append f [] ys = omega arith
  sum_by-append f (x ∷ xs) ys = omega (arith, sum_by-append f xs ys)

  pub sum_by-set :
      (f : A → ℕ) (xs : List A) (i : ℕ) (x y : A)
      → get_elem? xs i ≡ some x
      → sum_by f (set xs i y) + f x ≡ sum_by f xs + f y
  sum_by-set f [] i x y h = cc
  sum_by-set f (z ∷ xs) zero x y h = ground arith
  sum_by-set f (z ∷ xs) (suc i) x y h = omega (arith, sum_by-set f xs i x y h)

  pub sum_by-pick :
      (f : A → ℕ) (i : ℕ) (xs : List A) (x : A) (rest : List A)
      → pick i xs ≡ some (x, rest)
      → sum_by f xs ≡ f x + sum_by f rest
  sum_by-pick f i [] x rest h = cc
  sum_by-pick f zero (z ∷ xs) x rest h = ground arith
  sum_by-pick f (suc i) (z ∷ xs) x rest h = picked (pick i xs) (sum_by-pick f i xs x) h
    where
      picked :
          (o : Option (A × List A))
          → ((r : List A) → o ≡ some (x, r) → sum_by f xs ≡ f x + sum_by f r)
          → put_back z o ≡ some (x, rest)
          → f z + sum_by f xs ≡ f x + sum_by f rest
      picked none ih e = cc
      picked (some (y, r)) ih e = ground (arith, ih r)

  length_as_sum : (xs : List A) → length xs ≡ sum_by (λ x. 1) xs
  length_as_sum [] = refl
  length_as_sum (x ∷ xs) = omega (arith, length_as_sum xs)

  pub length-pick :
      (i : ℕ) (xs : List A) (x : A) (rest : List A)
      → pick i xs ≡ some (x, rest)
      → length xs ≡ suc (length rest)
  length-pick i xs x rest h =
      omega (arith, length_as_sum xs, length_as_sum rest, sum_by-pick (λ x. 1) i xs x rest h)

  pub All-set {κ} :
      (P : A → Type κ) (xs : List A) (i : ℕ) (y : A) → All P xs → P y → All P (set xs i y)
  All-set P [] i y a p = tt
  All-set P (x ∷ xs) zero y a p = (p, a.1)
  All-set P (x ∷ xs) (suc i) y a p = (a.0, All-set P xs i y a.1 p)

  pub All-get_elem? {κ} :
      (P : A → Type κ) (xs : List A) (i : ℕ) (x : A) → All P xs → get_elem? xs i ≡ some x → P x
  All-get_elem? P [] i x a h = cc
  All-get_elem? P (z ∷ xs) zero x a h = let e : z ≡ x = cc in subst P e a.0
  All-get_elem? P (z ∷ xs) (suc i) x a h = All-get_elem? P xs i x a.1 h

  abbrev pub Picked {κ} : (A → Type κ) → Option (A × List A) → Type κ
  Picked P none = Unit
  Picked P (some (x, rest)) = P x × All P rest

  put_back-Picked {κ} :
      (P : A → Type κ) (z : A) (o : Option (A × List A))
      → P z
      → Picked P o
      → Picked P (put_back z o)
  put_back-Picked P z none p h = tt
  put_back-Picked P z (some (x, rest)) p h = (h.0, (p, h.1))

  pick-Picked {κ} : (P : A → Type κ) (i : ℕ) (xs : List A) → All P xs → Picked P (pick i xs)
  pick-Picked P i [] a = tt
  pick-Picked P zero (x ∷ xs) a = a
  pick-Picked P (suc i) (x ∷ xs) a = put_back-Picked P x (pick i xs) a.0 (pick-Picked P i xs a.1)

  -- A predicate of all elements holds of the picked one and of the others.
  pub All-pick {κ} :
      (P : A → Type κ) (i : ℕ) (xs : List A) (x : A) (rest : List A)
      → pick i xs ≡ some (x, rest)
      → All P xs
      → P x × All P rest
  All-pick P i xs x rest e a = subst (Picked P) e (pick-Picked P i xs a)

pub sum_by_add {ℓ} :
    {A : Type ℓ} (f g h : A → ℕ)
    → ((x : A) → h x ≡ f x + g x)
    → (xs : List A) → sum_by h xs ≡ sum_by f xs + sum_by g xs
sum_by_add f g h e [] = refl
sum_by_add f g h e (x ∷ xs) = omega (arith, e x, sum_by_add f g h e xs)

pub sum_by_mono {ℓ} :
    {A : Type ℓ} (f g : A → ℕ) → ((x : A) → f x ≤ g x) → (xs : List A) → sum_by f xs ≤ sum_by g xs
sum_by_mono f g h [] = omega arith
sum_by_mono f g h (x ∷ xs) = omega (arith, h x, sum_by_mono f g h xs)
