-- ===== src/Dlq/History.antt =====
-- What a dead letter queue holds after a history of pushes: the latest letters.
use lane.Prelude.{
  ℕ, suc, ◌-◌, ◌≤◌, ◌≡◌, sym, ap, ◌∙◌, List, [], ◌∷◌, ◌++◌, arith, length, length-append, leb, max,
  Bool-cases, inl, inr, drop, append_snoc, append-nil,
}
use lane.Dlq.{DeadLetter, DeadLetterQueue, push, new, list}

-- At least one letter fits: a push to a full queue evicts one letter and then adds one.
abbrev pub capacity : DeadLetterQueue → ℕ
capacity q = max 1 q.max_size

unfoldable pub push_all : List DeadLetter → DeadLetterQueue → DeadLetterQueue
push_all [] q = q
push_all (x ∷ xs) q = push_all xs (push x q)

-- The last `n` elements.
abbrev pub latest {ℓ} : {A : Type ℓ} → ℕ → List A → List A
latest n xs = drop (length xs - n) xs

latest-cons {ℓ} :
    {A : Type ℓ} (n : ℕ) (x : A) (xs : List A) → n ≤ length xs → latest n (x ∷ xs) ≡ latest n xs
latest-cons n x xs h =
    let e : suc (length xs) - n ≡ suc (length xs - n) = omega arith in ap (λ k. drop k (x ∷ xs)) e

latest_all {ℓ} : {A : Type ℓ} (n : ℕ) (xs : List A) → length xs ≤ n → latest n xs ≡ xs
latest_all n xs h = let e : length xs - n ≡ 0 = omega arith in ap (λ k. drop k xs) e

-- A push to a queue within its capacity keeps it there.
push-within :
    (x : DeadLetter) (n : ℕ) (ls : List DeadLetter)
    → length ls ≤ max 1 n
    → length (push x (record { letters = ls; max_size = n })).letters ≤ max 1 n
unfolding push
push-within x n [] h = ground arith
push-within x n (y ∷ ys) h =
    ground (arith, length-append ys (x ∷ []), length-append (y ∷ ys) (x ∷ []))

latest-push :
    (x : DeadLetter) (n : ℕ) (ls rest : List DeadLetter)
    → length ls ≤ max 1 n
    → latest (max 1 n) ((push x (record { letters = ls; max_size = n })).letters ++ rest)
      ≡ latest (max 1 n) (ls ++ x ∷ rest)
unfolding push
latest-push x n [] rest h = ground arith
latest-push x n (y ∷ ys) rest h = elim (Bool-cases (leb n (suc (length ys)))) [
  | inl e ↦ rw e (
      ap (latest (max 1 n)) (append_snoc ys x rest)
      ∙ sym
          (latest-cons (max 1 n) y (ys ++ x ∷ rest) (ground (arith, length-append ys (x ∷ rest)))))
  | inr e ↦ rw e (ap (latest (max 1 n)) (append_snoc (y ∷ ys) x rest))
]

history :
    (xs : List DeadLetter) (n : ℕ) (ls : List DeadLetter)
    → length ls ≤ max 1 n
    → (push_all xs (record { letters = ls; max_size = n })).letters ≡ latest (max 1 n) (ls ++ xs)
unfolding push_all push
history [] n ls h = rw append-nil (sym (latest_all (max 1 n) ls h))
history (x ∷ xs) n ls h =
    history xs n (push x (record { letters = ls; max_size = n })).letters (push-within x n ls h)
    ∙ latest-push x n ls xs h

-- From a new queue of any size, after any pushes: the queue lists the latest letters, in the order
-- of their pushes, as many as its size but at least one.
pub push_all-new : (n : ℕ) (xs : List DeadLetter) → list (push_all xs (new n)) ≡ latest (max 1 n) xs
unfolding list new
push_all-new n xs = history xs n [] (omega arith)
