-- ===== src/RateLimit/Window.antt =====
-- The sliding window lets at most `max_commands` commands through in any window of its length.
use lane.Prelude.{
  ℕ, ◌-◌, ◌≤◌, ◌≡◌, refl, sym, ap, ◌∙◌, Bool, true, false, Option, none, some, List, [], ◌∷◌, ◌++◌,
  ltb, arith, Bool-cases, inl, inr, length, length-append, length-filter-le, filter-append,
  filter-filter, append_snoc, append-nil, subst,
}
use lane.RateLimit.{SlidingWindowLimiter, try_window, live_after, admit}

abbrev granted_then :
    ℕ → (SlidingWindowLimiter → List ℕ) → Option (Bool × SlidingWindowLimiter) → List ℕ
granted_then now rest none = []
granted_then now rest (some (true, l)) = now ∷ rest l
granted_then now rest (some (false, l)) = rest l

-- The instants at which a run of calls lets a command through; a panic ends the run.
unfoldable pub granted : List ℕ → SlidingWindowLimiter → List ℕ
granted [] l = []
granted (now ∷ times) l = granted_then now (granted times) (try_window now l)

-- Instants that do not fall, from `start` on and up to `end`.
abbrev pub Rising : ℕ → List ℕ → ℕ → Type 0
Rising start [] end = start ≤ end
Rising start (t ∷ ts) end = (start ≤ t) × Rising t ts end

Rising-le : (start : ℕ) (ts : List ℕ) (end : ℕ) → Rising start ts end → start ≤ end
Rising-le start [] end h = h
Rising-le start (t ∷ ts) end h = omega (arith, Rising-le t ts end h.1)

-- What has left the window stays out of later windows.
live_later :
    (s s' : ℕ) (xs ys : List ℕ)
    → s ≤ s'
    → live_after s' (live_after s xs ++ ys) ≡ live_after s' (xs ++ ys)
live_later s s' xs ys h =
    filter-append (λ ts. ltb s' ts) (live_after s xs) ys
    ∙ ap (λ zs. zs ++ live_after s' ys)
        (filter-filter (λ ts. ltb s' ts) (λ ts. ltb s ts) xs (λ x e. ground arith))
    ∙ sym (filter-append (λ ts. ltb s' ts) xs ys)

-- The commands in the last window, of those on record and of `gs`, are within the limit.
abbrev Fits : ℕ → SlidingWindowLimiter → List ℕ → Type 0
Fits end l gs = length (live_after (end - l.window) (l.timestamps ++ gs)) ≤ l.max_commands

admit_step :
    (now end : ℕ) (rest : SlidingWindowLimiter → List ℕ) (l : SlidingWindowLimiter)
    → now ≤ end
    → length l.timestamps ≤ l.max_commands
    → ((l' : SlidingWindowLimiter)
        → l'.window ≡ l.window
        → l'.max_commands ≡ l.max_commands
        → length l'.timestamps ≤ l.max_commands
        → Fits end l' (rest l'))
    → Fits end l
        (granted_then now rest (some (admit now l (live_after (now - l.window) l.timestamps))))
admit_step now end rest l h fits ih = elim (Bool-cases (ltb (length live) l.max_commands)) [
  | inl e ↦ rw e (
      subst (λ xs. length xs ≤ l.max_commands)
        (ap (live_after (end - l.window)) (append_snoc live now (rest (pushed l)))
          ∙ live_later (now - l.window) (end - l.window) l.timestamps (now ∷ rest (pushed l))
              (omega arith))
        (ih (pushed l) refl refl (ground (arith, length-append live (now ∷ [])))))
  | inr e ↦ rw e (
      subst (λ xs. length xs ≤ l.max_commands)
        (live_later (now - l.window) (end - l.window) l.timestamps (rest (trimmed l)) (omega arith))
        (ih (trimmed l) refl refl
          (omega (arith, length-filter-le (λ ts. ltb (now - l.window) ts) l.timestamps))))
]
  where
    live : List ℕ
    live = live_after (now - l.window) l.timestamps

    pushed : SlidingWindowLimiter → SlidingWindowLimiter
    pushed k = record k { timestamps = live ++ now ∷ [] }

    trimmed : SlidingWindowLimiter → SlidingWindowLimiter
    trimmed k = record k { timestamps = live }

try_window_runs :
    (now : ℕ) (l : SlidingWindowLimiter)
    → l.window ≤ now
    → try_window now l ≡ some (admit now l (live_after (now - l.window) l.timestamps))
unfolding try_window
try_window_runs now l h = let e : ltb now l.window ≡ false = ground arith in rw e refl

window_lem :
    (times : List ℕ) (start end : ℕ) (l : SlidingWindowLimiter)
    → l.window ≤ start
    → Rising start times end
    → length l.timestamps ≤ l.max_commands
    → Fits end l (granted times l)
unfolding granted
window_lem [] start end l h r fits = omega (
  arith,
  length-filter-le (λ ts. ltb (end - l.window) ts) (l.timestamps ++ []),
  ap length (append-nil l.timestamps),
)
window_lem (now ∷ times) start end l h r fits = rw (try_window_runs now l (omega arith)) (
    admit_step now end (granted times) l (Rising-le now times end r.1) fits
      (λ l' w m f. window_lem times now end l' (omega arith) r.1 (omega arith)))

-- From a limiter that keeps at most `max_commands` instants, such as a new one: over any run of
-- calls whose instants do not fall, and of which none panics since `window ≤ start`, the commands
-- that were let through in the last window before `end`, those on record included, are at most
-- `max_commands`.
pub granted-within :
    (times : List ℕ) (start end : ℕ) (l : SlidingWindowLimiter)
    → length l.timestamps ≤ l.max_commands
    → l.window ≤ start
    → Rising start times end
    → length (live_after (end - l.window) (l.timestamps ++ granted times l)) ≤ l.max_commands
granted-within times start end l fits h r = window_lem times start end l h r fits
