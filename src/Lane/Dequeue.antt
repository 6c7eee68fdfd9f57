-- ===== src/Lane/Dequeue.antt =====
-- What `Lane::try_dequeue` hands out, and what it pays for it.
use lane.Prelude.{
  ◌+◌, ◌-◌, ◌<◌, ◌≡◌, refl, sym, true, false, not, ◌&&◌, Option, none, some, List, [], ◌∷◌, arith,
  length, ltb, ◌==◌, Bool-cases, inl, inr,
}
use lane.Lane.{
  Env, Now, Fl, Lane, CommandWrapper, has_capacity, has_pending, dequeue, try_dequeue, acquire,
}
use lane.RateLimit.{TokenBucketLimiter, refill, try_bucket, take_token}
use lane.Dlq.{front, behind}

module _ {F : Type 0} where
  abbrev pub Fifo : Lane F → Option (CommandWrapper F) × Lane F → Type 0
  Fifo l (none, l') = (l'.pending ≡ l.pending) × (l'.active ≡ l.active)
  Fifo l (some w, l') =
      (l.pending ≡ w ∷ l'.pending)
      × (l'.active ≡ l.active + 1)
      × (l.active < l.config.max_concurrency)

  taken-Fifo :
      (l : Lane F) (ws : List (CommandWrapper F))
      → ws ≡ l.pending
      → not (length ws == 0) ≡ true
      → l.active < l.config.max_concurrency
      → Fifo l (
        front ws,
        record l { state = record l.state { active = l.active + 1; pending = behind ws } },
      )
  taken-Fifo l [] e n h = cc
  taken-Fifo l (w ∷ ws) e n h = (sym e, refl, h)

  dequeue-Fifo : (l : Lane F) → Fifo l (dequeue l)
  unfolding dequeue
  dequeue-Fifo l =
      elim (Bool-cases (ltb l.active l.config.max_concurrency && not (length l.pending == 0))) [
        | inl e ↦ rw e (taken-Fifo l l.pending refl (ground arith) (ground arith))
        | inr e ↦ rw e (refl, refl)
      ]

  dequeue_idle :
      (l : Lane F) → has_capacity l.state && has_pending l.state ≡ false → dequeue l ≡ (none, l)
  unfolding dequeue
  dequeue_idle l e = rw e refl

module _ (env : Env) where
  take_token_some :
      (b : TokenBucketLimiter (Fl env))
      → 0 < b.tokens
      → take_token env.float b ≡ (true, record b { tokens = b.tokens - 1 })
  unfolding take_token
  take_token_some b h = elim (Bool-cases (b.tokens == 0)) [
    | inl e ↦ ground arith
    | inr e ↦ rw e refl
  ]

  -- A dequeued command is the one that has waited longest, and the lane had room for it; if none is
  -- dequeued, the lane's commands and its count of active ones are as before.
  pub try_dequeue-Fifo : (now : Now) (l : Lane (Fl env)) → Fifo l (try_dequeue env now l)
  unfolding try_dequeue
  try_dequeue-Fifo now l = elim (Bool-cases (acquire env now l.rate_limiter).0) [
    | inl e ↦ rw e (dequeue-Fifo (record l { rate_limiter = (acquire env now l.rate_limiter).1 }))
    | inr e ↦ rw e (refl, refl)
  ]

  -- A lane that has no command to give, for lack of one or of room, still pays a token of its
  -- bucket, if the bucket has one, each time that the scheduler asks it.
  pub try_dequeue_pays :
      (now : Now) (l : Lane (Fl env)) (b : TokenBucketLimiter (Fl env))
      → l.rate_limiter ≡ some b
      → has_capacity l.state && has_pending l.state ≡ false
      → 0 < (refill env.float now.instant b).tokens
      → let paid = refill env.float now.instant b in
        try_dequeue env now l
        ≡ (none, record l { rate_limiter = some (record paid { tokens = paid.tokens - 1 }) })
  unfolding try_dequeue try_bucket
  try_dequeue_pays now l b e i h =
      rw (e, take_token_some (refill env.float now.instant b) h, i) refl
