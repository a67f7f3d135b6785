-- ===== src/Thread/Unblock.antt =====
-- `thread_unblock`: a blocked thread becomes ready, and preempts a lower one.
use spring_os.Prelude.{
  ℕ, ◌≤◌, ◌≡◌, refl, sym, ap, subst, ◌∙◌, Bool, false, not, ◌&&◌, some, arith, ltb, ◌==◌,
  if◌then◌else◌, ltb→ge, Bool-cases, inl, inr, ==→eq, ==_refl,
}
use spring_os.Prelude.Outcome.{done, panic, Returns, Returns-mono}
use spring_os.KernelList.Ordered.{All-mono, insert-All}
use spring_os.Thread.{
  ready, blocked, Kernel, priority_of, status_of, higher, is_idle, is_blocked, enqueue,
  thread_yield, thread_unblock,
}
use spring_os.Thread.Invariant.{
  Absent, Highest, Scheduled, ready≢blocked, Absent-status, enqueue-Queues, enqueue-Kept,
  same_priority, higher-StrictWeak,
}
use spring_os.Thread.Switch.{blocked≢running, thread_yield-Switched}

-- A thread that is not idle runs only while it is as high as every ready thread.
abbrev pub Fair : Kernel → Type 0
Fair k = is_idle k k.current ≡ false → Highest k

-- `t` is awake, and the sleeping list is as before.
pub record Unblocked (t : ℕ) (k k' : Kernel) : Type 0 where
  pub scheduled : Scheduled k'
  pub fair : Fair k'
  pub awake : is_blocked (status_of k' t) ≡ false
  pub sleepers : k'.sleeping_list ≡ k.sleeping_list

-- The test of `thread_unblock` for a switch to `t`.
abbrev pub preempts : Kernel → ℕ → Bool
preempts k t = not (is_idle k k.current) && ltb (priority_of k k.current) (priority_of k t)

module _ (k : Kernel) (t : ℕ) (ok : Scheduled k) (stopped : status_of k t ≡ blocked)
    (out : Absent t k.sleeping_list) (busy : is_idle k t ≡ false) where
  current_other : (t == k.current) ≡ false
  current_other = elim (Bool-cases (t == k.current)) [
    | inl hit ↦
        absurd (
          blocked≢running
            (sym stopped ∙ ap (status_of k) (==→eq t k.current hit) ∙ ok.current_runs))
    | inr miss ↦ miss
  ]

  pub enqueue-Scheduled : Scheduled (enqueue k t)
  enqueue-Scheduled = record {
    queues =
        enqueue-Queues k t ok.queues
          (Absent-status k.thread t ready k.ready_list (λ e. ready≢blocked (sym e ∙ stopped))
            ok.queues.ready_status)
          out busy;
    current_runs = rw (current_other, status_of) ok.current_runs;
    kept = enqueue-Kept k t ok.kept;
  }

  enqueue-Highest : Highest k → priority_of k t ≤ priority_of k k.current → Highest (enqueue k t)
  enqueue-Highest high h =
      insert-All (higher k.thread) (higher-StrictWeak k.thread) _ t k.ready_list (below t h)
        (All-mono _ _ k.ready_list below high)
    where
      below :
          (j : ℕ)
          → priority_of k j ≤ priority_of k k.current
          → priority_of (enqueue k t) j ≤ priority_of (enqueue k t) k.current
      below j h' =
          subst (λ p. p ≤ priority_of (enqueue k t) k.current)
            (sym (same_priority k.thread t ready j))
            (subst (λ p. priority_of k j ≤ p) (sym (same_priority k.thread t ready k.current)) h')

  pub thread_unblock-enqueue :
      thread_unblock k t ≡ (if preempts k t then thread_yield (enqueue k t) else done (enqueue k t))
  unfolding thread_unblock
  thread_unblock-enqueue =
      ap
        (λ b.
          if b
          then (if preempts k t then thread_yield (enqueue k t) else done (enqueue k t))
          else panic)
        (ap is_blocked stopped)

  pub enqueue-Unblocked : Fair k → preempts k t ≡ false → Unblocked t k (enqueue k t)
  enqueue-Unblocked fair calm = record {
    scheduled = enqueue-Scheduled;
    fair = λ active. enqueue-Highest (fair active) (not_above active);
    awake = rw (==_refl t, status_of) refl;
    sleepers = refl;
  }
    where
      not_above : is_idle k k.current ≡ false → priority_of k t ≤ priority_of k k.current
      not_above active = ltb→ge _ _ (
          subst (λ b. (not b && ltb (priority_of k k.current) (priority_of k t)) ≡ false) active
            calm)

  -- In a scheduled kernel outside an interrupt, in which the running thread is idle or as high as
  -- every ready thread, thread_unblock of a blocked thread that is not asleep and not the idle
  -- thread returns: the thread is no longer blocked, the sleeping list is as before, the kernel is
  -- scheduled and its running thread is idle or as high as every ready thread.
  pub thread_unblock-Unblocked :
      (i : ℕ)
      → k.idle_thread ≡ some i
      → k.in_external ≡ false
      → Fair k
      → Returns (Unblocked t k) (thread_unblock k t)
  thread_unblock-Unblocked i idle inside fair =
      subst (Returns (Unblocked t k)) (sym thread_unblock-enqueue)
        (elim (Bool-cases (preempts k t)) [
          | inl h ↦ subst If (sym h) (
              Returns-mono _ _ (thread_yield (enqueue k t))
                (thread_yield-Switched (enqueue k t) enqueue-Scheduled i idle inside)
                (λ k' s. record {
                  scheduled = s.scheduled;
                  fair = λ active. s.highest;
                  awake =
                      s.woken t (ground (arith, current_other)) (rw (==_refl t, status_of) refl);
                  sleepers = s.sleepers;
                }))
          | inr h ↦ subst If (sym h) (enqueue-Unblocked fair h)
        ])
    where
      If : Bool → Type 0
      If b = Returns (Unblocked t k) (if b then thread_yield (enqueue k t) else done (enqueue k t))
