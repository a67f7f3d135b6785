-- ===== src/InterruptQueue/Signal.antt =====
-- `signal` of pintos/src/devices/intq.c over the scheduler.
use spring_os.Prelude.{
  ℕ, ◌≡◌, refl, sym, ap, subst, ◌∙◌, false, Option, none, some, ◌⊎◌, inl, inr, ◌==◌, if◌then◌else◌,
}
use spring_os.Prelude.Outcome.{done, Returns, Returns-bind}
use spring_os.Thread.{Kernel, enqueue, thread_unblock, thread_yield}
use spring_os.Thread.Invariant.{Scheduled}
use spring_os.Thread.Unblock.{
  Fair, Unblocked, preempts, thread_unblock-enqueue, enqueue-Unblocked, thread_unblock-Unblocked,
}
use spring_os.Synch.Sema.{Waits}
use spring_os.InterruptQueue.{signal}

-- A thread that can be woken: in an interrupt it must not be above the running thread.
pub record Wakeable (k : Kernel) (t : ℕ) : Type 0 where
  pub scheduled : Scheduled k
  pub fair : Fair k
  pub waits : Waits k t
  pub idle : (i : ℕ) × (k.idle_thread ≡ some i)
  pub allowed : (k.in_external ≡ false) ⊎ (preempts k t ≡ false)

-- Nobody waits, or the waiter is awake and forgotten, unless another thread runs now.
pub data Signalled (k : Kernel) (waiter : Option ℕ) : Option ℕ → Kernel → Type 0 where
  nobody : waiter ≡ none → Signalled k waiter none k
  woke :
      (t : ℕ) {k' : Kernel}
      → waiter ≡ some t
      → Unblocked t k k'
      → Signalled k waiter (if k'.current == k.current then none else some t) k'

wakes : (k : Kernel) (t : ℕ) → Wakeable k t → Returns (Unblocked t k) (thread_unblock k t)
wakes k t can =
    let (stopped, out, busy) = can.waits in
    elim (can.allowed) [
      | inl inside ↦
          thread_unblock-Unblocked k t can.scheduled stopped out busy (can.idle).0 (can.idle).1
            inside can.fair
      | inr calm ↦
          subst (Returns (Unblocked t k))
            (sym (
              thread_unblock-enqueue k t can.scheduled stopped out busy
              ∙ ap (λ b. if b then thread_yield (enqueue k t) else done (enqueue k t)) calm))
            (enqueue-Unblocked k t can.scheduled stopped out busy can.fair calm)
    ]

pub signal-Signalled :
    (k : Kernel) (waiter : Option ℕ)
    → ((t : ℕ) → waiter ≡ some t → Wakeable k t)
    → Returns (λ (w, k'). Signalled k waiter w k') (signal k waiter)
unfolding signal
signal-Signalled k none can = nobody refl
signal-Signalled k (some t) can =
    Returns-bind _ _ (thread_unblock k t) _ (wakes k t (can t refl)) λ k' awake. woke t refl awake
