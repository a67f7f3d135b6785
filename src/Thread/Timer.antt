-- ===== src/Thread/Timer.antt =====
-- The timer interrupt as a whole: the tick, the sleepers that wake, and the yield at its end.
use spring_os.Prelude.{
  ℕ, ◌+◌, ◌≡◌, refl, sym, ap, subst, ◌∙◌, Bool, true, false, some, List, [], ◌∷◌, leb, ◌==◌,
  if◌then◌else◌, Bool-cases, inl, inr,
}
use spring_os.Prelude.Outcome.{Outcome, done, panic, Returns, Returns-bind, Returns-mono, ◌>>=◌}
use spring_os.Thread.{
  time_slice, Kernel, thread_yield, thread_tick, wakeup_loop, thread_to_wakeup, timer_interrupt,
  intr_handler,
}
use spring_os.Thread.Invariant.{Absent, Highest, Scheduled, false≢true}
use spring_os.Thread.Switch.{Switched, current-Absent, thread_yield-Switched}
use spring_os.Thread.Unblock.{Fair}
use spring_os.Thread.Wakeup.{tick_of, not_due, Awake, Calm, Woken, wakeup_loop-Woken}

-- After the timer interrupt: the due sleepers are awake, the others sleep on.
pub record Ticked (k k' : Kernel) : Type 0 where
  pub scheduled : Scheduled k'
  pub fair : Fair k'
  pub sleepers : k'.sleeping_list ≡ not_due (tick_of k) (k.ticks + 1) k.sleeping_list
  pub awake : Awake (tick_of k) (k.ticks + 1) k.sleeping_list k'
  pub sliced : leb time_slice (k.thread_ticks + 1) ≡ true → Highest k'

-- `k` with other clocks and interrupt flags.
abbrev pub clocked : Kernel → Bool → Bool → ℕ → ℕ → Kernel
clocked k external yield slice now = record k {
  in_external = external;
  yield_on_return = yield;
  thread_ticks = slice;
  ticks = now;
}

pub clocked-Scheduled :
    (k : Kernel) (external yield : Bool) (slice now : ℕ)
    → Scheduled k
    → Scheduled (clocked k external yield slice now)
clocked-Scheduled k external yield slice now ok = record {
  queues = record {
    ready_order = ok.queues.ready_order;
    ready_status = ok.queues.ready_status;
    ready_once = ok.queues.ready_once;
    sleep_order = ok.queues.sleep_order;
    sleep_status = ok.queues.sleep_status;
    sleep_once = ok.queues.sleep_once;
    idle_apart = ok.queues.idle_apart;
  };
  current_runs = ok.current_runs;
  kept = ok.kept;
}

abbrev inside_again : Kernel → Kernel
inside_again k = record k { in_external = false }

-- The state in which the handler wakes the sleepers, and the end of `intr_handler`.
abbrev pub entered : Kernel → Kernel
entered k = clocked k true (leb time_slice (k.thread_ticks + 1)) (k.thread_ticks + 1) (k.ticks + 1)

abbrev pub leave : Kernel → Outcome Kernel
leave k =
    let left = record k { in_external = false } in
    if left.yield_on_return then thread_yield left else done left

if_same : (b : Bool) → (if b then true else false) ≡ b
if_same true = refl
if_same false = refl

pub intr_handler-entered :
    (k : Kernel)
    → k.in_external ≡ false
    → intr_handler k ≡ (wakeup_loop (entered k) (k.ticks + 1) k.sleeping_list >>= leave)
unfolding intr_handler timer_interrupt thread_tick thread_to_wakeup
intr_handler-entered k inside =
    ap
      (λ b.
        if b
        then panic
        else (timer_interrupt (record k { in_external = true; yield_on_return = false }) >>= leave))
      inside
    ∙ ap
        (λ b.
          wakeup_loop (clocked k true b (k.thread_ticks + 1) (k.ticks + 1)) (k.ticks + 1)
            k.sleeping_list
          >>= leave)
        (if_same (leb time_slice (k.thread_ticks + 1)))

module _ (k : Kernel) (i : ℕ) (idle : k.idle_thread ≡ some i) (ok : Scheduled k) where
  Awake-Switched :
      (k₁ k₂ : Kernel) (ts : List ℕ)
      → k₁.current ≡ k.current
      → Absent k.current ts
      → Awake (tick_of k) (k.ticks + 1) ts k₁
      → Switched k₁ k₂
      → Awake (tick_of k) (k.ticks + 1) ts k₂
  Awake-Switched k₁ k₂ [] same out awake s = tt
  Awake-Switched k₁ k₂ (t ∷ ts) same out awake s = (
    λ due. s.woken t (ap (λ c. c == t) same ∙ out.0) (awake.0 due),
    Awake-Switched k₁ k₂ ts same out.1 awake.1 s,
  )

  -- In a scheduled kernel outside an interrupt, in which the running thread is idle or as high as
  -- every ready thread, and no sleeper that is due at the next tick would preempt it, the timer
  -- interrupt returns: exactly the sleepers that are not due stay in the sleeping list, in their
  -- order, every sleeper that is due is no longer blocked, the kernel is scheduled (ordered queues
  -- that hold every thread once and agree with the status of their threads, the idle thread in
  -- none, every ready thread that is not idle in the ready list) and its running thread is again
  -- idle or as high as every ready thread; at the end of a time slice the latter holds for the
  -- idle thread too.
  pub intr_handler-Ticked :
      Fair k
      → k.in_external ≡ false
      → Calm k (k.ticks + 1) k.sleeping_list
      → Returns (Ticked k) (intr_handler k)
  intr_handler-Ticked fair inside calm =
      subst (Returns (Ticked k)) (sym (intr_handler-entered k inside)) (
        Returns-bind (Woken (k.ticks + 1) k.sleeping_list (entered k)) (Ticked k)
          (wakeup_loop (entered k) (k.ticks + 1) k.sleeping_list) leave
          (wakeup_loop-Woken (entered k) i (k.ticks + 1) k.sleeping_list idle
            (clocked-Scheduled k _ _ _ _ ok) fair calm)
          leaves)
    where
      leaves :
          (k' : Kernel)
          → Woken (k.ticks + 1) k.sleeping_list (entered k) k'
          → Returns (Ticked k) (leave k')
      leaves k' w = elim (Bool-cases k'.yield_on_return) [
        | inl over ↦
            subst (Returns (Ticked k))
              (sym (
                ap (λ b. if b then thread_yield (inside_again k') else done (inside_again k'))
                  over))
              (Returns-mono _ _ (thread_yield (inside_again k'))
                (thread_yield-Switched (inside_again k') (clocked-Scheduled k' _ _ _ _ w.scheduled)
                  i (w.same_idle ∙ idle) refl)
                (λ k'' s. record {
                  scheduled = s.scheduled;
                  fair = λ _. s.highest;
                  sleepers = s.sleepers ∙ w.sleepers;
                  awake =
                      Awake-Switched (inside_again k') k'' k.sleeping_list w.same_current
                        (current-Absent k ok i idle).1 w.awake s;
                  sliced = λ _. s.highest;
                }))
        | inr within ↦
            subst (Returns (Ticked k))
              (sym (
                ap (λ b. if b then thread_yield (inside_again k') else done (inside_again k'))
                  within))
              (record {
                scheduled = clocked-Scheduled k' _ _ _ _ w.scheduled;
                fair = w.fair;
                sleepers = w.sleepers;
                awake = w.awake;
                sliced = λ over. absurd (false≢true (sym within ∙ w.same_request ∙ over));
              })
      ]
