-- ===== src/Thread/Alarm.antt =====
-- The timer interrupt that wakes a thread above the interrupted one.
use spring_os.Prelude.{
  ℕ, ◌+◌, ◌≡◌, refl, sym, ap, subst, ◌∙◌, true, false, some, List, [], ◌∷◌, ◌⊎◌, inl, inr, arith,
  leb, if◌then◌else◌, Bool-cases,
}
use spring_os.Prelude.Outcome.{done, panic, Absurd, ◌>>=◌}
use spring_os.KernelList.Ordered.{All}
use spring_os.Thread.{
  Kernel, earlier, schedule, set_status, enqueue_current, ready, enqueue, thread_yield,
  thread_unblock, wakeup_loop, intr_handler,
}
use spring_os.Thread.Invariant.{Scheduled, false≢true, same_tick}
use spring_os.Thread.Unblock.{preempts, enqueue-Scheduled, thread_unblock-enqueue}
use spring_os.Thread.Wakeup.{
  tick_of, sleepers_left, sleeper_busy, first_out, wakeup_loop-due, wakeup_loop-unblock,
  preempts-enqueue,
}
use spring_os.Thread.Timer.{entered, leave, clocked-Scheduled, intr_handler-entered}

-- Some thread of the list is due, and would preempt the running thread.
abbrev pub Alarm : Kernel → ℕ → List ℕ → Type 0
Alarm k now [] = Absurd
Alarm k now (t ∷ ts) = ((leb (tick_of k t) now ≡ true) × (preempts k t ≡ true)) ⊎ Alarm k now ts

-- The first thread of the list is due before that one.
first_due :
    (k : Kernel) (now t : ℕ) (ts : List ℕ)
    → All (λ j. earlier k.thread j t ≡ false) ts
    → Alarm k now ts
    → leb (tick_of k t) now ≡ true
first_due k now t [] all a = elim a [ ]
first_due k now t (j ∷ ts) all (inl (due, p)) = ground (arith, all.0, due)
first_due k now t (j ∷ ts) all (inr a) = first_due k now t ts all.1 a

Alarm-enqueue :
    (k : Kernel) (now t : ℕ) (ts us : List ℕ)
    → Alarm k now us
    → Alarm (enqueue (sleepers_left k ts) t) now us
Alarm-enqueue k now t ts [] a = a
Alarm-enqueue k now t ts (j ∷ us) (inl (due, p)) = inl (
  subst (λ n. leb n now ≡ true) (sym (same_tick k.thread t ready j)) due,
  preempts-enqueue (sleepers_left k ts) t j ∙ p,
)
Alarm-enqueue k now t ts (j ∷ us) (inr a) = inr (Alarm-enqueue k now t ts us a)

thread_yield-panic : (k : Kernel) → k.in_external ≡ true → thread_yield k ≡ panic
unfolding thread_yield
thread_yield-panic k outside =
    ap (λ b. if b then panic else schedule (set_status (enqueue_current k) k.current ready)) outside

wakeup_loop-panic :
    (k : Kernel) (i now : ℕ) (ts : List ℕ)
    → k.idle_thread ≡ some i
    → k.in_external ≡ true
    → Scheduled (sleepers_left k ts)
    → Alarm k now ts
    → wakeup_loop (sleepers_left k ts) now ts ≡ panic
wakeup_loop-panic k i now [] idle outside ok a = elim a [ ]
wakeup_loop-panic k i now (t ∷ ts) idle outside ok a = elim (Bool-cases (preempts k t)) [
  | inl higher_head ↦
      wakeup_loop-unblock (sleepers_left k (t ∷ ts)) now t ts (head_due a)
      ∙ ap (λ o. o >>= λ k'. wakeup_loop k' now ts) (unblock_panics higher_head)
  | inr calm ↦
      wakeup_loop-due k i t ts idle ok calm now (head_due a)
      ∙ wakeup_loop-panic (enqueue (sleepers_left k ts) t) i now ts idle outside
          (enqueue-Scheduled (sleepers_left k ts) t (first_out k t ts ok) ok.queues.sleep_status.0
            ok.queues.sleep_once.0 (sleeper_busy k i t ts idle ok))
          (Alarm-enqueue k now t ts ts (behind calm a))
]
  where
    head_due : Alarm k now (t ∷ ts) → leb (tick_of k t) now ≡ true
    head_due (inl (due, p)) = due
    head_due (inr a') = first_due k now t ts ok.queues.sleep_order.0 a'

    behind : preempts k t ≡ false → Alarm k now (t ∷ ts) → Alarm k now ts
    behind calm (inl (due, p)) = absurd (false≢true (sym calm ∙ p))
    behind calm (inr a') = a'

    unblock_panics : preempts k t ≡ true → thread_unblock (sleepers_left k ts) t ≡ panic
    unblock_panics p =
        thread_unblock-enqueue (sleepers_left k ts) t (first_out k t ts ok) ok.queues.sleep_status.0
          ok.queues.sleep_once.0 (sleeper_busy k i t ts idle ok)
        ∙ ap
            (λ b.
              if b
              then thread_yield (enqueue (sleepers_left k ts) t)
              else done (enqueue (sleepers_left k ts) t))
            p
        ∙ thread_yield-panic (enqueue (sleepers_left k ts) t) outside

-- In a scheduled kernel outside an interrupt, if some sleeper that is due at the next tick would
-- preempt the running thread (which is not idle and has a lower priority), the timer interrupt
-- panics.
pub intr_handler-panic :
    (k : Kernel) (i : ℕ)
    → k.idle_thread ≡ some i
    → Scheduled k
    → k.in_external ≡ false
    → Alarm k (k.ticks + 1) k.sleeping_list
    → intr_handler k ≡ panic
intr_handler-panic k i idle ok inside a =
    intr_handler-entered k inside
    ∙ ap (λ o. o >>= leave)
        (wakeup_loop-panic (entered k) i (k.ticks + 1) k.sleeping_list idle refl
          (clocked-Scheduled k _ _ _ _ ok) (same_alarm k.sleeping_list a))
  where
    same_alarm : (ts : List ℕ) → Alarm k (k.ticks + 1) ts → Alarm (entered k) (k.ticks + 1) ts
    same_alarm [] x = x
    same_alarm (t ∷ ts) (inl x) = inl x
    same_alarm (t ∷ ts) (inr x) = inr (same_alarm ts x)
