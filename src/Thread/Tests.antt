-- ===== src/Thread/Tests.antt =====
-- Runs of the scheduler on a small kernel: thread 1 runs, 2 is ready, 4 and 5 sleep, 0 is idle.
use spring_os.Prelude.{
  ℕ, ◌≤◌, ◌≡◌, refl, sym, subst, Bool, true, false, some, [], ◌∷◌, arith, ◌==◌, if◌then◌else◌, inl,
  inr,
}
use spring_os.Prelude.Outcome.{panic, Returns}
use spring_os.Thread.{
  thread_yield, thread_unblock, thread_to_sleep, thread_set_priority, intr_handler, Status, running,
  ready, blocked, Thread, Kernel,
}
use spring_os.Thread.Invariant.{Absent, Scheduled, false≢true, ready≢blocked}
use spring_os.Thread.Switch.{Switched, ready≢running, thread_yield-Switched}
use spring_os.Thread.Unblock.{Fair, Unblocked, thread_unblock-Unblocked}
use spring_os.Thread.Timer.{Ticked, intr_handler-Ticked}
use spring_os.Thread.Alarm.{intr_handler-panic}
use spring_os.Thread.Sleep.{Slept, thread_to_sleep-Slept}
use spring_os.Thread.Priority.{Reprioritised, thread_set_priority-Reprioritised}

abbrev pub status_by : Bool → Bool → Status
status_by runs waits = if runs then running else (if waits then ready else blocked)

abbrev pub status : ℕ → Status
status j = status_by (j == 1) (j == 2)

ready_waits : (runs waits : Bool) → status_by runs waits ≡ ready → waits ≡ true
ready_waits runs true e = refl
ready_waits true false e = absurd (ready≢running (sym e))
ready_waits false false e = absurd (ready≢blocked (sym e))

idle_zero : (i : ℕ) → some 0 ≡ some i → 0 ≡ i
idle_zero i e = cc

-- Thread 5 is above thread 1, and thread 4 below.
abbrev pub thread : ℕ → Thread
thread j = record {
  status = status j;
  priority = if j == 0 then 0 else (if j == 5 then 63 else 31);
  origin_priority = if j == 0 then 0 else (if j == 5 then 63 else 31);
  morning_tick = if j == 5 then 9 else 5;
}

abbrev pub kernel : ℕ → Kernel
kernel now = record {
  thread = thread;
  current = 1;
  idle_thread = some 0;
  ready_list = 2 ∷ [];
  sleeping_list = 4 ∷ (5 ∷ []);
  thread_ticks = 3;
  ticks = now;
  in_external = false;
  yield_on_return = false;
}

pub kernel-Scheduled : (now : ℕ) → Scheduled (kernel now)
kernel-Scheduled now = record {
  queues = record {
    ready_order = (tt, tt);
    ready_status = (refl, tt);
    ready_once = (tt, tt);
    sleep_order = ((refl, tt), (tt, tt));
    sleep_status = (refl, (refl, tt));
    sleep_once = ((refl, tt), (tt, tt));
    idle_apart = λ i e.
        subst (λ j. Absent j (2 ∷ []) × Absent j (4 ∷ (5 ∷ []))) (idle_zero i e)
          ((refl, tt), (refl, (refl, tt)));
  };
  current_runs = refl;
  kept = λ j e active. rw (ready_waits (j == 1) (j == 2) e) refl;
}

pub kernel-Fair : (now : ℕ) → Fair (kernel now)
kernel-Fair now active = (as_high, tt)
  where
    as_high : 31 ≤ 31
    as_high = omega arith

thread_yield-Switched_example : Returns (Switched (kernel 4)) (thread_yield (kernel 4))
thread_yield-Switched_example = thread_yield-Switched (kernel 4) (kernel-Scheduled 4) 0 refl refl

-- Thread 3 waits in neither queue and is blocked.
thread_unblock-Unblocked_example : Returns (Unblocked 3 (kernel 4)) (thread_unblock (kernel 4) 3)
thread_unblock-Unblocked_example =
    thread_unblock-Unblocked (kernel 4) 3 (kernel-Scheduled 4) refl (refl, (refl, tt)) refl 0 refl
      refl (kernel-Fair 4)

intr_handler-Ticked_example : Returns (Ticked (kernel 4)) (intr_handler (kernel 4))
intr_handler-Ticked_example =
    intr_handler-Ticked (kernel 4) 0 refl (kernel-Scheduled 4) (kernel-Fair 4) refl
      ((λ due. refl), ((λ due. absurd (false≢true due)), tt))

intr_handler-panic_example : intr_handler (kernel 8) ≡ panic
intr_handler-panic_example =
    intr_handler-panic (kernel 8) 0 refl (kernel-Scheduled 8) refl (inr (inl (refl, refl)))

thread_to_sleep-Slept_example : Returns (Slept 7 (kernel 4)) (thread_to_sleep (kernel 4) 7)
thread_to_sleep-Slept_example =
    thread_to_sleep-Slept (kernel 4) (kernel-Scheduled 4) 0 7 refl refl refl

thread_set_priority-Reprioritised_example :
    Returns (Reprioritised 20 (kernel 4)) (thread_set_priority (kernel 4) 20)
thread_set_priority-Reprioritised_example =
    thread_set_priority-Reprioritised (kernel 4) (kernel-Scheduled 4) 0 20 refl refl
