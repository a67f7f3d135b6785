-- ===== src/Thread/Wakeup.antt =====
-- `thread_to_wakeup`: what the timer interrupt wakes.
use mathlib.Core.Path.{fun_ext}
use spring_os.Prelude.{
  ℕ, ◌≡◌, ◌≢◌, refl, sym, ap, ap₂, subst, ◌∙◌, Bool, true, false, not, ◌&&◌, none, some, List, [],
  ◌∷◌, arith, ltb, leb, ◌==◌, if◌then◌else◌, Bool-cases, inl, inr,
}
use spring_os.Prelude.Outcome.{Outcome, done, Returns, Returns-mono, ◌>>=◌}
use spring_os.KernelList.Ordered.{All, All-mono}
use spring_os.Thread.{
  ready, Thread, Kernel, status_of, earlier, is_idle, is_blocked, enqueue, thread_yield,
  thread_unblock, wakeup_loop,
}
use spring_os.Thread.Invariant.{Scheduled, same_priority, same_tick}
use spring_os.Thread.Unblock.{Fair, Unblocked, preempts, thread_unblock-enqueue, enqueue-Unblocked}

abbrev pub tick_of : Kernel → ℕ → ℕ
tick_of k t = (k.thread t).morning_tick

-- The threads of a list that have to sleep on.
abbrev pub not_due : (ℕ → ℕ) → ℕ → List ℕ → List ℕ
not_due tick now [] = []
not_due tick now (t ∷ ts) =
    if leb (tick t) now then not_due tick now ts else t ∷ not_due tick now ts

-- Every thread of the list that is due is awake.
abbrev pub Awake : (ℕ → ℕ) → ℕ → List ℕ → Kernel → Type 0
Awake tick now ts k = All (λ t. leb (tick t) now ≡ true → is_blocked (status_of k t) ≡ false) ts

-- No thread of the list that is due would preempt the running thread.
abbrev pub Calm : Kernel → ℕ → List ℕ → Type 0
Calm k now = All (λ t. leb (tick_of k t) now ≡ true → preempts k t ≡ false)

pub record Woken (now : ℕ) (ts : List ℕ) (k k' : Kernel) : Type 0 where
  pub scheduled : Scheduled k'
  pub fair : Fair k'
  pub sleepers : k'.sleeping_list ≡ not_due (tick_of k) now ts
  pub awake : Awake (tick_of k) now ts k'
  pub still_awake :
      (j : ℕ) → is_blocked (status_of k j) ≡ false → is_blocked (status_of k' j) ≡ false
  pub same_current : k'.current ≡ k.current
  pub same_idle : k'.idle_thread ≡ k.idle_thread
  pub same_request : k'.yield_on_return ≡ k.yield_on_return

-- In an ordered list, nothing is due behind a thread that is not.
none_due :
    (thread : ℕ → Thread) (now t : ℕ) (ts : List ℕ)
    → leb (thread t).morning_tick now ≡ false
    → All (λ j. earlier thread j t ≡ false) ts
    → All (λ j. leb (thread j).morning_tick now ≡ false) ts
none_due thread now t [] late all = tt
none_due thread now t (j ∷ ts) late all =
    (ground (arith, all.0), none_due thread now t ts late all.1)

not_due-none :
    (tick : ℕ → ℕ) (now : ℕ) (ts : List ℕ)
    → All (λ j. leb (tick j) now ≡ false) ts
    → not_due tick now ts ≡ ts
not_due-none tick now [] late = refl
not_due-none tick now (t ∷ ts) late = rw (late.0, not_due-none tick now ts late.1) refl

Awake-none :
    (tick : ℕ → ℕ) (now : ℕ) (ts : List ℕ) (k : Kernel)
    → All (λ j. leb (tick j) now ≡ false) ts
    → Awake tick now ts k
Awake-none tick now ts k late = All-mono _ _ ts (λ j e due. absurd (true≢false (sym due ∙ e))) late
  where
    true≢false : true ≢ false
    true≢false = cc

pub preempts-enqueue : (k : Kernel) (t j : ℕ) → preempts (enqueue k t) j ≡ preempts k j
preempts-enqueue k t j =
    ap₂ (λ a b. not (is_idle k k.current) && ltb a b) (same_priority k.thread t ready k.current)
      (same_priority k.thread t ready j)

still_blocked-enqueue :
    (k : Kernel) (t j : ℕ)
    → is_blocked (status_of k j) ≡ false
    → is_blocked (status_of (enqueue k t) j) ≡ false
still_blocked-enqueue k t j h = elim (Bool-cases (t == j)) [
  | inl hit ↦ rw (hit, status_of) refl
  | inr miss ↦ rw (miss, status_of) h
]

-- The first sleeper leaves the list.
pub first_out :
    (k : Kernel) (t : ℕ) (ts : List ℕ)
    → Scheduled (record k { sleeping_list = t ∷ ts })
    → Scheduled (record k { sleeping_list = ts })
first_out k t ts ok = record {
  queues = record {
    ready_order = ok.queues.ready_order;
    ready_status = ok.queues.ready_status;
    ready_once = ok.queues.ready_once;
    sleep_order = ok.queues.sleep_order.1;
    sleep_status = ok.queues.sleep_status.1;
    sleep_once = ok.queues.sleep_once.1;
    idle_apart = λ i e. ((ok.queues.idle_apart i e).0, (ok.queues.idle_apart i e).1.1);
  };
  current_runs = ok.current_runs;
  kept = ok.kept;
}

abbrev pub sleepers_left : Kernel → List ℕ → Kernel
sleepers_left k ts = record k { sleeping_list = ts }

pub sleeper_busy :
    (k : Kernel) (i t : ℕ) (ts : List ℕ)
    → k.idle_thread ≡ some i
    → Scheduled (sleepers_left k (t ∷ ts))
    → is_idle k t ≡ false
sleeper_busy k i t ts idle ok =
    subst (λ o. elim o as (λ _. Bool) [ none ↦ false | some j ↦ j == t ] ≡ false) (sym idle)
      (ok.queues.idle_apart i idle).1.0

pub wakeup_loop-unblock :
    (k : Kernel) (now t : ℕ) (ts : List ℕ)
    → leb (tick_of k t) now ≡ true
    → wakeup_loop k now (t ∷ ts)
      ≡ (thread_unblock (sleepers_left k ts) t >>= λ k'. wakeup_loop k' now ts)
unfolding wakeup_loop
wakeup_loop-unblock k now t ts due =
    ap
      (λ b. elim b as (λ _. Outcome Kernel) [
        | true ↦ thread_unblock (sleepers_left k ts) t >>= λ k'. wakeup_loop k' now ts
        | false ↦ done k
      ])
      due

module _ (k : Kernel) (i t : ℕ) (ts : List ℕ) (idle : k.idle_thread ≡ some i)
    (ok : Scheduled (sleepers_left k (t ∷ ts))) (calm : preempts k t ≡ false) where
  pub first-Unblocked : Fair k → Unblocked t (sleepers_left k ts) (enqueue (sleepers_left k ts) t)
  first-Unblocked fair =
      enqueue-Unblocked (sleepers_left k ts) t (first_out k t ts ok) ok.queues.sleep_status.0
        ok.queues.sleep_once.0 (sleeper_busy k i t ts idle ok) fair calm

  thread_unblock-first :
      thread_unblock (sleepers_left k ts) t ≡ done (enqueue (sleepers_left k ts) t)
  thread_unblock-first =
      thread_unblock-enqueue (sleepers_left k ts) t (first_out k t ts ok) ok.queues.sleep_status.0
        ok.queues.sleep_once.0 (sleeper_busy k i t ts idle ok)
      ∙ ap
          (λ b.
            if b
            then thread_yield (enqueue (sleepers_left k ts) t)
            else done (enqueue (sleepers_left k ts) t))
          calm

  pub same_ticks : tick_of (enqueue (sleepers_left k ts) t) ≡ tick_of k
  same_ticks = fun_ext (same_tick k.thread t ready)

  pub wakeup_loop-due :
      (now : ℕ)
      → leb (tick_of k t) now ≡ true
      → wakeup_loop (sleepers_left k (t ∷ ts)) now (t ∷ ts)
        ≡ wakeup_loop (enqueue (sleepers_left k ts) t) now ts
  wakeup_loop-due now due =
      wakeup_loop-unblock (sleepers_left k (t ∷ ts)) now t ts due
      ∙ ap (λ o. o >>= λ k'. wakeup_loop k' now ts) thread_unblock-first

wakeup_loop-late :
    (k : Kernel) (now t : ℕ) (ts : List ℕ)
    → leb (tick_of k t) now ≡ false
    → wakeup_loop k now (t ∷ ts) ≡ done k
unfolding wakeup_loop
wakeup_loop-late k now t ts late =
    ap
      (λ b. elim b as (λ _. Outcome Kernel) [
        | true ↦ thread_unblock (sleepers_left k ts) t >>= λ k'. wakeup_loop k' now ts
        | false ↦ done k
      ])
      late

pub wakeup_loop-Woken :
    (k : Kernel) (i now : ℕ) (ts : List ℕ)
    → k.idle_thread ≡ some i
    → Scheduled (record k { sleeping_list = ts })
    → Fair k
    → Calm k now ts
    → Returns (Woken now ts k) (wakeup_loop (record k { sleeping_list = ts }) now ts)
unfolding wakeup_loop
wakeup_loop-Woken k i now [] idle ok fair calm = record {
  scheduled = ok;
  fair = fair;
  sleepers = refl;
  awake = tt;
  still_awake = λ j h. h;
  same_current = refl;
  same_idle = refl;
  same_request = refl;
}
wakeup_loop-Woken k i now (t ∷ ts) idle ok fair calm = elim (Bool-cases (leb (tick_of k t) now)) [
  | inr late ↦
      let later = none_due k.thread now t ts late ok.queues.sleep_order.0 in
      subst (Returns (Woken now (t ∷ ts) k))
        (sym (wakeup_loop-late (sleepers_left k (t ∷ ts)) now t ts late))
        (record {
          scheduled = ok;
          fair = fair;
          sleepers = sym (not_due-none (tick_of k) now (t ∷ ts) (late, later));
          awake = Awake-none (tick_of k) now (t ∷ ts) (sleepers_left k (t ∷ ts)) (late, later);
          still_awake = λ j h. h;
          same_current = refl;
          same_idle = refl;
          same_request = refl;
        })
  | inl due ↦
      subst (Returns (Woken now (t ∷ ts) k))
        (sym (wakeup_loop-due k i t ts idle ok (calm.0 due) now due))
        (Returns-mono _ _ (wakeup_loop (enqueue (sleepers_left k ts) t) now ts)
          (wakeup_loop-Woken (enqueue (sleepers_left k ts) t) i now ts idle
            (first-Unblocked k i t ts idle ok (calm.0 due) fair).scheduled
            (first-Unblocked k i t ts idle ok (calm.0 due) fair).fair
            (All-mono _ _ ts
              (λ j h e.
                preempts-enqueue k t j
                ∙ h (
                    subst (λ f. leb (f j) now ≡ true) (same_ticks k i t ts idle ok (calm.0 due)) e))
              calm.1))
          (λ k' w. record {
            scheduled = w.scheduled;
            fair = w.fair;
            sleepers =
                w.sleepers
                ∙ ap (λ f. not_due f now ts) (same_ticks k i t ts idle ok (calm.0 due))
                ∙ rw due refl;
            awake = (
              λ _. w.still_awake t (first-Unblocked k i t ts idle ok (calm.0 due) fair).awake,
              subst (λ f. Awake f now ts k') (same_ticks k i t ts idle ok (calm.0 due)) w.awake,
            );
            still_awake = λ j h. w.still_awake j (still_blocked-enqueue k t j h);
            same_current = w.same_current;
            same_idle = w.same_idle;
            same_request = w.same_request;
          }))
]
