-- ===== src/Thread/Sleep.antt =====
-- `thread_to_sleep`: the running thread joins the sleeping list and blocks.
use mathlib.Core.Path.{fun_ext}
use spring_os.Prelude.{
  ℕ, ◌≡◌, refl, sym, ap, ap₂, subst, ◌∙◌, Bool, false, none, some, List, [], ◌∷◌, ltb, ◌==◌,
  if◌then◌else◌, Bool-cases, inl, inr, ==→eq, ==_refl,
}
use spring_os.Prelude.Outcome.{panic, Returns, Returns-mono}
use spring_os.Disk.{update}
use spring_os.KernelList.{list_insert_ordered}
use spring_os.KernelList.Ordered.{All, All-mono, Ordered, insert-All, list_insert_ordered-Ordered}
use spring_os.Thread.{
  Status, ready, blocked, Thread, Kernel, priority_of, status_of, set_status, earlier, is_idle,
  schedule, thread_block, thread_to_sleep,
}
use spring_os.Thread.Invariant.{
  Absent, Queues, Highest, Scheduled, blocked-Kept, Distinct-insert, earlier-StrictWeak,
  earlier-status, higher-status, status-Absent,
}
use spring_os.Thread.Switch.{current-Absent, schedule-Switched}

module _ {less less' : ℕ → ℕ → Bool} (t : ℕ)
    (agree : (a b : ℕ) → (t == a) ≡ false → (t == b) ≡ false → less a b ≡ less' a b) where
  below-agree :
      (a : ℕ) (ts : List ℕ)
      → (t == a) ≡ false
      → Absent t ts
      → All (λ y. less y a ≡ false) ts
      → All (λ y. less' y a ≡ false) ts
  below-agree a [] other out all = tt
  below-agree a (y ∷ ts) other out all =
      (sym (agree y a out.0 other) ∙ all.0, below-agree a ts other out.1 all.1)

  -- An order that differs only at `t` keeps a list without `t` in order.
  pub Ordered-agree : (ts : List ℕ) → Absent t ts → Ordered less ts → Ordered less' ts
  Ordered-agree [] out ok = tt
  Ordered-agree (a ∷ ts) out ok = (below-agree a ts out.0 out.1 ok.0, Ordered-agree ts out.1 ok.1)

pub record Slept (when_to_wakeup : ℕ) (k k' : Kernel) : Type 0 where
  pub scheduled : Scheduled k'
  pub highest : Highest k'
  pub sleepers :
      k'.sleeping_list ≡ list_insert_ordered (earlier k'.thread) k.current k.sleeping_list
  pub tick : (k'.thread k.current).morning_tick ≡ when_to_wakeup
  pub stopped : status_of k' k.current ≡ blocked

inserted-All :
    (less : ℕ → ℕ → Bool) (P : ℕ → Type 0) (t : ℕ) (ts : List ℕ)
    → All P (list_insert_ordered less t ts)
    → P t
unfolding list_insert_ordered
inserted-All less P t [] all = all.0
inserted-All less P t (j ∷ ts) all = elim (Bool-cases (less t j)) [
  | inl lt ↦
      (subst (λ b. All P (if b then t ∷ (j ∷ ts) else j ∷ list_insert_ordered less t ts)) lt all).0
  | inr ge ↦
      inserted-All less P t ts
        (subst (λ b. All P (if b then t ∷ (j ∷ ts) else j ∷ list_insert_ordered less t ts)) ge
          all).1
]

module _ (k : Kernel) (ok : Scheduled k) (i when_to_wakeup : ℕ)
    (idle : k.idle_thread ≡ some i) where
  abbrev due : ℕ → Thread
  due = update k.thread k.current (record (k.thread k.current) { morning_tick = when_to_wakeup })

  abbrev asleep : Kernel
  asleep =
      set_status
        (record k {
          thread = due;
          sleeping_list = list_insert_ordered (earlier due) k.current k.sleeping_list;
        })
        k.current blocked

  due-priority : (j : ℕ) → (due j).priority ≡ priority_of k j
  due-priority j = elim (Bool-cases (k.current == j)) [
    | inl hit ↦ rw hit (ap (priority_of k) (==→eq k.current j hit))
    | inr miss ↦ rw miss refl
  ]

  due-status : (j : ℕ) → (due j).status ≡ status_of k j
  due-status j = elim (Bool-cases (k.current == j)) [
    | inl hit ↦ rw hit (ap (status_of k) (==→eq k.current j hit))
    | inr miss ↦ rw miss refl
  ]

  due-earlier :
      (a b : ℕ)
      → (k.current == a) ≡ false
      → (k.current == b) ≡ false
      → earlier k.thread a b ≡ earlier due a b
  due-earlier a b miss miss' = rw (miss, miss') refl

  sleep_due : Ordered (earlier due) k.sleeping_list
  sleep_due =
      Ordered-agree k.current due-earlier k.sleeping_list (current-Absent k ok i idle).1
        ok.queues.sleep_order

  due-All :
      (s : Status) (ts : List ℕ)
      → All (λ t. status_of k t ≡ s) ts
      → All (λ t. (due t).status ≡ s) ts
  due-All s ts all = All-mono _ _ ts (λ t e. due-status t ∙ e) all

  asleep-Queues : is_idle k k.current ≡ false → Queues asleep
  asleep-Queues busy = record {
    ready_order =
        subst (λ f. Ordered f k.ready_list)
          (sym (
            higher-status due k.current blocked
            ∙ fun_ext λ a. fun_ext λ b. ap₂ ltb (due-priority b) (due-priority a)))
          ok.queues.ready_order;
    ready_status =
        status-Absent due k.current blocked ready k.ready_list (current-Absent k ok i idle).0
          (due-All ready k.ready_list ok.queues.ready_status);
    ready_once = ok.queues.ready_once;
    sleep_order = rw (earlier-status due k.current blocked) (
        list_insert_ordered-Ordered (earlier due) (earlier-StrictWeak due) k.current k.sleeping_list
          sleep_due);
    sleep_status =
        insert-All (earlier due) (earlier-StrictWeak due) _ k.current k.sleeping_list
          (rw (==_refl k.current, status_of) refl)
          (status-Absent due k.current blocked blocked k.sleeping_list
            (current-Absent k ok i idle).1
            (due-All blocked k.sleeping_list ok.queues.sleep_status));
    sleep_once =
        Distinct-insert (earlier due) k.current k.sleeping_list (earlier-StrictWeak due)
          (current-Absent k ok i idle).1 ok.queues.sleep_once;
    idle_apart = λ j e. (
      (ok.queues.idle_apart j e).0,
      insert-All (earlier due) (earlier-StrictWeak due) _ k.current k.sleeping_list
          (subst (λ o. elim o as (λ _. Bool) [ none ↦ false | some j' ↦ j' == k.current ] ≡ false) e
            busy)
          (ok.queues.idle_apart j e).1,
    );
  }

  -- In a scheduled kernel outside an interrupt, thread_to_sleep by a thread that is not the idle
  -- thread returns to the scheduler: the caller is blocked, carries the given tick and stands in
  -- the sleeping list by the order of ticks, the kernel is scheduled, and the thread that runs now
  -- is as high as every ready thread.
  pub thread_to_sleep-Slept :
      k.in_external ≡ false
      → is_idle k k.current ≡ false
      → Returns (Slept when_to_wakeup k) (thread_to_sleep k when_to_wakeup)
  unfolding thread_to_sleep thread_block
  thread_to_sleep-Slept inside busy =
      subst (Returns (Slept when_to_wakeup k))
        (sym (ap (λ b. if b then panic else schedule asleep) inside))
        (Returns-mono _ _ (schedule asleep)
          (schedule-Switched asleep i idle (rw (==_refl k.current, status_of) refl)
            (asleep-Queues busy)
            (blocked-Kept (record k { thread = due }) k.current
              (λ j e awake. ok.kept j (sym (due-status j) ∙ e) awake)))
          (λ k' s. record {
            scheduled = s.scheduled;
            highest = s.highest;
            sleepers =
                s.sleepers
                ∙ ap (λ f. list_insert_ordered f k.current k.sleeping_list)
                    (sym (
                      fun_ext (λ a. fun_ext λ b. ap₂ ltb (s.tick_same a) (s.tick_same b))
                      ∙ earlier-status due k.current blocked));
            tick = s.tick_same k.current ∙ rw (==_refl k.current) refl;
            stopped = inserted-All (earlier due) _ k.current k.sleeping_list (
                subst (All (λ j. status_of k' j ≡ blocked)) s.sleepers
                  s.scheduled.queues.sleep_status);
          }))
