-- ===== src/Thread/Priority.antt =====
-- `thread_set_priority`: the running thread keeps the processor only if it is still the highest.
use spring_os.Prelude.{
  ℕ, ◌≤◌, ◌≡◌, refl, sym, ap, subst, ◌∙◌, Bool, true, false, some, List, [], ◌∷◌, arith, ltb, ◌==◌,
  if◌then◌else◌, ltb→ge, Bool-cases, inl, inr, ==→eq, ==_refl,
}
use spring_os.Prelude.Outcome.{Outcome, done, Returns, Returns-mono}
use spring_os.Disk.{update}
use spring_os.KernelList.Ordered.{All, All-mono, Ordered}
use spring_os.Thread.{
  running, ready, blocked, Thread, Kernel, priority_of, status_of, higher, thread_yield,
  thread_set_priority,
}
use spring_os.Thread.Invariant.{Absent, Highest, Scheduled}
use spring_os.Thread.Switch.{ready≢running, current-Absent, thread_yield-Switched}
use spring_os.Thread.Sleep.{Ordered-agree}

-- A change of the running thread alone, which is in no queue.
module _ (k : Kernel) (ok : Scheduled k) (i : ℕ) (idle : k.idle_thread ≡ some i) (new : Thread)
    (runs : new.status ≡ running) where
  abbrev pub renewed : Kernel
  renewed = record k { thread = update k.thread k.current new }

  All-renewed :
      (P : Thread → Type 0) (ts : List ℕ)
      → Absent k.current ts
      → All (λ j. P (k.thread j)) ts
      → All (λ j. P (renewed.thread j)) ts
  All-renewed P [] out all = tt
  All-renewed P (j ∷ ts) out all = (rw out.0 all.0, All-renewed P ts out.1 all.1)

  pub renewed-Scheduled : Scheduled renewed
  renewed-Scheduled = record {
    queues = record {
      ready_order =
          Ordered-agree k.current (λ a b miss miss'. rw (miss, miss') refl) k.ready_list
            (current-Absent k ok i idle).0 ok.queues.ready_order;
      ready_status =
          All-renewed (λ t. t.status ≡ ready) k.ready_list (current-Absent k ok i idle).0
            ok.queues.ready_status;
      ready_once = ok.queues.ready_once;
      sleep_order =
          Ordered-agree k.current (λ a b miss miss'. rw (miss, miss') refl) k.sleeping_list
            (current-Absent k ok i idle).1 ok.queues.sleep_order;
      sleep_status =
          All-renewed (λ t. t.status ≡ blocked) k.sleeping_list (current-Absent k ok i idle).1
            ok.queues.sleep_status;
      sleep_once = ok.queues.sleep_once;
      idle_apart = ok.queues.idle_apart;
    };
    current_runs = rw (==_refl k.current, status_of) runs;
    kept = λ j e active. ok.kept j (was_ready j e) active;
  }
    where
      was_ready : (j : ℕ) → status_of renewed j ≡ ready → status_of k j ≡ ready
      was_ready j e = elim (Bool-cases (k.current == j)) [
        | inl hit ↦ absurd (ready≢running (sym e ∙ rw (hit, status_of) runs))
        | inr miss ↦ subst (λ s. s ≡ ready) (rw (miss, status_of) refl) e
      ]

pub record Reprioritised (new_priority : ℕ) (k k' : Kernel) : Type 0 where
  pub scheduled : Scheduled k'
  pub highest : Highest k → Highest k'
  pub sleepers : k'.sleeping_list ≡ k.sleeping_list
  pub origin : (k'.thread k.current).origin_priority ≡ new_priority
  pub active : priority_of k' k.current ≡ (
      if priority_of k k.current == (k.thread k.current).origin_priority
      then new_priority
      else priority_of k k.current)

module _ (k : Kernel) (ok : Scheduled k) (i new_priority : ℕ) (idle : k.idle_thread ≡ some i) where
  abbrev donated : Kernel
  donated = record k {
    thread =
        update k.thread k.current (record (k.thread k.current) { origin_priority = new_priority });
  }

  abbrev lowered : Kernel
  lowered = record k {
    thread =
        update k.thread k.current
          (record (k.thread k.current) { priority = new_priority; origin_priority = new_priority });
  }

  lowered-Scheduled : Scheduled lowered
  lowered-Scheduled = renewed-Scheduled k ok i idle _ ok.current_runs

  lowered-priority : priority_of lowered k.current ≡ new_priority
  lowered-priority = rw (==_refl k.current, priority_of) refl

  -- The first thread of the ready list decides for all.
  Highest-head :
      (t : ℕ) (rest : List ℕ)
      → k.ready_list ≡ t ∷ rest
      → priority_of lowered t ≤ new_priority
      → Highest lowered
  Highest-head t rest e h =
      subst (All (λ j. priority_of lowered j ≤ priority_of lowered k.current)) (sym e) (
        subst (λ p. All (λ j. priority_of lowered j ≤ p) (t ∷ rest)) (sym lowered-priority)
          (
            h,
            All-mono _ _ rest (λ j below. le_trans (ltb→ge _ _ below) h)
                (subst (Ordered (higher lowered.thread)) e lowered-Scheduled.queues.ready_order).0,
          ))
    where
      le_trans : {a b c : ℕ} → a ≤ b → b ≤ c → a ≤ c
      le_trans p q = omega arith

  abbrev preempt : List ℕ → Outcome Kernel
  preempt l = elim l [
    | [] ↦ done lowered
    | t ∷ rest ↦
        if ltb new_priority (priority_of lowered t) then thread_yield lowered else done lowered
  ]

  abbrev own : Bool
  own = priority_of k k.current == (k.thread k.current).origin_priority

  lowered-Reprioritised : own ≡ true → Highest lowered → Reprioritised new_priority k lowered
  lowered-Reprioritised is_own high = record {
    scheduled = lowered-Scheduled;
    highest = λ _. high;
    sleepers = refl;
    origin = rw (==_refl k.current) refl;
    active =
        lowered-priority
        ∙ sym (ap (λ b. if b then new_priority else priority_of k k.current) is_own);
  }

  donated-Reprioritised : own ≡ false → Reprioritised new_priority k donated
  donated-Reprioritised lent = record {
    scheduled = renewed-Scheduled k ok i idle _ ok.current_runs;
    highest = λ high. All-mono _ _ k.ready_list (λ j h. below j h) high;
    sleepers = refl;
    origin = rw (==_refl k.current) refl;
    active =
        donated_priority k.current
        ∙ sym (ap (λ b. if b then new_priority else priority_of k k.current) lent);
  }
    where
      donated_priority : (j : ℕ) → priority_of donated j ≡ priority_of k j
      donated_priority j = elim (Bool-cases (k.current == j)) [
        | inl hit ↦ rw (hit, priority_of) (ap (priority_of k) (==→eq k.current j hit))
        | inr miss ↦ rw (miss, priority_of) refl
      ]

      below :
          (j : ℕ)
          → priority_of k j ≤ priority_of k k.current
          → priority_of donated j ≤ priority_of donated k.current
      below j h =
          subst (λ p. p ≤ priority_of donated k.current) (sym (donated_priority j))
            (subst (λ p. priority_of k j ≤ p) (sym (donated_priority k.current)) h)

  preempt-Reprioritised :
      k.in_external ≡ false
      → own ≡ true
      → (l : List ℕ) → k.ready_list ≡ l
      → Returns (Reprioritised new_priority k) (preempt l)
  preempt-Reprioritised inside is_own [] e =
      lowered-Reprioritised is_own
        (subst (All (λ j. priority_of lowered j ≤ priority_of lowered k.current)) (sym e) tt)
  preempt-Reprioritised inside is_own (t ∷ rest) e =
      elim (Bool-cases (ltb new_priority (priority_of lowered t))) [
        | inl lt ↦ subst Test (sym lt) (
            Returns-mono _ _ (thread_yield lowered)
              (thread_yield-Switched lowered lowered-Scheduled i idle inside)
              (λ k' s. record {
                scheduled = s.scheduled;
                highest = λ _. s.highest;
                sleepers = s.sleepers;
                origin = s.origin_same k.current ∙ rw (==_refl k.current) refl;
                active =
                    s.priority_same k.current
                    ∙ lowered-priority
                    ∙ sym (ap (λ b. if b then new_priority else priority_of k k.current) is_own);
              }))
        | inr ge ↦
            subst Test (sym ge)
              (lowered-Reprioritised is_own (Highest-head t rest e (ltb→ge _ _ ge)))
      ]
    where
      Test : Bool → Type 0
      Test b =
          Returns (Reprioritised new_priority k) (if b then thread_yield lowered else done lowered)

  -- In a scheduled kernel outside an interrupt, thread_set_priority returns: the caller's own
  -- priority is the new one, and so is its active priority unless that was a donated one, which
  -- then stays; the kernel is scheduled, and the running thread is as high as every ready thread
  -- if it was before.
  pub thread_set_priority-Reprioritised :
      k.in_external ≡ false
      → Returns (Reprioritised new_priority k) (thread_set_priority k new_priority)
  unfolding thread_set_priority
  thread_set_priority-Reprioritised inside =
      elim (Bool-cases (priority_of k k.current == (k.thread k.current).origin_priority)) [
        | inl own ↦
            subst (Returns (Reprioritised new_priority k))
              (sym (ap (λ b. if b then preempt k.ready_list else done donated) own))
              (preempt-Reprioritised inside own k.ready_list refl)
        | inr lent ↦
            subst (Returns (Reprioritised new_priority k))
              (sym (ap (λ b. if b then preempt k.ready_list else done donated) lent))
              (donated-Reprioritised lent)
      ]
