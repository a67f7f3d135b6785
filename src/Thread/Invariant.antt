-- ===== src/Thread/Invariant.antt =====
-- The invariant of the scheduler, and what a change of one thread's status leaves alone.
use mathlib.Core.Path.{fun_ext}
use spring_os.Prelude.{
  ℕ, ◌≤◌, ◌≡◌, ◌≢◌, refl, sym, ap, ap₂, subst, ◌∙◌, Bool, true, false, none, some, List, [], ◌∷◌,
  ==→eq, ==_refl, arith, ltb, ◌==◌, if◌then◌else◌, Bool-cases, inl, inr,
}
use spring_os.Disk.{update}
use spring_os.KernelList.{list_insert_ordered}
use spring_os.KernelList.Ordered.{All, StrictWeak, Ordered, insert-All, list_insert_ordered-Ordered}
use spring_os.Thread.{
  Status, running, ready, blocked, Thread, Kernel, priority_of, status_of, set_status, higher,
  earlier, is_idle, enqueue,
}

abbrev pub Absent : ℕ → List ℕ → Type 0
Absent t = All (λ j. (t == j) ≡ false)

abbrev pub Distinct : List ℕ → Type 0
Distinct [] = Unit {0}
Distinct (t ∷ ts) = Absent t ts × Distinct ts

-- The queues are ordered, hold every thread once, and agree with the status of their threads; the
-- idle thread is in none.
pub record Queues (k : Kernel) : Type 0 where
  pub ready_order : Ordered (higher k.thread) k.ready_list
  pub ready_status : All (λ t. status_of k t ≡ ready) k.ready_list
  pub ready_once : Distinct k.ready_list
  pub sleep_order : Ordered (earlier k.thread) k.sleeping_list
  pub sleep_status : All (λ t. status_of k t ≡ blocked) k.sleeping_list
  pub sleep_once : Distinct k.sleeping_list
  pub idle_apart :
      (i : ℕ) → k.idle_thread ≡ some i → Absent i k.ready_list × Absent i k.sleeping_list

-- The running thread is as high as every thread that is ready.
abbrev pub Highest : Kernel → Type 0
Highest k = All (λ t. priority_of k t ≤ priority_of k k.current) k.ready_list

abbrev pub member : ℕ → List ℕ → Bool
member t [] = false
member t (j ∷ ts) = if t == j then true else member t ts

-- A ready thread that is not the idle thread is in the ready list.
abbrev pub Kept : Kernel → Type 0
Kept k = (t : ℕ) → status_of k t ≡ ready → is_idle k t ≡ false → member t k.ready_list ≡ true

pub record Scheduled (k : Kernel) : Type 0 where
  pub queues : Queues k
  pub current_runs : status_of k k.current ≡ running
  pub kept : Kept k

module _ (thread : ℕ → Thread) where
  pub higher-StrictWeak : StrictWeak (higher thread)
  higher-StrictWeak = record { asym = λ a b h. ground arith; ties = λ a b c h h'. ground arith }

  pub earlier-StrictWeak : StrictWeak (earlier thread)
  earlier-StrictWeak = record { asym = λ a b h. ground arith; ties = λ a b c h h'. ground arith }

  -- A change of status is none of priority or of the time to wake up.
  module _ (t : ℕ) (s : Status) where
    abbrev changed : ℕ → Thread
    changed = update thread t (record (thread t) { status = s })

    pub same_priority : (j : ℕ) → (changed j).priority ≡ (thread j).priority
    same_priority j = elim (Bool-cases (t == j)) [
      | inl hit ↦ rw hit (ap (λ i. (thread i).priority) (==→eq t j hit))
      | inr miss ↦ rw miss
    ]

    pub higher-status : higher changed ≡ higher thread
    higher-status = fun_ext λ a. fun_ext λ b. ap₂ ltb (same_priority b) (same_priority a)

    pub same_origin : (j : ℕ) → (changed j).origin_priority ≡ (thread j).origin_priority
    same_origin j = elim (Bool-cases (t == j)) [
      | inl hit ↦ rw hit (ap (λ i. (thread i).origin_priority) (==→eq t j hit))
      | inr miss ↦ rw miss
    ]

    pub same_tick : (j : ℕ) → (changed j).morning_tick ≡ (thread j).morning_tick
    same_tick j = elim (Bool-cases (t == j)) [
      | inl hit ↦ rw hit (ap (λ i. (thread i).morning_tick) (==→eq t j hit))
      | inr miss ↦ rw miss
    ]

    pub earlier-status : earlier changed ≡ earlier thread
    earlier-status = fun_ext λ a. fun_ext λ b. ap₂ ltb (same_tick a) (same_tick b)

    pub status-Absent :
        (s' : Status) (ts : List ℕ)
        → Absent t ts
        → All (λ j. (thread j).status ≡ s') ts
        → All (λ j. (changed j).status ≡ s') ts
    status-Absent s' [] out all = tt
    status-Absent s' (j ∷ ts) out all = (rw out.0 all.0, status-Absent s' ts out.1 all.1)

pub false≢true : false ≢ true
false≢true = cc

pub ready≢blocked : ready ≢ blocked
ready≢blocked = cc

-- Threads of another status are other threads.
pub Absent-status :
    (thread : ℕ → Thread) (t : ℕ) (s : Status) (ts : List ℕ)
    → (thread t).status ≢ s
    → All (λ j. (thread j).status ≡ s) ts
    → Absent t ts
Absent-status thread t s [] ne all = tt
Absent-status thread t s (j ∷ ts) ne all = (
  elim (Bool-cases (t == j)) [
    | inl hit ↦ absurd (ne (ap (λ i. (thread i).status) (==→eq t j hit) ∙ all.0))
    | inr miss ↦ miss
  ],
  Absent-status thread t s ts ne all.1,
)

pub Distinct-insert :
    (less : ℕ → ℕ → Bool) (t : ℕ) (ts : List ℕ) (order : StrictWeak less)
    → Absent t ts
    → Distinct ts
    → Distinct (list_insert_ordered less t ts)
unfolding list_insert_ordered
Distinct-insert less t [] order out once = (tt, tt)
Distinct-insert less t (j ∷ ts) order out once = elim (Bool-cases (less t j)) [
  | inl lt ↦ rw lt (out, once)
  | inr ge ↦ rw ge (
    insert-All less order (λ i. (j == i) ≡ false) t ts (ground (arith, out.0)) once.0,
    Distinct-insert less t ts order out.1 once.1,
  )
]

pub member-insert :
    (less : ℕ → ℕ → Bool) (x t : ℕ) (ts : List ℕ)
    → member x (list_insert_ordered less t ts) ≡ (if x == t then true else member x ts)
unfolding list_insert_ordered
member-insert less x t [] = refl
member-insert less x t (j ∷ ts) = elim (Bool-cases (less t j)) [
  | inl lt ↦ rw lt refl
  | inr ge ↦ rw (ge, member-insert less x t ts) (ground arith)
]

module _ (k : Kernel) (t : ℕ) (q : Queues k) where
  pub set_status-Queues :
      (s : Status) → Absent t k.ready_list → Absent t k.sleeping_list → Queues (set_status k t s)
  set_status-Queues s out_ready out_sleep = record {
    ready_order = rw (higher-status k.thread t s) q.ready_order;
    ready_status = status-Absent k.thread t s ready k.ready_list out_ready q.ready_status;
    ready_once = q.ready_once;
    sleep_order = rw (earlier-status k.thread t s) q.sleep_order;
    sleep_status = status-Absent k.thread t s blocked k.sleeping_list out_sleep q.sleep_status;
    sleep_once = q.sleep_once;
    idle_apart = q.idle_apart;
  }

  pub enqueue-Queues :
      Absent t k.ready_list → Absent t k.sleeping_list → is_idle k t ≡ false → Queues (enqueue k t)
  unfolding list_insert_ordered
  enqueue-Queues out_ready out_sleep busy = record {
    ready_order = rw (higher-status k.thread t ready) (
        list_insert_ordered-Ordered (higher k.thread) (higher-StrictWeak k.thread) t k.ready_list
          q.ready_order);
    ready_status =
        insert-All (higher k.thread) (higher-StrictWeak k.thread) _ t k.ready_list
          (rw (==_refl t, status_of) refl)
          (status-Absent k.thread t ready ready k.ready_list out_ready q.ready_status);
    ready_once =
        Distinct-insert (higher k.thread) t k.ready_list (higher-StrictWeak k.thread) out_ready
          q.ready_once;
    sleep_order = rw (earlier-status k.thread t ready) q.sleep_order;
    sleep_status = status-Absent k.thread t ready blocked k.sleeping_list out_sleep q.sleep_status;
    sleep_once = q.sleep_once;
    idle_apart = λ i e. (
      insert-All (higher k.thread) (higher-StrictWeak k.thread) _ t k.ready_list (other i e)
          (q.idle_apart i e).0,
      (q.idle_apart i e).1,
    );
  }
    where
      other : (i : ℕ) → k.idle_thread ≡ some i → (i == t) ≡ false
      other i e =
          subst (λ o. elim o as (λ _. Bool) [ none ↦ false | some j ↦ j == t ] ≡ false) e busy

-- A thread that joins the ready list, and one that is idle, leave none behind.
module _ (k : Kernel) (t : ℕ) (kept : Kept k) where
  pub enqueue-Kept : Kept (enqueue k t)
  unfolding list_insert_ordered
  enqueue-Kept j e busy =
      rw (member-insert (higher k.thread) j t k.ready_list) (elim (Bool-cases (t == j)) [
        | inl hit ↦ ground (arith, hit)
        | inr miss ↦ joined (kept j (subst (λ s. s ≡ ready) (rw (miss, status_of) refl) e) busy)
      ])
    where
      joined :
          member j k.ready_list ≡ true → (if j == t then true else member j k.ready_list) ≡ true
      joined h = ground arith

  pub idle-Kept : (s : Status) → is_idle k t ≡ true → Kept (set_status k t s)
  idle-Kept s idle j e busy = elim (Bool-cases (t == j)) [
    | inl hit ↦ absurd (false≢true (sym busy ∙ ap (is_idle k) (sym (==→eq t j hit)) ∙ idle))
    | inr miss ↦ kept j (subst (λ s'. s' ≡ ready) (rw (miss, status_of) refl) e) busy
  ]

  pub blocked-Kept : Kept (set_status k t blocked)
  blocked-Kept j e busy = elim (Bool-cases (t == j)) [
    | inl hit ↦ absurd (ready≢blocked (sym e ∙ rw (hit, status_of) refl))
    | inr miss ↦ kept j (subst (λ s. s ≡ ready) (rw (miss, status_of) refl) e) busy
  ]
