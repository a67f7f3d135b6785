-- ===== src/Thread/Switch.antt =====
-- `schedule`, `thread_yield` and `thread_block`: what the switch leaves behind.
use spring_os.Prelude.{
  ℕ, ◌≤◌, ◌≡◌, ◌≢◌, refl, sym, ap, subst, ◌∙◌, true, false, some, List, [], ◌∷◌, arith, ◌==◌,
  if◌then◌else◌, ltb→ge, Bool-cases, inl, inr, ==_refl,
}
use spring_os.Prelude.Outcome.{done, panic, Returns, Returns-mono}
use spring_os.KernelList.{list_insert_ordered}
use spring_os.KernelList.Ordered.{All, All-mono}
use spring_os.Thread.{
  Status, running, ready, blocked, Kernel, priority_of, status_of, set_status, higher, is_idle,
  is_running, is_blocked, switch_to, enqueue_current, next_thread_to_run, schedule, thread_yield,
  thread_block,
}
use spring_os.Thread.Invariant.{
  Absent, Queues, Highest, Scheduled, Kept, member, false≢true, set_status-Queues, enqueue-Queues,
  enqueue-Kept, idle-Kept, blocked-Kept, ready≢blocked, higher-status, earlier-status,
  same_priority, same_tick, same_origin, status-Absent, Absent-status,
}

-- The state after a switch: the invariant, the highest thread running, the sleepers as before.
pub record Switched (k k' : Kernel) : Type 0 where
  pub scheduled : Scheduled k'
  pub highest : Highest k'
  pub sleepers : k'.sleeping_list ≡ k.sleeping_list
  pub woken :
      (j : ℕ)
      → (k.current == j) ≡ false
      → is_blocked (status_of k j) ≡ false
      → is_blocked (status_of k' j) ≡ false
  pub priority_same : (j : ℕ) → priority_of k' j ≡ priority_of k j
  pub tick_same : (j : ℕ) → (k'.thread j).morning_tick ≡ (k.thread j).morning_tick
  pub origin_same : (j : ℕ) → (k'.thread j).origin_priority ≡ (k.thread j).origin_priority

pub blocked≢running : blocked ≢ running
blocked≢running = cc

pub ready≢running : ready ≢ running
ready≢running = cc

module _ (k : Kernel) where
  -- A thread that is in neither queue any more may run.
  switch_to-Switched :
      (t : ℕ) (rest : List ℕ)
      → Queues (record k { ready_list = rest })
      → Absent t rest
      → Absent t k.sleeping_list
      → All (λ j. higher k.thread j t ≡ false) rest
      → Kept (record k { ready_list = t ∷ rest })
      → Switched k (switch_to k t rest)
  switch_to-Switched t rest q out_ready out_sleep top kept = record {
    scheduled = record {
      queues = record {
        ready_order = rw (higher-status k.thread t running) q.ready_order;
        ready_status = status-Absent k.thread t running ready rest out_ready q.ready_status;
        ready_once = q.ready_once;
        sleep_order = rw (earlier-status k.thread t running) q.sleep_order;
        sleep_status =
            status-Absent k.thread t running blocked k.sleeping_list out_sleep q.sleep_status;
        sleep_once = q.sleep_once;
        idle_apart = q.idle_apart;
      };
      current_runs = rw (==_refl t, status_of);
      kept = still_kept;
    };
    highest = All-mono _ _ rest (λ j h. below j (ltb→ge _ _ h)) top;
    sleepers = refl;
    woken = λ j other h. elim (Bool-cases (t == j)) [
      | inl hit ↦ rw (hit, status_of) refl
      | inr miss ↦ rw (miss, status_of) h
    ];
    priority_same = same_priority k.thread t running;
    tick_same = same_tick k.thread t running;
    origin_same = same_origin k.thread t running;
  }
    where
      still_kept : Kept (switch_to k t rest)
      still_kept j e busy = elim (Bool-cases (t == j)) [
        | inl hit ↦ absurd (ready≢running (sym e ∙ rw (hit, status_of) refl))
        | inr miss ↦
            rest_has j miss (kept j (subst (λ s. s ≡ ready) (rw (miss, status_of) refl) e) busy)
      ]
        where
          rest_has : (j : ℕ) → (t == j) ≡ false → member j (t ∷ rest) ≡ true → member j rest ≡ true
          rest_has j miss h = ground arith

      below :
          (j : ℕ)
          → priority_of k j ≤ priority_of k t
          → priority_of (switch_to k t rest) j ≤ priority_of (switch_to k t rest) t
      below j h =
          subst (λ p. p ≤ priority_of (switch_to k t rest) t)
            (sym (same_priority k.thread t running j))
            (subst (λ p. priority_of k j ≤ p) (sym (same_priority k.thread t running t)) h)

  schedule_next :
      (t : ℕ) (rest : List ℕ)
      → next_thread_to_run k ≡ done (t, rest)
      → is_running (status_of k k.current) ≡ false
      → schedule k ≡ done (switch_to k t rest)
  unfolding schedule
  schedule_next t rest e stopped = rw (e, stopped) refl

  next-idle :
      (i : ℕ)
      → k.idle_thread ≡ some i
      → next_thread_to_run (record k { ready_list = [] }) ≡ done (i, [])
  unfolding next_thread_to_run
  next-idle i idle = rw idle refl

module _ (k : Kernel) where
  schedule_from :
      (l : List ℕ) (i : ℕ)
      → k.idle_thread ≡ some i
      → is_running (status_of k k.current) ≡ false
      → Queues (record k { ready_list = l })
      → Kept (record k { ready_list = l })
      → Returns (Switched k) (schedule (record k { ready_list = l }))
  unfolding schedule
  schedule_from [] i idle stopped q kept =
      rw (schedule_next (record k { ready_list = [] }) i [] (next-idle k i idle) stopped) (
        switch_to-Switched k i [] q tt (q.idle_apart i idle).1 tt
          (λ j e busy. absurd (false≢true (kept j e busy))))
  schedule_from (t ∷ rest) i idle stopped q kept = rw stopped (
      switch_to-Switched k t rest
        (record {
          ready_order = q.ready_order.1;
          ready_status = q.ready_status.1;
          ready_once = q.ready_once.1;
          sleep_order = q.sleep_order;
          sleep_status = q.sleep_status;
          sleep_once = q.sleep_once;
          idle_apart = λ j e. ((q.idle_apart j e).0.1, (q.idle_apart j e).1);
        })
        q.ready_once.0
        (Absent-status k.thread t blocked k.sleeping_list
          (λ e. ready≢blocked (sym q.ready_status.0 ∙ e)) q.sleep_status)
        q.ready_order.0 kept)

  pub schedule-Switched :
      (i : ℕ)
      → k.idle_thread ≡ some i
      → is_running (status_of k k.current) ≡ false
      → Queues k
      → Kept k
      → Returns (Switched k) (schedule k)
  schedule-Switched i idle stopped q kept = schedule_from k.ready_list i idle stopped q kept

module _ (k : Kernel) (ok : Scheduled k) (i : ℕ) (idle : k.idle_thread ≡ some i) where
  -- The running thread is in no queue.
  pub current-Absent : Absent k.current k.ready_list × Absent k.current k.sleeping_list
  current-Absent = (
    Absent-status k.thread k.current ready k.ready_list
        (λ e. ready≢running (sym e ∙ ok.current_runs)) ok.queues.ready_status,
    Absent-status k.thread k.current blocked k.sleeping_list
        (λ e. blocked≢running (sym e ∙ ok.current_runs)) ok.queues.sleep_status,
  )

  -- What `schedule` needs of the state in which it is called.
  record Stopped (k' : Kernel) : Type 0 where
    queues : Queues k'
    kept : Kept k'
    idle_same : k'.idle_thread ≡ some i
    stopped : is_running (status_of k' k'.current) ≡ false
    sleepers_same : k'.sleeping_list ≡ k.sleeping_list
    current_same : k'.current ≡ k.current
    others : (j : ℕ) → (k.current == j) ≡ false → status_of k' j ≡ status_of k j
    priorities : (j : ℕ) → priority_of k' j ≡ priority_of k j
    ticks_same : (j : ℕ) → (k'.thread j).morning_tick ≡ (k.thread j).morning_tick
    origins_same : (j : ℕ) → (k'.thread j).origin_priority ≡ (k.thread j).origin_priority

  Stopped-schedule : (k' : Kernel) → Stopped k' → Returns (Switched k) (schedule k')
  Stopped-schedule k' s =
      Returns-mono _ _ (schedule k') (schedule-Switched k' i s.idle_same s.stopped s.queues s.kept)
        (λ k'' w. record {
          scheduled = w.scheduled;
          highest = w.highest;
          sleepers = w.sleepers ∙ s.sleepers_same;
          woken = λ j other h.
              w.woken j (ap (λ c. c == j) s.current_same ∙ other)
                (ap is_blocked (s.others j other) ∙ h);
          priority_same = λ j. w.priority_same j ∙ s.priorities j;
          tick_same = λ j. w.tick_same j ∙ s.ticks_same j;
          origin_same = λ j. w.origin_same j ∙ s.origins_same j;
        })

  pub stops :
      (s : Status)
      → is_running s ≡ false
      → is_running (status_of (set_status k k.current s) k.current) ≡ false
  stops s e = rw (==_refl k.current, status_of) e

  others_same :
      (s : Status) (j : ℕ)
      → (k.current == j) ≡ false
      → status_of (set_status k k.current s) j ≡ status_of k j
  others_same s j other = rw (other, status_of) refl

  enqueue_current-Stopped : Stopped (set_status (enqueue_current k) k.current ready)
  enqueue_current-Stopped = elim (Bool-cases (is_idle k k.current)) [
    | inl h ↦ subst Ready (sym (ap (λ b. if b then k else joined) h)) (record {
      queues = set_status-Queues k k.current ok.queues ready current-Absent.0 current-Absent.1;
      kept = idle-Kept k k.current ok.kept ready h;
      idle_same = idle;
      stopped = stops ready refl;
      sleepers_same = refl;
      current_same = refl;
      others = others_same ready;
      priorities = same_priority k.thread k.current ready;
      ticks_same = same_tick k.thread k.current ready;
      origins_same = same_origin k.thread k.current ready;
    })
    | inr h ↦ subst Ready (sym (ap (λ b. if b then k else joined) h)) (record {
      queues = enqueue-Queues k k.current ok.queues current-Absent.0 current-Absent.1 h;
      kept = enqueue-Kept k k.current ok.kept;
      idle_same = idle;
      stopped = stops ready refl;
      sleepers_same = refl;
      current_same = refl;
      others = others_same ready;
      priorities = same_priority k.thread k.current ready;
      ticks_same = same_tick k.thread k.current ready;
      origins_same = same_origin k.thread k.current ready;
    })
  ]
    where
      joined : Kernel
      joined = record k {
        ready_list = list_insert_ordered (higher k.thread) k.current k.ready_list;
      }

      Ready : Kernel → Type 0
      Ready e = Stopped (set_status e k.current ready)

  -- In a scheduled kernel outside an interrupt, thread_yield returns a scheduled kernel whose
  -- running thread is as high as every ready thread; the sleeping list, all priorities and all
  -- ticks are as before, and no other thread becomes blocked.
  pub thread_yield-Switched : k.in_external ≡ false → Returns (Switched k) (thread_yield k)
  unfolding thread_yield
  thread_yield-Switched inside =
      subst (Returns (Switched k)) (sym (ap (λ b. if b then panic else schedule yielding) inside))
        (Stopped-schedule yielding enqueue_current-Stopped)
    where
      yielding : Kernel
      yielding = set_status (enqueue_current k) k.current ready

  -- In a scheduled kernel outside an interrupt, thread_block returns a scheduled kernel whose
  -- running thread is as high as every ready thread; the sleeping list, all priorities and all
  -- ticks are as before, and no other thread becomes blocked.
  pub thread_block-Switched : k.in_external ≡ false → Returns (Switched k) (thread_block k)
  unfolding thread_block
  thread_block-Switched inside =
      subst (Returns (Switched k)) (sym (ap (λ b. if b then panic else schedule blocking) inside)) (
        Stopped-schedule blocking (record {
          queues =
              set_status-Queues k k.current ok.queues blocked current-Absent.0 current-Absent.1;
          kept = blocked-Kept k k.current ok.kept;
          idle_same = idle;
          stopped = stops blocked refl;
          sleepers_same = refl;
          current_same = refl;
          others = others_same blocked;
          priorities = same_priority k.thread k.current blocked;
          ticks_same = same_tick k.thread k.current blocked;
          origins_same = same_origin k.thread k.current blocked;
        }))
    where
      blocking : Kernel
      blocking = set_status k k.current blocked
