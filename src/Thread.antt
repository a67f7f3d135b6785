-- ===== src/Thread.antt =====
-- pintos/src/threads/thread.c and the sleep queue of pintos/src/devices/timer.c: the scheduler.
-- One processor; each function runs with interrupts off from its first change of the state on.
pub mod Invariant
pub mod Switch
pub mod Timer
pub mod Unblock
pub mod Wakeup
pub mod Alarm
pub mod Sleep
pub mod Priority
pub mod Tests
use spring_os.Prelude.{
  ℕ, zero, suc, ◌+◌, Bool, true, false, not, ◌&&◌, Option, none, some, List, [], ◌∷◌, ltb, leb,
  ◌==◌, if◌then◌else◌,
}
use spring_os.Prelude.Outcome.{Outcome, done, panic, ◌>>=◌}
use spring_os.Disk.{update}
use spring_os.KernelList.{list_insert_ordered}

-- `enum thread_status`.
pub data Status : Type 0 where
  running ready blocked dying : Status

abbrev pub time_slice : ℕ
time_slice = 4

-- The members of `struct thread` that scheduling reads. A thread is named by the number of its
-- page.
pub record Thread : Type 0 where
  pub status : Status
  pub priority : ℕ
  pub origin_priority : ℕ
  pub morning_tick : ℕ

-- `in_external` is `intr_context ()`, and `yield_on_return` the request of
-- `intr_yield_on_return ()`. `sleeping_list` stands in devices/timer.c, which declares a pointer for
-- it and uses the address of that pointer as the list.
pub record Kernel : Type 0 where
  pub thread : ℕ → Thread
  pub current : ℕ
  pub idle_thread : Option ℕ
  pub ready_list : List ℕ
  pub sleeping_list : List ℕ
  pub thread_ticks : ℕ
  pub ticks : ℕ
  pub in_external : Bool
  pub yield_on_return : Bool

abbrev pub priority_of : Kernel → ℕ → ℕ
priority_of k t = (k.thread t).priority

abbrev pub status_of : Kernel → ℕ → Status
status_of k t = (k.thread t).status

abbrev pub set_status : Kernel → ℕ → Status → Kernel
set_status k t s = record k { thread = update k.thread t (record (k.thread t) { status = s }) }

-- `priority_compare_two_thread` and `compare_tick`.
abbrev pub higher : (ℕ → Thread) → ℕ → ℕ → Bool
higher thread a b = ltb (thread b).priority (thread a).priority

abbrev pub earlier : (ℕ → Thread) → ℕ → ℕ → Bool
earlier thread a b = ltb (thread a).morning_tick (thread b).morning_tick

abbrev pub is_idle : Kernel → ℕ → Bool
is_idle k t = elim (k.idle_thread) [ none ↦ false | some i ↦ i == t ]

-- `next_thread_to_run`: the thread, and the list that is left.
unfoldable pub next_thread_to_run : Kernel → Outcome (ℕ × List ℕ)
next_thread_to_run k = elim (k.ready_list) [
  | t ∷ rest ↦ done (t, rest)
  | [] ↦ elim (k.idle_thread) [ none ↦ panic | some i ↦ done (i, []) ]
]

abbrev pub is_running : Status → Bool
is_running running = true
is_running _ = false

-- The thread that has been taken off the ready list runs, with a new time slice.
abbrev pub switch_to : Kernel → ℕ → List ℕ → Kernel
switch_to k next rest = record (set_status (record k { ready_list = rest }) next running) {
  current = next;
  thread_ticks = 0;
}

-- `schedule` with `schedule_tail`: the switch to the next thread.
unfoldable pub schedule : Kernel → Outcome Kernel
unfolding next_thread_to_run
schedule k = next_thread_to_run k >>= λ (next, rest).
    if is_running (status_of k k.current) then panic else done (switch_to k next rest)

unfoldable pub thread_block : Kernel → Outcome Kernel
unfolding schedule
thread_block k = if k.in_external then panic else schedule (set_status k k.current blocked)

-- The current thread joins the ready list, unless it is the idle thread.
abbrev pub enqueue_current : Kernel → Kernel
enqueue_current k =
    if is_idle k k.current
    then k
    else record k { ready_list = list_insert_ordered (higher k.thread) k.current k.ready_list }

unfoldable pub thread_yield : Kernel → Outcome Kernel
unfolding schedule list_insert_ordered
thread_yield k =
    if k.in_external then panic else schedule (set_status (enqueue_current k) k.current ready)

abbrev pub is_blocked : Status → Bool
is_blocked blocked = true
is_blocked _ = false

-- `t`, which is blocked, joins the ready list.
abbrev pub enqueue : Kernel → ℕ → Kernel
enqueue k t =
    set_status (record k { ready_list = list_insert_ordered (higher k.thread) t k.ready_list }) t
      ready

unfoldable pub thread_unblock : Kernel → ℕ → Outcome Kernel
unfolding thread_yield
thread_unblock k t =
    if is_blocked (status_of k t)
    then (if not (is_idle k k.current) && ltb (priority_of k k.current) (priority_of k t)
        then thread_yield (enqueue k t)
        else done (enqueue k t))
    else panic

unfoldable pub thread_set_priority : Kernel → ℕ → Outcome Kernel
unfolding thread_yield
thread_set_priority k new_priority =
    let curr = k.thread k.current in
    if curr.priority == curr.origin_priority
    then preempt
    else done (record k {
      thread = update k.thread k.current (record curr { origin_priority = new_priority });
    })
  where
    changed : Kernel
    changed = record k {
      thread =
          update k.thread k.current (record (k.thread k.current) {
            priority = new_priority;
            origin_priority = new_priority;
          });
    }

    preempt : Outcome Kernel
    preempt = elim (k.ready_list) [
      | [] ↦ done changed
      | t ∷ rest ↦
          if ltb new_priority (priority_of changed t) then thread_yield changed else done changed
    ]

-- `thread_tick`; the tick counters for statistics are left out.
unfoldable pub thread_tick : Kernel → Kernel
thread_tick k = record k {
  thread_ticks = k.thread_ticks + 1;
  yield_on_return = if leb time_slice (k.thread_ticks + 1) then true else k.yield_on_return;
}

-- `thread_to_sleep`.
unfoldable pub thread_to_sleep : Kernel → ℕ → Outcome Kernel
unfolding thread_block list_insert_ordered
thread_to_sleep k when_to_wakeup = thread_block (record asleep {
  sleeping_list = list_insert_ordered (earlier asleep.thread) k.current k.sleeping_list;
})
  where
    asleep : Kernel
    asleep = record k {
      thread =
          update k.thread k.current (record (k.thread k.current) { morning_tick = when_to_wakeup });
    }

-- The loop of `thread_to_wakeup` over what is left of the sleeping list.
unfoldable pub wakeup_loop : Kernel → ℕ → List ℕ → Outcome Kernel
unfolding thread_unblock
wakeup_loop k current_tick [] = done k
wakeup_loop k current_tick (t ∷ ts) = elim (leb (k.thread t).morning_tick current_tick) [
  | true ↦ do
    k' ← thread_unblock (record k { sleeping_list = ts }) t
    wakeup_loop k' current_tick ts
  | false ↦ done k
]

unfoldable pub thread_to_wakeup : Kernel → ℕ → Outcome Kernel
unfolding wakeup_loop
thread_to_wakeup k current_tick = wakeup_loop k current_tick k.sleeping_list

-- `timer_interrupt`, called by `intr_handler` in the context of an external interrupt.
unfoldable pub timer_interrupt : Kernel → Outcome Kernel
unfolding thread_tick thread_to_wakeup
timer_interrupt k =
    let ticked = thread_tick (record k { ticks = k.ticks + 1 }) in
    thread_to_wakeup ticked ticked.ticks

-- `intr_handler` (pintos/src/threads/interrupt.c) for the timer: an external interrupt, at whose end
-- the interrupted thread may have to yield.
unfoldable pub intr_handler : Kernel → Outcome Kernel
unfolding timer_interrupt
intr_handler k =
    if k.in_external
    then panic
    else timer_interrupt (record k { in_external = true; yield_on_return = false }) >>= λ k'.
        let left = record k' { in_external = false } in
        if left.yield_on_return then thread_yield left else done left
