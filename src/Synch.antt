-- ===== src/Synch.antt =====
-- pintos/src/threads/synch.c: semaphores, locks and the donation of priorities, over the scheduler.
pub mod Donate
pub mod Sema
pub mod Safe
pub mod Acquire
pub mod Release
pub mod Exclusion
mod Tests
use spring_os.Prelude.{
  ℕ, zero, suc, ◌+◌, ◌-◌, ◌%◌, ◌^◌, Bool, true, false, Option, none, some, List, [], ◌∷◌, ◌++◌, ltb,
  ◌==◌, if◌then◌else◌,
}
use spring_os.Prelude.Outcome.{Outcome, done, panic, ◌>>=◌}
use spring_os.Disk.{update}
use spring_os.KernelList.{list_insert_ordered}
use spring_os.KernelList.Sort.{list_sort}
use spring_os.Thread.{Thread, Kernel, priority_of, higher, thread_block, thread_unblock}

pub record Semaphore : Type 0 where
  pub value : ℕ
  pub waiters : List ℕ

pub record Lock : Type 0 where
  pub holder : Option ℕ
  pub semaphore : Semaphore

-- The kernel with its locks, by number, and the members of `struct thread` for donation.
pub record Sync : Type 0 where
  pub kernel : Kernel
  pub lock : ℕ → Lock
  pub waiting_lock : ℕ → Option ℕ
  pub potential_donator : ℕ → List ℕ

abbrev pub sema_init : ℕ → Semaphore
sema_init value = record { value = value; waiters = [] }

abbrev pub lock_init : Lock
lock_init = record { holder = none; semaphore = sema_init 1 }

unfoldable pub sema_try_down : Semaphore → Bool × Semaphore
sema_try_down sema =
    if ltb 0 sema.value then (true, record sema { value = sema.value - 1 }) else (false, sema)

-- The highest of the waiters is unblocked.
unfoldable pub sema_up : Kernel → Semaphore → Outcome (Semaphore × Kernel)
unfolding list_sort thread_unblock
sema_up k sema = elim (sema.waiters) as (λ _. Outcome (Semaphore × Kernel)) [
  | [] ↦ done (record { value = (sema.value + 1) % 2 ^ 32; waiters = [] }, k)
  | w ∷ ws ↦ do
    sorted ← list_sort (higher k.thread) (w ∷ ws)
    elim sorted as (λ _. Outcome (Semaphore × Kernel)) [
      | [] ↦ panic
      | most_priority ∷ rest ↦ do
        k ← thread_unblock k most_priority
        done (record { value = (sema.value + 1) % 2 ^ 32; waiters = rest }, k)
    ]
]

abbrev pub set_priority : Sync → ℕ → ℕ → Sync
set_priority s t p = record s {
  kernel = record (s.kernel) {
    thread = update (s.kernel).thread t (record ((s.kernel).thread t) { priority = p });
  };
}

-- The loop of `donate_priority` from the thread `curr`, for at most `n` rounds.
unfoldable pub donate_loop : ℕ → Sync → ℕ → Sync
donate_loop zero s curr = s
donate_loop (suc n) s curr = elim (s.waiting_lock curr) [
  | none ↦ s
  | some l ↦ elim ((s.lock l).holder) [
    | none ↦ s
    | some h ↦
        if ltb (priority_of s.kernel h) (priority_of s.kernel curr)
        then donate_loop n (set_priority s h (priority_of s.kernel curr)) h
        else s
  ]
]

unfoldable pub donate_priority : Sync → Sync
unfolding donate_loop
donate_priority s = donate_loop 8 s (s.kernel).current

-- A round of the loop of `sema_down`, and the decrement behind it: whether the semaphore was taken. If
-- not, the thread runs the next round when it is scheduled again.
unfoldable pub sema_down : Sync → Semaphore → Outcome (Bool × Semaphore × Sync)
unfolding donate_priority thread_block
sema_down s sema =
    if (s.kernel).in_external
    then panic
    else (if sema.value == 0
        then (let donated = donate_priority s in
            do
              k ← thread_block donated.kernel
              done (
                false,
                record sema { waiters = sema.waiters ++ ((s.kernel).current ∷ []) },
                record donated { kernel = k },
              ))
        else done (true, record sema { value = sema.value - 1 }, s))

abbrev pub held_by : Option ℕ → ℕ → Bool
held_by none t = false
held_by (some h) t = h == t

-- The part of `lock_acquire` from `sema_down` on, by rounds as well.
unfoldable pub acquire_round : Sync → ℕ → Outcome (Bool × Sync)
unfolding sema_down
acquire_round s l = do
  (taken, sema, s') ← sema_down s (s.lock l).semaphore
  if taken
      then done (
        true,
        record s' {
          lock = update s'.lock l (record { holder = some (s.kernel).current; semaphore = sema });
        },
      )
      else done
          (false, record s' { lock = update s'.lock l (record (s'.lock l) { semaphore = sema }) })

-- The order of a list of donors. `compare_priority` takes its elements for another member of the
-- thread, so that what it compares is not known.
module _ (donor_less : (ℕ → Thread) → ℕ → ℕ → Bool) where
  unfoldable pub lock_acquire : Sync → ℕ → Outcome (Bool × Sync)
  unfolding acquire_round list_insert_ordered
  lock_acquire s l =
      if (s.kernel).in_external
      then panic
      else (if held_by (s.lock l).holder (s.kernel).current
          then panic
          else elim ((s.lock l).holder) [
            | none ↦ acquire_round s l
            | some h ↦
                acquire_round
                  (record s {
                    waiting_lock = update s.waiting_lock (s.kernel).current (some l);
                    potential_donator = update s.potential_donator h (
                        list_insert_ordered (donor_less (s.kernel).thread) (s.kernel).current
                          (s.potential_donator h));
                  })
                  l
          ])

  -- The loop of `restore_priority`: the donors that do not wait for the lock.
  unfoldable pub drop_donors : Sync → ℕ → List ℕ → List ℕ
  drop_donors s l [] = []
  drop_donors s l (t ∷ ts) = elim (s.waiting_lock t) [
    | none ↦ t ∷ drop_donors s l ts
    | some l' ↦ if l == l' then drop_donors s l ts else t ∷ drop_donors s l ts
  ]

  unfoldable pub restore_priority : Sync → ℕ → Outcome Sync
  unfolding drop_donors list_sort
  restore_priority s l = do
    let curr = (s.kernel).current
    sorted ← list_sort (donor_less (s.kernel).thread) (s.potential_donator curr)
    let left = drop_donors s l sorted
    let restored = set_priority s curr ((s.kernel).thread curr).origin_priority
    elim left as (λ _. Outcome Sync) [
      | [] ↦ done (record restored { potential_donator = update s.potential_donator curr [] })
      | t ∷ ts ↦ do
        again ← list_sort (donor_less (restored.kernel).thread) (t ∷ ts)
        elim again as (λ _. Outcome Sync) [
          | [] ↦ panic
          | maybe_donator ∷ others ↦
              let kept = record restored {
                potential_donator = update s.potential_donator curr (maybe_donator ∷ others);
              } in
              if ltb (priority_of kept.kernel curr) (priority_of kept.kernel maybe_donator)
              then done (set_priority kept curr (priority_of kept.kernel maybe_donator))
              else done kept
        ]
    ]

  -- The holder is cleared just before interrupts are off. A switch in between is not modelled: until the
  -- thread goes on, its semaphore is still 0 and no other thread can take the lock.
  unfoldable pub lock_release : Sync → ℕ → Outcome Sync
  unfolding restore_priority sema_up
  lock_release s l =
      if held_by (s.lock l).holder (s.kernel).current
      then (do
        s ←
            restore_priority
              (record s { lock = update s.lock l (record (s.lock l) { holder = none }) }) l
        (sema, k) ← sema_up s.kernel (s.lock l).semaphore
        done (record s {
          kernel = k;
          lock = update s.lock l (record (s.lock l) { semaphore = sema });
        }))
      else panic

unfoldable pub lock_try_acquire : Sync → ℕ → Outcome (Bool × Sync)
unfolding sema_try_down
lock_try_acquire s l =
    if held_by (s.lock l).holder (s.kernel).current
    then panic
    else (let (success, sema) = sema_try_down (s.lock l).semaphore in
        if success
        then done (
          true,
          record s {
            waiting_lock = update s.waiting_lock (s.kernel).current none;
            lock = update s.lock l (record { holder = some (s.kernel).current; semaphore = sema });
          },
        )
        else done (false, s))
