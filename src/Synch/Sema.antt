-- ===== src/Synch/Sema.antt =====
-- `sema_up` wakes the highest waiter.
use mathlib.Core.List.{Perm, Mem, mem-cons_self, not-mem-nil}
use mathlib.Core.List.Perm
use spring_os.Prelude.{ℕ, ◌+◌, ◌%◌, ◌^◌, ◌≤◌, ◌≡◌, refl, false, some, List, [], ◌∷◌, ltb→ge}
use spring_os.Prelude.Outcome.{Outcome, done, panic, Returns, Returns-bind, ◌>>=◌}
use spring_os.KernelList.Ordered.{All, All-mono, Ordered}
use spring_os.KernelList.Sort.{list_sort}
use spring_os.KernelList.Sort.Passes.{list_sort-Sorted}
use spring_os.Thread.{blocked, Kernel, priority_of, status_of, higher, is_idle, thread_unblock}
use spring_os.Thread.Invariant.{Absent, Scheduled, higher-StrictWeak}
use spring_os.Thread.Unblock.{Fair, Unblocked, thread_unblock-Unblocked}
use spring_os.Synch.{Semaphore, sema_up}

-- A thread that waits and can be woken: blocked, not asleep, not the idle thread.
abbrev pub Waits : Kernel → ℕ → Type 0
Waits k t = (status_of k t ≡ blocked) × Absent t k.sleeping_list × (is_idle k t ≡ false)

-- With no waiter only the value rises; else the first of the highest waiters is taken off and woken.
pub data Upped (k : Kernel) (sema : Semaphore) : Semaphore → Kernel → Type 0 where
  nobody : sema.waiters ≡ [] → {sema' : Semaphore} → sema'.waiters ≡ [] → Upped k sema sema' k
  woke :
      (woken : ℕ) {sema' : Semaphore} {k' : Kernel}
      → Perm (woken ∷ sema'.waiters) sema.waiters
      → All (λ t. priority_of k t ≤ priority_of k woken) sema'.waiters
      → Unblocked woken k k'
      → Upped k sema sema' k'

sorted-highest :
    (k : Kernel) (woken : ℕ) (rest : List ℕ)
    → Ordered (higher k.thread) (woken ∷ rest)
    → All (λ t. priority_of k t ≤ priority_of k woken) rest
sorted-highest k woken rest ordered = All-mono _ _ rest (λ t h. ltb→ge _ _ h) ordered.0

module _ (k : Kernel) (ok : Scheduled k) (fair : Fair k) (i : ℕ) (idle : k.idle_thread ≡ some i)
    (inside : k.in_external ≡ false) where
  wake_first :
      (old value w : ℕ) (ws sorted : List ℕ)
      → ((t : ℕ) → Mem t ws → Waits k t)
      → Mem w ws
      → Ordered (higher k.thread) sorted
      → Perm sorted ws
      → Returns
          (λ (sema', k').
            (sema'.value ≡ value) × Upped k (record { value = old; waiters = ws }) sema' k')
          (elim sorted as (λ _. Outcome (Semaphore × Kernel)) [
            | [] ↦ panic
            | most_priority ∷ rest ↦ thread_unblock k most_priority >>= λ k'.
                done (record { value = value; waiters = rest }, k')
          ])
  wake_first old value w ws [] waits some_wait ordered perm =
      absurd (not-mem-nil ((Perm.mem_iff perm).1 some_wait))
  wake_first old value w ws (woken ∷ rest) waits some_wait ordered perm =
      let (stopped, awake, busy) = waits woken ((Perm.mem_iff perm).0 mem-cons_self) in
      Returns-bind _ _ (thread_unblock k woken) _
        (thread_unblock-Unblocked k woken ok stopped awake busy i idle inside fair)
        λ k' unblocked. (refl, woke woken perm (sorted-highest k woken rest ordered) unblocked)

  -- In a scheduled kernel outside an interrupt, in which the running thread is idle or as high as
  -- every ready thread, and with waiters that are blocked, not asleep and not the idle thread,
  -- sema_up returns: the value is one more, modulo 2^32, and if there is no waiter the kernel is
  -- as before; else one of the highest waiters is taken off the list and is no longer blocked, the
  -- other waiters stay, the sleeping list is as before, and the kernel is scheduled with its
  -- running thread idle or as high as every ready thread.
  pub sema_up-Upped :
      (sema : Semaphore)
      → ((t : ℕ) → Mem t sema.waiters → Waits k t)
      → Returns
          (λ (sema', k'). (sema'.value ≡ (sema.value + 1) % 2 ^ 32) × Upped k sema sema' k')
          (sema_up k sema)
  unfolding sema_up
  sema_up-Upped sema waits = go sema.waiters refl
    where
      go :
          (ws : List ℕ)
          → sema.waiters ≡ ws
          → Returns
              (λ (sema', k'). (sema'.value ≡ (sema.value + 1) % 2 ^ 32) × Upped k sema sema' k')
              (elim ws as (λ _. Outcome (Semaphore × Kernel)) [
                | [] ↦ done (record { value = (sema.value + 1) % 2 ^ 32; waiters = [] }, k)
                | w ∷ ws' ↦ do
                  sorted ← list_sort (higher k.thread) (w ∷ ws')
                  elim sorted as (λ _. Outcome (Semaphore × Kernel)) [
                    | [] ↦ panic
                    | most_priority ∷ rest ↦ do
                      k' ← thread_unblock k most_priority
                      done (record { value = (sema.value + 1) % 2 ^ 32; waiters = rest }, k')
                  ]
              ])
      go [] is = (refl, nobody is refl)
      go (w ∷ ws') is =
          Returns-bind _ _ (list_sort (higher k.thread) (w ∷ ws')) _
            (list_sort-Sorted (higher k.thread) (higher-StrictWeak k.thread) (w ∷ ws'))
            λ sorted (ordered, perm).
              wake_first sema.value ((sema.value + 1) % 2 ^ 32) w sema.waiters sorted waits
                (rw is mem-cons_self) ordered (rw is perm)
