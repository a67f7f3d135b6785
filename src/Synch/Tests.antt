-- ===== src/Synch/Tests.antt =====
-- The theorems at the kernel of the scheduler's tests.
use mathlib.Core.List.{Mem, mem-singleton}
use native.Mathlib.Nat.{ℕ_set}
use spring_os.Prelude.{
  ℕ, ◌≡◌, ◌≢◌, refl, sym, subst, Bool, true, Option, none, some, [], ◌∷◌, ◌==◌, if◌then◌else◌,
  Bool-cases, inl, inr, ==→eq, ltb,
}
use spring_os.Prelude.Outcome.{done, Returns}
use spring_os.Disk.{update}
use spring_os.Thread.{Thread, priority_of}
use spring_os.Thread.Tests.{kernel, kernel-Scheduled, kernel-Fair}
use spring_os.Synch.{
  Semaphore, Sync, sema_init, sema_up, sema_down, sema_try_down, donate_priority, lock_try_acquire,
  acquire_round,
}
use spring_os.Synch.Sema.{Waits, Upped, sema_up-Upped}
use spring_os.Synch.Donate.{Backed, BackedBut, Ends, Raised, donate_priority-Backed}
use spring_os.Synch.Safe.{Exclusive}
use spring_os.Synch.Exclusion.{attempt, stop, next, acquired-Exclusive}

-- Thread 3 waits.
abbrev waited : Semaphore
waited = record { value = 0; waiters = 3 ∷ [] }

three_Waits : (t : ℕ) → Mem t (3 ∷ []) → Waits (kernel 4) t
three_Waits t m =
    subst (Waits (kernel 4)) (sym ((mem-singleton ℕ_set).0 m)) (refl, (refl, (refl, tt)), refl)

sema_up-Upped_example :
    Returns
      (λ (sema', k'). (sema'.value ≡ 1) × Upped (kernel 4) waited sema' k')
      (sema_up (kernel 4) waited)
sema_up-Upped_example =
    sema_up-Upped (kernel 4) (kernel-Scheduled 4) (kernel-Fair 4) 0 refl refl waited three_Waits

-- Thread 1 waits for a lock that thread 0 holds.
abbrev waits : ℕ → Option ℕ
waits t = if t == 1 then some 7 else none

abbrev sync : Sync
sync = record {
  kernel = kernel 4;
  lock = λ l. record { holder = some 0; semaphore = sema_init 0 };
  waiting_lock = waits;
  potential_donator = λ t. [];
}

no_lock : {l : ℕ} → none ≢ some l
no_lock e = cc

sync-BackedBut : BackedBut sync 1
sync-BackedBut t l h ne waiting holds = elim (Bool-cases (t == 1)) [
  | inl hit ↦ absurd (ne (==→eq t 1 hit))
  | inr miss ↦ let no : none ≡ some l = rw miss at waiting in absurd (no_lock no)
]

sync-Ends : Ends 8 waits sync.lock 1
sync-Ends l h waiting holds l' h' waiting' holds' =
    let is : h ≡ 0 = sym (zero_is h holds) in
    absurd (no_lock (subst (λ u. waits u ≡ some l') is waiting'))
  where
    zero_is : (h : ℕ) → some 0 ≡ some h → 0 ≡ h
    zero_is h e = cc

donate_priority-Backed_example :
    Backed (donate_priority sync) × Raised (priority_of (kernel 4) 1) sync (donate_priority sync)
donate_priority-Backed_example = donate_priority-Backed sync sync-BackedBut sync-Ends

-- Two free locks; thread 1 takes lock 7 and then lock 8.
abbrev unlocked : Sync
unlocked = record {
  kernel = kernel 4;
  lock = λ l. record { holder = none; semaphore = sema_init 1 };
  waiting_lock = λ t. none;
  potential_donator = λ t. [];
}

abbrev first_held : Sync
first_held = record unlocked {
  waiting_lock = update unlocked.waiting_lock 1 none;
  lock = update unlocked.lock 7 (record { holder = some 1; semaphore = sema_init 0 });
}

abbrev both_held : Sync
both_held = record first_held {
  lock = update first_held.lock 8 (record { holder = some 1; semaphore = sema_init 0 });
}

abbrev by_number : (ℕ → Thread) → ℕ → ℕ → Bool
by_number thread a b = ltb a b

first_taken : lock_try_acquire unlocked 7 ≡ done (true, first_held)
unfolding lock_try_acquire sema_try_down
first_taken = refl

second_taken : acquire_round first_held 8 ≡ done (true, both_held)
unfolding acquire_round sema_down
second_taken = refl

acquired-Exclusive_example :
    ((first_held.lock 8).holder ≡ none) × ((both_held.lock 8).holder ≡ some 1) × Exclusive both_held
acquired-Exclusive_example =
    acquired-Exclusive by_number unlocked first_held both_held 8 (λ l. inl (refl, refl))
      (next stop (attempt 7 true first_taken)) second_taken
