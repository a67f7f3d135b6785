-- ===== src/Synch/Exclusion.antt =====
-- Mutual exclusion: a lock is held exactly while its semaphore is 0, and is taken only when it is free.
use spring_os.Prelude.{ℕ, ◌≡◌, subst, Bool, true, none, some}
use spring_os.Prelude.Outcome.{done}
use spring_os.Thread.{Thread, Kernel}
use spring_os.Synch.{Sync, acquire_round, lock_acquire, lock_release, lock_try_acquire}
use spring_os.Synch.Safe.{Safe, Exclusive}
use spring_os.Synch.Acquire.{
  Acquired, acquire_round-Acquired, lock_acquire-Acquired, lock_try_acquire-Acquired,
}
use spring_os.Synch.Release.{lock_release-Exclusive}

-- What threads do with locks, and whatever else changes the kernel in between.
pub data Step (donor_less : (ℕ → Thread) → ℕ → ℕ → Bool) (s : Sync) : Sync → Type 0 where
  acquire :
      (l : ℕ) (taken : Bool) {s' : Sync}
      → lock_acquire donor_less s l ≡ done (taken, s')
      → Step donor_less s s'
  retry :
      (l : ℕ) (taken : Bool) {s' : Sync}
      → acquire_round s l ≡ done (taken, s')
      → Step donor_less s s'
  attempt :
      (l : ℕ) (taken : Bool) {s' : Sync}
      → lock_try_acquire s l ≡ done (taken, s')
      → Step donor_less s s'
  release : (l : ℕ) {s' : Sync} → lock_release donor_less s l ≡ done s' → Step donor_less s s'
  run : (k : Kernel) → Step donor_less s (record s { kernel = k })

pub data Steps (donor_less : (ℕ → Thread) → ℕ → ℕ → Bool) (s : Sync) : Sync → Type 0 where
  stop : Steps donor_less s s
  next : {s' s'' : Sync} → Steps donor_less s s' → Step donor_less s' s'' → Steps donor_less s s''

module _ (donor_less : (ℕ → Thread) → ℕ → ℕ → Bool) where
  Step-Exclusive : (s s' : Sync) → Step donor_less s s' → Exclusive s → Exclusive s'
  unfolding Acquired
  Step-Exclusive s s' (acquire l taken e) ok =
      (subst (Safe (Acquired s l)) e (lock_acquire-Acquired donor_less s l ok)).0
  Step-Exclusive s s' (retry l taken e) ok =
      (subst (Safe (Acquired s l)) e (acquire_round-Acquired s l ok)).0
  Step-Exclusive s s' (attempt l taken e) ok =
      (subst (Safe (Acquired s l)) e (lock_try_acquire-Acquired s l ok)).0
  Step-Exclusive s s' (release l e) ok =
      (subst (Safe (λ t. Exclusive t × ((t.lock l).holder ≡ none))) e
        (lock_release-Exclusive donor_less s l ok)).0
  Step-Exclusive s s' (run k) ok = ok

  Steps-Exclusive : (s s' : Sync) → Steps donor_less s s' → Exclusive s → Exclusive s'
  Steps-Exclusive s s' stop ok = ok
  Steps-Exclusive s s'' (next {s'} steps step) ok =
      Step-Exclusive s' s'' step (Steps-Exclusive s s' steps ok)

  -- From locks that are all free with a semaphore of 1 or held with a semaphore of 0, after any
  -- sequence of returning calls of lock_acquire, further rounds of it, lock_try_acquire and
  -- lock_release, on any locks, and of any other changes of the kernel: where a round of
  -- lock_acquire then takes a lock, the lock was free, the running thread holds it afterwards, and
  -- every lock is again free with a semaphore of 1 or held with a semaphore of 0.
  pub acquired-Exclusive :
      (s s' s'' : Sync) (l : ℕ)
      → Exclusive s
      → Steps donor_less s s'
      → acquire_round s' l ≡ done (true, s'')
      → ((s'.lock l).holder ≡ none)
        × ((s''.lock l).holder ≡ some (s'.kernel).current)
        × Exclusive s''
  unfolding Acquired
  acquired-Exclusive s s' s'' l ok steps e =
      let (after, taken) =
        subst (Safe (Acquired s' l)) e
          (acquire_round-Acquired s' l (Steps-Exclusive s s' steps ok)) in
      (taken.0, taken.1, after)
