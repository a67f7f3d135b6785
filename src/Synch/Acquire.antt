-- ===== src/Synch/Acquire.antt =====
-- The ways to take a lock: only a free one is taken.
use spring_os.Prelude.{
  ℕ, ◌-◌, ◌≡◌, refl, ap, ◌∙◌, inl, inr, Bool, true, false, Option, none, some, ltb, ◌==◌,
  if◌then◌else◌, Bool-cases, ==_refl, arith,
}
use spring_os.Prelude.Outcome.{Outcome, done}
use spring_os.Disk.{update}
use spring_os.KernelList.{list_insert_ordered}
use spring_os.Thread.{Thread}
use spring_os.Synch.{
  Semaphore, Lock, Sync, sema_down, held_by, acquire_round, lock_acquire, lock_try_acquire,
  sema_try_down,
}
use spring_os.Synch.Safe.{
  Safe, Safe-bind, Safe-if, LockOk, Exclusive, update-Exclusive, Downed, sema_down-Downed,
}

pub held_by-some : (o : Option ℕ) (t : ℕ) → held_by o t ≡ true → (h : ℕ) × (o ≡ some h)
held_by-some none t h = absurd (cc)
held_by-some (some t') t h = (t', refl)

-- A lock that a round of `lock_acquire` takes was free.
unfoldable pub Acquired : Sync → ℕ → Bool × Sync → Type 0
Acquired s l (taken, s') =
    Exclusive s'
    × (if taken
        then ((s.lock l).holder ≡ none) × ((s'.lock l).holder ≡ some (s.kernel).current)
        else Unit {0})

pub LockOk-free :
    (k : Lock)
    → LockOk k
    → ((k.semaphore).value == 0) ≡ false
    → (k.holder ≡ none) × ((k.semaphore).value ≡ 1)
LockOk-free k (inl ok) positive = ok
LockOk-free k (inr (h, held, zero_value)) positive =
    absurd (zero_positive (rw zero_value at positive))
  where
    zero_positive : (0 == 0) ≡ false → ⊥
    zero_positive e = cc

pub acquire_round-Acquired :
    (s : Sync) (l : ℕ) → Exclusive s → Safe (Acquired s l) (acquire_round s l)
unfolding acquire_round Acquired Downed
acquire_round-Acquired s l ok =
    Safe-bind _ _ (sema_down s (s.lock l).semaphore) _ (sema_down-Downed s (s.lock l).semaphore)
      λ (taken, sema, s') (same, how). go taken sema s' same how
  where
    go :
        (taken : Bool) (sema : Semaphore) (s' : Sync)
        → s'.lock ≡ s.lock
        → (if taken
            then (((s.lock l).semaphore.value == 0) ≡ false)
              × (sema.value ≡ (s.lock l).semaphore.value - 1)
            else ((s.lock l).semaphore.value ≡ 0) × (sema.value ≡ 0))
        → Safe (Acquired s l) (
            if taken
            then done (
              true,
              record s' {
                lock =
                    update s'.lock l
                      (record { holder = some (s.kernel).current; semaphore = sema });
              },
            )
            else done (
              false,
              record s' { lock = update s'.lock l (record (s'.lock l) { semaphore = sema }) },
            ))
    go true sema s' same (positive, less) =
        let free = LockOk-free (s.lock l) (ok l) positive in
        (
          update-Exclusive s l _ s'.lock ok same
              (inr ((s.kernel).current, refl, omega (arith, less, free.1))),
          (free.0, rw (==_refl l) refl),
        )
    go false sema s' same (old, new) = (update-Exclusive s l _ s'.lock ok same (held_on (ok l)), tt)
      where
        held_on : LockOk (s.lock l) → LockOk (record (s'.lock l) { semaphore = sema })
        held_on (inl (free, one)) = absurd (omega (arith, old, one))
        held_on (inr (h, held, y)) = inr (h, ap (λ f. (f l).holder) same ∙ held, new)

pub lock_acquire-Acquired :
    (donor_less : (ℕ → Thread) → ℕ → ℕ → Bool) (s : Sync) (l : ℕ)
    → Exclusive s
    → Safe (Acquired s l) (lock_acquire donor_less s l)
unfolding lock_acquire Acquired
lock_acquire-Acquired donor_less s l ok =
    Safe-if _ (s.kernel).in_external _ _ (λ inside. tt)
      λ outside.
        Safe-if _ (held_by (s.lock l).holder (s.kernel).current) _ _ (λ mine. tt)
          λ other. go (s.lock l).holder
  where
    go :
        (o : Option ℕ)
        → Safe (Acquired s l) (elim o as (λ _. Outcome (Bool × Sync)) [
          | none ↦ acquire_round s l
          | some h ↦
              acquire_round
                (record s {
                  waiting_lock = update s.waiting_lock (s.kernel).current (some l);
                  potential_donator = update s.potential_donator h (
                      list_insert_ordered
                        (donor_less (s.kernel).thread)
                        (s.kernel).current
                        (s.potential_donator h));
                })
                l
        ])
    go none = acquire_round-Acquired s l ok
    go (some h) =
        acquire_round-Acquired
          (record s {
            waiting_lock = update s.waiting_lock (s.kernel).current (some l);
            potential_donator = update s.potential_donator h (
                list_insert_ordered (donor_less (s.kernel).thread) (s.kernel).current
                  (s.potential_donator h));
          })
          l ok

Tried : Semaphore → Bool → Semaphore → Type 0
Tried sema true sema' = ((sema.value == 0) ≡ false) × (sema'.value ≡ sema.value - 1)
Tried sema false sema' = Unit {0}

sema_try_down-Tried : (sema : Semaphore) → Tried sema (sema_try_down sema).0 (sema_try_down sema).1
unfolding sema_try_down Tried
sema_try_down-Tried sema = elim (Bool-cases (ltb 0 sema.value)) [
  | inl positive ↦ rw positive (ground arith, refl)
  | inr empty ↦ rw empty tt
]

pub lock_try_acquire-Acquired :
    (s : Sync) (l : ℕ) → Exclusive s → Safe (Acquired s l) (lock_try_acquire s l)
unfolding lock_try_acquire Acquired Tried
lock_try_acquire-Acquired s l ok =
    Safe-if _ (held_by (s.lock l).holder (s.kernel).current) _ _ (λ mine. tt)
      λ other.
        go (sema_try_down (s.lock l).semaphore).0 (sema_try_down (s.lock l).semaphore).1
          (sema_try_down-Tried (s.lock l).semaphore)
  where
    go :
        (success : Bool) (sema : Semaphore)
        → Tried (s.lock l).semaphore success sema
        → Safe (Acquired s l) (
            if success
            then done (
              true,
              record s {
                waiting_lock = update s.waiting_lock (s.kernel).current none;
                lock =
                    update s.lock l (record { holder = some (s.kernel).current; semaphore = sema });
              },
            )
            else done (false, s))
    go true sema (positive, less) =
        let free = LockOk-free (s.lock l) (ok l) positive in
        (
          update-Exclusive s l _ s.lock ok refl
              (inr ((s.kernel).current, refl, omega (arith, less, free.1))),
          (free.0, rw (==_refl l) refl),
        )
    go false sema y = (ok, tt)
