-- ===== src/Synch/Safe.antt =====
-- What locks look like, what holds of a routine if it returns, and `sema_down`.
use spring_os.Prelude.{
  ℕ, zero, suc, ◌-◌, ◌≡◌, refl, ◌⊎◌, inl, inr, Bool, true, false, none, some, ltb, ◌==◌,
  if◌then◌else◌, Bool-cases, Option-cases, ==→eq,
}
use spring_os.Prelude.Outcome.{Outcome, done, blocked, panic, fault, ◌>>=◌}
use spring_os.Disk.{update}
use spring_os.Thread.{priority_of, thread_block}
use spring_os.Synch.{Semaphore, Lock, Sync, set_priority, donate_loop, donate_priority, sema_down}

-- What holds if the routine returns.
abbrev pub Safe : {A : Type 0} → (A → Type 0) → Outcome A → Type 0
Safe P (done a) = P a
Safe P blocked = Unit {0}
Safe P panic = Unit {0}
Safe P fault = Unit {0}

pub Safe-bind :
    {A B : Type 0} (P : A → Type 0) (Q : B → Type 0) (m : Outcome A) (f : A → Outcome B)
    → Safe P m
    → ((a : A) → P a → Safe Q (f a))
    → Safe Q (m >>= f)
Safe-bind P Q (done a) f h k = k a h
Safe-bind P Q blocked f h k = tt
Safe-bind P Q panic f h k = tt
Safe-bind P Q fault f h k = tt

pub Safe-any : {A : Type 0} (m : Outcome A) → Safe (λ a. Unit {0}) m
Safe-any (done a) = tt
Safe-any blocked = tt
Safe-any panic = tt
Safe-any fault = tt

pub Safe-if :
    {A : Type 0} (P : A → Type 0) (b : Bool) (m m' : Outcome A)
    → (b ≡ true → Safe P m)
    → (b ≡ false → Safe P m')
    → Safe P (if b then m else m')
Safe-if P true m m' h h' = h refl
Safe-if P false m m' h h' = h' refl

-- Free with a semaphore of 1, or held with a semaphore of 0.
abbrev pub LockOk : Lock → Type 0
LockOk k =
    ((k.holder ≡ none) × ((k.semaphore).value ≡ 1))
    ⊎ ((h : ℕ) × (k.holder ≡ some h) × ((k.semaphore).value ≡ 0))

abbrev pub Exclusive : Sync → Type 0
Exclusive s = (l : ℕ) → LockOk (s.lock l)

pub update-Exclusive :
    (s : Sync) (l : ℕ) (k : Lock) (lock : ℕ → Lock)
    → Exclusive s
    → lock ≡ s.lock
    → LockOk k
    → (m : ℕ) → LockOk (update lock l k m)
update-Exclusive s l k lock ok same new m = elim (Bool-cases (l == m)) [
  | inl hit ↦ rw hit new
  | inr miss ↦ rw (miss, same) (ok m)
]

donate_loop-lock : (n : ℕ) (s : Sync) (curr : ℕ) → (donate_loop n s curr).lock ≡ s.lock
unfolding donate_loop
donate_loop-lock zero s curr = refl
donate_loop-lock (suc n) s curr = elim (Option-cases (s.waiting_lock curr)) [
  | inl free ↦ rw (free, donate_loop) refl
  | inr (l, waits) ↦ elim (Option-cases ((s.lock l).holder)) [
    | inl free ↦ rw (waits, donate_loop, free) refl
    | inr (h, holds) ↦
        elim (Bool-cases (ltb (priority_of s.kernel h) (priority_of s.kernel curr))) [
          | inl lower ↦
              rw (waits, donate_loop, holds, lower)
                (donate_loop-lock n (set_priority s h (priority_of s.kernel curr)) h)
          | inr enough ↦ rw (waits, donate_loop, holds, enough) refl
        ]
  ]
]

donate_priority-lock : (s : Sync) → (donate_priority s).lock ≡ s.lock
unfolding donate_priority
donate_priority-lock s = donate_loop-lock 8 s (s.kernel).current

-- A semaphore is taken from a positive value alone, and left as it was otherwise.
unfoldable pub Downed : Sync → Semaphore → Bool × Semaphore × Sync → Type 0
Downed s sema (taken, sema', s') =
    (s'.lock ≡ s.lock)
    × (if taken
        then ((sema.value == 0) ≡ false) × (sema'.value ≡ sema.value - 1)
        else (sema.value ≡ 0) × (sema'.value ≡ 0))

pub sema_down-Downed : (s : Sync) (sema : Semaphore) → Safe (Downed s sema) (sema_down s sema)
unfolding sema_down Downed
sema_down-Downed s sema =
    Safe-if _ (s.kernel).in_external _ _ (λ inside. tt)
      λ outside.
        Safe-if _ (sema.value == 0) _ _
          (λ empty.
            Safe-bind _ _ (thread_block (donate_priority s).kernel) _
              (Safe-any (thread_block (donate_priority s).kernel))
              λ k y. (donate_priority-lock s, (==→eq _ _ empty, ==→eq _ _ empty)))
          (λ positive. (refl, (positive, refl)))
