-- ===== src/Synch/Release.antt =====
-- `lock_release` leaves the lock free with a semaphore of 1.
use spring_os.Prelude.{
  ℕ, ◌+◌, ◌%◌, ◌^◌, ◌≡◌, refl, sym, ap, subst, ◌∙◌, inl, inr, Bool, false, none, some, List, [],
  ◌∷◌, ltb, ◌==◌, if◌then◌else◌, Bool-cases, ==_refl, arith,
}
use spring_os.Prelude.Outcome.{Outcome, done, panic, ◌>>=◌}
use spring_os.Disk.{update}
use spring_os.KernelList.Sort.{list_sort}
use spring_os.Thread.{Thread, Kernel, priority_of, higher, thread_unblock}
use spring_os.Synch.{
  Semaphore, Lock, Sync, set_priority, sema_up, held_by, restore_priority, drop_donors,
  lock_release,
}
use spring_os.Synch.Safe.{Safe, Safe-bind, Safe-any, Safe-if, LockOk, Exclusive}
use spring_os.Synch.Acquire.{held_by-some}

pub sema_up-value :
    (k : Kernel) (sema : Semaphore)
    → Safe (λ (sema', k'). sema'.value ≡ (sema.value + 1) % 2 ^ 32) (sema_up k sema)
unfolding sema_up
sema_up-value k sema = go sema.waiters
  where
    first :
        (sorted : List ℕ)
        → Safe
            (λ (sema', k'). sema'.value ≡ (sema.value + 1) % 2 ^ 32)
            (elim sorted as (λ _. Outcome (Semaphore × Kernel)) [
              | [] ↦ panic
              | most_priority ∷ rest ↦ do
                k' ← thread_unblock k most_priority
                done (record { value = (sema.value + 1) % 2 ^ 32; waiters = rest }, k')
            ])
    first [] = tt
    first (t ∷ rest) =
        Safe-bind _ _ (thread_unblock k t) _ (Safe-any (thread_unblock k t)) λ k' y. refl

    go :
        (ws : List ℕ)
        → Safe
            (λ (sema', k'). sema'.value ≡ (sema.value + 1) % 2 ^ 32)
            (elim ws as (λ _. Outcome (Semaphore × Kernel)) [
              | [] ↦ done (record { value = (sema.value + 1) % 2 ^ 32; waiters = [] }, k)
              | w ∷ ws' ↦ do
                sorted ← list_sort (higher k.thread) (w ∷ ws')
                elim sorted as (λ _. Outcome (Semaphore × Kernel)) [
                  | [] ↦ panic
                  | most_priority ∷ rest ↦ do
                    k' ← thread_unblock k most_priority
                    done (record { value = (sema.value + 1) % 2 ^ 32; waiters = rest }, k')
                ]
            ])
    go [] = refl
    go (w ∷ ws') =
        Safe-bind _ _ (list_sort (higher k.thread) (w ∷ ws')) _
          (Safe-any (list_sort (higher k.thread) (w ∷ ws'))) λ sorted y. first sorted

module _ (donor_less : (ℕ → Thread) → ℕ → ℕ → Bool) where
  pub restore_priority-lock :
      (s : Sync) (l : ℕ) → Safe (λ s'. s'.lock ≡ s.lock) (restore_priority donor_less s l)
  unfolding restore_priority
  restore_priority-lock s l =
      Safe-bind _ _ (list_sort (donor_less (s.kernel).thread) (s.potential_donator curr)) _
        (Safe-any (list_sort (donor_less (s.kernel).thread) (s.potential_donator curr)))
        λ sorted y. go (drop_donors donor_less s l sorted)
    where
      curr : ℕ
      curr = (s.kernel).current

      restored : Sync
      restored = set_priority s curr ((s.kernel).thread curr).origin_priority

      kept : ℕ → List ℕ → Sync
      kept t others = record restored {
        potential_donator = update s.potential_donator curr (t ∷ others);
      }

      front :
          (again : List ℕ)
          → Safe
              (λ s'. s'.lock ≡ s.lock)
              (elim again as (λ _. Outcome Sync) [
                | [] ↦ panic
                | t ∷ others ↦
                    if ltb
                      (priority_of (kept t others).kernel curr)
                      (priority_of (kept t others).kernel t)
                    then done
                        (set_priority (kept t others) curr (priority_of (kept t others).kernel t))
                    else done (kept t others)
              ])
      front [] = tt
      front (t ∷ others) =
          Safe-if _
            (ltb (priority_of (kept t others).kernel curr) (priority_of (kept t others).kernel t)) _
            _ (λ h. refl) (λ h. refl)

      go :
          (left : List ℕ)
          → Safe
              (λ s'. s'.lock ≡ s.lock)
              (elim left as (λ _. Outcome Sync) [
                | [] ↦
                    done
                      (record restored { potential_donator = update s.potential_donator curr [] })
                | t ∷ ts ↦ do
                  again ← list_sort (donor_less (restored.kernel).thread) (t ∷ ts)
                  elim again as (λ _. Outcome Sync) [
                    | [] ↦ panic
                    | maybe_donator ∷ others ↦
                        if ltb
                          (priority_of (kept maybe_donator others).kernel curr)
                          (priority_of (kept maybe_donator others).kernel maybe_donator)
                        then done (
                            set_priority
                              (kept maybe_donator others)
                              curr
                              (priority_of (kept maybe_donator others).kernel maybe_donator))
                        else done (kept maybe_donator others)
                  ]
              ])
      go [] = refl
      go (t ∷ ts) =
          Safe-bind _ _ (list_sort (donor_less (restored.kernel).thread) (t ∷ ts)) _
            (Safe-any (list_sort (donor_less (restored.kernel).thread) (t ∷ ts)))
            λ again y. front again

  held_zero : (k : Lock) → LockOk k → ((h : ℕ) × (k.holder ≡ some h)) → k.semaphore.value ≡ 0
  held_zero k (inl (free, one)) (h, held) = absurd (cc)
  held_zero k (inr (h', held', zero_value)) (h, held) = zero_value

  pub lock_release-Exclusive :
      (s : Sync) (l : ℕ)
      → Exclusive s
      → Safe (λ s'. Exclusive s' × ((s'.lock l).holder ≡ none)) (lock_release donor_less s l)
  unfolding lock_release
  lock_release-Exclusive s l ok =
      Safe-if _ (held_by (s.lock l).holder (s.kernel).current) _ _
        (λ mine.
          Safe-bind _ _ (restore_priority donor_less released l) _
            (restore_priority-lock released l)
            λ s1 same.
              Safe-bind _ _ (sema_up s1.kernel (s1.lock l).semaphore) _
                (sema_up-value s1.kernel (s1.lock l).semaphore)
                λ (sema, k) value.
                  let here : s1.lock l ≡ record (s.lock l) { holder = none } =
                    ap (λ f. f l) same ∙ rw (==_refl l) refl in
                  let empty : (s.lock l).semaphore.value ≡ 0 =
                    held_zero (s.lock l) (ok l)
                      (held_by-some (s.lock l).holder (s.kernel).current mine) in
                  let one : sema.value ≡ 1 =
                    omega (arith, value, ap (λ m. m.semaphore.value) here, empty) in
                  let new : LockOk (record (s1.lock l) { semaphore = sema }) =
                    inl (ap (λ m. m.holder) here, one) in
                  (
                    (λ m. elim (Bool-cases (l == m)) [
                      | inl hit ↦ rw hit new
                      | inr miss ↦
                          rw miss
                            (subst LockOk (sym (ap (λ f. f m) same ∙ elsewhere m miss)) (ok m))
                    ]),
                    rw (==_refl l) (ap (λ m. m.holder) here),
                  ))
        (λ other. tt)
    where
      released : Sync
      released = record s { lock = update s.lock l (record (s.lock l) { holder = none }) }

      elsewhere : (m : ℕ) → (l == m) ≡ false → released.lock m ≡ s.lock m
      elsewhere m miss = rw miss refl
