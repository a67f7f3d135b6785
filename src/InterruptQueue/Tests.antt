-- ===== src/InterruptQueue/Tests.antt =====
-- A ring of two bytes, for which thread 5 waits, which is above the running thread 1.
use spring_os.Prelude.{ℕ, ◌≡◌, refl, subst, some, none, [], arith, replicate, inl}
use spring_os.Prelude.Outcome.{Outcome, done, Returns, ◌>>=◌}
use spring_os.Thread.{Kernel, blocked, status_of}
use spring_os.Thread.Invariant.{Scheduled}
use spring_os.Thread.Tests
use spring_os.InterruptQueue.{Intq, intq_init, intq_getc, intq_putc, resume_not_empty}
use spring_os.InterruptQueue.Signal.{Wakeable}
use spring_os.InterruptQueue.Ring.{IsValid, Put, Got, OptionHolds, intq_putc-Stored, intq_getc-Took}

-- Nobody sleeps; thread 2 is ready.
abbrev kernel : Kernel
kernel = record (Tests.kernel 4) { sleeping_list = [] }

kernel-Scheduled : Scheduled kernel
kernel-Scheduled =
    let ok = Tests.kernel-Scheduled 4 in
    record {
      queues = record {
        ready_order = (tt, tt);
        ready_status = (refl, tt);
        ready_once = (tt, tt);
        sleep_order = tt;
        sleep_status = tt;
        sleep_once = tt;
        idle_apart = λ i e. (((ok.queues).idle_apart i e).0, tt);
      };
      current_runs = refl;
      kept = ok.kept;
    }

five-Wakeable : Wakeable kernel 5
five-Wakeable = record {
  scheduled = kernel-Scheduled;
  fair = Tests.kernel-Fair 4;
  waits = (refl, tt, refl);
  idle = (0, refl);
  allowed = inl refl;
}

-- The queue with thread 5 on both conditions, so that it serves both witnesses.
abbrev two_bytes : Intq
two_bytes = record (intq_init (replicate 64 7)) {
  head = 1;
  tail = 63;
  not_full = some 5;
  not_empty = some 5;
}

two_bytes-IsValid : IsValid two_bytes
two_bytes-IsValid = record { size = refl; head = omega arith; tail = omega arith }

five_waits : (t : ℕ) → some 5 ≡ some t → Wakeable kernel t
five_waits t e = subst (Wakeable kernel) five_is five-Wakeable
  where
    five_is : 5 ≡ t
    five_is = cc

intq_putc-Stored_example :
    Returns
      (λ (o, q', k'). (o ≡ some 9) × Put 9 kernel two_bytes q' k')
      (intq_putc kernel two_bytes 9)
intq_putc-Stored_example = intq_putc-Stored kernel two_bytes two_bytes-IsValid 9 refl five_waits

intq_getc-Took_example :
    Returns
      (λ (o, q', k'). OptionHolds (λ byte. Got byte kernel two_bytes q' k') o)
      (intq_getc kernel two_bytes)
intq_getc-Took_example = intq_getc-Took kernel two_bytes two_bytes-IsValid refl five_waits

-- A byte is put for thread 5, which is switched to, takes the three bytes and waits again; then the
-- signaller goes on and forgets it.
abbrev waits_again : Outcome (Intq × Kernel)
waits_again = do
  (o, q, k) ← intq_putc kernel (record two_bytes { not_full = none }) 9
  (o, q, k) ← intq_getc k q
  (o, q, k) ← intq_getc k q
  (o, q, k) ← intq_getc k q
  (o, q, k) ← intq_getc k q
  done (resume_not_empty q, k)

lost_wake_up :
    Returns
      (λ (q, k).
        (q.not_empty ≡ none) × (q.head ≡ q.tail) × (status_of k 5 ≡ blocked) × (k.current ≡ 2))
      waits_again
unfolding intq_putc intq_getc
lost_wake_up = (refl, refl, refl, refl)
