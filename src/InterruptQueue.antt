-- ===== src/InterruptQueue.antt =====
-- pintos/src/devices/intq.c: a ring of bytes between threads and interrupt handlers.
pub mod Ring
pub mod Signal
mod Tests
use spring_os.Prelude.{
  ℕ, ◌+◌, ◌%◌, Bool, true, false, Option, none, some, List, ◌==◌, if◌then◌else◌, get_elem?, set,
}
use spring_os.Prelude.Outcome.{Outcome, done, blocked, panic, fault, ◌>>=◌}
use spring_os.Thread.{Kernel, thread_block, thread_unblock}

abbrev pub intq_bufsize : ℕ
intq_bufsize = 64

-- `struct intq`; `holder` is the thread that holds its lock.
pub record Intq : Type 0 where
  pub holder : Option ℕ
  pub not_full : Option ℕ
  pub not_empty : Option ℕ
  pub buf : List ℕ
  pub head : ℕ
  pub tail : ℕ

abbrev pub next : ℕ → ℕ
next pos = (pos + 1) % intq_bufsize

-- The buffer holds whatever its memory held.
abbrev pub intq_init : List ℕ → Intq
intq_init buf = record {
  holder = none;
  not_full = none;
  not_empty = none;
  buf = buf;
  head = 0;
  tail = 0;
}

abbrev pub intq_empty : Intq → Bool
intq_empty q = q.head == q.tail

abbrev pub intq_full : Intq → Bool
intq_full q = next q.head == q.tail

-- `signal` behind its ASSERT: the waiter, if any, is woken, and then forgotten. Where the woken thread
-- is switched to at once, the waiter is still recorded, until the signaller runs again.
unfoldable pub signal : Kernel → Option ℕ → Outcome (Option ℕ × Kernel)
unfolding thread_unblock
signal k none = done (none, k)
signal k (some t) = do
  k' ← thread_unblock k t
  done (if k'.current == k.current then none else some t, k')

-- `signal` of either condition.
abbrev pub signal_not_full : Kernel → Intq → Outcome (Intq × Kernel)
signal_not_full k q =
    if intq_full q
    then panic
    else (signal k q.not_full >>= λ (waiter, k'). done (record q { not_full = waiter }, k'))

abbrev pub signal_not_empty : Kernel → Intq → Outcome (Intq × Kernel)
signal_not_empty k q =
    if intq_empty q
    then panic
    else (signal k q.not_empty >>= λ (waiter, k'). done (record q { not_empty = waiter }, k'))

-- The last store of a `signal` whose thread had been switched from: it forgets whatever thread is
-- recorded by then, also one that has come to wait since.
abbrev pub resume_not_full : Intq → Intq
resume_not_full q = record q { not_full = none }

abbrev pub resume_not_empty : Intq → Intq
resume_not_empty q = record q { not_empty = none }

-- What follows the loop of `intq_getc`, and of `intq_putc`.
abbrev pub take_byte : Kernel → Intq → Outcome (ℕ × Intq × Kernel)
take_byte k q = elim (get_elem? q.buf q.tail) [
  | none ↦ fault
  | some byte ↦
      signal_not_full k (record q { tail = next q.tail }) >>= λ (q', k'). done (byte, q', k')
]

abbrev pub put_byte : Kernel → Intq → ℕ → Outcome (Intq × Kernel)
put_byte k q byte = elim (get_elem? q.buf q.head) [
  | none ↦ fault
  | some _ ↦ signal_not_empty k (record q { buf = set q.buf q.head byte; head = next q.head })
]

-- `wait` under the lock: the running thread is recorded as the waiter and blocks.
abbrev pub sleep_on : Kernel → Intq → (Intq → Intq) → Outcome (Option ℕ × Intq × Kernel)
sleep_on k q recorded = if k.in_external then panic else elim (q.holder) [
  | none ↦ thread_block k >>= λ k'. done (none, recorded (record q { holder = some k.current }), k')
  | some t ↦ if t == k.current then panic else blocked
]

-- A round of `intq_getc`: a byte, or `none` if the caller has gone to sleep. When it wakes, it
-- releases the lock and starts again.
unfoldable pub intq_getc : Kernel → Intq → Outcome (Option ℕ × Intq × Kernel)
unfolding thread_block signal
intq_getc k q =
    if intq_empty q
    then sleep_on k q (λ q'. record q' { not_empty = some k.current })
    else (take_byte k q >>= λ (byte, q', k'). done (some byte, q', k'))

-- A round of `intq_putc`, in the same way; `some` of its byte once it is stored.
unfoldable pub intq_putc : Kernel → Intq → ℕ → Outcome (Option ℕ × Intq × Kernel)
unfolding thread_block signal
intq_putc k q byte =
    if intq_full q
    then sleep_on k q (λ q'. record q' { not_full = some k.current })
    else (put_byte k q byte >>= λ (q', k'). done (some byte, q', k'))
