-- ===== src/InterruptQueue/Ring.antt =====
-- The ring is a queue of at most 63 bytes, first in, first out.
use spring_os.Prelude.{
  ℕ, zero, suc, ◌+◌, ◌-◌, ◌%◌, ◌<◌, ◌≡◌, ◌≢◌, refl, sym, ap, subst, ◌∙◌, false, Option, none, some,
  List, [], ◌∷◌, arith, if◌then◌else◌, get_elem?, set, length, length-set, get_elem?-set_self,
  get_elem?-set_ne, ne→==, ==→ne,
}
use spring_os.Prelude.Outcome.{Outcome, done, panic, fault, Returns, Returns-bind, ◌>>=◌}
use spring_os.Thread.{Kernel}
use spring_os.InterruptQueue.{
  Intq, intq_bufsize, next, intq_empty, intq_full, signal, signal_not_full, signal_not_empty,
  take_byte, put_byte, intq_getc, intq_putc,
}
use spring_os.InterruptQueue.Signal.{Wakeable, Signalled, signal-Signalled}

pub record IsValid (q : Intq) : Type 0 where
  pub size : length q.buf ≡ intq_bufsize
  pub head : q.head < intq_bufsize
  pub tail : q.tail < intq_bufsize

-- The number of bytes in the queue, and the byte at a place counted from the oldest.
abbrev pub count : Intq → ℕ
count q = (q.head + intq_bufsize - q.tail) % intq_bufsize

abbrev pub byte_at : Intq → ℕ → Option ℕ
byte_at q i = get_elem? q.buf ((q.tail + i) % intq_bufsize)

-- One byte more, at the end.
pub record Stored (byte : ℕ) (q q' : Intq) : Type 0 where
  pub valid : IsValid q'
  pub one_more : count q' ≡ count q + 1
  pub last : byte_at q' (count q) ≡ some byte
  pub others : (i : ℕ) → i < count q → byte_at q' i ≡ byte_at q i

-- The oldest byte, and the queue behind it.
pub record Took (byte : ℕ) (q q' : Intq) : Type 0 where
  pub valid : IsValid q'
  pub one_less : count q ≡ count q' + 1
  pub oldest : byte_at q 0 ≡ some byte
  pub others : (i : ℕ) → i < count q' → byte_at q' i ≡ byte_at q (i + 1)

abbrev pub OptionHolds : (ℕ → Type 0) → Option ℕ → Type 0
OptionHolds P none = ⊥
OptionHolds P (some b) = P b

get_elem?-in_range : (xs : List ℕ) (i : ℕ) → i < length xs → get_elem? xs i ≢ none
get_elem?-in_range [] i h e = elim h [ ]
get_elem?-in_range (x ∷ xs) zero h e = cc
get_elem?-in_range (x ∷ xs) (suc i) h e = get_elem?-in_range xs i (omega arith) e

-- The byte is stored, and the waiting reader is signalled.
pub record Put (byte : ℕ) (k : Kernel) (q q' : Intq) (k' : Kernel) : Type 0 where
  pub stored : Stored byte q q'
  pub signalled : Signalled k q.not_empty q'.not_empty k'
  pub writer : q'.not_full ≡ q.not_full

-- The byte is taken, and the waiting writer is signalled.
pub record Got (byte : ℕ) (k : Kernel) (q q' : Intq) (k' : Kernel) : Type 0 where
  pub took : Took byte q q'
  pub signalled : Signalled k q.not_full q'.not_full k'
  pub reader : q'.not_empty ≡ q.not_empty

module _ (k : Kernel) (q : Intq) (ok : IsValid q) where
  abbrev put : ℕ → Option ℕ → Intq
  put byte waiter = record q { not_empty = waiter; buf = set q.buf q.head byte; head = next q.head }

  put-Stored :
      (byte : ℕ) (waiter : Option ℕ) → intq_full q ≡ false → Stored byte q (put byte waiter)
  put-Stored byte waiter room = record {
    valid = record {
      size = length-set q.buf q.head byte ∙ ok.size;
      head = omega arith;
      tail = ok.tail;
    };
    one_more = omega (arith, ok.head, ok.tail, ne);
    last =
        ap (get_elem? (set q.buf q.head byte)) last_place
        ∙ get_elem?-set_self q.buf q.head byte (omega (arith, ok.head, ok.size));
    others = λ i h. get_elem?-set_ne q.buf byte (omega (arith, ok.head, ok.tail, ne, h));
  }
    where
      ne : next q.head ≢ q.tail
      ne = ==→ne (next q.head) q.tail room

      last_place : (q.tail + count q) % intq_bufsize ≡ q.head
      last_place = omega (arith, ok.head, ok.tail)

  abbrev taken : Option ℕ → Intq
  taken waiter = record q { not_full = waiter; tail = next q.tail }

  taken-Took :
      (byte : ℕ) (waiter : Option ℕ)
      → intq_empty q ≡ false
      → get_elem? q.buf q.tail ≡ some byte
      → Took byte q (taken waiter)
  taken-Took byte waiter some_bytes e = record {
    valid = record { size = ok.size; head = ok.head; tail = omega arith };
    one_less = omega (arith, ok.head, ok.tail, ==→ne q.head q.tail some_bytes);
    oldest = ap (get_elem? q.buf) (omega (arith, ok.tail)) ∙ e;
    others = λ i h. ap (get_elem? q.buf) (omega (arith, ok.tail));
  }

  put_byte-Put :
      (byte : ℕ)
      → intq_full q ≡ false
      → ((t : ℕ) → q.not_empty ≡ some t → Wakeable k t)
      → Returns (λ (q', k'). Put byte k q q' k') (put_byte k q byte)
  put_byte-Put byte room can = go (get_elem? q.buf q.head) refl
    where
      signalled_end : Option ℕ × Kernel → Outcome (Intq × Kernel)
      signalled_end (waiter, k') = done (put byte waiter, k')

      go :
          (o : Option ℕ)
          → get_elem? q.buf q.head ≡ o
          → Returns
              (λ (q', k'). Put byte k q q' k')
              (elim o as (λ _. Outcome (Intq × Kernel)) [
                | none ↦ fault
                | some _ ↦
                    signal_not_empty k
                      (record q { buf = set q.buf q.head byte; head = next q.head })
              ])
      go none e = absurd (get_elem?-in_range q.buf q.head (omega (arith, ok.head, ok.size)) e)
      go (some _) e =
          subst (Returns (λ (q', k'). Put byte k q q' k'))
            (sym (ap (λ b. if b then panic else (signal k q.not_empty >>= signalled_end)) room))
            (Returns-bind _ _ (signal k q.not_empty) signalled_end
              (signal-Signalled k q.not_empty can)
              λ (waiter, k') done_with. record {
                stored = put-Stored byte waiter room;
                signalled = done_with;
                writer = refl;
              })

  take_byte-Got :
      intq_empty q ≡ false
      → ((t : ℕ) → q.not_full ≡ some t → Wakeable k t)
      → Returns (λ (byte, q', k'). Got byte k q q' k') (take_byte k q)
  take_byte-Got some_bytes can = go (get_elem? q.buf q.tail) refl
    where
      signalled_end : Option ℕ × Kernel → Outcome (Intq × Kernel)
      signalled_end (waiter, k') = done (taken waiter, k')

      still_room : intq_full (record q { tail = next q.tail }) ≡ false
      still_room =
          ne→== (next q.head) (next q.tail)
            (omega (arith, ok.head, ok.tail, ==→ne q.head q.tail some_bytes))

      go :
          (o : Option ℕ)
          → get_elem? q.buf q.tail ≡ o
          → Returns
              (λ (byte, q', k'). Got byte k q q' k')
              (elim o as (λ _. Outcome (ℕ × Intq × Kernel)) [
                | none ↦ fault
                | some byte ↦ signal_not_full k (record q { tail = next q.tail }) >>= λ (q', k').
                    done (byte, q', k')
              ])
      go none e = absurd (get_elem?-in_range q.buf q.tail (omega (arith, ok.tail, ok.size)) e)
      go (some byte) e =
          subst
            (λ o.
              Returns (λ (byte, q', k'). Got byte k q q' k')
                (o >>= λ (q', k'). done (byte, q', k')))
            (sym
              (ap (λ b. if b then panic else (signal k q.not_full >>= signalled_end)) still_room))
            (Returns-bind (λ (q', k'). Got byte k q q' k') _ (signal k q.not_full >>= signalled_end)
              _
              (Returns-bind _ _ (signal k q.not_full) signalled_end
                (signal-Signalled k q.not_full can)
                λ (waiter, k') done_with. record {
                  took = taken-Took byte waiter some_bytes e;
                  signalled = done_with;
                  reader = refl;
                })
              λ x h. h)

  -- On a valid queue that is not full, intq_putc returns a valid queue that has the byte as its
  -- newest, one byte more and the others in their places, with the waiting writer as before. If no
  -- reader waits, the kernel is as before. If one waits, and is blocked, not asleep and not the
  -- idle thread, in a scheduled kernel whose running thread is idle or as high as every ready
  -- thread, either outside an interrupt or with a reader that does not preempt the running thread:
  -- then the reader is no longer blocked, the kernel is again scheduled in this way, and the queue
  -- has forgotten the reader if the same thread still runs, and still has it as its waiter if
  -- another one runs.
  pub intq_putc-Stored :
      (byte : ℕ)
      → intq_full q ≡ false
      → ((t : ℕ) → q.not_empty ≡ some t → Wakeable k t)
      → Returns (λ (o, q', k'). (o ≡ some byte) × Put byte k q q' k') (intq_putc k q byte)
  unfolding intq_putc
  intq_putc-Stored byte room can =
      rw room (Returns-bind _ _ (put_byte k q byte) _ (put_byte-Put byte room can) λ x h. (refl, h))

  -- On a valid queue that is not empty, intq_getc returns the oldest byte and a valid queue of one
  -- byte less in which the others have moved up by one place, with the waiting reader as before.
  -- If no writer waits, the kernel is as before. If one waits, and is blocked, not asleep and not
  -- the idle thread, in a scheduled kernel whose running thread is idle or as high as every ready
  -- thread, either outside an interrupt or with a writer that does not preempt the running thread:
  -- then the writer is no longer blocked, the kernel is again scheduled in this way, and the queue
  -- has forgotten the writer if the same thread still runs, and still has it as its waiter if
  -- another one runs.
  pub intq_getc-Took :
      intq_empty q ≡ false
      → ((t : ℕ) → q.not_full ≡ some t → Wakeable k t)
      → Returns (λ (o, q', k'). OptionHolds (λ byte. Got byte k q q' k') o) (intq_getc k q)
  unfolding intq_getc
  intq_getc-Took some_bytes can =
      rw some_bytes (Returns-bind _ _ (take_byte k q) _ (take_byte-Got some_bytes can) λ x h. h)
