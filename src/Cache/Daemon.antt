-- ===== src/Cache/Daemon.antt =====
-- `thread_function_wb_frequently`: what a round does to the cache, and to everybody else.
use spring_os.Prelude.{
  ℕ, ◌≡◌, ◌≢◌, refl, sym, false, Option, none, some, List, ◌==◌, ne→==, ==_refl,
}
use spring_os.Prelude.Outcome.{blocked, panic, Returns, Returns-bind, Returns-mono}
use spring_os.Disk.{Block}
use spring_os.Cache.{Cache, cache_read, cache_write, destroy_cache_list, wb_round, write_behind_all}
use spring_os.Cache.Replace.{AllClean, write_behind_all-Cleaned}
use spring_os.Cache.Access.{content, IsValid}

-- The cache after a round by thread `me`.
pub record Written (me : ℕ) (c c' : Cache) : Type 0 where
  pub same : (t : ℕ) → content c' t ≡ content c t
  pub on_disk : (t : ℕ) → c'.disk.content t ≡ content c t
  pub clean : AllClean c'.entries
  pub held : c'.holder ≡ some me

-- From a valid cache whose lock is free, a round of the write-behind thread returns; every sector
-- on the disk is then what a reader saw before, all entries are clean, no sector changes for a
-- reader, and the thread still holds cache_lock.
pub wb_round-Written :
    (me : ℕ) (c : Cache) → IsValid c → c.holder ≡ none → Returns (Written me c) (wb_round me c)
unfolding wb_round
wb_round-Written me c valid free = rw free (
    Returns-bind _ _ (write_behind_all c.disk c.entries) _
      (write_behind_all-Cleaned c.disk c.entries valid.order)
      λ (d, es) cleaned. record {
        same = cleaned.same;
        on_disk = cleaned.written.content;
        clean = cleaned.clean;
        held = refl;
      })

-- Nobody gets through while thread `me` holds the lock, the thread itself included.
abbrev pub Deadlocked : ℕ → Cache → Type 0
Deadlocked me c =
    (wb_round me c ≡ panic)
    × ((t : ℕ) (m : Option Block) (s ofs size : ℕ) (bytes : List ℕ)
        → t ≢ me
        → (cache_read t m c s ofs size ≡ blocked)
          × (cache_write t m c s bytes ofs ≡ blocked)
          × (destroy_cache_list t c ≡ blocked))

held-Deadlocked : (me : ℕ) (c : Cache) → c.holder ≡ some me → Deadlocked me c
unfolding wb_round cache_read cache_write destroy_cache_list
held-Deadlocked me c held = (
  rw (held, ==_refl me),
  λ t m s ofs size bytes ne.
      let other : (me == t) ≡ false = ne→== me t (λ e. ne (sym e)) in
      (rw (held, other), rw (held, other), rw (held, other)),
)

-- From a valid cache whose lock is free, after one round of the write-behind thread the thread's
-- next round panics in lock_acquire, and cache_read, cache_write and destroy_cache_list of every
-- other thread block, on all arguments.
pub wb_round-Deadlocked :
    (me : ℕ) (c : Cache) → IsValid c → c.holder ≡ none → Returns (Deadlocked me) (wb_round me c)
wb_round-Deadlocked me c valid free =
    Returns-mono _ _ (wb_round me c) (wb_round-Written me c valid free)
      λ c' written. held-Deadlocked me c' written.held
