-- ===== src/Cache/Refine.antt =====
-- The cache refines a flat array of sectors, and what it holds reaches the disk.
use mathlib.Core.Path.{fun_ext}
use spring_os.Prelude.{
  ℕ, ◌+◌, ◌≤◌, ◌≡◌, refl, ap, ap₂, ◌∙◌, true, some, none, List, [], ◌∷◌, arith, ◌==◌, if◌then◌else◌,
  length, take, drop, ==_refl,
}
use spring_os.Prelude.Outcome.{Outcome, done, Returns, Returns-bind, ◌>>=◌}
use spring_os.Disk.{Block, Disk, sector_size, in_range}
use spring_os.Cache.{Cache, cache_read, cache_write, destroy_cache_list, drain, cache_init, splice}
use spring_os.Cache.Replace.{Blocks, drain-OnDisk}
use spring_os.Cache.Access.{
  content, IsValid, length-content, Settled, cache_read-content, cache_write-content,
}

-- A call of the cache, with the uninitialised buffer that `malloc` would hand to it.
pub data Access : Type 0 where
  read : (junk : Block) (sec_no ofs size : ℕ) → Access
  write : (junk : Block) (sec_no ofs : ℕ) (bytes : List ℕ) → Access

-- The calls of one thread in order; a write replies with nothing.
pub run : ℕ → Cache → List Access → Outcome (List (List ℕ) × Cache)
unfolding cache_read cache_write
run me c [] = done ([], c)
run me c (read junk s ofs size ∷ calls) = do
  (bytes, c) ← cache_read me (some junk) c s ofs size
  (replies, c) ← run me c calls
  done (bytes ∷ replies, c)
run me c (write junk s ofs bytes ∷ calls) = do
  c ← cache_write me (some junk) c s bytes ofs
  (replies, c) ← run me c calls
  done ([] ∷ replies, c)

-- The same calls on an array of sectors with no cache.
unfoldable pub flat : (ℕ → Block) → List Access → List (List ℕ) × (ℕ → Block)
flat a [] = ([], a)
flat a (read junk s ofs size ∷ calls) =
    let (replies, a') = flat a calls in (take size (drop ofs (a s)) ∷ replies, a')
flat a (write junk s ofs bytes ∷ calls) =
    let (replies, a') = flat (λ t. if s == t then splice (a s) ofs bytes else a t) calls in
    ([] ∷ replies, a')

-- A call of a sector of the disk, within its bytes.
abbrev pub Fits : ℕ → Access → Type 0
Fits capacity (read junk s ofs size) =
    (in_range (record { capacity = capacity; content = λ y. [] }) s ≡ true)
    × (ofs + size ≤ sector_size)
Fits capacity (write junk s ofs bytes) =
    (in_range (record { capacity = capacity; content = λ y. [] }) s ≡ true)
    × (ofs + length bytes ≤ sector_size)
    × (length junk ≡ sector_size)

abbrev pub AllFit : ℕ → List Access → Type 0
AllFit capacity [] = Unit {0}
AllFit capacity (a ∷ calls) = Fits capacity a × AllFit capacity calls

abbrev Runs : Cache → List Access → List (List ℕ) × Cache → Type 0
Runs c calls (replies, c') =
    ((replies, content c') ≡ flat (content c) calls) × Settled c.disk.capacity c'

Settled-trans :
    (c c' c'' : Cache)
    → Settled c.disk.capacity c'
    → Settled c'.disk.capacity c''
    → Settled c.disk.capacity c''
Settled-trans c c' c'' h h' = record {
  valid = h'.valid;
  free = h'.free;
  capacity = h'.capacity ∙ h.capacity;
}

run-flat :
    (me : ℕ) (c : Cache) (calls : List Access)
    → IsValid c
    → c.holder ≡ none
    → AllFit c.disk.capacity calls
    → Returns (Runs c calls) (run me c calls)
unfolding run flat
run-flat me c [] valid free fits = (refl, record { valid = valid; free = free; capacity = refl })
run-flat me c (read junk s ofs size ∷ calls) valid free fits =
    Returns-bind _ _ (cache_read me (some junk) c s ofs size) _
      (cache_read-content me s ofs junk c valid free fits.0.0 size fits.0.1)
      λ (bytes, c') (got, same, settled).
        Returns-bind _ _ (run me c' calls) _
          (run-flat me c' calls settled.valid settled.free (rw settled.capacity fits.1))
          λ (replies, c'') (rest, settled').
            let same_rest : (replies, content c'') ≡ flat (content c) calls =
              rw (fun_ext same) at rest in
            (
              ap₂ (λ (b : List ℕ) (p : List (List ℕ) × (ℕ → Block)). (b ∷ p.0, p.1)) got same_rest,
              Settled-trans c c' c'' settled settled',
            )
run-flat me c (write junk s ofs bytes ∷ calls) valid free fits =
    Returns-bind _ _ (cache_write me (some junk) c s bytes ofs) _
      (cache_write-content me s ofs junk c valid free fits.0.0 bytes fits.0.1 fits.0.2)
      λ c' (same, settled).
        Returns-bind _ _ (run me c' calls) _
          (run-flat me c' calls settled.valid settled.free (rw settled.capacity fits.1))
          λ (replies, c'') (rest, settled').
            let same_rest : (replies, content c'')
                ≡ flat (λ t. if s == t then splice (content c s) ofs bytes else content c t) calls =
              rw (fun_ext same) at rest in
            (
              ap (λ (p : List (List ℕ) × (ℕ → Block)). ([] ∷ p.0, p.1)) same_rest,
              Settled-trans c c' c'' settled settled',
            )

-- On a valid cache whose lock is free, destroy_cache_list returns an empty valid cache with its
-- lock free, over a disk of the same size on which every sector is what a reader saw before.
pub destroy_cache_list-content :
    (me : ℕ) (c : Cache)
    → IsValid c
    → c.holder ≡ none
    → Returns
        (λ c'.
          (c'.entries ≡ [])
          × ((t : ℕ) → c'.disk.content t ≡ content c t)
          × Settled c.disk.capacity c')
        (destroy_cache_list me c)
unfolding destroy_cache_list
destroy_cache_list-content me c valid free = rw free (
    Returns-bind _ _ (drain c.disk c.entries) _ (drain-OnDisk c.disk c.entries valid.order)
      λ d written. rw (==_refl me) (
        refl,
        written.content,
        record {
          valid = record {
            order = tt;
            bounded = omega arith;
            blocks = λ t. ap length (written.content t) ∙ length-content c valid t;
          };
          free = refl;
          capacity = written.capacity;
        },
      ))

-- `filesys_done`: the calls of a session, and then the flush.
pub session : ℕ → Disk → List Access → Outcome (List (List ℕ) × Cache)
unfolding run destroy_cache_list cache_init
session me d calls = do
  (replies, c) ← run me (cache_init d) calls
  c ← destroy_cache_list me c
  done (replies, c)

-- Any sequence of reads and writes through a fresh cache, each within a sector of the disk and
-- each with whatever uninitialised buffer malloc hands out, followed by destroy_cache_list,
-- returns: every read replies as on an array of sectors with no cache, and at the end the disk
-- holds that array and the cache is empty.
pub session-flat :
    (me : ℕ) (d : Disk) (calls : List Access)
    → Blocks d
    → AllFit d.capacity calls
    → Returns
        (λ (replies, c'). ((replies, c'.disk.content) ≡ flat d.content calls) × (c'.entries ≡ []))
        (session me d calls)
unfolding session cache_init
session-flat me d calls blocks fits =
    Returns-bind _ _ (run me (cache_init d) calls) _
      (run-flat me (cache_init d) calls
        (record { order = tt; bounded = omega arith; blocks = blocks }) refl fits)
      λ (replies, c) (same, settled).
        Returns-bind _ _ (destroy_cache_list me c) _
          (destroy_cache_list-content me c settled.valid settled.free)
          λ c' (empty, written, y). (ap (λ a. (replies, a)) (fun_ext written) ∙ same, empty)
