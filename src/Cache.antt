-- ===== src/Cache.antt =====
-- pintos/src/filesys/cache.c: the buffer cache, a list of at most 64 sectors in LRU order (least
-- recently used first), and the lock that guards it.
pub mod Access
pub mod Daemon
pub mod Entries
pub mod Errors
pub mod Locate
pub mod Refine
pub mod Replace
pub mod Splice
pub mod Touch
mod Tests
use mathlib.Core.Option
use spring_os.Prelude.{
  ℕ, ◌+◌, ◌%◌, ◌^◌, Bool, true, false, ◌||◌, Option, none, some, List, [], ◌∷◌, ◌++◌, ltb, leb,
  ◌==◌, if◌then◌else◌, length, take, drop,
}
use spring_os.Prelude.Outcome.{Outcome, done, blocked, panic, fault, ◌>>=◌}
use spring_os.Disk.{Block, sector_size, Disk, disk_read, disk_write}

-- `struct cache`. `open_cnt` is an int whose bit pattern is kept.
pub record Entry : Type 0 where
  pub buffer : Block
  pub sector_idx : ℕ
  pub dirty : Bool
  pub open_cnt : ℕ

-- `cache_list`, the disk below it, and the holder of `cache_lock`.
pub record Cache : Type 0 where
  pub entries : List Entry
  pub disk : Disk
  pub holder : Option ℕ

abbrev pub cache_max_sector_no : ℕ
cache_max_sector_no = 64

-- `cache_init` over a disk.
pub cache_init : Disk → Cache
cache_init d = record { entries = []; disk = d; holder = none }

-- `lock_acquire` by thread `me`: its ASSERT refuses the holder itself, and any other waits.
unfoldable pub cache_lock_acquire : ℕ → Cache → Outcome Cache
cache_lock_acquire me c = elim (c.holder) [
  | none ↦ done (record c { holder = some me })
  | some t ↦ if t == me then panic else blocked
]

-- `lock_release` by thread `me`, which must hold the lock.
unfoldable pub cache_lock_release : ℕ → Cache → Outcome Cache
cache_lock_release me c = elim (c.holder) [
  | none ↦ panic
  | some t ↦ if t == me then done (record c { holder = none }) else panic
]

-- The loop of `find_cache`: the first entry of the sector is unlinked, and returned with the
-- others. It is then pushed back, so that the list is the others followed by the entry, which the
-- caller changes through its pointer.
unfoldable pub find_cache : ℕ → List Entry → Option (List Entry × Entry)
find_cache sec_no [] = none
find_cache sec_no (e ∷ es) =
    if e.sector_idx == sec_no
    then some (es, e)
    else Option.map (λ (others, f). (e ∷ others, f)) (find_cache sec_no es)

-- Writes a dirty entry to the disk and marks it clean.
unfoldable pub write_behind : Disk → Entry → Outcome (Disk × Entry)
unfolding disk_write
write_behind d e =
    if e.dirty
    then (do d' ← disk_write d e.sector_idx e.buffer; done (d', record e { dirty = false }))
    else done (d, e)

-- Drops the least recently used entry, written back if dirty.
unfoldable pub evict_cache : Disk → List Entry → Outcome (Disk × List Entry)
unfolding write_behind
evict_cache d [] = panic
evict_cache d (e ∷ es) = do (d', _) ← write_behind d e; done (d', es)

-- `malloc` is what the allocator returns: nothing, or a buffer of unknown bytes. The new entry is
-- pushed at the back, as in `find_cache`. A null result is used at once: `lock_init` gets the
-- address of a member, which passes its ASSERT, and writes to it, with `cache_lock` held.
unfoldable pub make_cache :
    Option Block → ℕ → Bool → Disk → List Entry → Outcome (Disk × List Entry × Entry)
unfolding evict_cache
make_cache malloc sec_no dirty d es = do
  (d', es') ← (if leb cache_max_sector_no (length es) then evict_cache d es else done (d, es))
  elim malloc [
    | none ↦ fault
    | some junk ↦
        done (d', es', record { buffer = junk; sector_idx = sec_no; dirty = dirty; open_cnt = 0 })
  ]

-- `memcpy` out of the 512 bytes of a buffer, and into them; beyond them lies the rest of
-- `struct cache`.
unfoldable pub copy_out : Block → ℕ → ℕ → Outcome (List ℕ)
copy_out buffer ofs size =
    if leb (ofs + size) sector_size then done (take size (drop ofs buffer)) else fault

abbrev pub splice : Block → ℕ → List ℕ → Block
splice buffer ofs bytes = take ofs buffer ++ (bytes ++ drop (ofs + length bytes) buffer)

unfoldable pub copy_in : Block → ℕ → List ℕ → Outcome Block
copy_in buffer ofs bytes =
    if leb (ofs + length bytes) sector_size then done (splice buffer ofs bytes) else fault

-- The new entry, last in the list, is filled from the disk where that is asked for.
unfoldable pub fill : Bool → ℕ → Disk → List Entry → Entry → Outcome (Disk × List Entry × Entry)
unfolding disk_read
fill true sec_no d others e = do b ← disk_read d sec_no; done (d, others, record e { buffer = b })
fill false sec_no d others e = done (d, others, e)

-- The entry that a read works on: found, or made and filled from the disk.
unfoldable pub read_entry :
    Option Block → ℕ → Disk → List Entry → Outcome (Disk × List Entry × Entry)
unfolding find_cache make_cache fill
read_entry malloc sec_no d es = elim (find_cache sec_no es) [
  | some (others, e) ↦ done (d, others, e)
  | none ↦ do (d', others, e) ← make_cache malloc sec_no false d es; fill true sec_no d' others e
]

-- The entry that a write works on: a new one is filled from the disk unless all of it is written.
unfoldable pub write_entry :
    Option Block → ℕ → ℕ → ℕ → Disk → List Entry → Outcome (Disk × List Entry × Entry)
unfolding find_cache make_cache fill
write_entry malloc sec_no ofs size d es = elim (find_cache sec_no es) [
  | some (others, e) ↦ done (d, others, e)
  | none ↦ do
    (d', others, e) ← make_cache malloc sec_no true d es
    fill (ltb 0 ofs || ltb size sector_size) sec_no d' others e
]

abbrev bump : Entry → Entry
bump e = record e { open_cnt = (e.open_cnt + 1) % 2 ^ 32 }

pub cache_read : ℕ → Option Block → Cache → ℕ → ℕ → ℕ → Outcome (List ℕ × Cache)
unfolding cache_lock_acquire cache_lock_release read_entry copy_out
cache_read me malloc c sec_no ofs size = do
  c ← cache_lock_acquire me c
  (d, others, e) ← read_entry malloc sec_no c.disk c.entries
  bytes ← copy_out e.buffer ofs size
  c ← cache_lock_release me (record c { disk = d; entries = others ++ (bump e ∷ []) })
  done (bytes, c)

pub cache_write : ℕ → Option Block → Cache → ℕ → List ℕ → ℕ → Outcome Cache
unfolding cache_lock_acquire cache_lock_release write_entry copy_in
cache_write me malloc c sec_no bytes ofs = do
  c ← cache_lock_acquire me c
  (d, others, e) ← write_entry malloc sec_no ofs (length bytes) c.disk c.entries
  b ← copy_in e.buffer ofs bytes
  cache_lock_release me (record c {
    disk = d;
    entries = others ++ (bump (record e { dirty = true; buffer = b }) ∷ []);
  })

-- The pass of `thread_function_wb_frequently` over the list.
unfoldable pub write_behind_all : Disk → List Entry → Outcome (Disk × List Entry)
unfolding write_behind
write_behind_all d [] = done (d, [])
write_behind_all d (e ∷ es) = do
  (d', e') ← write_behind d e
  (d'', es') ← write_behind_all d' es
  done (d'', e' ∷ es')

-- One round of the `while` of `thread_function_wb_frequently`, after its sleep. The release of the
-- lock stands behind the loop, which never ends.
pub wb_round : ℕ → Cache → Outcome Cache
unfolding cache_lock_acquire write_behind_all
wb_round me c = do
  c ← cache_lock_acquire me c
  (d, es) ← write_behind_all c.disk c.entries
  done (record c { disk = d; entries = es })

-- The loop of `destroy_cache_list`.
unfoldable pub drain : Disk → List Entry → Outcome Disk
unfolding write_behind
drain d [] = done d
drain d (e ∷ es) = do (d', _) ← write_behind d e; drain d' es

pub destroy_cache_list : ℕ → Cache → Outcome Cache
unfolding cache_lock_acquire cache_lock_release drain
destroy_cache_list me c = do
  c ← cache_lock_acquire me c
  d ← drain c.disk c.entries
  cache_lock_release me (record c { disk = d; entries = [] })
