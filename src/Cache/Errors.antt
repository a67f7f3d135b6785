-- ===== src/Cache/Errors.antt =====
-- When `cache_read` and `cache_write` do not return.
use spring_os.Prelude.{
  ℕ, ◌≤◌, ◌≡◌, refl, inl, inr, false, true, Option, none, some, List, [], ◌∷◌, ◌==◌, length, arith,
  if◌then◌else◌, Bool-cases,
}
use spring_os.Prelude.Outcome.{blocked, panic, bind-panic}
use spring_os.Disk.{Block, Disk, in_range}
use spring_os.Cache.{
  Entry, Cache, cache_max_sector_no, find_cache, make_cache, fill, read_entry, cache_read,
  cache_write,
}
use spring_os.Cache.Entries.{cached, InOrder}
use spring_os.Cache.Locate.{make_cache-Made}
use spring_os.Cache.Access.{IsValid}

find_cache-uncached : (s : ℕ) (es : List Entry) → cached es s ≡ false → find_cache s es ≡ none
unfolding find_cache
find_cache-uncached s [] h = refl
find_cache-uncached s (e ∷ es) h = ground (arith, find_cache-uncached s es)

fill-panic :
    (s : ℕ) (d : Disk) (es : List Entry) (e : Entry)
    → in_range d s ≡ false
    → fill true s d es e ≡ panic
unfolding fill
fill-panic s d es e off = rw off

read_entry-panic :
    (sec : ℕ) (junk : Block) (d : Disk) (es : List Entry)
    → InOrder d es
    → length es ≤ cache_max_sector_no
    → cached es sec ≡ false
    → in_range d sec ≡ false
    → read_entry (some junk) sec d es ≡ panic
unfolding read_entry
read_entry-panic sec junk d es ok bounded new off_disk =
    rw (find_cache-uncached sec es new, read_entry)
      (bind-panic _ (make_cache (some junk) sec false d es) _
        (make_cache-Made junk sec false d es ok bounded)
        λ (d', others, e) (made, is). fill-panic sec d' others e (rw made.kept.capacity off_disk))

-- On a valid cache whose lock is free, and with memory for a new entry, cache_read of a sector
-- that is neither cached nor on the disk panics.
pub cache_read-panic :
    (me sec ofs size : ℕ) (junk : Block) (c : Cache)
    → IsValid c
    → c.holder ≡ none
    → cached c.entries sec ≡ false
    → in_range c.disk sec ≡ false
    → cache_read me (some junk) c sec ofs size ≡ panic
unfolding cache_read
cache_read-panic me sec ofs size junk c valid free new off_disk =
    rw (free, read_entry-panic sec junk c.disk c.entries valid.order valid.bounded new off_disk)

-- While a thread holds cache_lock, cache_read and cache_write block any other thread and panic in
-- the holder.
pub cache_lock_held :
    (me t sec ofs size : ℕ) (bytes : List ℕ) (malloc : Option Block) (c : Cache)
    → c.holder ≡ some t
    → (cache_read me malloc c sec ofs size ≡ (if t == me then panic else blocked))
      × (cache_write me malloc c sec bytes ofs ≡ (if t == me then panic else blocked))
unfolding cache_read cache_write
cache_lock_held me t sec ofs size bytes malloc c held = elim (Bool-cases (t == me)) [
  | inl mine ↦ (rw (held, mine), rw (held, mine))
  | inr other ↦ (rw (held, other), rw (held, other))
]
