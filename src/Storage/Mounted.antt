-- ===== src/Storage/Mounted.antt =====
-- The cache and the free map of a mounted disk as the storage of the inodes, with the queue of
-- pintos/src/filesys/cache.c for reading ahead.
use spring_os.Prelude.{
  ℕ, ◌+◌, ◌-◌, ◌≤◌, ◌≡◌, ◌%◌, ◌^◌, Bool, ◌&&◌, Option, none, some, List, [], ◌∷◌, ◌++◌, ltb, ◌==◌,
  if◌then◌else◌,
}
use spring_os.Prelude.Outcome.{Outcome, done, blocked, panic, fault, ◌>>=◌}
use spring_os.Disk.{Block}
use spring_os.Bitmap.{Bitmap}
use spring_os.Bitmap.Bit.{bit_at}
use spring_os.Bitmap.Bit
use spring_os.Cache
use spring_os.Cache.{Cache, Entry, find_cache, splice}
use spring_os.Cache.Access.{IsValid}
use spring_os.FreeMap
use spring_os.Storage.{Storage}

-- `read_ahead_list` with the holder of `read_ahead_lock`, beside the cache and the free map.
pub record Mounted : Type 0 where
  pub cache : Cache
  pub free_map : Bitmap
  pub read_ahead_list : List ℕ
  pub read_ahead_holder : Option ℕ

-- `find_cache` and a change of the count of openers of what it finds; null is dereferenced.
unfoldable pub close_entry : Mounted → ℕ → Outcome Mounted
unfolding find_cache
close_entry s t = elim (find_cache t (s.cache).entries) as (λ _. Outcome Mounted) [
  | none ↦ fault
  | some p ↦ done (record s {
    cache = record (s.cache) {
      entries = p.0 ++ (record (p.1) { open_cnt = ((p.1).open_cnt + (2 ^ 32 - 1)) % 2 ^ 32 } ∷ []);
    };
  })
]

-- `cache_read_ahead`. The thread that waits on the queue is woken; it runs later.
unfoldable pub cache_read_ahead : ℕ → Mounted → ℕ → Outcome Mounted
unfolding find_cache
cache_read_ahead me s ahead_sec =
    elim (find_cache ahead_sec (s.cache).entries) as (λ _. Outcome Mounted) [
      | some p ↦ done (record s { cache = record (s.cache) { entries = p.0 ++ (p.1 ∷ []) } })
      | none ↦ elim (s.read_ahead_holder) as (λ _. Outcome Mounted) [
        | none ↦ done (record s { read_ahead_list = s.read_ahead_list ++ (ahead_sec ∷ []) })
        | some t ↦ if t == me then panic else blocked
      ]
    ]

-- The operations for thread `me`, with a buffer `junk` from `malloc` for each new entry. A cached entry
-- is freed while it is linked in the list, which then runs through freed memory: a fault.
abbrev pub mounted : ℕ → Block → Bool → Bool → Storage Mounted
mounted me junk opened written = record {
  cache_read = λ s t ofs size. Cache.cache_read me (some junk) s.cache t ofs size >>= λ (bytes, c).
      done (bytes, record s { cache = c });
  cache_write = λ s t bytes ofs.
      Cache.cache_write me (some junk) s.cache t bytes ofs >>= λ c. done (record s { cache = c });
  close_entry = close_entry;
  free_entry = λ s t. elim (find_cache t (s.cache).entries) as (λ _. Outcome Mounted) [
    | none ↦ done s
    | some p ↦ fault
  ];
  cache_read_ahead = cache_read_ahead me;
  free_map_allocate = λ s. FreeMap.free_map_allocate opened written s.free_map 1 >>= λ (r, b).
      done (r, record s { free_map = b });
  free_map_release = λ s t.
      FreeMap.free_map_release opened s.free_map t 1 >>= λ b. done (record s { free_map = b });
}

-- A valid cache and a valid map of no more sectors than the disk has, with all locks free.
pub record Fit (capacity : ℕ) (s : Mounted) : Type 0 where
  pub cache_valid : IsValid s.cache
  pub cache_free : (s.cache).holder ≡ none
  pub size : ((s.cache).disk).capacity ≡ capacity
  pub map_valid : Bit.IsValid s.free_map
  pub map_fits : (s.free_map).bit_cnt ≤ capacity
  pub map_small : (s.free_map).bit_cnt ≤ 2 ^ 28
  pub queue_free : s.read_ahead_holder ≡ none

abbrev pub on_disk : ℕ → ℕ → Bool
on_disk capacity t = ltb t capacity && ltb t (2 ^ 28)
