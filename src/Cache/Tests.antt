-- ===== src/Cache/Tests.antt =====
-- The cache theorems at concrete caches, and small runs.
use spring_os.Prelude.{
  ℕ, ◌≡◌, refl, true, none, some, List, [], ◌∷◌, arith, ◌==◌, if◌then◌else◌, replicate,
  length-replicate, take, drop, length,
}
use spring_os.Prelude.Outcome.{panic, Returns}
use spring_os.Disk.{Block, Disk}
use spring_os.Cache.{Entry, Cache, cache_read, cache_write, destroy_cache_list, wb_round, splice}
use spring_os.Cache.Access.{content, IsValid, Settled, cache_read-content, cache_write-content}
use spring_os.Cache.Refine.{
  Access, read, write, flat, session, session-flat, destroy_cache_list-content,
}
use spring_os.Cache.Daemon.{Written, Deadlocked, wb_round-Written, wb_round-Deadlocked}
use spring_os.Cache.Errors.{cache_read-panic}

-- Sector `t` is full of the number `t`.
abbrev disk : Disk
disk = record { capacity = 100; content = λ t. replicate 512 t }

abbrev junk : Block
junk = replicate 512 99

-- Sector 5 has been overwritten in the cache alone.
abbrev dirty_five : Entry
dirty_five = record { buffer = replicate 512 7; sector_idx = 5; dirty = true; open_cnt = 1 }

abbrev cache : Cache
cache = record { entries = dirty_five ∷ []; disk = disk; holder = none }

full : (v : ℕ) → length (replicate 512 v) ≡ 512
full v = length-replicate 512 v

cache-IsValid : IsValid cache
cache-IsValid = record {
  order = (record { full = full 7; on_disk = refl; clean = λ e. cc }, refl, tt);
  bounded = omega arith;
  blocks = λ t. full t;
}

abbrev calls : List Access
calls = write junk 3 10 (1 ∷ 2 ∷ []) ∷ read junk 3 9 4 ∷ read junk 4 0 1 ∷ []

run_calls : (flat disk.content calls).0 ≡ [] ∷ (3 ∷ 1 ∷ 2 ∷ 3 ∷ []) ∷ (4 ∷ []) ∷ []
unfolding flat
run_calls = refl

session-flat_example :
    Returns
      (λ (replies, c'). ((replies, c'.disk.content) ≡ flat disk.content calls) × (c'.entries ≡ []))
      (session 1 disk calls)
session-flat_example =
    session-flat 1 disk calls (λ t. full t)
      ((refl, omega arith, full 99), ((refl, omega arith), ((refl, omega arith), tt)))

cache_read-content_example :
    Returns
      (λ (bytes, c').
        (bytes ≡ take 2 (drop 3 (content cache 5)))
        × ((t : ℕ) → content c' t ≡ content cache t)
        × Settled 100 c')
      (cache_read 1 (some junk) cache 5 3 2)
cache_read-content_example =
    cache_read-content 1 5 3 junk cache cache-IsValid refl refl 2 (omega arith)

cache_write-content_example :
    Returns
      (λ c'.
        ((t : ℕ)
          → content c' t
            ≡ (if 6 == t then splice (content cache 6) 3 (1 ∷ 2 ∷ []) else content cache t))
        × Settled 100 c')
      (cache_write 1 (some junk) cache 6 (1 ∷ 2 ∷ []) 3)
cache_write-content_example =
    cache_write-content 1 6 3 junk cache cache-IsValid refl refl (1 ∷ 2 ∷ []) (omega arith)
      (full 99)

destroy_cache_list-content_example :
    Returns
      (λ c'. (c'.entries ≡ []) × ((t : ℕ) → c'.disk.content t ≡ content cache t) × Settled 100 c')
      (destroy_cache_list 1 cache)
destroy_cache_list-content_example = destroy_cache_list-content 1 cache cache-IsValid refl

wb_round-Written_example : Returns (Written 2 cache) (wb_round 2 cache)
wb_round-Written_example = wb_round-Written 2 cache cache-IsValid refl

wb_round-Deadlocked_example : Returns (Deadlocked 2) (wb_round 2 cache)
wb_round-Deadlocked_example = wb_round-Deadlocked 2 cache cache-IsValid refl

cache_read-panic_example : cache_read 1 (some junk) cache 4294967295 0 512 ≡ panic
cache_read-panic_example =
    cache_read-panic 1 4294967295 0 512 junk cache cache-IsValid refl refl refl
