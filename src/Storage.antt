-- ===== src/Storage.antt =====
-- What the inodes use of the buffer cache (pintos/src/filesys/cache.c) and of the free map
-- (pintos/src/filesys/free-map.c): the operations, and what they promise.
pub mod Mounted
pub mod Laws
use spring_os.Prelude.{
  ℕ, ◌+◌, ◌≤◌, ◌≡◌, Bool, true, false, Option, none, some, List, ◌⊎◌, length, take, drop,
}
use spring_os.Prelude.Outcome.{Outcome, panic, Returns}
use spring_os.Disk.{Block, sector_size, update}
use spring_os.Cache.{splice}

-- `close_entry` is `find_cache` and `open_cnt--`; `free_entry` is `find_cache` and `free`.
-- `free_map_allocate` and `free_map_release` are of one sector.
pub record Storage (S : Type 0) : Type 0 where
  pub cache_read : S → ℕ → ℕ → ℕ → Outcome (List ℕ × S)
  pub cache_write : S → ℕ → List ℕ → ℕ → Outcome S
  pub close_entry : S → ℕ → Outcome S
  pub free_entry : S → ℕ → Outcome S
  pub cache_read_ahead : S → ℕ → Outcome S
  pub free_map_allocate : S → Outcome (Option ℕ × S)
  pub free_map_release : S → ℕ → Outcome S

pub record Lawful {S : Type 0} (st : Storage S) : Type 1 where
  pub Ready : S → Type 0
  pub on_disk : ℕ → Bool
  pub sector : S → ℕ → Block
  pub used : S → ℕ → Bool
  pub present : S → ℕ → Bool
  pub length-sector : (s : S) → Ready s → (t : ℕ) → length (sector s t) ≡ sector_size
  pub read_law :
      (s : S) (t ofs size : ℕ)
      → Ready s
      → on_disk t ≡ true
      → ofs + size ≤ sector_size
      → Returns
          (λ (bytes, s').
            (bytes ≡ take size (drop ofs (sector s t)))
            × Ready s'
            × (sector s' ≡ sector s)
            × (used s' ≡ used s)
            × (present s' t ≡ true))
          (st.cache_read s t ofs size)
  pub off_disk_law :
      (s : S) (t ofs size : ℕ) → Ready s → on_disk t ≡ false → st.cache_read s t ofs size ≡ panic
  pub write_law :
      (s : S) (t : ℕ) (bytes : List ℕ) (ofs : ℕ)
      → Ready s
      → on_disk t ≡ true
      → ofs + length bytes ≤ sector_size
      → Returns
          (λ s'.
            Ready s'
            × (sector s' ≡ update (sector s) t (splice (sector s t) ofs bytes))
            × (used s' ≡ used s)
            × (present s' t ≡ true))
          (st.cache_write s t bytes ofs)
  pub close_law :
      (s : S) (t : ℕ)
      → Ready s
      → present s t ≡ true
      → Returns (λ s'. Ready s' × (sector s' ≡ sector s) × (used s' ≡ used s)) (st.close_entry s t)
  pub ahead_law :
      (s : S) (t : ℕ)
      → Ready s
      → Returns
          (λ s'. Ready s' × (sector s' ≡ sector s) × (used s' ≡ used s))
          (st.cache_read_ahead s t)
  pub allocate_law :
      (s : S)
      → Ready s
      → Returns
          (λ (r, s').
            Ready s'
            × (sector s' ≡ sector s)
            × (((r ≡ none) × (used s' ≡ used s))
                ⊎ ((t : ℕ) × (r ≡ some t)
                    × (on_disk t ≡ true)
                    × (used s t ≡ false)
                    × (used s' ≡ update (used s) t true))))
          (st.free_map_allocate s)
