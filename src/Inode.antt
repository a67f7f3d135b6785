-- ===== src/Inode.antt =====
-- pintos/src/filesys/inode.c and inode.h: files as trees of sectors, over the cache and the free map.
-- A `struct inode_disk` is the 512 bytes of its sector. An offset is a natural number: the code's
-- off_t, which is signed, is written out where a difference may be negative.
pub mod Map
pub mod Read
pub mod Expand
pub mod Open
pub mod Close
pub mod Apart
pub mod Write
pub mod Written
pub mod ReadWrite
mod Tests
use spring_os.Prelude.{
  ℕ, zero, suc, ◌+◌, ◌-◌, ◌*◌, ◌/◌, ◌%◌, ◌^◌, min, Bool, true, false, Option, none, some, List, [],
  ◌∷◌, ◌++◌, ltb, leb, ◌==◌, if◌then◌else◌, get_or, length, take, drop, replicate,
}
use spring_os.Prelude.Outcome.{Outcome, done, blocked, panic, ◌>>=◌}
use spring_os.Disk.{Block, sector_size}
use spring_os.Cache.{splice}
use spring_os.Storage.{Storage}

abbrev pub inode_magic : ℕ
inode_magic = 1229868868

abbrev pub direct_cnt : ℕ
direct_cnt = 64

abbrev pub indirect_cnt : ℕ
indirect_cnt = 128

abbrev pub doubly_indirect_cnt : ℕ
doubly_indirect_cnt = 16384

-- A 32-bit word at a place in memory, and its bytes.
abbrev pub word : List ℕ → ℕ → ℕ
word b ofs =
    get_or b ofs 0
    + 256 * get_or b (ofs + 1) 0
    + 65536 * get_or b (ofs + 2) 0
    + 16777216 * get_or b (ofs + 3) 0

abbrev pub word_bytes : ℕ → List ℕ
word_bytes v = v % 256 ∷ (v / 256 % 256 ∷ (v / 65536 % 256 ∷ (v / 16777216 % 256 ∷ [])))

-- The places of the members of `struct inode_disk`.
abbrev pub length_ofs : ℕ
length_ofs = 4

abbrev pub magic_ofs : ℕ
magic_ofs = 8

abbrev pub is_dir_ofs : ℕ
is_dir_ofs = 12

abbrev pub parent_ofs : ℕ
parent_ofs = 16

abbrev pub direct_ofs : ℕ
direct_ofs = 20

abbrev pub indirect_ofs : ℕ
indirect_ofs = 276

abbrev pub doubly_ofs : ℕ
doubly_ofs = 280

-- `struct inode`, with the holder of its lock.
pub record Inode : Type 0 where
  pub sector : ℕ
  pub open_cnt : ℕ
  pub removed : Bool
  pub deny_write_cnt : ℕ
  pub holder : Option ℕ

abbrev pub bytes_to_sectors : ℕ → ℕ
bytes_to_sectors size = (size + 511) / 512

-- -1 as a sector number.
abbrev pub no_sector : ℕ
no_sector = 4294967295

-- `size_t chunk_size` in `inode_read_at` and `inode_write_at`. Beyond the end of the file, `min_left`
-- is negative, so that it is less than `size`, and it becomes a large number.
unfoldable pub chunk_size : ℕ → ℕ → ℕ → ℕ
chunk_size size offset length =
    if ltb length offset
    then 2 ^ 32 - (offset - length)
    else (let inode_left = length - offset in
        let sector_left = 512 - offset % 512 in
        let min_left = if ltb inode_left sector_left then inode_left else sector_left in
        if ltb size min_left then size else min_left)

module _ {S : Type 0} (st : Storage S) where
  unfoldable pub read_word : S → ℕ → ℕ → Outcome (ℕ × S)
  read_word s t ofs = do (bytes, s) ← st.cache_read s t ofs 4; done (word bytes 0, s)

  unfoldable pub inode_length : S → ℕ → Outcome (ℕ × S)
  unfolding read_word
  inode_length s inode = read_word s inode length_ofs

  unfoldable pub inode_parent : S → ℕ → Outcome (ℕ × S)
  unfolding read_word
  inode_parent s inode = read_word s inode parent_ofs

  unfoldable pub inode_dir_check : S → ℕ → Outcome (Bool × S)
  inode_dir_check s inode = do
    (disk_inode, s) ← st.cache_read s inode 0 sector_size
    done (ltb 0 (get_or disk_inode is_dir_ofs 0), s)

  -- The sector of block `sec_cnt` of a file; `stray` is what `return_sec` holds uninitialised.
  unfoldable pub find_sector : ℕ → S → Block → ℕ → Outcome (ℕ × S)
  unfolding read_word
  find_sector stray s disk_inode sec_cnt =
      if ltb sec_cnt direct_cnt
      then done (word disk_inode (direct_ofs + 4 * sec_cnt), s)
      else (if ltb sec_cnt (direct_cnt + indirect_cnt)
          then read_word s (word disk_inode indirect_ofs) ((sec_cnt - direct_cnt) * 4)
          else (if ltb sec_cnt (direct_cnt + indirect_cnt + doubly_indirect_cnt)
              then (do
                (indirect_sec_di, s) ←
                    read_word s (word disk_inode doubly_ofs)
                      ((sec_cnt - direct_cnt - indirect_cnt) / indirect_cnt * 4)
                read_word s indirect_sec_di
                    ((sec_cnt - direct_cnt - indirect_cnt) % indirect_cnt * 4))
              else done (stray, s)))

  -- `calloc` says whether there is memory.
  unfoldable pub byte_to_sector : Bool → ℕ → S → ℕ → ℕ → Outcome (ℕ × S)
  unfolding inode_length find_sector
  byte_to_sector calloc stray s inode pos = do
    (length, s) ← inode_length s inode
    if leb length pos
        then done (no_sector, s)
        else (if calloc
            then (do
              (disk_inode, s) ← st.cache_read s inode 0 sector_size
              find_sector stray s disk_inode (pos / 512))
            else panic)

  -- A round of the loop of `inode_read_at`, of `chunk` bytes: the read, and the read-ahead.
  unfoldable pub read_chunk : Bool → ℕ → S → ℕ → ℕ → ℕ → ℕ → Outcome (List ℕ × S)
  unfolding byte_to_sector
  read_chunk calloc stray s inode sector_idx offset chunk = do
    (bytes, s) ← st.cache_read s sector_idx (offset % 512) chunk
    s ← st.close_entry s sector_idx
    (ahead_sector, s) ← byte_to_sector calloc stray s inode (offset + 512)
    s ← (if ahead_sector == no_sector then done s else st.cache_read_ahead s ahead_sector)
    done (bytes, s)

  -- The loop of `inode_read_at`: the bytes that it reads. Each round reads a byte at least, so that
  -- `size` rounds are enough.
  unfoldable pub read_loop : ℕ → Bool → ℕ → S → ℕ → ℕ → ℕ → Outcome (List ℕ × S)
  unfolding byte_to_sector inode_length chunk_size read_chunk
  read_loop zero calloc stray s inode size offset = done ([], s)
  read_loop (suc n) calloc stray s inode size offset = if size == 0 then done ([], s) else (do
    (sector_idx, s) ← byte_to_sector calloc stray s inode offset
    (length, s) ← inode_length s inode
    let chunk = chunk_size size offset length
    if chunk == 0 then done ([], s) else (do
      (bytes, s) ← read_chunk calloc stray s inode sector_idx offset chunk
      (rest, s) ← read_loop n calloc stray s inode (size - chunk) (offset + chunk)
      done (bytes ++ rest, s)))

  unfoldable pub inode_read_at : Bool → ℕ → S → ℕ → ℕ → ℕ → Outcome (List ℕ × S)
  unfolding read_loop
  inode_read_at calloc stray s inode size offset = read_loop size calloc stray s inode size offset
