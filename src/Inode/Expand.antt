-- ===== src/Inode/Expand.antt =====
-- `inode_expand` and `inode_write_at`: how files grow and change.
use spring_os.Prelude.{
  ℕ, zero, suc, ◌+◌, ◌-◌, ◌*◌, ◌/◌, ◌%◌, Bool, true, false, Option, none, some, List, ltb, ◌==◌,
  if◌then◌else◌, length, take, drop,
}
use spring_os.Prelude.Outcome.{Outcome, done, blocked, panic, fault, ◌>>=◌}
use spring_os.Disk.{Block, sector_size}
use spring_os.Cache.{splice}
use spring_os.Storage.{Storage}
use spring_os.Inode.{
  Inode, direct_cnt, indirect_cnt, doubly_indirect_cnt, length_ofs, direct_ofs, indirect_ofs,
  doubly_ofs, word, word_bytes, bytes_to_sectors, chunk_size, inode_length, read_word,
  byte_to_sector,
}

-- Sets a word of a `struct inode_disk`.
abbrev pub store_word : Block → ℕ → ℕ → Block
store_word b ofs v = splice b ofs (word_bytes v)

-- `lock_acquire (&inode->lock)`, what follows, and `lock_release`.
abbrev pub locked : {A : Type 0} → ℕ → Option ℕ → Outcome A → Outcome A
locked me holder m = elim holder [ none ↦ m | some t ↦ if t == me then panic else blocked ]

module _ {S : Type 0} (st : Storage S) where
  -- `free_map_allocate (1, &alloc_sec)`: a failure leaves `alloc_sec` as it was.
  unfoldable pub allocate_into : ℕ → S → Outcome (ℕ × S)
  allocate_into alloc_sec s = do
    (r, s) ← st.free_map_allocate s
    done (elim r as (λ _. ℕ) [ none ↦ alloc_sec | some t ↦ t ], s)

  -- A new table, whose sector goes into a member of the inode; `zeros` is not initialised.
  unfoldable pub new_table : Block → ℕ → Block → S → Outcome (Option Block × S)
  new_table zeros ofs disk_inode s = do
    (r, s) ← st.free_map_allocate s
    elim r [
      | none ↦ done (none, s)
      | some t ↦ do s ← st.cache_write s t zeros 0; done (some (store_word disk_inode ofs t), s)
    ]

  -- The indirect case of a round: the table is made at its first block.
  unfoldable pub expand_indirect : Block → ℕ → Block → ℕ → S → Outcome (Option (Block × ℕ) × S)
  unfolding allocate_into new_table
  expand_indirect zeros curr_sector disk_inode alloc_sec s = do
    (made, s) ←
        (if curr_sector == direct_cnt
          then new_table zeros indirect_ofs disk_inode s
          else done (some disk_inode, s))
    elim made [
      | none ↦ done (none, s)
      | some disk_inode ↦ do
        (alloc_sec, s) ← allocate_into alloc_sec s
        s ←
            st.cache_write s (word disk_inode indirect_ofs) (word_bytes alloc_sec)
              ((curr_sector - direct_cnt) * 4)
        done (some (disk_inode, alloc_sec), s)
    ]

  -- The inner table for block `double_cnt` of the doubly indirect case, where it is the first of it.
  unfoldable pub inner_table_for : Block → ℕ → Block → S → Outcome (Bool × S)
  inner_table_for zeros double_cnt disk_inode s =
      if double_cnt % indirect_cnt == 0
      then (do
        (r, s) ← st.free_map_allocate s
        elim r [
          | none ↦ done (false, s)
          | some t ↦ do
            s ← st.cache_write s t zeros 0
            s ←
                st.cache_write s (word disk_inode doubly_ofs) (word_bytes t)
                  (double_cnt / indirect_cnt * 4)
            done (true, s)
        ])
      else done (true, s)

  unfoldable pub expand_doubly : Block → ℕ → Block → ℕ → S → Outcome (Option (Block × ℕ) × S)
  unfolding allocate_into new_table inner_table_for read_word
  expand_doubly zeros curr_sector disk_inode alloc_sec s = do
    let double_cnt = curr_sector - direct_cnt - indirect_cnt
    (made, s) ←
        (if curr_sector == direct_cnt + indirect_cnt
          then new_table zeros doubly_ofs disk_inode s
          else done (some disk_inode, s))
    elim made [
      | none ↦ done (none, s)
      | some disk_inode ↦ do
        (inner, s) ← inner_table_for zeros double_cnt disk_inode s
        if inner
            then (do
              (alloc_sec, s) ← allocate_into alloc_sec s
              (double_indirect_sec, s) ←
                  read_word st s (word disk_inode doubly_ofs) (double_cnt / indirect_cnt * 4)
              s ←
                  st.cache_write s double_indirect_sec (word_bytes alloc_sec)
                    (double_cnt % indirect_cnt * 4)
              done (some (disk_inode, alloc_sec), s))
            else done (none, s)
    ]

  -- The loop, for `remain_sectors` rounds. It returns none where the function returns false.
  unfoldable pub expand_loop : ℕ → Block → ℕ → Block → ℕ → S → Outcome (Option Block × S)
  unfolding allocate_into expand_indirect expand_doubly
  expand_loop zero zeros curr_sector disk_inode alloc_sec s = done (some disk_inode, s)
  expand_loop (suc remain_sectors) zeros curr_sector disk_inode alloc_sec s = do
    (step, s) ←
        (if ltb curr_sector direct_cnt
          then (do
            (alloc_sec, s) ← allocate_into alloc_sec s
            done (
              some (store_word disk_inode (direct_ofs + 4 * curr_sector) alloc_sec, alloc_sec),
              s,
            ))
          else (if ltb curr_sector (direct_cnt + indirect_cnt)
              then expand_indirect zeros curr_sector disk_inode alloc_sec s
              else (if ltb curr_sector (direct_cnt + indirect_cnt + doubly_indirect_cnt)
                  then expand_doubly zeros curr_sector disk_inode alloc_sec s
                  else done (some (disk_inode, alloc_sec), s))))
    elim step [
      | none ↦ done (none, s)
      | some p ↦ expand_loop remain_sectors zeros (curr_sector + 1) p.0 p.1 s
    ]

  -- The sectors that a growth by `extend_length` needs beyond the existing ones. Where the growth
  -- fits the last sector, `extend_length - snip_byte` is negative in C, and rounds to 0 as well.
  abbrev pub new_sectors : ℕ → ℕ → ℕ → ℕ
  new_sectors exist_sectors length extend_length =
      bytes_to_sectors (extend_length - (exist_sectors * 512 - length))

  unfoldable pub inode_expand : Bool → Block → ℕ → S → ℕ → ℕ → Outcome (Bool × S)
  unfolding expand_loop inode_length
  inode_expand calloc zeros alloc_sec s inode extend_length =
      if calloc
      then (do
        (disk_inode, s) ← st.cache_read s inode 0 sector_size
        (exist_length, s) ← inode_length st s inode
        let exist_sectors = bytes_to_sectors exist_length
        (length, s) ← inode_length st s inode
        (r, s) ←
            expand_loop (new_sectors exist_sectors length extend_length) zeros exist_sectors
              disk_inode alloc_sec s
        elim r [
          | none ↦ done (false, s)
          | some disk_inode ↦ do
            s ←
                st.cache_write s inode
                  (store_word disk_inode length_ofs (word disk_inode length_ofs + extend_length)) 0
            done (true, s)
        ])
      else panic

  -- A round of the loop of `inode_write_at`.
  unfoldable pub write_chunk : S → ℕ → List ℕ → ℕ → Outcome S
  write_chunk s sector_idx bytes offset = do
    s ← st.cache_write s sector_idx bytes (offset % 512)
    st.close_entry s sector_idx

  -- The loop of `inode_write_at`: the number of bytes written.
  unfoldable pub write_loop : ℕ → Bool → ℕ → S → ℕ → List ℕ → ℕ → Outcome (ℕ × S)
  unfolding byte_to_sector inode_length chunk_size write_chunk
  write_loop zero calloc stray s inode buffer offset = done (0, s)
  write_loop (suc n) calloc stray s inode buffer offset =
      if length buffer == 0 then done (0, s) else (do
        (sector_idx, s) ← byte_to_sector st calloc stray s inode offset
        (len, s) ← inode_length st s inode
        let chunk = chunk_size (length buffer) offset len
        if chunk == 0
            then done (0, s)
            else (if ltb (length buffer) chunk then fault else (do
              s ← write_chunk s sector_idx (take chunk buffer) offset
              (bytes_written, s) ←
                  write_loop n calloc stray s inode (drop chunk buffer) (offset + chunk)
              done (chunk + bytes_written, s))))

  -- The growth in `inode_write_at`, under the inode's lock; its result is not looked at.
  unfoldable pub extend_for : ℕ → Bool → Block → ℕ → S → Inode → ℕ → Outcome S
  unfolding inode_expand inode_length
  extend_for me calloc zeros alloc_sec s inode end_ofs = do
    (exist_length, s) ← inode_length st s inode.sector
    if ltb exist_length end_ofs
        then locked me inode.holder (do
          (y, s) ← inode_expand calloc zeros alloc_sec s inode.sector (end_ofs - exist_length)
          done s)
        else done s

  unfoldable pub inode_write_at : ℕ → Bool → Block → ℕ → S → Inode → List ℕ → ℕ → Outcome (ℕ × S)
  unfolding extend_for write_loop
  inode_write_at me calloc zeros stray s inode buffer offset =
      if inode.deny_write_cnt == 0
      then (do
        s ← extend_for me calloc zeros stray s inode (offset + length buffer)
        write_loop (length buffer) calloc stray s inode.sector buffer offset)
      else done (0, s)
