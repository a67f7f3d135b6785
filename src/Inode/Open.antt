-- ===== src/Inode/Open.antt =====
-- The open inodes: `inode_create`, `inode_open`, `inode_close` and what they count. A pointer to an open
-- inode is the number of its sector, since no sector is open twice.
use spring_os.Prelude.{
  ℕ, zero, suc, ◌+◌, ◌-◌, ◌*◌, Bool, true, false, Option, none, some, List, [], ◌∷◌, ltb, leb, ◌==◌,
  if◌then◌else◌, length, replicate,
}
use spring_os.Prelude.Outcome.{Outcome, done, panic, fault, ◌>>=◌}
use spring_os.Disk.{Block, sector_size}
use spring_os.Cache.{splice}
use spring_os.Storage.{Storage}
use spring_os.Inode.{
  Inode, inode_magic, direct_cnt, indirect_cnt, length_ofs, magic_ofs, is_dir_ofs, parent_ofs,
  indirect_ofs, doubly_ofs, word, bytes_to_sectors,
}
use spring_os.Inode.Expand.{store_word, locked, inode_expand}

-- Changes the inode of a sector in the list.
unfoldable pub change : (Inode → Inode) → ℕ → List Inode → List Inode
change f sector [] = []
change f sector (i ∷ is) = if i.sector == sector then f i ∷ is else i ∷ change f sector is

-- The loop of `inode_open`.
unfoldable pub lookup : ℕ → List Inode → Option Inode
lookup sector [] = none
lookup sector (i ∷ is) = if i.sector == sector then some i else lookup sector is

abbrev pub reopened : Inode → Inode
reopened i = record i { open_cnt = i.open_cnt + 1 }

unfoldable pub inode_reopen : Option ℕ → List Inode → Option ℕ × List Inode
unfolding change
inode_reopen none opened = (none, opened)
inode_reopen (some sector) opened = (some sector, change reopened sector opened)

abbrev pub new_inode : ℕ → Inode
new_inode sector = record {
  sector = sector;
  open_cnt = 1;
  removed = false;
  deny_write_cnt = 0;
  holder = none;
}

-- `calloc` says whether there is memory.
unfoldable pub inode_open : Bool → List Inode → ℕ → Option ℕ × List Inode
unfolding lookup inode_reopen
inode_open calloc opened sector = elim (lookup sector opened) [
  | some i ↦ inode_reopen (some sector) opened
  | none ↦ if calloc then (some sector, new_inode sector ∷ opened) else (none, opened)
]

unfoldable pub inode_remove : List Inode → ℕ → List Inode
unfolding change
inode_remove opened sector = change (λ i. record i { removed = true }) sector opened

unfoldable pub inode_deny_write : Inode → Outcome Inode
inode_deny_write i =
    let i' = record i { deny_write_cnt = i.deny_write_cnt + 1 } in
    if leb i'.deny_write_cnt i'.open_cnt then done i' else panic

unfoldable pub inode_allow_write : Inode → Outcome Inode
inode_allow_write i =
    if ltb 0 i.deny_write_cnt
    then (if leb i.deny_write_cnt i.open_cnt
        then done (record i { deny_write_cnt = i.deny_write_cnt - 1 })
        else panic)
    else panic

-- `list_remove`.
unfoldable pub unlist : ℕ → List Inode → List Inode
unlist sector [] = []
unlist sector (i ∷ is) = if i.sector == sector then is else i ∷ unlist sector is

-- The new `struct inode_disk` of `inode_create`; `parent` is the sector of the current directory.
abbrev pub new_disk_inode : ℕ → Bool → Block
new_disk_inode parent is_dir =
    store_word
      (splice (store_word (replicate 512 0) magic_ofs inode_magic) is_dir_ofs
        ((if is_dir then 1 else 0) ∷ []))
      parent_ofs parent

module _ {S : Type 0} (st : Storage S) where
  -- The lock of an inode that has just been opened here may be held by another opener.
  unfoldable pub inode_create :
      ℕ → Bool → Block → ℕ → S → List Inode → ℕ → ℕ → Bool → ℕ → Outcome (Bool × S × List Inode)
  unfolding inode_open inode_expand lookup
  inode_create me calloc zeros alloc_sec s opened sector length is_dir parent =
      if calloc
      then (do
        s ← st.cache_write s sector (new_disk_inode parent is_dir) 0
        let opened' = (inode_open calloc opened sector).1
        (success, s) ← elim (lookup sector opened') as (λ _. Outcome (Bool × S)) [
          | none ↦ fault
          | some i ↦ locked me i.holder (inode_expand st calloc zeros alloc_sec s sector length)
        ]
        done (success, s, opened'))
      else panic

  -- `free_map_release` of the sectors that stand in a table from index `j` on.
  unfoldable pub release_up : ℕ → ℕ → Block → S → Outcome S
  release_up zero j table s = done s
  release_up (suc n) j table s = do
    s ← st.free_map_release s (word table (4 * j))
    release_up n (j + 1) table s

  -- The same from the last index down to 1, as the loops of the other two cases run; an array of `cnt`
  -- members has none at `cnt`.
  unfoldable pub release_down : ℕ → ℕ → Block → S → Outcome S
  release_down cnt zero table s = done s
  release_down cnt (suc n) table s =
      if ltb (suc n) cnt
      then (do s ← st.free_map_release s (word table (4 * suc n)); release_down cnt n table s)
      else fault

  -- The doubly indirect case, whose loop runs once for fewer than 128 blocks. From 128 on its second
  -- read of 512 bytes begins inside the sector, so that it runs beyond the cache's buffer, and the loop
  -- does not end once `double_off` is 0; the model stops at the read.
  unfoldable pub release_doubly : ℕ → Block → S → Outcome S
  unfolding release_up
  release_doubly double_cnt disk_inode s = do
    (doubly, s) ← st.cache_read s (word disk_inode doubly_ofs) 0 sector_size
    if ltb double_cnt indirect_cnt
        then (do
          (double_element, s) ← st.cache_read s (word disk_inode doubly_ofs) 0 sector_size
          release_up double_cnt 0 double_element s)
        else fault

  -- The deallocation of a removed inode. `heap` is the address of `disk_inode->direct`, which is taken for
  -- the number of a sector.
  unfoldable pub release_blocks : ℕ → ℕ → ℕ → Block → S → Outcome S
  unfolding release_down release_doubly
  release_blocks heap sector sector_cnt disk_inode s = do
    s ←
        (if ltb (direct_cnt + indirect_cnt) sector_cnt
          then release_doubly (sector_cnt - direct_cnt - indirect_cnt) disk_inode s
          else done s)
    let left =
        if ltb (direct_cnt + indirect_cnt) sector_cnt then direct_cnt + indirect_cnt else sector_cnt
    s ←
        (if ltb direct_cnt left
          then (do
            (indirect, s) ← st.cache_read s (word disk_inode indirect_ofs) 0 sector_size
            release_down indirect_cnt (left - direct_cnt) indirect s)
          else done s)
    (direct, s) ← st.cache_read s heap 0 sector_size
    s ← release_down direct_cnt (if ltb direct_cnt left then direct_cnt else left) direct s
    s ← st.free_map_release s sector
    st.free_entry s sector

  -- `inode_close` of an open inode. What `calloc` returns is written to unchecked.
  unfoldable pub inode_close : ℕ → Bool → ℕ → S → List Inode → ℕ → Outcome (List Inode × S)
  unfolding lookup change unlist release_blocks
  inode_close me calloc heap s opened sector =
      if calloc
      then (do
        (disk_inode, s) ← st.cache_read s sector 0 sector_size
        elim (lookup sector opened) as (λ _. Outcome (List Inode × S)) [
          | none ↦ fault
          | some i ↦
              if i.open_cnt == 1
              then locked me i.holder (do
                s ←
                    (if i.removed
                      then release_blocks heap sector
                          (bytes_to_sectors (word disk_inode length_ofs)) disk_inode s
                      else done s)
                done (unlist sector opened, s))
              else done (change (λ i. record i { open_cnt = i.open_cnt - 1 }) sector opened, s)
        ])
      else fault
