-- ===== src/Inode/Close.antt =====
-- Opening and closing inodes: the counts of openers, and the removal at the last close.
use mathlib.Core.Option
use spring_os.Prelude.{
  ℕ, ◌+◌, ◌-◌, ◌*◌, ◌≤◌, ◌≡◌, refl, ap, subst, ◌∙◌, true, false, none, some, List, [], ◌∷◌, ◌==◌,
  ltb, Bool-cases, Option-cases, inl, inr, arith, ==_refl, ge→ltb,
}
use spring_os.Prelude.Outcome.{Outcome, done, panic, Returns, Returns-bind, bind-panic, ◌>>=◌}
use spring_os.Disk.{Block, sector_size}
use spring_os.Storage.{Storage, Lawful}
use spring_os.Inode.{Inode, bytes_to_sectors, direct_cnt, indirect_cnt, word, length_ofs}
use spring_os.Inode.Open.{
  change, lookup, reopened, inode_reopen, inode_open, unlist, release_blocks, inode_close,
}
use spring_os.Inode.Map.{file_length, Stays, read_all}

-- Every open inode has an opener.
abbrev pub Counted : List Inode → Type 0
Counted [] = Unit {0}
Counted (i ∷ is) = (1 ≤ i.open_cnt) × Counted is

abbrev released : Inode → Inode
released i = record i { open_cnt = i.open_cnt - 1 }

lookup-reopened :
    (sector : ℕ) (is : List Inode) (i : Inode)
    → lookup sector is ≡ some i
    → lookup sector (change reopened sector is) ≡ some (reopened i)
unfolding lookup change
lookup-reopened sector [] i h = cc
lookup-reopened sector (j ∷ is) i h = elim (Bool-cases (j.sector == sector)) [
  | inl hit ↦
      let h' : some j ≡ some i = rw hit at h in rw (hit, lookup, hit) (ap (Option.map reopened) h')
  | inr miss ↦
      let h' : lookup sector is ≡ some i = rw miss at h in
      rw (miss, lookup, miss) (lookup-reopened sector is i h')
]

change-reopened :
    (sector : ℕ) (is : List Inode) → change released sector (change reopened sector is) ≡ is
unfolding change
change-reopened sector [] = refl
change-reopened sector (j ∷ is) = elim (Bool-cases (j.sector == sector)) [
  | inl hit ↦
      let count : j.open_cnt + 1 - 1 ≡ j.open_cnt = omega arith in
      rw (hit, change, hit) (ap (λ n. record j { open_cnt = n } ∷ is) count)
  | inr miss ↦ rw (miss, change, miss) (ap (λ l. j ∷ l) (change-reopened sector is))
]

lookup-Counted :
    (sector : ℕ) (is : List Inode) (i : Inode)
    → lookup sector is ≡ some i
    → Counted is
    → 1 ≤ i.open_cnt
unfolding lookup
lookup-Counted sector [] i h c = absurd (cc)
lookup-Counted sector (j ∷ is) i h c = elim (Bool-cases (j.sector == sector)) [
  | inl hit ↦
      let h' : some j ≡ some i = rw hit at h in
      subst (λ o. elim o as (λ _. Type 0) [ none ↦ Unit {0} | some x ↦ 1 ≤ x.open_cnt ]) h' c.0
  | inr miss ↦
      let h' : lookup sector is ≡ some i = rw miss at h in lookup-Counted sector is i h' c.1
]

-- The list is as it was, and no sector has changed.
abbrev pub Restored :
    {S : Type 0} {st : Storage S} → Lawful st → S → List Inode → List Inode × S → Type 0
Restored laws s opened (opened', s') = (opened' ≡ opened) × Stays laws s s'

module _ {S : Type 0} {st : Storage S} (laws : Lawful st) (me heap : ℕ) (s : S)
    (opened : List Inode) (sector : ℕ) (ready : laws.Ready s)
    (on : laws.on_disk sector ≡ true) where
  unlist-inode_open :
      lookup sector opened ≡ none → unlist sector (inode_open true opened sector).1 ≡ opened
  unfolding inode_open unlist
  unlist-inode_open closed = rw (closed, inode_open, ==_refl sector) refl

  inode_open-listed :
      (i : Inode)
      → lookup sector opened ≡ some i
      → (inode_open true opened sector).1 ≡ change reopened sector opened
  unfolding inode_open inode_reopen
  inode_open-listed i listed = rw (listed, inode_open) refl

  -- Over any storage that keeps its promises, if every open inode has an opener, inode_open of a
  -- sector on the disk, with memory for a new inode, followed by inode_close of it, returns with
  -- the list of open inodes as it was, and no sector has changed.
  pub inode_close-inode_open :
      Counted opened
      → Returns
          (Restored laws s opened)
          (inode_close st me true heap s (inode_open true opened sector).1 sector)
  unfolding inode_close inode_open inode_reopen lookup
  inode_close-inode_open counted = elim (Option-cases (lookup sector opened)) [
    | inl closed ↦
        Returns-bind _ _ (st.cache_read s sector 0 sector_size) _ (read_all laws s sector ready on)
          λ (b, s') (is, stays).
            rw (closed, inode_open, ==_refl sector) (unlist-inode_open closed, stays)
    | inr (i, listed) ↦
        Returns-bind _ _ (st.cache_read s sector 0 sector_size) _ (read_all laws s sector ready on)
          λ (b, s') (is, stays).
            let count : 1 ≤ i.open_cnt = lookup-Counted sector opened i listed counted in
            let more : (i.open_cnt + 1 == 1) ≡ false = ground arith in
            rw (listed, inode_open, lookup-reopened sector opened i listed, more)
              (
                ap (change released sector) (inode_open-listed i listed)
                    ∙ change-reopened sector opened,
                stays,
              )
  ]

  release_blocks-panic :
      (sector_cnt : ℕ) (b : Block) (s' : S)
      → laws.Ready s'
      → sector_cnt ≤ direct_cnt
      → laws.on_disk heap ≡ false
      → release_blocks st heap sector sector_cnt b s' ≡ panic
  unfolding release_blocks
  release_blocks-panic sector_cnt b s' ready' few off =
      let not_doubly : ltb (direct_cnt + indirect_cnt) sector_cnt ≡ false =
        ge→ltb _ _ (omega arith) in
      let not_indirect : ltb direct_cnt sector_cnt ≡ false = ge→ltb _ _ few in
      rw (not_doubly, not_indirect, laws.off_disk_law s' heap 0 sector_size ready' off) refl

  -- Over any storage that keeps its promises, inode_close by the last opener of a removed file of
  -- at most 64 blocks, whose lock is free, panics if the address of the array of direct blocks is
  -- not the number of a sector on the disk.
  pub inode_close-panic :
      (i : Inode)
      → lookup sector opened ≡ some i
      → i.open_cnt ≡ 1
      → i.holder ≡ none
      → i.removed ≡ true
      → file_length (laws.sector s) sector ≤ direct_cnt * sector_size
      → laws.on_disk heap ≡ false
      → inode_close st me true heap s opened sector ≡ panic
  unfolding inode_close release_blocks
  inode_close-panic i listed last free removed short off =
      bind-panic _ (st.cache_read s sector 0 sector_size) _ (read_all laws s sector ready on)
        λ (b, s') (is, stays).
          rw (listed, last, free, removed)
            (ap (λ (m : Outcome S). m >>= λ t. done (unlist sector opened, t))
              (release_blocks-panic (bytes_to_sectors (word b length_ofs)) b s' stays.ready
                (omega (arith, ap (λ c. word c length_ofs) is)) off))
