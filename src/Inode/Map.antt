-- ===== src/Inode/Map.antt =====
-- Where the blocks of a file are: `byte_to_sector` against the tree of sectors.
use spring_os.Prelude.{
  ℕ, ◌+◌, ◌-◌, ◌*◌, ◌/◌, ◌%◌, ◌≤◌, ◌<◌, ◌≡◌, refl, sym, ap, subst, ◌∙◌, Bool, true, false, inl, inr,
  ltb, leb, if◌then◌else◌, Bool-cases, arith, get_or, take, drop, take_all, get_or-take,
  get_or-drop,
}
use spring_os.Prelude.Outcome.{Returns, Returns-bind, Returns-mono, ◌>>=◌}
use spring_os.Disk.{Block, sector_size}
use spring_os.Storage.{Storage, Lawful}
use spring_os.Inode.{
  direct_cnt, indirect_cnt, doubly_indirect_cnt, length_ofs, direct_ofs, indirect_ofs, doubly_ofs,
  word, no_sector, bytes_to_sectors, read_word, inode_length, find_sector, byte_to_sector,
}

-- The tree of the inode in sector `i`, in the sectors `f`: its length, its tables, and the sector of
-- each block.
abbrev pub file_length : (ℕ → Block) → ℕ → ℕ
file_length f i = word (f i) length_ofs

abbrev pub indirect_table : (ℕ → Block) → ℕ → ℕ
indirect_table f i = word (f i) indirect_ofs

abbrev pub doubly_table : (ℕ → Block) → ℕ → ℕ
doubly_table f i = word (f i) doubly_ofs

abbrev pub inner_table : (ℕ → Block) → ℕ → ℕ → ℕ
inner_table f i j = word (f (doubly_table f i)) (j * 4)

abbrev pub block_of : (ℕ → Block) → ℕ → ℕ → ℕ
block_of f i k =
    if ltb k direct_cnt
    then word (f i) (direct_ofs + 4 * k)
    else (if ltb k (direct_cnt + indirect_cnt)
        then word (f (indirect_table f i)) ((k - direct_cnt) * 4)
        else word (f (inner_table f i ((k - direct_cnt - indirect_cnt) / indirect_cnt)))
            ((k - direct_cnt - indirect_cnt) % indirect_cnt * 4))

-- The tree of `n` blocks is on the disk.
pub record Tree (on_disk : ℕ → Bool) (f : ℕ → Block) (i n : ℕ) : Type 0 where
  pub root : on_disk i ≡ true
  pub fits : n ≤ direct_cnt + indirect_cnt + doubly_indirect_cnt
  pub indirect : direct_cnt < n → on_disk (indirect_table f i) ≡ true
  pub doubly : direct_cnt + indirect_cnt < n → on_disk (doubly_table f i) ≡ true
  pub inner :
      (j : ℕ)
      → direct_cnt + indirect_cnt + j * indirect_cnt < n
      → on_disk (inner_table f i j) ≡ true
  pub blocks : (k : ℕ) → k < n → on_disk (block_of f i k) ≡ true

module _ {S : Type 0} {st : Storage S} (laws : Lawful st) where
  -- No sector changes, and no sector becomes used.
  pub record Stays (s s' : S) : Type 0 where
    pub ready : laws.Ready s'
    pub same : laws.sector s' ≡ laws.sector s
    pub same_use : laws.used s' ≡ laws.used s

  pub Stays-refl : (s : S) → laws.Ready s → Stays s s
  Stays-refl s ready = record { ready = ready; same = refl; same_use = refl }

  pub Stays-trans : (s s' s'' : S) → Stays s s' → Stays s' s'' → Stays s s''
  Stays-trans s s' s'' h h' = record {
    ready = h'.ready;
    same = h'.same ∙ h.same;
    same_use = h'.same_use ∙ h.same_use;
  }

  pub word-take : (b : Block) (ofs : ℕ) → word (take 4 (drop ofs b)) 0 ≡ word b ofs
  word-take b ofs = omega (
    arith,
    byte 0 (omega arith),
    byte 1 (omega arith),
    byte 2 (omega arith),
    byte 3 (omega arith),
    ap (λ k. get_or b k 0) (start 0),
  )
    where
      start : (i : ℕ) → ofs + 0 ≡ ofs
      start i = omega arith

      byte : (i : ℕ) → i < 4 → get_or (take 4 (drop ofs b)) i 0 ≡ get_or b (ofs + i) 0
      byte i h = get_or-take 4 i (drop ofs b) 0 h ∙ get_or-drop ofs i b 0

  pub read_word-word :
      (s : S) (t ofs : ℕ)
      → laws.Ready s
      → laws.on_disk t ≡ true
      → ofs + 4 ≤ sector_size
      → Returns (λ (v, s'). (v ≡ word (laws.sector s t) ofs) × Stays s s') (read_word st s t ofs)
  unfolding read_word
  read_word-word s t ofs ready on fits =
      Returns-bind _ _ (st.cache_read s t ofs 4) _ (laws.read_law s t ofs 4 ready on fits)
        λ (bytes, s') (is, ready', same, same_use, y). (
          ap (λ b. word b 0) is ∙ word-take (laws.sector s t) ofs,
          record { ready = ready'; same = same; same_use = same_use },
        )

  -- Reading a whole sector.
  pub read_all :
      (s : S) (t : ℕ)
      → laws.Ready s
      → laws.on_disk t ≡ true
      → Returns (λ (b, s'). (b ≡ laws.sector s t) × Stays s s') (st.cache_read s t 0 sector_size)
  read_all s t ready on =
      Returns-mono _ _ (st.cache_read s t 0 sector_size)
        (laws.read_law s t 0 sector_size ready on (omega arith))
        λ (bytes, s') (is, ready', same, same_use, y). (
          is ∙ take_all sector_size (laws.sector s t) (omega (arith, laws.length-sector s ready t)),
          record { ready = ready'; same = same; same_use = same_use },
        )

  pub inode_length-file_length :
      (s : S) (i : ℕ)
      → laws.Ready s
      → laws.on_disk i ≡ true
      → Returns (λ (v, s'). (v ≡ file_length (laws.sector s) i) × Stays s s') (inode_length st s i)
  unfolding inode_length
  inode_length-file_length s i ready on = read_word-word s i length_ofs ready on (omega arith)

  -- A word with a known value.
  pub read_word-as :
      (s : S) (t ofs v : ℕ)
      → laws.Ready s
      → laws.on_disk t ≡ true
      → ofs + 4 ≤ sector_size
      → v ≡ word (laws.sector s t) ofs
      → Returns (λ (r, s'). (r ≡ v) × Stays s s') (read_word st s t ofs)
  read_word-as s t ofs v ready on fits is =
      Returns-mono _ _ (read_word st s t ofs) (read_word-word s t ofs ready on fits)
        λ (r, s') (got, stays). (got ∙ sym is, stays)

  abbrev Finds : S → ℕ → ℕ → ℕ × S → Type 0
  Finds s i k (r, s') = (r ≡ block_of (laws.sector s) i k) × Stays s s'

  find_double :
      (s : S) (i k n : ℕ)
      → laws.Ready s
      → Tree laws.on_disk (laws.sector s) i n
      → k < n
      → ltb k direct_cnt ≡ false
      → ltb k (direct_cnt + indirect_cnt) ≡ false
      → Returns (Finds s i k) (
          read_word st s
            (doubly_table (laws.sector s) i)
            ((k - direct_cnt - indirect_cnt) / indirect_cnt * 4)
          >>= λ (t, s'). read_word st s' t ((k - direct_cnt - indirect_cnt) % indirect_cnt * 4))
  find_double s i k n ready tree h more double =
      Returns-bind _ _
        (read_word st s (doubly_table (laws.sector s) i)
          ((k - direct_cnt - indirect_cnt) / indirect_cnt * 4))
        _
        (read_word-word s (doubly_table (laws.sector s) i)
          ((k - direct_cnt - indirect_cnt) / indirect_cnt * 4) ready
          (tree.doubly (ground (arith, double))) (ground (arith, tree.fits)))
        λ (t, s') (is, stays).
          Returns-mono _ _ (read_word st s' t ((k - direct_cnt - indirect_cnt) % indirect_cnt * 4))
            (read_word-as s' t ((k - direct_cnt - indirect_cnt) % indirect_cnt * 4)
              (block_of (laws.sector s) i k) stays.ready
              (ap laws.on_disk is
                ∙ tree.inner ((k - direct_cnt - indirect_cnt) / indirect_cnt)
                    (ground (arith, double)))
              (omega arith) (rw (more, double, stays.same, is) refl))
            λ (r, s'') (got, stays'). (got, Stays-trans s s' s'' stays stays')

  pub find_sector-block_of :
      (stray : ℕ) (s : S) (i k n : ℕ)
      → laws.Ready s
      → Tree laws.on_disk (laws.sector s) i n
      → k < n
      → Returns (Finds s i k) (find_sector st stray s (laws.sector s i) k)
  unfolding find_sector
  find_sector-block_of stray s i k n ready tree h = elim (Bool-cases (ltb k direct_cnt)) [
    | inl direct ↦ rw (find_sector, direct) (rw direct refl, Stays-refl s ready)
    | inr more ↦ elim (Bool-cases (ltb k (direct_cnt + indirect_cnt))) [
      | inl single ↦
          rw (find_sector, more, single)
            (read_word-as s (indirect_table (laws.sector s) i) ((k - direct_cnt) * 4)
              (block_of (laws.sector s) i k) ready (tree.indirect (ground (arith, more)))
              (ground (arith, single)) (rw (more, single) refl))
      | inr double ↦
          let in_reach : ltb k (direct_cnt + indirect_cnt + doubly_indirect_cnt) ≡ true =
            ground (arith, tree.fits) in
          rw (find_sector, more, double, in_reach) (find_double s i k n ready tree h more double)
    ]
  ]

  find_sector-after :
      (stray : ℕ) (s s' : S) (b : Block) (i k n : ℕ)
      → Stays s s'
      → b ≡ laws.sector s i
      → Tree laws.on_disk (laws.sector s) i n
      → k < n
      → Returns (Finds s i k) (find_sector st stray s' b k)
  find_sector-after stray s s' b i k n stays whole tree h =
      subst (λ c. Returns (Finds s i k) (find_sector st stray s' c k))
        (ap (λ f. f i) stays.same ∙ sym whole)
        (Returns-mono _ _ (find_sector st stray s' (laws.sector s' i) k)
          (find_sector-block_of stray s' i k n stays.ready
            (subst (λ f. Tree laws.on_disk f i n) (sym stays.same) tree) h)
          λ (r, s'') (got, stays').
            (got ∙ ap (λ f. block_of f i k) stays.same, Stays-trans s s' s'' stays stays'))

  -- Over any storage that keeps its promises, for a file whose tree is on the disk, byte_to_sector
  -- of any position returns -1 from the length of the file on, and otherwise the sector that the
  -- tree (direct blocks, the table of indirect ones, the table of tables) has for the position's
  -- block; no sector has changed.
  pub byte_to_sector-block_of :
      (stray : ℕ) (s : S) (i pos : ℕ)
      → laws.Ready s
      → Tree laws.on_disk (laws.sector s) i (bytes_to_sectors (file_length (laws.sector s) i))
      → Returns
          (λ (r, s').
            (r ≡ (
              if leb (file_length (laws.sector s) i) pos
              then no_sector
              else block_of (laws.sector s) i (pos / 512)))
            × Stays s s')
          (byte_to_sector st true stray s i pos)
  unfolding byte_to_sector
  byte_to_sector-block_of stray s i pos ready tree =
      Returns-bind _ _ (inode_length st s i) _ (inode_length-file_length s i ready tree.root)
        λ (len, s') (is, stays). elim (Bool-cases (leb (file_length (laws.sector s) i) pos)) [
          | inl past ↦ rw (is, past) (refl, stays)
          | inr within ↦
              rw (is, within)
                (Returns-bind _ _ (st.cache_read s' i 0 sector_size) _
                  (read_all s' i stays.ready tree.root)
                  λ (b, s'') (whole, stays').
                    find_sector-after stray s s'' b i (pos / 512)
                      (bytes_to_sectors (file_length (laws.sector s) i))
                      (Stays-trans s s' s'' stays stays') (whole ∙ ap (λ f. f i) stays.same) tree
                      (ground (arith, within)))
        ]
