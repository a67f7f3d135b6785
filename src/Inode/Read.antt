-- ===== src/Inode/Read.antt =====
-- `inode_read_at` against the bytes of the file.
use spring_os.Prelude.{
  ℕ, zero, suc, min, ◌+◌, ◌-◌, ◌/◌, ◌%◌, ◌≤◌, ◌<◌, ◌≡◌, refl, sym, ap, ap₂, subst, ◌∙◌, Bool, true,
  false, inl, inr, List, ◌++◌, ltb, leb, ◌==◌, if◌then◌else◌, Bool-cases, arith, get_or, length,
  take, drop, length-take, length-drop, length-append, get_or-take, get_or-drop, get_or-append,
}
use spring_os.Prelude.Outcome.{done, Returns, Returns-bind, Returns-mono}
use spring_os.Disk.{Block}
use spring_os.Storage.{Storage, Lawful}
use spring_os.Inode.{
  no_sector, bytes_to_sectors, chunk_size, inode_length, byte_to_sector, read_chunk, read_loop,
  inode_read_at,
}
use spring_os.Inode.Map.{
  file_length, block_of, Tree, Stays, Stays-refl, Stays-trans, inode_length-file_length,
  byte_to_sector-block_of,
}

-- The byte at a position of the file in the inode `i`.
abbrev pub byte_at : (ℕ → Block) → ℕ → ℕ → ℕ
byte_at f i p = get_or (f (block_of f i (p / 512))) (p % 512) 0

-- A whole tree, of all blocks that the length needs.
abbrev pub IsFile : (ℕ → Bool) → (ℕ → Block) → ℕ → Type 0
IsFile on_disk f i = Tree on_disk f i (bytes_to_sectors (file_length f i))

pub chunk_size-min :
    (size offset length : ℕ)
    → offset ≤ length
    → chunk_size size offset length ≡ min size (min (length - offset) (512 - offset % 512))
unfolding chunk_size
chunk_size-min size offset length h = ground arith

-- `bytes` are those of the file from `offset` on.
abbrev pub Piece : (ℕ → Block) → ℕ → ℕ → List ℕ → Type 0
Piece f i offset bytes = (k : ℕ) → k < length bytes → get_or bytes k 0 ≡ byte_at f i (offset + k)

Piece-sector :
    (f : ℕ → Block) (i offset chunk : ℕ)
    → offset % 512 + chunk ≤ 512
    → Piece f i offset (take chunk (drop (offset % 512) (f (block_of f i (offset / 512)))))
Piece-sector f i offset chunk fits k h =
    let in_chunk : k < chunk =
      omega (arith, length-take chunk (drop (offset % 512) (f (block_of f i (offset / 512))))) in
    let same_block : offset / 512 ≡ (offset + k) / 512 = omega arith in
    let place : offset % 512 + k ≡ (offset + k) % 512 = omega arith in
    get_or-take chunk k (drop (offset % 512) (f (block_of f i (offset / 512)))) 0 in_chunk
    ∙ get_or-drop (offset % 512) k (f (block_of f i (offset / 512))) 0
    ∙ ap₂ (λ b o. get_or (f (block_of f i b)) o 0) same_block place

Piece-append :
    (f : ℕ → Block) (i offset : ℕ) (xs ys : List ℕ)
    → Piece f i offset xs
    → Piece f i (offset + length xs) ys
    → Piece f i offset (xs ++ ys)
Piece-append f i offset xs ys first rest k h =
    get_or-append xs ys k 0 ∙ elim (Bool-cases (ltb k (length xs))) [
      | inl before ↦ rw before (first k (ground arith))
      | inr behind ↦ rw behind (
          rest (k - length xs) (ground (arith, length-append xs ys))
          ∙ ap (byte_at f i) {x = offset + length xs + (k - length xs)} {y = offset + k}
              (ground arith))
    ]

module _ {S : Type 0} {st : Storage S} (laws : Lawful st) where
  -- What a read from `offset` of at most `size` bytes gives.
  pub record Got (s : S) (i size offset : ℕ) (bytes : List ℕ) (s' : S) : Type 0 where
    pub amount : length bytes ≡ min size (file_length (laws.sector s) i - offset)
    pub piece : Piece (laws.sector s) i offset bytes
    pub stays : Stays laws s s'

  Stays-more :
      (s s' s'' : S)
      → Stays laws s s'
      → laws.Ready s''
      → laws.sector s'' ≡ laws.sector s'
      → laws.used s'' ≡ laws.used s'
      → Stays laws s s''
  Stays-more s s' s'' stays ready same same_use =
      Stays-trans laws s s' s'' stays (record { ready = ready; same = same; same_use = same_use })

  read_ahead-Stays :
      (s s' : S) (t : ℕ)
      → Stays laws s s'
      → Returns (Stays laws s) (if t == no_sector then done s' else st.cache_read_ahead s' t)
  read_ahead-Stays s s' t stays = elim (Bool-cases (t == no_sector)) [
    | inl off ↦ rw off stays
    | inr on ↦ rw on (
        Returns-mono _ _ (st.cache_read_ahead s' t) (laws.ahead_law s' t stays.ready)
          λ s'' (ready, same, same_use). Stays-more s s' s'' stays ready same same_use)
  ]

  read_chunk-Piece :
      (stray : ℕ) (s s' : S) (i sector_idx offset chunk : ℕ)
      → IsFile laws.on_disk (laws.sector s) i
      → Stays laws s s'
      → offset < file_length (laws.sector s) i
      → sector_idx ≡ block_of (laws.sector s) i (offset / 512)
      → offset % 512 + chunk ≤ 512
      → Returns
          (λ (bytes, s'').
            (length bytes ≡ chunk) × Piece (laws.sector s) i offset bytes × Stays laws s s'')
          (read_chunk st true stray s' i sector_idx offset chunk)
  unfolding read_chunk
  read_chunk-Piece stray s s' i sector_idx offset chunk tree stays h at_block fits =
      Returns-bind _ _ (st.cache_read s' sector_idx (offset % 512) chunk) _
        (laws.read_law s' sector_idx (offset % 512) chunk stays.ready
          (ap laws.on_disk at_block ∙ tree.blocks (offset / 512) (omega arith)) fits)
        λ (bytes, s1) (is, ready1, same1, use1, there).
          Returns-bind _ _ (st.close_entry s1 sector_idx) _
            (laws.close_law s1 sector_idx ready1 there)
            λ s2 (ready2, same2, use2).
              let stays2 =
                Stays-more s s1 s2 (Stays-more s s' s1 stays ready1 same1 use1) ready2 same2 use2 in
              Returns-bind _ _ (byte_to_sector st true stray s2 i (offset + 512)) _
                (byte_to_sector-block_of laws stray s2 i (offset + 512) ready2
                  (subst (λ f. IsFile laws.on_disk f i) (sym stays2.same) tree))
                λ (t, s3) (y, stays3).
                  Returns-bind _ _ (if t == no_sector then done s3 else st.cache_read_ahead s3 t) _
                    (read_ahead-Stays s s3 t (Stays-trans laws s s2 s3 stays2 stays3))
                    λ s4 stays4.
                      let got : bytes
                          ≡ take chunk (
                              drop (offset % 512)
                                (laws.sector s (block_of (laws.sector s) i (offset / 512)))) =
                        is
                        ∙ ap₂ (λ f t. take chunk (drop (offset % 512) (f t))) stays.same at_block in
                      (
                        omega (
                          arith,
                          ap length is,
                          length-take chunk (drop (offset % 512) (laws.sector s' sector_idx)),
                          length-drop (offset % 512) (laws.sector s' sector_idx),
                          laws.length-sector s' stays.ready sector_idx,
                        ),
                        subst (Piece (laws.sector s) i offset) (sym got)
                            (Piece-sector (laws.sector s) i offset chunk fits),
                        stays4,
                      )

  Got-append :
      (s s' s'' : S) (i size offset chunk : ℕ) (xs ys : List ℕ)
      → Stays laws s s'
      → length xs ≡ chunk
      → chunk ≤ min size (file_length (laws.sector s) i - offset)
      → Piece (laws.sector s) i offset xs
      → Got s' i (size - chunk) (offset + chunk) ys s''
      → Got s i size offset (xs ++ ys) s''
  Got-append s s' s'' i size offset chunk xs ys stays len fits first rest = record {
    amount = omega (arith, length-append xs ys, rest.amount, ap (λ f. file_length f i) stays.same);
    piece = Piece-append (laws.sector s) i offset xs ys first (
        subst (λ f. Piece f i (offset + length xs) ys) stays.same
          (subst (λ n. Piece (laws.sector s') i (offset + n) ys) (sym len) rest.piece));
    stays = Stays-trans laws s s' s'' stays rest.stays;
  }

  read_loop-Got :
      (n stray : ℕ) (s : S) (i size offset : ℕ)
      → laws.Ready s
      → IsFile laws.on_disk (laws.sector s) i
      → offset ≤ file_length (laws.sector s) i
      → size ≤ n
      → Returns
          (λ (bytes, s'). Got s i size offset bytes s')
          (read_loop st n true stray s i size offset)
  unfolding read_loop
  read_loop-Got zero stray s i size offset ready tree h enough = record {
    amount = omega arith;
    piece = λ k lt. absurd (omega arith);
    stays = Stays-refl laws s ready;
  }
  read_loop-Got (suc n) stray s i size offset ready tree h enough = elim (Bool-cases (size == 0)) [
    | inl none_left ↦ rw none_left (record {
      amount = ground arith;
      piece = λ k lt. absurd (omega arith);
      stays = Stays-refl laws s ready;
    })
    | inr some_left ↦ rw some_left (
        Returns-bind _ _ (byte_to_sector st true stray s i offset) _
          (byte_to_sector-block_of laws stray s i offset ready tree)
          λ (sector_idx, s1) (at_block, stays1).
            Returns-bind _ _ (inode_length st s1 i) _
              (inode_length-file_length laws s1 i stays1.ready tree.root)
              λ (len, s2) (is, stays2).
                let stays12 = Stays-trans laws s s1 s2 stays1 stays2 in
                let chunk_is : chunk_size size offset len
                    ≡ min size (min (file_length (laws.sector s) i - offset) (512 - offset % 512)) =
                  ap (chunk_size size offset) (is ∙ ap (λ f. file_length f i) stays1.same)
                  ∙ chunk_size-min size offset (file_length (laws.sector s) i) h in
                elim (Bool-cases (leb (file_length (laws.sector s) i) offset)) [
                  | inl past ↦
                      let nothing : (chunk_size size offset len == 0) ≡ true =
                        ground (arith, chunk_is) in
                      rw nothing (record {
                        amount = ground arith;
                        piece = λ k lt. absurd (omega arith);
                        stays = stays12;
                      })
                  | inr within ↦
                      let something : (chunk_size size offset len == 0) ≡ false =
                        ground (arith, chunk_is) in
                      rw something (
                        Returns-bind _ _
                          (read_chunk st true stray s2 i sector_idx offset
                            (chunk_size size offset len))
                          _
                          (read_chunk-Piece stray s s2 i sector_idx offset
                            (chunk_size size offset len) tree stays12 (ground arith)
                            (at_block ∙ rw within refl) (omega (arith, chunk_is)))
                          λ (bytes, s3) (got, piece, stays3).
                            Returns-bind _ _
                              (read_loop st n true stray s3 i (size - chunk_size size offset len)
                                (offset + chunk_size size offset len))
                              _
                              (read_loop-Got n stray s3 i (size - chunk_size size offset len)
                                (offset + chunk_size size offset len) stays3.ready
                                (subst (λ f. IsFile laws.on_disk f i) (sym stays3.same) tree)
                                (omega (arith, chunk_is, ap (λ f. file_length f i) stays3.same))
                                (ground (arith, something)))
                              λ (rest, s4) got_rest.
                                Got-append s s3 s4 i size offset (chunk_size size offset len) bytes
                                  rest stays3 got (omega (arith, chunk_is)) piece got_rest)
                ])
  ]

  -- Over any storage that keeps its promises, for a file whose tree is on the disk, and an offset
  -- that is not beyond its end: inode_read_at returns the bytes of the file from the offset on, as
  -- many as were asked for or as there are up to the end, and no sector has changed.
  pub inode_read_at-Got :
      (stray : ℕ) (s : S) (i size offset : ℕ)
      → laws.Ready s
      → IsFile laws.on_disk (laws.sector s) i
      → offset ≤ file_length (laws.sector s) i
      → Returns
          (λ (bytes, s'). Got s i size offset bytes s')
          (inode_read_at st true stray s i size offset)
  unfolding inode_read_at
  inode_read_at-Got stray s i size offset ready tree h =
      read_loop-Got size stray s i size offset ready tree h (omega arith)
