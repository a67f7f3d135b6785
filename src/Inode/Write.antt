-- ===== src/Inode/Write.antt =====
-- `inode_write_at` within the file, and reading what it wrote.
use spring_os.Prelude.{
  ℕ, zero, suc, min, ◌+◌, ◌-◌, ◌/◌, ◌%◌, ◌≤◌, ◌<◌, ◌≡◌, refl, sym, ap, ap₂, subst, ◌∙◌, true, false,
  List, [], ◌∷◌, ltb, leb, ◌==◌, if◌then◌else◌, ne→==, arith, length, take, drop, length-take,
  length-drop, take-append-drop,
}
use spring_os.Prelude.Outcome.{done, fault, Returns, Returns-bind, Returns-mono, ◌>>=◌}
use spring_os.Disk.{update}
use spring_os.Cache.{splice}
use spring_os.Storage.{Storage, Lawful}
use spring_os.Inode.{no_sector, bytes_to_sectors, chunk_size, inode_length, byte_to_sector}
use spring_os.Inode.Expand.{write_chunk, write_loop}
use spring_os.Inode.Map.{
  file_length, block_of, Tree, Stays, Stays-trans, inode_length-file_length,
  byte_to_sector-block_of,
}
use spring_os.Inode.Read.{IsFile, chunk_size-min}
use spring_os.Inode.Written.{blocks_of, Written, Written-nil, Written-append, Written-sector}
use spring_os.Inode.Apart.{Apart, file_length-outside, Tree-outside, Apart-outside}

-- A file on the disk with distinct sectors.
pub record Sound {S : Type 0} {st : Storage S} (laws : Lawful st) (s : S) (i : ℕ) : Type 0 where
  pub ready : laws.Ready s
  pub tree : IsFile laws.on_disk (laws.sector s) i
  pub apart : Apart (laws.sector s) i (blocks_of (laws.sector s) i)

module _ {S : Type 0} {st : Storage S} (laws : Lawful st) where
  -- What a write leaves: the file with the bytes in it, and no other sector changed.
  pub record Wrote (s : S) (i offset : ℕ) (bytes : List ℕ) (s' : S) : Type 0 where
    pub ready : laws.Ready s'
    pub written : Written (laws.sector s) i offset bytes (laws.sector s')
    pub same_use : laws.used s' ≡ laws.used s

  pub Wrote-length :
      (s s' : S) (i offset : ℕ) (bytes : List ℕ)
      → Sound laws s i
      → Wrote s i offset bytes s'
      → file_length (laws.sector s') i ≡ file_length (laws.sector s) i
  Wrote-length s s' i offset bytes ok wrote =
      file_length-outside (laws.sector s) (laws.sector s') i (blocks_of (laws.sector s) i) ok.apart
        wrote.written.outside

  pub Wrote-Sound :
      (s s' : S) (i offset : ℕ) (bytes : List ℕ)
      → Sound laws s i
      → Wrote s i offset bytes s'
      → Sound laws s' i
  Wrote-Sound s s' i offset bytes ok wrote =
      let same : blocks_of (laws.sector s) i ≡ blocks_of (laws.sector s') i =
        ap bytes_to_sectors (sym (Wrote-length s s' i offset bytes ok wrote)) in
      record {
        ready = wrote.ready;
        tree = subst (Tree laws.on_disk (laws.sector s') i) same (
            Tree-outside (laws.sector s) (laws.sector s') i (blocks_of (laws.sector s) i) ok.apart
              wrote.written.outside laws.on_disk ok.tree);
        apart = subst (Apart (laws.sector s') i) same (
            Apart-outside (laws.sector s) (laws.sector s') i (blocks_of (laws.sector s) i) ok.apart
              wrote.written.outside);
      }

  pub Stays-Sound : (s s' : S) (i : ℕ) → Stays laws s s' → Sound laws s i → Sound laws s' i
  Stays-Sound s s' i stays ok = record {
    ready = stays.ready;
    tree = subst (λ f. IsFile laws.on_disk f i) (sym stays.same) ok.tree;
    apart = subst (λ f. Apart f i (blocks_of f i)) (sym stays.same) ok.apart;
  }

  -- A round has written the first bytes of the buffer, and the others follow.
  Wrote-append :
      (s s' s'' : S) (i offset chunk : ℕ) (buffer : List ℕ)
      → Sound laws s i
      → chunk ≤ length buffer
      → Wrote s i offset (take chunk buffer) s'
      → Wrote s' i (offset + chunk) (drop chunk buffer) s''
      → Wrote s i offset buffer s''
  Wrote-append s s' s'' i offset chunk buffer ok h first rest =
      let len : chunk ≡ length (take chunk buffer) = omega (arith, length-take chunk buffer) in
      record {
        ready = rest.ready;
        written =
            subst (λ b. Written (laws.sector s) i offset b (laws.sector s''))
              (take-append-drop chunk buffer)
              (Written-append (laws.sector s) i ok.apart offset (take chunk buffer)
                (drop chunk buffer) (laws.sector s') (laws.sector s'') first.written
                (subst
                  (λ n.
                    Written (laws.sector s') i (offset + n) (drop chunk buffer) (laws.sector s''))
                  len rest.written));
        same_use = rest.same_use ∙ first.same_use;
      }

  write_chunk-Wrote :
      (s s' : S) (i sector_idx offset : ℕ) (bytes : List ℕ)
      → Sound laws s i
      → Stays laws s s'
      → offset < file_length (laws.sector s) i
      → sector_idx ≡ block_of (laws.sector s) i (offset / 512)
      → offset % 512 + length bytes ≤ 512
      → Returns (Wrote s i offset bytes) (write_chunk st s' sector_idx bytes offset)
  unfolding write_chunk
  write_chunk-Wrote s s' i sector_idx offset bytes ok stays h at_block fits =
      Returns-bind _ _ (st.cache_write s' sector_idx bytes (offset % 512)) _
        (laws.write_law s' sector_idx bytes (offset % 512) stays.ready
          (ap laws.on_disk at_block ∙ ok.tree.blocks (offset / 512) (omega arith)) fits)
        λ s1 (ready1, changed, use1, there).
          Returns-mono _ _ (st.close_entry s1 sector_idx)
            (laws.close_law s1 sector_idx ready1 there)
            λ s2 (ready2, same2, use2). record {
              ready = ready2;
              written =
                  subst (Written (laws.sector s) i offset bytes)
                    (sym (
                      same2
                      ∙ changed
                      ∙ ap₂ (λ f t. update f t (splice (f t) (offset % 512) bytes)) stays.same
                          at_block))
                    (Written-sector (laws.sector s) i ok.apart offset bytes
                      (laws.length-sector s ok.ready) (omega arith) fits);
              same_use = use2 ∙ use1 ∙ stays.same_use;
            }

  pub write_loop-Wrote :
      (n stray : ℕ) (s : S) (i : ℕ) (buffer : List ℕ) (offset : ℕ)
      → Sound laws s i
      → offset + length buffer ≤ file_length (laws.sector s) i
      → length buffer ≤ n
      → Returns
          (λ (cnt, s'). (cnt ≡ length buffer) × Wrote s i offset buffer s')
          (write_loop st n true stray s i buffer offset)
  unfolding write_loop
  write_loop-Wrote zero stray s i [] offset ok fits enough = (
    refl,
    record { ready = ok.ready; written = Written-nil _ i ok.apart offset; same_use = refl },
  )
  write_loop-Wrote zero stray s i (x ∷ buffer) offset ok fits enough = absurd (omega arith)
  write_loop-Wrote (suc n) stray s i [] offset ok fits enough = (
    refl,
    record { ready = ok.ready; written = Written-nil _ i ok.apart offset; same_use = refl },
  )
  write_loop-Wrote (suc n) stray s i (x ∷ buffer) offset ok fits enough =
      let not_empty : (length (x ∷ buffer) == 0) ≡ false = ne→== _ _ (omega arith) in
      rw not_empty (
        Returns-bind _ _ (byte_to_sector st true stray s i offset) _
          (byte_to_sector-block_of laws stray s i offset ok.ready ok.tree)
          λ (sector_idx, s1) (at_block, stays1).
            Returns-bind _ _ (inode_length st s1 i) _
              (inode_length-file_length laws s1 i stays1.ready ok.tree.root)
              λ (len, s2) (is, stays2).
                round sector_idx len s1 s2 at_block stays1
                  (is ∙ ap (λ f. file_length f i) stays1.same) stays2
                  (λ s' k. write_loop-Wrote n stray s' i (drop k (x ∷ buffer)) (offset + k)))
    where
      all : List ℕ
      all = x ∷ buffer

      round :
          (sector_idx len : ℕ) (s1 s2 : S)
          → sector_idx ≡ (
              if leb (file_length (laws.sector s) i) offset
              then no_sector
              else block_of (laws.sector s) i (offset / 512))
          → Stays laws s s1
          → len ≡ file_length (laws.sector s) i
          → Stays laws s1 s2
          → ((s' : S) (k : ℕ)
              → Sound laws s' i
              → offset + k + length (drop k all) ≤ file_length (laws.sector s') i
              → length (drop k all) ≤ n
              → Returns
                  (λ (cnt, s'').
                    (cnt ≡ length (drop k all)) × Wrote s' i (offset + k) (drop k all) s'')
                  (write_loop st n true stray s' i (drop k all) (offset + k)))
          → Returns
              (λ (cnt, s'). (cnt ≡ length all) × Wrote s i offset all s')
              (if chunk_size (length all) offset len == 0
                then done (0, s2)
                else (if ltb (length all) (chunk_size (length all) offset len) then fault else (do
                  t ←
                      write_chunk st s2 sector_idx
                        (take (chunk_size (length all) offset len) all)
                        offset
                  (bytes_written, t) ←
                      write_loop st n true stray t i
                        (drop (chunk_size (length all) offset len) all)
                        (offset + chunk_size (length all) offset len)
                  done (chunk_size (length all) offset len + bytes_written, t))))
      round sector_idx len s1 s2 at_block stays1 is stays2 others =
          let chunk : ℕ = chunk_size (length all) offset len in
          let chunk_is : chunk
              ≡ min (length all)
                  (min (file_length (laws.sector s) i - offset) (512 - offset % 512)) =
            ap (chunk_size (length all) offset) is
            ∙ chunk_size-min (length all) offset (file_length (laws.sector s) i) (omega arith) in
          let within : leb (file_length (laws.sector s) i) offset ≡ false = ground arith in
          let something : (chunk == 0) ≡ false = ground (arith, chunk_is) in
          let no_more : ltb (length all) chunk ≡ false = ground (arith, chunk_is) in
          rw (something, no_more)
            (Returns-bind _ _ (write_chunk st s2 sector_idx (take chunk all) offset) _
              (write_chunk-Wrote s s2 i sector_idx offset (take chunk all) ok
                (Stays-trans laws s s1 s2 stays1 stays2) (omega arith) (at_block ∙ rw within refl)
                (omega (arith, chunk_is, length-take chunk all)))
              λ s4 first.
                Returns-bind _ _ (write_loop st n true stray s4 i (drop chunk all) (offset + chunk))
                  _
                  (others s4 chunk (Wrote-Sound s s4 i offset (take chunk all) ok first)
                    (omega (
                      arith,
                      length-drop chunk all,
                      chunk_is,
                      Wrote-length s s4 i offset (take chunk all) ok first,
                    ))
                    (ground (arith, length-drop chunk all, something)))
                  λ (cnt, s5) (count, rest). (
                    omega (arith, count, length-drop chunk all, chunk_is),
                    Wrote-append s s4 s5 i offset chunk all ok (omega (arith, chunk_is)) first rest,
                  ))
