-- ===== src/Inode/ReadWrite.antt =====
-- `inode_write_at` as a whole, for writes within the file, and `inode_read_at` after it.
use spring_os.Prelude.{
  ℕ, suc, ◌+◌, ◌-◌, ◌≤◌, ◌<◌, ◌≡◌, refl, ap, ap₂, subst, ◌∙◌, true, false, ◌&&◌, List, [], ◌∷◌, ltb,
  leb, ge→ltb, arith, get_or, length,
}
use spring_os.Prelude.Outcome.{Returns, Returns-bind, Returns-mono, ◌>>=◌}
use spring_os.Disk.{Block}
use spring_os.Storage.{Storage, Lawful}
use spring_os.Inode.{Inode, inode_length, inode_read_at}
use spring_os.Inode.Expand.{write_loop, extend_for, inode_write_at}
use spring_os.Inode.Map.{file_length, Stays, inode_length-file_length}
use spring_os.Inode.Read.{Got, inode_read_at-Got}
use spring_os.Inode.Written.{Written}
use spring_os.Inode.Write.{Sound, Wrote, Wrote-Sound, Wrote-length, Stays-Sound, write_loop-Wrote}

get_or-ext :
    (xs ys : List ℕ)
    → length xs ≡ length ys
    → ((k : ℕ) → k < length xs → get_or xs k 0 ≡ get_or ys k 0)
    → xs ≡ ys
get_or-ext [] [] h same = refl
get_or-ext [] (y ∷ ys) h same = absurd (omega arith)
get_or-ext (x ∷ xs) [] h same = absurd (omega arith)
get_or-ext (x ∷ xs) (y ∷ ys) h same =
    ap₂ (λ a l. a ∷ l) (same 0 (omega arith))
      (get_or-ext xs ys (omega arith) (λ k lt. same (suc k) (omega arith)))

module _ {S : Type 0} {st : Storage S} (laws : Lawful st) where
  Wrote-after :
      (s s' s'' : S) (i offset : ℕ) (bytes : List ℕ)
      → Stays laws s s'
      → Wrote laws s' i offset bytes s''
      → Wrote laws s i offset bytes s''
  Wrote-after s s' s'' i offset bytes stays wrote = record {
    ready = wrote.ready;
    written = subst (λ f. Written f i offset bytes (laws.sector s'')) stays.same wrote.written;
    same_use = wrote.same_use ∙ stays.same_use;
  }

  -- A write within the file does not grow it.
  extend_for-Stays :
      (me stray : ℕ) (zeros : Block) (s : S) (inode : Inode) (end_ofs : ℕ)
      → Sound laws s inode.sector
      → end_ofs ≤ file_length (laws.sector s) inode.sector
      → Returns (Stays laws s) (extend_for st me true zeros stray s inode end_ofs)
  unfolding extend_for
  extend_for-Stays me stray zeros s inode end_ofs ok fits =
      Returns-bind _ _ (inode_length st s inode.sector) _
        (inode_length-file_length laws s inode.sector ok.ready ok.tree.root)
        λ (len, s1) (is, stays).
          let inside : ltb len end_ofs ≡ false = ge→ltb _ _ (omega (arith, is)) in rw inside stays

  -- Over any storage that keeps its promises, for a file whose tree is on the disk, with distinct
  -- sectors for its blocks and its tables, and whose writes are not denied: inode_write_at of
  -- bytes within the length of the file returns their number; the file then has these bytes at the
  -- offset and its other bytes as before, no sector but those of its blocks has changed, and no
  -- sector has become used or free.
  pub inode_write_at-Wrote :
      (me stray : ℕ) (zeros : Block) (s : S) (inode : Inode) (buffer : List ℕ) (offset : ℕ)
      → Sound laws s inode.sector
      → inode.deny_write_cnt ≡ 0
      → offset + length buffer ≤ file_length (laws.sector s) inode.sector
      → Returns
          (λ (cnt, s'). (cnt ≡ length buffer) × Wrote laws s inode.sector offset buffer s')
          (inode_write_at st me true zeros stray s inode buffer offset)
  unfolding inode_write_at
  inode_write_at-Wrote me stray zeros s inode buffer offset ok allowed fits = rw allowed (
      Returns-bind _ _ (extend_for st me true zeros stray s inode (offset + length buffer)) _
        (extend_for-Stays me stray zeros s inode (offset + length buffer) ok fits)
        λ s1 stays.
          Returns-mono _ _ (write_loop st (length buffer) true stray s1 inode.sector buffer offset)
            (write_loop-Wrote laws (length buffer) stray s1 inode.sector buffer offset
              (Stays-Sound laws s s1 inode.sector stays ok)
              (omega (arith, ap (λ f. file_length f inode.sector) stays.same)) (omega arith))
            λ (cnt, s2) (count, wrote).
              (count, Wrote-after s s1 s2 inode.sector offset buffer stays wrote))

  Got-written :
      (s s' s'' : S) (i offset : ℕ) (buffer bytes : List ℕ)
      → Sound laws s i
      → offset + length buffer ≤ file_length (laws.sector s) i
      → Wrote laws s i offset buffer s'
      → Got laws s' i (length buffer) offset bytes s''
      → bytes ≡ buffer
  Got-written s s' s'' i offset buffer bytes ok fits wrote got =
      let len : length bytes ≡ length buffer =
        omega (arith, got.amount, Wrote-length laws s s' i offset buffer ok wrote) in
      get_or-ext bytes buffer len λ k h.
        let here : (leb offset (offset + k) && ltb (offset + k) (offset + length buffer)) ≡ true =
          ground (arith, len) in
        let place : offset + k - offset ≡ k = omega arith in
        got.piece k h
        ∙ wrote.written.byte (offset + k) (omega (arith, len))
        ∙ rw here (ap (λ j. get_or buffer j 0) place)

  -- Over any storage that keeps its promises, for a file whose tree is on the disk, with distinct
  -- sectors for its blocks and its tables, and whose writes are not denied: inode_write_at of any
  -- bytes within the length of the file, followed by inode_read_at of the same range, returns
  -- these bytes.
  pub inode_read_at-inode_write_at :
      (me stray : ℕ) (zeros : Block) (s : S) (inode : Inode) (buffer : List ℕ) (offset : ℕ)
      → Sound laws s inode.sector
      → inode.deny_write_cnt ≡ 0
      → offset + length buffer ≤ file_length (laws.sector s) inode.sector
      → Returns
          (λ (bytes, s'). bytes ≡ buffer)
          (do
            (y, t) ← inode_write_at st me true zeros stray s inode buffer offset
            inode_read_at st true stray t inode.sector (length buffer) offset)
  inode_read_at-inode_write_at me stray zeros s inode buffer offset ok allowed fits =
      Returns-bind _ _ (inode_write_at st me true zeros stray s inode buffer offset) _
        (inode_write_at-Wrote me stray zeros s inode buffer offset ok allowed fits)
        λ (cnt, s1) (count, wrote).
          let after = Wrote-Sound laws s s1 inode.sector offset buffer ok wrote in
          Returns-mono _ _ (inode_read_at st true stray s1 inode.sector (length buffer) offset)
            (inode_read_at-Got laws stray s1 inode.sector (length buffer) offset after.ready
              after.tree
              (omega (arith, Wrote-length laws s s1 inode.sector offset buffer ok wrote)))
            λ (bytes, s2) got.
              Got-written s s1 s2 inode.sector offset buffer bytes ok fits wrote got
