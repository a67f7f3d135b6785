-- ===== src/FreeMap/Sectors.antt =====
-- Allocation takes free sectors, release gives them back, and the reserved sectors stay.
use spring_os.Prelude.{
  ℕ, ◌+◌, ◌≤◌, ◌<◌, ◌≡◌, ◌≢◌, refl, sym, ap, subst, ◌∙◌, Bool, true, false, not, ◌&&◌, Option, none,
  some, arith, ◌==◌, if◌then◌else◌, Bool-cases, inl, inr, ne→==,
}
use spring_os.Prelude.Outcome.{Outcome, done, blocked, panic, fault, Returns, Returns-bind, ◌>>=◌}
use spring_os.Bitmap.{Bitmap, bitmap_error, bitmap_scan_and_flip, bitmap_set_multiple, bitmap_all}
use spring_os.Bitmap.Bit.{IsValid, bit_at}
use spring_os.Bitmap.Range.{
  Filled, Search, hit, miss, bitmap_set_multiple-Filled, bitmap_all-Search,
}
use spring_os.Bitmap.Scan.{Run, Scan, found, nothing, Taken, bitmap_scan_and_flip-Taken}
use spring_os.FreeMap.{free_map_allocate, free_map_release}

-- The same sectors are in use.
pub record SameBits (b b' : Bitmap) : Type 0 where
  pub valid : IsValid b'
  pub size : b'.bit_cnt ≡ b.bit_cnt
  pub bit : (j : ℕ) → bit_at b' j ≡ bit_at b j

-- The outcomes of `free_map_allocate`: the first free group of sectors, now in use, or a failure that
-- leaves every sector as it was, because no group is free or because the open map file is not written.
pub data Allocated (opened written : Bool) (b : Bitmap) (cnt : ℕ) : Option ℕ → Bitmap → Type 0 where
  got :
      (sector : ℕ) {b' : Bitmap}
      → (opened && not written) ≡ false
      → sector + cnt ≤ b.bit_cnt
      → Run (bit_at b) sector cnt false
      → ((i : ℕ) → i < sector → ¬ Run (bit_at b) i cnt false)
      → Filled b sector (sector + cnt) true b'
      → Allocated opened written b cnt (some sector) b'
  exhausted :
      {b' : Bitmap}
      → ((i : ℕ) → i + cnt ≤ b.bit_cnt → ¬ Run (bit_at b) i cnt false)
      → SameBits b b'
      → Allocated opened written b cnt none b'
  unwritten :
      {b' : Bitmap}
      → opened ≡ true
      → written ≡ false
      → SameBits b b'
      → Allocated opened written b cnt none b'

module _ (b : Bitmap) (valid : IsValid b) (cnt : ℕ) where
  -- Setting a free group and clearing it again changes no bit.
  pub Filled-undone :
      (sector : ℕ) (b' b'' : Bitmap)
      → Run (bit_at b) sector cnt false
      → Filled b sector (sector + cnt) true b'
      → Filled b' sector (sector + cnt) false b''
      → SameBits b b''
  Filled-undone sector b' b'' run set unset = record {
    valid = unset.valid;
    size = unset.size ∙ set.size;
    bit = λ j. ground (arith, unset.bit j, set.bit j, run j);
  }

  -- On a valid map, free_map_allocate returns the first group of cnt free sectors and marks these
  -- sectors and no other as used, unless the map file is open and cannot be written; or it fails
  -- because no group of cnt sectors is free, or because the map file is open and cannot be
  -- written, and then every sector is as before.
  pub free_map_allocate-Allocated :
      (opened written : Bool)
      → Returns
          (λ (r, b'). Allocated opened written b cnt r b')
          (free_map_allocate opened written b cnt)
  unfolding free_map_allocate
  free_map_allocate-Allocated opened written =
      Returns-bind _ _ (bitmap_scan_and_flip b 0 cnt false) _
        (bitmap_scan_and_flip-Taken b cnt false valid 0 (omega arith))
        λ (r, b') taken. decide r b' taken taken.scan
    where
      Result : Option ℕ × Bitmap → Type 0
      Result (o, b') = Allocated opened written b cnt o b'

      unwritten_is : (opened && not written) ≡ true → (opened ≡ true) × (written ≡ false)
      unwritten_is h = ground arith

      write_back :
          (r : ℕ) (b' : Bitmap) (fails : Bool)
          → (opened && not written) ≡ fails
          → r + cnt ≤ b.bit_cnt
          → Run (bit_at b) r cnt false
          → ((i : ℕ) → i < r → ¬ Run (bit_at b) i cnt false)
          → Filled b r (r + cnt) true b'
          → Returns Result (
              if fails
              then (bitmap_set_multiple b' r cnt false >>= λ b''. done (none, b''))
              else done (some r, b'))
      write_back r b' false e fits run first filled = got r e fits run first filled
      write_back r b' true e fits run first filled =
          Returns-bind _ _ (bitmap_set_multiple b' r cnt false) _
            (bitmap_set_multiple-Filled b' r cnt filled.valid (omega (arith, filled.size)) false)
            λ b'' unset.
              unwritten (unwritten_is e).0 (unwritten_is e).1
                (Filled-undone r b' b'' run filled unset)

      decide :
          (r : ℕ) (b' : Bitmap)
          → Taken b cnt false valid 0 r b'
          → Scan (bit_at b) 0 b.bit_cnt cnt false r
          → Returns Result (
              if r == bitmap_error
              then done (none, b')
              else (if opened && not written
                  then (bitmap_set_multiple b' r cnt false >>= λ b''. done (none, b''))
                  else done (some r, b')))
      decide r b' taken (nothing is none_is) =
          rw (is, taken.kept is)
            (exhausted (λ i fits. none_is i (omega arith) fits)
              (record { valid = valid; size = refl; bit = λ j. refl }))
      decide r b' taken (found lo fits run first) =
          let ok : r ≢ bitmap_error = omega (arith, valid.small) in
          rw (ne→== r bitmap_error ok) (
            write_back r b' (opened && not written) refl fits run (λ i lt. first i (omega arith) lt)
              (taken.flipped ok))

  -- A group in use is released; a group with a free sector in it is refused; and without the map
  -- file its null pointer is used.
  pub data Released (opened : Bool) (sector : ℕ) : Outcome Bitmap → Type 0 where
    freed :
        {b' : Bitmap}
        → opened ≡ true
        → Run (bit_at b) sector cnt true
        → Filled b sector (sector + cnt) false b'
        → Released opened sector (done b')
    no_file : opened ≡ false → Run (bit_at b) sector cnt true → Released opened sector fault
    refused :
        (j : ℕ) → sector ≤ j → j < sector + cnt → bit_at b j ≡ false → Released opened sector panic

  -- On a valid map, for sectors within the disk, free_map_release panics if some of the given
  -- sectors is free; if all of them are in use, it frees exactly these when the map file is open,
  -- and uses its null pointer when it is not.
  pub free_map_release-Released :
      (opened : Bool) (sector : ℕ)
      → sector + cnt ≤ b.bit_cnt
      → Released opened sector (free_map_release opened b sector cnt)
  unfolding free_map_release
  free_map_release-Released opened sector fits =
      go (bitmap_all b sector cnt) (bitmap_all-Search b sector cnt valid fits)
    where
      write : Bitmap → Outcome Bitmap
      write b' = if opened then done b' else fault

      written :
          (b' : Bitmap)
          → Run (bit_at b) sector cnt true
          → Filled b sector (sector + cnt) false b'
          → Released opened sector (write b')
      written b' run filled = elim (Bool-cases opened) [
        | inl there ↦
            subst (Released opened sector) (sym (ap (λ o. if o then done b' else fault) there))
              (freed there run filled)
        | inr missing ↦
            subst (Released opened sector) (sym (ap (λ o. if o then done b' else fault) missing))
              (no_file missing run)
      ]

      unset :
          (o : Outcome Bitmap)
          → Run (bit_at b) sector cnt true
          → Returns (Filled b sector (sector + cnt) false) o
          → Released opened sector (o >>= write)
      unset (done b') run filled = written b' run filled
      unset blocked run filled = elim filled [ ]
      unset panic run filled = elim filled [ ]
      unset fault run filled = elim filled [ ]

      decide :
          (r : Bool)
          → Search (bit_at b) sector cnt false (not r)
          → Released opened sector
              (if r then (bitmap_set_multiple b sector cnt false >>= write) else panic)
      decide true (miss run) =
          unset (bitmap_set_multiple b sector cnt false) run
            (bitmap_set_multiple-Filled b sector cnt valid fits false)
      decide false (hit j lo hi is) = refused j lo hi is

      go :
          (o : Outcome Bool)
          → Returns (λ r. Search (bit_at b) sector cnt false (not r)) o
          → Released opened sector (
              o >>= λ in_use.
              if in_use then (bitmap_set_multiple b sector cnt false >>= write) else panic)
      go (done r) result = decide r result
      go blocked result = elim result [ ]
      go panic result = elim result [ ]
      go fault result = elim result [ ]
