-- ===== src/FreeMap/Cycle.antt =====
-- From `free_map_init` on: the reserved sectors, and a group that is allocated and released.
use spring_os.Prelude.{
  ℕ, ◌+◌, ◌≤◌, ◌<◌, ◌≡◌, Bool, true, false, Option, none, some, arith, ◌==◌, List, ◌||◌,
}
use spring_os.Prelude.Outcome.{
  Outcome, done, blocked, panic, fault, Returns, Returns-bind, Returns-mono, ◌>>=◌,
}
use spring_os.Bitmap.{Bitmap, bitmap_create, bitmap_mark}
use spring_os.Bitmap.Bit.{IsValid, bit_at, bitmap_mark-Changed}
use spring_os.Bitmap.Range.{Filled, bitmap_create-Filled}
use spring_os.Bitmap.Scan.{Run}
use spring_os.FreeMap.{
  free_map_init, free_map_allocate, free_map_release, free_map_sector, root_dir_sector,
}
use spring_os.FreeMap.Sectors.{
  SameBits, Filled-undone, Allocated, got, exhausted, unwritten, Released, freed, refused, no_file,
  free_map_allocate-Allocated, free_map_release-Released,
}

-- The map of a new disk: the free map's and the root directory's sectors are in use, no other is.
pub record Fresh (size : ℕ) (b : Bitmap) : Type 0 where
  pub valid : IsValid b
  pub count : b.bit_cnt ≡ size
  pub bit : (j : ℕ) → j < size → bit_at b j ≡ (j == free_map_sector || j == root_dir_sector)

-- On a disk of at least two sectors and with memory for the bitmap, free_map_init returns a valid
-- map of the size of the disk in which sectors 0 and 1 are in use and every other sector is free.
pub free_map_init-Fresh :
    (size : ℕ) (words : List ℕ)
    → IsValid (record { bit_cnt = size; bits = words })
    → 2 ≤ size
    → Returns (Fresh size) (free_map_init size (some words))
unfolding free_map_init
free_map_init-Fresh size words valid big =
    Returns-bind _ _ (bitmap_create size (some words)) _ (bitmap_create-Filled size words valid)
      λ r (b, is, valid_b, size_b, clear). rw is (
        Returns-bind _ _ (bitmap_mark b free_map_sector) _
          (bitmap_mark-Changed b free_map_sector valid_b (omega arith))
          λ b' first.
            Returns-mono _ _ (bitmap_mark b' root_dir_sector)
              (bitmap_mark-Changed b' root_dir_sector first.valid (omega (arith, first.size)))
              λ b'' second. record {
                valid = second.valid;
                count = omega (arith, first.size, second.size);
                bit = λ j h. ground (arith, second.bit j, first.bit j, clear j h);
              })

-- An allocated group is released again, with the map file open: the group, and the map at the end.
abbrev pub allocate_release : Bool → Bitmap → ℕ → Outcome (Option ℕ × Bitmap)
allocate_release written b cnt = do
  (sector, b') ← free_map_allocate true written b cnt
  elim sector as (λ _. Outcome (Option ℕ × Bitmap)) [
    | none ↦ done (none, b')
    | some s ↦ do b'' ← free_map_release true b' s cnt; done (some s, b'')
  ]

-- The group is the first free one; there is none if no group is free or the file is not written.
pub data Group (written : Bool) (b : Bitmap) (cnt : ℕ) : Option ℕ → Type 0 where
  first_group :
      (sector : ℕ)
      → written ≡ true
      → sector + cnt ≤ b.bit_cnt
      → Run (bit_at b) sector cnt false
      → ((i : ℕ) → i < sector → ¬ Run (bit_at b) i cnt false)
      → Group written b cnt (some sector)
  none_free :
      ((i : ℕ) → i + cnt ≤ b.bit_cnt → ¬ Run (bit_at b) i cnt false) → Group written b cnt none
  not_written : written ≡ false → Group written b cnt none

-- On a valid map whose file is open, free_map_allocate followed by free_map_release of the sectors
-- that it returned, if any, returns and leaves every sector as it was; the sectors in between are
-- the first group of cnt free ones, and there are none only if no group of cnt sectors is free or
-- the file is not written.
pub allocate_release-SameBits :
    (written : Bool) (b : Bitmap) (cnt : ℕ)
    → IsValid b
    → Returns (λ (r, b'). Group written b cnt r × SameBits b b') (allocate_release written b cnt)
allocate_release-SameBits written b cnt valid =
    Returns-bind _ _ (free_map_allocate true written b cnt) _
      (free_map_allocate-Allocated b valid cnt true written)
      λ (o, b') allocated. undo o b' allocated
  where
    Result : Option ℕ × Bitmap → Type 0
    Result (r, b') = Group written b cnt r × SameBits b b'

    released :
        (s : ℕ) (b' : Bitmap) (filled : Filled b s (s + cnt) true b')
        → Run (bit_at b) s cnt false
        → Group written b cnt (some s)
        → (o : Outcome Bitmap) → Released b' filled.valid cnt true s o
        → Returns Result (o >>= λ b''. done (some s, b''))
    released s b' filled run group (done b'') (freed there _ unset) =
        (group, Filled-undone b valid cnt s b' b'' run filled unset)
    released s b' filled run group blocked r = elim r [ ]
    released s b' filled run group panic (refused j lo hi clear) =
        ground (arith, clear, filled.bit j)
    released s b' filled run group fault (no_file missing _) = absurd (cc)

    undo :
        (o : Option ℕ) (b' : Bitmap)
        → Allocated true written b cnt o b'
        → Returns Result (elim o as (λ _. Outcome (Option ℕ × Bitmap)) [
          | none ↦ done (none, b')
          | some s ↦ do b'' ← free_map_release true b' s cnt; done (some s, b'')
        ])
    undo none b' (exhausted none_is same) = (none_free none_is, same)
    undo none b' (unwritten there not_there same) = (not_written not_there, same)
    undo (some s) b' (got _ is_written fits run first filled) =
        released s b' filled run (first_group s (ground (arith, is_written)) fits run first)
          (free_map_release true b' s cnt)
          (free_map_release-Released b' filled.valid cnt true s (omega (arith, filled.size)))
