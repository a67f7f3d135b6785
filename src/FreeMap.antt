-- ===== src/FreeMap.antt =====
-- pintos/src/filesys/free-map.c: the sectors in use, one bit each.
pub mod Cycle
pub mod Sectors
mod Tests
use spring_os.Prelude.{
  ℕ, Bool, true, false, not, ◌&&◌, Option, none, some, List, ◌==◌, if◌then◌else◌,
}
use spring_os.Prelude.Outcome.{Outcome, done, panic, fault, ◌>>=◌}
use spring_os.Bitmap.{
  Bitmap, bitmap_error, bitmap_create, bitmap_mark, bitmap_scan_and_flip, bitmap_set_multiple,
  bitmap_all,
}

abbrev pub free_map_sector : ℕ
free_map_sector = 0

abbrev pub root_dir_sector : ℕ
root_dir_sector = 1

-- `free_map_init` on a disk of `size` sectors, with the words that `malloc` returns.
unfoldable pub free_map_init : ℕ → Option (List ℕ) → Outcome Bitmap
unfolding bitmap_create bitmap_mark
free_map_init size malloc = do
  created ← bitmap_create size malloc
  elim created [
    | none ↦ panic
    | some b ↦ do b ← bitmap_mark b free_map_sector; bitmap_mark b root_dir_sector
  ]

-- `free_map_allocate`: `opened` says whether `free_map_file` is set, and `written` is what
-- `bitmap_write` to that file returns. The result is what goes to `*sectorp`.
unfoldable pub free_map_allocate : Bool → Bool → Bitmap → ℕ → Outcome (Option ℕ × Bitmap)
unfolding bitmap_scan_and_flip bitmap_set_multiple
free_map_allocate opened written b cnt = do
  (sector, b) ← bitmap_scan_and_flip b 0 cnt false
  if sector == bitmap_error
      then done (none, b)
      else (if opened && not written
          then (do b ← bitmap_set_multiple b sector cnt false; done (none, b))
          else done (some sector, b))

-- `free_map_release`: the sectors are free when `bitmap_write` is called. The call dereferences
-- `free_map_file` whether it is set or not; what it returns is not looked at.
unfoldable pub free_map_release : Bool → Bitmap → ℕ → ℕ → Outcome Bitmap
unfolding bitmap_all bitmap_set_multiple
free_map_release opened b sector cnt = do
  in_use ← bitmap_all b sector cnt
  if in_use
      then (do b ← bitmap_set_multiple b sector cnt false; if opened then done b else fault)
      else panic
