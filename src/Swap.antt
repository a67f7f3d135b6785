-- ===== src/Swap.antt =====
-- pintos/src/vm/swap.c: page slots on the swap disk, one bit each. Each function runs under
-- `swap_lock`, so its calls are taken one after the other.
pub mod RoundTrip
pub mod Slots
mod Tests
use spring_os.Prelude.{
  ℕ, zero, suc, ◌+◌, ◌*◌, ◌/◌, ◌%◌, ◌^◌, Bool, true, false, Option, none, some, List, [], ◌∷◌, ◌==◌,
  if◌then◌else◌,
}
use spring_os.Prelude.Outcome.{Outcome, done, panic, ◌>>=◌}
use spring_os.Disk.{Block, Disk, sector_size, disk_read, disk_write}
use spring_os.Bitmap.{
  Bitmap, bitmap_error, bitmap_create, bitmap_test, bitmap_set, bitmap_scan_and_flip,
}

abbrev pub page_size : ℕ
page_size = 4096

-- A page of memory, sector by sector.
abbrev pub Page : Type 0
Page = List Block

-- `PGSIZE / DISK_SECTOR_SIZE`.
abbrev pub sectors_per_page : ℕ
sectors_per_page = 8

pub record Swap : Type 0 where
  pub swap_table : Bitmap
  pub swap_disk : Disk

-- The number of slots that `swap_init` asks for: the products are `size_t`.
abbrev pub slot_cnt : ℕ → ℕ
slot_cnt capacity = capacity * sector_size % 2 ^ 32 / page_size

-- A failed `bitmap_create` leaves a null table: no swap.
unfoldable pub swap_init : Disk → Option (List ℕ) → Outcome (Option Swap)
unfolding bitmap_create
swap_init d malloc = do
  created ← bitmap_create (slot_cnt d.capacity) malloc
  elim created [
    | none ↦ done none
    | some b ↦ done (some (record { swap_table = b; swap_disk = d }))
  ]

-- The first sector of a slot.
abbrev pub first_sector : ℕ → ℕ
first_sector swap_idx = swap_idx * page_size % 2 ^ 32 / sector_size

unfoldable pub swap_set : Swap → ℕ → Bool → Outcome Swap
unfolding bitmap_test bitmap_set
swap_set s swap_idx value = do
  used ← bitmap_test s.swap_table swap_idx
  elim used [
    | true ↦ do b ← bitmap_set s.swap_table swap_idx value; done (record s { swap_table = b })
    | false ↦ panic
  ]

-- The loop of `swap_out` over the sectors of the page.
unfoldable pub write_page : Disk → ℕ → Page → Outcome Disk
unfolding disk_write
write_page d sector [] = done d
write_page d sector (b ∷ bs) = do d ← disk_write d sector b; write_page d (sector + 1) bs

unfoldable pub swap_out : Swap → Page → Outcome (ℕ × Swap)
unfolding bitmap_scan_and_flip write_page
swap_out s kpage = do
  (swap_idx, b) ← bitmap_scan_and_flip s.swap_table 0 1 false
  if swap_idx == bitmap_error then panic else do
    d ← write_page s.swap_disk (first_sector swap_idx) kpage
    done (swap_idx, record { swap_table = b; swap_disk = d })

-- The loop of `swap_in`, with `n` sectors to go.
unfoldable pub read_page : Disk → ℕ → ℕ → Outcome Page
unfolding disk_read
read_page d sector zero = done []
read_page d sector (suc n) = do
  b ← disk_read d sector
  bs ← read_page d (sector + 1) n
  done (b ∷ bs)

unfoldable pub swap_in : Swap → ℕ → Outcome (Page × Swap)
unfolding bitmap_set read_page
swap_in s swap_idx = do
  b ← bitmap_set s.swap_table swap_idx false
  kpage ← read_page s.swap_disk (first_sector swap_idx) sectors_per_page
  done (kpage, record s { swap_table = b })
