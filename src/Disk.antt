-- ===== src/Disk.antt =====
-- pintos/src/devices/disk.c as the file system sees it: sectors of 512 bytes. The ATA commands of
-- the controller are hardware; what is kept of a transfer is the range check of `select_sector`
-- and the sector that moves.
use spring_os.Prelude.{ℕ, ◌^◌, Bool, ◌&&◌, List, ltb, ◌==◌, if◌then◌else◌}
use spring_os.Prelude.Outcome.{Outcome, done, panic}

abbrev pub Block : Type 0
Block = List ℕ

abbrev pub sector_size : ℕ
sector_size = 512

-- `struct disk`: `capacity` sectors, and what each holds.
pub record Disk : Type 0 where
  pub capacity : ℕ
  pub content : ℕ → Block

-- The two assertions of `select_sector`.
abbrev pub in_range : Disk → ℕ → Bool
in_range d sec_no = ltb sec_no d.capacity && ltb sec_no (2 ^ 28)

abbrev pub update {ℓ} : {A : Type ℓ} → (ℕ → A) → ℕ → A → ℕ → A
update f k v j = if k == j then v else f j

unfoldable pub disk_read : Disk → ℕ → Outcome Block
disk_read d sec_no = if in_range d sec_no then done (d.content sec_no) else panic

unfoldable pub disk_write : Disk → ℕ → Block → Outcome Disk
disk_write d sec_no buffer =
    if in_range d sec_no
    then done (record d { content = update d.content sec_no buffer })
    else panic
