-- ===== src/Swap/Slots.antt =====
-- A page that is swapped out comes back as it was.
use spring_os.Prelude.{
  ℕ, zero, suc, ◌+◌, ◌*◌, ◌^◌, ◌≤◌, ◌<◌, ◌≡◌, ◌≢◌, refl, sym, ap, ap₂, ◌∙◌, true, false, [], ◌∷◌,
  arith, length, ◌==◌, ltb, if◌then◌else◌, Bool-cases, inl, inr, ne→==, ltb→lt, ltb→ge,
}
use spring_os.Prelude.Outcome.{
  Outcome, done, blocked, panic, fault, Returns, Returns-bind, Returns-mono, ◌>>=◌,
}
use spring_os.Disk.{Disk, in_range, update}
use spring_os.Bitmap.{Bitmap, bitmap_error, bitmap_set, bitmap_scan_and_flip}
use spring_os.Bitmap.Bit.{IsValid, bit_at, Changed, bitmap_set-Changed}
use spring_os.Bitmap.Range.{Filled}
use spring_os.Bitmap.Scan.{Run, Scan, found, nothing, Taken, bitmap_scan_and_flip-Taken}
use spring_os.Swap.{
  Page, Swap, slot_cnt, sectors_per_page, first_sector, write_page, swap_out, read_page, swap_in,
}

-- Every slot lies on the disk, as `swap_init` computes their number.
pub record InPlace (s : Swap) : Type 0 where
  pub table : IsValid s.swap_table
  pub slots : s.swap_table.bit_cnt ≡ slot_cnt s.swap_disk.capacity
  pub small : s.swap_disk.capacity ≤ 2 ^ 28

-- The `n` sectors from `sector` on.
pub sectors_at : Disk → ℕ → ℕ → Page
sectors_at d sector zero = []
sectors_at d sector (suc n) = d.content sector ∷ sectors_at d (sector + 1) n

-- The page in a slot.
abbrev pub slot : Swap → ℕ → Page
slot s i = sectors_at s.swap_disk (first_sector i) sectors_per_page

read_page-sectors_at :
    (d : Disk) (sector n : ℕ)
    → sector + n ≤ d.capacity
    → d.capacity ≤ 2 ^ 28
    → read_page d sector n ≡ done (sectors_at d sector n)
unfolding read_page sectors_at
read_page-sectors_at d sector zero h small = refl
read_page-sectors_at d sector (suc n) h small =
    let there : in_range d sector ≡ true = ground arith in
    rw (there, read_page-sectors_at d (sector + 1) n (omega arith) small)

-- The disk after a page has been written at `sector`.
record Paged (d : Disk) (sector : ℕ) (page : Page) (d' : Disk) : Type 0 where
  size : d'.capacity ≡ d.capacity
  page_there : sectors_at d' sector (length page) ≡ page
  before : (t : ℕ) → t < sector → d'.content t ≡ d.content t
  after : (t : ℕ) → sector + length page ≤ t → d'.content t ≡ d.content t

write_page-Paged :
    (d : Disk) (sector : ℕ) (page : Page)
    → sector + length page ≤ d.capacity
    → d.capacity ≤ 2 ^ 28
    → Returns (Paged d sector page) (write_page d sector page)
unfolding write_page sectors_at
write_page-Paged d sector [] h small = record {
  size = refl;
  page_there = refl;
  before = λ t lt. refl;
  after = λ t le. refl;
}
write_page-Paged d sector (b ∷ page) h small =
    let there : in_range d sector ≡ true = ground arith in
    let d' : Disk = record d { content = update d.content sector b } in
    rw there (
      Returns-mono _ _ (write_page d' (sector + 1) page)
        (write_page-Paged d' (sector + 1) page (omega arith) small)
        λ d'' rest. record {
          size = rest.size;
          page_there = ap₂ ◌∷◌ (ground (arith, rest.before sector)) rest.page_there;
          before = λ t lt. ground (arith, rest.before t);
          after = λ t le. ground (arith, rest.after t);
        })

sectors_at-same :
    (d d' : Disk) (sector n : ℕ)
    → ((t : ℕ) → sector ≤ t → t < sector + n → d'.content t ≡ d.content t)
    → sectors_at d' sector n ≡ sectors_at d sector n
unfolding sectors_at
sectors_at-same d d' sector zero same = refl
sectors_at-same d d' sector (suc n) same =
    ap₂ ◌∷◌ (same sector (omega arith) (omega arith))
      (sectors_at-same d d' (sector + 1) n λ t lo hi. same t (omega arith) (omega arith))

module _ (s : Swap) (place : InPlace s) where
  slot-fits : (i : ℕ) → i < s.swap_table.bit_cnt → first_sector i ≡ i * 8
  slot-fits i h = omega (arith, place.slots)

  slot-on_disk : (i : ℕ) → i < s.swap_table.bit_cnt → i * 8 + 8 ≤ s.swap_disk.capacity
  slot-on_disk i h = omega (arith, place.slots, place.small)

  -- With a table and a disk as swap_init lays them out, swap_in of a slot of the table returns the
  -- page in that slot, leaves the disk as it was, and marks that slot, and no other, as free.
  pub swap_in-slot :
      (i : ℕ)
      → i < s.swap_table.bit_cnt
      → Returns
          (λ (page, s').
            (page ≡ slot s i)
            × (s'.swap_disk ≡ s.swap_disk)
            × Changed s.swap_table i false s'.swap_table)
          (swap_in s i)
  unfolding swap_in
  swap_in-slot i h =
      Returns-bind _ _ (bitmap_set s.swap_table i false) _
        (bitmap_set-Changed s.swap_table i place.table h false)
        λ b changed.
          rw
            (read_page-sectors_at s.swap_disk (first_sector i) sectors_per_page
              (omega (arith, slot-fits i h, slot-on_disk i h)) place.small)
            (refl, refl, changed)

  -- The two outcomes of `swap_out`: the first free slot holds the page and every other slot what it
  -- held; or no slot is free.
  pub data SwappedOut (page : Page) : Outcome (ℕ × Swap) → Type 0 where
    out :
        {i : ℕ} {s' : Swap}
        → i < s.swap_table.bit_cnt
        → bit_at s.swap_table i ≡ false
        → ((j : ℕ) → j < i → bit_at s.swap_table j ≡ true)
        → slot s' i ≡ page
        → ((j : ℕ) → j < s.swap_table.bit_cnt → j ≢ i → slot s' j ≡ slot s j)
        → Filled s.swap_table i (i + 1) true s'.swap_table
        → InPlace s'
        → SwappedOut page (done (i, s'))
    full :
        ((j : ℕ) → j < s.swap_table.bit_cnt → bit_at s.swap_table j ≡ true) → SwappedOut page panic

  in_use : (j : ℕ) → ¬ Run (bit_at s.swap_table) j 1 false → bit_at s.swap_table j ≡ true
  in_use j none_free = elim (Bool-cases (bit_at s.swap_table j)) [
    | inl used ↦ used
    | inr free ↦ absurd (none_free λ k lo hi. ap (bit_at s.swap_table) (omega arith) ∙ free)
  ]

  paged :
      (i : ℕ) (page : Page) (d : Disk) (b : Bitmap)
      → i < s.swap_table.bit_cnt
      → length page ≡ 8
      → bit_at s.swap_table i ≡ false
      → ((j : ℕ) → j < i → bit_at s.swap_table j ≡ true)
      → Filled s.swap_table i (i + 1) true b
      → Paged s.swap_disk (first_sector i) page d
      → SwappedOut page (done (i, record { swap_table = b; swap_disk = d }))
  paged i page d b h len free first filled written =
      out h free first (ap (sectors_at d (first_sector i)) (sym len) ∙ written.page_there)
        (λ j hj ne. sectors_at-same s.swap_disk d (first_sector j) sectors_per_page λ t lo hi.
          elim (Bool-cases (ltb t (first_sector i))) [
            | inl lt ↦ written.before t (ltb→lt t (first_sector i) lt)
            | inr ge ↦
                written.after t
                  (omega (arith, ltb→ge t (first_sector i) ge, slot-fits i h, slot-fits j hj))
          ])
        filled
        (record {
          table = filled.valid;
          slots = filled.size ∙ place.slots ∙ ap slot_cnt (sym written.size);
          small = omega (arith, written.size, place.small);
        })

  -- With a table and a disk as swap_init lays them out, swap_out of a page of eight sectors puts
  -- it into the first free slot, marks that slot alone as used and leaves the page in every other
  -- slot as it was, or it panics because every slot is in use.
  pub swap_out-SwappedOut : (page : Page) → length page ≡ 8 → SwappedOut page (swap_out s page)
  unfolding swap_out
  swap_out-SwappedOut page len =
      go (bitmap_scan_and_flip s.swap_table 0 1 false)
        (bitmap_scan_and_flip-Taken s.swap_table 1 false place.table 0 (omega arith))
    where
      store : Bitmap → ℕ → Outcome (ℕ × Swap)
      store b i = write_page s.swap_disk (first_sector i) page >>= λ d.
          done (i, record { swap_table = b; swap_disk = d })

      written :
          (i : ℕ) (b : Bitmap) (o : Outcome Disk)
          → i < s.swap_table.bit_cnt
          → bit_at s.swap_table i ≡ false
          → ((j : ℕ) → j < i → bit_at s.swap_table j ≡ true)
          → Filled s.swap_table i (i + 1) true b
          → Returns (Paged s.swap_disk (first_sector i) page) o
          → SwappedOut page (o >>= λ d. done (i, record { swap_table = b; swap_disk = d }))
      written i b (done d) h free first filled p = paged i page d b h len free first filled p
      written i b blocked h free first filled p = elim p [ ]
      written i b panic h free first filled p = elim p [ ]
      written i b fault h free first filled p = elim p [ ]

      decide :
          (i : ℕ) (b : Bitmap)
          → Taken s.swap_table 1 false place.table 0 i b
          → Scan (bit_at s.swap_table) 0 s.swap_table.bit_cnt 1 false i
          → SwappedOut page (if i == bitmap_error then panic else store b i)
      decide i b taken (nothing is none_is) =
          rw is (full λ j h. in_use j (none_is j (omega arith) (omega arith)))
      decide i b taken (found lo fits run first) =
          let ok : i ≢ bitmap_error = omega (arith, place.table.small) in
          rw (ne→== i bitmap_error ok) (
            written i b (write_page s.swap_disk (first_sector i) page) (omega arith)
              (run i (omega arith) (omega arith)) (λ j lt. in_use j (first j (omega arith) lt))
              (taken.flipped ok)
              (write_page-Paged s.swap_disk (first_sector i) page
                (omega (arith, slot-fits i (omega arith), slot-on_disk i (omega arith)))
                place.small))

      go :
          (o : Outcome (ℕ × Bitmap))
          → Returns (λ (i, b). Taken s.swap_table 1 false place.table 0 i b) o
          → SwappedOut page (o >>= λ (i, b). if i == bitmap_error then panic else store b i)
      go (done (i, b)) taken = decide i b taken taken.scan
      go blocked taken = elim taken [ ]
      go panic taken = elim taken [ ]
      go fault taken = elim taken [ ]
