-- ===== src/Palloc.antt =====
-- pintos/src/threads/palloc.c: the page allocator, two pools with a bitmap each.
pub mod Cycle
pub mod Pages
mod Tests
use spring_os.Prelude.{
  ℕ, ◌+◌, ◌-◌, ◌*◌, ◌/◌, ◌%◌, ◌^◌, Bool, true, false, not, ◌&&◌, ◌||◌, ltb, leb, ◌==◌,
  if◌then◌else◌,
}
use spring_os.Prelude.Outcome.{Outcome, done, panic, ◌>>=◌}
use spring_os.Bitmap.{
  Bitmap, add_size, bitmap_error, bitmap_scan_and_flip, bitmap_all, bitmap_set_multiple,
}

abbrev pub pgsize : ℕ
pgsize = 4096

abbrev pub pg_no : ℕ → ℕ
pg_no va = va / pgsize

abbrev pub pg_ofs : ℕ → ℕ
pg_ofs va = va % pgsize

-- `PGSIZE * page_cnt`, a `size_t`.
abbrev pub byte_size : ℕ → ℕ
byte_size page_cnt = pgsize * page_cnt % 2 ^ 32

-- `struct pool`; `base` is an address.
pub record Pool : Type 0 where
  pub used_map : Bitmap
  pub base : ℕ

-- The two pools, and the bytes of memory by address.
pub record Memory : Type 0 where
  pub kernel_pool : Pool
  pub user_pool : Pool
  pub bytes : ℕ → ℕ

-- `enum palloc_flags`.
pub record Flags : Type 0 where
  pub pal_assert : Bool
  pub pal_zero : Bool
  pub pal_user : Bool

abbrev pub pool_of : Memory → Bool → Pool
pool_of m user = if user then m.user_pool else m.kernel_pool

abbrev pub set_map : Memory → Bool → Bitmap → Memory
set_map m true b = record m { user_pool = record (m.user_pool) { used_map = b } }
set_map m false b = record m { kernel_pool = record (m.kernel_pool) { used_map = b } }

abbrev pub memset : (ℕ → ℕ) → ℕ → ℕ → ℕ → ℕ → ℕ
memset bytes va value size a = if leb va a && ltb a (va + size) then value else bytes a

-- The address of a page of a pool, or `NULL`, which is 0.
abbrev pub page_address : Pool → ℕ → ℕ
page_address p page_idx =
    if page_idx == bitmap_error then 0 else (p.base + pgsize * page_idx) % 2 ^ 32

-- What `palloc_get_multiple` does with the pages that it has, or has not, found.
abbrev pub hand_out : Flags → ℕ → ℕ → Memory → Outcome (ℕ × Memory)
hand_out flags page_cnt pages m =
    if pages == 0
    then (if flags.pal_assert then panic else done (0, m))
    else done (
      pages,
      (if flags.pal_zero
          then record m { bytes = memset m.bytes pages 0 (byte_size page_cnt) }
          else m),
    )

unfoldable pub palloc_get_multiple : Flags → ℕ → Memory → Outcome (ℕ × Memory)
unfolding bitmap_scan_and_flip
palloc_get_multiple flags page_cnt m =
    if page_cnt == 0
    then done (0, m)
    else (bitmap_scan_and_flip (pool_of m flags.pal_user).used_map 0 page_cnt false
        >>= λ (page_idx, b).
            hand_out flags page_cnt (page_address (pool_of m flags.pal_user) page_idx)
              (set_map m flags.pal_user b))

unfoldable pub palloc_get_page : Flags → Memory → Outcome (ℕ × Memory)
unfolding palloc_get_multiple
palloc_get_page flags m = palloc_get_multiple flags 1 m

abbrev pub page_from_pool : Pool → ℕ → Bool
page_from_pool p page =
    leb (pg_no p.base) (pg_no page) && ltb (pg_no page) (add_size (pg_no p.base) p.used_map.bit_cnt)

-- The pages are filled with 0xcc, and marked as free in their pool.
unfoldable pub free_in : Memory → Bool → ℕ → ℕ → Outcome Memory
unfolding bitmap_all bitmap_set_multiple
free_in m user pages page_cnt =
    let page_idx = pg_no pages - pg_no (pool_of m user).base in
    do
      in_use ← bitmap_all (pool_of m user).used_map page_idx page_cnt
      b ←
          (if in_use
            then bitmap_set_multiple (pool_of m user).used_map page_idx page_cnt false
            else panic)
      done (set_map (record m { bytes = memset m.bytes pages 204 (byte_size page_cnt) }) user b)

unfoldable pub palloc_free_multiple : Memory → ℕ → ℕ → Outcome Memory
unfolding free_in
palloc_free_multiple m pages page_cnt =
    if pg_ofs pages == 0
    then (if pages == 0 || page_cnt == 0
        then done m
        else (if page_from_pool m.kernel_pool pages
            then free_in m false pages page_cnt
            else (if page_from_pool m.user_pool pages
                then free_in m true pages page_cnt
                else panic)))
    else panic

unfoldable pub palloc_free_page : Memory → ℕ → Outcome Memory
unfolding palloc_free_multiple
palloc_free_page m page = palloc_free_multiple m page 1
