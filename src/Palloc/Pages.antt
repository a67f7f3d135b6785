-- ===== src/Palloc/Pages.antt =====
-- Pages are taken from the pool that is asked for, and given back to it.
use spring_os.Prelude.{
  ℕ, ◌+◌, ◌*◌, ◌^◌, ◌≤◌, ◌<◌, ◌≡◌, refl, sym, ap, subst, ◌∙◌, Bool, true, false, not, arith, ◌==◌,
  if◌then◌else◌, Bool-cases, inl, inr, ==→eq, ne→==,
}
use spring_os.Prelude.Outcome.{Outcome, done, blocked, panic, fault, Returns, ◌>>=◌}
use spring_os.Bitmap.{Bitmap, bitmap_error, bitmap_scan_and_flip}
use spring_os.Bitmap.Bit.{IsValid, bit_at}
use spring_os.Bitmap.Range.{Filled}
use spring_os.Bitmap.Scan.{Run, Scan, found, nothing, Taken, bitmap_scan_and_flip-Taken}
use spring_os.Palloc.{
  Pool, Memory, Flags, pgsize, pool_of, set_map, memset, byte_size, page_address, hand_out,
  palloc_get_multiple,
}

-- A pool of pages from page `start` on, none of them at address 0 or beyond 4 GB.
pub record PoolAt (start : ℕ) (p : Pool) : Type 0 where
  pub valid : IsValid p.used_map
  pub aligned : p.base ≡ pgsize * start
  pub above : 1 ≤ start
  pub fits : pgsize * (start + p.used_map.bit_cnt) ≤ 2 ^ 32

-- The pages that `palloc_get_multiple` returns, from page `r` of the pool on.
pub record Obtained (flags : Flags) (page_cnt start : ℕ) (m m' : Memory) (pages r : ℕ)
    : Type 0 where
  pub address : pages ≡ pgsize * (start + r)
  pub inside : r + page_cnt ≤ (pool_of m flags.pal_user).used_map.bit_cnt
  pub free : Run (bit_at (pool_of m flags.pal_user).used_map) r page_cnt false
  pub first : (i : ℕ) → i < r → ¬ Run (bit_at (pool_of m flags.pal_user).used_map) i page_cnt false
  pub marked :
      Filled
        (pool_of m flags.pal_user).used_map
        r
        (r + page_cnt)
        true
        (pool_of m' flags.pal_user).used_map
  pub base_same : (pool_of m' flags.pal_user).base ≡ (pool_of m flags.pal_user).base
  pub other_pool : pool_of m' (not flags.pal_user) ≡ pool_of m (not flags.pal_user)
  pub zeroed :
      (a : ℕ)
      → m'.bytes a
        ≡ (if flags.pal_zero then memset m.bytes pages 0 (pgsize * page_cnt) a else m.bytes a)

-- The pages are handed out, or there is no such group (or nothing was asked for).
pub data Got (flags : Flags) (page_cnt start : ℕ) (m : Memory) : Outcome (ℕ × Memory) → Type 0 where
  handed :
      {m' : Memory} {pages : ℕ} (r : ℕ)
      → 1 ≤ page_cnt
      → Obtained flags page_cnt start m m' pages r
      → Got flags page_cnt start m (done (pages, m'))
  zero_pages : page_cnt ≡ 0 → Got flags page_cnt start m (done (0, m))
  exhausted :
      flags.pal_assert ≡ false
      → ((i : ℕ)
          → i + page_cnt ≤ (pool_of m flags.pal_user).used_map.bit_cnt
          → ¬ Run (bit_at (pool_of m flags.pal_user).used_map) i page_cnt false)
      → Got flags page_cnt start m (done (0, m))
  asserted :
      flags.pal_assert ≡ true
      → ((i : ℕ)
          → i + page_cnt ≤ (pool_of m flags.pal_user).used_map.bit_cnt
          → ¬ Run (bit_at (pool_of m flags.pal_user).used_map) i page_cnt false)
      → Got flags page_cnt start m panic

pub set_map-used_map :
    (m : Memory) (u : Bool) (b : Bitmap) → (pool_of (set_map m u b) u).used_map ≡ b
set_map-used_map m true b = refl
set_map-used_map m false b = refl

set_map-base :
    (m : Memory) (u : Bool) (b : Bitmap) → (pool_of (set_map m u b) u).base ≡ (pool_of m u).base
set_map-base m true b = refl
set_map-base m false b = refl

pub set_map-other :
    (m : Memory) (u : Bool) (b : Bitmap) → pool_of (set_map m u b) (not u) ≡ pool_of m (not u)
set_map-other m true b = refl
set_map-other m false b = refl

set_map-bytes : (m : Memory) (u : Bool) (b : Bitmap) → (set_map m u b).bytes ≡ m.bytes
set_map-bytes m true b = refl
set_map-bytes m false b = refl

set_map-same : (m : Memory) (u : Bool) → set_map m u (pool_of m u).used_map ≡ m
set_map-same m true = refl
set_map-same m false = refl

page_address-found :
    (p : Pool) (start r cnt : ℕ)
    → PoolAt start p
    → 1 ≤ cnt
    → r + cnt ≤ p.used_map.bit_cnt
    → page_address p r ≡ pgsize * (start + r)
page_address-found p start r cnt pool some_pages fits =
    rw (ne→== r bitmap_error (omega (arith, pool.valid.small)))
      (omega (arith, pool.aligned, pool.fits))

module _ (flags : Flags) (page_cnt start : ℕ) (m : Memory)
    (pool : PoolAt start (pool_of m flags.pal_user)) where
  abbrev map : Bitmap
  map = (pool_of m flags.pal_user).used_map

  handed_out :
      (r : ℕ) (b : Bitmap)
      → 1 ≤ page_cnt
      → r + page_cnt ≤ map.bit_cnt
      → Run (bit_at map) r page_cnt false
      → ((i : ℕ) → i < r → ¬ Run (bit_at map) i page_cnt false)
      → Filled map r (r + page_cnt) true b
      → Got flags page_cnt start m (
          hand_out flags page_cnt
            (page_address (pool_of m flags.pal_user) r)
            (set_map m flags.pal_user b))
  handed_out r b some_pages fits run first filled =
      subst
        (λ a. Got flags page_cnt start m (hand_out flags page_cnt a (set_map m flags.pal_user b)))
        (sym (page_address-found (pool_of m flags.pal_user) start r page_cnt pool some_pages fits))
        (subst Handed (sym (ne→== (pgsize * (start + r)) 0 (omega (arith, pool.above))))
          (handed r some_pages (obtained flags.pal_zero refl)))
    where
      marked_memory : Memory
      marked_memory = set_map m flags.pal_user b

      no_wrap : byte_size page_cnt ≡ pgsize * page_cnt
      no_wrap = omega (arith, pool.above, pool.fits)

      zeroed_if : Bool → Memory
      zeroed_if z =
          if z
          then record marked_memory {
            bytes = memset marked_memory.bytes (pgsize * (start + r)) 0 (byte_size page_cnt);
          }
          else marked_memory

      Handed : Bool → Type 0
      Handed null = Got flags page_cnt start m (
          if null
          then (if flags.pal_assert then panic else done (0, marked_memory))
          else done (pgsize * (start + r), zeroed_if flags.pal_zero))

      obtained :
          (z : Bool)
          → flags.pal_zero ≡ z
          → Obtained flags page_cnt start m (zeroed_if z) (pgsize * (start + r)) r
      obtained true e = record {
        address = refl;
        inside = fits;
        free = run;
        first = first;
        marked =
            subst (Filled map r (r + page_cnt) true) (sym (set_map-used_map m flags.pal_user b))
              filled;
        base_same = set_map-base m flags.pal_user b;
        other_pool = set_map-other m flags.pal_user b;
        zeroed = λ a.
            ap (λ f. memset f (pgsize * (start + r)) 0 (byte_size page_cnt) a)
              (set_map-bytes m flags.pal_user b)
            ∙ ap (λ n. memset m.bytes (pgsize * (start + r)) 0 n a) no_wrap
            ∙ sym (
                ap
                  (λ z.
                    if z
                    then memset m.bytes (pgsize * (start + r)) 0 (pgsize * page_cnt) a
                    else m.bytes a)
                  e);
      }
      obtained false e = record {
        address = refl;
        inside = fits;
        free = run;
        first = first;
        marked =
            subst (Filled map r (r + page_cnt) true) (sym (set_map-used_map m flags.pal_user b))
              filled;
        base_same = set_map-base m flags.pal_user b;
        other_pool = set_map-other m flags.pal_user b;
        zeroed = λ a.
            ap (λ f. f a) (set_map-bytes m flags.pal_user b)
            ∙ sym (
                ap
                  (λ z.
                    if z
                    then memset m.bytes (pgsize * (start + r)) 0 (pgsize * page_cnt) a
                    else m.bytes a)
                  e);
      }

  not_found :
      ((i : ℕ) → i + page_cnt ≤ map.bit_cnt → ¬ Run (bit_at map) i page_cnt false)
      → Got flags page_cnt start m (hand_out flags page_cnt 0 m)
  not_found none_is = elim (Bool-cases flags.pal_assert) [
    | inl h ↦
        subst (Got flags page_cnt start m) (sym (ap (λ b. if b then panic else done (0, m)) h))
          (asserted h none_is)
    | inr h ↦
        subst (Got flags page_cnt start m) (sym (ap (λ b. if b then panic else done (0, m)) h))
          (exhausted h none_is)
  ]

  scanned :
      (r : ℕ) (b : Bitmap)
      → 1 ≤ page_cnt
      → Taken map page_cnt false pool.valid 0 r b
      → Got flags page_cnt start m (
          hand_out flags page_cnt
            (page_address (pool_of m flags.pal_user) r)
            (set_map m flags.pal_user b))
  scanned r b some_pages taken = of_scan taken.scan
    where
      of_scan :
          Scan (bit_at map) 0 map.bit_cnt page_cnt false r
          → Got flags page_cnt start m (
              hand_out flags page_cnt
                (page_address (pool_of m flags.pal_user) r)
                (set_map m flags.pal_user b))
      of_scan (found lo fits run first) =
          handed_out r b some_pages fits run (λ i lt. first i (omega arith) lt)
            (taken.flipped (omega (arith, pool.valid.small)))
      of_scan (nothing is none_is) =
          subst
            (λ a.
              Got flags page_cnt start m (hand_out flags page_cnt a (set_map m flags.pal_user b)))
            (sym (ap (page_address (pool_of m flags.pal_user)) is))
            (subst (λ m'. Got flags page_cnt start m (hand_out flags page_cnt 0 m'))
              (sym (ap (set_map m flags.pal_user) (taken.kept is) ∙ set_map-same m flags.pal_user))
              (not_found λ i fits. none_is i (omega arith) fits))

  -- With a valid pool of whole pages between address 0 and 4 GB, palloc_get_multiple hands out the
  -- address of the first group of page_cnt free pages of the pool that the flags name, marks these
  -- pages and no other as used, leaves the other pool as it was, and writes zeros over exactly
  -- these pages if PAL_ZERO is set and nothing otherwise; or page_cnt is 0 and it returns NULL and
  -- changes nothing; or there is no such group, and it panics with PAL_ASSERT and otherwise
  -- returns NULL and changes nothing.
  pub palloc_get_multiple-Got : Got flags page_cnt start m (palloc_get_multiple flags page_cnt m)
  unfolding palloc_get_multiple
  palloc_get_multiple-Got = elim (Bool-cases (page_cnt == 0)) [
    | inl z ↦
        subst (Got flags page_cnt start m) (sym (ap (λ b. if b then done (0, m) else searched) z))
          (zero_pages (==→eq page_cnt 0 z))
    | inr nz ↦
        subst (Got flags page_cnt start m) (sym (ap (λ b. if b then done (0, m) else searched) nz))
          (go (ground (arith, nz)) (bitmap_scan_and_flip map 0 page_cnt false)
            (bitmap_scan_and_flip-Taken map page_cnt false pool.valid 0 (omega arith)))
  ]
    where
      after : ℕ × Bitmap → Outcome (ℕ × Memory)
      after (r, b) =
          hand_out flags page_cnt (page_address (pool_of m flags.pal_user) r)
            (set_map m flags.pal_user b)

      searched : Outcome (ℕ × Memory)
      searched = bitmap_scan_and_flip map 0 page_cnt false >>= after

      go :
          1 ≤ page_cnt
          → (o : Outcome (ℕ × Bitmap))
          → Returns (λ (r, b). Taken map page_cnt false pool.valid 0 r b) o
          → Got flags page_cnt start m (o >>= after)
      go some_pages (done (r, b)) taken = scanned r b some_pages taken
      go some_pages blocked taken = elim taken [ ]
      go some_pages panic taken = elim taken [ ]
      go some_pages fault taken = elim taken [ ]
