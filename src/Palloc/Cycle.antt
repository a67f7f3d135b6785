-- ===== src/Palloc/Cycle.antt =====
-- Pages that are obtained and freed again.
use spring_os.Prelude.{
  ℕ, ◌+◌, ◌-◌, ◌*◌, ◌≤◌, ◌<◌, ◌≡◌, ◌≢◌, refl, sym, ap, subst, ◌∙◌, Bool, true, false, not, arith,
  if◌then◌else◌, ne→==,
}
use spring_os.Prelude.Outcome.{
  Outcome, done, blocked, panic, fault, Returns, Returns-bind, Returns-mono, ◌>>=◌,
}
use spring_os.Bitmap.{Bitmap, bitmap_all, bitmap_set_multiple, add_size}
use spring_os.Bitmap.Bit.{bit_at}
use spring_os.Bitmap.Range.{
  Filled, Search, hit, miss, bitmap_set_multiple-Filled, bitmap_all-Search,
}
use spring_os.Bitmap.Scan.{Run}
use spring_os.Palloc.{
  Pool, Memory, Flags, pgsize, pg_no, pg_ofs, pool_of, set_map, memset, byte_size, page_from_pool,
  free_in, palloc_get_multiple, palloc_free_multiple,
}
use spring_os.Palloc.Pages.{
  PoolAt, Obtained, Got, handed, zero_pages, exhausted, asserted, palloc_get_multiple-Got,
  set_map-used_map, set_map-other,
}

-- Freed pages are marked as free in their pool; the other pool is as before.
pub record Freed (u : Bool) (r cnt : ℕ) (m m' : Memory) : Type 0 where
  pub cleared : Filled (pool_of m u).used_map r (r + cnt) false (pool_of m' u).used_map
  pub other_pool : pool_of m' (not u) ≡ pool_of m (not u)

false≢true : false ≢ true
false≢true = cc

module _ (m : Memory) (u : Bool) (start : ℕ) (pool : PoolAt start (pool_of m u)) (r cnt : ℕ) where
  free_in-Freed :
      r + cnt ≤ (pool_of m u).used_map.bit_cnt
      → Run (bit_at (pool_of m u).used_map) r cnt true
      → Returns (Freed u r cnt m) (free_in m u (pgsize * (start + r)) cnt)
  unfolding free_in
  free_in-Freed fits run = rw index (
      Returns-bind _ _ (bitmap_all (pool_of m u).used_map r cnt) _
        (bitmap_all-Search (pool_of m u).used_map r cnt pool.valid fits)
        λ in_use result. decide in_use result)
    where
      cleared :
          (b : Bitmap)
          → Filled (pool_of m u).used_map r (r + cnt) false b
          → Freed u r cnt m (
              set_map
                (record m { bytes = memset m.bytes (pgsize * (start + r)) 204 (byte_size cnt) })
                u
                b)
      cleared b filled = record {
        cleared =
            subst (Filled (pool_of m u).used_map r (r + cnt) false) (sym (set_map-used_map _ u b))
              filled;
        other_pool = set_map-other _ u b;
      }

      decide :
          (in_use : Bool)
          → Search (bit_at (pool_of m u).used_map) r cnt false (not in_use)
          → Returns (Freed u r cnt m) (
              (if in_use then bitmap_set_multiple (pool_of m u).used_map r cnt false else panic)
              >>= λ b. done (
                  set_map
                    (record m { bytes = memset m.bytes (pgsize * (start + r)) 204 (byte_size cnt) })
                    u
                    b))
      decide true (miss all) =
          Returns-bind _ _ (bitmap_set_multiple (pool_of m u).used_map r cnt false) _
            (bitmap_set_multiple-Filled (pool_of m u).used_map r cnt pool.valid fits false) cleared
      decide false (hit j lo hi is) = absurd (false≢true (sym is ∙ run j lo hi))

      index : pg_no (pgsize * (start + r)) - pg_no (pool_of m u).base ≡ r
      index = omega (arith, pool.aligned)

-- The kernel's pool lies below the user pool.
pub record Pools (kernel_start user_start : ℕ) (m : Memory) : Type 0 where
  pub kernel : PoolAt kernel_start m.kernel_pool
  pub user : PoolAt user_start m.user_pool
  pub apart : kernel_start + m.kernel_pool.used_map.bit_cnt ≤ user_start

abbrev start_of : ℕ → ℕ → Bool → ℕ
start_of kernel_start user_start u = if u then user_start else kernel_start

module _ (m : Memory) (kernel_start user_start : ℕ) (ok : Pools kernel_start user_start m) where
  pub pool_at : (u : Bool) → PoolAt (start_of kernel_start user_start u) (pool_of m u)
  pool_at true = ok.user
  pool_at false = ok.kernel

  from_pool :
      (start r : ℕ) (p : Pool)
      → PoolAt start p
      → r < p.used_map.bit_cnt
      → page_from_pool p (pgsize * (start + r)) ≡ true
  from_pool start r p pool lt = rw (page_no, base_no, end_no) (ground (arith, lt))
    where
      page_no : pg_no (pgsize * (start + r)) ≡ start + r
      page_no = omega arith

      base_no : pg_no p.base ≡ start
      base_no = omega (arith, pool.aligned)

      end_no : add_size start p.used_map.bit_cnt ≡ start + p.used_map.bit_cnt
      end_no = omega (arith, pool.fits, pool.valid.small)

  not_kernel : (r : ℕ) → page_from_pool m.kernel_pool (pgsize * (user_start + r)) ≡ false
  not_kernel r = rw (page_no, base_no, end_no) (ground (arith, ok.apart))
    where
      page_no : pg_no (pgsize * (user_start + r)) ≡ user_start + r
      page_no = omega arith

      base_no : pg_no m.kernel_pool.base ≡ kernel_start
      base_no = omega (arith, ok.kernel.aligned)

      end_no :
          add_size kernel_start m.kernel_pool.used_map.bit_cnt
          ≡ kernel_start + m.kernel_pool.used_map.bit_cnt
      end_no = omega (arith, ok.kernel.fits, ok.kernel.valid.small)

  page_aligned : (start r : ℕ) → pg_ofs (pgsize * (start + r)) ≡ 0
  page_aligned start r = omega arith

  palloc_free_multiple-free_in :
      (u : Bool) (r cnt : ℕ)
      → 1 ≤ cnt
      → r + cnt ≤ (pool_of m u).used_map.bit_cnt
      → palloc_free_multiple m (pgsize * (start_of kernel_start user_start u + r)) cnt
        ≡ free_in m u (pgsize * (start_of kernel_start user_start u + r)) cnt
  unfolding palloc_free_multiple
  palloc_free_multiple-free_in true r cnt some_pages fits =
      rw
        (
          page_aligned user_start r,
          ne→== (pgsize * (user_start + r)) 0 (omega (arith, ok.user.above)),
          ne→== cnt 0 (omega arith),
          not_kernel r,
          from_pool user_start r m.user_pool ok.user (omega arith),
        )
        refl
  palloc_free_multiple-free_in false r cnt some_pages fits =
      rw
        (
          page_aligned kernel_start r,
          ne→== (pgsize * (kernel_start + r)) 0 (omega (arith, ok.kernel.above)),
          ne→== cnt 0 (omega arith),
          from_pool kernel_start r m.kernel_pool ok.kernel (omega arith),
        )
        refl

-- One pool has changed its bits, the other not at all.
Pools-kept :
    (u : Bool) (m m' : Memory) (kernel_start user_start : ℕ)
    → Pools kernel_start user_start m
    → PoolAt (start_of kernel_start user_start u) (pool_of m' u)
    → (pool_of m' u).used_map.bit_cnt ≡ (pool_of m u).used_map.bit_cnt
    → pool_of m' (not u) ≡ pool_of m (not u)
    → Pools kernel_start user_start m'
Pools-kept true m m' kernel_start user_start ok now size other = record {
  kernel = subst (PoolAt kernel_start) (sym other) ok.kernel;
  user = now;
  apart = subst (λ p. kernel_start + p.used_map.bit_cnt ≤ user_start) (sym other) ok.apart;
}
Pools-kept false m m' kernel_start user_start ok now size other = record {
  kernel = now;
  user = subst (PoolAt user_start) (sym other) ok.user;
  apart = subst (λ n. kernel_start + n ≤ user_start) (sym size) ok.apart;
}

abbrev pub get_and_free : Flags → ℕ → Memory → Outcome Memory
get_and_free flags page_cnt m =
    palloc_get_multiple flags page_cnt m >>= λ (pages, m'). palloc_free_multiple m' pages page_cnt

-- The same pages of both pools are in use.
pub record Restored (m m' : Memory) : Type 0 where
  pub size : (u : Bool) → (pool_of m' u).used_map.bit_cnt ≡ (pool_of m u).used_map.bit_cnt
  pub bit : (u : Bool) (j : ℕ) → bit_at (pool_of m' u).used_map j ≡ bit_at (pool_of m u).used_map j

both : (u : Bool) (P : Bool → Type 0) → P u → P (not u) → (v : Bool) → P v
both true P own other true = own
both true P own other false = other
both false P own other true = other
both false P own other false = own

palloc_free_multiple-null : (m : Memory) (page_cnt : ℕ) → palloc_free_multiple m 0 page_cnt ≡ done m
unfolding palloc_free_multiple
palloc_free_multiple-null m page_cnt = refl

module _ (flags : Flags) (page_cnt kernel_start user_start : ℕ) (m : Memory)
    (ok : Pools kernel_start user_start m) where
  undone_by :
      (u : Bool) (r : ℕ) (m' m'' : Memory)
      → Run (bit_at (pool_of m u).used_map) r page_cnt false
      → Filled (pool_of m u).used_map r (r + page_cnt) true (pool_of m' u).used_map
      → pool_of m' (not u) ≡ pool_of m (not u)
      → Freed u r page_cnt m' m''
      → Restored m m''
  undone_by u r m' m'' run set other freed = record {
    size =
        both u _ (freed.cleared.size ∙ set.size)
          (ap (λ p. p.used_map.bit_cnt) (freed.other_pool ∙ other));
    bit =
        both u _ (λ j. ground (arith, freed.cleared.bit j, set.bit j, run j))
          (λ j. ap (λ p. bit_at p.used_map j) (freed.other_pool ∙ other));
  }

  -- With valid pools of whole pages between address 0 and 4 GB, the kernel's below the user's,
  -- palloc_get_multiple of at least one page without PAL_ASSERT, followed by palloc_free_multiple
  -- of what it returned, never panics, and then the same pages of both pools are in use as before.
  pub get_and_free-Restored :
      flags.pal_assert ≡ false → 1 ≤ page_cnt → Returns (Restored m) (get_and_free flags page_cnt m)
  get_and_free-Restored quiet some_pages = go (palloc_get_multiple flags page_cnt m) (
      palloc_get_multiple-Got flags page_cnt _ m
        (pool_at m kernel_start user_start ok flags.pal_user))
    where
      null_free : Returns (Restored m) (palloc_free_multiple m 0 page_cnt)
      null_free =
          subst (Returns (Restored m)) (sym (palloc_free_multiple-null m page_cnt))
            (record { size = λ u. refl; bit = λ u j. refl })

      pool : PoolAt (start_of kernel_start user_start flags.pal_user) (pool_of m flags.pal_user)
      pool = pool_at m kernel_start user_start ok flags.pal_user

      moved :
          (m' : Memory) (r pages : ℕ)
          → Obtained flags page_cnt (start_of kernel_start user_start flags.pal_user) m m' pages r
          → PoolAt (start_of kernel_start user_start flags.pal_user) (pool_of m' flags.pal_user)
      moved m' r pages got = record {
        valid = got.marked.valid;
        aligned = got.base_same ∙ pool.aligned;
        above = pool.above;
        fits =
            subst (λ n. pgsize * (start_of kernel_start user_start flags.pal_user + n) ≤ 4294967296)
              (sym got.marked.size) pool.fits;
      }

      given_back :
          (m' : Memory) (r : ℕ) (pages : ℕ)
          → Obtained flags page_cnt (start_of kernel_start user_start flags.pal_user) m m' pages r
          → Returns (Restored m) (palloc_free_multiple m' pages page_cnt)
      given_back m' r pages got =
          subst (λ p. Returns (Restored m) (palloc_free_multiple m' p page_cnt)) (sym got.address)
            (subst (Returns (Restored m))
              (sym (
                palloc_free_multiple-free_in m' kernel_start user_start
                  (Pools-kept flags.pal_user m m' kernel_start user_start ok (moved m' r pages got)
                    got.marked.size got.other_pool)
                  flags.pal_user r page_cnt some_pages fits))
              (Returns-mono _ _
                (free_in m' flags.pal_user
                  (pgsize * (start_of kernel_start user_start flags.pal_user + r)) page_cnt)
                (free_in-Freed m' flags.pal_user _ (moved m' r pages got) r page_cnt fits
                  λ j lo hi. ground (arith, got.marked.bit j))
                (λ m'' freed.
                  undone_by flags.pal_user r m' m'' got.free got.marked got.other_pool freed)))
        where
          fits : r + page_cnt ≤ (pool_of m' flags.pal_user).used_map.bit_cnt
          fits = omega (arith, got.inside, got.marked.size)

      go :
          (o : Outcome (ℕ × Memory))
          → Got flags page_cnt (start_of kernel_start user_start flags.pal_user) m o
          → Returns (Restored m) (o >>= λ (pages, m'). palloc_free_multiple m' pages page_cnt)
      go (done (pages, m')) (handed r _ got) = given_back m' r pages got
      go (done (pages, m')) (zero_pages z) = null_free
      go (done (pages, m')) (exhausted q none_is) = null_free
      go blocked g = elim g [ ]
      go fault g = elim g [ ]
      go panic (asserted loud none_is) = absurd (false≢true (sym quiet ∙ loud))
