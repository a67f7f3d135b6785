-- ===== src/Bitmap/Scan.antt =====
-- `bitmap_scan` and `bitmap_scan_and_flip`: the first free group of bits.
use spring_os.Prelude.{
  ℕ, zero, suc, ◌+◌, ◌-◌, ◌≤◌, ◌<◌, ◌≡◌, ◌≢◌, refl, sym, subst, ◌∙◌, Bool, true, false, not, arith,
  ◌==◌, leb, if◌then◌else◌, Bool-cases, inl, inr, ==→eq, le→leb, ne→==,
}
use spring_os.Prelude.Outcome.{done, Returns, Returns-bind, Returns-mono, ◌>>=◌}
use spring_os.Bitmap.{
  Bitmap, bitmap_error, bitmap_contains, scan_loop, bitmap_scan, bitmap_scan_and_flip,
  bitmap_set_multiple,
}
use spring_os.Bitmap.Bit.{IsValid, bit_at}
use spring_os.Bitmap.Range.{
  Filled, Search, hit, miss, bitmap_contains-Search, bitmap_set_multiple-Filled, not-not,
}

-- The `cnt` bits from `i` on are all `v`.
abbrev pub Run : (ℕ → Bool) → ℕ → ℕ → Bool → Type 0
Run f i cnt v = (j : ℕ) → i ≤ j → j < i + cnt → f j ≡ v

-- The result of a scan from `start` of the groups of `cnt` bits that end by `size`: the first one,
-- or that there is none.
pub data Scan (f : ℕ → Bool) (start size cnt : ℕ) (v : Bool) : ℕ → Type 0 where
  found :
      {r : ℕ}
      → start ≤ r
      → r + cnt ≤ size
      → Run f r cnt v
      → ((i : ℕ) → start ≤ i → i < r → ¬ Run f i cnt v)
      → Scan f start size cnt v r
  nothing :
      {r : ℕ}
      → r ≡ bitmap_error
      → ((i : ℕ) → start ≤ i → i + cnt ≤ size → ¬ Run f i cnt v)
      → Scan f start size cnt v r

not-ne : (v : Bool) → not v ≢ v
not-ne true h = cc
not-ne false h = cc

module _ (b : Bitmap) (cnt : ℕ) (v : Bool) (valid : IsValid b) where
  scan_loop-Scan :
      (i n : ℕ)
      → cnt ≤ b.bit_cnt
      → n ≡ b.bit_cnt + 1 - cnt - i
      → Returns (Scan (bit_at b) i b.bit_cnt cnt v) (scan_loop b i n cnt v)
  unfolding scan_loop
  scan_loop-Scan i zero fit e = nothing refl λ k lo hi. absurd (omega arith)
  scan_loop-Scan i (suc n) fit e =
      Returns-bind _ _ (bitmap_contains b i cnt (not v)) _
        (bitmap_contains-Search b i cnt valid (omega arith) (not v))
        λ r result. decide r result (scan_loop-Scan (i + 1) n fit (omega arith))
    where
      no_run : Search (bit_at b) i cnt (not v) true → ¬ Run (bit_at b) i cnt v
      no_run (hit j lo hi is) run = not-ne v (sym is ∙ run j lo hi)

      run_of : Search (bit_at b) i cnt (not v) false → Run (bit_at b) i cnt v
      run_of (miss is) = λ j lo hi. is j lo hi ∙ not-not v

      other_run :
          ¬ Run (bit_at b) i cnt v
          → (k : ℕ) → i ≤ k
          → (i < k → ¬ Run (bit_at b) k cnt v)
          → ¬ Run (bit_at b) k cnt v
      other_run none_here k le beyond run = elim (Bool-cases (i == k)) [
        | inl here ↦ none_here (subst (λ m. Run (bit_at b) m cnt v) (sym (==→eq i k here)) run)
        | inr there ↦ beyond (ground arith) run
      ]

      step :
          ¬ Run (bit_at b) i cnt v
          → (r : ℕ) → Scan (bit_at b) (i + 1) b.bit_cnt cnt v r
          → Scan (bit_at b) i b.bit_cnt cnt v r
      step none_here r (found lo fits run first) =
          found (omega arith) fits run
            λ k le hi. other_run none_here k le λ lt. first k (omega arith) hi
      step none_here r (nothing is none_is) =
          nothing is λ k le fits. other_run none_here k le λ lt. none_is k (omega arith) fits

      decide :
          (r : Bool)
          → Search (bit_at b) i cnt (not v) r
          → Returns (Scan (bit_at b) (i + 1) b.bit_cnt cnt v) (scan_loop b (i + 1) n cnt v)
          → Returns
              (Scan (bit_at b) i b.bit_cnt cnt v)
              (elim r [ false ↦ done i | true ↦ scan_loop b (i + 1) n cnt v ])
      decide false result rest =
          found (omega arith) (omega arith) (run_of result) λ k lo hi. absurd (omega arith)
      decide true result rest =
          Returns-mono _ _ (scan_loop b (i + 1) n cnt v) rest (step (no_run result))

  -- On a valid bitmap, with start at most its size, bitmap_scan returns the start of the first
  -- group of cnt bits at or after start that all have the value and end by the end of the bitmap,
  -- or BITMAP_ERROR if there is no such group.
  pub bitmap_scan-Scan :
      (start : ℕ)
      → start ≤ b.bit_cnt
      → Returns (Scan (bit_at b) start b.bit_cnt cnt v) (bitmap_scan b start cnt v)
  unfolding bitmap_scan
  bitmap_scan-Scan start h = rw (le→leb start b.bit_cnt h) (elim (Bool-cases (leb cnt b.bit_cnt)) [
    | inl fits ↦
        rw fits (scan_loop-Scan start (b.bit_cnt - cnt + 1 - start) (ground arith) (ground arith))
    | inr big ↦ rw big (nothing refl λ i lo hi. absurd (ground arith))
  ])

  -- The result of a scan, and the bitmap in which the group that was found has been flipped.
  pub record Taken (start r : ℕ) (b' : Bitmap) : Type 0 where
    pub scan : Scan (bit_at b) start b.bit_cnt cnt v r
    pub kept : r ≡ bitmap_error → b' ≡ b
    pub flipped : r ≢ bitmap_error → Filled b r (r + cnt) (not v) b'

  -- On a valid bitmap, with start at most its size, bitmap_scan_and_flip returns the start of the
  -- first group of cnt bits at or after start that all have the value, or BITMAP_ERROR exactly
  -- when the scan finds no such group; in the first case the bits of the group, and no other, are
  -- set to the opposite value, and in the second the bitmap is the same. For cnt 0 the first group
  -- is the empty one at start, so that the result is start.
  pub bitmap_scan_and_flip-Taken :
      (start : ℕ)
      → start ≤ b.bit_cnt
      → Returns (λ (r, b'). Taken start r b') (bitmap_scan_and_flip b start cnt v)
  unfolding bitmap_scan_and_flip
  bitmap_scan_and_flip-Taken start h =
      Returns-bind _ _ (bitmap_scan b start cnt v) _ (bitmap_scan-Scan start h) flip
    where
      flip :
          (r : ℕ)
          → Scan (bit_at b) start b.bit_cnt cnt v r
          → Returns
              (λ (r, b'). Taken start r b')
              (if r == bitmap_error
                then done (r, b)
                else (bitmap_set_multiple b r cnt (not v) >>= λ b'. done (r, b')))
      flip r (found lo fits run first) =
          let ok : r ≢ bitmap_error = omega (arith, valid.small) in
          rw (ne→== r bitmap_error ok) (
            Returns-bind _ _ (bitmap_set_multiple b r cnt (not v)) _
              (bitmap_set_multiple-Filled b r cnt valid fits (not v))
              λ b' filled. record {
                scan = found lo fits run first;
                kept = λ e. absurd (ok e);
                flipped = λ ne. filled;
              })
      flip r (nothing is none_is) = rw is (record {
        scan = nothing refl none_is;
        kept = λ e. refl;
        flipped = λ ne. absurd (ne refl);
      })
