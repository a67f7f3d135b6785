-- ===== src/Bitmap/Range.antt =====
-- Ranges of bits: setting, counting and searching them.
use native.Mathlib.Nat.{add-zero}
use spring_os.Prelude.{
  ℕ, zero, suc, ◌+◌, ◌^◌, ◌≤◌, ◌<◌, ◌≡◌, refl, sym, ap, ◌∙◌, Bool, true, false, not, some, List,
  arith, ◌==◌, ltb, leb, if◌then◌else◌, ==→eq, Bool-cases, inl, inr, ◌&&◌,
}
use spring_os.Prelude.Outcome.{done, Returns, Returns-bind, Returns-mono}
use spring_os.Bitmap.{
  Bitmap, add_size, range_ok, bitmap_set, set_loop, bitmap_set_multiple, bitmap_test, same_bit,
  count_loop, bitmap_count, contains_loop, bitmap_contains, bitmap_none, bitmap_all, bitmap_create,
}
use spring_os.Bitmap.Bit.{IsValid, bit_at, bitmap_test-bit_at, bitmap_set-Changed}

-- A bitmap of the same size, in which the bits from `lo` up to `hi` have been set to `v`.
pub record Filled (b : Bitmap) (lo hi : ℕ) (v : Bool) (b' : Bitmap) : Type 0 where
  pub valid : IsValid b'
  pub size : b'.bit_cnt ≡ b.bit_cnt
  pub bit : (j : ℕ) → bit_at b' j ≡ (if leb lo j && ltb j hi then v else bit_at b j)

set_loop-Filled :
    (start i n : ℕ) (v : Bool) (b : Bitmap)
    → IsValid b
    → start + i + n ≤ b.bit_cnt
    → Returns (Filled b (start + i) (start + i + n) v) (set_loop b start i n v)
unfolding set_loop
set_loop-Filled start i zero v b valid fits = record {
  valid = valid;
  size = refl;
  bit = λ j. ground arith;
}
set_loop-Filled start i (suc n) v b valid fits = rw in_place (
    Returns-bind _ _ (bitmap_set b (start + i) v) _
      (bitmap_set-Changed b (start + i) valid (omega arith) v)
      λ b' changed.
        Returns-mono _ _ (set_loop b' start (i + 1) n v)
          (set_loop-Filled start (i + 1) n v b' changed.valid (omega (arith, changed.size)))
          λ b'' rest. record {
            valid = rest.valid;
            size = rest.size ∙ changed.size;
            bit = λ j. ground (arith, rest.bit j, changed.bit j);
          })
  where
    in_place : add_size start i ≡ start + i
    in_place = omega (arith, valid.small)

module _ (b : Bitmap) (start cnt : ℕ) (valid : IsValid b) (fits : start + cnt ≤ b.bit_cnt) where
  range_ok-fits : range_ok b start cnt ≡ true
  range_ok-fits = ground (arith, valid.small)

  -- On a valid bitmap, for a range within its size, bitmap_set_multiple returns a valid bitmap of
  -- the same size in which the bits of the range have the value and every other bit is as before.
  pub bitmap_set_multiple-Filled :
      (v : Bool) → Returns (Filled b start (start + cnt) v) (bitmap_set_multiple b start cnt v)
  unfolding bitmap_set_multiple
  bitmap_set_multiple-Filled v = rw range_ok-fits (
      Returns-mono _ _ (set_loop b start 0 cnt v)
        (set_loop-Filled start 0 cnt v b valid (omega arith))
        λ b' filled. record {
          valid = filled.valid;
          size = filled.size;
          bit = λ j. ground (arith, filled.bit j);
        })

-- How many of the `n` bits from `lo` on are `v`.
pub count_in : (ℕ → Bool) → ℕ → ℕ → Bool → ℕ
count_in f lo zero v = 0
count_in f lo (suc n) v = (if same_bit (f lo) v then 1 else 0) + count_in f (lo + 1) n v

pub not-not : (v : Bool) → not (not v) ≡ v
not-not true = refl
not-not false = refl

same_bit-true : (a v : Bool) → same_bit a v ≡ true → a ≡ v
same_bit-true true v h = sym h
same_bit-true false true h = cc
same_bit-true false false h = refl

same_bit-false : (a v : Bool) → same_bit a v ≡ false → a ≡ not v
same_bit-false true true h = cc
same_bit-false true false h = refl
same_bit-false false true h = refl
same_bit-false false false h = cc

-- Some bit of the `n` from `lo` on is `v`; or none is.
pub data Search (f : ℕ → Bool) (lo n : ℕ) (v : Bool) : Bool → Type 0 where
  hit : (j : ℕ) → lo ≤ j → j < lo + n → f j ≡ v → Search f lo n v true
  miss : ((j : ℕ) → lo ≤ j → j < lo + n → f j ≡ not v) → Search f lo n v false

module _ (b : Bitmap) (start : ℕ) (valid : IsValid b) where
  test-in_place :
      (i n : ℕ)
      → start + i + suc n ≤ b.bit_cnt
      → bitmap_test b (add_size start i) ≡ done (bit_at b (start + i))
  test-in_place i n fits =
      let in_place : add_size start i ≡ start + i = omega (arith, valid.small) in
      rw in_place (bitmap_test-bit_at b (start + i) valid (omega arith))

  count_loop-count_in :
      (i n : ℕ) (v : Bool) (acc : ℕ)
      → start + i + n ≤ b.bit_cnt
      → acc + n < 2 ^ 32
      → count_loop b start i n v acc ≡ done (acc + count_in (bit_at b) (start + i) n v)
  unfolding count_loop count_in
  count_loop-count_in i zero v acc fits small = ap done (omega arith)
  count_loop-count_in i (suc n) v acc fits small =
      rw (test-in_place i n fits) (elim (Bool-cases (same_bit (bit_at b (start + i)) v)) [
        | inl same ↦ rw same (
            count_loop-count_in (i + 1) n v (add_size acc 1) (omega arith) (omega arith)
            ∙ ap done (omega (arith, shift)))
        | inr other ↦ rw other (
            count_loop-count_in (i + 1) n v acc (omega arith) (omega arith)
            ∙ ap done (omega (arith, shift)))
      ])
    where
      shift : count_in (bit_at b) (start + (i + 1)) n v ≡ count_in (bit_at b) (start + i + 1) n v
      shift = ap (λ k. count_in (bit_at b) k n v) (omega arith)

  contains_loop-Search :
      (i n : ℕ) (v : Bool)
      → start + i + n ≤ b.bit_cnt
      → Returns (Search (bit_at b) (start + i) n v) (contains_loop b start i n v)
  unfolding contains_loop
  contains_loop-Search i zero v fits = miss (λ j lo hi. absurd (omega arith))
  contains_loop-Search i (suc n) v fits = rw (test-in_place i n fits) (
      decide (same_bit (bit_at b (start + i)) v) refl
        (contains_loop-Search (i + 1) n v (omega arith)))
    where
      later :
          same_bit (bit_at b (start + i)) v ≡ false
          → (r : Bool) → Search (bit_at b) (start + (i + 1)) n v r
          → Search (bit_at b) (start + i) (suc n) v r
      later other true (hit j lo hi is) = hit j (omega arith) (omega arith) is
      later other false (miss none_is) = miss λ j lo hi. elim (Bool-cases (start + i == j)) [
        | inl here ↦ ap (bit_at b) (sym (==→eq _ _ here)) ∙ same_bit-false _ v other
        | inr there ↦ none_is j (ground arith) (omega arith)
      ]

      decide :
          (c : Bool)
          → same_bit (bit_at b (start + i)) v ≡ c
          → Returns (Search (bit_at b) (start + (i + 1)) n v) (contains_loop b start (i + 1) n v)
          → Returns
              (Search (bit_at b) (start + i) (suc n) v)
              (elim c [ true ↦ done true | false ↦ contains_loop b start (i + 1) n v ])
      decide true same rest = hit (start + i) (omega arith) (omega arith) (same_bit-true _ v same)
      decide false other rest =
          Returns-mono _ _ (contains_loop b start (i + 1) n v) rest (later other)

module _ (b : Bitmap) (start cnt : ℕ) (valid : IsValid b) (fits : start + cnt ≤ b.bit_cnt) where
  -- On a valid bitmap, for a range within its size, bitmap_count returns the number of bits of the
  -- range that have the value, with no overflow.
  pub bitmap_count-count_in :
      (v : Bool) → bitmap_count b start cnt v ≡ done (count_in (bit_at b) start cnt v)
  unfolding bitmap_count
  bitmap_count-count_in v = rw (range_ok-fits b start cnt valid fits) (
      count_loop-count_in b start valid 0 cnt v 0 (omega arith) (omega (arith, valid.small))
      ∙ ap done (omega (arith, ap (λ k. count_in (bit_at b) k cnt v) (add-zero start))))

  -- On a valid bitmap, for a range within its size, bitmap_contains returns true only with a bit
  -- of the range that has the value, and false only if no bit of the range has it.
  pub bitmap_contains-Search :
      (v : Bool) → Returns (Search (bit_at b) start cnt v) (bitmap_contains b start cnt v)
  unfolding bitmap_contains
  bitmap_contains-Search v = rw (range_ok-fits b start cnt valid fits) (
      Returns-mono _ _ (contains_loop b start 0 cnt v)
        (contains_loop-Search b start valid 0 cnt v (omega arith))
        λ r search. rw add-zero at search)

  -- `bitmap_all` and `bitmap_none` say whether every bit of the range, or no bit, is set.
  pub bitmap_all-Search :
      Returns (λ r. Search (bit_at b) start cnt false (not r)) (bitmap_all b start cnt)
  unfolding bitmap_all
  bitmap_all-Search =
      Returns-bind _ _ (bitmap_contains b start cnt false) _ (bitmap_contains-Search false)
        λ r result. rw not-not result

  pub bitmap_none-Search :
      Returns (λ r. Search (bit_at b) start cnt true (not r)) (bitmap_none b start cnt)
  unfolding bitmap_none
  bitmap_none-Search =
      Returns-bind _ _ (bitmap_contains b start cnt true) _ (bitmap_contains-Search true)
        λ r result. rw not-not result

-- bitmap_create with enough words of 32 bits from malloc, whatever they hold, and a size that does
-- not overflow, returns a valid bitmap of the given size in which every bit is clear.
pub bitmap_create-Filled :
    (bit_cnt : ℕ) (words : List ℕ)
    → IsValid (record { bit_cnt = bit_cnt; bits = words })
    → Returns
        (λ r.
          (b : Bitmap) × (r ≡ some b)
          × IsValid b
          × (b.bit_cnt ≡ bit_cnt)
          × ((j : ℕ) → j < bit_cnt → bit_at b j ≡ false))
        (bitmap_create bit_cnt (some words))
unfolding bitmap_create
bitmap_create-Filled bit_cnt words valid =
    Returns-bind _ _
      (bitmap_set_multiple (record { bit_cnt = bit_cnt; bits = words }) 0 bit_cnt false) _
      (bitmap_set_multiple-Filled (record { bit_cnt = bit_cnt; bits = words }) 0 bit_cnt valid
        (omega arith) false)
      λ b filled. (b, refl, filled.valid, filled.size, λ j h. ground (arith, filled.bit j))
