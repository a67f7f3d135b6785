-- ===== src/Bitmap/Bit.antt =====
-- One bit of a bitmap: what `bitmap_test` reads, and what mark, reset, flip and set change.
use Prim.Native.Nat.{bit_and, bit_or, bit_xor}
use native.Mathlib.Nat.{pow-suc, one-le-pow}
use spring_os.Prelude.{
  ℕ, zero, suc, ◌+◌, ◌-◌, ◌%◌, ◌^◌, ◌≤◌, ◌<◌, ◌≡◌, refl, ap, ◌∙◌, Bool, true, false, not, some,
  List, [], ◌∷◌, arith, length, get_elem?, get_or, set, ◌==◌, if◌then◌else◌, lt→ltb, ge→ltb,
  length-set,
}
use spring_os.Prelude.Bits.{
  bit, bit-or, bit-and, bit-xor, bit-pow, bit-not, and_pow, or-lt, and-lt, xor-lt,
}
use spring_os.Prelude.Outcome.{done, panic, Returns}
use spring_os.Bitmap.{
  Bitmap, elem_bits, elem_idx, bit_mask, elem_cnt, change_elem, bitmap_mark, bitmap_reset,
  bitmap_flip, bitmap_set, bitmap_test,
}

-- The array has a word for every bit, of 32 bits each, and no size overflows.
pub record IsValid (b : Bitmap) : Type 0 where
  pub small : b.bit_cnt + 31 < 2 ^ 32
  pub enough : length b.bits ≡ elem_cnt b.bit_cnt
  pub words : (i : ℕ) → get_or b.bits i 0 < 2 ^ 32

-- The bitmap as an array of bits.
abbrev pub bit_at : Bitmap → ℕ → Bool
bit_at b i = bit (get_or b.bits (elem_idx i) 0) (i % elem_bits)

-- A bitmap of the same size in which bit `i` alone has changed.
pub record Changed (b : Bitmap) (i : ℕ) (v : Bool) (b' : Bitmap) : Type 0 where
  pub valid : IsValid b'
  pub size : b'.bit_cnt ≡ b.bit_cnt
  pub bit : (j : ℕ) → bit_at b' j ≡ (if i == j then v else bit_at b j)

get_elem?-word : (ws : List ℕ) (i : ℕ) → i < length ws → get_elem? ws i ≡ some (get_or ws i 0)
get_elem?-word [] i h = absurd (omega arith)
get_elem?-word (w ∷ ws) zero h = refl
get_elem?-word (w ∷ ws) (suc i) h = get_elem?-word ws i (omega arith)

get_or-set :
    (ws : List ℕ) (i j v : ℕ)
    → i < length ws
    → get_or (set ws i v) j 0 ≡ (if i == j then v else get_or ws j 0)
get_or-set [] i j v h = absurd (omega arith)
get_or-set (w ∷ ws) zero zero v h = refl
get_or-set (w ∷ ws) zero (suc j) v h = ground arith
get_or-set (w ∷ ws) (suc i) zero v h = ground arith
get_or-set (w ∷ ws) (suc i) (suc j) v h = ground (arith, get_or-set ws i j v)

pow-lt : (k n : ℕ) → k < n → 2 ^ k < 2 ^ n
pow-lt k zero h = absurd (omega arith)
pow-lt zero (suc n) h = omega (arith, pow-suc 2 n, one-le-pow n 2)
pow-lt (suc k) (suc n) h = omega (arith, pow-suc 2 n, pow-suc 2 k, pow-lt k n (omega arith))

module _ (b : Bitmap) (i : ℕ) (valid : IsValid b) (inside : i < b.bit_cnt) where
  elem_idx-lt : elem_idx i < length b.bits
  elem_idx-lt = omega (arith, valid.enough, valid.small)

  -- The word that holds bit `i`.
  abbrev word : ℕ
  word = get_or b.bits (elem_idx i) 0

  change_elem-Changed :
      (f : ℕ → ℕ) (v : Bool)
      → f word < 2 ^ 32
      → ((k : ℕ) → k < 32 → bit (f word) k ≡ (if i % 32 == k then v else bit word k))
      → Returns (Changed b i v) (change_elem b (elem_idx i) f)
  unfolding change_elem
  change_elem-Changed f v keeps at =
      rw (get_elem?-word b.bits (elem_idx i) elem_idx-lt, change_elem)
        (record {
          valid = record {
            small = valid.small;
            enough = length-set b.bits (elem_idx i) (f word) ∙ valid.enough;
            words = λ j.
                rw (get_or-set b.bits (elem_idx i) j (f word) elem_idx-lt)
                  (ground (arith, keeps, valid.words j));
          };
          size = refl;
          bit = λ j.
              rw (get_or-set b.bits (elem_idx i) (elem_idx j) (f word) elem_idx-lt)
                (ground (arith, at (j % 32) (omega arith)));
        })

  -- The masks of bit `i`.
  mask-lt : 2 ^ (i % 32) < 2 ^ 32
  mask-lt = pow-lt (i % 32) 32 (omega arith)

  pub bitmap_mark-Changed : Returns (Changed b i true) (bitmap_mark b i)
  unfolding bitmap_mark
  bitmap_mark-Changed =
      change_elem-Changed (λ w. bit_or w (bit_mask i)) true
        (or-lt 32 word (bit_mask i) (valid.words (elem_idx i)) mask-lt)
        λ k hk. ground (arith, bit-or word (bit_mask i) k, bit-pow (i % 32) k)

  pub bitmap_reset-Changed : Returns (Changed b i false) (bitmap_reset b i)
  unfolding bitmap_reset
  bitmap_reset-Changed =
      change_elem-Changed (λ w. bit_and w (2 ^ 32 - 1 - bit_mask i)) false
        (and-lt 32 word (2 ^ 32 - 1 - bit_mask i) (valid.words (elem_idx i)) (omega arith))
        λ k hk. ground (
          arith,
          bit-and word (2 ^ 32 - 1 - bit_mask i) k,
          bit-not 32 (bit_mask i) k mask-lt hk,
          bit-pow (i % 32) k,
        )

  -- On a valid bitmap, for an index within its size, bitmap_flip returns a valid bitmap of the
  -- same size in which that bit is negated and every other bit is as before.
  pub bitmap_flip-Changed : Returns (Changed b i (not (bit_at b i))) (bitmap_flip b i)
  unfolding bitmap_flip
  bitmap_flip-Changed =
      change_elem-Changed (λ w. bit_xor w (bit_mask i)) (not (bit_at b i))
        (xor-lt 32 word (bit_mask i) (valid.words (elem_idx i)) mask-lt)
        λ k hk. ground (arith, bit-xor word (bit_mask i) k, bit-pow (i % 32) k)

  -- On a valid bitmap, for an index within its size, bitmap_test returns the binary digit of the
  -- word that stands for the index.
  pub bitmap_test-bit_at : bitmap_test b i ≡ done (bit_at b i)
  unfolding bitmap_test
  bitmap_test-bit_at =
      rw (lt→ltb i b.bit_cnt inside, get_elem?-word b.bits (elem_idx i) elem_idx-lt)
        (ap done (ground (arith, and_pow word (i % 32))))

  -- On a valid bitmap, for an index within its size, bitmap_set returns a valid bitmap of the same
  -- size in which that bit has the value and every other bit, also in the same 32-bit word, is as
  -- before.
  pub bitmap_set-Changed : (v : Bool) → Returns (Changed b i v) (bitmap_set b i v)
  unfolding bitmap_set
  bitmap_set-Changed true = rw (lt→ltb i b.bit_cnt inside) bitmap_mark-Changed
  bitmap_set-Changed false = rw (lt→ltb i b.bit_cnt inside) bitmap_reset-Changed

-- Behind the end `bitmap_set` and `bitmap_test` panic.
pub bitmap_set-panic :
    (b : Bitmap) (i : ℕ) (v : Bool)
    → b.bit_cnt ≤ i
    → (bitmap_set b i v ≡ panic) × (bitmap_test b i ≡ panic)
unfolding bitmap_set bitmap_test
bitmap_set-panic b i v h = (rw (ge→ltb i b.bit_cnt h), rw (ge→ltb i b.bit_cnt h))
