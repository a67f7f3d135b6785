-- ===== src/Bitmap.antt =====
-- pintos/src/lib/kernel/bitmap.c: a bitmap kept in 32-bit words.
pub mod Bit
pub mod Range
pub mod Scan
mod Tests
use Prim.Native.Nat.{bit_and, bit_or, bit_xor}
use spring_os.Prelude.{
  ℕ, zero, suc, ◌+◌, ◌-◌, ◌*◌, ◌/◌, ◌%◌, ◌^◌, Bool, true, false, not, ◌&&◌, Option, none, some,
  List, [], ltb, leb, ◌==◌, if◌then◌else◌, get_elem?, set, length, replicate,
}
use spring_os.Prelude.Outcome.{Outcome, done, panic, fault, ◌>>=◌}

-- `ELEM_BITS`: `elem_type` is `unsigned long`, of 32 bits on this machine.
abbrev pub elem_bits : ℕ
elem_bits = 32

-- `size_t` addition.
abbrev pub add_size : ℕ → ℕ → ℕ
add_size a b = (a + b) % 2 ^ 32

-- `struct bitmap`.
pub record Bitmap : Type 0 where
  pub bit_cnt : ℕ
  pub bits : List ℕ

-- `BITMAP_ERROR`, which is `SIZE_MAX`.
abbrev pub bitmap_error : ℕ
bitmap_error = 2 ^ 32 - 1

abbrev pub elem_idx : ℕ → ℕ
elem_idx bit_idx = bit_idx / elem_bits

abbrev pub bit_mask : ℕ → ℕ
bit_mask bit_idx = 2 ^ (bit_idx % elem_bits)

-- `DIV_ROUND_UP`, whose sum may wrap.
abbrev pub elem_cnt : ℕ → ℕ
elem_cnt bit_cnt = add_size bit_cnt 31 / elem_bits

abbrev pub byte_cnt : ℕ → ℕ
byte_cnt bit_cnt = 4 * elem_cnt bit_cnt

-- A word of the array is read, changed and written back.
change_elem : Bitmap → ℕ → (ℕ → ℕ) → Outcome Bitmap
change_elem b idx f = elim (get_elem? b.bits idx) [
  | none ↦ fault
  | some w ↦ done (record b { bits = set b.bits idx (f w) })
]

unfoldable pub bitmap_mark : Bitmap → ℕ → Outcome Bitmap
unfolding change_elem
bitmap_mark b bit_idx = change_elem b (elem_idx bit_idx) λ w. bit_or w (bit_mask bit_idx)

-- `~mask` is the complement within 32 bits.
unfoldable pub bitmap_reset : Bitmap → ℕ → Outcome Bitmap
unfolding change_elem
bitmap_reset b bit_idx =
    change_elem b (elem_idx bit_idx) λ w. bit_and w (2 ^ 32 - 1 - bit_mask bit_idx)

unfoldable pub bitmap_flip : Bitmap → ℕ → Outcome Bitmap
unfolding change_elem
bitmap_flip b bit_idx = change_elem b (elem_idx bit_idx) λ w. bit_xor w (bit_mask bit_idx)

unfoldable pub bitmap_set : Bitmap → ℕ → Bool → Outcome Bitmap
unfolding bitmap_mark bitmap_reset
bitmap_set b idx value =
    if ltb idx b.bit_cnt then (if value then bitmap_mark b idx else bitmap_reset b idx) else panic

unfoldable pub bitmap_test : Bitmap → ℕ → Outcome Bool
bitmap_test b idx =
    if ltb idx b.bit_cnt
    then elim (get_elem? b.bits (elem_idx idx)) [
      | none ↦ fault
      | some w ↦ done (not (bit_and w (bit_mask idx) == 0))
    ]
    else panic

-- The two assertions on a range; the sum may wrap.
abbrev pub range_ok : Bitmap → ℕ → ℕ → Bool
range_ok b start cnt = leb start b.bit_cnt && leb (add_size start cnt) b.bit_cnt

-- The loop of `bitmap_set_multiple`, from round `i` with `n` rounds left.
unfoldable pub set_loop : Bitmap → ℕ → ℕ → ℕ → Bool → Outcome Bitmap
unfolding bitmap_set
set_loop b start i zero value = done b
set_loop b start i (suc n) value = do
  b ← bitmap_set b (add_size start i) value
  set_loop b start (i + 1) n value

unfoldable pub bitmap_set_multiple : Bitmap → ℕ → ℕ → Bool → Outcome Bitmap
unfolding set_loop
bitmap_set_multiple b start cnt value =
    if range_ok b start cnt then set_loop b start 0 cnt value else panic

unfoldable pub bitmap_set_all : Bitmap → Bool → Outcome Bitmap
unfolding bitmap_set_multiple
bitmap_set_all b value = bitmap_set_multiple b 0 b.bit_cnt value

-- `bitmap_create` with the words that `malloc` returns for the array, if any: their values are
-- unknown. (`malloc (sizeof *b)` itself is taken to succeed.)
unfoldable pub bitmap_create : ℕ → Option (List ℕ) → Outcome (Option Bitmap)
unfolding bitmap_set_all
bitmap_create bit_cnt none =
    if bit_cnt == 0
    then (do b ← bitmap_set_all (record { bit_cnt = bit_cnt; bits = [] }) false; done (some b))
    else done none
bitmap_create bit_cnt (some words) = do
  b ← bitmap_set_all (record { bit_cnt = bit_cnt; bits = words }) false
  done (some b)

-- The boolean equality `==` of the C code.
abbrev pub same_bit : Bool → Bool → Bool
same_bit true b = b
same_bit false b = not b

unfoldable pub count_loop : Bitmap → ℕ → ℕ → ℕ → Bool → ℕ → Outcome ℕ
unfolding bitmap_test
count_loop b start i zero value value_cnt = done value_cnt
count_loop b start i (suc n) value value_cnt = do
  bit ← bitmap_test b (add_size start i)
  count_loop b start (i + 1) n value
      (if same_bit bit value then add_size value_cnt 1 else value_cnt)

unfoldable pub bitmap_count : Bitmap → ℕ → ℕ → Bool → Outcome ℕ
unfolding count_loop
bitmap_count b start cnt value =
    if range_ok b start cnt then count_loop b start 0 cnt value 0 else panic

unfoldable pub contains_loop : Bitmap → ℕ → ℕ → ℕ → Bool → Outcome Bool
unfolding bitmap_test
contains_loop b start i zero value = done false
contains_loop b start i (suc n) value = do
  bit ← bitmap_test b (add_size start i)
  elim (same_bit bit value) [ true ↦ done true | false ↦ contains_loop b start (i + 1) n value ]

unfoldable pub bitmap_contains : Bitmap → ℕ → ℕ → Bool → Outcome Bool
unfolding contains_loop
bitmap_contains b start cnt value =
    if range_ok b start cnt then contains_loop b start 0 cnt value else panic

unfoldable pub bitmap_any : Bitmap → ℕ → ℕ → Outcome Bool
unfolding bitmap_contains
bitmap_any b start cnt = bitmap_contains b start cnt true

unfoldable pub bitmap_none : Bitmap → ℕ → ℕ → Outcome Bool
unfolding bitmap_contains
bitmap_none b start cnt = do found ← bitmap_contains b start cnt true; done (not found)

unfoldable pub bitmap_all : Bitmap → ℕ → ℕ → Outcome Bool
unfolding bitmap_contains
bitmap_all b start cnt = do found ← bitmap_contains b start cnt false; done (not found)

-- The loop of `bitmap_scan` at `i`, with `n` rounds up to `last`.
unfoldable pub scan_loop : Bitmap → ℕ → ℕ → ℕ → Bool → Outcome ℕ
unfolding bitmap_contains
scan_loop b i zero cnt value = done bitmap_error
scan_loop b i (suc n) cnt value = do
  found ← bitmap_contains b i cnt (not value)
  elim found [ false ↦ done i | true ↦ scan_loop b (i + 1) n cnt value ]

-- With `last = bit_cnt - cnt` the loop has `last + 1 - start` rounds.
unfoldable pub bitmap_scan : Bitmap → ℕ → ℕ → Bool → Outcome ℕ
unfolding scan_loop
bitmap_scan b start cnt value =
    if leb start b.bit_cnt
    then (if leb cnt b.bit_cnt
        then scan_loop b start (b.bit_cnt - cnt + 1 - start) cnt value
        else done bitmap_error)
    else panic

unfoldable pub bitmap_scan_and_flip : Bitmap → ℕ → ℕ → Bool → Outcome (ℕ × Bitmap)
unfolding bitmap_scan bitmap_set_multiple
bitmap_scan_and_flip b start cnt value = do
  idx ← bitmap_scan b start cnt value
  if idx == bitmap_error
      then done (idx, b)
      else do b ← bitmap_set_multiple b idx cnt (not value); done (idx, b)
