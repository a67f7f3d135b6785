-- ===== src/Prelude/Bits.antt =====
-- The bits of a native number, and what the bitwise operations do to each.
use Prim.Native.Nat.{
  ℕ, zero, suc, ◌+◌, ◌-◌, ◌*◌, ◌/◌, ◌%◌, ◌^◌, ◌≤◌, ◌<◌, min, max, digits, bitwise, differ, bit_and,
  bit_or, bit_xor, bit_and-bitwise, bit_or-bitwise, bit_xor-bitwise,
}
use mathlib.Core.Path.{◌≡◌, refl, ◌∙◌, ap}
use mathlib.Core.Bool.{Bool, false, not, ◌&&◌, ◌||◌}
use native.Mathlib.Nat.{pow-suc}
use native.Mathlib.Omega.{arith}
use spring_os.Prelude.Tests.{◌==◌, if◌then◌else◌}

-- Bit `i` of `a`.
pub bit : ℕ → ℕ → Bool
bit a zero = a % 2 == 1
bit a (suc i) = bit (a / 2) i

bit-zero : (i : ℕ) → bit 0 i ≡ false
unfolding bit
bit-zero zero = refl
bit-zero (suc i) = bit-zero i

-- `digits` gives the same on any two counts that reach the number.
module _ (end : ℕ → ℕ) (op : ℕ → ℕ → ℕ) where
  same_digits : (a b k l : ℕ) → a ≤ k → a ≤ l → digits end op k a b ≡ digits end op l a b
  same_digits zero b zero zero hk hl = refl
  same_digits zero b zero (suc l) hk hl = refl
  same_digits zero b (suc k) zero hk hl = refl
  same_digits zero b (suc k) (suc l) hk hl = refl
  same_digits (suc a) b zero l hk hl = absurd (omega arith)
  same_digits (suc a) b (suc k) zero hk hl = absurd (omega arith)
  same_digits (suc a) b (suc k) (suc l) hk hl =
      let high = same_digits (suc a / 2) (b / 2) k l (omega arith) (omega arith) in
      ap (λ n. n * 2 + op (suc a % 2) (b % 2)) high

  low_digit :
      (a b : ℕ)
      → bitwise end op (suc a) b ≡ bitwise end op (suc a / 2) (b / 2) * 2 + op (suc a % 2) (b % 2)
  low_digit a b =
      let high = same_digits (suc a / 2) (b / 2) a (suc a / 2) (omega arith) (omega arith) in
      ap (λ n. n * 2 + op (suc a % 2) (b % 2)) high

or_step : (a b : ℕ) → bit_or a b ≡ bit_or (a / 2) (b / 2) * 2 + max (a % 2) (b % 2)
or_step zero b = omega (arith, bit_or-bitwise 0 b, bit_or-bitwise 0 (b / 2))
or_step (suc a) b = omega (
  arith,
  bit_or-bitwise (suc a) b,
  bit_or-bitwise (suc a / 2) (b / 2),
  low_digit (λ y. y) max a b,
)

and_step : (a b : ℕ) → bit_and a b ≡ bit_and (a / 2) (b / 2) * 2 + min (a % 2) (b % 2)
and_step zero b = omega (arith, bit_and-bitwise 0 b, bit_and-bitwise 0 (b / 2))
and_step (suc a) b = omega (
  arith,
  bit_and-bitwise (suc a) b,
  bit_and-bitwise (suc a / 2) (b / 2),
  low_digit (λ y. 0) min a b,
)

-- The exclusive or of two digits is the parity of their sum.
differ-mod : (a b : ℕ) → differ (a % 2) (b % 2) ≡ (a + b) % 2
differ-mod a b = small (a % 2) (b % 2) (omega arith) (omega arith) ∙ omega arith
  where
    small : (x y : ℕ) → x < 2 → y < 2 → differ x y ≡ (x + y) % 2
    small zero y hx hy = omega arith
    small (suc zero) zero hx hy = refl
    small (suc zero) (suc zero) hx hy = refl
    small (suc zero) (suc (suc y)) hx hy = absurd (omega arith)
    small (suc (suc x)) y hx hy = absurd (omega arith)

xor_step : (a b : ℕ) → bit_xor a b ≡ bit_xor (a / 2) (b / 2) * 2 + differ (a % 2) (b % 2)
xor_step zero b = omega (arith, bit_xor-bitwise 0 b, bit_xor-bitwise 0 (b / 2))
xor_step (suc a) b = omega (
  arith,
  bit_xor-bitwise (suc a) b,
  bit_xor-bitwise (suc a / 2) (b / 2),
  low_digit (λ y. y) differ a b,
)

pub bit-or : (a b i : ℕ) → bit (bit_or a b) i ≡ (bit a i || bit b i)
unfolding bit
bit-or a b zero = ground (arith, or_step a b)
bit-or a b (suc i) = ap (λ n. bit n i) (omega (arith, or_step a b)) ∙ bit-or (a / 2) (b / 2) i

pub bit-and : (a b i : ℕ) → bit (bit_and a b) i ≡ (bit a i && bit b i)
unfolding bit
bit-and a b zero = ground (arith, and_step a b)
bit-and a b (suc i) = ap (λ n. bit n i) (omega (arith, and_step a b)) ∙ bit-and (a / 2) (b / 2) i

pub bit-xor : (a b i : ℕ) → bit (bit_xor a b) i ≡ (if bit b i then not (bit a i) else bit a i)
unfolding bit
bit-xor a b zero = ground (arith, xor_step a b, differ-mod a b)
bit-xor a b (suc i) =
    ap (λ n. bit n i) (omega (arith, xor_step a b, differ-mod a b)) ∙ bit-xor (a / 2) (b / 2) i

pub bit-pow : (k i : ℕ) → bit (2 ^ k) i ≡ (k == i)
unfolding bit
bit-pow zero zero = refl
bit-pow zero (suc i) = bit-zero i ∙ ground arith
bit-pow (suc k) zero = ground (arith, pow-suc 2 k)
bit-pow (suc k) (suc i) =
    ap (λ n. bit n i) (omega (arith, pow-suc 2 k)) ∙ bit-pow k i ∙ ground arith

-- The complement within `n` bits.
pub bit-not : (n a i : ℕ) → a < 2 ^ n → i < n → bit (2 ^ n - 1 - a) i ≡ not (bit a i)
unfolding bit
bit-not zero a i h hi = absurd (omega arith)
bit-not (suc n) a zero h hi = ground (arith, pow-suc 2 n)
bit-not (suc n) a (suc i) h hi =
    ap (λ m. bit m i) (omega (arith, pow-suc 2 n))
    ∙ bit-not n (a / 2) i (omega (arith, pow-suc 2 n)) (omega arith)

and-zero_up_to : (k a : ℕ) → a ≤ k → bit_and a 0 ≡ 0
and-zero_up_to k zero h = omega (arith, bit_and-bitwise 0 0)
and-zero_up_to zero (suc a) h = absurd (omega arith)
and-zero_up_to (suc k) (suc a) h =
    omega (arith, and_step (suc a) 0, and-zero_up_to k (suc a / 2) (omega arith))

and-zero : (a : ℕ) → bit_and a 0 ≡ 0
and-zero a = and-zero_up_to a a (omega arith)

-- A mask of one bit tests that bit.
pub and_pow : (a k : ℕ) → (bit_and a (2 ^ k) == 0) ≡ not (bit a k)
unfolding bit
and_pow a zero = ground (arith, and_step a 1, and-zero (a / 2))
and_pow a (suc k) = ground (arith, step, and_pow (a / 2) k)
  where
    halve : 2 ^ suc k / 2 ≡ 2 ^ k
    halve = omega (arith, pow-suc 2 k)

    step : bit_and a (2 ^ suc k) ≡ bit_and (a / 2) (2 ^ k) * 2
    step = omega (arith, and_step a (2 ^ suc k), pow-suc 2 k, ap (λ n. bit_and (a / 2) n) halve)

-- The operations stay within the width of their operands.
pub or-lt : (n a b : ℕ) → a < 2 ^ n → b < 2 ^ n → bit_or a b < 2 ^ n
or-lt zero zero zero ha hb = omega (arith, bit_or-bitwise 0 0)
or-lt zero (suc a) b ha hb = absurd (omega arith)
or-lt zero zero (suc b) ha hb = absurd (omega arith)
or-lt (suc n) a b ha hb = omega (
  arith,
  pow-suc 2 n,
  or_step a b,
  or-lt n (a / 2) (b / 2) (omega (arith, pow-suc 2 n)) (omega (arith, pow-suc 2 n)),
)

pub xor-lt : (n a b : ℕ) → a < 2 ^ n → b < 2 ^ n → bit_xor a b < 2 ^ n
xor-lt zero zero zero ha hb = omega (arith, bit_xor-bitwise 0 0)
xor-lt zero (suc a) b ha hb = absurd (omega arith)
xor-lt zero zero (suc b) ha hb = absurd (omega arith)
xor-lt (suc n) a b ha hb = omega (
  arith,
  pow-suc 2 n,
  xor_step a b,
  differ-mod a b,
  xor-lt n (a / 2) (b / 2) (omega (arith, pow-suc 2 n)) (omega (arith, pow-suc 2 n)),
)

pub and-lt : (n a b : ℕ) → a < 2 ^ n → b < 2 ^ n → bit_and a b < 2 ^ n
and-lt zero zero zero ha hb = omega (arith, bit_and-bitwise 0 0)
and-lt zero (suc a) b ha hb = absurd (omega arith)
and-lt zero zero (suc b) ha hb = absurd (omega arith)
and-lt (suc n) a b ha hb = omega (
  arith,
  pow-suc 2 n,
  and_step a b,
  and-lt n (a / 2) (b / 2) (omega (arith, pow-suc 2 n)) (omega (arith, pow-suc 2 n)),
)

pub and-le : (n a b : ℕ) → b ≤ n → bit_and a b ≤ b
and-le zero a zero h = omega (arith, and_step a 0, and-zero (a / 2))
and-le zero a (suc b) h = absurd (omega arith)
and-le (suc n) a b h = omega (arith, and_step a b, and-le n (a / 2) (b / 2) (omega arith))

-- Two numbers with the same highest bit share it.
pub and-ge :
    (k a b : ℕ) → 2 ^ k ≤ a → a < 2 ^ suc k → 2 ^ k ≤ b → b < 2 ^ suc k → 2 ^ k ≤ bit_and a b
and-ge zero a b ha la hb lb = omega (arith, and_step a b)
and-ge (suc k) a b ha la hb lb = omega (
  arith,
  pow-suc 2 k,
  pow-suc 2 (suc k),
  and_step a b,
  and-ge k (a / 2) (b / 2) (omega (arith, pow-suc 2 k)) (omega (arith, pow-suc 2 (suc k)))
      (omega (arith, pow-suc 2 k)) (omega (arith, pow-suc 2 (suc k))),
)

pub pow-pos : (n : ℕ) → 1 ≤ 2 ^ n
pow-pos zero = omega arith
pow-pos (suc n) = omega (arith, pow-suc 2 n, pow-pos n)

-- A power of 2 shares no bit with its predecessor.
pub and-pow_pred : (k : ℕ) → bit_and (2 ^ k) (2 ^ k - 1) ≡ 0
and-pow_pred zero = and-zero 1
and-pow_pred (suc k) =
    omega
      (arith, pow-suc 2 k, pow-pos k, and_step (2 ^ suc k) (2 ^ suc k - 1), halves, and-pow_pred k)
  where
    halves : bit_and (2 ^ suc k / 2) ((2 ^ suc k - 1) / 2) ≡ bit_and (2 ^ k) (2 ^ k - 1)
    halves =
        ap (λ n. bit_and n ((2 ^ suc k - 1) / 2)) (omega (arith, pow-suc 2 k))
        ∙ ap (λ n. bit_and (2 ^ k) n) (omega (arith, pow-suc 2 k, pow-pos k))
