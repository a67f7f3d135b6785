-- ===== src/HashTable/Power.antt =====
-- The number of buckets is the largest power of 2 that is not above half the elements, or 4.
use spring_os.Prelude.{
  ℕ, zero, suc, ◌-◌, ◌/◌, ◌^◌, max, ◌≤◌, ◌<◌, ◌≡◌, ◌∙◌, ap, Bool, true, false, ltb, if◌then◌else◌,
  Bool-cases, inl, inr, arith, ◌==◌, ==→eq, ==→ne, ltb→ge,
}
use native.Mathlib.Nat.{pow-suc}
use spring_os.Prelude.Bits.{and-le, and-ge, and-pow_pred, pow-pos}
use spring_os.HashTable.{turn_off_least_1bit, is_power_of_2, round_down, new_bucket_cnt, bucket_idx}

turn_off-lt : (x : ℕ) → 1 ≤ x → turn_off_least_1bit x < x
unfolding turn_off_least_1bit
turn_off-lt x h = omega (arith, and-le (x - 1) x (x - 1) (omega arith))

round_down_stop : (n x : ℕ) → is_power_of_2 x ≡ true → round_down (suc n) x ≡ x
unfolding round_down
round_down_stop n x h =
    ap (λ b. elim b as (λ _. ℕ) [ true ↦ x | false ↦ round_down n (turn_off_least_1bit x) ]) h

round_down_step :
    (n x : ℕ)
    → is_power_of_2 x ≡ false
    → round_down (suc n) x ≡ round_down n (turn_off_least_1bit x)
unfolding round_down
round_down_step n x h =
    ap (λ b. elim b as (λ _. ℕ) [ true ↦ x | false ↦ round_down n (turn_off_least_1bit x) ]) h

-- Every positive number lies between a power of 2 and the next one.
log : (n x : ℕ) → 1 ≤ x → x ≤ n → (k : ℕ) × (2 ^ k ≤ x) × (x < 2 ^ suc k)
log zero x h le = absurd (omega arith)
log (suc n) x h le = elim (Bool-cases (ltb x 2)) [
  | inl one ↦ (0, ground (arith, one), ground (arith, one))
  | inr more ↦
      let (k, lo, hi) = log n (x / 2) (ground (arith, more)) (omega (arith, ltb→ge x 2 more)) in
      (suc k, omega (arith, pow-suc 2 k), omega (arith, pow-suc 2 (suc k)))
]

turn_off_none : (x : ℕ) → is_power_of_2 x ≡ true → turn_off_least_1bit x ≡ 0
unfolding is_power_of_2
turn_off_none x h = ground arith

-- The test of the loop, and its step, between a power of 2 and the next one.
module _ (k : ℕ) where
  is_power_of_2-pow : is_power_of_2 (2 ^ k) ≡ true
  unfolding is_power_of_2 turn_off_least_1bit
  is_power_of_2-pow = ground (arith, and-pow_pred k, pow-pos k)

  turn_off-ge : (x : ℕ) → 2 ^ k < x → x < 2 ^ suc k → 2 ^ k ≤ turn_off_least_1bit x
  unfolding turn_off_least_1bit
  turn_off-ge x lo hi = and-ge k x (x - 1) (omega arith) hi (omega arith) (omega arith)

  round_down-pow : (n x : ℕ) → x ≤ n → 2 ^ k ≤ x → x < 2 ^ suc k → round_down n x ≡ 2 ^ k
  round_down-pow zero x le lo hi = absurd (omega (arith, pow-pos k))
  round_down-pow (suc n) x le lo hi = elim (Bool-cases (x == 2 ^ k)) [
    | inl there ↦
        let is : x ≡ 2 ^ k = ==→eq x (2 ^ k) there in
        round_down_stop n x (ap is_power_of_2 is ∙ is_power_of_2-pow) ∙ is
    | inr above ↦
        let more : 2 ^ k < x = omega (arith, ==→ne x (2 ^ k) above) in
        let less = turn_off-lt x (omega arith) in
        let left = turn_off-ge x more hi in
        elim (Bool-cases (is_power_of_2 x)) [
          | inl power ↦ absurd (omega (arith, turn_off_none x power, left, pow-pos k))
          | inr no_power ↦
              round_down_step n x no_power
              ∙ round_down-pow n (turn_off_least_1bit x) (omega (arith, less)) left
                  (omega (arith, less))
        ]
  ]

-- For any number of elements, the loop of rehash ends with a number of buckets that is 2^k for
-- some k of at least 2, and 2^k is the largest power of 2 that is not above half the number of
-- elements, or above 4 where the half is less.
pub new_bucket_cnt_power :
    (elem_cnt : ℕ)
    → (k : ℕ) × (new_bucket_cnt elem_cnt ≡ 2 ^ k)
      × (2 ≤ k)
      × (2 ^ k ≤ max 4 (elem_cnt / 2))
      × (max 4 (elem_cnt / 2) < 2 ^ suc k)
unfolding new_bucket_cnt
new_bucket_cnt_power elem_cnt =
    let start : ℕ = if ltb (elem_cnt / 2) 4 then 4 else elem_cnt / 2 in
    let is : start ≡ max 4 (elem_cnt / 2) = ground arith in
    let (k, lo, hi) = log start start (ground arith) (omega arith) in
    (
      k,
      round_down-pow k start start (omega arith) lo hi,
      at_least k (omega (arith, is)),
      omega (arith, is),
      omega (arith, is),
    )
  where
    at_least : (k : ℕ) → 4 < 2 ^ suc k → 2 ≤ k
    at_least zero h = absurd (omega arith)
    at_least (suc zero) h = absurd (omega arith)
    at_least (suc (suc k)) h = omega arith

pub new_bucket_cnt-pow : (elem_cnt : ℕ) → (k : ℕ) × (new_bucket_cnt elem_cnt ≡ 2 ^ k)
new_bucket_cnt-pow elem_cnt = let r = new_bucket_cnt_power elem_cnt in (r.0, r.1)

pub new_bucket_cnt-pos : (elem_cnt : ℕ) → 1 ≤ new_bucket_cnt elem_cnt
new_bucket_cnt-pos elem_cnt =
    let (k, is) = new_bucket_cnt-pow elem_cnt in omega (arith, is, pow-pos k)

-- An index of a bucket lies within the buckets.
pub bucket_idx-lt {ℓ} :
    {A : Type ℓ} (hash : A → ℕ) (less : A → A → Bool) (n : ℕ) (e : A)
    → 1 ≤ n
    → bucket_idx hash less n e < n
unfolding bucket_idx
bucket_idx-lt hash less n e h = omega (arith, and-le (n - 1) (hash e) (n - 1) (omega arith))
