-- ===== src/HashTable.antt =====
-- pintos/src/lib/kernel/hash.c: a hash table with chaining, whose number of buckets follows the
-- number of elements. A bucket is the sequence of its elements.
pub mod Buckets
pub mod Power
pub mod Resize
pub mod Operations
pub mod Script
pub mod Iterate
mod Tests
use Prim.Native.Nat.{bit_and, bit_xor}
use spring_os.Prelude.{
  ℕ, zero, suc, ◌+◌, ◌-◌, ◌*◌, ◌/◌, ◌%◌, ◌^◌, Bool, true, false, not, ◌&&◌, Option, none, some,
  List, [], ◌∷◌, ◌++◌, ltb, leb, ◌==◌, if◌then◌else◌, get_or, set, length, replicate,
}

-- `struct hash`, without the two functions and their auxiliary data, which are parameters.
pub record Hash {ℓ} (A : Type ℓ) : Type ℓ where
  pub elem_cnt : ℕ
  pub bucket_cnt : ℕ
  pub buckets : List (List A)

-- `turn_off_least_1bit` and `is_power_of_2`.
unfoldable pub turn_off_least_1bit : ℕ → ℕ
turn_off_least_1bit x = bit_and x (x - 1)

unfoldable pub is_power_of_2 : ℕ → Bool
unfolding turn_off_least_1bit
is_power_of_2 x = not (x == 0) && (turn_off_least_1bit x == 0)

-- The loop of `rehash` that rounds down to a power of 2, for at most `n` rounds.
unfoldable pub round_down : ℕ → ℕ → ℕ
unfolding is_power_of_2
round_down zero x = x
round_down (suc n) x = elim (is_power_of_2 x) [
  | true ↦ x
  | false ↦ round_down n (turn_off_least_1bit x)
]

-- The number of buckets for a number of elements.
unfoldable pub new_bucket_cnt : ℕ → ℕ
unfolding round_down
new_bucket_cnt elem_cnt =
    let best = elem_cnt / 2 in let start = if ltb best 4 then 4 else best in round_down start start

-- `hash_bytes` and `hash_string`, on the bytes and on the string without its terminator.
unfoldable pub hash_bytes : List ℕ → ℕ
hash_bytes buf = fold 2166136261 buf
  where
    fold : ℕ → List ℕ → ℕ
    fold hash [] = hash
    fold hash (b ∷ bs) = fold (bit_xor (hash * 16777619 % 2 ^ 32) b) bs

module _ {ℓ} {A : Type ℓ} (hash : A → ℕ) (less : A → A → Bool) where
  -- The test of `find_elem`.
  abbrev pub alike : A → A → Bool
  alike hi e = not (less hi e) && not (less e hi)

  -- The index of `find_bucket`.
  unfoldable pub bucket_idx : ℕ → A → ℕ
  bucket_idx bucket_cnt e = bit_and (hash e) (bucket_cnt - 1)

  abbrev pub find_bucket : Hash A → A → List A
  find_bucket h e = get_or h.buckets (bucket_idx h.bucket_cnt e) []

  unfoldable pub find_elem : List A → A → Option A
  find_elem [] e = none
  find_elem (hi ∷ rest) e = if alike hi e then some hi else find_elem rest e

  -- `list_push_front` to the bucket of `e`.
  abbrev pub push_to : ℕ → List (List A) → A → List (List A)
  push_to bucket_cnt buckets e =
      set buckets (bucket_idx bucket_cnt e) (e ∷ get_or buckets (bucket_idx bucket_cnt e) [])

  abbrev pub insert_elem : Hash A → A → Hash A
  insert_elem h e = record h {
    elem_cnt = (h.elem_cnt + 1) % 2 ^ 32;
    buckets = push_to h.bucket_cnt h.buckets e;
  }

  -- The element that `find_elem` finds is unlinked from the bucket.
  unfoldable pub unlink : List A → A → List A
  unlink [] e = []
  unlink (hi ∷ rest) e = if alike hi e then rest else hi ∷ unlink rest e

  abbrev pub remove_elem : Hash A → A → Hash A
  remove_elem h e = record h {
    elem_cnt = (h.elem_cnt + (2 ^ 32 - 1)) % 2 ^ 32;
    buckets = set h.buckets (bucket_idx h.bucket_cnt e) (unlink (find_bucket h e) e);
  }

  -- The loops of `rehash` over the old buckets: each element moves to its new bucket.
  unfoldable pub move_bucket : ℕ → List A → List (List A) → List (List A)
  move_bucket bucket_cnt [] buckets = buckets
  move_bucket bucket_cnt (e ∷ es) buckets = move_bucket bucket_cnt es (push_to bucket_cnt buckets e)

  unfoldable pub move_buckets : ℕ → List (List A) → List (List A) → List (List A)
  unfolding move_bucket
  move_buckets bucket_cnt [] buckets = buckets
  move_buckets bucket_cnt (old ∷ olds) buckets =
      move_buckets bucket_cnt olds (move_bucket bucket_cnt old buckets)

  -- `malloc` says whether there is memory for the new buckets.
  unfoldable pub rehash : Bool → Hash A → Hash A
  unfolding new_bucket_cnt move_buckets
  rehash malloc h =
      let bucket_cnt = new_bucket_cnt h.elem_cnt in
      if bucket_cnt == h.bucket_cnt
      then h
      else (if malloc
          then record h {
            bucket_cnt = bucket_cnt;
            buckets = move_buckets bucket_cnt h.buckets (replicate bucket_cnt []);
          }
          else h)

  unfoldable pub hash_init : Bool → Option (Hash A)
  hash_init malloc =
      if malloc
      then some (record { elem_cnt = 0; bucket_cnt = 4; buckets = replicate 4 [] })
      else none

  unfoldable pub hash_find : Hash A → A → Option A
  unfolding find_elem
  hash_find h e = find_elem (find_bucket h e) e

  unfoldable pub hash_insert : Bool → Hash A → A → Option A × Hash A
  unfolding find_elem rehash
  hash_insert malloc h new =
      let old = find_elem (find_bucket h new) new in
      (old, rehash malloc (elim old [ none ↦ insert_elem h new | some _ ↦ h ]))

  unfoldable pub hash_replace : Bool → Hash A → A → Option A × Hash A
  unfolding find_elem rehash unlink
  hash_replace malloc h new =
      let old = find_elem (find_bucket h new) new in
      (old, rehash malloc (insert_elem (elim old [ none ↦ h | some _ ↦ remove_elem h new ]) new))

  unfoldable pub hash_delete : Bool → Hash A → A → Option A × Hash A
  unfolding find_elem rehash unlink
  hash_delete malloc h e =
      let found = find_elem (find_bucket h e) e in
      (found, elim found [ none ↦ h | some _ ↦ rehash malloc (remove_elem h e) ])

-- The elements in the order of `hash_apply`.
abbrev pub elements {ℓ} : {A : Type ℓ} → List (List A) → List A
elements [] = []
elements (bucket ∷ buckets) = bucket ++ elements buckets

-- `hash_clear`: the elements that `destructor` is called for, in its order, and the table.
unfoldable pub hash_clear {ℓ} : {A : Type ℓ} → Hash A → List A × Hash A
hash_clear h = (elements h.buckets, record h { elem_cnt = 0; buckets = replicate h.bucket_cnt [] })

-- The loops of `hash_apply`, with an action that changes a state.
unfoldable pub apply_bucket {ℓ κ} : {A : Type ℓ} {S : Type κ} → (A → S → S) → List A → S → S
apply_bucket action [] s = s
apply_bucket action (e ∷ es) s = apply_bucket action es (action e s)

unfoldable pub apply_buckets {ℓ κ} : {A : Type ℓ} {S : Type κ} → (A → S → S) → List (List A) → S → S
unfolding apply_bucket
apply_buckets action [] s = s
apply_buckets action (bucket ∷ buckets) s =
    apply_buckets action buckets (apply_bucket action bucket s)

unfoldable pub hash_apply {ℓ κ} : {A : Type ℓ} {S : Type κ} → Hash A → (A → S → S) → S → S
unfolding apply_buckets
hash_apply h action s = apply_buckets action h.buckets s

abbrev pub hash_size {ℓ} : {A : Type ℓ} → Hash A → ℕ
hash_size h = h.elem_cnt

abbrev pub hash_empty {ℓ} : {A : Type ℓ} → Hash A → Bool
hash_empty h = h.elem_cnt == 0
