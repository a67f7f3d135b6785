-- ===== src/HashTable/Tests.antt =====
-- Runs of the hash table on numbers, each its own key.
use spring_os.Prelude.{
  ℕ, suc, ◌+◌, ◌/◌, ◌^◌, ◌≤◌, ◌<◌, ◌≡◌, max, refl, true, false, none, some, List, [], ◌∷◌, arith,
  ltb, replicate,
}
use spring_os.HashTable.{Hash, hash_init, hash_apply, new_bucket_cnt}
use spring_os.HashTable.Power.{new_bucket_cnt_power}
use spring_os.HashTable.Buckets.{Keyed}
use spring_os.HashTable.Operations.{Models}
use spring_os.HashTable.Script.{
  Call, insert, replace, delete, find, clear, play, on_table, on_map, session-map,
}
use spring_os.HashTable.Iterate.{hash_first, iterate, iterate-hash_apply}

-- A number has itself as hash value.
abbrev own : ℕ → ℕ
own n = n

own-Keyed : Keyed own ltb
own-Keyed = record {
  order = record { asym = λ a b h. ground arith; ties = λ a b c h h'. ground arith };
  congruent = λ a b h. ground arith;
}

abbrev fresh : Hash ℕ
fresh = record { elem_cnt = 0; bucket_cnt = 4; buckets = replicate 4 [] }

abbrev calls : List (Call ℕ)
calls =
    insert true 3 ∷ (insert true 7 ∷ (replace false 3 ∷ (find 7 ∷ (delete true 3 ∷ (clear ∷ [])))))

session-map_example :
    ((play (on_table own ltb) calls fresh).0
      ≡ (play (on_map own ltb own-Keyed) calls (λ _. none)).0)
    × Models own ltb own-Keyed 0
        (play (on_map own ltb own-Keyed) calls (λ _. none)).1
        (play (on_table own ltb) calls fresh).1
unfolding hash_init
session-map_example = session-map own ltb own-Keyed fresh calls refl (omega arith)

abbrev three : Hash ℕ
three = record {
  elem_cnt = 3;
  bucket_cnt = 4;
  buckets = (4 ∷ (8 ∷ [])) ∷ ([] ∷ ([] ∷ ((3 ∷ []) ∷ [])));
}

iterate-hash_apply_example :
    iterate three 4 (λ e s. s + e) hash_first 0 ≡ some (hash_apply three (λ e s. s + e) 0)
iterate-hash_apply_example =
    iterate-hash_apply three (λ e s. s + e) 4 0 refl (omega arith) (omega arith)

new_bucket_cnt_power_example :
    (k : ℕ) × (new_bucket_cnt 23 ≡ 2 ^ k)
    × (2 ≤ k)
    × (2 ^ k ≤ max 4 (23 / 2))
    × (max 4 (23 / 2) < 2 ^ suc k)
new_bucket_cnt_power_example = new_bucket_cnt_power 23
