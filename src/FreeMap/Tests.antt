-- ===== src/FreeMap/Tests.antt =====
-- The free map theorems on a disk of 40 sectors.
use spring_os.Prelude.{ℕ, zero, suc, ◌^◌, ◌<◌, ◌≡◌, refl, true, false, some, [], ◌∷◌, arith, get_or}
use spring_os.Prelude.Outcome.{done, panic, fault, Returns}
use spring_os.Bitmap.{Bitmap}
use spring_os.Bitmap.Bit.{IsValid}
use spring_os.FreeMap.{free_map_init, free_map_allocate, free_map_release}
use spring_os.FreeMap.Sectors.{
  SameBits, Allocated, Released, free_map_allocate-Allocated, free_map_release-Released,
}
use spring_os.FreeMap.Cycle.{
  Fresh, Group, free_map_init-Fresh, allocate_release, allocate_release-SameBits,
}

-- The two reserved sectors are in use, and sector 4.
abbrev map : Bitmap
map = record { bit_cnt = 40; bits = 19 ∷ 0 ∷ [] }

two_words : (v w i : ℕ) → v < 2 ^ 32 → w < 2 ^ 32 → get_or (v ∷ w ∷ []) i 0 < 2 ^ 32
two_words v w zero hv hw = hv
two_words v w (suc zero) hv hw = hw
two_words v w (suc (suc i)) hv hw = omega arith

two_words-IsValid :
    (v w : ℕ) → v < 2 ^ 32 → w < 2 ^ 32 → IsValid (record { bit_cnt = 40; bits = v ∷ w ∷ [] })
two_words-IsValid v w hv hw = record {
  small = omega arith;
  enough = refl;
  words = λ i. two_words v w i hv hw;
}

allocate_three :
    free_map_allocate true true map 3 ≡ done (some 5, record { bit_cnt = 40; bits = 243 ∷ 0 ∷ [] })
unfolding free_map_allocate
allocate_three = refl

release_free : free_map_release true map 4 2 ≡ panic
unfolding free_map_release
release_free = refl

release_early : free_map_release false map 4 1 ≡ fault
unfolding free_map_release
release_early = refl

free_map_init-Fresh_example : Returns (Fresh 40) (free_map_init 40 (some (7 ∷ 8 ∷ [])))
free_map_init-Fresh_example =
    free_map_init-Fresh 40 (7 ∷ 8 ∷ []) (two_words-IsValid 7 8 (omega arith) (omega arith))
      (omega arith)

free_map_allocate-Allocated_example :
    Returns (λ (r, b'). Allocated true true map 3 r b') (free_map_allocate true true map 3)
free_map_allocate-Allocated_example =
    free_map_allocate-Allocated map (two_words-IsValid 19 0 (omega arith) (omega arith)) 3 true true

free_map_release-Released_example :
    Released map
      (two_words-IsValid 19 0 (omega arith) (omega arith))
      1
      true
      4
      (free_map_release true map 4 1)
free_map_release-Released_example =
    free_map_release-Released map (two_words-IsValid 19 0 (omega arith) (omega arith)) 1 true 4
      (omega arith)

allocate_release-SameBits_example :
    Returns (λ (r, b'). Group true map 3 r × SameBits map b') (allocate_release true map 3)
allocate_release-SameBits_example =
    allocate_release-SameBits true map 3 (two_words-IsValid 19 0 (omega arith) (omega arith))
