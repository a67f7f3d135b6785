-- ===== src/Bitmap/Tests.antt =====
-- The bitmap theorems at a bitmap of 40 bits.
use spring_os.Prelude.{ℕ, zero, suc, ◌^◌, ◌<◌, ◌≡◌, refl, true, false, [], ◌∷◌, arith, get_or}
use spring_os.Prelude.Outcome.{done, Returns}
use spring_os.Bitmap.{Bitmap, bitmap_count, bitmap_scan, bitmap_scan_and_flip}
use spring_os.Bitmap.Bit.{IsValid, bit_at}
use spring_os.Bitmap.Scan.{Scan, Taken, bitmap_scan-Scan, bitmap_scan_and_flip-Taken}

-- Bits 0, 1 and 33 are set.
abbrev map : Bitmap
map = record { bit_cnt = 40; bits = 3 ∷ 2 ∷ [] }

two_words : (v w i : ℕ) → v < 2 ^ 32 → w < 2 ^ 32 → get_or (v ∷ w ∷ []) i 0 < 2 ^ 32
two_words v w zero hv hw = hv
two_words v w (suc zero) hv hw = hw
two_words v w (suc (suc i)) hv hw = omega arith

map-IsValid : IsValid map
map-IsValid = record {
  small = omega arith;
  enough = refl;
  words = λ i. two_words 3 2 i (omega arith) (omega arith);
}

scan_map : bitmap_scan map 0 32 false ≡ done 4294967295
unfolding bitmap_scan
scan_map = refl

scan_two : bitmap_scan map 0 31 false ≡ done 2
unfolding bitmap_scan
scan_two = refl

count_map : bitmap_count map 0 40 true ≡ done 3
unfolding bitmap_count
count_map = refl

bitmap_scan-Scan_example : Returns (Scan (bit_at map) 1 40 7 false) (bitmap_scan map 1 7 false)
bitmap_scan-Scan_example = bitmap_scan-Scan map 7 false map-IsValid 1 (omega arith)

bitmap_scan_and_flip-Taken_example :
    Returns (λ (r, b'). Taken map 7 false map-IsValid 1 r b') (bitmap_scan_and_flip map 1 7 false)
bitmap_scan_and_flip-Taken_example =
    bitmap_scan_and_flip-Taken map 7 false map-IsValid 1 (omega arith)
