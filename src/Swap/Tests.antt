-- ===== src/Swap/Tests.antt =====
-- The swap theorems on a disk of 32 sectors, which holds four pages.
use spring_os.Prelude.{ℕ, zero, suc, ◌^◌, ◌<◌, ◌≡◌, refl, false, [], ◌∷◌, arith, get_or, replicate}
use spring_os.Prelude.Outcome.{Outcome, done, Returns}
use spring_os.Disk.{Disk}
use spring_os.Bitmap.Bit.{bit_at, Changed}
use spring_os.Swap.{Page, Swap, swap_out, swap_in}
use spring_os.Swap.Slots.{InPlace, slot, SwappedOut, swap_out-SwappedOut, swap_in-slot}
use spring_os.Swap.RoundTrip.{swap_outs, swap_in-swap_out}

abbrev swap_disk : Disk
swap_disk = record { capacity = 32; content = λ t. t ∷ [] }

-- Slot 1 is in use.
abbrev swap : Swap
swap = record { swap_table = record { bit_cnt = 4; bits = 2 ∷ [] }; swap_disk = swap_disk }

swap-InPlace : InPlace swap
swap-InPlace = record {
  table = record { small = omega arith; enough = refl; words = one_word };
  slots = refl;
  small = omega arith;
}
  where
    one_word : (i : ℕ) → get_or (2 ∷ []) i 0 < 2 ^ 32
    one_word zero = omega arith
    one_word (suc i) = omega arith

abbrev page : Page
page = replicate 8 (50 ∷ [])

abbrev other : Page
other = replicate 8 (60 ∷ [])

state_of : Outcome (ℕ × Swap) → Swap
state_of (done (i, s)) = s
state_of _ = swap

final_of : Outcome Swap → Swap
final_of (done s) = s
final_of _ = swap

-- After `page` has gone to slot 0, and `other` twice to slots 2 and 3.
one_out : Swap
unfolding state_of swap_out
one_out = state_of (swap_out swap page)

all_out : Swap
unfolding one_out final_of swap_outs
all_out = final_of (swap_outs one_out (other ∷ other ∷ []))

swap_in-slot_example :
    Returns
      (λ (p, s').
        (p ≡ slot swap 1)
        × (s'.swap_disk ≡ swap_disk)
        × Changed swap.swap_table 1 false s'.swap_table)
      (swap_in swap 1)
swap_in-slot_example = swap_in-slot swap swap-InPlace 1 (omega arith)

swap_out-SwappedOut_example : SwappedOut swap swap-InPlace page (swap_out swap page)
swap_out-SwappedOut_example = swap_out-SwappedOut swap swap-InPlace page refl

page_went : swap_out swap page ≡ done (0, one_out)
unfolding one_out
page_went = refl

others_went : swap_outs one_out (other ∷ other ∷ []) ≡ done all_out
unfolding all_out
others_went = refl

swap_in-swap_out_example :
    Returns (λ (p, s3). (p ≡ page) × (bit_at s3.swap_table 0 ≡ false)) (swap_in all_out 0)
swap_in-swap_out_example =
    swap_in-swap_out swap page (other ∷ other ∷ []) swap-InPlace refl (refl, (refl, tt)) page_went
      others_went
