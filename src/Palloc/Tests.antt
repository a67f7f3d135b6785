-- ===== src/Palloc/Tests.antt =====
-- The page allocator with pools of 40 pages.
use spring_os.Prelude.{ℕ, zero, suc, ◌^◌, ◌<◌, ◌≤◌, refl, true, false, [], ◌∷◌, arith, get_or}
use spring_os.Bitmap.{Bitmap}
use spring_os.Bitmap.Bit.{IsValid}
use spring_os.Palloc.{Memory, Flags, palloc_get_multiple}
use spring_os.Prelude.Outcome.{Returns}
use spring_os.Palloc.Pages.{PoolAt, Got, palloc_get_multiple-Got}
use spring_os.Palloc.Cycle.{Pools, Restored, get_and_free, get_and_free-Restored}

-- Pages 0, 1 and 4 are in use.
abbrev some_used : Bitmap
some_used = record { bit_cnt = 40; bits = 19 ∷ 0 ∷ [] }

some_used-IsValid : IsValid some_used
some_used-IsValid = record { small = omega arith; enough = refl; words = small_word }
  where
    small_word : (i : ℕ) → get_or (19 ∷ 0 ∷ []) i 0 < 2 ^ 32
    small_word zero = omega arith
    small_word (suc zero) = omega arith
    small_word (suc (suc i)) = omega arith

abbrev memory : Memory
memory = record {
  kernel_pool = record { used_map = some_used; base = 1048576 };
  user_pool = record { used_map = some_used; base = 2097152 };
  bytes = λ a. 7;
}

abbrev zeroed_pages : Flags
zeroed_pages = record { pal_assert = false; pal_zero = true; pal_user = true }

memory-PoolAt : PoolAt 512 (memory.user_pool)
memory-PoolAt = record {
  valid = some_used-IsValid;
  aligned = refl;
  above = omega arith;
  fits = omega arith;
}

palloc_get_multiple-Got_example :
    Got zeroed_pages 3 512 memory (palloc_get_multiple zeroed_pages 3 memory)
palloc_get_multiple-Got_example = palloc_get_multiple-Got zeroed_pages 3 512 memory memory-PoolAt

memory-Pools : Pools 256 512 memory
memory-Pools = record {
  kernel = record {
    valid = some_used-IsValid;
    aligned = refl;
    above = omega arith;
    fits = omega arith;
  };
  user = memory-PoolAt;
  apart = omega arith;
}

get_and_free-Restored_example : Returns (Restored memory) (get_and_free zeroed_pages 3 memory)
get_and_free-Restored_example =
    get_and_free-Restored zeroed_pages 3 256 512 memory memory-Pools refl some_pages
  where
    some_pages : 1 ≤ 3
    some_pages = omega arith
