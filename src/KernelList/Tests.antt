-- ===== src/KernelList/Tests.antt =====
-- Runs of the list routines on numbers.
use spring_os.Prelude.{refl, [], ◌∷◌, arith, ltb}
use spring_os.KernelList.{list_insert_ordered}
use spring_os.KernelList.Sort.{list_sort}
use spring_os.KernelList.Sort.Passes.{list_sort-Sorted}
use mathlib.Core.List.{Perm}
use spring_os.Prelude.Outcome.{Returns}
use spring_os.KernelList.Ordered.{StrictWeak, Ordered, Inserted, list_insert_ordered-Inserted}

ltb-StrictWeak : StrictWeak ltb
ltb-StrictWeak = record { asym = λ a b h. ground arith; ties = λ a b c h h'. ground arith }

list_insert_ordered-Inserted_example :
    Inserted ltb 3 (1 ∷ (3 ∷ (5 ∷ []))) (list_insert_ordered ltb 3 (1 ∷ (3 ∷ (5 ∷ []))))
list_insert_ordered-Inserted_example =
    list_insert_ordered-Inserted ltb ltb-StrictWeak 3 (1 ∷ (3 ∷ (5 ∷ [])))
      ((refl, (refl, tt)), ((refl, tt), (tt, tt)))

list_sort-Sorted_example :
    Returns
      (λ ys. Ordered ltb ys × Perm ys (5 ∷ (3 ∷ (4 ∷ (1 ∷ [])))))
      (list_sort ltb (5 ∷ (3 ∷ (4 ∷ (1 ∷ [])))))
list_sort-Sorted_example = list_sort-Sorted ltb ltb-StrictWeak (5 ∷ (3 ∷ (4 ∷ (1 ∷ []))))
