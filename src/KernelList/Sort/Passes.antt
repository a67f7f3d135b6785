-- ===== src/KernelList/Sort/Passes.antt =====
-- The passes of `list_sort`: each leaves fewer runs, until one is left.
use mathlib.Core.List.{Perm, append_assoc}
use mathlib.Core.List.Perm
use spring_os.Prelude.{
  ℕ, zero, suc, ◌+◌, ◌*◌, ◌≤◌, ◌<◌, ◌≡◌, refl, sym, ap, subst, ◌∙◌, Bool, true, false, List, [],
  ◌∷◌, ◌++◌, ltb, if◌then◌else◌, Bool-cases, inl, inr, arith, length,
}
use spring_os.Prelude.Outcome.{Outcome, done, panic, Returns, Returns-bind, Returns-mono, ◌>>=◌}
use spring_os.KernelList.Ordered.{StrictWeak, Ordered}
use spring_os.KernelList.Sort.{
  sorted_from, is_sorted, end_of_run, merge_loop, inplace_merge, sort_pass, sort_loop, list_sort,
}
use spring_os.KernelList.Sort.Merge.{merge_loop-Perm, merge_loop-is_sorted, is_sorted-Ordered}
use spring_os.KernelList.Sort.Runs.{
  runs, runs-le-length, runs-append, runs-is_sorted, is_sorted-runs, FirstRun, end_of_run-FirstRun,
}

module _ {ℓ} {A : Type ℓ} (less : A → A → Bool) (order : StrictWeak less) where
  -- After a pass over `xs`.
  record Pass (xs : List A) (output_run_cnt : ℕ) (ys : List A) : Type ℓ where
    same : Perm ys xs
    counted : runs less ys ≤ output_run_cnt
    halved : 2 * output_run_cnt ≤ runs less xs + 1

  merge_runs :
      (a b : A) (ls rs : List A)
      → sorted_from less a ls ≡ true
      → sorted_from less b rs ≡ true
      → inplace_merge less (a ∷ ls) (b ∷ rs) ≡ done (merge_loop less (a ∷ ls) (b ∷ rs))
  unfolding inplace_merge
  merge_runs a b ls rs ha hb = rw (ha, hb) refl

  -- Two runs merged, in front of what the rest of the pass leaves.
  Pass-step :
      (a0 b : A) (ls first rest second b1 : List A) (cnt : ℕ) (others : List A)
      → FirstRun less a0 ls first (b ∷ rest)
      → FirstRun less b rest second b1
      → Pass b1 cnt others
      → Pass (a0 ∷ ls) (cnt + 1) (merge_loop less (a0 ∷ first) (b ∷ second) ++ others)
  Pass-step a0 b ls first rest second b1 cnt others r s p =
      let merged = merge_loop less (a0 ∷ first) (b ∷ second) in
      record {
        same =
            subst (Perm (merged ++ others)) (sym all_of)
              (Perm.append (merge_loop-Perm less order (a0 ∷ first) (b ∷ second)) p.same);
        counted = omega (
          arith,
          runs-append less merged others,
          p.counted,
          runs-is_sorted less merged
              (merge_loop-is_sorted less order a0 b first second r.ascends s.ascends),
        );
        halved = omega (arith, p.halved, r.one_less, s.one_less);
      }
    where
      all_of : a0 ∷ ls ≡ ((a0 ∷ first) ++ (b ∷ second)) ++ b1
      all_of =
          ap (λ l. a0 ∷ l)
            (r.split
              ∙ ap (λ l. first ++ (b ∷ l)) s.split
              ∙ sym (append_assoc first (b ∷ second) b1))

  sort_pass-Pass :
      (n : ℕ) (xs : List A)
      → length xs ≤ n
      → Returns (λ (cnt, ys). Pass xs cnt ys) (sort_pass less n xs)
  unfolding sort_pass
  sort_pass-Pass n [] h = record {
    same = Perm.refl [];
    counted = omega arith;
    halved = omega arith;
  }
  sort_pass-Pass zero (a0 ∷ ls) h = absurd (omega arith)
  sort_pass-Pass (suc n) (a0 ∷ ls) h =
      round (end_of_run less a0 ls).0 (end_of_run less a0 ls).1 (end_of_run-FirstRun less a0 ls)
        (sort_pass-Pass n)
    where
      round :
          (first a1b0 : List A)
          → FirstRun less a0 ls first a1b0
          → ((ys : List A)
              → length ys ≤ n
              → Returns (λ (cnt, zs). Pass ys cnt zs) (sort_pass less n ys))
          → Returns
              (λ (cnt, ys). Pass (a0 ∷ ls) cnt ys)
              (elim a1b0 as (λ _. Outcome (ℕ × List A)) [
                | [] ↦ done (1, a0 ∷ ls)
                | b ∷ rest ↦
                    inplace_merge less (a0 ∷ first) (b ∷ (end_of_run less b rest).0) >>= λ merged.
                    sort_pass less n (end_of_run less b rest).1 >>= λ (output_run_cnt, others).
                    done (output_run_cnt + 1, merged ++ others)
              ])
      round first [] r rec = record {
        same = Perm.refl (a0 ∷ ls);
        counted = omega (arith, r.one_less);
        halved = omega arith;
      }
      round first (b ∷ rest) r rec = merged_round first b rest r (end_of_run-FirstRun less b rest) (
          rec (end_of_run less b rest).1
            (omega (arith, r.shorter, (end_of_run-FirstRun less b rest).shorter)))
        where
          merged_round :
              (first : List A) (b : A) (rest : List A)
              → FirstRun less a0 ls first (b ∷ rest)
              → FirstRun less b rest (end_of_run less b rest).0 (end_of_run less b rest).1
              → Returns
                  (λ (cnt, zs). Pass (end_of_run less b rest).1 cnt zs)
                  (sort_pass less n (end_of_run less b rest).1)
              → Returns
                  (λ (cnt, ys). Pass (a0 ∷ ls) cnt ys)
                  (inplace_merge less (a0 ∷ first) (b ∷ (end_of_run less b rest).0) >>= λ merged.
                    sort_pass less n (end_of_run less b rest).1 >>= λ (output_run_cnt, others).
                    done (output_run_cnt + 1, merged ++ others))
          merged_round first b rest r s others_pass =
              rw (merge_runs a0 b first (end_of_run less b rest).0 r.ascends s.ascends) (
                Returns-bind _ _ (sort_pass less n (end_of_run less b rest).1) _ others_pass
                  λ (cnt, others) p.
                    Pass-step a0 b ls first rest (end_of_run less b rest).0
                      (end_of_run less b rest).1 cnt others r s p)

  sort_loop-Sorted :
      (n : ℕ) (xs : List A)
      → runs less xs < n
      → Returns (λ ys. Ordered less ys × Perm ys xs) (sort_loop less n xs)
  unfolding sort_loop
  sort_loop-Sorted zero xs h = absurd (omega arith)
  sort_loop-Sorted (suc n) xs h =
      Returns-bind _ _ (sort_pass less (length xs) xs) _
        (sort_pass-Pass (length xs) xs (omega arith))
        λ (cnt, ys) p. next cnt ys p (sort_loop-Sorted n ys)
    where
      next :
          (cnt : ℕ) (ys : List A)
          → Pass xs cnt ys
          → (runs less ys < n → Returns (λ zs. Ordered less zs × Perm zs ys) (sort_loop less n ys))
          → Returns
              (λ zs. Ordered less zs × Perm zs xs)
              (elim (ltb 1 cnt) as (λ _. Outcome (List A)) [
                | true ↦ sort_loop less n ys
                | false ↦ if is_sorted less ys then done ys else panic
              ])
      next cnt ys p rec = elim (Bool-cases (ltb 1 cnt)) [
        | inl more ↦ rw more (
            Returns-mono _ _ (sort_loop less n ys) (rec (ground (arith, p.counted, p.halved)))
              λ zs (ordered, perm). (ordered, Perm.trans perm p.same))
        | inr single ↦
            let sorted = is_sorted-runs less ys (ground (arith, p.counted)) in
            rw (single, sorted) (is_sorted-Ordered less order ys sorted, p.same)
      ]

  -- For a strict order whose ties are transitive, list_sort of any list returns, since its passes
  -- end in at most one more than its number of elements and none of its assertions fails: the
  -- result is in the order and has the elements of the list, each as often.
  pub list_sort-Sorted :
      (xs : List A) → Returns (λ ys. Ordered less ys × Perm ys xs) (list_sort less xs)
  unfolding list_sort
  list_sort-Sorted xs = sort_loop-Sorted (length xs + 1) xs (omega (arith, runs-le-length less xs))
