-- ===== src/KernelList/Sort/Runs.antt =====
-- The runs of a list, and the one that `find_end_of_run` finds.
use spring_os.Prelude.{
  ℕ, ◌+◌, ◌≤◌, ◌≡◌, refl, ap, Bool, true, false, List, [], ◌∷◌, ◌++◌, if◌then◌else◌, Bool-cases,
  inl, inr, arith, length,
}
use spring_os.KernelList.Sort.{sorted_from, is_sorted, end_of_run}
use spring_os.KernelList.Sort.Merge.{cons-sorted_from}

module _ {ℓ} {A : Type ℓ} (less : A → A → Bool) where
  -- The places behind `e` where an element is less than the one before it.
  abbrev pub breaks : A → List A → ℕ
  breaks e [] = 0
  breaks e (x ∷ xs) = (if less x e then 1 else 0) + breaks x xs

  abbrev pub runs : List A → ℕ
  runs [] = 0
  runs (x ∷ xs) = 1 + breaks x xs

  breaks-le-length : (e : A) (xs : List A) → breaks e xs ≤ length xs
  breaks-le-length e [] = omega arith
  breaks-le-length e (x ∷ xs) = ground (arith, breaks-le-length x xs)

  pub runs-le-length : (xs : List A) → runs xs ≤ length xs
  runs-le-length [] = omega arith
  runs-le-length (x ∷ xs) = omega (arith, breaks-le-length x xs)

  breaks-append : (e : A) (xs ys : List A) → breaks e (xs ++ ys) ≤ breaks e xs + runs ys
  breaks-append e [] [] = omega arith
  breaks-append e [] (y ∷ ys) = ground arith
  breaks-append e (x ∷ xs) ys = omega (arith, breaks-append x xs ys)

  pub runs-append : (xs ys : List A) → runs (xs ++ ys) ≤ runs xs + runs ys
  runs-append [] ys = omega arith
  runs-append (x ∷ xs) ys = omega (arith, breaks-append x xs ys)

  breaks-sorted_from : (e : A) (xs : List A) → sorted_from less e xs ≡ true → breaks e xs ≡ 0
  breaks-sorted_from e [] h = refl
  breaks-sorted_from e (x ∷ xs) h = ground (arith, breaks-sorted_from x xs)

  pub runs-is_sorted : (xs : List A) → is_sorted less xs ≡ true → runs xs ≤ 1
  runs-is_sorted [] h = omega arith
  runs-is_sorted (x ∷ xs) h = omega (arith, breaks-sorted_from x xs h)

  sorted_from-breaks : (e : A) (xs : List A) → breaks e xs ≡ 0 → sorted_from less e xs ≡ true
  sorted_from-breaks e [] h = refl
  sorted_from-breaks e (x ∷ xs) h = ground (arith, sorted_from-breaks x xs)

  pub is_sorted-runs : (xs : List A) → runs xs ≤ 1 → is_sorted less xs ≡ true
  is_sorted-runs [] h = refl
  is_sorted-runs (x ∷ xs) h = sorted_from-breaks x xs (omega arith)

  -- The first run of `a ∷ xs`, and the elements behind it.
  pub record FirstRun (a : A) (xs run rest : List A) : Type ℓ where
    pub split : xs ≡ run ++ rest
    pub ascends : sorted_from less a run ≡ true
    pub one_less : runs (a ∷ xs) ≡ 1 + runs rest
    pub shorter : length rest ≤ length xs

  run_ends : (a b : A) (xs : List A) → less b a ≡ true → end_of_run less a (b ∷ xs) ≡ ([], b ∷ xs)
  unfolding end_of_run
  run_ends a b xs h = ground arith

  run_goes_on :
      (a b : A) (xs : List A)
      → less b a ≡ false
      → end_of_run less a (b ∷ xs) ≡ (b ∷ (end_of_run less b xs).0, (end_of_run less b xs).1)
  unfolding end_of_run
  run_goes_on a b xs h = ground arith

  pub end_of_run-FirstRun :
      (a : A) (xs : List A) → FirstRun a xs (end_of_run less a xs).0 (end_of_run less a xs).1
  unfolding end_of_run
  end_of_run-FirstRun a [] = record {
    split = refl;
    ascends = refl;
    one_less = refl;
    shorter = omega arith;
  }
  end_of_run-FirstRun a (b ∷ xs) = elim (Bool-cases (less b a)) [
    | inl ends ↦ rw (run_ends a b xs ends) (record {
      split = refl;
      ascends = refl;
      one_less = rw ends (omega arith);
      shorter = omega arith;
    })
    | inr on ↦
        let r = end_of_run-FirstRun b xs in
        rw (run_goes_on a b xs on) (record {
          split = ap (λ l. b ∷ l) r.split;
          ascends = cons-sorted_from less a b _ on r.ascends;
          one_less = rw on (omega (arith, r.one_less));
          shorter = omega (arith, r.shorter);
        })
  ]
