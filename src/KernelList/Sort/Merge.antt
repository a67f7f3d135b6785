-- ===== src/KernelList/Sort/Merge.antt =====
-- `inplace_merge` of two runs is a run of the same elements.
use mathlib.Core.List.{Perm, perm_middle, append-nil}
use mathlib.Core.List.Perm
use spring_os.Prelude.{◌≡◌, Bool, true, false, List, [], ◌∷◌, ◌++◌, Bool-cases, inl, inr, arith}
use spring_os.KernelList.Ordered.{All, All-mono, StrictWeak, Ordered}
use spring_os.KernelList.Sort.{sorted_from, is_sorted, merge_loop}

module _ {ℓ} {A : Type ℓ} (less : A → A → Bool) where
  -- `b` may follow `e`, and the run goes on behind it.
  sorted_from-cons :
      (e b : A) (rs : List A)
      → sorted_from less e (b ∷ rs) ≡ true
      → (less b e ≡ false) × (sorted_from less b rs ≡ true)
  sorted_from-cons e b rs h = ground arith

  pub cons-sorted_from :
      (e b : A) (rs : List A)
      → less b e ≡ false
      → sorted_from less b rs ≡ true
      → sorted_from less e (b ∷ rs) ≡ true
  cons-sorted_from e b rs h t = ground arith

module _ {ℓ} {A : Type ℓ} (less : A → A → Bool) (order : StrictWeak less) where
  merge_stays :
      (a b : A) (ls rs : List A)
      → less b a ≡ false
      → merge_loop less (a ∷ ls) (b ∷ rs) ≡ a ∷ merge_loop less ls (b ∷ rs)
  unfolding merge_loop
  merge_stays a b ls rs h = ground arith

  merge_moves :
      (a b : A) (ls rs : List A)
      → less b a ≡ true
      → merge_loop less (a ∷ ls) (b ∷ rs) ≡ b ∷ merge_loop less (a ∷ ls) rs
  unfolding merge_loop
  merge_moves a b ls rs h = ground arith

  pub merge_loop-Perm : (ls rs : List A) → Perm (merge_loop less ls rs) (ls ++ rs)
  unfolding merge_loop
  merge_loop-Perm [] rs = Perm.refl rs
  merge_loop-Perm (a ∷ ls) [] = rw (append-nil (a ∷ ls)) (Perm.refl (a ∷ ls))
  merge_loop-Perm (a ∷ ls) (b ∷ rs) = elim (Bool-cases (less b a)) [
    | inl moved ↦ rw (merge_moves a b ls rs moved) (
        Perm.trans (Perm.cons b (merge_loop-Perm (a ∷ ls) rs))
          (Perm.symm (perm_middle (a ∷ ls) rs)))
    | inr stays ↦ rw (merge_stays a b ls rs stays) (Perm.cons a (merge_loop-Perm ls (b ∷ rs)))
  ]

  -- What comes out behind an element that may stand before both runs.
  merge_loop-sorted_from :
      (e : A) (ls rs : List A)
      → sorted_from less e ls ≡ true
      → sorted_from less e rs ≡ true
      → sorted_from less e (merge_loop less ls rs) ≡ true
  unfolding merge_loop
  merge_loop-sorted_from e [] rs ha hb = hb
  merge_loop-sorted_from e (a ∷ ls) [] ha hb = ha
  merge_loop-sorted_from e (a ∷ ls) (b ∷ rs) ha hb = elim (Bool-cases (less b a)) [
    | inl moved ↦ rw (merge_moves a b ls rs moved) (
        cons-sorted_from less e b _ (sorted_from-cons less e b rs hb).0 (
          merge_loop-sorted_from b (a ∷ ls) rs
            (cons-sorted_from less b a ls (order.asym b a moved)
              (sorted_from-cons less e a ls ha).1)
            (sorted_from-cons less e b rs hb).1))
    | inr stays ↦ rw (merge_stays a b ls rs stays) (
        cons-sorted_from less e a _ (sorted_from-cons less e a ls ha).0 (
          merge_loop-sorted_from a ls (b ∷ rs) (sorted_from-cons less e a ls ha).1
            (cons-sorted_from less a b rs stays (sorted_from-cons less e b rs hb).1)))
  ]

  pub merge_loop-is_sorted :
      (a b : A) (ls rs : List A)
      → sorted_from less a ls ≡ true
      → sorted_from less b rs ≡ true
      → is_sorted less (merge_loop less (a ∷ ls) (b ∷ rs)) ≡ true
  merge_loop-is_sorted a b ls rs ha hb = elim (Bool-cases (less b a)) [
    | inl moved ↦ rw (merge_moves a b ls rs moved) (
        merge_loop-sorted_from b (a ∷ ls) rs
          (cons-sorted_from less b a ls (order.asym b a moved) ha) hb)
    | inr stays ↦
        rw (merge_stays a b ls rs stays)
          (merge_loop-sorted_from a ls (b ∷ rs) ha (cons-sorted_from less a b rs stays hb))
  ]

  -- Neighbours in order put everything in order.
  above_rest : (e : A) (xs : List A) → sorted_from less e xs ≡ true → All (λ y. less y e ≡ false) xs
  above_rest e [] h = tt
  above_rest e (x ∷ xs) h = (
    (sorted_from-cons less e x xs h).0,
    All-mono _ _ xs (λ y above. order.ties e x y (sorted_from-cons less e x xs h).0 above)
        (above_rest x xs (sorted_from-cons less e x xs h).1),
  )

  sorted_from-Ordered : (e : A) (xs : List A) → sorted_from less e xs ≡ true → Ordered less (e ∷ xs)
  sorted_from-Ordered e [] h = (tt, tt)
  sorted_from-Ordered e (x ∷ xs) h =
      (above_rest e (x ∷ xs) h, sorted_from-Ordered x xs (sorted_from-cons less e x xs h).1)

  pub is_sorted-Ordered : (xs : List A) → is_sorted less xs ≡ true → Ordered less xs
  is_sorted-Ordered [] h = tt
  is_sorted-Ordered (x ∷ xs) h = sorted_from-Ordered x xs h
