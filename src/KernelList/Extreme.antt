-- ===== src/KernelList/Extreme.antt =====
-- The extreme elements of a list.
use spring_os.Prelude.{
  subst, ◌≡◌, refl, sym, ap, ◌∙◌, Bool, true, false, Option, none, some, List, [], ◌∷◌, ◌++◌,
  if◌then◌else◌, ◌⊎◌, inl, inr, Bool-cases,
}
use spring_os.KernelList.{max_loop, list_max, min_loop, list_min}
use spring_os.KernelList.Ordered.{All, StrictWeak}

-- `m` is the first of the greatest elements of the list.
pub record Greatest {ℓ} {A : Type ℓ} (less : A → A → Bool) (xs : List A) (m : A) : Type ℓ where
  pub front : List A
  pub back : List A
  pub split : xs ≡ front ++ (m ∷ back)
  pub below : All (λ y. less y m ≡ true) front
  pub not_above : All (λ y. less m y ≡ false) back

abbrev pub GreatestOf {ℓ} : {A : Type ℓ} → (A → A → Bool) → List A → Option A → Type ℓ
GreatestOf less xs none = xs ≡ []
GreatestOf less xs (some m) = Greatest less xs m

module _ {ℓ} {A : Type ℓ} (less : A → A → Bool) (order : StrictWeak less) where
  true_of : (b : Bool) → (b ≡ false → true ≡ false) → b ≡ true
  true_of true h = refl
  true_of false h = sym (h refl)

  lift : (a e m : A) → less a e ≡ false → less a m ≡ true → less e m ≡ true
  lift a e m not_e up = true_of (less e m) λ f. sym up ∙ order.ties m e a f not_e

  step : (a b c : A) → less a b ≡ true → less b c ≡ true → less a c ≡ true
  step a b c ab bc = true_of (less a c) λ f. sym ab ∙ order.ties b c a (order.asym b c bc) f

  at_first :
      {x m : A} (es : List A) → m ≡ x → All (λ y. less x y ≡ false) es → Greatest less (x ∷ es) m
  at_first {x} es same all =
      subst (Greatest less (x ∷ es)) (sym same)
        (record { front = []; back = es; split = refl; below = tt; not_above = all })

  behind : {x m : A} {es : List A} → Greatest less es m → less x m ≡ true → Greatest less (x ∷ es) m
  behind {x} g up = record {
    front = x ∷ g.front;
    back = g.back;
    split = ap (λ l. x ∷ l) g.split;
    below = (up, g.below);
    not_above = g.not_above;
  }

  -- The loop keeps its start, or ends at a greater element.
  record Passed (start : A) (es : List A) (m : A) : Type ℓ where
    greatest : Greatest less es m
    greater : less start m ≡ true

  max_loop-Passed :
      (max : A) (es : List A)
      → ((max_loop less max es ≡ max) × All (λ y. less max y ≡ false) es)
        ⊎ Passed max es (max_loop less max es)
  unfolding max_loop
  max_loop-Passed max [] = inl (refl, tt)
  max_loop-Passed max (e ∷ es) = elim (Bool-cases (less max e)) [
    | inl lt ↦ rw lt (inr (replaced lt (max_loop-Passed e es)))
    | inr ge ↦ rw ge (kept ge (max_loop-Passed max es))
  ]
    where
      replaced :
          less max e ≡ true
          → ((max_loop less e es ≡ e) × All (λ y. less e y ≡ false) es)
            ⊎ Passed e es (max_loop less e es)
          → Passed max (e ∷ es) (max_loop less e es)
      replaced lt (inl (same, all)) = record {
        greatest = at_first es same all;
        greater = subst (λ m. less max m ≡ true) (sym same) lt;
      }
      replaced lt (inr p) = record {
        greatest = behind p.greatest p.greater;
        greater = step max e _ lt p.greater;
      }

      kept :
          less max e ≡ false
          → ((max_loop less max es ≡ max) × All (λ y. less max y ≡ false) es)
            ⊎ Passed max es (max_loop less max es)
          → ((max_loop less max es ≡ max) × ((false ≡ false) × All (λ y. less max y ≡ false) es))
            ⊎ Passed max (e ∷ es) (max_loop less max es)
      kept ge (inl (same, all)) = inl (same, (refl, all))
      kept ge (inr p) =
          inr (record {
            greatest = behind p.greatest (lift max e _ ge p.greater);
            greater = p.greater;
          })

  -- For a strict order whose ties are transitive, list_max returns the end marker for an empty
  -- list, and otherwise the first greatest element: every element before it is less, and it is
  -- less than none behind it.
  pub list_max-GreatestOf : (xs : List A) → GreatestOf less xs (list_max less xs)
  unfolding list_max
  list_max-GreatestOf [] = refl
  list_max-GreatestOf (x ∷ xs) = elim (max_loop-Passed x xs) [
    | inl (same, all) ↦ at_first xs same all
    | inr p ↦ behind p.greatest p.greater
  ]

abbrev pub flipped {ℓ} : {A : Type ℓ} → (A → A → Bool) → A → A → Bool
flipped less a b = less b a

module _ {ℓ} {A : Type ℓ} (less : A → A → Bool) (order : StrictWeak less) where
  flipped-StrictWeak : StrictWeak (flipped less)
  flipped-StrictWeak = record {
    asym = λ a b h. order.asym b a h;
    ties = λ a b c h h'. order.ties c b a h' h;
  }

  min_loop-max_loop :
      (min : A) (es : List A) → min_loop less min es ≡ max_loop (flipped less) min es
  unfolding min_loop max_loop
  min_loop-max_loop min [] = refl
  min_loop-max_loop min (e ∷ es) = min_loop-max_loop (if less e min then e else min) es

  -- For a strict order whose ties are transitive, list_min returns the end marker for an empty
  -- list, and otherwise the first least element: it is less than every element before it, and no
  -- element behind it is less.
  pub list_min-GreatestOf : (xs : List A) → GreatestOf (flipped less) xs (list_min less xs)
  unfolding list_min list_max
  list_min-GreatestOf [] = refl
  list_min-GreatestOf (x ∷ xs) =
      subst (Greatest (flipped less) (x ∷ xs)) (sym (min_loop-max_loop x xs))
        (list_max-GreatestOf (flipped less) flipped-StrictWeak (x ∷ xs))
