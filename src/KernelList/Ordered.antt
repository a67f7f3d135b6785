-- ===== src/KernelList/Ordered.antt =====
-- Insertion into an ordered list, and the extreme elements.
use spring_os.Prelude.{
  ◌≡◌, refl, sym, ap, ◌∙◌, Bool, true, false, List, [], ◌∷◌, ◌++◌, Bool-cases, inl, inr,
}
use spring_os.KernelList.{list_insert_ordered}

abbrev pub All {ℓ κ} : {A : Type ℓ} → (A → Type κ) → List A → Type κ
All P [] = Unit
All P (x ∷ xs) = P x × All P xs

pub All-mono {ℓ κ μ} :
    {A : Type ℓ} (P : A → Type κ) (Q : A → Type μ) (xs : List A)
    → ((x : A) → P x → Q x)
    → All P xs
    → All Q xs
All-mono P Q [] h all = tt
All-mono P Q (x ∷ xs) h all = (h x all.0, All-mono P Q xs h all.1)

-- What `list_less_func` must be: a strict order whose ties are transitive.
pub record StrictWeak {ℓ} {A : Type ℓ} (less : A → A → Bool) : Type ℓ where
  pub asym : (a b : A) → less a b ≡ true → less b a ≡ false
  pub ties : (a b c : A) → less b a ≡ false → less c b ≡ false → less c a ≡ false

module _ {ℓ} {A : Type ℓ} (less : A → A → Bool) where
  -- No element is less than one before it.
  abbrev pub Ordered : List A → Type 0
  Ordered [] = Unit {0}
  Ordered (x ∷ xs) = All (λ y. less y x ≡ false) xs × Ordered xs

  -- `elem` stands behind everything that it is not less than, and in front of all else.
  pub record Inserted (elem : A) (xs ys : List A) : Type ℓ where
    pub front : List A
    pub back : List A
    pub before : xs ≡ front ++ back
    pub after : ys ≡ front ++ (elem ∷ back)
    pub passed : All (λ y. less elem y ≡ false) front
    pub overtaken : All (λ y. less elem y ≡ true) back

  module _ (order : StrictWeak less) where
    overtakes_rest :
        (elem e : A) (es : List A)
        → less elem e ≡ true
        → All (λ y. less y e ≡ false) es
        → All (λ y. less elem y ≡ true) es
    overtakes_rest elem e [] lt all = tt
    overtakes_rest elem e (y ∷ es) lt all = (
      elim (Bool-cases (less elem y)) [
        | inl yes_less ↦ yes_less
        | inr no_less ↦ absurd_bool (sym lt ∙ order.ties e y elem all.0 no_less)
      ],
      overtakes_rest elem e es lt all.1,
    )
      where
        absurd_bool : true ≡ false → less elem y ≡ true
        absurd_bool h = cc

    -- For a strict order whose ties are transitive and a list in its order, list_insert_ordered
    -- puts the element behind all elements that it is not less than and in front of all that it is
    -- less than, and leaves the others as they are.
    pub list_insert_ordered-Inserted :
        (elem : A) (xs : List A) → Ordered xs → Inserted elem xs (list_insert_ordered less elem xs)
    unfolding list_insert_ordered
    list_insert_ordered-Inserted elem [] ok = record {
      front = [];
      back = [];
      before = refl;
      after = refl;
      passed = tt;
      overtaken = tt;
    }
    list_insert_ordered-Inserted elem (e ∷ es) ok = elim (Bool-cases (less elem e)) [
      | inl lt ↦ rw lt (record {
        front = [];
        back = e ∷ es;
        before = refl;
        after = refl;
        passed = tt;
        overtaken = (lt, overtakes_rest elem e es lt ok.0);
      })
      | inr ge ↦
          let rest = list_insert_ordered-Inserted elem es ok.1 in
          rw ge (record {
            front = e ∷ rest.front;
            back = rest.back;
            before = ap (λ l. e ∷ l) rest.before;
            after = ap (λ l. e ∷ l) rest.after;
            passed = (ge, rest.passed);
            overtaken = rest.overtaken;
          })
    ]

    pub insert-All :
        (P : A → Type 0) (elem : A) (xs : List A)
        → P elem
        → All P xs
        → All P (list_insert_ordered less elem xs)
    unfolding list_insert_ordered
    insert-All P elem [] p all = (p, tt)
    insert-All P elem (e ∷ es) p all = elim (Bool-cases (less elem e)) [
      | inl lt ↦ rw lt (p, all)
      | inr ge ↦ rw ge (all.0, insert-All P elem es p all.1)
    ]

    pub list_insert_ordered-Ordered :
        (elem : A) (xs : List A) → Ordered xs → Ordered (list_insert_ordered less elem xs)
    unfolding list_insert_ordered
    list_insert_ordered-Ordered elem [] ok = (tt, tt)
    list_insert_ordered-Ordered elem (e ∷ es) ok = elim (Bool-cases (less elem e)) [
      | inl lt ↦ rw lt (
        (
          order.asym elem e lt,
          All-mono _ _ es (λ y h. order.ties elem e y (order.asym elem e lt) h) ok.0,
        ),
        ok,
      )
      | inr ge ↦ rw ge (
        insert-All (λ y. less y e ≡ false) elem es ge ok.0,
        list_insert_ordered-Ordered elem es ok.1,
      )
    ]
