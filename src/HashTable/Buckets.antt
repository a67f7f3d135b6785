-- ===== src/HashTable/Buckets.antt =====
-- What the buckets hold: where an element stands, and which one a search finds.
use spring_os.Prelude.{
  ℕ, zero, suc, ◌+◌, ◌≤◌, ◌≡◌, ◌≢◌, refl, Bool, true, false, Option, none, some, List, [], ◌∷◌,
  ◌++◌, if◌then◌else◌, arith, get_or, length, Bool-cases, inl, inr,
}
use spring_os.KernelList.Ordered.{StrictWeak}
use spring_os.HashTable.{alike, find_elem, unlink, elements}

-- What `hash_init` asks of its functions: an order, and equal hash values for equal elements.
pub record Keyed {ℓ} {A : Type ℓ} (hash : A → ℕ) (less : A → A → Bool) : Type ℓ where
  pub order : StrictWeak less
  pub congruent : (a b : A) → alike hash less a b ≡ true → hash a ≡ hash b

module _ {ℓ} {A : Type ℓ} (hash : A → ℕ) (less : A → A → Bool) (key : Keyed hash less) where
  irreflexive : (a : A) → less a a ≡ false
  irreflexive a = elim (Bool-cases (less a a)) [ inl lt ↦ key.order.asym a a lt | inr ge ↦ ge ]

  pub alike_refl : (a : A) → alike hash less a a ≡ true
  alike_refl a = ground (arith, irreflexive a)

  pub alike_congr :
      (a b c : A) → alike hash less a b ≡ true → alike hash less a c ≡ alike hash less b c
  alike_congr a b c h = ground (
    arith,
    key.order.ties a b c,
    key.order.ties b a c,
    key.order.ties c a b,
    key.order.ties c b a,
  )

  pub alike_comm : (a b : A) → alike hash less a b ≡ alike hash less b a
  alike_comm a b = ground arith

  -- The number of elements of a bucket that are like `q`.
  abbrev pub count : A → List A → ℕ
  count q [] = 0
  count q (e ∷ es) = (if alike hash less e q then 1 else 0) + count q es

  abbrev pub find : List A → A → Option A
  find = find_elem hash less

  pub find-none : (q : A) (c : List A) → count q c ≡ 0 → find c q ≡ none
  unfolding find_elem
  find-none q [] h = refl
  find-none q (e ∷ c) h = ground (arith, find-none q c)

  pub count-zero :
      (k q : A) (c : List A) → find c k ≡ none → alike hash less k q ≡ true → count q c ≡ 0
  unfolding find_elem
  count-zero k q [] h like = refl
  count-zero k q (e ∷ c) h like =
      ground (arith, count-zero k q c, alike_congr k q e like, alike_comm k e, alike_comm q e)

  pub count-append : (q : A) (c d : List A) → count q (c ++ d) ≡ count q c + count q d
  count-append q [] d = omega arith
  count-append q (e ∷ c) d = omega (arith, count-append q c d)

  -- The first of two results.
  abbrev pub or_else : Option A → Option A → Option A
  or_else none o = o
  or_else (some e) o = some e

  pub find-append : (q : A) (c d : List A) → find (c ++ d) q ≡ or_else (find c q) (find d q)
  unfolding find_elem
  find-append q [] d = refl
  find-append q (e ∷ c) d = ground (arith, find-append q c d)

  module _ (k q : A) where
    pub find-unlink :
        (c : List A)
        → count q c ≤ 1
        → find (unlink hash less c k) q ≡ (if alike hash less k q then none else find c q)
    unfolding find_elem unlink
    find-unlink [] h = ground arith
    find-unlink (e ∷ c) h =
        ground (
          arith,
          find-unlink c,
          find-none q c,
          alike_congr e k q,
          alike_congr e q k,
          alike_comm k q,
        )

    pub count-unlink : (c : List A) → count q (unlink hash less c k) ≤ count q c
    unfolding unlink
    count-unlink [] = omega arith
    count-unlink (e ∷ c) = ground (arith, count-unlink c)

  pub length-unlink :
      (k : A) (c : List A) (old : A)
      → find c k ≡ some old
      → length (unlink hash less c k) + 1 ≡ length c
  unfolding find_elem unlink
  length-unlink k [] old h = cc
  length-unlink k (e ∷ c) old h = ground (arith, length-unlink k c old)

  count-elements_nowhere :
      (q : A) (buckets : List (List A))
      → ((i : ℕ) → count q (get_or buckets i []) ≡ 0)
      → count q (elements buckets) ≡ 0
  count-elements_nowhere q [] h = refl
  count-elements_nowhere q (c ∷ cs) h =
      omega
        (arith, count-append q c (elements cs), h 0, count-elements_nowhere q cs (λ i. h (suc i)))

  -- Where only one bucket can hold `q`, all the buckets are searched like that one.
  pub elements_only :
      (q : A) (buckets : List (List A)) (j : ℕ)
      → ((i : ℕ) → j ≢ i → count q (get_or buckets i []) ≡ 0)
      → (find (elements buckets) q ≡ find (get_or buckets j []) q)
        × (count q (elements buckets) ≡ count q (get_or buckets j []))
  unfolding find_elem
  elements_only q [] j h = (refl, refl)
  elements_only q (c ∷ cs) zero h =
      let rest = count-elements_nowhere q cs (λ i. h (suc i) (omega arith)) in
      (
        ground (arith, find-append q c (elements cs), find-none q (elements cs) rest),
        omega (arith, count-append q c (elements cs), rest),
      )
  elements_only q (c ∷ cs) (suc j) h =
      let here = h 0 (omega arith) in
      let (same, counted) = elements_only q cs j (λ i ne. h (suc i) (omega arith)) in
      (
        ground (arith, find-append q c (elements cs), find-none q c here, same),
        omega (arith, count-append q c (elements cs), here, counted),
      )
