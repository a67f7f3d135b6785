-- ===== src/HashTable/Resize.antt =====
-- The invariant of the table, a write to one bucket, and the move to new buckets.
use spring_os.Prelude.{
  ℕ, zero, suc, ◌+◌, ◌≤◌, ◌<◌, ◌≡◌, ◌≢◌, refl, sym, ap, ◌∙◌, Bool, true, false, Option, none, some,
  List, [], ◌∷◌, ◌++◌, if◌then◌else◌, arith, get_or, set, length, length-append, length-set,
  get_or-set, get_or-replicate, length-replicate, replicate,
}
use spring_os.HashTable.{
  alike, bucket_idx, find_elem, unlink, elements, push_to, move_bucket, move_buckets,
}
use spring_os.HashTable.Power.{bucket_idx-lt}
use spring_os.HashTable.Buckets.{
  Keyed, alike_refl, count, find, find-none, count-zero, or_else, elements_only, find-unlink,
  count-unlink, length-unlink,
}

module _ {ℓ} {A : Type ℓ} (hash : A → ℕ) (less : A → A → Bool) (key : Keyed hash less) where
  abbrev pub home : ℕ → A → ℕ
  home = bucket_idx hash less

  pub home-congr : (n : ℕ) (a b : A) → alike hash less a b ≡ true → home n a ≡ home n b
  unfolding bucket_idx
  home-congr n a b h = rw (key.congruent a b h) refl

  abbrev pub bucket_of : ℕ → List (List A) → A → List A
  bucket_of n buckets q = get_or buckets (home n q) []

  -- There are `n` buckets with `total` elements; no two are alike, and each stands in the bucket of
  -- its hash value. A search finds what `view` gives.
  pub record Holds (n total : ℕ) (view : A → Option A) (buckets : List (List A)) : Type ℓ where
    pub width : length buckets ≡ n
    pub size : length (elements buckets) ≡ total
    pub once : (q : A) (i : ℕ) → count hash less key q (get_or buckets i []) ≤ 1
    pub placed : (q : A) (i : ℕ) → home n q ≢ i → count hash less key q (get_or buckets i []) ≡ 0
    pub reads : (q : A) → find hash less key (bucket_of n buckets q) q ≡ view q

  length-elements-set :
      (buckets : List (List A)) (i : ℕ) (c : List A)
      → i < length buckets
      → length (elements (set buckets i c)) + length (get_or buckets i [])
        ≡ length (elements buckets) + length c
  length-elements-set [] i c h = absurd (omega arith)
  length-elements-set (b ∷ bs) zero c h =
      omega (arith, length-append c (elements bs), length-append b (elements bs))
  length-elements-set (b ∷ bs) (suc i) c h = omega (
    arith,
    length-elements-set bs i c (omega arith),
    length-append b (elements bs),
    length-append b (elements (set bs i c)),
  )

  -- The bucket of `k` is replaced by `c`, in which only what is like `k` has changed.
  pub set-Holds :
      (n total total' : ℕ) (view : A → Option A) (buckets : List (List A)) (k : A) (v : Option A)
      (c : List A)
      → 1 ≤ n
      → Holds n total view buckets
      → total' + length (bucket_of n buckets k) ≡ total + length c
      → ((q : A)
          → (count hash less key q c ≤ 1)
            × (alike hash less k q ≡ false
                → count hash less key q c ≤ count hash less key q (bucket_of n buckets k)))
      → ((q : A)
          → find hash less key c q
            ≡ (if alike hash less k q then v else find hash less key (bucket_of n buckets k) q))
      → Holds n total' (λ q. if alike hash less k q then v else view q) (set buckets (home n k) c)
  set-Holds n total total' view buckets k v c pos holds sized few reads = record {
    width = length-set buckets (home n k) c ∙ holds.width;
    size = omega (arith, length-elements-set buckets (home n k) c in_range, holds.size);
    once = λ q i.
        rw (get_or-set buckets (home n k) i c [] in_range) (ground (arith, few q, holds.once q i));
    placed = λ q i away.
        rw (get_or-set buckets (home n k) i c [] in_range)
          (ground (arith, few q, holds.placed q (home n k), holds.placed q i, home-congr n k q));
    reads = λ q.
        rw (get_or-set buckets (home n k) (home n q) c [] in_range)
          (ground (arith, reads q, holds.reads q, home-congr n k q));
  }
    where
      in_range : home n k < length buckets
      in_range = omega (arith, bucket_idx-lt hash less n k pos, holds.width)

  -- The table after `e` has been written to it, and after what is like `e` has been removed.
  abbrev pub written : A → (A → Option A) → A → Option A
  written e view q = if alike hash less e q then some e else view q

  abbrev pub erased : A → (A → Option A) → A → Option A
  erased e view q = if alike hash less e q then none else view q

  pub push_to-Holds :
      (n total : ℕ) (view : A → Option A) (buckets : List (List A)) (e : A)
      → 1 ≤ n
      → Holds n total view buckets
      → view e ≡ none
      → Holds n (total + 1) (written e view) (push_to hash less n buckets e)
  unfolding find_elem
  push_to-Holds n total view buckets e pos holds absent =
      set-Holds n total (total + 1) view buckets e (some e) (e ∷ bucket_of n buckets e) pos holds
        (omega arith)
        (λ q. ground (
          arith,
          holds.once q (home n e),
          count-zero hash less key e q (bucket_of n buckets e) (holds.reads e ∙ absent),
        ))
        (λ q. ground arith)

  pub unlink-Holds :
      (n total : ℕ) (view : A → Option A) (buckets : List (List A)) (e old : A)
      → 1 ≤ n
      → Holds n (total + 1) view buckets
      → view e ≡ some old
      → Holds n total
          (erased e view)
          (set buckets (home n e) (unlink hash less (bucket_of n buckets e) e))
  unlink-Holds n total view buckets e old pos holds present =
      set-Holds n (total + 1) total view buckets e none (unlink hash less (bucket_of n buckets e) e)
        pos holds
        (omega (
          arith,
          length-unlink hash less key e (bucket_of n buckets e) old (holds.reads e ∙ present),
        ))
        (λ q. (
          omega (
            arith,
            count-unlink hash less key e q (bucket_of n buckets e),
            holds.once q (home n e),
          ),
          λ _. count-unlink hash less key e q (bucket_of n buckets e),
        ))
        (λ q. find-unlink hash less key e q (bucket_of n buckets e) (holds.once q (home n e)))

  pub same-Holds :
      (n total total' : ℕ) (view view' : A → Option A) (buckets : List (List A))
      → total ≡ total'
      → ((q : A) → view q ≡ view' q)
      → Holds n total view buckets
      → Holds n total' view' buckets
  same-Holds n total total' view view' buckets e same holds = record {
    width = holds.width;
    size = holds.size ∙ e;
    once = holds.once;
    placed = holds.placed;
    reads = λ q. holds.reads q ∙ same q;
  }

  move_bucket-Holds :
      (n total : ℕ) (view : A → Option A) (es : List A) (buckets : List (List A))
      → 1 ≤ n
      → Holds n total view buckets
      → ((q : A) → count hash less key q es ≤ 1)
      → ((q : A) → 1 ≤ count hash less key q es → view q ≡ none)
      → Holds n
          (total + length es)
          (λ q. or_else hash less key (view q) (find hash less key es q))
          (move_bucket hash less n es buckets)
  unfolding move_bucket find_elem
  move_bucket-Holds n total view [] buckets pos holds once apart =
      same-Holds n total (total + 0) view _ buckets (omega arith) (λ q. or_none (view q)) holds
    where
      or_none : (o : Option A) → o ≡ or_else hash less key o none
      or_none none = refl
      or_none (some e) = refl
  move_bucket-Holds n total view (e ∷ es) buckets pos holds once apart =
      same-Holds n (total + 1 + length es) (total + length (e ∷ es)) _ _ _ (omega arith)
        (λ q. ground (arith, apart q))
        (move_bucket-Holds n (total + 1) (written e view) es (push_to hash less n buckets e) pos
          (push_to-Holds n total view buckets e pos holds
            (apart e (ground (arith, alike_refl hash less key e))))
          (λ q. ground (arith, once q)) (λ q h. ground (arith, once q, apart q)))

  move_bucket-append :
      (n : ℕ) (es fs : List A) (buckets : List (List A))
      → move_bucket hash less n (es ++ fs) buckets
        ≡ move_bucket hash less n fs (move_bucket hash less n es buckets)
  unfolding move_bucket
  move_bucket-append n [] fs buckets = refl
  move_bucket-append n (e ∷ es) fs buckets =
      move_bucket-append n es fs (push_to hash less n buckets e)

  -- The two nested loops are one loop over all the elements.
  move_buckets-elements :
      (n : ℕ) (olds buckets : List (List A))
      → move_buckets hash less n olds buckets ≡ move_bucket hash less n (elements olds) buckets
  unfolding move_buckets
  move_buckets-elements n [] buckets = refl
  move_buckets-elements n (old ∷ olds) buckets =
      move_buckets-elements n olds (move_bucket hash less n old buckets)
      ∙ sym (move_bucket-append n old (elements olds) buckets)

  length-elements-replicate : (n : ℕ) → length (elements (replicate {A = List A} n [])) ≡ 0
  length-elements-replicate zero = refl
  length-elements-replicate (suc n) = length-elements-replicate n

  pub replicate-Holds : (n : ℕ) → Holds n 0 (λ _. none) (replicate n [])
  unfolding find_elem
  replicate-Holds n = record {
    width = length-replicate n [];
    size = length-elements-replicate n;
    once = λ q i. rw (get_or-replicate {A = List A} n i []) (omega arith);
    placed = λ q i away. rw (get_or-replicate {A = List A} n i []) refl;
    reads = λ q. rw (get_or-replicate {A = List A} n (home n q) []) refl;
  }

  -- The move of all the elements to new buckets.
  pub move_buckets-Holds :
      (n n' total : ℕ) (view : A → Option A) (buckets : List (List A))
      → 1 ≤ n'
      → Holds n total view buckets
      → Holds n' total view (move_buckets hash less n' buckets (replicate n' []))
  move_buckets-Holds n n' total view buckets pos holds =
      rw (move_buckets-elements n' buckets (replicate n' [])) (
        same-Holds n' (0 + length (elements buckets)) total _ view _ (omega (arith, holds.size))
          (λ q. (all q).0 ∙ holds.reads q)
          (move_bucket-Holds n' 0 (λ _. none) (elements buckets) (replicate n' []) pos
            (replicate-Holds n') (λ q. omega (arith, (all q).1, holds.once q (home n q)))
            (λ q h. refl)))
    where
      all :
          (q : A)
          → (find hash less key (elements buckets) q ≡ find hash less key (bucket_of n buckets q) q)
            × (count hash less key q (elements buckets)
                ≡ count hash less key q (bucket_of n buckets q))
      all q = elements_only hash less key q buckets (home n q) (λ i away. holds.placed q i away)

  length-bucket-le :
      (buckets : List (List A)) (i : ℕ) → length (get_or buckets i []) ≤ length (elements buckets)
  length-bucket-le [] i = omega arith
  length-bucket-le (c ∷ cs) zero = omega (arith, length-append c (elements cs))
  length-bucket-le (c ∷ cs) (suc i) =
      omega (arith, length-append c (elements cs), length-bucket-le cs i)

  module _ (n total : ℕ) (view : A → Option A) (buckets : List (List A))
      (holds : Holds n total view buckets) (e : A) where
    pub present_pos : (old : A) → view e ≡ some old → 1 ≤ total
    present_pos old present = omega (
      arith,
      length-unlink hash less key e (bucket_of n buckets e) old (holds.reads e ∙ present),
      length-bucket-le buckets (home n e),
      holds.size,
    )

    -- What is like an element that is absent is absent.
    pub absent_alike : (q : A) → view e ≡ none → alike hash less e q ≡ true → view q ≡ none
    absent_alike q absent like =
        sym (holds.reads q)
        ∙ ap (λ i. find hash less key (get_or buckets i []) q) (sym (home-congr n e q like))
        ∙ find-none hash less key q (bucket_of n buckets e)
            (count-zero hash less key e q (bucket_of n buckets e) (holds.reads e ∙ absent) like)
