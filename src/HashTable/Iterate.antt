-- ===== src/HashTable/Iterate.antt =====
-- The iterator, in the idiom of its documentation, against `hash_apply`.
use mathlib.Core.List.{append_assoc}
use spring_os.Prelude.{
  ℕ, zero, suc, ◌+◌, ◌≤◌, ◌<◌, ◌≡◌, refl, sym, ap, ◌∙◌, true, false, Option, none, some, List, [],
  ◌∷◌, ◌++◌, if◌then◌else◌, ltb, ne→==, ge→ltb, lt→ltb, ◌==◌, arith, get_or, length, length-append,
  get_elem?,
}
use spring_os.HashTable.{Hash, elements, apply_bucket, apply_buckets, hash_apply}

-- A position of the iterator: the index of the bucket, and the place in it (0 is the head of the
-- list), or none for a null element.
pub record HashIterator : Type 0 where
  pub bucket : ℕ
  pub elem : Option ℕ

unfoldable pub hash_first : HashIterator
hash_first = record { bucket = 0; elem = some 0 }

module _ {ℓ} {A : Type ℓ} (h : Hash A) where
  -- The loop of `hash_next`, for at most `n` rounds, at a place of a bucket.
  unfoldable pub skip_ended : ℕ → ℕ → ℕ → HashIterator
  skip_ended zero bucket p = record { bucket = bucket; elem = none }
  skip_ended (suc n) bucket p =
      let rest = skip_ended n (bucket + 1) 1 in
      if p == length (get_or h.buckets bucket []) + 1
      then (if ltb (bucket + 1) h.bucket_cnt
          then rest
          else record { bucket = bucket + 1; elem = none })
      else record { bucket = bucket; elem = some p }

  -- A further call after the end dereferences the null element.
  unfoldable pub hash_next : HashIterator → Option HashIterator
  unfolding skip_ended
  hash_next i = elim i.elem [
    | none ↦ none
    | some p ↦ some (skip_ended h.bucket_cnt i.bucket (suc p))
  ]

  -- The element at the iterator's place.
  unfoldable pub hash_cur : HashIterator → Option A
  hash_cur i = elim i.elem [ some (suc p) ↦ get_elem? (get_or h.buckets i.bucket []) p | _ ↦ none ]

  -- `while (hash_next (&i)) action (hash_cur (&i))`, for at most `n` rounds.
  unfoldable pub iterate {κ} : {S : Type κ} → ℕ → (A → S → S) → HashIterator → S → Option S
  unfolding hash_next hash_cur
  iterate zero action i s = none
  iterate (suc n) action i s = elim (hash_next i) [
    | none ↦ none
    | some i' ↦ elim i'.elem [
      | none ↦ some s
      | some p ↦ elim (hash_cur i') [ none ↦ none | some e ↦ iterate n action i' (action e s) ]
    ]
  ]

  -- A place of the iterator and the elements that are left from it on: those of `now`, and
  -- all of the buckets behind.
  record Split (now : List A) (bucket place : ℕ) (post : List (List A)) : Type ℓ where
    before : List (List A)
    seen : List A
    parts : h.buckets ≡ before ++ ((seen ++ now) ∷ post)
    index : bucket ≡ length before
    offset : place ≡ length seen
    count : h.bucket_cnt ≡ length h.buckets

  -- The iterator stands at the first of the elements `left`, or at the end.
  data Standing (i : HashIterator) : List A → Type ℓ where
    ended : i.elem ≡ none → Standing i []
    at :
        (e : A) (place : ℕ) (now : List A) (post : List (List A))
        → i.elem ≡ some (suc place)
        → Split (e ∷ now) i.bucket place post
        → Standing i (e ∷ (now ++ elements post))

  get_or-append :
      (before : List (List A)) (c : List A) (post : List (List A)) (n : ℕ)
      → n ≡ length before
      → get_or (before ++ (c ∷ post)) n [] ≡ c
  get_or-append [] c post zero e = refl
  get_or-append [] c post (suc n) e = absurd (omega arith)
  get_or-append (b ∷ before) c post zero e = absurd (omega arith)
  get_or-append (b ∷ before) c post (suc n) e = get_or-append before c post n (omega arith)

  get_elem?-append :
      (seen : List A) (e : A) (now : List A) (n : ℕ)
      → n ≡ length seen
      → get_elem? (seen ++ (e ∷ now)) n ≡ some e
  get_elem?-append [] e now zero h = refl
  get_elem?-append [] e now (suc n) h = absurd (omega arith)
  get_elem?-append (b ∷ before) c post zero e = absurd (omega arith)
  get_elem?-append (b ∷ before) c post (suc n) e = get_elem?-append before c post n (omega arith)

  -- The bucket of a place.
  Split-bucket :
      (now : List A) (bucket place : ℕ) (post : List (List A)) (s : Split now bucket place post)
      → get_or h.buckets bucket [] ≡ s.seen ++ now
  Split-bucket now bucket place post s =
      ap (λ bs. get_or bs bucket []) s.parts
      ∙ get_or-append s.before (s.seen ++ now) post bucket s.index

  Split-next :
      (bucket place : ℕ) (c : List A) (post : List (List A))
      → Split [] bucket place (c ∷ post)
      → Split c (bucket + 1) 0 post
  Split-next bucket place c post s = record {
    before = s.before ++ ((s.seen ++ []) ∷ []);
    seen = [];
    parts = s.parts ∙ sym (append_assoc s.before ((s.seen ++ []) ∷ []) (c ∷ post));
    index = omega (arith, s.index, length-append s.before ((s.seen ++ []) ∷ []));
    offset = refl;
    count = s.count;
  }

  Split-skip :
      (bucket place : ℕ) (e : A) (now : List A) (post : List (List A))
      → Split (e ∷ now) bucket place post
      → Split now bucket (suc place) post
  Split-skip bucket place e now post s = record {
    before = s.before;
    seen = s.seen ++ (e ∷ []);
    parts = s.parts ∙ ap (λ c. s.before ++ (c ∷ post)) (sym (append_assoc s.seen (e ∷ []) now));
    index = s.index;
    offset = omega (arith, s.offset, length-append s.seen (e ∷ []));
    count = s.count;
  }

  Split-leaves :
      (bucket place : ℕ) (post : List (List A))
      → Split [] bucket place post
      → (suc place == length (get_or h.buckets bucket []) + 1) ≡ true
  Split-leaves bucket place post s =
      ground
        (arith, ap length (Split-bucket [] bucket place post s), length-append s.seen [], s.offset)

  Split-length :
      (now : List A) (bucket place : ℕ) (post : List (List A))
      → Split now bucket place post
      → h.bucket_cnt ≡ bucket + 1 + length post
  Split-length now bucket place post s =
      omega (
        arith,
        s.count,
        ap length s.parts,
        s.index,
        length-append s.before ((s.seen ++ now) ∷ post),
      )

  skip_ended-Standing :
      (n : ℕ) (now : List A) (bucket place : ℕ) (post : List (List A))
      → Split now bucket place post
      → length post < n
      → Standing (skip_ended n bucket (suc place)) (now ++ elements post)
  unfolding skip_ended
  skip_ended-Standing zero now bucket place post s fuel = absurd (omega arith)
  skip_ended-Standing (suc n) (e ∷ now) bucket place post s fuel =
      let stay : (suc place == length (get_or h.buckets bucket []) + 1) ≡ false = ne→== _ _ (
        omega (
          arith,
          ap length (Split-bucket (e ∷ now) bucket place post s),
          length-append s.seen (e ∷ now),
          s.offset,
        )) in
      rw stay (at e place now post refl s)
  skip_ended-Standing (suc n) [] bucket place [] s fuel =
      let leave = Split-leaves bucket place [] s in
      let last : ltb (bucket + 1) h.bucket_cnt ≡ false =
        ge→ltb _ _ (omega (arith, Split-length [] bucket place [] s)) in
      rw (leave, last) (ended refl)
  skip_ended-Standing (suc n) [] bucket place (c ∷ post) s fuel =
      let leave = Split-leaves bucket place (c ∷ post) s in
      let more : ltb (bucket + 1) h.bucket_cnt ≡ true =
        lt→ltb _ _ (omega (arith, Split-length [] bucket place (c ∷ post) s)) in
      rw (leave, more)
        (skip_ended-Standing n c (bucket + 1) 0 post (Split-next bucket place c post s)
          (omega arith))

  module _ {κ} {S : Type κ} (action : A → S → S) where
    apply_bucket-append :
        (xs ys : List A) (s : S)
        → apply_bucket action (xs ++ ys) s ≡ apply_bucket action ys (apply_bucket action xs s)
    unfolding apply_bucket
    apply_bucket-append [] ys s = refl
    apply_bucket-append (x ∷ xs) ys s = apply_bucket-append xs ys (action x s)

    apply_buckets-elements :
        (bs : List (List A)) (s : S)
        → apply_buckets action bs s ≡ apply_bucket action (elements bs) s
    unfolding apply_buckets
    apply_buckets-elements [] s = refl
    apply_buckets-elements (b ∷ bs) s =
        apply_buckets-elements bs (apply_bucket action b s)
        ∙ sym (apply_bucket-append b (elements bs) s)

    iterate-end :
        (n : ℕ) (i i' : HashIterator) (s : S)
        → hash_next i ≡ some i'
        → i'.elem ≡ none
        → iterate (suc n) action i s ≡ some s
    unfolding iterate
    iterate-end n i i' s next end = rw (next, iterate, end) refl

    iterate-at :
        (n p : ℕ) (i i' : HashIterator) (e : A) (s : S)
        → hash_next i ≡ some i'
        → i'.elem ≡ some p
        → hash_cur i' ≡ some e
        → iterate (suc n) action i s ≡ iterate n action i' (action e s)
    unfolding iterate
    iterate-at n p i i' e s next here cur = rw (next, iterate) (simp (here, cur) refl)

    iterate-apply_bucket :
        (n : ℕ) (left : List A) (i i' : HashIterator) (s : S)
        → hash_next i ≡ some i'
        → Standing i' left
        → length left < n
        → iterate n action i s ≡ some (apply_bucket action left s)
    unfolding hash_cur hash_next apply_bucket
    iterate-apply_bucket zero left i i' s next st fuel = absurd (omega arith)
    iterate-apply_bucket (suc n) [] i i' s next (ended end) fuel = iterate-end n i i' s next end
    iterate-apply_bucket (suc n) (e ∷ rest) i i' s next (at e' place now post here sp) fuel =
        let found : get_elem? (get_or h.buckets i'.bucket []) place ≡ some e' =
          ap (λ b. get_elem? b place) (Split-bucket (e' ∷ now) i'.bucket place post sp)
          ∙ get_elem?-append sp.seen e' now place sp.offset in
        iterate-at n (suc place) i i' e' s next here (rw here found)
        ∙ (iterate-apply_bucket n (now ++ elements post) i'
            (skip_ended h.bucket_cnt i'.bucket (suc (suc place))) (action e' s) (rw here refl)
            (skip_ended-Standing h.bucket_cnt now i'.bucket (suc place) post
              (Split-skip i'.bucket place e' now post sp)
              (omega (arith, Split-length (e' ∷ now) i'.bucket place post sp)))
            (omega arith))

    -- On a table with at least one bucket, as many as bucket_cnt says, the documented loop,
    -- hash_first and then hash_next until it returns null with an action on hash_cur, ends after
    -- at most one round more than there are elements, and has done what hash_apply does with that
    -- action.
    pub iterate-hash_apply :
        (n : ℕ) (s : S)
        → h.bucket_cnt ≡ length h.buckets
        → 1 ≤ h.bucket_cnt
        → length (elements h.buckets) < n
        → iterate n action hash_first s ≡ some (hash_apply h action s)
    unfolding hash_apply hash_first hash_next
    iterate-hash_apply n s count some_buckets fuel =
        iterate-apply_bucket n (elements h.buckets) hash_first (skip_ended h.bucket_cnt 0 1) s refl
          (first h.buckets refl) fuel
        ∙ ap some (sym (apply_buckets-elements h.buckets s))
      where
        first :
            (bs : List (List A))
            → h.buckets ≡ bs
            → Standing (skip_ended h.bucket_cnt 0 1) (elements bs)
        first [] none_left = absurd (omega (arith, count, ap length none_left))
        first (b ∷ bs) all_left =
            skip_ended-Standing h.bucket_cnt b 0 0 bs
              (record {
                before = [];
                seen = [];
                parts = all_left;
                index = refl;
                offset = refl;
                count = count;
              })
              (omega (arith, count, ap length all_left))
