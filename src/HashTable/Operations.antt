-- ===== src/HashTable/Operations.antt =====
-- The operations as those of a finite map.
use spring_os.Prelude.{
  ℕ, suc, ◌+◌, ◌-◌, ◌≤◌, ◌<◌, ◌^◌, ◌%◌, ◌≡◌, refl, sym, subst, Bool, true, false, Option, none,
  some, [], if◌then◌else◌, arith, replicate, Bool-cases, inl, inr, ◌==◌,
}
use spring_os.HashTable.{
  Hash, insert_elem, remove_elem, new_bucket_cnt, move_buckets, rehash, hash_init, hash_find,
  hash_insert, hash_replace, hash_delete, hash_clear,
}
use spring_os.HashTable.Power.{new_bucket_cnt-pow, new_bucket_cnt-pos}
use spring_os.HashTable.Buckets.{Keyed, alike_refl}
use spring_os.HashTable.Resize.{
  Holds, written, erased, push_to-Holds, unlink-Holds, move_buckets-Holds, replicate-Holds,
  same-Holds, present_pos, absent_alike,
}

module _ {ℓ} {A : Type ℓ} (hash : A → ℕ) (less : A → A → Bool) (key : Keyed hash less) where
  -- The table holds the map `view`; its number of buckets is a power of 2, and its elements and
  -- `room` more are counted without overflow.
  pub record Models (room : ℕ) (view : A → Option A) (h : Hash A) : Type ℓ where
    pub holds : Holds hash less key h.bucket_cnt h.elem_cnt view h.buckets
    pub power : (k : ℕ) × (h.bucket_cnt ≡ 2 ^ k)
    pub some_buckets : 1 ≤ h.bucket_cnt
    pub small : h.elem_cnt + room < 2 ^ 32

  pub fewer-Models :
      (room : ℕ) (view : A → Option A) (h : Hash A) → Models (suc room) view h → Models room view h
  fewer-Models room view h ok = record {
    holds = ok.holds;
    power = ok.power;
    some_buckets = ok.some_buckets;
    small = omega (arith, ok.small);
  }

  rehash-Models :
      (room : ℕ) (malloc : Bool) (view : A → Option A) (h : Hash A)
      → Models room view h
      → Models room view (rehash hash less malloc h)
  unfolding rehash
  rehash-Models room malloc view h ok =
      elim (Bool-cases (new_bucket_cnt h.elem_cnt == h.bucket_cnt)) [
        | inl same ↦ rw same ok
        | inr other ↦ rw other (either malloc)
      ]
    where
      moved : Hash A
      moved = record h {
        bucket_cnt = new_bucket_cnt h.elem_cnt;
        buckets =
            move_buckets hash less (new_bucket_cnt h.elem_cnt) h.buckets
              (replicate (new_bucket_cnt h.elem_cnt) []);
      }

      either : (malloc : Bool) → Models room view (if malloc then moved else h)
      either true = record {
        holds =
            move_buckets-Holds hash less key h.bucket_cnt (new_bucket_cnt h.elem_cnt) h.elem_cnt
              view h.buckets (new_bucket_cnt-pos h.elem_cnt) ok.holds;
        power = new_bucket_cnt-pow h.elem_cnt;
        some_buckets = new_bucket_cnt-pos h.elem_cnt;
        small = ok.small;
      }
      either false = ok

  insert_elem-Models :
      (room : ℕ) (view : A → Option A) (h : Hash A) (new : A)
      → Models (suc room) view h
      → view new ≡ none
      → Models room (written hash less key new view) (insert_elem hash less h new)
  insert_elem-Models room view h new ok absent = record {
    holds =
        same-Holds hash less key h.bucket_cnt (h.elem_cnt + 1) ((h.elem_cnt + 1) % 2 ^ 32) _ _ _
          (omega arith) (λ q. refl)
          (push_to-Holds hash less key h.bucket_cnt h.elem_cnt view h.buckets new ok.some_buckets
            ok.holds absent);
    power = ok.power;
    some_buckets = ok.some_buckets;
    small = omega arith;
  }

  remove_elem-Models :
      (room : ℕ) (view : A → Option A) (h : Hash A) (e old : A)
      → Models room view h
      → view e ≡ some old
      → Models (suc room) (erased hash less key e view) (remove_elem hash less h e)
  remove_elem-Models room view h e old ok present =
      let pos : 1 ≤ h.elem_cnt =
        present_pos hash less key h.bucket_cnt h.elem_cnt view h.buckets ok.holds e old present in
      record {
        holds =
            same-Holds hash less key h.bucket_cnt (h.elem_cnt - 1)
              ((h.elem_cnt + (2 ^ 32 - 1)) % 2 ^ 32) _ _ _ (omega (arith, ok.small)) (λ q. refl)
              (unlink-Holds hash less key h.bucket_cnt (h.elem_cnt - 1) view h.buckets e old
                ok.some_buckets
                (same-Holds hash less key h.bucket_cnt h.elem_cnt (h.elem_cnt - 1 + 1) view view
                  h.buckets (omega arith) (λ q. refl) ok.holds)
                present);
        power = ok.power;
        some_buckets = ok.some_buckets;
        small = omega (arith, ok.small);
      }

  -- Only an absent element is added.
  abbrev pub inserted : A → (A → Option A) → A → Option A
  inserted new view q = elim (view new) as (λ _. Option A) [
    | none ↦ written hash less key new view q
    | some _ ↦ view q
  ]

  pub hash_insert-Models :
      (room : ℕ) (malloc : Bool) (view : A → Option A) (h : Hash A) (new : A)
      → Models (suc room) view h
      → ((hash_insert hash less malloc h new).0 ≡ view new)
        × Models room (inserted new view) (hash_insert hash less malloc h new).1
  unfolding hash_insert
  hash_insert-Models room malloc view h new ok = (
    ok.holds.reads new,
    subst (λ o. Models room (inserted new view) (rehash hash less malloc (after o)))
        (sym (ok.holds.reads new))
        (rehash-Models room malloc (inserted new view) (after (view new)) (go (view new) refl)),
  )
    where
      after : Option A → Hash A
      after o = elim o [ none ↦ insert_elem hash less h new | some _ ↦ h ]

      go :
          (o : Option A)
          → view new ≡ o
          → Models room
              (λ q. elim o as (λ _. Option A) [
                | none ↦ written hash less key new view q
                | some _ ↦ view q
              ])
              (after o)
      go none absent = insert_elem-Models room view h new ok absent
      go (some old) present = fewer-Models room view h ok

  -- A table that holds one map holds any that is equal to it everywhere.
  same-Models :
      (room : ℕ) (view view' : A → Option A) (h : Hash A)
      → ((q : A) → view q ≡ view' q)
      → Models room view h
      → Models room view' h
  same-Models room view view' h same ok = record {
    holds =
        same-Holds hash less key h.bucket_cnt h.elem_cnt h.elem_cnt view view' h.buckets refl same
          ok.holds;
    power = ok.power;
    some_buckets = ok.some_buckets;
    small = ok.small;
  }

  pub hash_replace-Models :
      (room : ℕ) (malloc : Bool) (view : A → Option A) (h : Hash A) (new : A)
      → Models (suc room) view h
      → ((hash_replace hash less malloc h new).0 ≡ view new)
        × Models room (written hash less key new view) (hash_replace hash less malloc h new).1
  unfolding hash_replace
  hash_replace-Models room malloc view h new ok = (
    ok.holds.reads new,
    subst
        (λ o.
          Models room (written hash less key new view)
            (rehash hash less malloc (insert_elem hash less (without o) new)))
        (sym (ok.holds.reads new))
        (rehash-Models room malloc (written hash less key new view)
          (insert_elem hash less (without (view new)) new) (go (view new) refl)),
  )
    where
      without : Option A → Hash A
      without o = elim o [ none ↦ h | some _ ↦ remove_elem hash less h new ]

      go :
          (o : Option A)
          → view new ≡ o
          → Models room (written hash less key new view) (insert_elem hash less (without o) new)
      go none absent = insert_elem-Models room view h new ok absent
      go (some old) present =
          let removed =
            remove_elem-Models room view h new old (fewer-Models room view h ok) present in
          same-Models room _ _ _ (λ q. ground arith)
            (insert_elem-Models room (erased hash less key new view) (remove_elem hash less h new)
              new removed (ground (arith, alike_refl hash less key new)))

  pub hash_delete-Models :
      (room : ℕ) (malloc : Bool) (view : A → Option A) (h : Hash A) (e : A)
      → Models room view h
      → ((hash_delete hash less malloc h e).0 ≡ view e)
        × Models room (erased hash less key e view) (hash_delete hash less malloc h e).1
  unfolding hash_delete
  hash_delete-Models room malloc view h e ok = (
    ok.holds.reads e,
    subst (λ o. Models room (erased hash less key e view) (after o)) (sym (ok.holds.reads e))
        (go (view e) refl),
  )
    where
      after : Option A → Hash A
      after o = elim o [ none ↦ h | some _ ↦ rehash hash less malloc (remove_elem hash less h e) ]

      go : (o : Option A) → view e ≡ o → Models room (erased hash less key e view) (after o)
      go none absent =
          same-Models room view (erased hash less key e view) h
            (λ q. ground (
              arith,
              absent_alike hash less key h.bucket_cnt h.elem_cnt view h.buckets ok.holds e q absent,
            ))
            ok
      go (some old) present =
          rehash-Models room malloc _ (remove_elem hash less h e)
            (fewer-Models room _ _ (remove_elem-Models room view h e old ok present))

  pub hash_find-Models :
      (room : ℕ) (view : A → Option A) (h : Hash A) (e : A)
      → Models room view h
      → hash_find hash less h e ≡ view e
  unfolding hash_find
  hash_find-Models room view h e ok = ok.holds.reads e

  empty-Models :
      (room : ℕ)
      → room < 2 ^ 32
      → (n : ℕ) → (k : ℕ) × (n ≡ 2 ^ k)
      → 1 ≤ n
      → Models room (λ _. none) (record { elem_cnt = 0; bucket_cnt = n; buckets = replicate n [] })
  empty-Models room small n power pos = record {
    holds = replicate-Holds hash less key n;
    power = power;
    some_buckets = pos;
    small = omega arith;
  }

  pub hash_init-Models :
      (room : ℕ) (h : Hash A)
      → room < 2 ^ 32
      → hash_init hash less true ≡ some h
      → Models room (λ _. none) h
  unfolding hash_init
  hash_init-Models room h small e =
      subst (Models room (λ _. none)) (cc) (empty-Models room small 4 (2, refl) (omega arith))

  pub hash_clear-Models :
      (room : ℕ) (view : A → Option A) (h : Hash A)
      → Models room view h
      → Models room (λ _. none) (hash_clear h).1
  unfolding hash_clear
  hash_clear-Models room view h ok =
      empty-Models room (omega (arith, ok.small)) h.bucket_cnt ok.power ok.some_buckets
