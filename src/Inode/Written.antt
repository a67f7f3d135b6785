-- ===== src/Inode/Written.antt =====
-- Bytes written into a file, as a change of its sectors.
use spring_os.Prelude.{
  ℕ, ◌+◌, ◌-◌, ◌*◌, ◌/◌, ◌%◌, ◌≤◌, ◌<◌, ◌≡◌, ◌≢◌, refl, sym, ap, ap₂, subst, ◌∙◌, true, false, ◌&&◌,
  inl, inr, List, [], ◌++◌, ltb, leb, ◌==◌, if◌then◌else◌, Bool-cases, ==→eq, ==→ne, ==_refl, ne→==,
  arith, get_or, length, length-append, get_or-append,
}
use spring_os.Disk.{Block, sector_size, update}
use spring_os.Cache.{splice}
use spring_os.Cache.Splice.{get_or-splice}
use spring_os.Inode.{bytes_to_sectors}
use spring_os.Inode.Map.{file_length, block_of}
use spring_os.Inode.Read.{byte_at}
use spring_os.Inode.Apart.{Apart, block_of-outside, file_length-outside}

abbrev pub blocks_of : (ℕ → Block) → ℕ → ℕ
blocks_of f i = bytes_to_sectors (file_length f i)

-- `f'` is `f` with `bytes` written into the file from `offset` on.
pub record Written (f : ℕ → Block) (i offset : ℕ) (bytes : List ℕ) (f' : ℕ → Block) : Type 0 where
  pub outside : (t : ℕ) → ((k : ℕ) → k < blocks_of f i → block_of f i k ≢ t) → f' t ≡ f t
  pub byte :
      (p : ℕ)
      → p < blocks_of f i * 512
      → byte_at f' i p ≡ (
          if leb offset p && ltb p (offset + length bytes)
          then get_or bytes (p - offset) 0
          else byte_at f i p)

module _ (f : ℕ → Block) (i : ℕ) (apart : Apart f i (blocks_of f i)) where
  pub Written-nil : (offset : ℕ) → Written f i offset [] f
  Written-nil offset = record { outside = λ t h. refl; byte = λ p h. ground arith }

  pub Written-append :
      (offset : ℕ) (xs ys : List ℕ) (f' f'' : ℕ → Block)
      → Written f i offset xs f'
      → Written f' i (offset + length xs) ys f''
      → Written f i offset (xs ++ ys) f''
  Written-append offset xs ys f' f'' first rest =
      let same_length : file_length f' i ≡ file_length f i =
        file_length-outside f f' i (blocks_of f i) apart first.outside in
      record {
        outside = λ t h.
            rest.outside t (λ k lt e. h k (subst (λ m. k < bytes_to_sectors m) same_length lt) (
              sym (
                block_of-outside f f' i (blocks_of f i) apart first.outside k
                  (subst (λ m. k < bytes_to_sectors m) same_length lt))
              ∙ e))
            ∙ first.outside t h;
        byte = λ p h. ground (
          arith,
          rest.byte p (subst (λ m. p < bytes_to_sectors m * 512) (sym same_length) h),
          first.byte p h,
          length-append xs ys,
          get_or-append xs ys (p - offset) 0,
        );
      }

  -- One sector of the file is written.
  pub Written-sector :
      (offset : ℕ) (bytes : List ℕ)
      → ((t : ℕ) → length (f t) ≡ sector_size)
      → offset / 512 < blocks_of f i
      → offset % 512 + length bytes ≤ 512
      → Written f i offset bytes (
          update f
            (block_of f i (offset / 512))
            (splice (f (block_of f i (offset / 512))) (offset % 512) bytes))
  Written-sector offset bytes full h fits = record { outside = outside'; byte = byte' }
    where
      here : ℕ
      here = block_of f i (offset / 512)

      f' : ℕ → Block
      f' = update f here (splice (f here) (offset % 512) bytes)

      outside' : (t : ℕ) → ((k : ℕ) → k < blocks_of f i → block_of f i k ≢ t) → f' t ≡ f t
      outside' t miss = rw (ne→== here t (miss (offset / 512) h)) refl

      within :
          (p : ℕ)
          → offset / 512 ≡ p / 512
          → get_or (f' (block_of f i (p / 512))) (p % 512) 0 ≡ (
              if leb offset p && ltb p (offset + length bytes)
              then get_or bytes (p - offset) 0
              else byte_at f i p)
      within p same =
          let hit : (here == block_of f i (p / 512)) ≡ true =
            subst (λ q. (here == block_of f i q) ≡ true) same (==_refl here) in
          let tests_same : (leb (offset % 512) (p % 512)
                && ltb (p % 512) (offset % 512 + length bytes))
              ≡ (leb offset p && ltb p (offset + length bytes)) =
            ground arith in
          let place : p % 512 - offset % 512 ≡ p - offset = omega arith in
          rw hit (
            get_or-splice (f here) (offset % 512) bytes (p % 512) (omega (arith, full here))
            ∙ ap₂ (λ b x. if b then get_or bytes x 0 else get_or (f here) (p % 512) 0) tests_same
                place
            ∙ ap
                (λ q.
                  if leb offset p && ltb p (offset + length bytes)
                  then get_or bytes (p - offset) 0
                  else get_or (f (block_of f i q)) (p % 512) 0)
                same)

      elsewhere :
          (p : ℕ)
          → p < blocks_of f i * 512
          → offset / 512 ≢ p / 512
          → get_or (f' (block_of f i (p / 512))) (p % 512) 0 ≡ (
              if leb offset p && ltb p (offset + length bytes)
              then get_or bytes (p - offset) 0
              else byte_at f i p)
      elsewhere p inside other =
          let miss : (here == block_of f i (p / 512)) ≡ false =
            ne→== _ _ (apart.distinct (offset / 512) (p / 512) h (omega arith) other) in
          let not_here : (leb offset p && ltb p (offset + length bytes)) ≡ false = ground arith in
          rw (miss, not_here) refl

      byte' :
          (p : ℕ)
          → p < blocks_of f i * 512
          → byte_at f' i p ≡ (
              if leb offset p && ltb p (offset + length bytes)
              then get_or bytes (p - offset) 0
              else byte_at f i p)
      byte' p inside =
          ap (λ t. get_or (f' t) (p % 512) 0)
            (block_of-outside f f' i (blocks_of f i) apart outside' (p / 512) (omega arith))
          ∙ elim (Bool-cases (offset / 512 == p / 512)) [
            | inl same ↦ within p (==→eq _ _ same)
            | inr other ↦ elsewhere p inside (==→ne _ _ other)
          ]
