-- ===== src/Inode/Apart.antt =====
-- Files whose blocks are distinct sectors, none of them a sector of the tree: what a write of a block
-- leaves of the tree.
use spring_os.Prelude.{
  ℕ, ◌+◌, ◌-◌, ◌*◌, ◌/◌, ◌%◌, ◌<◌, ◌≡◌, ◌≢◌, refl, sym, ap, ◌∙◌, Bool, inl, inr, ltb, Bool-cases,
  arith,
}
use spring_os.Disk.{Block}
use spring_os.Inode.{direct_cnt, indirect_cnt, direct_ofs, word}
use spring_os.Inode.Map.{file_length, indirect_table, doubly_table, inner_table, block_of, Tree}

pub record Apart (f : ℕ → Block) (i n : ℕ) : Type 0 where
  pub distinct : (k k' : ℕ) → k < n → k' < n → k ≢ k' → block_of f i k ≢ block_of f i k'
  pub not_root : (k : ℕ) → k < n → block_of f i k ≢ i
  pub not_indirect : (k : ℕ) → k < n → direct_cnt < n → block_of f i k ≢ indirect_table f i
  pub not_doubly :
      (k : ℕ) → k < n → direct_cnt + indirect_cnt < n → block_of f i k ≢ doubly_table f i
  pub not_inner :
      (k j : ℕ)
      → k < n
      → direct_cnt + indirect_cnt + j * indirect_cnt < n
      → block_of f i k ≢ inner_table f i j

module _ (f f' : ℕ → Block) (i n : ℕ) (apart : Apart f i n)
    (outside : (t : ℕ) → ((k : ℕ) → k < n → block_of f i k ≢ t) → f' t ≡ f t) where
  same_root : f' i ≡ f i
  same_root = outside i (λ k h. apart.not_root k h)

  same_indirect : direct_cnt < n → f' (indirect_table f i) ≡ f (indirect_table f i)
  same_indirect more = outside (indirect_table f i) (λ k h. apart.not_indirect k h more)

  same_doubly : direct_cnt + indirect_cnt < n → f' (doubly_table f i) ≡ f (doubly_table f i)
  same_doubly more = outside (doubly_table f i) (λ k h. apart.not_doubly k h more)

  pub inner_table-outside :
      (j : ℕ)
      → direct_cnt + indirect_cnt + j * indirect_cnt < n
      → inner_table f' i j ≡ inner_table f i j
  inner_table-outside j h = rw same_root (ap (λ b. word b (j * 4)) (same_doubly (omega arith)))

  same_inner :
      (j : ℕ)
      → direct_cnt + indirect_cnt + j * indirect_cnt < n
      → f' (inner_table f' i j) ≡ f (inner_table f i j)
  same_inner j h =
      ap f' (inner_table-outside j h)
      ∙ outside (inner_table f i j) (λ k h'. apart.not_inner k j h' h)

  -- The tree is the same.
  pub block_of-outside : (k : ℕ) → k < n → block_of f' i k ≡ block_of f i k
  block_of-outside k h = elim (Bool-cases (ltb k direct_cnt)) [
    | inl direct ↦ rw direct (ap (λ b. word b (direct_ofs + 4 * k)) same_root)
    | inr more ↦ elim (Bool-cases (ltb k (direct_cnt + indirect_cnt))) [
      | inl single ↦
          rw (more, single, same_root)
            (ap (λ b. word b ((k - direct_cnt) * 4)) (same_indirect (ground (arith, more))))
      | inr double ↦
          rw (more, double)
            (ap (λ b. word b ((k - direct_cnt - indirect_cnt) % indirect_cnt * 4))
              (same_inner ((k - direct_cnt - indirect_cnt) / indirect_cnt)
                (ground (arith, double))))
    ]
  ]

  pub file_length-outside : file_length f' i ≡ file_length f i
  file_length-outside = rw same_root

  pub Tree-outside : (on_disk : ℕ → Bool) → Tree on_disk f i n → Tree on_disk f' i n
  Tree-outside on_disk tree = record {
    root = tree.root;
    fits = tree.fits;
    indirect = λ h. rw same_root (tree.indirect h);
    doubly = λ h. rw same_root (tree.doubly h);
    inner = λ j h. ap on_disk (inner_table-outside j h) ∙ tree.inner j h;
    blocks = λ k h. ap on_disk (block_of-outside k h) ∙ tree.blocks k h;
  }

  pub Apart-outside : Apart f' i n
  Apart-outside = record {
    distinct = λ k k' h h' ne e.
        apart.distinct k k' h h' ne (sym (block_of-outside k h) ∙ e ∙ block_of-outside k' h');
    not_root = λ k h e. apart.not_root k h (sym (block_of-outside k h) ∙ e);
    not_indirect = λ k h more e.
        apart.not_indirect k h more (sym (block_of-outside k h) ∙ e ∙ rw same_root refl);
    not_doubly = λ k h more e.
        apart.not_doubly k h more (sym (block_of-outside k h) ∙ e ∙ rw same_root refl);
    not_inner = λ k j h more e.
        apart.not_inner k j h more (sym (block_of-outside k h) ∙ e ∙ inner_table-outside j more);
  }
