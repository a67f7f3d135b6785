-- ===== src/Cache/Locate.antt =====
-- `make_cache`, and the entry that `cache_read` or `cache_write` works on.
use spring_os.Prelude.{
  ℕ, ◌≤◌, ◌<◌, ◌≡◌, refl, sym, ◌∙◌, Bool, true, false, ◌||◌, Option, none, some, List, [], ◌∷◌,
  arith, ◌==◌, ltb, leb, length, Bool-cases, inl, inr,
}
use spring_os.Prelude.Outcome.{done, Returns, Returns-bind, Returns-mono, ◌>>=◌}
use spring_os.Disk.{Block, Disk, sector_size, in_range}
use spring_os.Cache.{
  Entry, cache_max_sector_no, evict_cache, make_cache, find_cache, fill, read_entry, write_entry,
}
use spring_os.Cache.Entries.{
  view, cached, InOrder, view-uncached, Found, FindResult, find_cache-FindResult,
}
use spring_os.Cache.Replace.{Blocks, Kept, evict_cache-Kept}

-- The entries that `make_cache` leaves have room for one more.
pub record Made (d : Disk) (es : List Entry) (d' : Disk) (others : List Entry) : Type 0 where
  pub kept : Kept d es d' others
  pub room : length others < cache_max_sector_no
  pub fewer : (t : ℕ) → cached es t ≡ false → cached others t ≡ false

module _ (junk : Block) (s : ℕ) (dirty : Bool) (d : Disk) where
  abbrev pub fresh : Entry
  fresh = record { buffer = junk; sector_idx = s; dirty = dirty; open_cnt = 0 }

  Kept-refl : (es : List Entry) → InOrder d es → Kept d es d es
  Kept-refl es ok = record { order = ok; same = λ t. refl; capacity = refl; blocks = λ b. b }

  pub make_cache-Made :
      (es : List Entry)
      → InOrder d es
      → length es ≤ cache_max_sector_no
      → Returns
          (λ (d', others, e). Made d es d' others × (e ≡ fresh))
          (make_cache (some junk) s dirty d es)
  unfolding make_cache
  make_cache-Made [] ok h =
      (record { kept = Kept-refl [] ok; room = omega arith; fewer = λ t c. c }, refl)
  make_cache-Made (x ∷ es) ok h = elim (Bool-cases (leb cache_max_sector_no (length (x ∷ es)))) [
    | inl is_full ↦ rw is_full (
        Returns-bind _ _ (evict_cache d (x ∷ es)) _ (evict_cache-Kept d x es ok)
          λ (d', es') (is, kept). (
            record { kept = kept; room = rw is (omega arith); fewer = λ t c. rw is (ground arith) },
            refl,
          ))
    | inr is_room ↦
        rw is_room
          (record { kept = Kept-refl (x ∷ es) ok; room = ground arith; fewer = λ t c. c }, refl)
  ]

-- The entry that an operation works on, and the others behind which it is pushed.
pub record Located (d : Disk) (es : List Entry) (s : ℕ) (d' : Disk) (others : List Entry)
    (e : Entry) : Type 0 where
  pub is_sector : e.sector_idx ≡ s
  pub alone : cached others s ≡ false
  pub room : length others < cache_max_sector_no
  pub rest : InOrder d' others
  pub full : length e.buffer ≡ sector_size
  pub clean : e.dirty ≡ false → e.buffer ≡ d'.content s
  pub same : (t : ℕ) → (s == t) ≡ false → view others d' t ≡ view es d t
  pub capacity : d'.capacity ≡ d.capacity
  pub blocks : Blocks d'

module _ (d : Disk) (es : List Entry) (s : ℕ) (ok : InOrder d es) (blocks : Blocks d)
    (bounded : length es ≤ cache_max_sector_no) where
  pub Located-Found :
      (others : List Entry) (e : Entry)
      → Found d s es others e
      → Located d es s d others e × (e.buffer ≡ view es d s)
  Located-Found others e f = (
    record {
      is_sector = f.is_sector;
      alone = f.alone;
      room = omega (arith, f.size);
      rest = f.rest;
      full = f.entry.full;
      clean = λ c. ground (arith, f.entry.clean c, f.is_sector);
      same = λ t ne. ground (arith, f.same t);
      capacity = refl;
      blocks = blocks;
    },
    ground (arith, f.same s),
  )

  -- A new entry that has been filled with the sector, or is dirty and about to be overwritten.
  Located-Made :
      (d' : Disk) (others : List Entry) (buffer : Block) (dirty : Bool)
      → cached es s ≡ false
      → Made d es d' others
      → length buffer ≡ sector_size
      → (dirty ≡ false → buffer ≡ d'.content s)
      → Located d es s d' others
          (record { buffer = buffer; sector_idx = s; dirty = dirty; open_cnt = 0 })
  Located-Made d' others buffer dirty new made full clean = record {
    is_sector = refl;
    alone = made.fewer s new;
    room = made.room;
    rest = made.kept.order;
    full = full;
    clean = clean;
    same = λ t ne. made.kept.same t;
    capacity = made.kept.capacity;
    blocks = made.kept.blocks blocks;
  }

  -- What the disk holds of a sector that is not cached is what readers see.
  content-Made :
      (d' : Disk) (others : List Entry)
      → cached es s ≡ false
      → Made d es d' others
      → d'.content s ≡ view es d s
  content-Made d' others new made =
      sym (view-uncached others d' s (made.fewer s new)) ∙ made.kept.same s

  module _ (junk : Block) (on_disk : in_range d s ≡ true) where
    fill-Located :
        (dirty : Bool) (d' : Disk) (others : List Entry)
        → cached es s ≡ false
        → Made d es d' others
        → Returns
            (λ (d'', others, e). Located d es s d'' others e × (e.buffer ≡ view es d s))
            (fill true s d' others
              (record { buffer = junk; sector_idx = s; dirty = dirty; open_cnt = 0 }))
    unfolding fill
    fill-Located dirty d' others new made =
        let there : in_range d' s ≡ true = rw made.kept.capacity on_disk in
        rw there (
          Located-Made d' others (d'.content s) dirty new made (made.kept.blocks blocks s)
              (λ c. refl),
          content-Made d' others new made,
        )

    pub read_entry-Located :
        Returns
          (λ (d', others, e). Located d es s d' others e × (e.buffer ≡ view es d s))
          (read_entry (some junk) s d es)
    unfolding read_entry
    read_entry-Located = go (find_cache s es) (find_cache-FindResult d s es ok)
      where
        go :
            (o : Option (List Entry × Entry))
            → FindResult d s es o
            → Returns
                (λ (d', others, e). Located d es s d' others e × (e.buffer ≡ view es d s))
                (elim o [
                  | some (others, e) ↦ done (d, others, e)
                  | none ↦ make_cache (some junk) s false d es >>= λ (d', others, e).
                      fill true s d' others e
                ])
        go none new =
            Returns-bind _ _ (make_cache (some junk) s false d es) _
              (make_cache-Made junk s false d es ok bounded)
              λ (d', others, e) (made, is). rw is (fill-Located false d' others new made)
        go (some (others, e)) f = Located-Found others e f

    -- A write fills a new entry from the disk exactly if it leaves some of its bytes alone.
    pub write_entry-Located :
        (ofs size : ℕ)
        → length junk ≡ sector_size
        → Returns
            (λ (d', others, e).
              Located d es s d' others e
              × ((ltb 0 ofs || ltb size sector_size) ≡ true → e.buffer ≡ view es d s))
            (write_entry (some junk) s ofs size d es)
    unfolding write_entry
    write_entry-Located ofs size whole = go (find_cache s es) (find_cache-FindResult d s es ok)
      where
        part : Bool
        part = ltb 0 ofs || ltb size sector_size

        filled :
            (b : Bool) (d' : Disk) (others : List Entry)
            → cached es s ≡ false
            → Made d es d' others
            → Returns
                (λ (d'', others, e).
                  Located d es s d'' others e × (b ≡ true → e.buffer ≡ view es d s))
                (fill b s d' others (fresh junk s true d))
        filled true d' others new made =
            Returns-mono _ _ (fill true s d' others (fresh junk s true d))
              (fill-Located true d' others new made) λ r (located, same). (located, λ y. same)
        filled false d' others new made =
            (Located-Made d' others junk true new made whole (λ c. cc), λ y. cc)

        go :
            (o : Option (List Entry × Entry))
            → FindResult d s es o
            → Returns
                (λ (d', others, e).
                  Located d es s d' others e × (part ≡ true → e.buffer ≡ view es d s))
                (elim o [
                  | some (others, e) ↦ done (d, others, e)
                  | none ↦ make_cache (some junk) s true d es >>= λ (d', others, e).
                      fill part s d' others e
                ])
        go none new =
            Returns-bind _ _ (make_cache (some junk) s true d es) _
              (make_cache-Made junk s true d es ok bounded)
              λ (d', others, e) (made, is). rw is (filled part d' others new made)
        go (some (others, e)) f =
            let (located, same) = Located-Found others e f in (located, λ y. same)
