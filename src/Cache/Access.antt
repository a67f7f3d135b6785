-- ===== src/Cache/Access.antt =====
-- `cache_read` and `cache_write` against the sectors that readers see.
use spring_os.Prelude.{
  ℕ, ◌+◌, ◌≤◌, ◌≡◌, refl, ap, ◌∙◌, true, false, none, some, List, [], ◌∷◌, ◌++◌, arith, ◌==◌,
  if◌then◌else◌, length, take, drop, length-append, Bool-cases, inl, inr, le→leb, ==_refl, ==→eq,
}
use spring_os.Prelude.Outcome.{Returns, Returns-bind}
use spring_os.Disk.{Block, Disk, sector_size, in_range}
use spring_os.Cache.{
  Entry, Cache, cache_max_sector_no, read_entry, write_entry, bump, splice, cache_read, cache_write,
}
use spring_os.Cache.Entries.{view, cached, InOrder, view-snoc, InOrder-snoc}
use spring_os.Cache.Replace.{Blocks}
use spring_os.Cache.Splice.{length-splice, splice_same}
use spring_os.Cache.Locate.{Located, read_entry-Located, write_entry-Located}

-- The sectors that a cache and its disk stand for.
abbrev pub content : Cache → ℕ → Block
content c = view c.entries c.disk

-- At most 64 entries, no sector twice, clean entries equal to their sector, sectors of 512 bytes.
pub record IsValid (c : Cache) : Type 0 where
  pub order : InOrder c.disk c.entries
  pub bounded : length c.entries ≤ cache_max_sector_no
  pub blocks : Blocks c.disk

length-view :
    (es : List Entry) (d : Disk) (s : ℕ)
    → InOrder d es
    → Blocks d
    → length (view es d s) ≡ sector_size
length-view [] d s ok blocks = blocks s
length-view (e ∷ es) d s ok blocks = ground (arith, ok.0.full, length-view es d s ok.2 blocks)

pub length-content : (c : Cache) → IsValid c → (s : ℕ) → length (content c s) ≡ sector_size
length-content c valid s = length-view c.entries c.disk s valid.order valid.blocks

-- What an operation leaves behind: a valid cache over the same disk, its lock free.
pub record Settled (disk_capacity : ℕ) (c' : Cache) : Type 0 where
  pub valid : IsValid c'
  pub free : c'.holder ≡ none
  pub capacity : c'.disk.capacity ≡ disk_capacity

-- Pushing the entry back, perhaps changed.
module _ (d : Disk) (es : List Entry) (s : ℕ) (d' : Disk) (others : List Entry) (e : Entry)
    (located : Located d es s d' others e) (on_disk : in_range d s ≡ true) where
  pub pushed-view :
      (f : Entry) (t : ℕ)
      → f.sector_idx ≡ s
      → view (others ++ (f ∷ [])) d' t ≡ (if s == t then f.buffer else view es d t)
  pushed-view f t is =
      ground (arith, view-snoc others f d' t, located.alone, located.same t, ap (cached others) is)

  abbrev pub pushed : Entry → Cache
  pushed f = record { entries = others ++ (f ∷ []); disk = d'; holder = none }

  pub pushed-Settled :
      (f : Entry)
      → f.sector_idx ≡ s
      → length f.buffer ≡ sector_size
      → (f.dirty ≡ false → f.buffer ≡ d'.content s)
      → Settled d.capacity (pushed f)
  pushed-Settled f is full clean = record {
    valid = record {
      order =
          InOrder-snoc d' others f located.rest
            (record {
              full = full;
              on_disk = rw (is, located.capacity) on_disk;
              clean = λ y. rw is (clean y);
            })
            (rw is located.alone);
      bounded = omega (arith, length-append others (f ∷ []), located.room);
      blocks = located.blocks;
    };
    free = refl;
    capacity = located.capacity;
  }

  -- An entry that holds what readers saw before.
  pushed-same : (t : ℕ) → e.buffer ≡ view es d s → content (pushed (bump e)) t ≡ view es d t
  pushed-same t same = elim (Bool-cases (s == t)) [
    | inl hit ↦
        rw (pushed-view (bump e) t located.is_sector, hit) (same ∙ ap (view es d) (==→eq s t hit))
    | inr miss ↦ rw (pushed-view (bump e) t located.is_sector, miss)
  ]

module _ (me sec ofs : ℕ) (junk : Block) (c : Cache) (valid : IsValid c) (free : c.holder ≡ none)
    (on_disk : in_range c.disk sec ≡ true) where
  -- On a valid cache whose lock is free, cache_read of bytes within a sector of the disk, with
  -- memory for a new entry, returns these bytes of the sector; no sector changes as a reader sees
  -- it, and the cache is valid again (at most 64 entries, none twice, clean entries as on the
  -- disk) with its lock free and a disk of the same size.
  pub cache_read-content :
      (size : ℕ)
      → ofs + size ≤ sector_size
      → Returns
          (λ (bytes, c').
            (bytes ≡ take size (drop ofs (content c sec)))
            × ((t : ℕ) → content c' t ≡ content c t)
            × Settled c.disk.capacity c')
          (cache_read me (some junk) c sec ofs size)
  unfolding cache_read
  cache_read-content size fits = rw free (
      Returns-bind _ _ (read_entry (some junk) sec c.disk c.entries) _
        (read_entry-Located c.disk c.entries sec valid.order valid.blocks valid.bounded junk
          on_disk)
        λ (d', others, e) (located, same).
          rw (le→leb (ofs + size) sector_size fits, ==_refl me)
            (
              ap (λ b. take size (drop ofs b)) same,
              (λ t. pushed-same c.disk c.entries sec d' others e located on_disk t same),
              pushed-Settled c.disk c.entries sec d' others e located on_disk (bump e)
                  located.is_sector located.full located.clean,
            ))

  -- On a valid cache whose lock is free, cache_write of bytes that fit a sector of the disk, with
  -- memory for a new entry, returns; the given bytes of that sector are replaced, every other byte
  -- and sector is as before for a reader, and the cache is valid again with its lock free and a
  -- disk of the same size.
  pub cache_write-content :
      (bytes : List ℕ)
      → ofs + length bytes ≤ sector_size
      → length junk ≡ sector_size
      → Returns
          (λ c'.
            ((t : ℕ)
              → content c' t ≡ (if sec == t then splice (content c sec) ofs bytes else content c t))
            × Settled c.disk.capacity c')
          (cache_write me (some junk) c sec bytes ofs)
  unfolding cache_write
  cache_write-content bytes fits whole = rw free (
      Returns-bind _ _ (write_entry (some junk) sec ofs (length bytes) c.disk c.entries) _
        (write_entry-Located c.disk c.entries sec valid.order valid.blocks valid.bounded junk
          on_disk ofs (length bytes) whole)
        λ (d', others, e) (located, same).
          rw (le→leb (ofs + length bytes) sector_size fits, ==_refl me)
            (
              (λ t. rw (
                pushed-view c.disk c.entries sec d' others e located on_disk
                    (bump (record e { dirty = true; buffer = splice e.buffer ofs bytes })) t
                    located.is_sector,
                splice_same e.buffer (content c sec) ofs bytes located.full
                    (length-content c valid sec) same,
              )),
              pushed-Settled c.disk c.entries sec d' others e located on_disk
                  (bump (record e { dirty = true; buffer = splice e.buffer ofs bytes }))
                  located.is_sector (length-splice e.buffer ofs bytes located.full fits) (λ y. cc),
            ))
