-- ===== src/Cache/Touch.antt =====
-- Which sectors are cached after an access, and `find_cache` by itself, which makes its entry the most
-- recently used one.
use spring_os.Prelude.{
  ℕ, ◌+◌, ◌≤◌, ◌≡◌, refl, ap, ◌∙◌, true, none, some, List, [], ◌∷◌, ◌++◌, arith, ◌==◌, length,
  Bool-cases, inl, inr, le→leb, ==_refl, ==→eq,
}
use spring_os.Prelude.Outcome.{Returns, Returns-bind}
use spring_os.Disk.{Block, sector_size, in_range}
use spring_os.Cache.{Entry, Cache, read_entry, write_entry, bump, splice, cache_read, cache_write}
use spring_os.Cache.Entries.{view, cached, cached-snoc, Found}
use spring_os.Cache.Locate.{Located-Found, read_entry-Located, write_entry-Located}
use spring_os.Cache.Access.{content, IsValid, Settled, pushed-view, pushed-Settled}

cached-pushed :
    (others : List Entry) (f : Entry) (s : ℕ)
    → f.sector_idx ≡ s
    → cached (others ++ (f ∷ [])) s ≡ true
cached-pushed others f s is = rw (cached-snoc others f s) (ground (arith, is, ==_refl s))

module _ (me sec ofs : ℕ) (junk : Block) (c : Cache) (valid : IsValid c) (free : c.holder ≡ none)
    (on_disk : in_range c.disk sec ≡ true) where
  pub cache_read-cached :
      (size : ℕ)
      → ofs + size ≤ sector_size
      → Returns
          (λ (bytes, c'). cached c'.entries sec ≡ true)
          (cache_read me (some junk) c sec ofs size)
  unfolding cache_read
  cache_read-cached size fits = rw free (
      Returns-bind _ _ (read_entry (some junk) sec c.disk c.entries) _
        (read_entry-Located c.disk c.entries sec valid.order valid.blocks valid.bounded junk
          on_disk)
        λ (d', others, e) (located, same).
          rw (le→leb (ofs + size) sector_size fits, ==_refl me)
            (cached-pushed others (bump e) sec located.is_sector))

  pub cache_write-cached :
      (bytes : List ℕ)
      → ofs + length bytes ≤ sector_size
      → length junk ≡ sector_size
      → Returns (λ c'. cached c'.entries sec ≡ true) (cache_write me (some junk) c sec bytes ofs)
  unfolding cache_write
  cache_write-cached bytes fits whole = rw free (
      Returns-bind _ _ (write_entry (some junk) sec ofs (length bytes) c.disk c.entries) _
        (write_entry-Located c.disk c.entries sec valid.order valid.blocks valid.bounded junk
          on_disk ofs (length bytes) whole)
        λ (d', others, e) (located, same).
          rw (le→leb (ofs + length bytes) sector_size fits, ==_refl me)
            (cached-pushed others
              (bump (record e { dirty = true; buffer = splice e.buffer ofs bytes })) sec
              located.is_sector))

-- A found entry moves to the back, with another count of openers.
pub find_cache-Settled :
    (c : Cache) (s n : ℕ) (others : List Entry) (e : Entry)
    → IsValid c
    → c.holder ≡ none
    → Found c.disk s c.entries others e
    → ((t : ℕ)
        → content (record c { entries = others ++ (record e { open_cnt = n } ∷ []) }) t
          ≡ content c t)
      × Settled c.disk.capacity (record c { entries = others ++ (record e { open_cnt = n } ∷ []) })
find_cache-Settled c s n others e valid free found =
    let (located, same) =
      Located-Found c.disk c.entries s valid.order valid.blocks valid.bounded others e found in
    let on : in_range c.disk s ≡ true = rw (← found.is_sector) found.entry.on_disk in
    let after : Entry = record e { open_cnt = n } in
    (
      λ t.
          pushed-view c.disk c.entries s c.disk others e located on after t found.is_sector
          ∙ elim (Bool-cases (s == t)) [
            | inl hit ↦ rw hit (same ∙ ap (view c.entries c.disk) (==→eq s t hit))
            | inr miss ↦ rw miss refl
          ],
      rw free (
          pushed-Settled c.disk c.entries s c.disk others e located on after found.is_sector
            located.full located.clean),
    )
