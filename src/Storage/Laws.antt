-- ===== src/Storage/Laws.antt =====
-- The mounted cache and free map keep the promises of the storage.
use mathlib.Core.Path.{fun_ext}
use spring_os.Prelude.{
  ℕ, ◌+◌, ◌-◌, ◌≤◌, ◌≡◌, refl, sym, ap, subst, ◌∙◌, ◌%◌, ◌^◌, Bool, true, false, Option, none, some,
  List, [], ◌∷◌, ◌++◌, ◌⊎◌, inl, inr, arith, ◌==◌, if◌then◌else◌, length, take, drop, Bool-cases,
  ==→eq,
}
use spring_os.Prelude.Outcome.{
  Outcome, done, blocked, panic, fault, Returns, Returns-both, Returns-bind,
}
use spring_os.Thread.Invariant.{false≢true}
use spring_os.Disk.{Block, Disk, sector_size, in_range, update}
use spring_os.Bitmap.{Bitmap}
use spring_os.Bitmap.Bit.{bit_at}
use spring_os.Bitmap.Bit
use spring_os.Cache
use spring_os.Cache.{Cache, Entry, find_cache, splice}
use spring_os.Cache.Entries.{cached, InOrder, Found, FindResult, find_cache-FindResult}
use spring_os.Cache.Access.{
  content, Settled, length-content, cache_read-content, cache_write-content,
}
use spring_os.Cache.Errors.{cache_read-panic}
use spring_os.Cache.Touch.{cache_read-cached, cache_write-cached, find_cache-Settled}
use spring_os.FreeMap
use spring_os.FreeMap.Sectors.{Allocated, got, exhausted, unwritten, free_map_allocate-Allocated}
use spring_os.Storage.{Storage, Lawful}
use spring_os.Storage.Mounted.{Mounted, Fit, on_disk, mounted, close_entry, cache_read_ahead}

cached-on_disk :
    (d : Disk) (es : List Entry) (t : ℕ) → InOrder d es → cached es t ≡ true → in_range d t ≡ true
cached-on_disk d [] t ok h = absurd (cc)
cached-on_disk d (e ∷ es) t ok h = elim (Bool-cases (e.sector_idx == t)) [
  | inl hit ↦ ap (in_range d) (sym (==→eq e.sector_idx t hit)) ∙ ok.0.on_disk
  | inr miss ↦ cached-on_disk d es t ok.2 (ground arith)
]

module _ (me : ℕ) (junk : Block) (whole : length junk ≡ sector_size) (opened written : Bool)
    (capacity : ℕ) where
  abbrev ops : Storage Mounted
  ops = mounted me junk opened written

  Settled-Fit :
      (s : Mounted) (c : Cache)
      → Fit capacity s
      → Settled (s.cache).disk.capacity c
      → Fit capacity (record s { cache = c })
  Settled-Fit s c fit settled = record {
    cache_valid = settled.valid;
    cache_free = settled.free;
    size = settled.capacity ∙ fit.size;
    map_valid = fit.map_valid;
    map_fits = fit.map_fits;
    map_small = fit.map_small;
    queue_free = fit.queue_free;
  }

  abbrev sectors : Mounted → ℕ → Block
  sectors s = content s.cache

  abbrev in_use : Mounted → ℕ → Bool
  in_use s = bit_at s.free_map

  abbrev there : Mounted → ℕ → Bool
  there s = cached (s.cache).entries

  pub reads :
      (s : Mounted) (t ofs size : ℕ)
      → Fit capacity s
      → on_disk capacity t ≡ true
      → ofs + size ≤ sector_size
      → Returns
          (λ (bytes, s').
            (bytes ≡ take size (drop ofs (sectors s t)))
            × Fit capacity s'
            × (sectors s' ≡ sectors s)
            × (in_use s' ≡ in_use s)
            × (there s' t ≡ true))
          (ops.cache_read s t ofs size)
  reads s t ofs size fit on fits =
      let on' : in_range (s.cache).disk t ≡ true = rw fit.size on in
      Returns-bind _ _ (Cache.cache_read me (some junk) s.cache t ofs size) _
        (Returns-both _ _ (Cache.cache_read me (some junk) s.cache t ofs size)
          (cache_read-content me t ofs junk s.cache fit.cache_valid fit.cache_free on' size fits)
          (cache_read-cached me t ofs junk s.cache fit.cache_valid fit.cache_free on' size fits))
        λ (bytes, c) ((is, same, settled), present).
          (is, Settled-Fit s c fit settled, fun_ext same, refl, present)

  pub writes :
      (s : Mounted) (t : ℕ) (bytes : List ℕ) (ofs : ℕ)
      → Fit capacity s
      → on_disk capacity t ≡ true
      → ofs + length bytes ≤ sector_size
      → Returns
          (λ s'.
            Fit capacity s'
            × (sectors s' ≡ update (sectors s) t (splice (sectors s t) ofs bytes))
            × (in_use s' ≡ in_use s)
            × (there s' t ≡ true))
          (ops.cache_write s t bytes ofs)
  writes s t bytes ofs fit on fits =
      let on' : in_range (s.cache).disk t ≡ true = rw fit.size on in
      Returns-bind _ _ (Cache.cache_write me (some junk) s.cache t bytes ofs) _
        (Returns-both _ _ (Cache.cache_write me (some junk) s.cache t bytes ofs)
          (cache_write-content me t ofs junk s.cache fit.cache_valid fit.cache_free on' bytes fits
            whole)
          (cache_write-cached me t ofs junk s.cache fit.cache_valid fit.cache_free on' bytes fits
            whole))
        λ c ((changed, settled), present).
          (Settled-Fit s c fit settled, fun_ext changed, refl, present)

  -- Whatever is done to the count of openers of a found entry.
  touched :
      (s : Mounted) (t n : ℕ) (others : List Entry) (e : Entry)
      → Fit capacity s
      → Found (s.cache).disk t (s.cache).entries others e
      → {s' : Mounted}
      → s' ≡ record s {
        cache = record (s.cache) { entries = others ++ (record e { open_cnt = n } ∷ []) };
      }
      → Fit capacity s' × (sectors s' ≡ sectors s) × (in_use s' ≡ in_use s)
  touched s t n others e fit found is =
      let (same, settled) =
        find_cache-Settled s.cache t n others e fit.cache_valid fit.cache_free found in
      subst (λ s'. Fit capacity s' × (sectors s' ≡ sectors s) × (in_use s' ≡ in_use s)) (sym is)
        (Settled-Fit s _ fit settled, fun_ext same, refl)

  pub closes :
      (s : Mounted) (t : ℕ)
      → Fit capacity s
      → there s t ≡ true
      → Returns
          (λ s'. Fit capacity s' × (sectors s' ≡ sectors s) × (in_use s' ≡ in_use s))
          (close_entry s t)
  unfolding close_entry
  closes s t fit present =
      go (find_cache t (s.cache).entries)
        (find_cache-FindResult (s.cache).disk t (s.cache).entries fit.cache_valid.order)
    where
      go :
          (o : Option (List Entry × Entry))
          → FindResult (s.cache).disk t (s.cache).entries o
          → Returns
              (λ s'. Fit capacity s' × (sectors s' ≡ sectors s) × (in_use s' ≡ in_use s))
              (elim o as (λ _. Outcome Mounted) [
                | none ↦ fault
                | some p ↦ done (record s {
                  cache = record (s.cache) {
                    entries =
                        p.0
                        ++ (record (p.1) { open_cnt = ((p.1).open_cnt + (2 ^ 32 - 1)) % 2 ^ 32 }
                            ∷ []);
                  };
                })
              ])
      go none missing = absurd (cc)
      go (some (others, e)) found =
          touched s t ((e.open_cnt + (2 ^ 32 - 1)) % 2 ^ 32) others e fit found refl

  pub reads_ahead :
      (s : Mounted) (t : ℕ)
      → Fit capacity s
      → Returns
          (λ s'. Fit capacity s' × (sectors s' ≡ sectors s) × (in_use s' ≡ in_use s))
          (cache_read_ahead me s t)
  unfolding cache_read_ahead
  reads_ahead s t fit =
      go (find_cache t (s.cache).entries)
        (find_cache-FindResult (s.cache).disk t (s.cache).entries fit.cache_valid.order)
    where
      go :
          (o : Option (List Entry × Entry))
          → FindResult (s.cache).disk t (s.cache).entries o
          → Returns
              (λ s'. Fit capacity s' × (sectors s' ≡ sectors s) × (in_use s' ≡ in_use s))
              (elim o as (λ _. Outcome Mounted) [
                | some p ↦
                    done (record s { cache = record (s.cache) { entries = p.0 ++ (p.1 ∷ []) } })
                | none ↦ elim (s.read_ahead_holder) as (λ _. Outcome Mounted) [
                  | none ↦ done (record s { read_ahead_list = s.read_ahead_list ++ (t ∷ []) })
                  | some h ↦ if h == me then panic else blocked
                ]
              ])
      go none missing = rw fit.queue_free (
        record {
          cache_valid = fit.cache_valid;
          cache_free = fit.cache_free;
          size = fit.size;
          map_valid = fit.map_valid;
          map_fits = fit.map_fits;
          map_small = fit.map_small;
          queue_free = fit.queue_free;
        },
        refl,
        refl,
      )
      go (some (others, e)) found = touched s t e.open_cnt others e fit found refl

  pub panics :
      (s : Mounted) (t ofs size : ℕ)
      → Fit capacity s
      → on_disk capacity t ≡ false
      → ops.cache_read s t ofs size ≡ panic
  panics s t ofs size fit off =
      let off' : in_range (s.cache).disk t ≡ false = rw fit.size off in
      let missing : cached (s.cache).entries t ≡ false =
        elim (Bool-cases (cached (s.cache).entries t)) [
          | inl present ↦ absurd (
              false≢true (
                sym off'
                ∙ cached-on_disk (s.cache).disk (s.cache).entries t fit.cache_valid.order present))
          | inr absent ↦ absent
        ] in
      rw (cache_read-panic me t ofs size junk s.cache fit.cache_valid fit.cache_free missing off')
        refl

  -- What an allocation does to the map.
  unfoldable pub Allocates : Mounted → Option ℕ × Mounted → Type 0
  Allocates s (r, s') =
      Fit capacity s'
      × (sectors s' ≡ sectors s)
      × (((r ≡ none) × (in_use s' ≡ in_use s))
          ⊎ ((t : ℕ) × (r ≡ some t)
              × (on_disk capacity t ≡ true)
              × (in_use s t ≡ false)
              × (in_use s' ≡ update (in_use s) t true)))

  map-Fit :
      (s : Mounted) (b : Bitmap)
      → Fit capacity s
      → Bit.IsValid b
      → b.bit_cnt ≡ (s.free_map).bit_cnt
      → Fit capacity (record s { free_map = b })
  map-Fit s b fit valid same = record {
    cache_valid = fit.cache_valid;
    cache_free = fit.cache_free;
    size = fit.size;
    map_valid = valid;
    map_fits = rw same fit.map_fits;
    map_small = rw same fit.map_small;
    queue_free = fit.queue_free;
  }

  pub allocates : (s : Mounted) → Fit capacity s → Returns (Allocates s) (ops.free_map_allocate s)
  unfolding Allocates
  allocates s fit =
      Returns-bind _ _ (FreeMap.free_map_allocate opened written s.free_map 1) _
        (free_map_allocate-Allocated s.free_map fit.map_valid 1 opened written)
        λ (r, b) allocated. of_map r b allocated
    where
      of_map :
          (r : Option ℕ) (b : Bitmap)
          → Allocated opened written s.free_map 1 r b
          → Allocates s (r, record s { free_map = b })
      of_map r b (got t _ inside run first filled) = (
        map-Fit s b fit filled.valid filled.size,
        refl,
        inr (
          t,
          refl,
          ground (arith, fit.map_fits, fit.map_small),
          run t (omega arith) (omega arith),
          fun_ext
              λ j. filled.bit j ∙ ap (λ c. if c then true else bit_at s.free_map j) (ground arith),
        ),
      )
      of_map r b (exhausted _ same) =
          (map-Fit s b fit same.valid same.size, refl, inl (refl, fun_ext same.bit))
      of_map r b (unwritten _ _ same) =
          (map-Fit s b fit same.valid same.size, refl, inl (refl, fun_ext same.bit))

  unfoldable pub mounted_laws : Lawful (mounted me junk opened written)
  unfolding Allocates
  mounted_laws = record {
    Ready = Fit capacity;
    on_disk = on_disk capacity;
    sector = sectors;
    used = in_use;
    present = there;
    length-sector = λ s fit t. length-content s.cache fit.cache_valid t;
    read_law = reads;
    off_disk_law = panics;
    write_law = writes;
    close_law = closes;
    ahead_law = reads_ahead;
    allocate_law = allocates;
  }
