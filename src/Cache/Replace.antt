-- ===== src/Cache/Replace.antt =====
-- Write-behind, eviction and the two passes over the whole list leave every sector as a reader
-- sees it.
use spring_os.Prelude.{
  ℕ, ◌≡◌, refl, ◌∙◌, false, List, [], ◌∷◌, arith, ◌==◌, if◌then◌else◌, length, Bool-cases, inl, inr,
}
use spring_os.Prelude.Outcome.{Returns, Returns-bind, Returns-mono}
use spring_os.Disk.{Disk, sector_size}
use spring_os.Cache.{Entry, write_behind, evict_cache, drain, write_behind_all}
use spring_os.Cache.Entries.{view, cached, EntryInOrder, InOrder}

-- The disk after an entry has been written back.
pub record Flushed (d : Disk) (e : Entry) (d' : Disk) : Type 0 where
  pub capacity : d'.capacity ≡ d.capacity
  pub content : (t : ℕ) → d'.content t ≡ (if e.sector_idx == t then e.buffer else d.content t)

pub write_behind-Flushed :
    (d : Disk) (e : Entry)
    → EntryInOrder d e
    → Returns (λ (d', e'). Flushed d e d' × (e' ≡ record e { dirty = false })) (write_behind d e)
unfolding write_behind
write_behind-Flushed d e ok = elim (Bool-cases e.dirty) [
  | inl dirty ↦ rw (dirty, ok.on_disk) (record { capacity = refl; content = λ t. refl }, refl)
  | inr clean ↦
      rw clean (record { capacity = refl; content = λ t. ground (arith, ok.clean clean) }, refl)
]

module _ (d d' : Disk) (e : Entry) (flushed : Flushed d e d') where
  EntryInOrder-Flushed :
      (f : Entry) → (f.sector_idx == e.sector_idx) ≡ false → EntryInOrder d f → EntryInOrder d' f
  EntryInOrder-Flushed f ne ok = record {
    full = ok.full;
    on_disk = ground (arith, ok.on_disk, flushed.capacity);
    clean = λ c. ground (arith, ok.clean c, flushed.content f.sector_idx);
  }

  InOrder-Flushed :
      (es : List Entry) → cached es e.sector_idx ≡ false → InOrder d es → InOrder d' es
  InOrder-Flushed [] alone ok = tt
  InOrder-Flushed (f ∷ es) alone ok =
      (EntryInOrder-Flushed f (ground arith) ok.0, ok.1, InOrder-Flushed es (ground arith) ok.2)

  view-Flushed :
      (es : List Entry) (t : ℕ)
      → cached es e.sector_idx ≡ false
      → view es d' t ≡ (if e.sector_idx == t then e.buffer else view es d t)
  view-Flushed [] t alone = flushed.content t
  view-Flushed (f ∷ es) t alone = ground (arith, view-Flushed es t)

-- Every sector of the disk has its 512 bytes.
abbrev pub Blocks : Disk → Type 0
Blocks d = (t : ℕ) → length (d.content t) ≡ sector_size

-- What an operation on the list may do: the list is as given, in order, and nobody sees a change.
pub record Kept (d : Disk) (es : List Entry) (d' : Disk) (es' : List Entry) : Type 0 where
  pub order : InOrder d' es'
  pub same : (t : ℕ) → view es' d' t ≡ view es d t
  pub capacity : d'.capacity ≡ d.capacity
  pub blocks : Blocks d → Blocks d'

pub evict_cache-Kept :
    (d : Disk) (e : Entry) (es : List Entry)
    → InOrder d (e ∷ es)
    → Returns (λ (d', es'). (es' ≡ es) × Kept d (e ∷ es) d' es') (evict_cache d (e ∷ es))
unfolding evict_cache
evict_cache-Kept d e es ok =
    Returns-bind _ _ (write_behind d e) _ (write_behind-Flushed d e ok.0) λ (d', e') (fl, _). (
      refl,
      record {
        order = InOrder-Flushed d d' e fl es ok.1 ok.2;
        same = λ t. view-Flushed d d' e fl es t ok.1;
        capacity = fl.capacity;
        blocks = λ b t. ground (arith, fl.content t, ok.0.full, b t);
      },
    )

-- Everything has reached the disk.
pub record OnDisk (d : Disk) (es : List Entry) (d' : Disk) : Type 0 where
  pub capacity : d'.capacity ≡ d.capacity
  pub content : (t : ℕ) → d'.content t ≡ view es d t

module _ (d d' : Disk) (e : Entry) (es : List Entry) (ok : InOrder d (e ∷ es)) where
  OnDisk-cons : Flushed d e d' → (d'' : Disk) → OnDisk d' es d'' → OnDisk d (e ∷ es) d''
  OnDisk-cons fl d'' rest = record {
    capacity = rest.capacity ∙ fl.capacity;
    content = λ t. rest.content t ∙ view-Flushed d d' e fl es t ok.1;
  }

-- The loop of `destroy_cache_list` writes what readers see.
pub drain-OnDisk : (d : Disk) (es : List Entry) → InOrder d es → Returns (OnDisk d es) (drain d es)
unfolding drain
drain-OnDisk d [] ok = record { capacity = refl; content = λ t. refl }
drain-OnDisk d (e ∷ es) ok =
    Returns-bind _ _ (write_behind d e) _ (write_behind-Flushed d e ok.0) λ (d', e') (fl, _).
      Returns-mono _ _ (drain d' es) (drain-OnDisk d' es (InOrder-Flushed d d' e fl es ok.1 ok.2))
        λ d'' rest. OnDisk-cons d d' e es ok fl d'' rest

abbrev pub AllClean : List Entry → Type 0
AllClean [] = Unit {0}
AllClean (e ∷ es) = (e.dirty ≡ false) × AllClean es

-- The list after a pass of the write-behind thread.
pub record Cleaned (d : Disk) (es : List Entry) (d' : Disk) (es' : List Entry) : Type 0 where
  pub written : OnDisk d es d'
  pub order : InOrder d' es'
  pub same : (t : ℕ) → view es' d' t ≡ view es d t
  pub sectors : (t : ℕ) → cached es' t ≡ cached es t
  pub clean : AllClean es'

pub write_behind_all-Cleaned :
    (d : Disk) (es : List Entry)
    → InOrder d es
    → Returns (λ (d', es'). Cleaned d es d' es') (write_behind_all d es)
unfolding write_behind_all
write_behind_all-Cleaned d [] ok = record {
  written = record { capacity = refl; content = λ t. refl };
  order = tt;
  same = λ t. refl;
  sectors = λ t. refl;
  clean = tt;
}
write_behind_all-Cleaned d (e ∷ es) ok =
    Returns-bind _ _ (write_behind d e) _ (write_behind-Flushed d e ok.0) λ (d', e') (fl, is).
      Returns-bind _ _ (write_behind_all d' es) _
        (write_behind_all-Cleaned d' es (InOrder-Flushed d d' e fl es ok.1 ok.2))
        λ (d'', es') rest. rw is (Cleaned-cons d' fl d'' es' rest)
  where
    Cleaned-cons :
        (d' : Disk)
        → Flushed d e d'
        → (d'' : Disk) (es' : List Entry) → Cleaned d' es d'' es'
        → Cleaned d (e ∷ es) d'' (record e { dirty = false } ∷ es')
    Cleaned-cons d' fl d'' es' rest =
        let all = OnDisk-cons d d' e es ok fl d'' rest.written in
        record {
          written = all;
          order = (
            record {
              full = ok.0.full;
              on_disk = ground (arith, ok.0.on_disk, all.capacity);
              clean = λ c. ground (arith, all.content e.sector_idx);
            },
            rest.sectors e.sector_idx ∙ ok.1,
            rest.order,
          );
          same = λ t. ground (arith, rest.same t, view-Flushed d d' e fl es t ok.1);
          sectors = λ t. ground (arith, rest.sectors t);
          clean = (refl, rest.clean);
        }
