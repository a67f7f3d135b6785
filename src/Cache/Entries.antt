-- ===== src/Cache/Entries.antt =====
-- The contents that a list of cache entries and a disk stand for, and when they are in order.
use mathlib.Core.Option
use spring_os.Prelude.{
  ℕ, suc, ◌≡◌, refl, Bool, true, false, ◌||◌, Option, none, some, List, [], ◌∷◌, ◌++◌, arith,
  length, ◌==◌, if◌then◌else◌, Bool-cases, inl, inr,
}
use spring_os.Disk.{Block, sector_size, Disk, in_range}
use spring_os.Cache.{Entry, find_cache}

-- Sector `s` as a reader sees it: the cached copy, or else the disk's.
abbrev pub view : List Entry → Disk → ℕ → Block
view [] d s = d.content s
view (e ∷ es) d s = if e.sector_idx == s then e.buffer else view es d s

abbrev pub cached : List Entry → ℕ → Bool
cached [] s = false
cached (e ∷ es) s = (e.sector_idx == s) || cached es s

-- An entry holds a whole sector of the disk, and a clean one agrees with it.
pub record EntryInOrder (d : Disk) (e : Entry) : Type 0 where
  pub full : length e.buffer ≡ sector_size
  pub on_disk : in_range d e.sector_idx ≡ true
  pub clean : e.dirty ≡ false → e.buffer ≡ d.content e.sector_idx

-- Every entry is in order, and no sector is cached twice.
abbrev pub InOrder : Disk → List Entry → Type 0
InOrder d [] = Unit {0}
InOrder d (e ∷ es) = EntryInOrder d e × (cached es e.sector_idx ≡ false) × InOrder d es

-- What `find_cache` returns for a sector: an entry of it, and the others, in order.
pub record Found (d : Disk) (s : ℕ) (es others : List Entry) (e : Entry) : Type 0 where
  pub is_sector : e.sector_idx ≡ s
  pub alone : cached others s ≡ false
  pub entry : EntryInOrder d e
  pub rest : InOrder d others
  pub size : length es ≡ suc (length others)
  pub same : (t : ℕ) → view es d t ≡ (if s == t then e.buffer else view others d t)
  pub fewer : (t : ℕ) → cached es t ≡ false → cached others t ≡ false

abbrev pub FindResult : Disk → ℕ → List Entry → Option (List Entry × Entry) → Type 0
FindResult d s es none = cached es s ≡ false
FindResult d s es (some (others, f)) = Found d s es others f

module _ (d : Disk) (s : ℕ) (e : Entry) (es : List Entry) (ok : InOrder d (e ∷ es)) where
  Found-here : (e.sector_idx == s) ≡ true → Found d s (e ∷ es) es e
  Found-here hit = record {
    is_sector = ground arith;
    alone = ground arith;
    entry = ok.0;
    rest = ok.2;
    size = refl;
    same = λ t. ground arith;
    fewer = λ t h. ground arith;
  }

  Found-later :
      {others : List Entry} {f : Entry}
      → (e.sector_idx == s) ≡ false
      → Found d s es others f
      → Found d s (e ∷ es) (e ∷ others) f
  Found-later {others} {f} miss found = record {
    is_sector = found.is_sector;
    alone = ground (arith, found.alone);
    entry = found.entry;
    rest = (ok.0, found.fewer e.sector_idx ok.1, found.rest);
    size = omega (arith, found.size);
    same = λ t. ground (arith, found.same t);
    fewer = λ t h. ground (arith, found.fewer t);
  }

-- `find_cache` finds the entry of a cached sector, and nothing for any other.
pub find_cache-FindResult :
    (d : Disk) (s : ℕ) (es : List Entry) → InOrder d es → FindResult d s es (find_cache s es)
unfolding find_cache
find_cache-FindResult d s [] ok = refl
find_cache-FindResult d s (e ∷ es) ok = elim (Bool-cases (e.sector_idx == s)) [
  | inl hit ↦ rw hit (Found-here d s e es ok hit)
  | inr miss ↦ rw miss (later (find_cache s es) (find_cache-FindResult d s es ok.2) miss)
]
  where
    later :
        (o : Option (List Entry × Entry))
        → FindResult d s es o
        → (e.sector_idx == s) ≡ false
        → FindResult d s (e ∷ es) (Option.map (λ (others, f). (e ∷ others, f)) o)
    later none r miss = ground arith
    later (some (others, f)) r miss = Found-later d s e es ok miss r

pub view-uncached :
    (es : List Entry) (d : Disk) (s : ℕ) → cached es s ≡ false → view es d s ≡ d.content s
view-uncached [] d s h = refl
view-uncached (e ∷ es) d s h = ground (arith, view-uncached es d s)

pub view-snoc :
    (es : List Entry) (e : Entry) (d : Disk) (t : ℕ)
    → cached es e.sector_idx ≡ false
    → view (es ++ (e ∷ [])) d t ≡ (if e.sector_idx == t then e.buffer else view es d t)
view-snoc [] e d t h = refl
view-snoc (x ∷ es) e d t h = ground (arith, view-snoc es e d t)

pub cached-snoc :
    (es : List Entry) (e : Entry) (t : ℕ)
    → cached (es ++ (e ∷ [])) t ≡ (cached es t || (e.sector_idx == t))
cached-snoc [] e t = ground arith
cached-snoc (x ∷ es) e t = ground (arith, cached-snoc es e t)

pub InOrder-snoc :
    (d : Disk) (es : List Entry) (e : Entry)
    → InOrder d es
    → EntryInOrder d e
    → cached es e.sector_idx ≡ false
    → InOrder d (es ++ (e ∷ []))
InOrder-snoc d [] e ok entry alone = (entry, refl, tt)
InOrder-snoc d (x ∷ es) e ok entry alone = (
  ok.0,
  ground (arith, cached-snoc es e x.sector_idx),
  InOrder-snoc d es e ok.2 entry (ground arith),
)
