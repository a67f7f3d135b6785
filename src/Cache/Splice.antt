-- ===== src/Cache/Splice.antt =====
-- `memcpy` into a sector: what is written is read back, and all else stays.
use spring_os.Prelude.{
  ℕ, zero, suc, ◌+◌, ◌≤◌, ◌≡◌, refl, ap, ◌∙◌, true, ◌||◌, List, [], ◌∷◌, ◌++◌, arith, ltb, length,
  ◌-◌, ◌&&◌, leb, if◌then◌else◌, get_or, get_or-append, get_or-take, get_or-drop, take, drop,
  length-append, length-take, length-drop, drop_all, Bool-cases, inl, inr,
}
use spring_os.Disk.{Block, sector_size}
use spring_os.Cache.{splice}

pub length-splice :
    (b : Block) (ofs : ℕ) (bytes : List ℕ)
    → length b ≡ sector_size
    → ofs + length bytes ≤ sector_size
    → length (splice b ofs bytes) ≡ sector_size
length-splice b ofs bytes h fits = omega (
  arith,
  length-append (take ofs b) (bytes ++ drop (ofs + length bytes) b),
  length-append bytes (drop (ofs + length bytes) b),
  length-take ofs b,
  length-drop (ofs + length bytes) b,
)

splice_whole :
    (b : Block) (bytes : List ℕ) → length b ≤ length bytes → splice b 0 bytes ≡ bytes ++ []
splice_whole b bytes h =
    ap (λ k. bytes ++ drop k b) (omega arith) ∙ ap (λ l. bytes ++ l) (drop_all (length bytes) b h)

-- A write over the whole sector does not depend on what was there.
pub splice_same :
    (b b' : Block) (ofs : ℕ) (bytes : List ℕ)
    → length b ≡ sector_size
    → length b' ≡ sector_size
    → ((ltb 0 ofs || ltb (length bytes) sector_size) ≡ true → b ≡ b')
    → splice b ofs bytes ≡ splice b' ofs bytes
splice_same b b' zero bytes h h' same = elim (Bool-cases (ltb (length bytes) sector_size)) [
  | inl part ↦ ap (λ x. splice x 0 bytes) (same part)
  | inr whole ↦
      ground (arith, splice_whole b bytes (ground arith), splice_whole b' bytes (ground arith))
]
splice_same b b' (suc ofs) bytes h h' same =
    ap (λ x. splice x (suc ofs) bytes) (same (ground arith))

drop-append_take : (n : ℕ) (b rest : List ℕ) → n ≤ length b → drop n (take n b ++ rest) ≡ rest
drop-append_take zero b rest h = refl
drop-append_take (suc n) [] rest h = absurd (omega arith)
drop-append_take (suc n) (x ∷ b) rest h = drop-append_take n b rest (omega arith)

take-append : (xs ys : List ℕ) → take (length xs) (xs ++ ys) ≡ xs
take-append [] ys = refl
take-append (x ∷ xs) ys = ap (λ l. x ∷ l) (take-append xs ys)

-- The bytes that were written are the bytes that are read.
pub take-drop-splice :
    (b : Block) (ofs : ℕ) (bytes : List ℕ)
    → ofs ≤ length b
    → take (length bytes) (drop ofs (splice b ofs bytes)) ≡ bytes
take-drop-splice b ofs bytes h =
    ap (take (length bytes)) (drop-append_take ofs b (bytes ++ drop (ofs + length bytes) b) h)
    ∙ take-append bytes (drop (ofs + length bytes) b)

-- What a sector holds after `memcpy` into it.
pub get_or-splice :
    (b : Block) (ofs : ℕ) (bytes : List ℕ) (j : ℕ)
    → ofs ≤ length b
    → get_or (splice b ofs bytes) j 0
      ≡ (if leb ofs j && ltb j (ofs + length bytes) then get_or bytes (j - ofs) 0 else get_or b j 0)
get_or-splice b ofs bytes j h = ground (
  arith,
  get_or-append (take ofs b) (bytes ++ drop (ofs + length bytes) b) j 0,
  length-take ofs b,
  get_or-take ofs j b 0,
  get_or-append bytes (drop (ofs + length bytes) b) (j - length (take ofs b)) 0,
  get_or-drop (ofs + length bytes) (j - length (take ofs b) - length bytes) b 0,
)
