-- ===== src/Swap/RoundTrip.antt =====
-- A page stays in its slot while other pages are swapped out, and comes back.
use spring_os.Prelude.{ℕ, ◌<◌, ◌≡◌, refl, ap, subst, ◌∙◌, true, false, List, [], ◌∷◌, arith, length}
use spring_os.Prelude.Outcome.{
  Outcome, done, blocked, panic, fault, Returns, Returns-mono, ◌>>=◌, done_injective,
}
use spring_os.Bitmap.Bit.{bit_at}
use spring_os.Swap.{Page, Swap, swap_out, swap_in, sectors_per_page}
use spring_os.Swap.Slots.{InPlace, slot, SwappedOut, out, swap_out-SwappedOut, swap_in-slot}

-- Pages swapped out one after the other.
unfoldable pub swap_outs : Swap → List Page → Outcome Swap
swap_outs s [] = done s
swap_outs s (p ∷ ps) = do (i, s) ← swap_out s p; swap_outs s ps

abbrev pub AllPages : List Page → Type 0
AllPages [] = Unit {0}
AllPages (p ∷ ps) = (length p ≡ sectors_per_page) × AllPages ps

-- Slot `i` is in use, and `s'` has the same page in it.
record Holds (s : Swap) (i : ℕ) (s' : Swap) : Type 0 where
  place : InPlace s'
  inside : i < s'.swap_table.bit_cnt
  used : bit_at s'.swap_table i ≡ true
  same : slot s' i ≡ slot s i

swap_out-Holds :
    (s : Swap) (i : ℕ) (p : Page) {j : ℕ} {s' : Swap} (place : InPlace s)
    → i < s.swap_table.bit_cnt
    → bit_at s.swap_table i ≡ true
    → SwappedOut s place p (done (j, s'))
    → Holds s i s'
swap_out-Holds s i p place inside used (out {i = j} h free first there others filled place') =
    record {
      place = place';
      inside = omega (arith, filled.size);
      used = ground (arith, filled.bit i);
      same = others i inside λ e. ground (arith, ap (bit_at s.swap_table) e);
    }

swap_outs-Holds :
    (s : Swap) (i : ℕ) (ps : List Page) {s' : Swap}
    → InPlace s
    → i < s.swap_table.bit_cnt
    → bit_at s.swap_table i ≡ true
    → AllPages ps
    → swap_outs s ps ≡ done s'
    → Holds s i s'
unfolding swap_outs
swap_outs-Holds s i [] place inside used pages e =
    subst (Holds s i) (done_injective e)
      (record { place = place; inside = inside; used = used; same = refl })
swap_outs-Holds s i (p ∷ ps) {s'} place inside used pages e =
    go (swap_out s p) (swap_out-SwappedOut s place p pages.0)
      (λ s1 here inside1 used1 e1. swap_outs-Holds s1 i ps here inside1 used1 pages.1 e1) e
  where
    go :
        (o : Outcome (ℕ × Swap))
        → SwappedOut s place p o
        → ((s1 : Swap)
            → InPlace s1
            → i < s1.swap_table.bit_cnt
            → bit_at s1.swap_table i ≡ true
            → swap_outs s1 ps ≡ done s'
            → Holds s1 i s')
        → (o >>= λ (j, s1). swap_outs s1 ps) ≡ done s'
        → Holds s i s'
    go (done (j, s1)) swapped recur e =
        let h = swap_out-Holds s i p place inside used swapped in
        let rest = recur s1 h.place h.inside h.used e in
        record {
          place = rest.place;
          inside = rest.inside;
          used = rest.used;
          same = rest.same ∙ h.same;
        }
    go blocked swapped recur e = cc
    go panic swapped recur e = cc
    go fault swapped recur e = cc

out-Holds :
    (s : Swap) (p : Page) {i : ℕ} {s' : Swap} (place : InPlace s)
    → SwappedOut s place p (done (i, s'))
    → InPlace s' × (i < s'.swap_table.bit_cnt) × (bit_at s'.swap_table i ≡ true) × (slot s' i ≡ p)
out-Holds s p place (out {i = j} h free first there others filled place') =
    (place', omega (arith, filled.size), ground (arith, filled.bit j), there)

-- With a table and a disk as swap_init lays them out, a page of eight sectors that swap_out put
-- into a slot is returned unchanged by swap_in of that slot after any sequence of successful
-- swap_outs of pages of eight sectors, and the slot is then free.
pub swap_in-swap_out :
    (s : Swap) (p : Page) (ps : List Page) {i : ℕ} {s1 s2 : Swap}
    → InPlace s
    → length p ≡ sectors_per_page
    → AllPages ps
    → swap_out s p ≡ done (i, s1)
    → swap_outs s1 ps ≡ done s2
    → Returns (λ (page, s3). (page ≡ p) × (bit_at s3.swap_table i ≡ false)) (swap_in s2 i)
swap_in-swap_out s p ps {i} {s1} {s2} place len pages went others =
    let (place1, inside1, used1, there) =
      out-Holds s p place (rw went at (swap_out-SwappedOut s place p len)) in
    let h = swap_outs-Holds s1 i ps place1 inside1 used1 pages others in
    Returns-mono _ _ (swap_in s2 i) (swap_in-slot s2 h.place i h.inside)
      λ (page, s3) (is, disk, changed). (is ∙ h.same ∙ there, ground (arith, changed.bit i))
