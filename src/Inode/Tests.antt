-- ===== src/Inode/Tests.antt =====
-- The theorems at a file of 1000 bytes in two sectors of a small mounted disk.
use spring_os.Prelude.{
  ℕ, zero, suc, ◌+◌, ◌<◌, ◌≡◌, refl, true, false, none, [], ◌∷◌, leb, if◌then◌else◌, arith, get_or,
  length, replicate, length-replicate,
}
use spring_os.Prelude.Outcome.{panic, Returns, ◌>>=◌}
use spring_os.Disk.{Block}
use spring_os.Storage.{Storage, Lawful}
use spring_os.Storage.Mounted.{Mounted, Fit, mounted}
use spring_os.Storage.Laws.{mounted_laws}
use spring_os.Inode.{Inode, no_sector, byte_to_sector, inode_read_at}
use spring_os.Inode.Expand.{store_word, inode_write_at}
use spring_os.Inode.Open.{lookup, inode_open, inode_close}
use spring_os.Inode.Map.{file_length, block_of, Stays, byte_to_sector-block_of}
use spring_os.Inode.Read.{IsFile, Got, inode_read_at-Got}
use spring_os.Inode.Apart.{Apart}
use spring_os.Inode.Write.{Sound, Wrote}
use spring_os.Inode.ReadWrite.{inode_write_at-Wrote, inode_read_at-inode_write_at}
use spring_os.Inode.Close.{Restored, inode_close-inode_open, inode_close-panic}

abbrev junk : Block
junk = replicate 512 99

-- The inode is in sector 2, its blocks are sectors 3 and 4.
abbrev inode_block : Block
inode_block = store_word (store_word (store_word (replicate 512 0) 4 1000) 20 3) 24 4

abbrev sectors : ℕ → Block
sectors (suc (suc zero)) = inode_block
sectors t = replicate 512 7

abbrev state : Mounted
state = record {
  cache = record {
    entries = [];
    disk = record { capacity = 32; content = sectors };
    holder = none;
  };
  free_map = record { bit_cnt = 32; bits = 31 ∷ [] };
  read_ahead_list = [];
  read_ahead_holder = none;
}

full_junk : length junk ≡ 512
full_junk = length-replicate {A = ℕ} 512 99

full : (t : ℕ) → length (sectors t) ≡ 512
full zero = length-replicate {A = ℕ} 512 7
full (suc zero) = length-replicate {A = ℕ} 512 7
full (suc (suc zero)) = refl
full (suc (suc (suc t))) = length-replicate {A = ℕ} 512 7

word_small : (i : ℕ) → get_or (31 ∷ []) i 0 < 4294967296
word_small zero = omega arith
word_small (suc i) = omega arith

state-Fit : Fit 32 state
state-Fit = record {
  cache_valid = record { order = tt; bounded = omega arith; blocks = full };
  cache_free = refl;
  size = refl;
  map_valid = record { small = omega arith; enough = refl; words = word_small };
  map_fits = omega arith;
  map_small = omega arith;
  queue_free = refl;
}

abbrev ops : Storage Mounted
ops = mounted 1 junk true true

abbrev laws : Lawful ops
laws = mounted_laws 1 junk (full_junk) true true 32

state-IsFile : IsFile laws.on_disk (laws.sector state) 2
unfolding mounted_laws
state-IsFile = record {
  root = refl;
  fits = omega arith;
  indirect = λ h. absurd (omega arith);
  doubly = λ h. absurd (omega arith);
  inner = λ j h. absurd (omega arith);
  blocks = mapped;
}
  where
    mapped : (k : ℕ) → k < 2 → laws.on_disk (block_of (laws.sector state) 2 k) ≡ true
    mapped zero h = refl
    mapped (suc zero) h = refl
    mapped (suc (suc k)) h = absurd (omega arith)

state-blocks : (k : ℕ) → k < 2 → block_of (laws.sector state) 2 k ≡ k + 3
unfolding mounted_laws
state-blocks zero h = refl
state-blocks (suc zero) h = refl
state-blocks (suc (suc k)) h = absurd (omega arith)

state-Apart : Apart (laws.sector state) 2 2
unfolding mounted_laws
state-Apart = record {
  distinct = λ k k' h h' ne e. ne (omega (arith, state-blocks k h, state-blocks k' h'));
  not_root = λ k h e. absurd (omega (arith, state-blocks k h));
  not_indirect = λ k h more. absurd (omega arith);
  not_doubly = λ k h more. absurd (omega arith);
  not_inner = λ k j h more. absurd (omega arith);
}

state-Sound : Sound laws state 2
unfolding mounted_laws
state-Sound = record { ready = state-Fit; tree = state-IsFile; apart = state-Apart }

abbrev open_inode : Inode
open_inode = record { sector = 2; open_cnt = 1; removed = false; deny_write_cnt = 0; holder = none }

abbrev removed_inode : Inode
removed_inode = record {
  sector = 2;
  open_cnt = 1;
  removed = true;
  deny_write_cnt = 0;
  holder = none;
}

byte_to_sector-block_of_example :
    Returns
      (λ (r, s').
        (r ≡ (
          if leb (file_length (laws.sector state) 2) 600
          then no_sector
          else block_of (laws.sector state) 2 1))
        × Stays laws state s')
      (byte_to_sector ops true 0 state 2 600)
unfolding mounted_laws
byte_to_sector-block_of_example = byte_to_sector-block_of laws 0 state 2 600 state-Fit state-IsFile

inode_read_at-Got_example :
    Returns
      (λ (bytes, s'). Got laws state 2 100 500 bytes s')
      (inode_read_at ops true 0 state 2 100 500)
unfolding mounted_laws
inode_read_at-Got_example =
    inode_read_at-Got laws 0 state 2 100 500 state-Fit state-IsFile (omega arith)

inode_write_at-Wrote_example :
    Returns
      (λ (cnt, s'). (cnt ≡ 2) × Wrote laws state 2 511 (1 ∷ (2 ∷ [])) s')
      (inode_write_at ops 1 true junk 0 state open_inode (1 ∷ (2 ∷ [])) 511)
unfolding mounted_laws
inode_write_at-Wrote_example =
    inode_write_at-Wrote laws 1 0 junk state open_inode (1 ∷ (2 ∷ [])) 511 state-Sound refl
      (omega arith)

inode_read_at-inode_write_at_example :
    Returns
      (λ (bytes, s'). bytes ≡ 1 ∷ (2 ∷ []))
      (do
        (y, t) ← inode_write_at ops 1 true junk 0 state open_inode (1 ∷ (2 ∷ [])) 511
        inode_read_at ops true 0 t 2 2 511)
unfolding mounted_laws
inode_read_at-inode_write_at_example =
    inode_read_at-inode_write_at laws 1 0 junk state open_inode (1 ∷ (2 ∷ [])) 511 state-Sound refl
      (omega arith)

inode_close-inode_open_example :
    Returns
      (Restored laws state (open_inode ∷ []))
      (inode_close ops 1 true 4096 state (inode_open true (open_inode ∷ []) 2).1 2)
unfolding mounted_laws
inode_close-inode_open_example =
    inode_close-inode_open laws 1 4096 state (open_inode ∷ []) 2 state-Fit refl (omega arith, tt)

inode_close-panic_example : inode_close ops 1 true 4096 state (removed_inode ∷ []) 2 ≡ panic
unfolding mounted_laws lookup
inode_close-panic_example =
    inode_close-panic laws 1 4096 state (removed_inode ∷ []) 2 state-Fit refl removed_inode refl
      refl refl refl (omega arith) refl
