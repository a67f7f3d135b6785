-- ===== src/HashTable/Script.antt =====
-- Sequences of calls, on the table and on the map.
use spring_os.Prelude.{
  ℕ, suc, ◌<◌, ◌^◌, ◌≡◌, refl, Bool, true, Option, none, some, List, [], ◌∷◌, length,
}
use spring_os.HashTable.{
  Hash, hash_init, hash_find, hash_insert, hash_replace, hash_delete, hash_clear,
}
use spring_os.HashTable.Buckets.{Keyed}
use spring_os.HashTable.Resize.{written, erased}
use spring_os.HashTable.Operations.{
  Models, inserted, fewer-Models, hash_insert-Models, hash_replace-Models, hash_delete-Models,
  hash_find-Models, hash_init-Models, hash_clear-Models,
}

-- A call, with what `malloc` answers where `rehash` asks it.
pub data Call {ℓ} (A : Type ℓ) : Type ℓ where
  insert : Bool → A → Call A
  replace : Bool → A → Call A
  delete : Bool → A → Call A
  find : A → Call A
  clear : Call A

-- The replies of a sequence of calls and the state after it.
abbrev pub play {ℓ κ} :
    {A : Type ℓ} {S : Type κ}
    → (Call A → S → Option A × S)
    → List (Call A)
    → S
    → List (Option A) × S
play step [] s = ([], s)
play step (c ∷ cs) s =
    let (reply, s') = step c s in let (replies, end) = play step cs s' in (reply ∷ replies, end)

module _ {ℓ} {A : Type ℓ} (hash : A → ℕ) (less : A → A → Bool) where
  abbrev pub on_table : Call A → Hash A → Option A × Hash A
  on_table (insert malloc e) h = hash_insert hash less malloc h e
  on_table (replace malloc e) h = hash_replace hash less malloc h e
  on_table (delete malloc e) h = hash_delete hash less malloc h e
  on_table (find e) h = (hash_find hash less h e, h)
  on_table clear h = (none, (hash_clear h).1)

  module _ (key : Keyed hash less) where
    abbrev pub on_map : Call A → (A → Option A) → Option A × (A → Option A)
    on_map (insert malloc e) view = (view e, inserted hash less key e view)
    on_map (replace malloc e) view = (view e, written hash less key e view)
    on_map (delete malloc e) view = (view e, erased hash less key e view)
    on_map (find e) view = (view e, view)
    on_map clear view = (none, λ _. none)

    on_table-Models :
        (room : ℕ) (c : Call A) (view : A → Option A) (h : Hash A)
        → Models hash less key (suc room) view h
        → ((on_table c h).0 ≡ (on_map c view).0)
          × Models hash less key room (on_map c view).1 (on_table c h).1
    on_table-Models room (insert malloc e) view h ok =
        hash_insert-Models hash less key room malloc view h e ok
    on_table-Models room (replace malloc e) view h ok =
        hash_replace-Models hash less key room malloc view h e ok
    on_table-Models room (delete malloc e) view h ok =
        hash_delete-Models hash less key room malloc view h e
          (fewer-Models hash less key room view h ok)
    on_table-Models room (find e) view h ok = (
      hash_find-Models hash less key (suc room) view h e ok,
      fewer-Models hash less key room view h ok,
    )
    on_table-Models room clear view h ok = (
      refl,
      fewer-Models hash less key room _ _ (hash_clear-Models hash less key (suc room) view h ok),
    )

    play-Models :
        (cs : List (Call A)) (view : A → Option A) (h : Hash A)
        → Models hash less key (length cs) view h
        → ((play on_table cs h).0 ≡ (play on_map cs view).0)
          × Models hash less key 0 (play on_map cs view).1 (play on_table cs h).1
    play-Models [] view h ok = (refl, ok)
    play-Models (c ∷ cs) view h ok =
        let (same, next) = on_table-Models (length cs) c view h ok in
        let (rest, end) = play-Models cs (on_map c view).1 (on_table c h).1 next in (cc, end)

    -- For a strict order whose ties are transitive and a hash function that gives equal elements
    -- equal values: any sequence of fewer than 2^32 calls of hash_insert, hash_replace,
    -- hash_delete, hash_find and hash_clear on a new table, with malloc failing at any of them,
    -- replies as on a finite map; the table then holds that map, with every element in the bucket
    -- of its hash value, none twice, elem_cnt the number of elements, and a power of 2 as number
    -- of buckets.
    pub session-map :
        (h : Hash A) (cs : List (Call A))
        → hash_init hash less true ≡ some h
        → length cs < 2 ^ 32
        → ((play on_table cs h).0 ≡ (play on_map cs (λ _. none)).0)
          × Models hash less key 0 (play on_map cs (λ _. none)).1 (play on_table cs h).1
    session-map h cs fresh small =
        play-Models cs (λ _. none) h (hash_init-Models hash less key (length cs) h small fresh)
