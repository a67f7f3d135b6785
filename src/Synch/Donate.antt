-- ===== src/Synch/Donate.antt =====
-- `donate_priority`: no thread waits for a lock whose holder has a lower priority.
use spring_os.Prelude.{
  ℕ, zero, suc, max, ◌≤◌, ◌<◌, ◌≡◌, ◌≢◌, refl, sym, ap, subst, ◌∙◌, Bool, true, false, Option, none,
  some, ltb, ◌==◌, if◌then◌else◌, Bool-cases, Option-cases, ltb→lt, ltb→ge, ==→eq, ==→ne, ==_refl,
  inl, inr, arith,
}
use spring_os.Thread.{priority_of}
use spring_os.Synch.{Lock, Sync, set_priority, donate_loop, donate_priority}

-- A thread that waits for a lock has no higher priority than the holder; `x` may be an exception.
abbrev pub BackedBut : Sync → ℕ → Type 0
BackedBut s x =
    (t l h : ℕ)
    → t ≢ x
    → s.waiting_lock t ≡ some l
    → (s.lock l).holder ≡ some h
    → priority_of s.kernel t ≤ priority_of s.kernel h

abbrev pub Backed : Sync → Type 0
Backed s =
    (t l h : ℕ)
    → s.waiting_lock t ≡ some l
    → (s.lock l).holder ≡ some h
    → priority_of s.kernel t ≤ priority_of s.kernel h

-- From `t` on, at most `n` threads hold a lock that the one before waits for.
abbrev pub Ends : ℕ → (ℕ → Option ℕ) → (ℕ → Lock) → ℕ → Type 0
Ends zero waiting lock t = (l h : ℕ) → waiting t ≡ some l → (lock l).holder ≡ some h → ⊥
Ends (suc n) waiting lock t =
    (l h : ℕ) → waiting t ≡ some l → (lock l).holder ≡ some h → Ends n waiting lock h

-- Priorities only rise, and to no more than `p`; nothing else changes.
pub record Raised (p : ℕ) (s s' : Sync) : Type 0 where
  pub up : (t : ℕ) → priority_of s.kernel t ≤ priority_of s'.kernel t
  pub bound : (t : ℕ) → priority_of s'.kernel t ≤ max (priority_of s.kernel t) p
  pub same_waits : s'.waiting_lock ≡ s.waiting_lock
  pub same_locks : s'.lock ≡ s.lock
  pub same_ready : (s'.kernel).ready_list ≡ (s.kernel).ready_list

priority-set :
    (s : Sync) (h p t : ℕ)
    → priority_of (set_priority s h p).kernel t ≡ (if h == t then p else priority_of s.kernel t)
priority-set s h p t = pick (h == t)
  where
    pick :
        (b : Bool)
        → (if b
            then record ((s.kernel).thread h) { priority = p }
            else (s.kernel).thread t).priority
          ≡ (if b then p else priority_of s.kernel t)
    pick true = refl
    pick false = refl

Raised-refl : (p : ℕ) (s : Sync) → Raised p s s
Raised-refl p s = record {
  up = λ t. omega arith;
  bound = λ t. omega arith;
  same_waits = refl;
  same_locks = refl;
  same_ready = refl;
}

-- The exception has gone where it waits for no holder, or for one as high.
Backed-all :
    (s : Sync) (curr : ℕ)
    → BackedBut s curr
    → ((l h : ℕ)
        → s.waiting_lock curr ≡ some l
        → (s.lock l).holder ≡ some h
        → priority_of s.kernel curr ≤ priority_of s.kernel h)
    → Backed s
Backed-all s curr but here t l h waits holds = elim (Bool-cases (t == curr)) [
  | inl hit ↦
      let is : t ≡ curr = ==→eq t curr hit in
      subst (λ u. priority_of s.kernel u ≤ priority_of s.kernel h) (sym is)
        (here l h (ap s.waiting_lock (sym is) ∙ waits) holds)
  | inr miss ↦ but t l h (==→ne t curr miss) waits holds
]

-- A donation moves the exception on to the holder.
donated-BackedBut :
    (s : Sync) (curr l h : ℕ)
    → BackedBut s curr
    → s.waiting_lock curr ≡ some l
    → (s.lock l).holder ≡ some h
    → priority_of s.kernel h < priority_of s.kernel curr
    → BackedBut (set_priority s h (priority_of s.kernel curr)) h
donated-BackedBut s curr l h but waits holds lower t l' h' ne waits' holds' =
    let set : (u : ℕ)
        → priority_of (set_priority s h (priority_of s.kernel curr)).kernel u
          ≡ (if h == u then priority_of s.kernel curr else priority_of s.kernel u) =
      priority-set s h (priority_of s.kernel curr) in
    elim (Bool-cases (t == curr)) [
      | inl hit ↦
          let is : t ≡ curr = ==→eq t curr hit in
          let same_lock : some l' ≡ some l = sym waits' ∙ ap s.waiting_lock is ∙ waits in
          let same_holder : h' ≡ h = holder_of l' l h' h (some_injective same_lock) holds' holds in
          ground (arith, set t, set h', is, same_holder)
      | inr miss ↦
          let old : priority_of s.kernel t ≤ priority_of s.kernel h' =
            but t l' h' (==→ne t curr miss) waits' holds' in
          elim (Bool-cases (h == h')) [
            | inl to ↦
                let is : h ≡ h' = ==→eq h h' to in
                ground (arith, set t, set h', old, ap (priority_of s.kernel) is)
            | inr other ↦ ground (arith, set t, set h', old)
          ]
    ]
  where
    some_injective : {a b : ℕ} → some a ≡ some b → a ≡ b
    some_injective e = cc

    holder_of :
        (l' l h' h : ℕ)
        → l' ≡ l
        → (s.lock l').holder ≡ some h'
        → (s.lock l).holder ≡ some h
        → h' ≡ h
    holder_of l' l h' h same e e' = some_injective (sym e ∙ ap (λ m. (s.lock m).holder) same ∙ e')

abbrev Settles : ℕ → Sync → ℕ → Type 0
Settles n s curr =
    Backed (donate_loop n s curr) × Raised (priority_of s.kernel curr) s (donate_loop n s curr)

Raised-donated :
    (s s' : Sync) (curr h : ℕ)
    → priority_of s.kernel h < priority_of s.kernel curr
    → Raised
        (priority_of (set_priority s h (priority_of s.kernel curr)).kernel h)
        (set_priority s h (priority_of s.kernel curr))
        s'
    → Raised (priority_of s.kernel curr) s s'
Raised-donated s s' curr h lower r =
    let set : (u : ℕ)
        → priority_of (set_priority s h (priority_of s.kernel curr)).kernel u
          ≡ (if h == u then priority_of s.kernel curr else priority_of s.kernel u) =
      priority-set s h (priority_of s.kernel curr) in
    record {
      up = λ t. elim (Bool-cases (h == t)) [
        | inl hit ↦ ground (arith, set t, r.up t, ap (priority_of s.kernel) (==→eq h t hit))
        | inr miss ↦ ground (arith, set t, r.up t)
      ];
      bound = λ t. ground (arith, set t, set h, r.bound t, ==_refl h);
      same_waits = r.same_waits;
      same_locks = r.same_locks;
      same_ready = r.same_ready;
    }

donate_loop-Backed :
    (n : ℕ) (s : Sync) (curr : ℕ)
    → BackedBut s curr
    → Ends n s.waiting_lock s.lock curr
    → Settles n s curr
unfolding donate_loop
donate_loop-Backed zero s curr but ends =
    (Backed-all s curr but (λ l h waits holds. absurd (ends l h waits holds)), Raised-refl _ s)
donate_loop-Backed (suc n) s curr but ends = elim (Option-cases (s.waiting_lock curr)) [
  | inl free ↦
      rw (free, donate_loop)
        (
          Backed-all s curr but (λ l h waits holds. absurd (none_some (sym free ∙ waits))),
          Raised-refl _ s,
        )
  | inr (l, waits) ↦ elim (Option-cases ((s.lock l).holder)) [
    | inl free ↦
        rw (waits, donate_loop, free)
          (
            Backed-all s curr but (λ l' h waits' holds. absurd (
                none_some (
                  sym free
                  ∙ ap (λ m. (s.lock m).holder) (some_injective (sym waits ∙ waits'))
                  ∙ holds))),
            Raised-refl _ s,
          )
    | inr (h, holds) ↦
        elim (Bool-cases (ltb (priority_of s.kernel h) (priority_of s.kernel curr))) [
          | inl lower ↦
              let rest =
                donate_loop-Backed n (set_priority s h (priority_of s.kernel curr)) h
                  (donated-BackedBut s curr l h but waits holds (ltb→lt _ _ lower))
                  (ends l h waits holds) in
              rw (waits, donate_loop, holds, lower)
                (rest.0, Raised-donated s _ curr h (ltb→lt _ _ lower) rest.1)
          | inr enough ↦
              rw (waits, donate_loop, holds, enough)
                (
                  Backed-all s curr but (λ l' h' waits' holds'.
                      subst (λ u. priority_of s.kernel curr ≤ priority_of s.kernel u)
                        (some_injective (
                          sym holds
                          ∙ ap (λ m. (s.lock m).holder) (some_injective (sym waits ∙ waits'))
                          ∙ holds'))
                        (ltb→ge _ _ enough)),
                  Raised-refl _ s,
                )
        ]
  ]
]
  where
    none_some : {l : ℕ} → none ≡ some l → ⊥
    none_some e = cc

    some_injective : {a b : ℕ} → some a ≡ some b → a ≡ b
    some_injective e = cc

-- If no thread but the running one waits for a lock whose holder has a lower priority, and from
-- the running thread on the chain of holders that themselves wait for a lock ends within 8 locks,
-- then after donate_priority no thread waits for a lock whose holder has a lower priority;
-- priorities have only risen, none beyond the running thread's unless it was beyond before, and
-- locks, waits and the ready list are as before.
pub donate_priority-Backed :
    (s : Sync)
    → BackedBut s (s.kernel).current
    → Ends 8 s.waiting_lock s.lock (s.kernel).current
    → Backed (donate_priority s)
      × Raised (priority_of s.kernel (s.kernel).current) s (donate_priority s)
unfolding donate_priority
donate_priority-Backed s but ends = donate_loop-Backed 8 s (s.kernel).current but ends
