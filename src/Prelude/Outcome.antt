-- ===== src/Prelude/Outcome.antt =====
-- How a kernel routine ends: it returns, it sleeps on a lock that another thread holds, or it
-- panics (a failed ASSERT, or PANIC), or it faults: it uses a null pointer, or memory beyond the
-- object at hand. What a fault leads to is not followed: with virtual memory, page_fault of
-- pintos/src/userprog/exception.c ends the running thread with exit_process (-1), whatever locks it
-- holds, and an access that hits mapped memory goes unnoticed.

use mathlib.Core.Path.{◌≡◌, refl}

pub data Outcome {ℓ} (A : Type ℓ) : Type ℓ where
  done : A → Outcome A
  blocked : Outcome A
  panic : Outcome A
  fault : Outcome A

infixl 5 ◌>>=◌
abbrev pub ◌>>=◌ {ℓ κ} : {A : Type ℓ} {B : Type κ} → Outcome A → (A → Outcome B) → Outcome B
done a >>= f = f a
blocked >>= f = blocked
panic >>= f = panic
fault >>= f = fault

-- No element, at every level.
pub data Absurd {ℓ} : Type ℓ where

-- The routine returns, with a result that meets `P`.
abbrev pub Returns {ℓ κ} : {A : Type ℓ} → (A → Type κ) → Outcome A → Type κ
Returns P (done a) = P a
Returns P blocked = Absurd
Returns P panic = Absurd
Returns P fault = Absurd

pub Returns-bind {ℓ κ μ ν} :
    {A : Type ℓ} {B : Type κ} (P : A → Type μ) (Q : B → Type ν) (m : Outcome A) (f : A → Outcome B)
    → Returns P m
    → ((a : A) → P a → Returns Q (f a))
    → Returns Q (m >>= f)
Returns-bind P Q (done a) f h k = k a h
Returns-bind P Q blocked f h k = elim h [ ]
Returns-bind P Q panic f h k = elim h [ ]
Returns-bind P Q fault f h k = elim h [ ]

pub Returns-mono {ℓ κ μ} :
    {A : Type ℓ} (P : A → Type κ) (Q : A → Type μ) (m : Outcome A)
    → Returns P m
    → ((a : A) → P a → Q a)
    → Returns Q m
Returns-mono P Q (done a) h k = k a h
Returns-mono P Q blocked h k = elim h [ ]
Returns-mono P Q panic h k = elim h [ ]
Returns-mono P Q fault h k = elim h [ ]

pub bind-panic {ℓ κ μ} :
    {A : Type ℓ} {B : Type κ} (P : A → Type μ) (m : Outcome A) (f : A → Outcome B)
    → Returns P m
    → ((a : A) → P a → f a ≡ panic)
    → (m >>= f) ≡ panic
bind-panic P (done a) f h k = k a h
bind-panic P blocked f h k = elim h [ ]
bind-panic P panic f h k = refl
bind-panic P fault f h k = elim h [ ]

pub done_injective {ℓ} : {A : Type ℓ} {a b : A} → done a ≡ done b → a ≡ b
done_injective e = cc

pub Returns-both {ℓ κ μ} :
    {A : Type ℓ} (P : A → Type κ) (Q : A → Type μ) (m : Outcome A)
    → Returns P m
    → Returns Q m
    → Returns (λ a. P a × Q a) m
Returns-both P Q (done a) h k = (h, k)
Returns-both P Q blocked h k = elim h [ ]
Returns-both P Q panic h k = elim h [ ]
Returns-both P Q fault h k = elim h [ ]
