-- ===== src/Base/Outcomes.antt =====
-- How a piece of kernel code can end: it returns, it dereferences a NULL or stale pointer, or it
-- enters a loop that it never leaves.
use mathlib.Core.Path.{◌≡◌, refl}
use mathlib.Core.Bool.{Bool, true, false}
use akaris_old.Base.Tests.{if◌then◌else◌}

pub data Outcome {ℓ} (A : Type ℓ) : Type ℓ where
  returns : A → Outcome A
  fault : Outcome A
  hang : Outcome A

infixl 5 ◌>>=◌
abbrev pub ◌>>=◌ {ℓ κ} : {A : Type ℓ} {B : Type κ} → Outcome A → (A → Outcome B) → Outcome B
returns a >>= f = f a
fault >>= f = fault
hang >>= f = hang

-- Continuations after each other are one.
pub bind_chain {ℓ κ μ ν} :
    {A : Type ℓ} {B : Type κ} {C : Type μ} {D : Type ν} {h : A → Outcome D} (o : Outcome A)
    (f : A → Outcome B) (g : B → Outcome C) (l : C → Outcome D)
    → ((a : A) → (f a >>= g >>= l) ≡ h a)
    → (o >>= f >>= g >>= l) ≡ (o >>= h)
bind_chain (returns a) f g l e = e a
bind_chain fault f g l e = refl
bind_chain hang f g l e = refl

pub bind_chain_four {ℓ κ μ ν ξ} :
    {A : Type ℓ} {B : Type κ} {C : Type μ} {D : Type ν} {E : Type ξ} {h : A → Outcome E}
    (o : Outcome A) (f : A → Outcome B) (g : B → Outcome C) (l : C → Outcome D) (m : D → Outcome E)
    → ((a : A) → (f a >>= g >>= l >>= m) ≡ h a)
    → (o >>= f >>= g >>= l >>= m) ≡ (o >>= h)
bind_chain_four (returns a) f g l m e = e a
bind_chain_four fault f g l m e = refl
bind_chain_four hang f g l m e = refl

-- Where the whole returns, so does the first part.
pub bind_returns {ℓ κ} :
    {A : Type ℓ} {B : Type κ} (o : Outcome A) (f : A → Outcome B) (b : B)
    → (o >>= f) ≡ returns b
    → (a : A) × (o ≡ returns a) × (f a ≡ returns b)
bind_returns (returns a) f b e = (a, refl, e)
bind_returns fault f b e = cc
bind_returns hang f b e = cc

pub returns_injective {ℓ} : {A : Type ℓ} (a b : A) → returns a ≡ returns b → a ≡ b
returns_injective a b e = cc

pub fault_returns {ℓ} : {A : Type ℓ} (a : A) → fault ≡ returns a → ⊥
fault_returns a e = cc

-- What is true of the result, where there is one.
abbrev pub Returns {ℓ κ} : {A : Type ℓ} → (A → Type κ) → Outcome A → Type κ
Returns P (returns a) = P a
Returns P fault = Unit
Returns P hang = Unit

pub Returns-bind {ℓ κ μ ν} :
    {A : Type ℓ} {B : Type κ} (P : A → Type μ) (Q : B → Type ν) (o : Outcome A) (f : A → Outcome B)
    → Returns P o
    → ((a : A) → P a → Returns Q (f a))
    → Returns Q (o >>= f)
Returns-bind P Q (returns a) f h g = g a h
Returns-bind P Q fault f h g = tt
Returns-bind P Q hang f h g = tt

pub Returns-returned {ℓ κ} :
    {A : Type ℓ} (P : A → Type κ) (o : Outcome A) (a : A) → Returns P o → o ≡ returns a → P a
Returns-returned P o a h e = rw e at h

pub Returns-map {ℓ κ μ} :
    {A : Type ℓ} (P : A → Type κ) (Q : A → Type μ) (o : Outcome A)
    → ((a : A) → P a → Q a)
    → Returns P o
    → Returns Q o
Returns-map P Q (returns a) h p = h a p
Returns-map P Q fault h p = tt
Returns-map P Q hang h p = tt

pub Returns-if {ℓ κ} :
    {A : Type ℓ} (P : A → Type κ) (b : Bool) (o q : Outcome A)
    → Returns P o
    → Returns P q
    → Returns P (if b then o else q)
Returns-if P true o q h l = h
Returns-if P false o q h l = l

-- Nothing is known of the first part.
pub Returns-then {ℓ κ μ} :
    {A : Type ℓ} {B : Type κ} (Q : B → Type μ) (o : Outcome A) (f : A → Outcome B)
    → ((a : A) → Returns Q (f a))
    → Returns Q (o >>= f)
Returns-then Q (returns a) f g = g a
Returns-then Q fault f g = tt
Returns-then Q hang f g = tt

-- What the first part returned may be used.
pub Returns-known {ℓ κ μ} :
    {A : Type ℓ} {B : Type κ} (Q : B → Type μ) (o : Outcome A) (f : A → Outcome B)
    → ((a : A) → o ≡ returns a → Returns Q (f a))
    → Returns Q (o >>= f)
Returns-known Q (returns a) f g = g a refl
Returns-known Q fault f g = tt
Returns-known Q hang f g = tt
