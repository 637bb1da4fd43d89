-- ===== src/Common/Options.antt =====
-- Chains of steps that may give nothing.
use laya_codex.Common.{Bool, true, false, if◌then◌else◌, Option, none, some, ◌≡◌, refl}
use mathlib.Core.Option.{some-injective}

infixl 5 ◌>>=◌
abbrev pub ◌>>=◌ {ℓ κ} : {A : Type ℓ} {B : Type κ} → Option A → (A → Option B) → Option B
none >>= f = none
some a >>= f = f a

pub bind-some {ℓ} : {A : Type ℓ} (o : Option A) → o >>= (λ a. some a) ≡ o
bind-some none = refl
bind-some (some a) = refl

pub bind_assoc {ℓ κ μ} :
    {A : Type ℓ} {B : Type κ} {C : Type μ} (o : Option A) (f : A → Option B) (g : B → Option C)
    → o >>= (λ a. f a >>= g) ≡ o >>= f >>= g
bind_assoc none f g = refl
bind_assoc (some a) f g = refl

pub bind-some_cases {ℓ κ} :
    {A : Type ℓ} {B : Type κ} (o : Option A) (f : A → Option B) (b : B)
    → o >>= f ≡ some b
    → (a : A) × (o ≡ some a) × (f a ≡ some b)
bind-some_cases none f b e = cc
bind-some_cases (some a) f b e = (a, refl, e)

-- An answer under a guard.
pub if-some {ℓ} :
    {A : Type ℓ} (c : Bool) (a b : A) → (if c then some a else none) ≡ some b → (c ≡ true) × (a ≡ b)
if-some true a b e = (refl, some-injective a b e)
if-some false a b e = cc

pub if-none {ℓ} :
    {A : Type ℓ} (c : Bool) (a b : A)
    → (if c then none else some a) ≡ some b
    → (c ≡ false) × (a ≡ b)
if-none true a b e = cc
if-none false a b e = (refl, some-injective a b e)
