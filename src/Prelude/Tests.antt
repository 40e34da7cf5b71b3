-- ===== src/Prelude/Tests.antt =====
-- Boolean tests on the native numbers, the conditional, and splits that keep an equation.
use Prim.Native.Nat.{ℕ, zero, suc, ◌<◌, compare, Ordering}
use mathlib.Core.Path.{◌≡◌, refl, ap}
use mathlib.Core.Logic.{◌↔◌, ◌⊎◌, inl, inr}
use mathlib.Core.Bool.{Bool, true, false, ◌&&◌}
use mathlib.Core.Option.{Option, none, some}
use native.Mathlib.Omega.{arith}

abbrev pub ltb : ℕ → ℕ → Bool
ltb a b = elim (compare a b) [ Ordering.lt ↦ true | _ ↦ false ]

abbrev pub leb : ℕ → ℕ → Bool
leb a b = elim (compare a b) [ Ordering.gt ↦ false | _ ↦ true ]

infix 50 ◌==◌
abbrev pub ◌==◌ : ℕ → ℕ → Bool
a == b = elim (compare a b) [ Ordering.eq ↦ true | _ ↦ false ]

infix 1 if◌then◌else◌
abbrev pub if◌then◌else◌ {ℓ} : {A : Type ℓ} → Bool → A → A → A
if true then x else y = x
if false then x else y = y

pub ==_iff : (a b : ℕ) → ((a == b) ≡ true) ↔ (a ≡ b)
==_iff a b = ground arith

pub Bool-cases : (b : Bool) → (b ≡ true) ⊎ (b ≡ false)
Bool-cases true = inl refl
Bool-cases false = inr refl

pub Option-cases {ℓ} : {A : Type ℓ} (o : Option A) → (o ≡ none) ⊎ ((a : A) × (o ≡ some a))
Option-cases none = inl refl
Option-cases (some a) = inr (a, refl)

-- Evaluates a test on the numbers below a bound, so that `refl` proves a fact about all of them.
unfoldable pub passes : (ℕ → Bool) → ℕ → Bool
passes test zero = true
passes test (suc bound) = passes test bound && test bound

pub passes-below :
    (test : ℕ → Bool) (bound : ℕ) → passes test bound ≡ true → (n : ℕ) → n < bound → test n ≡ true
unfolding passes
passes-below test zero passed n small = absurd (omega arith)
passes-below test (suc bound) passed n small =
    let earlier : passes test bound ≡ true → n < bound → test n ≡ true =
      λ e lt. passes-below test bound e n lt in
    ground arith

-- Two functions on which such a test of equality passes.
pub agree_below :
    (f g : ℕ → ℕ) (bound : ℕ)
    → passes (λ n. f n == g n) bound ≡ true
    → (n : ℕ) → n < bound
    → f n ≡ g n
agree_below f g bound passed n small =
    (==_iff (f n) (g n)).0 (passes-below (λ k. f k == g k) bound passed n small)

-- Chains of steps that may fail.
infixl 5 ◌>>=◌
abbrev pub ◌>>=◌ {ℓ κ} : {A : Type ℓ} {B : Type κ} → Option A → (A → Option B) → Option B
none >>= f = none
some a >>= f = f a

-- What holds of both branches of a test, or of both ways of a step, holds of the whole.
pub if_rule {ℓ κ} :
    {A : Type ℓ} (P : A → Type κ) (b : Bool) (x y : A) → P x → P y → P (if b then x else y)
if_rule P true x y on_true on_false = on_true
if_rule P false x y on_true on_false = on_false

pub bind_rule {ℓ κ μ} :
    {A : Type ℓ} {B : Type κ} (P : Option B → Type μ) (r : Option A) (f : A → Option B)
    → P none
    → ((a : A) → r ≡ some a → P (f a))
    → P (r >>= f)
bind_rule P none f on_none on_some = on_none
bind_rule P (some a) f on_none on_some = on_some a refl

-- A case on an option that is known.
pub elim_none {ℓ κ} :
    {A : Type ℓ} {B : Type κ} (o : Option A) (x : B) (g : A → B)
    → o ≡ none
    → (elim o [ none ↦ x | some a ↦ g a ]) ≡ x
elim_none none x g e = refl
elim_none (some a) x g e = absurd (ground arith)

pub elim_some {ℓ κ} :
    {A : Type ℓ} {B : Type κ} (o : Option A) (x : B) (g : A → B) (a : A)
    → o ≡ some a
    → (elim o [ none ↦ x | some b ↦ g b ]) ≡ g a
elim_some none x g a e = absurd (ground arith)
elim_some (some b) x g a e = ap g (ground arith)

pub bind_none {ℓ κ} :
    {A : Type ℓ} {B : Type κ} (o : Option A) (f : A → Option B) → o ≡ none → (o >>= f) ≡ none
bind_none none f e = refl
bind_none (some a) f e = absurd (ground arith)
