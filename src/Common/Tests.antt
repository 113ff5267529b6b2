-- ===== src/Common/Tests.antt =====
-- C comparisons as Boolean tests.
use Prim.Native.Nat.{ℕ, ◌≤◌, ◌<◌, compare, Ordering}
use mathlib.Core.Path.{◌≡◌, refl}
use mathlib.Core.Logic.{◌≢◌, ◌⊎◌, inl, inr}
use mathlib.Core.Bool.{Bool, true, false}
use mathlib.Core.Option.{Option, none, some}
use native.Mathlib.Omega.{arith}

abbrev pub ltb : ℕ → ℕ → Bool
ltb a b = elim (compare a b) [ Ordering.lt ↦ true | _ ↦ false ]

abbrev pub leb : ℕ → ℕ → Bool
leb a b = elim (compare a b) [ Ordering.gt ↦ false | _ ↦ true ]

infix 50 ◌==◌
abbrev pub ◌==◌ : ℕ → ℕ → Bool
a == b = elim (compare a b) [ Ordering.eq ↦ true | _ ↦ false ]

infix 1 if◌then◌else◌
abbrev pub if◌then◌else◌ {ℓ} : {A : Type ℓ} → Bool → A → A → A
if true then x else y = x
if false then x else y = y

pub Bool-cases : (b : Bool) → (b ≡ true) ⊎ (b ≡ false)
Bool-cases true = inl refl
Bool-cases false = inr refl

pub ltb→lt : (a b : ℕ) → ltb a b ≡ true → a < b
ltb→lt a b h = ground arith

pub ltb→le : (a b : ℕ) → ltb a b ≡ false → b ≤ a
ltb→le a b h = ground arith

pub lt→ltb : (a b : ℕ) → a < b → ltb a b ≡ true
lt→ltb a b h = ground arith

pub le→ltb : (a b : ℕ) → b ≤ a → ltb a b ≡ false
le→ltb a b h = ground arith

pub ==→eq : (a b : ℕ) → (a == b) ≡ true → a ≡ b
==→eq a b h = ground arith

pub ==→ne : (a b : ℕ) → (a == b) ≡ false → a ≢ b
==→ne a b h = ground arith

pub eq→== : (a b : ℕ) → a ≡ b → (a == b) ≡ true
eq→== a b h = ground arith

pub ne→== : (a b : ℕ) → a ≢ b → (a == b) ≡ false
ne→== a b h = ground arith

pub if_true {ℓ} : {A : Type ℓ} (b : Bool) (x y : A) → b ≡ true → (if b then x else y) ≡ x
if_true true x y e = refl
if_true false x y e = absurd (cc)

pub if_false {ℓ} : {A : Type ℓ} (b : Bool) (x y : A) → b ≡ false → (if b then x else y) ≡ y
if_false true x y e = absurd (cc)
if_false false x y e = refl

-- What holds of both branches of a test holds of the whole.
pub if_both {ℓ} :
    {A : Type ℓ} (P : A → Type 0) (c : Bool) (x y : A)
    → (c ≡ true → P x)
    → (c ≡ false → P y)
    → P (if c then x else y)
if_both P true x y p q = p refl
if_both P false x y p q = q refl

pub elim_both {ℓ} :
    {A : Type ℓ} (P : A → Type 0) (c : Bool) (x y : A)
    → (c ≡ true → P x)
    → (c ≡ false → P y)
    → P (elim c [ true ↦ x | false ↦ y ])
elim_both P true x y p q = p refl
elim_both P false x y p q = q refl

pub elim_true {ℓ} :
    {A : Type ℓ} (c : Bool) (x y : A) → c ≡ true → elim c [ true ↦ x | false ↦ y ] ≡ x
elim_true true x y e = refl
elim_true false x y e = absurd (cc)

pub elim_false {ℓ} :
    {A : Type ℓ} (c : Bool) (x y : A) → c ≡ false → elim c [ true ↦ x | false ↦ y ] ≡ y
elim_false true x y e = absurd (cc)
elim_false false x y e = refl

pub elim_option {ℓ} :
    {A : Type ℓ} {B : Type 0} (P : A → Type 0) (o : Option B) (n : A) (c : B → A)
    → (o ≡ none → P n)
    → ((y : B) → o ≡ some y → P (c y))
    → P (elim o [ none ↦ n | some y ↦ c y ])
elim_option P none n c p q = p refl
elim_option P (some y) n c p q = q y refl
