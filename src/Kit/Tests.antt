-- ===== src/Kit/Tests.antt =====
-- Boolean tests, as Python's `if`, comparisons and `is None` make them.
use Prim.Native.Nat.{ℕ, compare, Ordering}
use Prim.Native.String.{String}
use mathlib.Core.Path.{◌≡◌, refl}
use mathlib.Core.Logic.{◌⊎◌, inl, inr}
use mathlib.Core.Bool.{Bool, true, false, not, ◌&&◌}
use mathlib.Core.Option.{Option, none, some}
use native.Mathlib.Omega.{arith}
use text.Mathlib.Text.{◌==◌}
use text.Mathlib.TextEquality.{eq_iff}

infix 1 if◌then◌else◌
abbrev pub if◌then◌else◌ {ℓ} : {A : Type ℓ} → Bool → A → A → A
if true then x else _ = x
if false then _ else y = y

abbrev pub ltb : ℕ → ℕ → Bool
ltb a b = elim (compare a b) [ Ordering.lt ↦ true | _ ↦ false ]

abbrev pub leb : ℕ → ℕ → Bool
leb a b = elim (compare a b) [ Ordering.gt ↦ false | _ ↦ true ]

-- Equality of numbers; `==` is that of texts.
abbrev pub num_eq : ℕ → ℕ → Bool
num_eq a b = elim (compare a b) [ Ordering.eq ↦ true | _ ↦ false ]

-- `o is not None`
abbrev pub is_some {ℓ} : {A : Type ℓ} → Option A → Bool
is_some none = false
is_some (some _) = true

abbrev pub or_else {ℓ} : {A : Type ℓ} → Option A → A → A
or_else none d = d
or_else (some a) _ = a

pub Bool-cases : (b : Bool) → (b ≡ true) ⊎ (b ≡ false)
Bool-cases true = inl refl
Bool-cases false = inr refl

pub Option-cases {ℓ} : {A : Type ℓ} (o : Option A) → (o ≡ none) ⊎ ((a : A) × (o ≡ some a))
Option-cases none = inl refl
Option-cases (some a) = inr (a, refl)

pub num_eq→eq : (a b : ℕ) → num_eq a b ≡ true → a ≡ b
num_eq→eq a b h = ground arith

pub num_eq_refl : (a : ℕ) → num_eq a a ≡ true
num_eq_refl a = ground arith

-- To split on a comparison of texts: equal, with the path, or apart.
pub text-cases : (s t : String) → ((s == t) ≡ true) × (s ≡ t) ⊎ ((s == t) ≡ false)
text-cases s t = elim (Bool-cases (s == t)) [
  | inl same ↦ inl (same, (eq_iff s t).0 same)
  | inr apart ↦ inr apart
]

pub text_ne : (s t : String) → (s == t) ≡ false → s ≡ t → ⊥
text_ne s t apart p = cc (apart, (eq_iff s t).1 p)

pub if-not {ℓ} : {A : Type ℓ} (b : Bool) (x y : A) → b ≡ true → (if not b then x else y) ≡ y
if-not true x y h = refl
if-not false x y h = cc

abbrev pub option_map {ℓ κ} : {A : Type ℓ} {B : Type κ} → (A → B) → Option A → Option B
option_map f none = none
option_map f (some a) = some (f a)

pub and_true : (a b : Bool) → (a && b) ≡ true → (a ≡ true) × (b ≡ true)
and_true true b h = (refl, h)
and_true false b h = cc h

pub num_eq_of_eq : (a b : ℕ) → a ≡ b → num_eq a b ≡ true
num_eq_of_eq a b h = ground arith

pub not-false : (b : Bool) → not b ≡ false → b ≡ true
not-false b h = ground arith

-- A mapped option that holds a value has one.
pub option_map-some {ℓ κ} :
    {A : Type ℓ} {B : Type κ} (f : A → B) (o : Option A) (b : B)
    → option_map f o ≡ some b
    → (a : A) × (o ≡ some a) × (f a ≡ b)
option_map-some f none b h = cc h
option_map-some f (some a) b h = (a, refl, cc h)
