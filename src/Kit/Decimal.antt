-- ===== src/Kit/Decimal.antt =====
-- `str(n)` and `int(s)` for numbers as `str` writes them: without sign, as texts of ASCII digits. Other
-- spellings that Python's `int` also reads (a sign, spaces around, underscores) are not modelled.
use Prim.Native.Nat.{ℕ, zero, suc, ◌+◌, ◌-◌, ◌*◌, ◌/◌, ◌%◌, ◌<◌}
use mathlib.Core.Path.{◌≡◌, refl, ap, ◌∙◌}
use mathlib.Core.Logic.{inl, inr, ◌≢◌}
use mathlib.Core.Bool.{◌&&◌}
use mathlib.Core.Option.{Option, none, some}
use mathlib.Core.List.{[], ◌∷◌, ◌++◌}
use native.Mathlib.Numerals.{add-one}
use native.Mathlib.Omega.{arith}
use fast_kit.Kit.Tests.{if◌then◌else◌, ltb, leb, Bool-cases}
use fast_kit.Kit.Texts.{Text}

-- The digits of a number, the first one first; the fuel bounds their number.
digits : ℕ → ℕ → Text
digits zero n = []
digits (suc fuel) n =
    let front = digits fuel (n / 10) in
    if ltb n 10 then (48 + n) ∷ [] else front ++ (48 + n % 10) ∷ []

pub decimal : ℕ → Text
unfolding digits
decimal n = digits (n + 1) n

-- The value of a run of digits behind a number that is read already.
digits_value : ℕ → Text → Option ℕ
digits_value n [] = some n
digits_value n (c ∷ s) =
    let rest = digits_value (n * 10 + (c - 48)) s in if leb 48 c && leb c 57 then rest else none

pub parse_decimal : Text → Option ℕ
unfolding digits_value
parse_decimal [] = none
parse_decimal (c ∷ s) = digits_value 0 (c ∷ s)

digits_value-append :
    (n m : ℕ) (s : Text) (d : ℕ)
    → d < 10
    → digits_value n s ≡ some m
    → digits_value n (s ++ (48 + d) ∷ []) ≡ some (m * 10 + d)
unfolding digits_value
digits_value-append n m [] d h e = ground arith
digits_value-append n m (c ∷ s) d h e = elim (Bool-cases (leb 48 c && leb c 57)) [
  | inl ok_ ↦ rw ok_ (digits_value-append (n * 10 + (c - 48)) m s d h (rw ok_ at e))
  | inr no_ ↦ absurd (cc (rw no_ at e))
]

one_digit : (n : ℕ) → n < 10 → digits_value 0 ((48 + n) ∷ []) ≡ some n
unfolding digits_value
one_digit n h = ground arith

digits_value-digits : (fuel n : ℕ) → n < fuel → digits_value 0 (digits fuel n) ≡ some n
unfolding digits
digits_value-digits zero n h = elim h [ ]
digits_value-digits (suc fuel) n h = elim (Bool-cases (ltb n 10)) [
  | inl small ↦ rw small (one_digit n (ground arith))
  | inr large ↦ rw large (
      digits_value-append 0 (n / 10) (digits fuel (n / 10)) (n % 10) (omega arith)
        (digits_value-digits fuel (n / 10) (ground arith))
      ∙ ap some (omega arith))
]

append-ne-nil : (s : Text) (c : ℕ) → s ++ c ∷ [] ≢ []
append-ne-nil [] c e = cc
append-ne-nil (d ∷ s) c e = cc

digits-ne-nil : (fuel n : ℕ) → digits (suc fuel) n ≢ []
unfolding digits
digits-ne-nil fuel n = elim (Bool-cases (ltb n 10)) [
  | inl small ↦ rw small (λ e. cc)
  | inr large ↦ rw large (append-ne-nil (digits fuel (n / 10)) (48 + n % 10))
]

parse_decimal_of :
    (s : Text) (n : ℕ) → s ≢ [] → digits_value 0 s ≡ some n → parse_decimal s ≡ some n
unfolding parse_decimal
parse_decimal_of [] n h e = absurd (h refl)
parse_decimal_of (c ∷ s) n h e = e

-- A number that was printed is read back.
pub parse-decimal : (n : ℕ) → parse_decimal (decimal n) ≡ some n
unfolding decimal
parse-decimal n = rw add-one (
    parse_decimal_of (digits (suc n) n) n (digits-ne-nil n n)
      (digits_value-digits (suc n) n (omega arith)))
