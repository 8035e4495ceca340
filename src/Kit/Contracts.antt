-- ===== src/Kit/Contracts.antt =====
-- What a method ensures, by how it ends: `Q` of its result and the state if it returns, `R` of the
-- state if it raises. There is a rule for each way to build a method.
use mathlib.Core.Path.{◌≡◌, refl, sym, subst, ap}
use mathlib.Core.Option.{Option, none, some}
use mathlib.Core.Bool.{Bool, true, false, false≢true}
use fast_kit.Kit.Tests.{if◌then◌else◌, or_else}
use mathlib.Core.List.{List, [], ◌∷◌}
use fast_kit.Kit.Results.{Result, ok, err, Method, ◌>>=◌, ◌>>◌, for_each, raise_if, is_ok}

pub data Ensures {ℓ κ ι} {S E : Type ℓ} {A : Type κ} (Q : A → S → Type ι) (R : S → Type ι)
    : Result E A × S → Type (ℓ ⊔ κ ⊔ ι) where
  returns : {a : A} {s : S} → Q a s → Ensures Q R (ok a, s)
  raises : {e : E} {s : S} → R s → Ensures Q R (err e, s)

module _ {ℓ κ λ' ι} {S E : Type ℓ} {A : Type κ} {B : Type λ'} where
  Ensures-continue :
      (P : A → S → Type ι) (Q : B → S → Type ι) (R : S → Type ι) (f : A → Method S E B)
      (r : Result E A × S)
      → Ensures P R r
      → ((a : A) (s : S) → P a s → Ensures Q R (f a s))
      → Ensures {E = E} Q R (elim r.0 [ ok a ↦ f a r.1 | err e ↦ (err e, r.1) ])
  Ensures-continue P Q R f _ (returns {a = a} {s = s} p) k = k a s p
  Ensures-continue P Q R f _ (raises x) k = raises x

  pub Ensures-bind :
      (P : A → S → Type ι) (Q : B → S → Type ι) (R : S → Type ι) (m : Method S E A)
      (f : A → Method S E B) (s : S)
      → Ensures P R (m s)
      → ((a : A) (s' : S) → P a s' → Ensures Q R (f a s'))
      → Ensures Q R ((m >>= f) s)
  Ensures-bind P Q R m f s h k = Ensures-continue P Q R f (m s) h k

module _ {ℓ κ ι} {S E : Type ℓ} {A : Type κ} where
  pub Ensures-if :
      (Q : A → S → Type ι) (R : S → Type ι) (b : Bool) (m n : Method S E A) (s : S)
      → (b ≡ true → Ensures Q R (m s))
      → (b ≡ false → Ensures Q R (n s))
      → Ensures Q R ((if b then m else n) s)
  Ensures-if Q R true m n s hm hn = hm refl
  Ensures-if Q R false m n s hm hn = hn refl

  pub Ensures-weaken {ο} :
      (P : A → S → Type ο) (Q : A → S → Type ι) (R : S → Type ο) (R' : S → Type ι)
      → ((a : A) (s : S) → P a s → Q a s)
      → ((s : S) → R s → R' s)
      → (r : Result E A × S) → Ensures P R r
      → Ensures Q R' r
  Ensures-weaken P Q R R' f g _ (returns p) = returns (f _ _ p)
  Ensures-weaken P Q R R' f g _ (raises x) = raises (g _ x)

  -- What holds however a method ends.
  pub state-Ensures : (P : S → Type ι) (r : Result E A × S) → Ensures (λ _. P) P r → P r.1
  state-Ensures P _ (returns q) = q
  state-Ensures P _ (raises q) = q

  -- A method that returns ends in the state that it ends in.
  pub Ensures-self :
      (Q : A → S → Type ι) (R : S → Type ι) (r : Result E A × S)
      → Ensures Q R r
      → Ensures (λ a s. Q a s × (s ≡ r.1)) (λ s. R s × (s ≡ r.1)) r
  Ensures-self Q R _ (returns q) = returns (q, refl)
  Ensures-self Q R _ (raises x) = raises (x, refl)

module _ {ℓ κ ι} {S E : Type ℓ} {A : Type κ} where
  -- Two contracts of one method.
  pub Ensures-both :
      (Q Q' : A → S → Type ι) (R R' : S → Type ι) (r : Result E A × S)
      → Ensures Q R r
      → Ensures Q' R' r
      → Ensures (λ a s. Q a s × Q' a s) (λ s. R s × R' s) r
  Ensures-both Q Q' R R' _ (returns q) (returns q') = returns (q, q')
  Ensures-both Q Q' R R' _ (raises x) (raises x') = raises (x, x')

-- A loop whose invariant speaks of the elements that are left.
module _ {ℓ κ ι} {S E : Type ℓ} {A : Type κ} (I : List A → S → Type ι) (R : S → Type ι)
    (m : A → Method S E (Unit {0}))
    (step : (x : A) (xs : List A) (s : S) → I (x ∷ xs) s → Ensures (λ _. I xs) R (m x s)) where
  pub Ensures-for_each : (xs : List A) (s : S) → I xs s → Ensures (λ _. I []) R (for_each m xs s)
  Ensures-for_each [] s h = returns h
  Ensures-for_each (x ∷ xs) s h =
      Ensures-bind (λ _. I xs) (λ _. I []) R (m x) (λ _. for_each m xs) s (step x xs s h)
        (λ _ s' h'. Ensures-for_each xs s' h')

-- The outcome is this result in this state.
abbrev pub Exactly : {S A : Type 0} → A → S → A → S → Type 0
Exactly a s x t = (x ≡ a) × (t ≡ s)

-- A method with a known outcome in front of the rest of a block, unless it raises.
pub Ensures-then :
    {S E A B : Type 0} (Q : B → S → Type 0) (R : S → Type 0) (m : Method S E A)
    (f : A → Method S E B) (s : S) (a : A) (s' : S)
    → Ensures (Exactly a s') R (m s)
    → Ensures Q R (f a s')
    → Ensures Q R ((m >>= f) s)
Ensures-then Q R m f s a s' h k = Ensures-bind (Exactly a s') Q R m f s h (λ x t e.
    subst (λ y. Ensures Q R (f y t)) (sym e.0) (subst (λ u. Ensures Q R (f a u)) (sym e.1) k))

-- A guard in front of the rest of a block.
pub Ensures-raise_if :
    {S E B : Type 0} (Q : B → S → Type 0) (R : S → Type 0) (b : Bool) (e : E) (m : Method S E B)
    (s : S)
    → R s
    → (b ≡ false → Ensures Q R (m s))
    → Ensures Q R ((raise_if b e >> m) s)
Ensures-raise_if Q R true e m s r k = raises r
Ensures-raise_if Q R false e m s r k = k refl

module _ {S E A : Type 0} (R : S → Type 0) where
  abbrev value : Result E A → Option A
  value (ok x) = some x
  value (err _) = none

  -- A contract of a method that is known to have returned, and one that it never returns.
  pub Ensures-returned :
      (Q : A → S → Type 0) (r : Result E A × S) (a : A) → Ensures Q R r → r.0 ≡ ok a → Q a r.1
  Ensures-returned Q _ a (returns {a = b} {s = u} q) e =
      subst (λ x. Q x u) (ap (λ (x : Result E A). or_else (value x) b) e) q
  Ensures-returned Q _ a (raises _) e = absurd (false≢true (ap is_ok e))

  pub Ensures-never : (r : Result E A × S) → Ensures (λ _ _. ⊥) R r → is_ok r.0 ≡ false
  Ensures-never _ (returns q) = absurd q
  Ensures-never _ (raises x) = refl

-- A contract of a method that is known to return.
pub Ensures-is_ok :
    {S E A : Type 0} (Q : A → S → Type 0) (R : S → Type 0) (r : Result E A × S)
    → Ensures Q R r
    → is_ok r.0 ≡ true
    → Ensures Q (λ _. ⊥) r
Ensures-is_ok Q R _ (returns q) e = returns q
Ensures-is_ok Q R _ (raises x) e = absurd (false≢true e)
