-- ===== src/Kit/Results.antt =====
-- Calls that may raise, and methods that change a state and may raise. What was written before a
-- raise stays written, so the state comes back beside the error too.
use mathlib.Core.Path.{◌≡◌, ap}
use mathlib.Core.Bool.{Bool, true, false}
use mathlib.Core.List.{List, [], ◌∷◌}
use mathlib.Core.Option.{Option, none, some}

pub data Result {ℓ κ} (E : Type ℓ) (A : Type κ) : Type (ℓ ⊔ κ) where
  ok : A → Result E A
  err : E → Result E A

-- A method of an object with state `S` that returns an `A` or raises an `E`.
abbrev pub Method {ℓ κ} : Type ℓ → Type ℓ → Type κ → Type (ℓ ⊔ κ)
Method S E A = S → Result E A × S

module _ {ℓ κ} {S E : Type ℓ} {A : Type κ} where
  abbrev pub pure : A → Method S E A
  pure a s = (ok a, s)

  abbrev pub raise : E → Method S E A
  raise e s = (err e, s)

  abbrev pub gets : (S → A) → Method S E A
  gets f s = (ok (f s), s)

  abbrev pub lift : Result E A → Method S E A
  lift r s = (r, s)

  abbrev pub or_raise : Option A → E → Method S E A
  or_raise none e s = (err e, s)
  or_raise (some a) e s = (ok a, s)

module _ {ℓ} {S E : Type ℓ} where
  abbrev pub modify : (S → S) → Method S E (Unit {0})
  modify f s = (ok tt, f s)

  abbrev pub raise_if : Bool → E → Method S E (Unit {0})
  raise_if true e s = (err e, s)
  raise_if false e s = (ok tt, s)

infixl 5 ◌>>=◌ ◌>>◌
abbrev pub ◌>>=◌ {ℓ κ ι} :
    {S E : Type ℓ} {A : Type κ} {B : Type ι} → Method S E A → (A → Method S E B) → Method S E B
◌>>=◌ m f s = let (r, s') = m s in elim r [ ok a ↦ f a s' | err e ↦ (err e, s') ]

abbrev pub ◌>>◌ {ℓ κ ι} :
    {S E : Type ℓ} {A : Type κ} {B : Type ι} → Method S E A → Method S E B → Method S E B
m >> n = m >>= λ _. n

abbrev pub is_ok {ℓ κ} : {E : Type ℓ} {A : Type κ} → Result E A → Bool
is_ok (ok _) = true
is_ok (err _) = false

-- A call with a known outcome, in front of the rest of a block.
module _ {ℓ κ ι} {S E : Type ℓ} {A : Type κ} {B : Type ι} where
  pub bind-ok :
      (m : Method S E A) (f : A → Method S E B) {s s' : S} {a : A}
      → m s ≡ (ok a, s')
      → (m >>= f) s ≡ f a s'
  bind-ok m f e = ap (λ r. elim r.0 [ ok a ↦ f a r.1 | err e ↦ (err e, r.1) ]) e

  pub bind-err :
      (m : Method S E A) (f : A → Method S E B) {s s' : S} {x : E}
      → m s ≡ (err x, s')
      → (m >>= f) s ≡ (err x, s')
  bind-err m f e = ap (λ r. elim r.0 [ ok a ↦ f a r.1 | err e ↦ (err e, r.1) ]) e

-- `for x in xs: await m(x)`
abbrev pub for_each {ℓ κ} :
    {S E : Type ℓ} {A : Type κ} → (A → Method S E (Unit {0})) → List A → Method S E (Unit {0})
for_each m [] = pure tt
for_each m (x ∷ xs) = m x >> for_each m xs
