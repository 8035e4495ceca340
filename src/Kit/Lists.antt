-- ===== src/Kit/Lists.antt =====
-- Lists over the native numbers, and the folds that stand for Python's loops and for SQL's clauses.
use Prim.Native.Nat.{ℕ, zero, suc, ◌+◌, ◌≤◌}
use mathlib.Core.Path.{◌≡◌, refl, ap}
use mathlib.Core.Logic.{◌⊎◌, inl, inr}
use mathlib.Core.Bool.{true, Bool, false, ◌||◌}
use mathlib.Core.Option.{Option, none, some}
use mathlib.Core.List.{List, [], ◌∷◌, ◌++◌}
use native.Mathlib.Omega.{arith}
use fast_kit.Kit.Tests.{Bool-cases, if◌then◌else◌}

module _ {ℓ} {A : Type ℓ} where
  abbrev pub length : List A → ℕ
  length [] = 0
  length (x ∷ xs) = suc (length xs)

  -- `LIMIT n`
  abbrev pub take : ℕ → List A → List A
  take zero xs = []
  take (suc n) [] = []
  take (suc n) (x ∷ xs) = x ∷ take n xs

  -- `OFFSET n`
  abbrev pub drop : ℕ → List A → List A
  drop zero xs = xs
  drop (suc n) [] = []
  drop (suc n) (x ∷ xs) = drop n xs

  -- `WHERE`, by a Boolean test
  abbrev pub where_ : (A → Bool) → List A → List A
  where_ p [] = []
  where_ p (x ∷ xs) = let rest = where_ p xs in if p x then x ∷ rest else rest

  abbrev pub any : (A → Bool) → List A → Bool
  any p [] = false
  any p (x ∷ xs) = p x || any p xs

  -- The first row that fits.
  abbrev pub find : (A → Bool) → List A → Option A
  find p [] = none
  find p (x ∷ xs) = if p x then some x else find p xs

  -- The rows that fit, changed in place.
  abbrev pub update_where : (A → Bool) → (A → A) → List A → List A
  update_where p f [] = []
  update_where p f (x ∷ xs) = (if p x then f x else x) ∷ update_where p f xs

  pub length-append : (xs ys : List A) → length (xs ++ ys) ≡ length xs + length ys
  length-append [] ys = omega arith
  length-append (x ∷ xs) ys = omega (arith, length-append xs ys)

  pub length-take : (n : ℕ) (xs : List A) → length (take n xs) ≤ n
  length-take zero xs = omega arith
  length-take (suc n) [] = omega arith
  length-take (suc n) (x ∷ xs) = omega (arith, length-take n xs)

  pub length-update_where :
      (p : A → Bool) (f : A → A) (xs : List A) → length (update_where p f xs) ≡ length xs
  length-update_where p f [] = refl
  length-update_where p f (x ∷ xs) = ap suc (length-update_where p f xs)

-- A predicate on every element, by recursion: tactics read it as a tuple.
abbrev pub All {ℓ κ} : {A : Type ℓ} → (A → Type κ) → List A → Type κ
All P [] = Unit
All P (x ∷ xs) = P x × All P xs

-- Some element, found by its place.
pub data Any {ℓ κ} {A : Type ℓ} (P : A → Type κ) : List A → Type (ℓ ⊔ κ) where
  here : {x : A} {xs : List A} → P x → Any P (x ∷ xs)
  there : {x : A} {xs : List A} → Any P xs → Any P (x ∷ xs)

module _ {ℓ κ} {A : Type ℓ} (P : A → Type κ) where
  pub All-append : (xs ys : List A) → All P xs → All P ys → All P (xs ++ ys)
  All-append [] ys hx hy = hy
  All-append (x ∷ xs) ys hx hy = (hx.0, All-append xs ys hx.1 hy)

-- `ORDER BY`, by a test `before x y` that holds if `x` may stand in front of `y`; rows that tie
-- stay in the order of the table.
module _ {ℓ} {A : Type ℓ} (before : A → A → Bool) where
  abbrev pub insert_ordered : A → List A → List A
  insert_ordered x [] = x ∷ []
  insert_ordered x (y ∷ ys) = if before x y then x ∷ y ∷ ys else y ∷ insert_ordered x ys

  abbrev pub order_by : List A → List A
  order_by [] = []
  order_by (x ∷ xs) = insert_ordered x (order_by xs)

module _ {ℓ κ} {A : Type ℓ} {P : A → Type κ} where
  pub Any-append_left : {xs : List A} (ys : List A) → Any P xs → Any P (xs ++ ys)
  Any-append_left ys (here h) = here h
  Any-append_left ys (there m) = there (Any-append_left ys m)

  pub Any-append_right : (xs : List A) {ys : List A} → Any P ys → Any P (xs ++ ys)
  Any-append_right [] m = m
  Any-append_right (x ∷ xs) m = there (Any-append_right xs m)

  pub Any-map {ι} : {Q : A → Type ι} {xs : List A} → ((x : A) → P x → Q x) → Any P xs → Any Q xs
  Any-map f (here {x = x} h) = here (f x h)
  Any-map f (there m) = there (Any-map f m)

-- A row of a table.
abbrev pub In {ℓ} : {A : Type ℓ} → A → List A → Type ℓ
In a = Any (λ x. a ≡ x)

module _ {ℓ} {A : Type ℓ} where
  pub In-update_where :
      (p : A → Bool) (f : A → A) {b : A} (xs : List A)
      → In b (update_where p f xs)
      → (a : A) × In a xs × (b ≡ (if p a then f a else a))
  In-update_where p f [] m = elim m [ ]
  In-update_where p f (x ∷ xs) (here e) = (x, here refl, e)
  In-update_where p f (x ∷ xs) (there m) =
      let (a, i, e) = In-update_where p f xs m in (a, there i, e)

  -- The row of a table after a write to some of its rows.
  pub In-update_where_of :
      (p : A → Bool) (f : A → A) {a : A} (xs : List A)
      → In a xs
      → In (if p a then f a else a) (update_where p f xs)
  In-update_where_of p f [] i = elim i [ ]
  In-update_where_of p f (x ∷ xs) (here e) = here (ap (λ y. if p y then f y else y) e)
  In-update_where_of p f (x ∷ xs) (there i) = there (In-update_where_of p f xs i)

  pub All-of_In {κ} : (P : A → Type κ) (xs : List A) → ((x : A) → In x xs → P x) → All P xs
  All-of_In P [] h = tt
  All-of_In P (x ∷ xs) h = (h x (here refl), All-of_In P xs (λ y i. h y (there i)))

  pub In-where_ : (p : A → Bool) {b : A} (xs : List A) → In b (where_ p xs) → In b xs × (p b ≡ true)
  In-where_ p [] m = elim m [ ]
  In-where_ p {b} (x ∷ xs) m = elim (Bool-cases (p x)) [
    | inl e ↦
        let kept : In b (x ∷ where_ p xs) = rw e at m in
        elim kept [
          | here q ↦ (here q, rw q e)
          | there n ↦ let (i, h) = In-where_ p xs n in (there i, h)
        ]
    | inr e ↦
        let kept : In b (where_ p xs) = rw e at m in
        let (i, h) = In-where_ p xs kept in (there i, h)
  ]

  pub In-take : {b : A} (n : ℕ) (xs : List A) → In b (take n xs) → In b xs
  In-take zero xs m = elim m [ ]
  In-take (suc n) [] m = m
  In-take (suc n) (x ∷ xs) (here e) = here e
  In-take (suc n) (x ∷ xs) (there m) = there (In-take n xs m)

  pub In-insert_ordered :
      (before : A → A → Bool) {b : A} (x : A) (ys : List A)
      → In b (insert_ordered before x ys)
      → In b (x ∷ ys)
  In-insert_ordered before x [] m = m
  In-insert_ordered before {b} x (y ∷ ys) m = elim (Bool-cases (before x y)) [
    | inl e ↦ rw e at m
    | inr e ↦
        let moved : In b (y ∷ insert_ordered before x ys) = rw e at m in
        elim moved [
          | here q ↦ there (here q)
          | there n ↦ elim (In-insert_ordered before x ys n) [
            | here q ↦ here q
            | there i ↦ there (there i)
          ]
        ]
  ]

  pub In-order_by :
      (before : A → A → Bool) {b : A} (xs : List A) → In b (order_by before xs) → In b xs
  In-order_by before [] m = m
  In-order_by before (x ∷ xs) m = elim (In-insert_ordered before x (order_by before xs) m) [
    | here e ↦ here e
    | there i ↦ there (In-order_by before xs i)
  ]

  pub In-append : {b : A} (xs ys : List A) → In b (xs ++ ys) → In b xs ⊎ In b ys
  In-append [] ys m = inr m
  In-append (x ∷ xs) ys (here e) = inl (here e)
  In-append (x ∷ xs) ys (there m) = elim (In-append xs ys m) [
    | inl i ↦ inl (there i)
    | inr i ↦ inr i
  ]

-- What is found passes the test.
pub find-holds : {A : Type 0} (p : A → Bool) (xs : List A) (x : A) → find p xs ≡ some x → p x ≡ true
find-holds p [] x e = cc e
find-holds p (y ∷ ys) x e = elim (Bool-cases (p y)) [
  | inl hit ↦ let same : some y ≡ some x = rw hit at e in cc (same, hit)
  | inr miss ↦ find-holds p ys x (rw miss at e)
]
