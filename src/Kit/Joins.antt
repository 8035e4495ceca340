-- ===== src/Kit/Joins.antt =====
-- SQL's joins: the combinations of rows that meet a condition; and where rows are found.
use Prim.Native.Nat.{ℕ, zero, suc, ◌≤◌}
use mathlib.Core.Path.{◌≡◌, refl, sym, ap, ◌∙◌, subst}
use mathlib.Core.Logic.{◌⊎◌, inl, inr}
use mathlib.Core.Bool.{true, Bool}
use mathlib.Core.Option.{some}
use mathlib.Core.List.{List, [], ◌∷◌, ◌++◌, map}
use native.Mathlib.Omega.{arith}
use fast_kit.Kit.Tests.{Bool-cases, if◌then◌else◌, ltb}
use fast_kit.Kit.Lists.{
  In, here, there, In-append, Any-append_left, Any-append_right, where_, any, length, find,
  insert_ordered, order_by, take,
}

abbrev pub pair_with {ℓ} : {A B : Type ℓ} → (B → Bool) → A → List B → List (A × B)
pair_with on x [] = []
pair_with on x (y ∷ ys) = let rest = pair_with on x ys in if on y then (x, y) ∷ rest else rest

abbrev pub join {ℓ} : {A B : Type ℓ} → (A → B → Bool) → List A → List B → List (A × B)
join on [] ys = []
join on (x ∷ xs) ys = pair_with (on x) x ys ++ join on xs ys

module _ {A B : Type 0} where
  In-pair_with :
      (on : B → Bool) (x a : A) (b : B) (ys : List B)
      → In (a, b) (pair_with on x ys)
      → (a ≡ x) × In b ys × (on b ≡ true)
  In-pair_with on x a b [] m = elim m [ ]
  In-pair_with on x a b (y ∷ ys) m = elim (Bool-cases (on y)) [
    | inl e ↦
        let kept : In (a, b) ((x, y) ∷ pair_with on x ys) = rw e at m in
        elim kept [
          | here q ↦ (
            ap (λ (z : A × B). z.0) q,
            here (ap (λ (z : A × B). z.1) q),
            ap (λ (z : A × B). on z.1) q ∙ e,
          )
          | there n ↦ let (q, i, h) = In-pair_with on x a b ys n in (q, there i, h)
        ]
    | inr e ↦
        let kept : In (a, b) (pair_with on x ys) = rw e at m in
        let (q, i, h) = In-pair_with on x a b ys kept in (q, there i, h)
  ]

  pair_with-In :
      (on : B → Bool) (x : A) (b : B) (ys : List B)
      → In b ys
      → on b ≡ true
      → In (x, b) (pair_with on x ys)
  pair_with-In on x b [] m e = elim m [ ]
  pair_with-In on x b (y ∷ ys) (here q) e =
      let h : on y ≡ true = ap on (sym q) ∙ e in rw h (here (ap (λ z. (x, z)) q))
  pair_with-In on x b (y ∷ ys) (there m) e = elim (Bool-cases (on y)) [
    | inl h ↦ rw h (there (pair_with-In on x b ys m e))
    | inr h ↦ rw h (pair_with-In on x b ys m e)
  ]

  pub In-join :
      (on : A → B → Bool) (a : A) (b : B) (xs : List A) (ys : List B)
      → In (a, b) (join on xs ys)
      → In a xs × In b ys × (on a b ≡ true)
  In-join on a b [] ys m = elim m [ ]
  In-join on a b (x ∷ xs) ys m = elim (In-append (pair_with (on x) x ys) (join on xs ys) m) [
    | inl i ↦ let (q, j, h) = In-pair_with (on x) x a b ys i in (here q, j, ap (λ z. on z b) q ∙ h)
    | inr i ↦ let (j, k, h) = In-join on a b xs ys i in (there j, k, h)
  ]

  pub join-In :
      (on : A → B → Bool) (a : A) (b : B) (xs : List A) (ys : List B)
      → In a xs
      → In b ys
      → on a b ≡ true
      → In (a, b) (join on xs ys)
  join-In on a b [] ys m n e = elim m [ ]
  join-In on a b (x ∷ xs) ys (here q) n e =
      let made : In (x, b) (pair_with (on x) x ys) =
        pair_with-In (on x) x b ys n (ap (λ z. on z b) (sym q) ∙ e) in
      subst (λ z. In (z, b) (pair_with (on x) x ys ++ join on xs ys)) (sym q)
        (Any-append_left (join on xs ys) made)
  join-In on a b (x ∷ xs) ys (there m) n e =
      Any-append_right (pair_with (on x) x ys) (join-In on a b xs ys m n e)

module _ {A : Type 0} (p : A → Bool) where
  pub where_-In : (b : A) (xs : List A) → In b xs → p b ≡ true → In b (where_ p xs)
  where_-In b [] m e = elim m [ ]
  where_-In b (x ∷ xs) (here q) e = let h : p x ≡ true = ap p (sym q) ∙ e in rw h (here q)
  where_-In b (x ∷ xs) (there m) e = elim (Bool-cases (p x)) [
    | inl h ↦ rw h (there (where_-In b xs m e))
    | inr h ↦ rw h (where_-In b xs m e)
  ]

  pub any-In : (xs : List A) → any p xs ≡ true → (x : A) × In x xs × (p x ≡ true)
  any-In [] h = cc h
  any-In (x ∷ xs) h = elim (Bool-cases (p x)) [
    | inl e ↦ (x, here refl, e)
    | inr e ↦
        let more : any p xs ≡ true = rw e at h in let (y, i, q) = any-In xs more in (y, there i, q)
  ]

  pub In-any : (x : A) (xs : List A) → In x xs → p x ≡ true → any p xs ≡ true
  In-any x [] m e = elim m [ ]
  In-any x (y ∷ xs) (here q) e = let h : p y ≡ true = ap p (sym q) ∙ e in rw h refl
  In-any x (y ∷ xs) (there m) e = rw (In-any x xs m e) (ground arith)

  -- `SELECT count(*) ... > 0`
  pub counted-In : (xs : List A) → ltb 0 (length (where_ p xs)) ≡ any p xs
  counted-In [] = refl
  counted-In (x ∷ xs) = elim (Bool-cases (p x)) [
    | inl e ↦ rw e (ground arith)
    | inr e ↦ rw e (counted-In xs)
  ]

module _ {A B : Type 0} (f : A → B) where
  pub In-map : (b : B) (xs : List A) → In b (map f xs) → (a : A) × In a xs × (b ≡ f a)
  In-map b [] m = elim m [ ]
  In-map b (x ∷ xs) (here q) = (x, here refl, q)
  In-map b (x ∷ xs) (there m) = let (a, i, q) = In-map b xs m in (a, there i, q)

  pub map-In : (a : A) (xs : List A) → In a xs → In (f a) (map f xs)
  map-In a [] m = elim m [ ]
  map-In a (x ∷ xs) (here q) = here (ap f q)
  map-In a (x ∷ xs) (there m) = there (map-In a xs m)

pub find-In : {A : Type 0} (p : A → Bool) (xs : List A) (x : A) → find p xs ≡ some x → In x xs
find-In p [] x e = cc e
find-In p (y ∷ ys) x e = elim (Bool-cases (p y)) [
  | inl hit ↦ let same : some y ≡ some x = rw hit at e in here (cc same)
  | inr miss ↦ there (find-In p ys x (rw miss at e))
]

-- A row at the end of a table is an old one or the new one.
pub In-end : {A : Type 0} (x a : A) (xs : List A) → In x (xs ++ a ∷ []) → In x xs ⊎ (x ≡ a)
In-end x a xs m = elim (In-append xs (a ∷ []) m) [
  | inl i ↦ inl i
  | inr (here e) ↦ inr e
  | inr (there i) ↦ elim i [ ]
]

-- A row is found behind `ORDER BY`, and behind a `LIMIT` that the rows do not reach.
module _ {ℓ} {A : Type ℓ} (before : A → A → Bool) where
  insert_ordered-In :
      {b : A} (x : A) (ys : List A) → In b (x ∷ ys) → In b (insert_ordered before x ys)
  insert_ordered-In x [] m = m
  insert_ordered-In x (y ∷ ys) m = elim (Bool-cases (before x y)) [
    | inl e ↦ rw e m
    | inr e ↦ rw e (elim m [
      | here q ↦ there (insert_ordered-In x ys (here q))
      | there n ↦ elim n [ here q ↦ here q | there i ↦ there (insert_ordered-In x ys (there i)) ]
    ])
  ]

  pub order_by-In : {b : A} (xs : List A) → In b xs → In b (order_by before xs)
  order_by-In [] m = m
  order_by-In (x ∷ xs) m = elim m [
    | here q ↦ insert_ordered-In x (order_by before xs) (here q)
    | there i ↦ insert_ordered-In x (order_by before xs) (there (order_by-In xs i))
  ]

  length-insert_ordered :
      (x : A) (ys : List A) → length (insert_ordered before x ys) ≡ suc (length ys)
  length-insert_ordered x [] = refl
  length-insert_ordered x (y ∷ ys) = elim (Bool-cases (before x y)) [
    | inl e ↦ rw e refl
    | inr e ↦ rw e (ap suc (length-insert_ordered x ys))
  ]

  pub length-order_by : (xs : List A) → length (order_by before xs) ≡ length xs
  length-order_by [] = refl
  length-order_by (x ∷ xs) =
      length-insert_ordered x (order_by before xs) ∙ ap suc (length-order_by xs)

pub take-In :
    {A : Type 0} {b : A} (n : ℕ) (xs : List A) → length xs ≤ n → In b xs → In b (take n xs)
take-In n [] le m = elim m [ ]
take-In zero (x ∷ xs) le m = absurd (omega arith)
take-In (suc n) (x ∷ xs) le (here q) = here q
take-In (suc n) (x ∷ xs) le (there i) = there (take-In n xs (omega arith) i)
