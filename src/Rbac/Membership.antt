-- ===== src/Rbac/Membership.antt =====
-- Who has which role: the table of links as a relation, without the order of its rows and without
-- who made them, and what the use cases of roles do to the relation.
pub mod Refinement
use fast_kit.Rbac.Tables.{add_member, drop_member, is_member}
use fast_kit.Accounts.Values.{UserRoleModel}
use fast_kit.Accounts.Site.{Tables}
use fast_kit.Kit.{
  Text, codes, text_eq→eq, text_eq_refl, text_eq, ℕ, zero, suc, ◌+◌, ◌-◌, ◌*◌, ◌/◌, ◌%◌, ◌^◌, ◌≤◌,
  ◌<◌, min, max, String, ◌≡◌, refl, sym, ap, ◌∙◌, fun_ext, subst, ◌≢◌, ◌↔◌, ◌⊎◌, inl, inr, Bool,
  true, false, not, ◌&&◌, ◌||◌, false≢true, Option, none, some, List, [], ◌∷◌, ◌++◌, map,
  append-nil, append_assoc, map-append, arith, ◌==◌, eq_iff, eq_refl, if◌then◌else◌, ltb, leb,
  num_eq, is_some, or_else, Bool-cases, Option-cases, num_eq→eq, num_eq_refl, text-cases, text_ne,
  if-not, option_map, and_true, num_eq_of_eq, not-false, option_map-some, length, take, drop,
  where_, any, find, update_where, length-append, length-take, length-update_where, All, All-append,
  insert_ordered, order_by, Any-append_left, Any-append_right, Any-map, In, In-update_where,
  In-update_where_of, All-of_In, In-where_, In-take, In-insert_ordered, In-order_by, In-append,
  find-holds, Any, here, there, Method, pure, raise, gets, lift, or_raise, modify, raise_if, ◌>>=◌,
  ◌>>◌, is_ok, bind-ok, bind-err, for_each, Result, ok, err, Ensures-bind, Ensures-if,
  Ensures-weaken, state-Ensures, Ensures-self, Ensures-both, Ensures-for_each, Exactly,
  Ensures-then, Ensures-raise_if, Ensures-returned, Ensures-never, Ensures, returns, raises,
  decimal, parse_decimal, parse-decimal, pair_with, join, In-join, join-In, where_-In, any-In,
  In-any, counted-In, In-map, map-In, find-In, In-end,
}

abbrev pub Membership : Type 0
Membership = ℕ → ℕ → Bool

abbrev pub membership_of : Tables → Membership
membership_of t user role = any (is_member user role) t.user_roles

abbrev is_this : ℕ → ℕ → ℕ → ℕ → Bool
is_this user role u r = num_eq user u && num_eq role r

-- The relation with a pair, and without it.
abbrev pub joined : ℕ → ℕ → Membership → Membership
joined user role m u r = is_this user role u r || m u r

abbrev pub left : ℕ → ℕ → Membership → Membership
left user role m u r = not (is_this user role u r) && m u r

any-append :
    {A : Type 0} (p : A → Bool) (xs : List A) (y : A) → any p (xs ++ y ∷ []) ≡ (p y || any p xs)
any-append p [] y = ground arith
any-append p (x ∷ xs) y = let rest = any-append p xs y in ground (arith, rest)

any-dropped :
    (user role u r : ℕ) (xs : List UserRoleModel)
    → any (is_member u r) (where_ (λ x. not (is_member user role x)) xs)
      ≡ (not (is_this user role u r) && any (is_member u r) xs)
any-dropped user role u r [] = ground arith
any-dropped user role u r (x ∷ xs) =
    let rest = any-dropped user role u r xs in
    elim (Bool-cases (is_member user role x)) [
      | inl e ↦ rw e (ground (arith, rest, e))
      | inr e ↦ rw e (ground (arith, rest, e))
    ]

-- A pair that is this one is this one.
membership-this :
    (t : Tables) (user role u r : ℕ)
    → is_this user role u r ≡ true
    → membership_of t u r ≡ membership_of t user role
membership-this t user role u r h =
    let (same_user, same_role) = and_true (num_eq user u) (num_eq role r) h in
    sym (
      ap (λ n. membership_of t n role) (num_eq→eq user u same_user)
      ∙ ap (membership_of t u) (num_eq→eq role r same_role))

module _ (t : Tables) (user role : ℕ) where
  pub add_member-joined :
      (assigned_by : Option ℕ) (now : ℕ)
      → membership_of (add_member user role assigned_by now t) ≡ joined user role (membership_of t)
  add_member-joined assigned_by now =
      fun_ext (λ u. fun_ext (λ r. any-append (is_member u r) t.user_roles _))

  pub drop_member-left : membership_of (drop_member user role t) ≡ left user role (membership_of t)
  drop_member-left = fun_ext (λ u. fun_ext (λ r. any-dropped user role u r t.user_roles))

  -- A pair that is there joins, and one that is not leaves, without a change.
  pub same-joined :
      membership_of t user role ≡ true → membership_of t ≡ joined user role (membership_of t)
  same-joined h = fun_ext (λ u. fun_ext (λ r. elim (Bool-cases (is_this user role u r)) [
    | inl e ↦ let same = membership-this t user role u r e in rw e (same ∙ h)
    | inr e ↦ rw e refl
  ]))

  pub same-left :
      membership_of t user role ≡ false → membership_of t ≡ left user role (membership_of t)
  same-left h = fun_ext (λ u. fun_ext (λ r. elim (Bool-cases (is_this user role u r)) [
    | inl e ↦ let same = membership-this t user role u r e in rw e (same ∙ h)
    | inr e ↦ rw e refl
  ]))
