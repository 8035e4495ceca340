-- ===== src/Users/Soundness.antt =====
-- What holds of the table of users: rows are apart in their unique columns, and a user is inactive
-- only if it is deleted.
pub mod Writes
pub mod Registration
pub mod Changes
use fast_kit.Users.Repository.{
  insert_row, cascade, replace_row, clashes, is_id, cascade_all, delete_rows,
}
use fast_kit.Kit.{
  Text, text_eq→eq, text_eq_refl, text_eq, ◌≤◌, ◌<◌, ◌≡◌, refl, sym, ap, ◌∙◌, subst, ◌⊎◌, inl, inr,
  Bool, true, false, not, ◌&&◌, false≢true, List, [], ◌∷◌, ◌++◌, arith, if◌then◌else◌, num_eq,
  is_some, Bool-cases, where_, any, update_where, All, All-append, In, In-update_where, All-of_In,
  In-where_, here, there, In-any, In-end,
}
use fast_kit.Accounts.Values.{same_status, UserModel, inactive}
use fast_kit.Accounts.Site.{Tables}

-- Two rows have no key and no unique value in common.
abbrev Apart : UserModel → UserModel → Type 0
Apart m r = (num_eq m.id r.id ≡ false) × (clashes m r ≡ false)

abbrev AllApart : List UserModel → Type 0
AllApart [] = Unit
AllApart (m ∷ ms) = All (Apart m) ms × AllApart ms

abbrev pub IsDeletedIfInactive : UserModel → Type 0
IsDeletedIfInactive m = same_status m.status inactive ≡ true → is_some m.deleted_at ≡ true

pub record IsSound (t : Tables) : Type 0 where
  pub apart : AllApart t.users
  pub deleted : (m : UserModel) → In m t.users → IsDeletedIfInactive m
  pub keyed : (m : UserModel) → In m t.users → m.id < t.next_id

text_eq_sym : (a b : Text) → text_eq a b ≡ false → text_eq b a ≡ false
text_eq_sym a b h = elim (Bool-cases (text_eq b a)) [
  | inl e ↦
      let same : text_eq a b ≡ true =
        subst (λ x. text_eq a x ≡ true) (sym (text_eq→eq b a e)) (text_eq_refl a) in
      cc (same, h)
  | inr e ↦ e
]

Apart-sym : (m r : UserModel) → Apart m r → Apart r m
Apart-sym m r h = (
  ground arith,
  ground (
    arith,
    text_eq_sym m.email r.email,
    text_eq_sym m.phone_number r.phone_number,
    text_eq_sym m.username r.username,
    text_eq_sym m.uuid r.uuid,
  ),
)

All-In : {A : Type 0} (P : A → Type 0) (xs : List A) (x : A) → All P xs → In x xs → P x
All-In P (y ∷ xs) x h (here e) = subst P (sym e) h.0
All-In P (y ∷ xs) x h (there i) = All-In P xs x h.1 i
All-In P [] x h i = elim i [ ]

AllApart-append :
    (ms : List UserModel) (m : UserModel)
    → AllApart ms
    → All (λ r. Apart r m) ms
    → AllApart (ms ++ m ∷ [])
AllApart-append [] m a h = (tt, tt)
AllApart-append (x ∷ ms) m a h =
    (All-append (Apart x) ms (m ∷ []) a.0 (h.0, tt), AllApart-append ms m a.1 h.1)

AllApart-where_ :
    (p : UserModel → Bool) (ms : List UserModel) → AllApart ms → AllApart (where_ p ms)
AllApart-where_ p [] a = tt
AllApart-where_ p (x ∷ ms) a =
    let rest = AllApart-where_ p ms a.1 in
    let first =
      All-of_In (Apart x) (where_ p ms) (λ r i. All-In (Apart x) ms r a.0 ((In-where_ p ms i).0)) in
    elim (Bool-cases (p x)) [ inl e ↦ rw e (first, rest) | inr e ↦ rw e rest ]

AllApart-replace :
    (m : UserModel) (ms : List UserModel)
    → AllApart ms
    → All (λ r. (is_id m.id r ≡ true) ⊎ Apart r m) ms
    → AllApart (update_where (is_id m.id) (λ _. m) ms)
AllApart-replace m [] a h = tt
AllApart-replace m (x ∷ ms) a h =
    let rest = AllApart-replace m ms a.1 h.1 in
    let others = update_where (is_id m.id) (λ _. m) ms in
    elim (Bool-cases (is_id m.id x)) [
      | inl e ↦ rw e (
        All-of_In (Apart m) others (λ r i.
            let (old, j, q) = In-update_where (is_id m.id) (λ _. m) ms i in
            let apart_x = All-In (Apart x) ms old a.0 j in
            let other : is_id m.id old ≡ false = ground (arith, apart_x.0) in
            let kept : r ≡ old = q ∙ ap (λ b. if b then m else old) other in
            elim (All-In (λ r. (is_id m.id r ≡ true) ⊎ Apart r m) ms old h.1 j) [
              | inl same ↦ absurd (false≢true (sym other ∙ same))
              | inr far ↦ subst (Apart m) (sym kept) (Apart-sym old m far)
            ]),
        rest,
      )
      | inr e ↦ rw e (
        All-of_In (Apart x) others (λ r i.
            let (old, j, q) = In-update_where (is_id m.id) (λ _. m) ms i in
            elim (Bool-cases (is_id m.id old)) [
              | inl same ↦
                  let new : r ≡ m = q ∙ ap (λ b. if b then m else old) same in
                  elim h.0 [
                    | inl hit ↦ absurd (false≢true (sym e ∙ hit))
                    | inr far ↦ subst (Apart x) (sym new) far
                  ]
              | inr other ↦
                  let kept : r ≡ old = q ∙ ap (λ b. if b then m else old) other in
                  subst (Apart x) (sym kept) (All-In (Apart x) ms old a.0 j)
            ]),
        rest,
      )
    ]

-- Nothing in a list passes a test that the list fails.
pub any-false :
    {A : Type 0} (p : A → Bool) (xs : List A) (x : A) → any p xs ≡ false → In x xs → p x ≡ false
any-false p xs x h i = elim (Bool-cases (p x)) [
  | inl e ↦ let hit = In-any p x xs i e in cc (hit, h)
  | inr e ↦ e
]

module _ (t : Tables) (s : IsSound t) where
  pub insert-IsSound :
      (m : UserModel)
      → m.id ≤ t.next_id
      → ((r : UserModel) → In r t.users → num_eq r.id m.id ≡ false)
      → any (clashes m) t.users ≡ false
      → IsDeletedIfInactive m
      → IsSound (insert_row m t)
  insert-IsSound m bound fresh unique deleted = record {
    apart = AllApart-append t.users m s.apart (
        All-of_In (λ r. Apart r m) t.users
          (λ r i.
            Apart-sym m r (ground (arith, fresh r i), any-false (clashes m) t.users r unique i)));
    deleted = λ r i. elim (In-end r m t.users i) [
      | inl old ↦ s.deleted r old
      | inr e ↦ subst IsDeletedIfInactive (sym e) deleted
    ];
    keyed = λ r i. elim (In-end r m t.users i) [
      | inl old ↦ omega (arith, s.keyed r old)
      | inr e ↦ omega (arith, bound, ap (λ (x : UserModel). x.id) e)
    ];
  }

  pub replace-IsSound :
      (m : UserModel)
      → m.id < t.next_id
      → any (λ r. not (is_id m.id r) && clashes m r) t.users ≡ false
      → IsDeletedIfInactive m
      → IsSound (replace_row m t)
  replace-IsSound m bound unique deleted =
      let clash = λ (r : UserModel). not (is_id m.id r) && clashes m r in
      record {
        apart = AllApart-replace m t.users s.apart (
            All-of_In (λ r. (is_id m.id r ≡ true) ⊎ Apart r m) t.users
              (λ r i. elim (Bool-cases (is_id m.id r)) [
                | inl e ↦ inl e
                | inr e ↦
                    let no_clash : clashes m r ≡ false =
                      ground (arith, any-false clash t.users r unique i) in
                    inr (Apart-sym m r (ground arith, no_clash))
              ]));
        deleted = λ r i.
            let (old, j, q) = In-update_where (is_id m.id) (λ _. m) t.users i in
            elim (Bool-cases (is_id m.id old)) [
              | inl e ↦
                  subst IsDeletedIfInactive (sym (q ∙ ap (λ b. if b then m else old) e)) deleted
              | inr e ↦
                  subst IsDeletedIfInactive (sym (q ∙ ap (λ b. if b then m else old) e))
                    (s.deleted old j)
            ];
        keyed = λ r i.
            let (old, j, q) = In-update_where (is_id m.id) (λ _. m) t.users i in
            elim (Bool-cases (is_id m.id old)) [
              | inl e ↦
                  subst (λ (x : UserModel). x.id < t.next_id)
                    (sym (q ∙ ap (λ b. if b then m else old) e)) bound
              | inr e ↦
                  subst (λ (x : UserModel). x.id < t.next_id)
                    (sym (q ∙ ap (λ b. if b then m else old) e)) (s.keyed old j)
            ];
      }

  cascade_all-next_id : (l : List UserModel) (u : Tables) → (cascade_all l u).next_id ≡ u.next_id
  cascade_all-next_id [] u = refl
  cascade_all-next_id (m ∷ l) u = cascade_all-next_id l (cascade m.id u)

  pub delete-IsSound : (uuid : Text) → IsSound (delete_rows uuid t)
  delete-IsSound uuid =
      let kept = λ (m : UserModel). not (text_eq m.uuid uuid) in
      let gone = where_ (λ (m : UserModel). text_eq m.uuid uuid) t.users in
      record {
        apart = AllApart-where_ kept t.users s.apart;
        deleted = λ m i. s.deleted m ((In-where_ kept t.users i).0);
        keyed = λ m i.
            subst (λ n. m.id < n) (sym (cascade_all-next_id gone t))
              (s.keyed m ((In-where_ kept t.users i).0));
      }
