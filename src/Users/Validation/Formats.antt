-- ===== src/Users/Validation/Formats.antt =====
-- The runs of the regular expressions, against what the expressions describe.
use fast_kit.Kit.{
  Text, ℕ, ◌≡◌, refl, ap, ◌↔◌, ◌⊎◌, inl, inr, Bool, true, false, Option, none, some, [], ◌∷◌, ◌++◌,
  num_eq, Bool-cases, num_eq→eq, All,
}
use fast_kit.Users.Validation.{
  is_tail, one, starts, at_end, is_label, ends, is_email, and_then, some_of, drop_while, is_local,
}

-- Text of one class, one character at least.
pub record IsRun (p : ℕ → Bool) (t : Text) : Type 0 where
  pub first : starts p t ≡ true
  pub all : All (λ c. p c ≡ true) t

abbrev IsEnd : Text → Type 0
IsEnd t = (t ≡ []) ⊎ (t ≡ 10 ∷ [])

-- What `^[a-zA-Z0-9_.+-]+@[a-zA-Z0-9-]+\.[a-zA-Z0-9-.]+$` describes.
pub record IsAddress (t : Text) : Type 0 where
  pub user : Text
  pub label : Text
  pub tail : Text
  pub end : Text
  pub user_run : IsRun is_local user
  pub label_run : IsRun is_label label
  pub tail_run : IsRun is_tail tail
  pub ended : IsEnd end
  pub whole : t ≡ user ++ b'@' ∷ (label ++ b'.' ∷ (tail ++ end))

module _ (p : ℕ → Bool) where
  drop_while-append :
      (l rest : Text)
      → All (λ c. p c ≡ true) l
      → starts p rest ≡ false
      → drop_while p (l ++ rest) ≡ rest
  unfolding drop_while
  drop_while-append [] [] h f = refl
  drop_while-append [] (c ∷ rest) h f = rw f
  drop_while-append (c ∷ l) rest h f = rw (h.0) (drop_while-append l rest h.1 f)

  starts-append : (l rest : Text) → starts p l ≡ true → starts p (l ++ rest) ≡ true
  starts-append [] rest h = cc h
  starts-append (c ∷ l) rest h = h

  -- The run is found if the next character is of another class.
  some_of-append :
      (l rest : Text) → IsRun p l → starts p rest ≡ false → some_of p (l ++ rest) ≡ some rest
  unfolding some_of
  some_of-append l rest h f = rw (starts-append l rest h.first, drop_while-append l rest h.all f)

  split : (t : Text) → (l : Text) × (t ≡ l ++ drop_while p t) × All (λ c. p c ≡ true) l
  unfolding drop_while
  split [] = ([], refl, tt)
  split (c ∷ t) = elim (Bool-cases (p c)) [
    | inl yes_p ↦ let (l, e, a) = split t in (c ∷ l, rw yes_p (ap (λ u. c ∷ u) e), (yes_p, a))
    | inr no_p ↦ ([], rw no_p refl, tt)
  ]

  some_of-some :
      (t rest : Text) → some_of p t ≡ some rest → (l : Text) × (t ≡ l ++ rest) × IsRun p l
  unfolding some_of drop_while
  some_of-some [] rest h = cc h
  some_of-some (c ∷ t) rest h = elim (Bool-cases (p c)) [
    | inl yes_p ↦
        let found : some (drop_while p t) ≡ some rest = rw yes_p at h in
        let (l, e, a) = split t in
        (c ∷ l, cc (e, found), record { first = yes_p; all = (yes_p, a) })
    | inr no_p ↦ let lost : none ≡ some rest = rw no_p at h in cc lost
  ]

module _ (p : ℕ → Bool) where
  one-some : (t rest : Text) → one p t ≡ some rest → (c : ℕ) × (t ≡ c ∷ rest) × (p c ≡ true)
  unfolding one
  one-some [] rest h = cc h
  one-some (c ∷ t) rest h = elim (Bool-cases (p c)) [
    | inl yes_p ↦ let found : some t ≡ some rest = rw yes_p at h in (c, cc found, yes_p)
    | inr no_p ↦ let lost : none ≡ some rest = rw no_p at h in cc lost
  ]

and_then-some :
    (o : Option Text) (f : Text → Option Text) (rest : Text)
    → and_then o f ≡ some rest
    → (t : Text) × (o ≡ some t) × (f t ≡ some rest)
and_then-some none f rest h = cc h
and_then-some (some t) f rest h = (t, refl, h)

ends-some : (o : Option Text) → ends o ≡ true → (t : Text) × (o ≡ some t) × IsEnd t
ends-some none h = cc h
ends-some (some []) h = ([], refl, inl refl)
ends-some (some (c ∷ [])) h = (c ∷ [], refl, inr (ap (λ x. x ∷ []) (num_eq→eq c 10 h)))
ends-some (some (c ∷ d ∷ t)) h = cc h

at_end-IsEnd : (t : Text) → IsEnd t → at_end t ≡ true
at_end-IsEnd t (inl e) = rw e refl
at_end-IsEnd t (inr e) = rw e refl

-- What follows a run of the last class is of no class.
ends-starts : (e : Text) → IsEnd e → starts is_tail e ≡ false
ends-starts e (inl h) = rw h refl
ends-starts e (inr h) = rw h refl

IsAddress-is_email : (t : Text) → IsAddress t → is_email t ≡ true
unfolding is_email one
IsAddress-is_email t a =
    rw
      (
        a.whole,
        some_of-append is_local a.user (b'@' ∷ (a.label ++ b'.' ∷ (a.tail ++ a.end))) a.user_run
            refl,
        some_of-append is_label a.label (b'.' ∷ (a.tail ++ a.end)) a.label_run refl,
        some_of-append is_tail a.tail a.end a.tail_run (ends-starts a.end a.ended),
      )
      (at_end-IsEnd a.end a.ended)

is_email-IsAddress : (t : Text) → is_email t ≡ true → IsAddress t
unfolding is_email
is_email-IsAddress t h =
    let at = λ (c : ℕ). num_eq c b'@' in
    let dot = λ (c : ℕ). num_eq c b'.' in
    let o1 = some_of is_local t in
    let o2 = and_then o1 (one at) in
    let o3 = and_then o2 (some_of is_label) in
    let o4 = and_then o3 (one dot) in
    let (end, e5, ended) = ends-some (and_then o4 (some_of is_tail)) h in
    let (t4, e4, f4) = and_then-some o4 (some_of is_tail) end e5 in
    let (t3, e3, f3) = and_then-some o3 (one dot) t4 e4 in
    let (t2, e2, f2) = and_then-some o2 (some_of is_label) t3 e3 in
    let (t1, e1, f1) = and_then-some o1 (one at) t2 e2 in
    let (user, p1, r1) = some_of-some is_local t t1 e1 in
    let (a, p2, r2) = one-some at t1 t2 f1 in
    let (label, p3, r3) = some_of-some is_label t2 t3 f2 in
    let (d, p4, r4) = one-some dot t3 t4 f3 in
    let (tail, p5, r5) = some_of-some is_tail t4 end f4 in
    record {
      user = user;
      label = label;
      tail = tail;
      end = end;
      user_run = r1;
      label_run = r3;
      tail_run = r5;
      ended = ended;
      whole = cc (p1, p2, p3, p4, p5, num_eq→eq a b'@' r2, num_eq→eq d b'.' r4);
    }

-- A text is accepted as an email address exactly if it is a user, an at sign, a label, a dot and a
-- tail, each of one character at least and of the characters of its class; a line break may follow.
pub is_email_iff : (t : Text) → (is_email t ≡ true) ↔ IsAddress t
is_email_iff t = (is_email-IsAddress t, IsAddress-is_email t)
