-- ===== src/Core/RateLimit/Window.antt =====
-- How many requests pass in one window.
use fast_kit.Kit.{
  ℕ, ◌+◌, ◌<◌, min, ◌≡◌, refl, ap, ◌∙◌, inl, inr, Bool, true, false, Option, none, some, List, [],
  ◌∷◌, arith, if◌then◌else◌, ltb, leb, num_eq, Bool-cases, length, All, pure, raise_if, ◌>>◌, is_ok,
  Result, ok, err,
}
use fast_kit.Core.RateLimit.{
  set_ttl, bump, after_incr, rate_limited, Counter, check, TooManyRequests,
}

not_yet : (now e : ℕ) → now < e → leb e now ≡ false
not_yet now e h = ground arith

not_first : (k : ℕ) → 0 < k → num_eq (k + 1) 1 ≡ false
not_first k pos = ground arith

raise_if-if :
    (b : Bool) (s : Option Counter)
    → raise_if b rate_limited s ≡ (if b then err rate_limited else ok tt, s)
raise_if-if true s = refl
raise_if-if false s = refl

module _ (max_requests window_seconds : ℕ) where
  -- The requests of one client at these times, one after the other: how many pass.
  pub passed : List ℕ → Option Counter → ℕ
  passed [] s = 0
  passed (now ∷ times) s =
      let (r, s') = check max_requests window_seconds now s in
      let rest = passed times s' in if is_ok r then rest + 1 else rest

  -- A request that finds a counter of its window.
  check_live :
      (now k e : ℕ)
      → now < e
      → 0 < k
      → check max_requests window_seconds now (some (record { value = k; expires_at = some e })) ≡ (
        if ltb max_requests (k + 1) then err rate_limited else ok tt,
        some (record { value = k + 1; expires_at = some e }),
      )
  unfolding check
  check_live now k e h pos =
      let c : Counter = record { value = k; expires_at = some e } in
      let go : Counter → Result TooManyRequests (Unit {0}) × Option Counter =
        λ d. after_incr max_requests window_seconds now d.value (some d) in
      let next : Counter = record { value = k + 1; expires_at = some e } in
      ap (λ b. go (bump (if b then none else some c))) (not_yet now e h)
      ∙ ap
          (λ b.
            ((if b then set_ttl now (k + 1) window_seconds else pure tt)
                >> raise_if (ltb max_requests (k + 1)) rate_limited)
              (some next))
          (not_first k pos)
      ∙ raise_if-if (ltb max_requests (k + 1)) (some next)

  passed_live :
      (times : List ℕ) (k e : ℕ)
      → All (λ now. now < e) times
      → 0 < k
      → min k max_requests + passed times (some (record { value = k; expires_at = some e }))
        ≡ min (k + length times) max_requests
  unfolding passed
  passed_live [] k e h pos = omega arith
  passed_live (now ∷ times) k e (h, hs) pos =
      let later = passed_live times (k + 1) e hs (omega arith) in
      rw (check_live now k e h pos) (elim (Bool-cases (ltb max_requests (k + 1))) [
        | inl over ↦ rw over (ground arith)
        | inr under ↦ rw under (ground arith)
      ])

  -- If all later requests come before the window of the first one ends, as many requests pass as are
  -- allowed, or all if they are fewer.
  pub passed_window :
      (now : ℕ) (times : List ℕ)
      → All (λ later. later < now + window_seconds) times
      → passed (now ∷ times) none ≡ min (length times + 1) max_requests
  unfolding passed check
  passed_window now times h =
      let first =
        raise_if-if (ltb max_requests 1)
          (some (record { value = 1; expires_at = some (now + window_seconds) })) in
      let later = passed_live times 1 (now + window_seconds) h (omega arith) in
      rw first (elim (Bool-cases (ltb max_requests 1)) [
        | inl over ↦ rw over (ground arith)
        | inr under ↦ rw under (ground arith)
      ])
