-- ===== src/Accounts/Site/Rules.antt =====
-- What calls, requests and handlers of exceptions ensure.
use fast_kit.Kit.{
  ◌+◌, inl, inr, Option, [], ◌∷◌, ◌++◌, or_else, Bool-cases, Result, ok, err, Ensures, returns,
  raises,
}
use fast_kit.Accounts.Values.{AccountFailure}
use fast_kit.Accounts.Site.{
  publish_failed, Tables, Action, AccountEvent, store_failed, except, commit, request, statement,
  publish, query, Site, Services, call,
}

module _ (env : Services) where
  -- A call runs or fails; if it fails, it counts.
  pub call_lem :
      {A : Type 0} (Q : A → Site → Type 0) (R : Site → Type 0) (e : AccountFailure)
      (read : Site → A) (write : Site → Site) (s : Site)
      → Q (read s) (record (write s) { calls = s.calls + 1 })
      → R (record s { calls = s.calls + 1 })
      → Ensures Q R (call env e read write s)
  unfolding call
  call_lem Q R e read write s q r = elim (Bool-cases (env.call_fails s.calls)) [
    | inl fails ↦ rw fails (raises r)
    | inr runs ↦ rw runs (returns q)
  ]

  pub query_lem :
      {A : Type 0} (Q : A → Site → Type 0) (R : Site → Type 0) (f : Tables → A) (s : Site)
      → Q (f s.db) (record s { calls = s.calls + 1 })
      → R (record s { calls = s.calls + 1 })
      → Ensures Q R (query env f s)
  unfolding query
  query_lem Q R f s q r = call_lem Q R store_failed (λ u. f u.db) (λ u. u) s q r

  pub statement_lem :
      (Q R : Site → Type 0) (f : Tables → Tables) (s : Site)
      → Q (record s { db = f s.db; calls = s.calls + 1 })
      → R (record s { calls = s.calls + 1 })
      → Ensures (λ _. Q) R (statement env f s)
  unfolding statement
  statement_lem Q R f s q r =
      call_lem (λ _. Q) R store_failed (λ _. tt) (λ u. record u { db = f u.db }) s q r

  pub commit_lem :
      (Q R : Site → Type 0) (s : Site)
      → Q (record s { stored = s.db; calls = s.calls + 1 })
      → R (record s { calls = s.calls + 1 })
      → Ensures (λ _. Q) R (commit env s)
  unfolding commit
  commit_lem Q R s q r =
      call_lem (λ _. Q) R store_failed (λ _. tt) (λ u. record u { stored = u.db }) s q r

  pub publish_lem :
      (Q R : Site → Type 0) (event : AccountEvent) (s : Site)
      → Q (record s { published = s.published ++ event ∷ []; calls = s.calls + 1 })
      → R (record s { calls = s.calls + 1 })
      → Ensures (λ _. Q) R (publish env event s)
  unfolding publish
  publish_lem Q R event s q r =
      call_lem (λ _. Q) R publish_failed (λ _. tt)
        (λ u. record u { published = u.published ++ event ∷ [] }) s q r

module _ {A : Type 0} (Q : A → Site → Type 0) (R : Site → Type 0) where
  Ensures-closed :
      (r : Result AccountFailure A × Site)
      → Ensures (λ a s. Q a (record s { db = s.stored })) (λ s. R (record s { db = s.stored })) r
      → Ensures Q R (r.0, record r.1 { db = r.1.stored })
  Ensures-closed _ (returns q) = returns q
  Ensures-closed _ (raises x) = raises x

  pub request_lem :
      (m : Action A) (s : Site)
      → Ensures
          (λ a s. Q a (record s { db = s.stored }))
          (λ s. R (record s { db = s.stored }))
          (m (record s { db = s.stored }))
      → Ensures Q R (request m s)
  unfolding request
  request_lem m s h = Ensures-closed (m (record s { db = s.stored })) h

  Ensures-handled :
      (handler : AccountFailure → Option AccountFailure) (r : Result AccountFailure A × Site)
      → Ensures Q R r
      → Ensures {E = AccountFailure} Q R
          (elim r.0 [ ok a ↦ (ok a, r.1) | err e ↦ (err (or_else (handler e) e), r.1) ])
  Ensures-handled handler _ (returns q) = returns q
  Ensures-handled handler _ (raises x) = raises x

  pub except_lem :
      (handler : AccountFailure → Option AccountFailure) (m : Action A) (s : Site)
      → Ensures Q R (m s)
      → Ensures Q R (except handler m s)
  unfolding except
  except_lem handler m s h = Ensures-handled handler (m s) h
