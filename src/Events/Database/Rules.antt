-- ===== src/Events/Database/Rules.antt =====
-- What statements, queries and calls of the broker ensure.
use fast_kit.Kit.{
  Text, ◌+◌, inl, inr, Option, none, some, [], ◌∷◌, ◌++◌, Bool-cases, Method, Result, Ensures,
  returns, raises,
}
use fast_kit.Events.Database.{
  Failure, fresh_session, end_session, in_session, commit, Tables, Message, Reply, accepted,
  refused, unacknowledged, Environment, World, settle, publish, query, statement,
}

module _ {B : Type 0} (env : Environment) where
  -- A statement runs or raises; either way it changes nothing but the tables.
  pub statement_lem :
      (Q R : World B → Type 0) (f : Tables B → Tables B) (w : World B)
      → Q (record w { db = f w.db; statements = w.statements + 1 })
      → R (record w { statements = w.statements + 1 })
      → Ensures (λ _. Q) R (statement env f w)
  unfolding statement
  statement_lem Q R f w q r = elim (Bool-cases (env.db_fails w.statements)) [
    | inl fails ↦ rw fails (raises r)
    | inr runs ↦ rw runs (returns q)
  ]

  pub query_lem :
      {A : Type 0} (Q : A → World B → Type 0) (R : World B → Type 0) (f : Tables B → A)
      (w : World B)
      → Q (f w.db) (record w { statements = w.statements + 1 })
      → R (record w { statements = w.statements + 1 })
      → Ensures Q R (query env f w)
  unfolding query
  query_lem Q R f w q r = elim (Bool-cases (env.db_fails w.statements)) [
    | inl fails ↦ rw fails (raises r)
    | inr runs ↦ rw runs (returns q)
  ]

  -- `publish` without an exception has stored the message; with one it may have.
  pub publish_lem :
      (Q : Option Text → World B → Type 0) (R : World B → Type 0) (m : Message) (w : World B)
      → Q none (record w { sent = w.sent ++ m ∷ []; publishes = w.publishes + 1 })
      → ((e : Text) → Q (some e) (record w { publishes = w.publishes + 1 }))
      → ((e : Text)
          → Q (some e) (record w { sent = w.sent ++ m ∷ []; publishes = w.publishes + 1 }))
      → Ensures Q R (publish env m w)
  unfolding publish
  publish_lem Q R m w stored failed unsure = go (env.broker_reply w.publishes m)
    where
      go : (reply : Reply) → Ensures Q R (settle env m w reply)
      go accepted = returns stored
      go (refused e) = returns (failed e)
      go (unacknowledged e) = returns (unsure e)

  -- A commit keeps the session's view, or raises and keeps what was committed.
  pub commit_lem :
      (Q R : World B → Type 0) (w : World B)
      → Q (record w { committed = w.db; statements = w.statements + 1 })
      → R (record w { statements = w.statements + 1 })
      → Ensures (λ _. Q) R (commit env w)
  unfolding commit
  commit_lem Q R w q r = elim (Bool-cases (env.db_fails w.statements)) [
    | inl fails ↦ rw fails (raises r)
    | inr runs ↦ rw runs (returns q)
  ]

  end_session_lem {ℓ} :
      {A : Type ℓ} (Q : A → World B → Type 0) (R : World B → Type 0)
      (r : Result Failure A × World B)
      → Ensures (λ a u. Q a (fresh_session u)) (λ u. R (fresh_session u)) r
      → Ensures Q R (end_session env r)
  unfolding end_session
  end_session_lem Q R _ (returns q) = returns q
  end_session_lem Q R _ (raises x) = raises x

  -- A session begins and ends with what is committed.
  pub in_session_lem {ℓ} :
      {A : Type ℓ} (Q : A → World B → Type 0) (R : World B → Type 0)
      (block : Method (World B) Failure A) (w : World B)
      → Ensures (λ a u. Q a (fresh_session u)) (λ u. R (fresh_session u)) (block (fresh_session w))
      → Ensures Q R (in_session env block w)
  unfolding in_session
  in_session_lem Q R block w h = end_session_lem Q R (block (fresh_session w)) h
