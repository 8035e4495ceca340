-- ===== src/Events/Database.antt =====
-- app/core/database.py: sessions, statements and the two transactional boundaries. The tables of the
-- event module stand beside those of the module whose use case runs, `B`.
pub mod Rules
use fast_kit.Kit.{
  Text, ℕ, ◌+◌, String, Bool, Option, none, some, List, [], ◌∷◌, ◌++◌, if◌then◌else◌, Method, pure,
  Result, ok, err, ◌>>=◌, ◌>>◌,
}
use fast_kit.Events.Values.{Value, Fields, Wire}

-- `EventOutboxModel`. The identifiers that `uuid4` draws are fresh numbers; a timestamp is a number.
pub record OutboxRow : Type 0 where
  pub id : ℕ
  pub event_class_path : Text
  pub payload : Fields
  pub subject : Text
  pub published_at : Option ℕ
  pub attempts : ℕ
  pub error_message : Option Text
  pub created_at : ℕ

-- `EventStoreModel`
pub record EventStoreRow : Type 0 where
  pub id : ℕ
  pub event_type : Text
  pub event_class_path : Text
  pub aggregate_id : Option Text
  pub payload : Fields
  pub correlation_id : Option Text
  pub published_at : ℕ

-- `DeadLetterEventModel`. The class path and the payload come off the wire unchecked.
pub record DeadLetterRow : Type 0 where
  pub id : ℕ
  pub event_class_path : Value
  pub payload : Value
  pub subject : Text
  pub error_message : Text
  pub attempts : ℕ
  pub resolved_at : Option ℕ
  pub created_at : ℕ

-- What a transaction sees; `next_id` is fresh, and `now` is the clock.
pub record Tables (B : Type 0) : Type 0 where
  pub business : B
  pub outbox : List OutboxRow
  pub event_store : List EventStoreRow
  pub dead_letters : List DeadLetterRow
  pub next_id : ℕ
  pub now : ℕ

pub record Message : Type 0 where
  pub subject : Text
  pub wire : Wire
  pub headers : List (String × Text)

-- How a call of `js.publish` ends: stored; refused, with the text of the exception; or stored, but
-- the acknowledgement is lost and the client raises.
pub data Reply : Type 0 where
  accepted : Reply
  refused : Text → Reply
  unacknowledged : Text → Reply

-- What the database server and the broker do: whether the n-th statement fails, and how the n-th
-- call of `publish` ends.
pub record Environment : Type 0 where
  pub db_fails : ℕ → Bool
  pub broker_reply : ℕ → Message → Reply

-- The open session's view of the tables, the tables that are committed, the connection to the broker,
-- and what the broker stored. Between two sessions the view is what is committed.
pub record World (B : Type 0) : Type 0 where
  pub db : Tables B
  pub committed : Tables B
  pub statements : ℕ
  pub connected : Bool
  pub sent : List Message
  pub publishes : ℕ

-- What the modelled code raises.
pub data Failure : Type 0 where
  db_error : Failure
  not_connected : Failure
  raised : String → Failure

-- The world with the view of a session that has written nothing: what is committed.
abbrev pub fresh_session : {B : Type 0} → World B → World B
fresh_session w = record w { db = w.committed }

module _ {B : Type 0} (env : Environment) where
  open env use {db_fails, broker_reply}

  -- A statement that changes the tables, or fails and changes nothing.
  unfoldable pub statement : (Tables B → Tables B) → Method (World B) Failure (Unit {0})
  statement f w =
      if db_fails w.statements
      then (err db_error, record w { statements = w.statements + 1 })
      else (ok tt, record w { db = f w.db; statements = w.statements + 1 })

  -- A query.
  unfoldable pub query {ℓ} : {A : Type ℓ} → (Tables B → A) → Method (World B) Failure A
  query f w =
      if db_fails w.statements
      then (err db_error, record w { statements = w.statements + 1 })
      else (ok (f w.db), record w { statements = w.statements + 1 })

  -- `session.commit()`: what the session wrote is what is committed, unless the commit fails.
  unfoldable pub commit : Method (World B) Failure (Unit {0})
  commit w =
      if db_fails w.statements
      then (err db_error, record w { statements = w.statements + 1 })
      else (ok tt, record w { committed = w.db; statements = w.statements + 1 })

  -- The end of a call of `js.publish`, with the exception's text if it raised.
  unfoldable pub settle : Message → World B → Reply → Result Failure (Option Text) × World B
  settle m w accepted = (ok none, record w { sent = w.sent ++ m ∷ []; publishes = w.publishes + 1 })
  settle m w (refused e) = (ok (some e), record w { publishes = w.publishes + 1 })
  settle m w (unacknowledged e) =
      (ok (some e), record w { sent = w.sent ++ m ∷ []; publishes = w.publishes + 1 })

  unfoldable pub publish : Message → Method (World B) Failure (Option Text)
  unfolding settle
  publish m w = settle m w (broker_reply w.publishes m)

  -- `session.close()`, after a `rollback()` or without one: what is not committed is gone.
  unfoldable pub end_session {ℓ} :
      {A : Type ℓ} → Result Failure A × World B → Result Failure A × World B
  end_session (r, w) = (r, fresh_session w)

  -- A session around a block; it begins with what is committed. The code opens a session inside of
  -- another one only when the outer one has nothing left to commit.
  unfoldable pub in_session {ℓ} :
      {A : Type ℓ} → Method (World B) Failure A → World B → Result Failure A × World B
  unfolding end_session
  in_session block w = end_session (block (fresh_session w))

  -- `unit_of_work()` around a body
  unfoldable pub unit_of_work :
      {A : Type 0} → Method (World B) Failure A → Method (World B) Failure A
  unfolding in_session commit
  unit_of_work body w = in_session (do a ← body; commit; pure a) w

  -- The inner block of `durable_unit_of_work`: relay and commit in a session of their own; an
  -- exception is logged and dropped.
  unfoldable pub relay_quietly :
      Method (World B) Failure (Unit {0}) → Method (World B) Failure (Unit {0})
  unfolding in_session commit
  relay_quietly relay w = (ok tt, (in_session (do relay; commit) w).1)

  -- `durable_unit_of_work(event_bus)` around a body, with the bus's `relay_pending_outbox`
  unfoldable pub durable_unit_of_work :
      {A : Type 0}
      → Method (World B) Failure (Unit {0})
      → Method (World B) Failure A
      → Method (World B) Failure A
  unfolding in_session commit relay_quietly
  durable_unit_of_work relay body w =
      in_session (do a ← body; commit; relay_quietly relay; pure a) w
