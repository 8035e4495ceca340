-- ===== src/Events/AdminApi.antt =====
-- app/modules/event_outbox/api/router.py: stored events are listed and sent again, dead letters are
-- listed, sent again and resolved. What a request writes in the session
-- of `get_db` and does not commit is gone when it is closed.
pub mod Replay
pub mod Resolution
use fast_kit.Kit.{
  Text, ℕ, Bool, Option, none, some, List, if◌then◌else◌, Method, pure, raise, or_raise, ◌>>=◌,
  ◌>>◌, is_ok, Result, ok, err,
}
use fast_kit.Events.Values.{str, obj, Event, Runtime}
use fast_kit.Events.Serializer.{
  SerializationError, SerializedEvent, to_json, serialize, deserialize,
}
use fast_kit.Events.Subjects.{subject_for_event_type}
use fast_kit.Events.Database.{
  Environment, World, Failure, raised, in_session, commit, EventStoreRow, DeadLetterRow,
}
use fast_kit.Events.Outbox.{
  list_event_store, get_event_store, list_dead_letter, get_dead_letter, mark_dead_letter_resolved,
}
use fast_kit.Events.Publishing.{publish_raw}

-- `HTTPException` with these codes.
abbrev pub not_found : Failure
not_found = raised "404"

abbrev pub unprocessable : Failure
unprocessable = raised "422"

-- The serialized forms of the two kinds of rows.
abbrev pub stored_form : EventStoreRow → SerializedEvent
stored_form row = record { event_class = str row.event_class_path; payload = obj row.payload }

abbrev pub letter_form : DeadLetterRow → SerializedEvent
letter_form row = record { event_class = row.event_class_path; payload = row.payload }

-- `serialize(event)` as a test.
unfoldable pub check_serializable : Result SerializationError Event → Result Failure Event
unfolding serialize
check_serializable (err _) = err unprocessable
check_serializable (ok event) = if is_ok (serialize event) then ok event else err unprocessable

module _ {B : Type 0} (env : Environment) (runtime : Runtime) where
  -- The part of a replay behind the checks; it returns the subject.
  unfoldable pub resend : SerializedEvent → Result Failure Event → Method (World B) Failure Text
  unfolding publish_raw
  resend form (err e) = raise e
  resend form (ok event) =
      publish_raw env (subject_for_event_type event.type) (to_json form)
      >> pure (subject_for_event_type event.type)

  unfoldable pub replay_form : SerializedEvent → Method (World B) Failure Text
  unfolding check_serializable deserialize resend
  replay_form form = resend form (check_serializable (deserialize runtime form))

  unfoldable pub replay_row : Option EventStoreRow → Method (World B) Failure Text
  unfolding replay_form
  replay_row none = raise not_found
  replay_row (some row) = replay_form (stored_form row)

  unfoldable pub replay_event : ℕ → Method (World B) Failure Text
  unfolding in_session get_event_store replay_row
  replay_event event_id w = in_session env (get_event_store env event_id >>= replay_row) w

  -- What follows the call of `mark_dead_letter_resolved`.
  unfoldable pub finish_resolve : Option DeadLetterRow → Method (World B) Failure (Unit {0})
  unfolding commit
  finish_resolve none = commit env >> raise not_found
  finish_resolve (some _) = commit env

  unfoldable pub resolve : ℕ → Method (World B) Failure (Unit {0})
  unfolding mark_dead_letter_resolved finish_resolve
  resolve dead_letter_id = mark_dead_letter_resolved env dead_letter_id >>= finish_resolve

  unfoldable pub replay_letter : ℕ → Option DeadLetterRow → Method (World B) Failure Text
  unfolding replay_form resolve
  replay_letter dead_letter_id none = raise not_found
  replay_letter dead_letter_id (some row) =
      replay_form (letter_form row) >> (resolve dead_letter_id >> pure row.subject)

  unfoldable pub replay_dead_letter_event : ℕ → Method (World B) Failure Text
  unfolding in_session get_dead_letter replay_letter
  replay_dead_letter_event dead_letter_id w =
      in_session env (get_dead_letter env dead_letter_id >>= replay_letter dead_letter_id) w

  unfoldable pub resolve_dead_letter_event : ℕ → Method (World B) Failure (Unit {0})
  unfolding in_session resolve
  resolve_dead_letter_event dead_letter_id w = in_session env (resolve dead_letter_id) w

  -- The requests that only read.
  unfoldable pub list_events :
      Option Text → Option Text → ℕ → ℕ → Method (World B) Failure (List EventStoreRow)
  unfolding in_session list_event_store
  list_events event_type aggregate_id limit offset w =
      in_session env (list_event_store env event_type aggregate_id limit offset) w

  unfoldable pub get_event : ℕ → Method (World B) Failure EventStoreRow
  unfolding in_session get_event_store
  get_event event_id w =
      in_session env (do row ← get_event_store env event_id; or_raise row not_found) w

  unfoldable pub list_dead_letter_events :
      Option Bool → ℕ → ℕ → Method (World B) Failure (List DeadLetterRow)
  unfolding in_session list_dead_letter
  list_dead_letter_events resolved limit offset w =
      in_session env (list_dead_letter env resolved limit offset) w

  unfoldable pub get_dead_letter_event : ℕ → Method (World B) Failure DeadLetterRow
  unfolding in_session get_dead_letter
  get_dead_letter_event dead_letter_id w =
      in_session env (do row ← get_dead_letter env dead_letter_id; or_raise row not_found) w
