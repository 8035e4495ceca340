-- ===== src/Events/AdminApi/Replay.antt =====
-- A replay sends the stored payload again, as it is, and only if the event can be built from it.
use fast_kit.Kit.{
  Text, ℕ, ◌+◌, ◌≡◌, refl, sym, ◌∙◌, subst, ◌⊎◌, inl, inr, Bool, true, false, not, Option, none,
  some, [], ◌∷◌, ◌++◌, append-nil, if◌then◌else◌, num_eq, find, pure, raise, ◌>>=◌, is_ok, Result,
  ok, err, Ensures-bind, Ensures-if, Ensures-weaken, Ensures, returns, raises,
}
use fast_kit.Events.Values.{Wire, Event, Runtime}
use fast_kit.Events.Serializer.{
  SerializationError, SerializedEvent, to_json, serialize, deserialize,
}
use fast_kit.Events.Subjects.{subject_for_event_type}
use fast_kit.Events.Database.{
  query, not_connected, Environment, World, Failure, Message, Tables, EventStoreRow, publish,
  fresh_session,
}
use fast_kit.Events.Database.Rules.{in_session_lem, query_lem, publish_lem}
use fast_kit.Events.Outbox.{get_event_store}
use fast_kit.Events.Publishing.{publish_raw, or_goes_on}
use fast_kit.Events.Relay.Records.{Grows}
use fast_kit.Events.AdminApi.{
  unprocessable, stored_form, check_serializable, resend, replay_form, replay_row, replay_event,
}

-- The message of a replay: the stored form, under the subject of the event that it gives.
abbrev pub replayed : Event → SerializedEvent → Message
replayed event form = record {
  subject = subject_for_event_type event.type;
  wire = to_json form;
  headers = [];
}

test-ok :
    (b : Bool) (e event : Event)
    → let tested : Result Failure Event = if b then ok e else err unprocessable in
      tested ≡ ok event → let built : Result SerializationError Event = ok e in built ≡ ok event
test-ok true e event h = cc h
test-ok false e event h = cc h

check_serializable-ok :
    (r : Result SerializationError Event) (event : Event)
    → check_serializable r ≡ ok event
    → r ≡ ok event
unfolding check_serializable
check_serializable-ok (ok e) event h = test-ok (is_ok (serialize e)) e event h
check_serializable-ok (err e) event h = cc h

module _ {B : Type 0} (env : Environment) (runtime : Runtime) where
  -- What a replay of a form leaves: the form gives an event, the result is its subject, the broker
  -- has the message behind all others, and the tables are as they were.
  pub record IsResent (form : SerializedEvent) (w : World B) (subject : Text) (w' : World B)
      : Type 0 where
    pub event : Event
    pub built : deserialize runtime form ≡ ok event
    pub under : subject ≡ subject_for_event_type event.type
    pub sent : w'.sent ≡ w.sent ++ replayed event form ∷ []
    pub same : w'.db ≡ w.db
    pub base : w'.committed ≡ w.committed

  -- The committed tables are as they were, and the broker has lost nothing.
  abbrev pub IsLeft : World B → World B → Type 0
  IsLeft w w' = (w'.committed ≡ w.committed) × Grows w.sent w'

  -- The committed tables are as they were, and the broker has what it had, or behind it once more
  -- the message of a form.
  abbrev pub IsTried : SerializedEvent → World B → World B → Type 0
  IsTried form w w' =
      (w'.committed ≡ w.committed)
      × ((w'.sent ≡ w.sent)
          ⊎ (event : Event) × (deserialize runtime form ≡ ok event)
            × (w'.sent ≡ w.sent ++ replayed event form ∷ []))

  IsTried-IsLeft : (form : SerializedEvent) (w w' : World B) → IsTried form w w' → IsLeft w w'
  IsTried-IsLeft form w w' (base, inl e) = (base, ([], e ∙ sym (append-nil w.sent)))
  IsTried-IsLeft form w w' (base, inr (event, _, e)) = (base, (replayed event form ∷ [], e))

  -- The committed tables are as they were, and the broker has a message more or not.
  abbrev IsUnsure : Message → World B → World B → Type 0
  IsUnsure m w w' =
      (w'.committed ≡ w.committed) × ((w'.sent ≡ w.sent) ⊎ (w'.sent ≡ w.sent ++ m ∷ []))

  -- The end of `publish_raw`: sent, or an exception after which it is open whether it was sent.
  abbrev Outcome : Message → World B → Option Text → World B → Type 0
  Outcome m w none w' = (w'.sent ≡ w.sent ++ m ∷ []) × (w'.db ≡ w.db) × (w'.committed ≡ w.committed)
  Outcome m w (some _) w' = IsUnsure m w w'

  Outcome-ends :
      (m : Message) (w w' : World B) (o : Option Text)
      → Outcome m w o w'
      → Ensures (λ _. Outcome m w none) (IsUnsure m w) (or_goes_on env o w')
  unfolding or_goes_on
  Outcome-ends m w w' none h = returns h
  Outcome-ends m w w' (some e) h = raises h

  publish_raw_ends :
      (subject : Text) (wire : Wire) (w : World B)
      → let m : Message = record { subject = subject; wire = wire; headers = [] } in
        Ensures (λ _. Outcome m w none) (IsUnsure m w) (publish_raw env subject wire w)
  unfolding publish_raw
  publish_raw_ends subject wire w =
      let m : Message = record { subject = subject; wire = wire; headers = [] } in
      Ensures-if (λ _. Outcome m w none) (IsUnsure m w) (not w.connected) (raise not_connected)
        (publish env m >>= or_goes_on env) w (λ _. raises (refl, inl refl))
        (λ _.
          Ensures-bind (Outcome m w) (λ _. Outcome m w none) (IsUnsure m w) (publish env m)
            (or_goes_on env) w
            (publish_lem env (Outcome m w) (IsUnsure m w) m w (refl, refl, refl)
              (λ e. (refl, inl refl)) (λ e. (refl, inr refl)))
            (λ o w' h. Outcome-ends m w w' o h))

  resend_ends :
      (form : SerializedEvent) (w : World B) (r : Result Failure Event)
      → ((event : Event) → r ≡ ok event → deserialize runtime form ≡ ok event)
      → Ensures (IsResent form w) (IsTried form w) (resend env runtime form r w)
  unfolding resend
  resend_ends form w (err e) built = raises (refl, inl refl)
  resend_ends form w (ok event) built =
      let subject = subject_for_event_type event.type in
      Ensures-bind (λ _. Outcome (replayed event form) w none) (IsResent form w) (IsTried form w)
        (publish_raw env subject (to_json form)) (λ _. pure subject) w
        (Ensures-weaken _ _ _ _ (λ _ u h. h)
          (λ u h. elim h.1 [
            | inl e ↦ (h.0, inl e)
            | inr e ↦ (h.0, inr (event, built event refl, e))
          ])
          _ (publish_raw_ends subject (to_json form) w))
        (λ _ w' h. returns (record {
          event = event;
          built = built event refl;
          under = refl;
          sent = h.0;
          same = h.1;
          base = h.2;
        }))

  pub replay_form_ends :
      (form : SerializedEvent) (w : World B)
      → Ensures (IsResent form w) (IsTried form w) (replay_form env runtime form w)
  unfolding replay_form
  replay_form_ends form w =
      resend_ends form w (check_serializable (deserialize runtime form))
        (λ event. check_serializable-ok (deserialize runtime form) event)

  -- The row of the request, and that its form was sent again.
  abbrev pub IsReplayed : ℕ → World B → Text → World B → Type 0
  IsReplayed event_id w subject w' =
      (row : EventStoreRow) × (find (λ r. num_eq r.id event_id) w.db.event_store ≡ some row)
      × IsResent (stored_form row) w subject w'

  replay_row_ends :
      (event_id : ℕ) (o : Option EventStoreRow) (w w1 : World B)
      → find (λ r. num_eq r.id event_id) w.db.event_store ≡ o
      → w1 ≡ record w { statements = w.statements + 1 }
      → Ensures (IsReplayed event_id w) (IsLeft w) (replay_row env runtime o w1)
  unfolding replay_row
  replay_row_ends event_id none w w1 found e =
      subst (λ u. Ensures (IsReplayed event_id w) (IsLeft w) (replay_row env runtime none u))
        (sym e) (raises (refl, ([], sym (append-nil w.sent))))
  replay_row_ends event_id (some row) w w1 found e =
      subst (λ u. Ensures (IsReplayed event_id w) (IsLeft w) (replay_row env runtime (some row) u))
        (sym e)
        (Ensures-weaken _ _ _ _
          (λ subject w' h. (
            row,
            found,
            record {
              event = h.event;
              built = h.built;
              under = h.under;
              sent = h.sent;
              same = h.same;
              base = h.base;
            },
          ))
          (λ w' h. IsTried-IsLeft (stored_form row) w w' h) _
          (replay_form_ends (stored_form row) (record w { statements = w.statements + 1 })))

  -- If a replay returns, the event store has the row, the event can be built from it, and the broker
  -- has the stored form again, behind all others, under the subject of the event's type, and the
  -- tables are as they were. If it raises, the committed tables are as they were, and the broker has
  -- what it had.
  pub replay_event_cases :
      (event_id : ℕ) (w : World B)
      → Ensures
          (IsReplayed event_id (fresh_session w))
          (IsLeft w)
          (replay_event env runtime event_id w)
  unfolding replay_event get_event_store
  replay_event_cases event_id w =
      let v = fresh_session w in
      let load = λ (t : Tables B). find (λ r. num_eq r.id event_id) t.event_store in
      let w1 = record v { statements = w.statements + 1 } in
      let Q = λ (s : Text) (u : World B). IsReplayed event_id v s (fresh_session u) in
      let Loaded : Option EventStoreRow → World B → Type 0 = λ o u. (load v.db ≡ o) × (u ≡ w1) in
      in_session_lem env (IsReplayed event_id v) (IsLeft w)
        (query env load >>= replay_row env runtime) w
        (Ensures-bind Loaded Q (IsLeft w) (query env load) (replay_row env runtime) v
          (query_lem env Loaded (IsLeft w) load v (refl, refl)
            (refl, ([], sym (append-nil w.sent))))
          (λ o u h.
            Ensures-weaken _ _ _ _
              (λ s x q.
                let (row, found, resent) = q in
                (
                  row,
                  found,
                  record {
                    event = resent.event;
                    built = resent.built;
                    under = resent.under;
                    sent = resent.sent;
                    same = resent.base;
                    base = resent.base;
                  },
                ))
              (λ x l. l) _ (replay_row_ends event_id o v u h.0 h.1)))
