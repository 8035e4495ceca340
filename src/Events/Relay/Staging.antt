-- ===== src/Events/Relay/Staging.antt =====
-- Events that a use case stages with `publish_durable`.
use fast_kit.Events.Database.Rules.{statement_lem}
use fast_kit.Events.Serializer.RoundTrip.{wire_round_trip, IsRebuildable}
use fast_kit.Events.Outbox.{add_outbox}
use fast_kit.Events.Relay.{serialized_row, message_of, publish_durable, stage_serialized}
use fast_kit.Events.Consumer.{decode}
use fast_kit.Events.Subjects.{subject_for_event_type}
use fast_kit.Events.Serializer.{
  SerializationError, SerializedEvent, class_path, serialize, deserialize,
}
use fast_kit.Events.Relay.Records.{IsPrivate, IsAccounted, IsKeyed}
use fast_kit.Events.Database.{statement, World, Environment, OutboxRow, Tables}
use fast_kit.Kit.{
  ℕ, ◌+◌, ◌<◌, ◌≡◌, refl, sym, ap, ◌∙◌, subst, ◌≢◌, ◌⊎◌, inl, inr, true, false≢true, none, List, [],
  ◌∷◌, ◌++◌, arith, if-not, Any-append_right, In, In-append, here, there, pure, is_ok, Result, ok,
  err, Ensures-bind, Ensures, returns,
}
use fast_kit.Events.Values.{Runtime, Event}

-- The row for an event, as the next one of the outbox.
abbrev pub staged_row : {B : Type 0} → Event → Tables B → OutboxRow
staged_row event t = record {
  id = t.next_id;
  event_class_path = class_path event.type;
  payload = event.attributes;
  subject = subject_for_event_type event.type;
  published_at = none;
  attempts = 0;
  error_message = none;
  created_at = t.now;
}

module _ {B : Type 0} where
  -- No row of the outbox has the next key yet.
  abbrev IsFresh : Tables B → Type 0
  IsFresh t = (r : OutboxRow) → In r t.outbox → r.id < t.next_id

  -- The tables with the row of an event.
  abbrev pub stage : Event → Tables B → Tables B
  stage event t = record t { outbox = t.outbox ++ staged_row event t ∷ []; next_id = t.next_id + 1 }

In-append_one : {A : Type 0} {a x : A} (xs : List A) → In a (xs ++ x ∷ []) → In a xs ⊎ (a ≡ x)
In-append_one {x = x} xs i = elim (In-append xs (x ∷ []) i) [
  | inl old ↦ inl old
  | inr (here e) ↦ inr e
  | inr (there i) ↦ elim i [ ]
]

next_is_new : (n : ℕ) {m : ℕ} → n < m → n ≢ m
next_is_new n h e = omega arith

module _ {B : Type 0} where
  stage-IsFresh : (event : Event) (t : Tables B) → IsFresh t → IsFresh (stage event t)
  stage-IsFresh event t fresh r i = elim (In-append_one t.outbox i) [
    | inl old ↦ let lt = fresh r old in omega arith
    | inr p ↦ rw p (omega arith)
  ]

  stage-IsKeyed :
      (event : Event) (t : Tables B) → IsFresh t → IsKeyed t.outbox → IsKeyed (stage event t).outbox
  stage-IsKeyed event t fresh keyed = record {
    unique = λ a b i j e. elim (In-append_one t.outbox i) [
      | inl i' ↦ elim (In-append_one t.outbox j) [
        | inl j' ↦ keyed.unique a b i' j' e
        | inr q ↦ absurd (next_is_new (a.id) (fresh a i') (e ∙ ap (λ (r : OutboxRow). r.id) q))
      ]
      | inr p ↦ elim (In-append_one t.outbox j) [
        | inl j' ↦ absurd (next_is_new (b.id) (fresh b j') (sym e ∙ ap (λ (r : OutboxRow). r.id) p))
        | inr q ↦ p ∙ sym q
      ]
    ];
  }

  -- The books are right, and the keys of the outbox are unique and below the next one.
  pub record IsReady (w : World B) : Type 0 where
    pub books : IsAccounted w
    pub keyed : IsKeyed w.db.outbox
    pub fresh : IsFresh w.db

  stage-IsReady :
      (event : Event) (w : World B) (n : ℕ)
      → IsReady w
      → IsReady (record w { db = stage event w.db; statements = n })
  stage-IsReady event w n ready = record {
    books = λ r i published. elim (In-append_one w.db.outbox i) [
      | inl old ↦ ready.books r old published
      | inr p ↦ absurd (cc (rw p at published))
    ];
    keyed = stage-IsKeyed event w.db ready.fresh ready.keyed;
    fresh = stage-IsFresh event w.db ready.fresh;
  }

  pub In-stage :
      (event : Event) (t t' : Tables B) → t' ≡ stage event t → In (staged_row event t) t'.outbox
  In-stage event t t' e =
      subst (λ x. In (staged_row event t) x.outbox) (sym e) (Any-append_right t.outbox (here refl))

  -- What `publish_durable` leaves when it returns.
  pub record IsStaged (event : Event) (w w' : World B) : Type 0 where
    pub ready : IsReady w'
    pub past : IsPrivate w w'
    pub row : event.type.is_dataclass ≡ true → w'.db ≡ stage event w.db

  module _ (env : Environment) (runtime : Runtime) where
    add_outbox_ends :
        (event : Event) (w : World B)
        → IsReady w
        → Ensures
            (λ _. IsStaged event w)
            (IsPrivate w)
            (add_outbox env
              (class_path event.type)
              event.attributes
              (subject_for_event_type event.type)
              w)
    unfolding add_outbox
    add_outbox_ends event w ready =
        let model = staged_row event w.db in
        let add =
          statement {B = B} env
            (λ t. record t { outbox = t.outbox ++ model ∷ []; next_id = t.next_id + 1 }) in
        let staged : IsStaged event w
            (record w { db = stage event w.db; statements = w.statements + 1 }) =
          record {
            ready = stage-IsReady event w (w.statements + 1) ready;
            past = (refl, refl);
            row = λ _. refl;
          } in
        Ensures-bind (λ _. IsStaged event w) (λ _. IsStaged event w) (IsPrivate w) add
          (λ _. pure model) w
          (statement_lem env (IsStaged event w) (IsPrivate w)
            (λ t. record t { outbox = t.outbox ++ model ∷ []; next_id = t.next_id + 1 }) w staged
            (refl, refl))
          (λ _ w' h. returns h)

    stage_serialized_ends :
        (event : Event) (w : World B) (r : Result SerializationError SerializedEvent)
        → IsReady w
        → (event.type.is_dataclass ≡ true → is_ok r ≡ true)
        → Ensures (λ _. IsStaged event w) (IsPrivate w) (stage_serialized env runtime event r w)
    unfolding stage_serialized
    stage_serialized_ends event w (err e) ready serializable = returns (record {
      ready = ready;
      past = (refl, refl);
      row = λ marked. absurd (false≢true (serializable marked));
    })
    stage_serialized_ends event w (ok serialized) ready serializable =
        Ensures-bind (λ _. IsStaged event w) (λ _. IsStaged event w) (IsPrivate w)
          (add_outbox env (class_path event.type) event.attributes
            (subject_for_event_type event.type))
          (λ _. pure tt) w (add_outbox_ends event w ready) (λ _ w' h. returns h)

    -- However a call of `publish_durable` ends, the broker and the committed tables are as they were;
    -- if it returns, the books and the keys of the session's view stay right, and if the event is a
    -- dataclass its row is the new last row of the outbox, pending and with the subject of its type,
    -- and nothing else changed.
    pub publish_durable_stages :
        (event : Event) (w : World B)
        → IsReady w
        → Ensures (λ _. IsStaged event w) (IsPrivate w) (publish_durable env runtime event w)
    unfolding publish_durable serialize
    publish_durable_stages event w ready =
        stage_serialized_ends event w (serialize event) ready
          (λ marked. ap is_ok (if-not event.type.is_dataclass _ _ marked))

ok_value_unique :
    {a b : SerializedEvent} (r : Result SerializationError SerializedEvent)
    → r ≡ ok a
    → r ≡ ok b
    → a ≡ b
ok_value_unique r e e' = cc (e, e')

-- The message that the relay publishes for a staged event is decoded to that event, if the runtime
-- can build it again.
pub decode-staged :
    {B : Type 0} (runtime : Runtime) (event : Event) (t : Tables B)
    → IsRebuildable runtime event
    → decode runtime (message_of (staged_row event t)).wire ≡ ok event
unfolding decode message_of serialize
decode-staged runtime event t h =
    let (s, serialized, parsed, built) = wire_round_trip runtime event h in
    let row_event : serialize event ≡ ok (serialized_row (staged_row event t)) =
      if-not event.type.is_dataclass _ _ h.dataclass in
    let same : s ≡ serialized_row (staged_row event t) =
      ok_value_unique (serialize event) serialized row_event in
    subst (λ x. deserialize runtime x ≡ ok event) same built
