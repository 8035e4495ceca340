-- ===== src/Events/Consumer/Answers.antt =====
-- A message is acknowledged only if it was handled or a copy of it is at the dead-letter subject,
-- and it is delivered at most as often as the settings allow.
use fast_kit.Kit.{
  Text, ℕ, ◌≡◌, refl, ap, ◌⊎◌, inl, inr, Bool, true, false, not, none, List, if◌then◌else◌, ltb,
  Bool-cases, Any-append_right, In, here, Result, ok, err,
}
use fast_kit.Events.Settings.{nats_consumer_max_deliver}
use fast_kit.Events.Values.{Event, Runtime}
use fast_kit.Events.Serializer.{SerializationError}
use fast_kit.Events.Database.{
  Message, Environment, World, Reply, accepted, refused, unacknowledged, publish, settle,
}
use fast_kit.Events.Consumer.{
  after_decoding, Msg, ack, nak, Handler, num_delivered, dead_letter_copy, run_handlers,
  answer_copy, dead_letter, handle_delivery_failure, after_handlers, decode, handle_message,
}

-- A copy of the message is at its dead-letter subject.
abbrev pub IsCopied : {B : Type 0} → Msg → World B → Type 0
IsCopied msg w =
    (error_message : Text) × (attempts : ℕ) × In (dead_letter_copy msg error_message attempts)
      w.sent

module _ {B : Type 0} (env : Environment) where
  copy_acked :
      (m : Message) (w : World B) (reply : Reply)
      → (answer_copy env (settle env m w reply)).0 ≡ ack
      → In m (answer_copy env (settle env m w reply)).1.sent
  unfolding answer_copy settle
  copy_acked m w accepted acked = Any-append_right w.sent (here refl)
  copy_acked m w (refused e) acked = cc
  copy_acked m w (unacknowledged e) acked = cc

  dead_letter_acked :
      (msg : Msg) (e : Text) (attempts : ℕ) (w : World B)
      → (dead_letter env msg e attempts w).0 ≡ ack
      → In (dead_letter_copy msg e attempts) (dead_letter env msg e attempts w).1.sent
  unfolding dead_letter publish
  dead_letter_acked msg e attempts w = go w.connected
    where
      m : Message
      m = dead_letter_copy msg e attempts

      go :
          (on : Bool)
          → (if not on then (nak none, w) else answer_copy env (publish env m w)).0 ≡ ack
          → In m (if not on then (nak none, w) else answer_copy env (publish env m w)).1.sent
      go true acked = copy_acked m w (env.broker_reply w.publishes m) acked
      go false acked = cc

  handle_delivery_failure_acked :
      (msg : Msg) (e : Text) (w : World B)
      → (handle_delivery_failure env msg e w).0 ≡ ack
      → IsCopied msg (handle_delivery_failure env msg e w).1
  unfolding handle_delivery_failure
  handle_delivery_failure_acked msg e w acked =
      let n = num_delivered msg nats_consumer_max_deliver in
      elim (Bool-cases (ltb n nats_consumer_max_deliver)) [
        | inl again ↦ absurd (cc (rw again at acked))
        | inr over ↦ rw over (e, n, dead_letter_acked msg e n w (rw over at acked))
      ]

-- The message was decoded, and all its handlers returned.
abbrev pub IsHandled : {B : Type 0} → Runtime → List (Handler B) → Msg → World B → Type 0
IsHandled runtime handlers msg w =
    (event : Event) × (decode runtime msg.wire ≡ ok event)
    × ((run_handlers handlers event w).0 ≡ ok tt)

module _ {B : Type 0} (env : Environment) (runtime : Runtime)
    (explain : SerializationError → Text) where
  after_handlers_acked :
      (handlers : List (Handler B)) (msg : Msg) (w : World B) (event : Event)
      (r : Result Text (Unit {0}) × World B)
      → decode runtime msg.wire ≡ ok event
      → run_handlers handlers event w ≡ r
      → (after_handlers env msg r).0 ≡ ack
      → IsHandled runtime handlers msg w ⊎ IsCopied msg (after_handlers env msg r).1
  unfolding after_handlers
  after_handlers_acked handlers msg w event (ok _, w') decoded ran acked =
      inl (event, decoded, ap (λ p. p.0) ran)
  after_handlers_acked handlers msg w event (err e, w') decoded ran acked =
      inr (handle_delivery_failure_acked env msg e w' acked)

  after_decoding_acked :
      (handlers : List (Handler B)) (msg : Msg) (w : World B) (d : Result SerializationError Event)
      → decode runtime msg.wire ≡ d
      → (after_decoding env runtime explain handlers msg d w).0 ≡ ack
      → IsHandled runtime handlers msg w
        ⊎ IsCopied msg (after_decoding env runtime explain handlers msg d w).1
  unfolding after_decoding
  after_decoding_acked handlers msg w (ok event) decoded acked =
      after_handlers_acked handlers msg w event (run_handlers handlers event w) decoded refl acked
  after_decoding_acked handlers msg w (err e) decoded acked =
      let n = num_delivered msg 1 in
      inr (explain e, n, dead_letter_acked env msg (explain e) n w acked)

  -- A message that is acknowledged was decoded and went through all its handlers, or a copy of it,
  -- with the subject that it came on, is at the broker under its dead-letter subject.
  pub handle_message_acked :
      (handlers : List (Handler B)) (msg : Msg) (w : World B)
      → (handle_message env runtime explain handlers msg w).0 ≡ ack
      → IsHandled runtime handlers msg w
        ⊎ IsCopied msg (handle_message env runtime explain handlers msg w).1
  unfolding handle_message
  handle_message_acked handlers msg w acked =
      after_decoding_acked handlers msg w (decode runtime msg.wire) refl acked
