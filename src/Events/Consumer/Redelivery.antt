-- ===== src/Events/Consumer/Redelivery.antt =====
-- A message is not delivered for ever: the last delivery that the settings allow is acknowledged.
use fast_kit.Kit.{
  Text, ℕ, zero, suc, ◌+◌, ◌≤◌, ◌<◌, ◌≡◌, refl, ap, ◌∙◌, ◌⊎◌, inl, inr, true, Option, none, some,
  List, arith, ltb, Bool-cases, if-not, Result, ok, err,
}
use fast_kit.Events.Settings.{nats_consumer_max_deliver}
use fast_kit.Events.Values.{Event, Runtime}
use fast_kit.Events.Serializer.{SerializationError}
use fast_kit.Events.Database.{Message, Environment, World, accepted, publish, settle}
use fast_kit.Events.Consumer.{
  Msg, Answer, ack, nak, Handler, num_delivered, dead_letter_copy, run_handlers, answer_copy,
  dead_letter, handle_delivery_failure, after_handlers, decode, after_decoding, handle_message,
}

-- What the environment has to do for that: the broker takes every copy, and no handler closes the
-- connection.
pub record IsReachable {B : Type 0} (env : Environment) (handlers : List (Handler B)) : Type 0 where
  pub takes : (n : ℕ) (m : Message) → env.broker_reply n m ≡ accepted
  pub stays :
      (event : Event) (w : World B)
      → w.connected ≡ true
      → (run_handlers handlers event w).1.connected ≡ true

-- One delivery ends the matter, or there is a next one and the connection is still there.
abbrev Progress : {B : Type 0} → ℕ → Answer × World B → Type 0
Progress count r =
    (r.0 ≡ ack) ⊎ (r.0 ≡ nak none) × (count < nats_consumer_max_deliver) × (r.1.connected ≡ true)

-- The message as its `count`-th delivery shows it.
abbrev nth_delivery : Msg → ℕ → Msg
nth_delivery msg count = record msg { metadata = some (some count) }

module _ {B : Type 0} (env : Environment) (handlers : List (Handler B))
    (reach : IsReachable env handlers) where
  dead_letter_acks :
      (msg : Msg) (e : Text) (attempts : ℕ) (w : World B)
      → w.connected ≡ true
      → (dead_letter env msg e attempts w).0 ≡ ack
  unfolding dead_letter publish settle answer_copy
  dead_letter_acks msg e attempts w on =
      let m = dead_letter_copy msg e attempts in
      ap (λ (r : Answer × World B). r.0)
        (if-not w.connected (nak none, w)
          (answer_copy env (settle env m w (env.broker_reply w.publishes m))) on)
      ∙ ap (λ reply. (answer_copy env (settle env m w reply)).0) (reach.takes w.publishes m)

  handle_delivery_failure-Progress :
      (msg : Msg) (e : Text) (count : ℕ) (w : World B)
      → w.connected ≡ true
      → Progress count (handle_delivery_failure env (nth_delivery msg count) e w)
  unfolding handle_delivery_failure num_delivered
  handle_delivery_failure-Progress msg e count w on =
      elim (Bool-cases (ltb count nats_consumer_max_deliver)) [
        | inl again ↦ rw again (inr (refl, ground arith, on))
        | inr over ↦ rw over (inl (dead_letter_acks (nth_delivery msg count) e count w on))
      ]

  after_handlers-Progress :
      (msg : Msg) (count : ℕ) (r : Result Text (Unit {0}) × World B)
      → r.1.connected ≡ true
      → Progress count (after_handlers env (nth_delivery msg count) r)
  unfolding after_handlers
  after_handlers-Progress msg count (ok _, w) on = inl refl
  after_handlers-Progress msg count (err e, w) on =
      handle_delivery_failure-Progress msg e count w on

  module _ (runtime : Runtime) (explain : SerializationError → Text) where
    delivery-Progress :
        (msg : Msg) (count : ℕ) (w : World B)
        → w.connected ≡ true
        → Progress count (handle_message env runtime explain handlers (nth_delivery msg count) w)
    unfolding handle_message
    delivery-Progress msg count w on = by_decoding (decode runtime msg.wire)
      where
        by_decoding :
            (d : Result SerializationError Event)
            → Progress count
                (after_decoding env runtime explain handlers (nth_delivery msg count) d w)
        by_decoding (ok event) =
            after_handlers-Progress msg count (run_handlers handlers event w)
              (reach.stays event w on)
        by_decoding (err e) = inl (dead_letter_acks (nth_delivery msg count) (explain e) count w on)

module _ {B : Type 0} (env : Environment) (runtime : Runtime) (explain : SerializationError → Text)
    (handlers : List (Handler B)) (msg : Msg) where
  -- JetStream delivers a message with the next count until it is acknowledged, for `limit`
  -- deliveries at most. The result is the count of the delivery that was acknowledged, if one was.
  pub redeliver : ℕ → ℕ → World B → Option ℕ
  redeliver zero count w = none
  redeliver (suc limit) count w =
      let (answer, w') = handle_message env runtime explain handlers (nth_delivery msg count) w in
      elim answer [ ack ↦ some count | nak _ ↦ redeliver limit (count + 1) w' ]

  redeliver_from :
      (limit count : ℕ) (w : World B)
      → IsReachable env handlers
      → w.connected ≡ true
      → limit + count ≡ nats_consumer_max_deliver + 1
      → count ≤ nats_consumer_max_deliver
      → (k : ℕ) × (redeliver limit count w ≡ some k) × (k ≤ nats_consumer_max_deliver)
  unfolding redeliver
  redeliver_from zero count w reach on e h = absurd (omega arith)
  redeliver_from (suc limit) count w reach on e h =
      elim (delivery-Progress env handlers reach runtime explain msg count w on) [
        | inl acked ↦ (count, rw (acked, redeliver), h)
        | inr (naked, more, on') ↦
            rw (naked, redeliver)
              (redeliver_from limit (count + 1)
                (handle_message env runtime explain handlers (nth_delivery msg count) w).1 reach on'
                (omega arith) (omega arith))
      ]

  -- If the broker takes the copies and the handlers leave the connection open, then whatever the
  -- message holds and however its handlers fail, one of the deliveries that the settings allow is
  -- acknowledged.
  pub redelivery_ends :
      (w : World B)
      → IsReachable env handlers
      → w.connected ≡ true
      → (k : ℕ) × (redeliver nats_consumer_max_deliver 1 w ≡ some k)
        × (k ≤ nats_consumer_max_deliver)
  redelivery_ends w reach on =
      redeliver_from nats_consumer_max_deliver 1 w reach on (omega arith) (omega arith)
