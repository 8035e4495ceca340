-- ===== src/Events/DeadLetters/Persisted.antt =====
-- A dead letter is acknowledged exactly if its row is committed, and the row tells where the event
-- came from.
use fast_kit.Events.Database.Rules.{statement_lem, commit_lem, in_session_lem}
use fast_kit.Kit.{
  Text, ℕ, ◌+◌, ◌*◌, ◌/◌, ◌^◌, min, ◌≡◌, refl, sym, ap, ◌∙◌, ◌≢◌, ◌⊎◌, inl, inr, Bool, true, false,
  Option, none, some, [], ◌∷◌, ◌++◌, arith, if◌then◌else◌, ltb, or_else, ◌>>◌, Result, Ensures-bind,
  Ensures, returns, raises, parse-decimal,
}
use native.Mathlib.Numerals.{add-one, unary_clauses}
use fast_kit.Events.Settings.{nats_dlq_retry_max_delay, nats_dlq_consumer_max_deliver}
use fast_kit.Events.Database.{
  Tables, DeadLetterRow, Message, Environment, World, Failure, commit, fresh_session,
}
use fast_kit.Events.Outbox.{add_dead_letter}
use fast_kit.Events.Consumer.{Msg, ack, nak, dead_letter_copy, num_delivered}
use fast_kit.Events.DeadLetters.{
  nats_dlq_retry_base_delay, nats_consumer_max_deliver, Codecs, DeadLetter, header, header_or,
  dead_letter_event, dead_letter_of, retry_delay, retry_or_abandon, store_dead_letter,
  answer_stored, persist_dlq_message,
}

-- The row for a dead letter, as the next one of the table.
abbrev pub row_for : {B : Type 0} → DeadLetter → Tables B → DeadLetterRow
row_for d t = record {
  id = t.next_id;
  event_class_path = d.event_class_path;
  payload = d.payload;
  subject = d.subject;
  error_message = d.error_message;
  attempts = d.attempts;
  resolved_at = none;
  created_at = t.now;
}

nak_ne_ack : (b : Bool) (x y : Option ℕ) → (if b then nak x else nak y) ≢ ack
nak_ne_ack true x y e = cc
nak_ne_ack false x y e = cc

retry_or_abandon-ack : (msg : Msg) → retry_or_abandon msg ≢ ack
unfolding retry_or_abandon
retry_or_abandon-ack msg =
    let delivered = num_delivered msg nats_dlq_consumer_max_deliver in
    nak_ne_ack (ltb delivered nats_dlq_consumer_max_deliver) (some (retry_delay delivered)) none

module _ {B : Type 0} (env : Environment) (codecs : Codecs) where
  -- The committed table of dead letters has the row behind all others.
  abbrev IsAppended : DeadLetter → World B → World B → Type 0
  IsAppended d w w' =
      w'.committed.dead_letters ≡ w.committed.dead_letters ++ row_for d w.committed ∷ []

  -- The session has the row, and has committed nothing.
  abbrev IsAdded : DeadLetter → World B → World B → Type 0
  IsAdded d w u =
      (u.db.dead_letters ≡ w.committed.dead_letters ++ row_for d w.committed ∷ [])
      × (u.committed ≡ w.committed)

  add_row_ends :
      (d : DeadLetter) (w : World B)
      → Ensures
          (λ _. IsAdded d w)
          (λ u. u.committed ≡ w.committed)
          (add_dead_letter env d.event_class_path d.payload d.subject d.error_message d.attempts
            (fresh_session w))
  unfolding add_dead_letter
  add_row_ends d w =
      statement_lem env (IsAdded d w) (λ u. u.committed ≡ w.committed)
        (λ (t : Tables B). record t {
          dead_letters = t.dead_letters ++ row_for d t ∷ [];
          next_id = t.next_id + 1;
        })
        (fresh_session w) (refl, refl) refl

  store_dead_letter_ends :
      (d : DeadLetter) (w : World B)
      → Ensures
          (λ _. IsAppended d w)
          (λ u. u.committed ≡ w.committed)
          (store_dead_letter env codecs d w)
  unfolding store_dead_letter
  store_dead_letter_ends d w =
      let add =
        add_dead_letter env d.event_class_path d.payload d.subject d.error_message d.attempts in
      let R = λ (u : World B). u.committed ≡ w.committed in
      in_session_lem env (λ _. IsAppended d w) R (add >> commit env) w
        (Ensures-bind (λ _. IsAdded d w) (λ _. IsAppended d w) R add (λ _. commit env)
          (fresh_session w) (add_row_ends d w)
          (λ _ u h. commit_lem env (IsAppended d w) R u h.0 h.1))

  answer_stored_cases :
      (msg : Msg) (Q R : World B → Type 0) (r : Result Failure (Unit {0}) × World B)
      → Ensures (λ _. Q) R r
      → ((answer_stored env codecs msg r).0 ≡ ack) × Q (answer_stored env codecs msg r).1
        ⊎ ((answer_stored env codecs msg r).0 ≡ retry_or_abandon msg)
          × R (answer_stored env codecs msg r).1
  unfolding answer_stored
  answer_stored_cases msg Q R _ (returns q) = inl (refl, q)
  answer_stored_cases msg Q R _ (raises x) = inr (refl, x)

  -- Either the message is acknowledged and the committed table has its row, behind all others; or it
  -- is refused for another delivery and the committed tables are as they were.
  pub persist_dlq_message_cases :
      (msg : Msg) (w : World B)
      → let (answer, w') = persist_dlq_message env codecs msg w in
        (answer ≡ ack)
          × (w'.committed.dead_letters
              ≡ w.committed.dead_letters ++ row_for (dead_letter_of codecs msg) w.committed ∷ [])
        ⊎ (answer ≡ retry_or_abandon msg) × (answer ≢ ack) × (w'.committed ≡ w.committed)
  unfolding persist_dlq_message
  persist_dlq_message_cases msg w =
      let d = dead_letter_of codecs msg in
      let stored =
        answer_stored_cases msg (IsAppended d w) (λ u. u.committed ≡ w.committed)
          (store_dead_letter env codecs d w) (store_dead_letter_ends d w) in
      elim stored [
        | inl (acked, appended) ↦ inl (acked, appended)
        | inr (refused, same) ↦
            inr (refused, (λ e. retry_or_abandon-ack msg (sym refused ∙ e)), same)
      ]

-- A message as the dead-letter consumer gets it, at some delivery.
abbrev pub arrived : Message → Option (Option ℕ) → Msg
arrived m metadata = record {
  subject = m.subject;
  wire = m.wire;
  headers = m.headers;
  metadata = metadata;
}

header_or-ne-nil : (s fallback : Text) → s ≢ [] → header_or (some s) fallback ≡ s
unfolding header_or
header_or-ne-nil [] fallback h = absurd (h refl)
header_or-ne-nil (c ∷ s) fallback h = refl

-- The row for the copy of a message tells the subject that the message had, the last error and the
-- number of deliveries, and it holds the event that the message held; the subject and the error
-- must not be empty.
pub dead_letter_of-dead_letter_copy :
    (codecs : Codecs) (msg : Msg) (e : Text) (n : ℕ) (metadata : Option (Option ℕ))
    → msg.subject ≢ []
    → e ≢ []
    → let d = dead_letter_of codecs (arrived (dead_letter_copy msg e n) metadata) in
      (d.subject ≡ msg.subject)
      × (d.error_message ≡ e)
      × (d.attempts ≡ n)
      × (d.event_class_path ≡ (dead_letter_event codecs msg.wire).event_class)
      × (d.payload ≡ (dead_letter_event codecs msg.wire).payload)
unfolding dead_letter_of dead_letter_copy header
dead_letter_of-dead_letter_copy codecs msg e n metadata subject error = (
  header_or-ne-nil msg.subject _ subject,
  header_or-ne-nil e _ error,
  ap (λ o. or_else o nats_consumer_max_deliver) (parse-decimal n),
  refl,
  refl,
)

double : (n : ℕ) → 2 ^ (n + 1) ≡ 2 * 2 ^ n
double n = rw add-one (simp unary_clauses omega arith)

double_next : (n : ℕ) → 2 ^ (n + 2) ≡ 2 * 2 ^ (n + 1)
double_next n = rw (sym (add_two n)) (double (n + 1))
  where
    add_two : (n : ℕ) → n + 1 + 1 ≡ n + 2
    add_two n = omega arith

halved :
    (a b c m : ℕ) → a ≡ 2 * b → b ≡ 2 * c → min (5000 * a / 2) m ≡ min (2 * min (5000 * b / 2) m) m
halved a b c m ab bc = omega arith

-- The delay of the first delivery is the base; each later one is twice the one before, up to the
-- maximum.
pub retry_delay_doubles :
    (delivered : ℕ)
    → (retry_delay 1 ≡ nats_dlq_retry_base_delay)
      × (retry_delay (delivered + 2)
          ≡ min (2 * retry_delay (delivered + 1)) nats_dlq_retry_max_delay)
unfolding retry_delay
retry_delay_doubles delivered = (
  refl,
  halved (2 ^ (delivered + 2)) (2 ^ (delivered + 1)) (2 ^ delivered) nats_dlq_retry_max_delay
      (double_next delivered) (double delivered),
)
