-- ===== src/Events/AdminApi/Resolution.antt =====
-- A dead letter that is sent again is resolved.
use fast_kit.Events.Relay.Records.{IsPrivate}
use fast_kit.Kit.{
  Text, ℕ, ◌≡◌, ◌⊎◌, true, false, Option, some, [], ◌∷◌, ◌++◌, num_eq, is_some, find, In, ok,
}
use fast_kit.Events.Values.{Runtime}
use fast_kit.Events.Database.{Environment, World, Tables, DeadLetterRow}
use fast_kit.Events.AdminApi.{deserialize, Event, letter_form}
use fast_kit.Events.AdminApi.Replay.{replayed}

module _ {B : Type 0} where
  -- The rows of the key are resolved.
  abbrev IsResolved : ℕ → Tables B → Type 0
  IsResolved id t =
      (r : DeadLetterRow) → In r t.dead_letters → r.id ≡ id → is_some r.resolved_at ≡ true

module _ {B : Type 0} (env : Environment) (runtime : Runtime) where
  -- What the session leaves: the key is resolved in the tables that are committed, and the broker is
  -- as it was.
  abbrev Resolves : ℕ → World B → Unit {0} → World B → Type 0
  Resolves id w _ u = IsResolved id u.committed × (u.sent ≡ w.sent)

  -- What the write to the row leaves: nothing has left the session, and if there is a row then the
  -- key is resolved in the session's view; if there is none, the view is what is committed.
  record IsMarked (id : ℕ) (w : World B) (o : Option DeadLetterRow) (u : World B) : Type 0 where
    inside : IsPrivate w u
    marked : is_some o ≡ true → IsResolved id u.db
    missing : is_some o ≡ false → u.db ≡ u.committed

  -- The letter of a request: its row, and the event that it gives.
  pub record IsLetter (id : ℕ) (w : World B) (row : DeadLetterRow) (event : Event) : Type 0 where
    pub found : find (λ r. num_eq r.id id) w.committed.dead_letters ≡ some row
    pub built : deserialize runtime (letter_form row) ≡ ok event

  -- A dead letter that was sent again: the letter of the request, the event that it gives, the
  -- message behind all others, and its rows resolved in the committed tables.
  pub record IsRecovered (id : ℕ) (w : World B) (subject : Text) (w' : World B) : Type 0 where
    pub row : DeadLetterRow
    pub event : Event
    pub letter : IsLetter id w row event
    pub under : subject ≡ row.subject
    pub sent : w'.sent ≡ w.sent ++ replayed event (letter_form row) ∷ []
    pub resolved : IsResolved id w'.committed

  -- The committed tables are as they were, and the broker has what it had, or behind it the message
  -- of the letter.
  abbrev pub IsUnresolved : ℕ → World B → World B → Type 0
  IsUnresolved id w w' =
      (w'.committed ≡ w.committed)
      × ((w'.sent ≡ w.sent)
          ⊎ (row : DeadLetterRow) × (event : Event) × IsLetter id w row event
            × (w'.sent ≡ w.sent ++ replayed event (letter_form row) ∷ []))
