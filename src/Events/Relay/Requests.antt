-- ===== src/Events/Relay/Requests.antt =====
-- What a request in `durable_unit_of_work` leaves of an event that its use case staged.
use fast_kit.Events.Relay.Records.{IsSameEvent, IsRecorded}
use fast_kit.Events.Relay.Durable.{IsSafe}
use fast_kit.Events.Relay.Staging.{staged_row}
use fast_kit.Kit.{◌≡◌, true, List, is_some, In}
use fast_kit.Events.Values.{Event}
use fast_kit.Events.Database.{OutboxRow, Message, World, Tables, fresh_session}

module _ {B : Type 0} where
  -- The committed outbox has the event's row; it is pending, or else the broker has its message and
  -- the event store tells of it.
  abbrev pub IsAnnounced : Event → World B → Type 0
  IsAnnounced event w =
      (r : OutboxRow) × In r w.committed.outbox
      × IsSameEvent r (staged_row event w.committed)
      × (is_some r.published_at ≡ true → IsRecorded r (fresh_session w))

  -- A row that was committed is announced after the relay.
  pub IsSafe-IsAnnounced :
      (event : Event) (t base : Tables B) (old : List Message) (w : World B)
      → In (staged_row event t) base.outbox
      → IsSafe base old w
      → IsAnnounced event w
  IsSafe-IsAnnounced event t base old w i safe =
      let (r, j, key, same) = safe.kept (staged_row event t) i in
      (
        r,
        j,
        record { path = same.path; payload = same.payload; subject = same.subject },
        safe.books r j,
      )
