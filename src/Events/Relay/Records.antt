-- ===== src/Events/Relay/Records.antt =====
-- Events that are staged, sent and recorded, as the relay leaves them.
use fast_kit.Kit.{
  ◌≡◌, refl, sym, ap, ◌∙◌, inl, inr, Bool, true, List, [], ◌∷◌, ◌++◌, is_some, Bool-cases,
  update_where, All, Any-append_left, Any-map, In, In-update_where, In-update_where_of, Any,
}
use fast_kit.Events.Database.{OutboxRow, EventStoreRow, Message, Tables, World}
use fast_kit.Events.Outbox.{is_pending}
use fast_kit.Events.Relay.{message_of}

-- Two states of a row with the same event.
pub record IsSameEvent (a b : OutboxRow) : Type 0 where
  pub path : a.event_class_path ≡ b.event_class_path
  pub payload : a.payload ≡ b.payload
  pub subject : a.subject ≡ b.subject

-- A line of the event store that tells of the row's event.
pub record Tells (s : EventStoreRow) (r : OutboxRow) : Type 0 where
  pub path : s.event_class_path ≡ r.event_class_path
  pub payload : s.payload ≡ r.payload

module _ {B : Type 0} where
  -- The row's message is at the broker, and the event store tells of it.
  abbrev pub IsRecorded : OutboxRow → World B → Type 0
  IsRecorded r w = Any (λ m. m ≡ message_of r) w.sent × Any (λ s. Tells s r) w.db.event_store

  -- Every row that is marked as published is recorded.
  abbrev pub IsAccounted : World B → Type 0
  IsAccounted w =
      (r : OutboxRow) → In r w.db.outbox → is_some r.published_at ≡ true → IsRecorded r w

  -- The broker has all that it had, in the order that it had.
  abbrev pub Grows : List Message → World B → Type 0
  Grows old w = (more : List Message) × (w.sent ≡ old ++ more)

-- A message of a row that is pending in this outbox.
abbrev pub IsPendingMessage : List OutboxRow → Message → Type 0
IsPendingMessage outbox m =
    (r : OutboxRow) × In r outbox × (is_pending r ≡ true) × (m ≡ message_of r)

module _ {B : Type 0} where
  -- The broker has what it had, and behind it only messages of pending rows of this outbox.
  abbrev pub Sends : List OutboxRow → List Message → World B → Type 0
  Sends outbox old w =
      (more : List Message) × (w.sent ≡ old ++ more) × All (IsPendingMessage outbox) more

  -- Nothing has left the session: the broker and the committed tables are as they were.
  abbrev pub IsPrivate : World B → World B → Type 0
  IsPrivate w w' = (w'.sent ≡ w.sent) × (w'.committed ≡ w.committed)

-- Rows with one key are one row, as the primary key of the table demands.
pub record IsKeyed (rows : List OutboxRow) : Type 0 where
  pub unique : (a b : OutboxRow) → In a rows → In b rows → a.id ≡ b.id → a ≡ b

-- Every row of a table is still there later, with its key and its event.
abbrev pub IsKept : List OutboxRow → List OutboxRow → Type 0
IsKept before after =
    (r : OutboxRow)
    → In r before
    → (r' : OutboxRow) × In r' after × (r'.id ≡ r.id) × IsSameEvent r' r

-- The rows of the table with the key of `row` have its event.
abbrev pub Agrees : List OutboxRow → OutboxRow → Type 0
Agrees outbox row = (r : OutboxRow) → In r outbox → r.id ≡ row.id → IsSameEvent r row

pub message_of-IsSameEvent : {a b : OutboxRow} → IsSameEvent a b → message_of a ≡ message_of b
unfolding message_of
message_of-IsSameEvent h = cc (h.path, h.payload, h.subject)

module _ {B : Type 0} where
  pub IsRecorded-grow :
      (r : OutboxRow) (w w' : World B)
      → Grows w.sent w'
      → w'.db.event_store ≡ w.db.event_store
      → IsRecorded r w
      → IsRecorded r w'
  IsRecorded-grow r w w' (more, g) e (sent, told) = (rw g (Any-append_left more sent), rw e told)

  pub Sends-Grows :
      (outbox : List OutboxRow) (old : List Message) (w : World B)
      → Sends outbox old w
      → Grows old w
  Sends-Grows outbox old w (more, g, _) = (more, g)

  -- What the relay's session leaves if it fails: these tables are still what is committed.
  abbrev pub Behind : Tables B → List Message → World B → Type 0
  Behind base old w = (w.committed ≡ base) × Sends base.outbox old w

  -- What the loop keeps while `rows` are left, in a session over the committed tables `base`: the
  -- books, the agreement of the rows that it holds with those of the table, which are pending rows
  -- of `base`, the broker's past, and the tables of the use case.
  pub record IsRelaying (base : Tables B) (old : List Message) (rows : List OutboxRow) (w : World B)
      : Type 0 where
    pub books : IsAccounted w
    pub held : All (Agrees w.db.outbox) rows
    pub ours : All (λ row. IsPendingMessage base.outbox (message_of row)) rows
    pub past : Sends base.outbox old w
    pub kept : IsKept base.outbox w.db.outbox
    pub same : w.committed ≡ base
    pub business : w.db.business ≡ base.business

-- The rows of the table after a write to those of one key that leaves their events alone.
Agrees-write :
    (p : OutboxRow → Bool) (f : OutboxRow → OutboxRow)
    → ((r : OutboxRow) → (f r).id ≡ r.id)
    → ((r : OutboxRow) → IsSameEvent (f r) r)
    → (rows : List OutboxRow) (row : OutboxRow)
    → ((r : OutboxRow) → In r rows → r.id ≡ row.id → IsSameEvent r row)
    → (r : OutboxRow) → In r (update_where p f rows)
    → r.id ≡ row.id
    → IsSameEvent r row
Agrees-write p f same_id same_event rows row agrees r i e =
    let (a, j, q) = In-update_where p f rows i in
    elim (Bool-cases (p a)) [
      | inl hit ↦
          let r_eq : r ≡ f a = q ∙ rw hit in
          let h : IsSameEvent a row =
            agrees a j (sym (same_id a) ∙ ap (λ (x : OutboxRow). x.id) (sym r_eq) ∙ e) in
          rw r_eq (record {
            path = (same_event a).path ∙ h.path;
            payload = (same_event a).payload ∙ h.payload;
            subject = (same_event a).subject ∙ h.subject;
          })
      | inr miss ↦
          let r_eq : r ≡ a = q ∙ rw miss in
          rw r_eq (agrees a j (ap (λ (x : OutboxRow). x.id) (sym r_eq) ∙ e))
    ]

pub IsKept-write :
    (staged : List OutboxRow) (p : OutboxRow → Bool) (f : OutboxRow → OutboxRow)
    → ((r : OutboxRow) → (f r).id ≡ r.id)
    → ((r : OutboxRow) → IsSameEvent (f r) r)
    → (outbox : List OutboxRow) → IsKept staged outbox
    → IsKept staged (update_where p f outbox)
IsKept-write staged p f same_id same_event outbox kept r i =
    let (a, j, e, s) = kept r i in
    let m = In-update_where_of p f outbox j in
    elim (Bool-cases (p a)) [
      | inl hit ↦ (
        f a,
        rw hit at m,
        same_id a ∙ e,
        record {
          path = (same_event a).path ∙ s.path;
          payload = (same_event a).payload ∙ s.payload;
          subject = (same_event a).subject ∙ s.subject;
        },
      )
      | inr miss ↦ (a, rw miss at m, e, s)
    ]

pub IsSameEvent-refl : (a : OutboxRow) → IsSameEvent a a
IsSameEvent-refl a = record { path = refl; payload = refl; subject = refl }

Tells-IsSameEvent : (s : EventStoreRow) {a b : OutboxRow} → IsSameEvent b a → Tells s a → Tells s b
Tells-IsSameEvent s h t = record { path = t.path ∙ sym h.path; payload = t.payload ∙ sym h.payload }

module _ {B : Type 0} where
  pub IsRecorded-IsSameEvent :
      {a b : OutboxRow} (w : World B) → IsSameEvent b a → IsRecorded a w → IsRecorded b w
  IsRecorded-IsSameEvent w h (sent, told) = (
    Any-map (λ m e. e ∙ sym (message_of-IsSameEvent h)) sent,
    Any-map (λ s t. Tells-IsSameEvent s h t) told,
  )

-- A write to the rows of one key that leaves their events alone keeps what the loop holds.
pub held-write :
    (p : OutboxRow → Bool) (f : OutboxRow → OutboxRow)
    → ((r : OutboxRow) → (f r).id ≡ r.id)
    → ((r : OutboxRow) → IsSameEvent (f r) r)
    → (outbox rows : List OutboxRow) → All (Agrees outbox) rows
    → All (Agrees (update_where p f outbox)) rows
held-write p f same_id same_event outbox [] h = tt
held-write p f same_id same_event outbox (row ∷ rows) h = (
  Agrees-write p f same_id same_event outbox row h.0,
  held-write p f same_id same_event outbox rows h.1,
)
