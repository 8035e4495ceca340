-- ===== src/Events/Relay/Accounted.antt =====
-- No event is lost between the outbox, the broker and the event store.
use fast_kit.Events.Relay.Records.{
  IsSameEvent, IsRecorded, IsPendingMessage, Sends, Behind, IsKept, Agrees, message_of-IsSameEvent,
  IsRelaying, IsKept-write, IsRecorded-IsSameEvent, held-write,
}
use fast_kit.Events.Database.Rules.{publish_lem, statement_lem}
use fast_kit.Kit.{
  Text, ℕ, ◌+◌, ◌≡◌, refl, sym, ap, ◌∙◌, ◌⊎◌, inl, inr, true, not, Option, none, some, List, [],
  ◌∷◌, ◌++◌, append_assoc, num_eq, is_some, Bool-cases, num_eq→eq, update_where, All,
  Any-append_left, Any-append_right, Any-map, In, In-update_where, Any, here, pure, ◌>>=◌,
  Ensures-bind, Ensures-if, Ensures, returns,
}
use fast_kit.Events.Database.{
  publish, OutboxRow, EventStoreRow, Tables, Message, Environment, World,
}
use fast_kit.Events.Outbox.{mark_outbox_published, increment_outbox_attempts, add_event_store}
use fast_kit.Events.Relay.{
  rsplit_dot, row_aggregate_id, relay_outbox_row, after_publish, Runtime, message_of,
}

All-append_one :
    {A : Type 0} (P : A → Type 0) {x : A} (xs : List A) → All P xs → P x → All P (xs ++ x ∷ [])
All-append_one P [] h p = (p, tt)
All-append_one P (y ∷ xs) h p = (h.0, All-append_one P xs h.1 p)

module _ {B : Type 0} (env : Environment) (runtime : Runtime) (base : Tables B)
    (old : List Message) where
  increment_keeps :
      (row : OutboxRow) (rows : List OutboxRow) (e : Text) (w : World B)
      → IsRelaying base old (row ∷ rows) w
      → Ensures
          (λ _. IsRelaying base old rows)
          (Behind base old)
          (increment_outbox_attempts env row.id e w)
  unfolding increment_outbox_attempts
  increment_keeps row rows e w h =
      let hit = λ (r : OutboxRow). num_eq r.id row.id in
      let f = λ (r : OutboxRow). record r { attempts = r.attempts + 1; error_message = some e } in
      statement_lem env (IsRelaying base old rows) (Behind base old)
        (λ (t : Tables B). record t { outbox = update_where hit f t.outbox }) w
        (record {
          books = λ r i published.
              let (a, j, q) = In-update_where hit f w.db.outbox i in
              elim (Bool-cases (hit a)) [
                | inl yes_ ↦
                    let r_eq : r ≡ f a = q ∙ rw yes_ in
                    rw r_eq (
                      IsRecorded-IsSameEvent w
                        (record { path = refl; payload = refl; subject = refl })
                        (h.books a j (rw r_eq at published)))
                | inr no_ ↦
                    let r_eq : r ≡ a = q ∙ rw no_ in rw r_eq (h.books a j (rw r_eq at published))
              ];
          held =
              held-write hit f (λ r. refl)
                (λ r. record { path = refl; payload = refl; subject = refl }) w.db.outbox rows
                h.held.1;
          ours = h.ours.1;
          past = h.past;
          same = h.same;
          business = h.business;
          kept =
              IsKept-write base.outbox hit f (λ r. refl)
                (λ r. record { path = refl; payload = refl; subject = refl }) w.db.outbox h.kept;
        })
        (h.same, h.past)

  -- Between the two writes that follow a publication the row itself may be marked and not told of.
  record IsMarked (row : OutboxRow) (rows : List OutboxRow) (w : World B) : Type 0 where
    stored : Any (λ m. m ≡ message_of row) w.sent
    books :
        (r : OutboxRow)
        → In r w.db.outbox
        → is_some r.published_at ≡ true
        → IsRecorded r w ⊎ IsSameEvent r row
    held : All (Agrees w.db.outbox) rows
    ours : All (λ row. IsPendingMessage base.outbox (message_of row)) rows
    past : Sends base.outbox old w
    same : w.committed ≡ base
    business : w.db.business ≡ base.business
    kept : IsKept base.outbox w.db.outbox

  mark_keeps :
      (row : OutboxRow) (rows : List OutboxRow) (w : World B)
      → Any (λ m. m ≡ message_of row) w.sent
      → IsRelaying base old (row ∷ rows) w
      → Ensures (λ _. IsMarked row rows) (Behind base old) (mark_outbox_published env row.id w)
  unfolding mark_outbox_published
  mark_keeps row rows w stored h =
      let hit = λ (r : OutboxRow). num_eq r.id row.id in
      let f = λ (r : OutboxRow). record r { published_at = some w.db.now } in
      statement_lem env (IsMarked row rows) (Behind base old)
        (λ (t : Tables B). record t {
          outbox = update_where hit (λ r. record r { published_at = some t.now }) t.outbox;
        })
        w
        (record {
          stored = stored;
          books = λ r i published.
              let (a, j, q) = In-update_where hit f w.db.outbox i in
              elim (Bool-cases (hit a)) [
                | inl yes_ ↦
                    let r_eq : r ≡ f a = q ∙ rw yes_ in
                    let same : IsSameEvent a row = h.held.0 a j (num_eq→eq a.id row.id yes_) in
                    inr (
                      rw r_eq (record {
                        path = same.path;
                        payload = same.payload;
                        subject = same.subject;
                      }))
                | inr no_ ↦
                    let r_eq : r ≡ a = q ∙ rw no_ in
                    inl (rw r_eq (h.books a j (rw r_eq at published)))
              ];
          held =
              held-write hit f (λ r. refl)
                (λ r. record { path = refl; payload = refl; subject = refl }) w.db.outbox rows
                h.held.1;
          ours = h.ours.1;
          past = h.past;
          same = h.same;
          business = h.business;
          kept =
              IsKept-write base.outbox hit f (λ r. refl)
                (λ r. record { path = refl; payload = refl; subject = refl }) w.db.outbox h.kept;
        })
        (h.same, h.past)

  tell_keeps :
      (row : OutboxRow) (rows : List OutboxRow) (event_type : Text)
      (aggregate correlation : Option Text) (w : World B)
      → IsMarked row rows w
      → Ensures
          (λ _. IsRelaying base old rows)
          (Behind base old)
          (add_event_store env event_type row.event_class_path row.payload aggregate correlation w)
  unfolding add_event_store
  tell_keeps row rows event_type aggregate correlation w h =
      let line = λ (t : Tables B).
        let s : EventStoreRow = record {
          id = t.next_id;
          event_type = event_type;
          event_class_path = row.event_class_path;
          aggregate_id = aggregate;
          payload = row.payload;
          correlation_id = correlation;
          published_at = t.now;
        } in
        s in
      statement_lem env (IsRelaying base old rows) (Behind base old)
        (λ (t : Tables B). record t {
          event_store = t.event_store ++ line t ∷ [];
          next_id = t.next_id + 1;
        })
        w
        (record {
          books = λ r i published. elim (h.books r i published) [
            | inl (sent, told) ↦ (sent, Any-append_left (line w.db ∷ []) told)
            | inr same ↦ (
              Any-map (λ m e. e ∙ sym (message_of-IsSameEvent same)) h.stored,
              Any-append_right w.db.event_store
                  (here (record { path = sym same.path; payload = sym same.payload })),
            )
          ];
          held = h.held;
          ours = h.ours;
          past = h.past;
          same = h.same;
          business = h.business;
          kept = h.kept;
        })
        (h.same, h.past)

  after_publish_keeps :
      (row : OutboxRow) (rows : List OutboxRow) (outcome : Option Text) (w : World B)
      → IsRelaying base old (row ∷ rows) w
      → (outcome ≡ none → Any (λ m. m ≡ message_of row) w.sent)
      → Ensures
          (λ _. IsRelaying base old rows)
          (Behind base old)
          (after_publish env runtime row outcome w)
  unfolding after_publish
  after_publish_keeps row rows (some e) w h stored = increment_keeps row rows e w h
  after_publish_keeps row rows none w h stored =
      let path = row.event_class_path in
      let aggregate = row_aggregate_id runtime row in
      Ensures-bind (λ _. IsMarked row rows) (λ _. IsRelaying base old rows) (Behind base old)
        (mark_outbox_published env row.id)
        (λ _. add_event_store env (rsplit_dot path).1 path row.payload aggregate none) w
        (mark_keeps row rows w (stored refl) h)
        (λ _ w' h'. tell_keeps row rows (rsplit_dot path).1 aggregate none w' h')

  -- The state with the message of the next row, under the next number of a call.
  IsRelaying-sent :
      (row : OutboxRow) (rows : List OutboxRow) (w : World B) (n : ℕ)
      → IsRelaying base old (row ∷ rows) w
      → IsRelaying base old
          (row ∷ rows)
          (record w { sent = w.sent ++ message_of row ∷ []; publishes = n })
  IsRelaying-sent row rows w n h =
      let (more, g, all) = h.past in
      record {
        books = λ r i published.
            let (sent, told) = h.books r i published in
            (Any-append_left (message_of row ∷ []) sent, told);
        held = h.held;
        ours = h.ours;
        kept = h.kept;
        same = h.same;
        business = h.business;
        past = (
          more ++ message_of row ∷ [],
          ap (λ l. l ++ message_of row ∷ []) g ∙ append_assoc old more (message_of row ∷ []),
          All-append_one (IsPendingMessage base.outbox) more all h.ours.0,
        );
      }

  pub relay_outbox_row_keeps :
      (row : OutboxRow) (rows : List OutboxRow) (w : World B)
      → IsRelaying base old (row ∷ rows) w
      → Ensures
          (λ _. IsRelaying base old rows)
          (Behind base old)
          (relay_outbox_row env runtime row w)
  unfolding relay_outbox_row
  relay_outbox_row_keeps row rows w h =
      let m = message_of row in
      let Q : Option Text → World B → Type 0 = λ outcome w'.
        IsRelaying base old (row ∷ rows) w' × (outcome ≡ none → Any (λ x. x ≡ m) w'.sent) in
      Ensures-if (λ _. IsRelaying base old rows) (Behind base old) (not w.connected) (pure tt)
        (publish env m >>= after_publish env runtime row) w
        (λ _. returns (record {
          books = h.books;
          held = h.held.1;
          ours = h.ours.1;
          past = h.past;
          kept = h.kept;
          same = h.same;
          business = h.business;
        }))
        (λ _.
          Ensures-bind Q (λ _. IsRelaying base old rows) (Behind base old) (publish env m)
            (after_publish env runtime row) w
            (publish_lem env Q (Behind base old) m w
              (
                IsRelaying-sent row rows w (w.publishes + 1) h,
                λ _. Any-append_right w.sent (here refl),
              )
              (λ e. (
                record {
                  books = h.books;
                  held = h.held;
                  ours = h.ours;
                  past = h.past;
                  kept = h.kept;
                  same = h.same;
                  business = h.business;
                },
                λ p. cc,
              ))
              (λ e. (IsRelaying-sent row rows w (w.publishes + 1) h, λ p. cc)))
            (λ outcome w' h'. after_publish_keeps row rows outcome w' h'.0 h'.1))
