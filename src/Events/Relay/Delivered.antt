-- ===== src/Events/Relay/Delivered.antt =====
-- What the relay delivers when nothing fails: app/core/nats_bus.py and app/core/database.py.
use fast_kit.Kit.{
  ℕ, ◌+◌, ◌≤◌, ◌≡◌, refl, sym, ap, ◌∙◌, subst, inl, inr, Bool, true, false, not, false≢true, some,
  List, [], ◌∷◌, length, num_eq, num_eq_refl, is_some, Bool-cases, where_, order_by, In,
  In-update_where, Any, Any-map, here, there, where_-In, order_by-In, length-order_by, take-In,
  Method, pure, ◌>>=◌, ◌>>◌, for_each, Result, Ensures-bind, Ensures-weaken, Ensures-both,
  Ensures-for_each, Ensures-if, state-Ensures, ok, err, Ensures, returns, raises,
}
use fast_kit.Events.Values.{Runtime}
use fast_kit.Events.Database.{
  OutboxRow, Tables, Environment, World, Failure, accepted, durable_unit_of_work, fresh_session,
  in_session, relay_quietly, commit, statement, query, publish,
}
use fast_kit.Events.Database.Rules.{in_session_lem}
use fast_kit.Events.Outbox.{
  pending_rows, older, is_pending, get_pending_outbox, mark_outbox_published, add_event_store,
}
use fast_kit.Events.Relay.{after_publish, relay_outbox_row, relay_pending_outbox, message_of}
use fast_kit.Events.Relay.Records.{IsAccounted, IsRecorded, IsPrivate, IsSameEvent}
use fast_kit.Events.Relay.Durable.{BodyKeeps, durable_unit_of_work-IsSafe}

-- Surroundings in which no statement fails and the broker takes every message.
abbrev pub calm : Environment
calm = record { db_fails = λ _. false; broker_reply = λ _ _. accepted }

not-false : (b : Bool) → not b ≡ false → b ≡ true
not-false true e = refl
not-false false e = cc e

-- Every pending row is among those that the relay asks for, if its limit is not reached.
pending_rows-In :
    (limit : ℕ) (rows : List OutboxRow) {r : OutboxRow}
    → length (where_ is_pending rows) ≤ limit
    → In r rows
    → is_pending r ≡ true
    → In r (pending_rows limit rows)
unfolding pending_rows
pending_rows-In limit rows {r} le i pending =
    let found = where_ is_pending rows in
    take-In limit (order_by older found)
      (subst (λ n. n ≤ limit) (sym (length-order_by older found)) le)
      (order_by-In older found (where_-In is_pending r rows i pending))

module _ {B : Type 0} where
  -- The connection is open, and the loop still holds every pending row.
  record IsHolding (rows : List OutboxRow) (w : World B) : Type 0 where
    connection : w.connected ≡ true
    rest : (r : OutboxRow) → In r w.db.outbox → is_pending r ≡ true → Any (λ x. x.id ≡ r.id) rows

  -- No committed row is pending.
  abbrev IsEmptied : World B → Type 0
  IsEmptied w = (r : OutboxRow) → In r w.committed.outbox → is_pending r ≡ false

  -- Every row of these tables is in the committed outbox, marked, with its message at the broker and
  -- its line in the event store.
  abbrev pub IsDelivered : Tables B → World B → Type 0
  IsDelivered base w =
      (r : OutboxRow)
      → In r base.outbox
      → (r' : OutboxRow) × In r' w.committed.outbox
        × IsSameEvent r' r
        × (is_pending r' ≡ false)
        × IsRecorded r' (fresh_session w)

  IsHolding-IsEmptied :
      (w : World B) → IsHolding [] w → (r : OutboxRow) → In r w.db.outbox → is_pending r ≡ false
  IsHolding-IsEmptied w h r i = elim (Bool-cases (is_pending r)) [
    | inl pending ↦ elim (h.rest r i pending) [ ]
    | inr done ↦ done
  ]

  end_state :
      {A : Type 0} (r : Result Failure A × World B) → Ensures (λ _ u. u ≡ r.1) (λ _. Unit {0}) r
  end_state (ok a, u) = returns refl
  end_state (err e, u) = raises tt

  module _ (runtime : Runtime) where
    -- A row that is published is not pending, and the others are held as before.
    relay_outbox_row_holds :
        (row : OutboxRow) (rows : List OutboxRow) (w : World B)
        → IsHolding (row ∷ rows) w
        → Ensures (λ _. IsHolding rows) (λ _. ⊥) (relay_outbox_row calm runtime row w)
    unfolding relay_outbox_row publish after_publish mark_outbox_published add_event_store statement
    relay_outbox_row_holds row rows w h =
        let hit = λ (r : OutboxRow). num_eq r.id row.id in
        let f = λ (r : OutboxRow). record r { published_at = some w.db.now } in
        Ensures-if (λ _. IsHolding rows) (λ _. ⊥) (not w.connected) (pure tt)
          (publish calm (message_of row) >>= after_publish calm runtime row) w
          (λ e. absurd (false≢true (ap not (sym h.connection) ∙ e)))
          (λ _. returns (record {
            connection = h.connection;
            rest = λ r i pending.
                let (a, j, q) = In-update_where hit f w.db.outbox i in
                elim (Bool-cases (hit a)) [
                  | inl yes_ ↦
                      let r_eq : r ≡ f a = q ∙ rw yes_ in
                      absurd (false≢true (ap is_pending (sym r_eq) ∙ pending))
                  | inr no_ ↦
                      let r_eq : r ≡ a = q ∙ rw no_ in
                      elim (h.rest a j (ap is_pending (sym r_eq) ∙ pending)) [
                        | here e ↦ absurd (
                            false≢true
                              (sym no_ ∙ ap (λ n. num_eq n row.id) (sym e) ∙ num_eq_refl row.id))
                        | there n ↦
                            Any-map
                              (λ (x : OutboxRow) e. e ∙ ap (λ (y : OutboxRow). y.id) (sym r_eq)) n
                      ]
                ];
          }))

    relay_pending_outbox_empties :
        (w : World B)
        → w.connected ≡ true
        → length (where_ is_pending w.db.outbox) ≤ 100
        → Ensures (λ _. IsHolding []) (λ _. ⊥) (relay_pending_outbox calm runtime w)
    unfolding relay_pending_outbox get_pending_outbox query
    relay_pending_outbox_empties w connection le =
        let rows = pending_rows 100 w.db.outbox in
        Ensures-if (λ _. IsHolding []) (λ _. ⊥) (not w.connected) (pure tt)
          (get_pending_outbox calm 100 >>= for_each (relay_outbox_row calm runtime)) w
          (λ e. absurd (false≢true (ap not (sym connection) ∙ e)))
          (λ _.
            Ensures-for_each IsHolding (λ _. ⊥) (relay_outbox_row calm runtime)
              (λ row rest u h. relay_outbox_row_holds row rest u h) rows
              (record w { statements = w.statements + 1 })
              (record {
                connection = connection;
                rest = λ r i pending.
                    Any-map (λ (x : OutboxRow) e. ap (λ (y : OutboxRow). y.id) (sym e))
                      (pending_rows-In 100 w.db.outbox le i pending);
              }))

    relay_quietly_empties :
        (w : World B)
        → w.connected ≡ true
        → length (where_ is_pending w.committed.outbox) ≤ 100
        → IsEmptied (relay_quietly calm (relay_pending_outbox calm runtime) w).1
    unfolding relay_quietly commit
    relay_quietly_empties w connection le =
        let relay = relay_pending_outbox {B = B} calm runtime in
        state-Ensures IsEmptied (in_session calm (relay >> commit calm) w) (
          in_session_lem calm (λ _. IsEmptied) IsEmptied (relay >> commit calm) w
            (Ensures-weaken _ _ _ _ (λ _ u h. h) (λ u x. absurd x) _
              (Ensures-bind (λ _. IsHolding []) (λ _ u. IsEmptied (fresh_session u)) (λ _. ⊥) relay
                (λ _. commit calm) (fresh_session w)
                (relay_pending_outbox_empties (fresh_session w) connection le)
                (λ _ u h. returns (IsHolding-IsEmptied u h)))))

    durable_unit_of_work_empties :
        {A : Type 0} (body : Method (World B) Failure A) (w : World B)
        → (body (fresh_session w)).1.connected ≡ true
        → length (where_ is_pending (body (fresh_session w)).1.db.outbox) ≤ 100
        → Ensures
            (λ _. IsEmptied)
            (λ _. Unit {0})
            (durable_unit_of_work calm (relay_pending_outbox calm runtime) body w)
    unfolding durable_unit_of_work commit relay_quietly
    durable_unit_of_work_empties {A} body w connection le =
        let relay = relay_pending_outbox {B = B} calm runtime in
        let end = (body (fresh_session w)).1 in
        let block : A → Method (World B) Failure A =
          λ a. commit calm >> (relay_quietly calm relay >> pure a) in
        in_session_lem calm (λ _. IsEmptied) (λ _. Unit {0}) (body >>= block) w
          (Ensures-bind (λ _ u. u ≡ end) (λ _ u. IsEmptied (fresh_session u)) (λ _. Unit {0}) body
            block (fresh_session w) (end_state (body (fresh_session w)))
            (λ a u e. returns (
              relay_quietly_empties (record u { committed = u.db; statements = u.statements + 1 })
                (ap (λ (x : World B). x.connected) e ∙ connection)
                (subst (λ (x : World B). length (where_ is_pending x.db.outbox) ≤ 100) (sym e)
                  le))))

    -- If no statement fails, the broker takes every message and the connection is open, and the body
    -- keeps the books and its writes to itself and leaves at most a hundred pending rows, then after
    -- a block that returns every row that the body left in the outbox is committed as published, with
    -- its message at the broker and its line in the event store.
    pub durable_unit_of_work_delivers :
        {A : Type 0} (P : A → World B → Type 0) (body : Method (World B) Failure A) (w : World B)
        → IsAccounted (fresh_session w)
        → BodyKeeps P body (fresh_session w)
        → (body (fresh_session w)).1.connected ≡ true
        → length (where_ is_pending (body (fresh_session w)).1.db.outbox) ≤ 100
        → Ensures
            (λ a w'. P a (body (fresh_session w)).1 × IsDelivered (body (fresh_session w)).1.db w')
            (IsPrivate w)
            (durable_unit_of_work calm (relay_pending_outbox calm runtime) body w)
    durable_unit_of_work_delivers P body w books keeps connection le =
        Ensures-weaken _ _ _ _
          (λ a w' h.
            let (holds, safe) = h.0 in
            (
              holds,
              λ r i.
                  let (r', j, _, same) = safe.kept r i in
                  let done = h.1 r' j in
                  (r', j, same, done, safe.books r' j (not-false (is_some r'.published_at) done)),
            ))
          (λ u x. x.0.1) _
          (Ensures-both _ _ _ _
            (durable_unit_of_work calm (relay_pending_outbox calm runtime) body w)
            (durable_unit_of_work-IsSafe calm runtime P body w books keeps)
            (durable_unit_of_work_empties body w connection le))
