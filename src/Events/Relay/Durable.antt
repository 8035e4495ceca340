-- ===== src/Events/Relay/Durable.antt =====
-- What `durable_unit_of_work` of app/core/database.py and the relay guarantee together, whatever the
-- database and the broker do.
use fast_kit.Kit.{
  ℕ, ◌+◌, ◌≡◌, refl, sym, ap, ◌∙◌, subst, not, true, List, [], append-nil, where_, order_by, In,
  All-of_In, In-where_, In-take, In-order_by, Method, pure, ◌>>=◌, ◌>>◌, for_each, Ensures-bind,
  Ensures-if, Ensures-weaken, Ensures-self, Ensures-for_each, state-Ensures, Ensures, returns,
}
use fast_kit.Events.Values.{Runtime}
use fast_kit.Events.Database.{
  OutboxRow, Tables, Message, Environment, World, Failure, durable_unit_of_work, fresh_session,
  in_session, relay_quietly, commit,
}
use fast_kit.Events.Database.Rules.{commit_lem, in_session_lem, query_lem}
use fast_kit.Events.Outbox.{pending_rows, older, is_pending, get_pending_outbox}
use fast_kit.Events.Relay.{relay_outbox_row, relay_pending_outbox, message_of}
use fast_kit.Events.Relay.Records.{
  IsAccounted, IsKeyed, IsKept, IsSameEvent-refl, Grows, Sends, Sends-Grows, Behind, IsPrivate,
  IsPendingMessage, IsRecorded-grow, Agrees, IsRelaying,
}
use fast_kit.Events.Relay.Accounted.{relay_outbox_row_keeps}

In-pending_rows :
    (limit : ℕ) (rows : List OutboxRow) {r : OutboxRow}
    → In r (pending_rows limit rows)
    → In r rows × (is_pending r ≡ true)
unfolding pending_rows
In-pending_rows limit rows i = In-where_ is_pending rows (
    In-order_by older (where_ is_pending rows)
      (In-take limit (order_by older (where_ is_pending rows)) i))

IsKept-refl : (rows : List OutboxRow) → IsKept rows rows
IsKept-refl rows r i = (r, i, refl, IsSameEvent-refl r)

module _ {B : Type 0} where
  Sends-refl : (outbox : List OutboxRow) (w : World B) → Sends outbox w.sent w
  Sends-refl outbox w = ([], sym (append-nil w.sent), tt)

  -- The books of tables that were kept stay right while the broker's store grows.
  IsAccounted-later :
      (w w' : World B) → Grows w.sent w' → w'.db ≡ w.db → IsAccounted w → IsAccounted w'
  IsAccounted-later w w' g e books r i published =
      IsRecorded-grow r w w' g (ap (λ (t : Tables B). t.event_store) e)
        (books r (rw (ap (λ (t : Tables B). t.outbox) e) at i) published)

  -- What the block around the relay leaves, when `base` was committed: the books are right, the
  -- rows of `base` are still there, the tables of the use case are those of `base`, and what the
  -- broker has more are messages of rows that were pending in `base`.
  pub record IsSafe (base : Tables B) (old : List Message) (w : World B) : Type 0 where
    pub books : IsAccounted (fresh_session w)
    pub kept : IsKept base.outbox w.committed.outbox
    pub business : w.committed.business ≡ base.business
    pub past : Sends base.outbox old w

  -- The contract of a body in a session that began as `w`: it keeps the books and the key of the
  -- outbox, and nothing of it leaves the session; if it returns, `P` holds.
  abbrev pub BodyKeeps :
      {A : Type 0} → (A → World B → Type 0) → Method (World B) Failure A → World B → Type 0
  BodyKeeps P body w =
      Ensures (λ a u. P a u × IsAccounted u × IsKeyed u.db.outbox × IsPrivate w u) (IsPrivate w)
        (body w)

module _ {B : Type 0} (env : Environment) (runtime : Runtime) where
  -- The relay keeps the books, the rows and the broker's past; if a statement fails, the past.
  relay_pending_outbox_keeps :
      (w : World B)
      → w.committed ≡ w.db
      → IsAccounted w
      → IsKeyed w.db.outbox
      → Ensures
          (λ _. IsRelaying w.db w.sent [])
          (Behind w.db w.sent)
          (relay_pending_outbox env runtime w)
  unfolding relay_pending_outbox get_pending_outbox
  relay_pending_outbox_keeps w fresh books keyed =
      let outbox = w.db.outbox in
      let I = IsRelaying {B = B} w.db w.sent in
      let R = Behind {B = B} w.db w.sent in
      let P : List OutboxRow → World B → Type 0 = λ rows. I rows in
      let start : (rows : List OutboxRow) (n : ℕ)
          → ((r : OutboxRow) → In r rows → In r outbox × (is_pending r ≡ true))
          → I rows (record w { statements = n }) =
        λ rows n inside. record {
          books = books;
          held = All-of_In (Agrees outbox) rows (λ row i r j e.
              let same : r ≡ row = keyed.unique r row j (inside row i).0 e in
              rw same (IsSameEvent-refl row));
          ours =
              All-of_In (λ row. IsPendingMessage outbox (message_of row)) rows
                (λ row i. (row, (inside row i).0, (inside row i).1, refl));
          past = Sends-refl outbox w;
          kept = IsKept-refl outbox;
          same = fresh;
          business = refl;
        } in
      Ensures-if (λ _. I []) R (not w.connected) (pure tt)
        (get_pending_outbox env 100 >>= for_each (relay_outbox_row env runtime)) w
        (λ _. returns (start [] w.statements (λ r i. elim i [ ])))
        (λ _.
          Ensures-bind P (λ _. I []) R (get_pending_outbox env 100)
            (for_each (relay_outbox_row env runtime)) w
            (query_lem env P R (λ (t : Tables B). pending_rows 100 t.outbox) w
              (start (pending_rows 100 outbox) (w.statements + 1)
                (λ r i. In-pending_rows 100 outbox i))
              (fresh, Sends-refl outbox w))
            (λ rows w' h.
              Ensures-for_each I R (relay_outbox_row env runtime)
                (λ row rest w''. relay_outbox_row_keeps env runtime w.db w.sent row rest w'') rows
                w' h))

  -- A relay session that fails leaves what was committed.
  IsSafe-Behind :
      (w u : World B)
      → IsAccounted (fresh_session w)
      → Behind w.committed w.sent u
      → IsSafe w.committed w.sent (fresh_session u)
  IsSafe-Behind w u books (same, past) = record {
    books =
        IsAccounted-later (fresh_session w) (fresh_session u)
          (Sends-Grows w.committed.outbox w.sent u past) same books;
    kept =
        subst (λ (t : Tables B). IsKept w.committed.outbox t.outbox) (sym same)
          (IsKept-refl w.committed.outbox);
    business = ap (λ (t : Tables B). t.business) same;
    past = past;
  }

  relay_quietly-IsSafe :
      (w : World B)
      → IsAccounted (fresh_session w)
      → IsKeyed w.committed.outbox
      → IsSafe w.committed w.sent (relay_quietly env (relay_pending_outbox env runtime) w).1
  unfolding relay_quietly
  relay_quietly-IsSafe w books keyed =
      let relay = relay_pending_outbox {B = B} env runtime in
      let Safe = IsSafe {B = B} w.committed w.sent in
      let Q : Unit {0} → World B → Type 0 = λ _. IsRelaying w.committed w.sent [] in
      let R = Behind {B = B} w.committed w.sent in
      state-Ensures Safe (in_session env (relay >> commit env) w) (
        in_session_lem env (λ _. Safe) Safe (relay >> commit env) w
          (Ensures-weaken _ _ _ _ (λ _ u h. h) (λ u h. IsSafe-Behind w u books h) _
            (Ensures-bind Q (λ _ u. Safe (fresh_session u)) R relay (λ _. commit env)
              (fresh_session w) (relay_pending_outbox_keeps (fresh_session w) refl books keyed)
              (λ _ u h.
                commit_lem env (λ v. Safe (fresh_session v)) R u
                  (record { books = h.books; kept = h.kept; business = h.business; past = h.past })
                  (h.same, h.past)))))

  -- The relay after the commit, seen from before the body.
  relay_after :
      (base : Tables B) (old : List Message) (w : World B)
      → IsAccounted (fresh_session w)
      → IsKeyed w.committed.outbox
      → w.sent ≡ old
      → w.committed ≡ base
      → IsSafe base old (relay_quietly env (relay_pending_outbox env runtime) w).1
  relay_after base old w books keyed past same =
      subst (λ l. IsSafe base l (relay_quietly env (relay_pending_outbox env runtime) w).1) past
        (subst (λ t. IsSafe t w.sent (relay_quietly env (relay_pending_outbox env runtime) w).1)
          same (relay_quietly-IsSafe w books keyed))

  -- Around any body that keeps the books and its writes to itself, and however the database and the
  -- broker fail: if the block returns, then the body returned with `P`, the tables that it left are
  -- the ones that were committed, with their use case's part as it is, the books are right, every row
  -- that the body left in the outbox is still there (pending, or marked and then at the broker and in
  -- the event store), and the broker has more only messages of rows that were committed as pending.
  -- If it raises, the committed tables and the broker are as before, and the books are right.
  pub durable_unit_of_work-IsSafe :
      {A : Type 0} (P : A → World B → Type 0) (body : Method (World B) Failure A) (w : World B)
      → IsAccounted (fresh_session w)
      → BodyKeeps P body (fresh_session w)
      → Ensures
          (λ a w'. P a (body (fresh_session w)).1 × IsSafe (body (fresh_session w)).1.db w.sent w')
          (λ w'. IsAccounted (fresh_session w') × IsPrivate w w')
          (durable_unit_of_work env (relay_pending_outbox env runtime) body w)
  unfolding durable_unit_of_work
  durable_unit_of_work-IsSafe {A} P body w books keeps =
      let relay = relay_pending_outbox {B = B} env runtime in
      let block : A → Method (World B) Failure A =
        λ a. commit env >> (relay_quietly env relay >> pure a) in
      let end = (body (fresh_session w)).1 in
      let Done : A → World B → Type 0 = λ a u. P a end × IsSafe end.db w.sent u in
      let R = IsPrivate w in
      let Body : A → World B → Type 0 =
        λ a u. (P a u × IsAccounted u × IsKeyed u.db.outbox × R u) × (u ≡ end) in
      let Ready : A → World B → Type 0 = λ a u.
        P a end
        × IsAccounted (fresh_session u)
        × IsKeyed u.committed.outbox
        × (u.sent ≡ w.sent)
        × (u.committed ≡ end.db) in
      in_session_lem env Done (λ u. IsAccounted (fresh_session u) × R u) (body >>= block) w
        (Ensures-weaken _ _ _ _ (λ a u h. h)
          (λ u h. (
            IsAccounted-later (fresh_session w) (fresh_session u)
                ([], h.0 ∙ sym (append-nil w.sent)) h.1 books,
            h,
          ))
          _
          (Ensures-bind Body (λ a u. Done a (fresh_session u)) R body block (fresh_session w)
            (Ensures-weaken _ _ _ _ (λ a s q. q) (λ s q. q.0) _
              (Ensures-self _ _ (body (fresh_session w)) keeps))
            (λ a u h.
              let (holds, right, keyed, inside) = h.0 in
              Ensures-bind (λ _. Ready a) (λ a u. Done a (fresh_session u)) R (commit env)
                (λ _. relay_quietly env relay >> pure a) u
                (commit_lem env (Ready a) R u
                  (subst (P a) h.1 holds, right, keyed, inside.0, ap (λ (x : World B). x.db) h.1)
                  inside)
                (λ _ v r.
                  let (returned, books', keyed', sent, base) = r in
                  let safe = relay_after end.db w.sent v books' keyed' sent base in
                  returns (
                    returned,
                    record {
                      books = safe.books;
                      kept = safe.kept;
                      business = safe.business;
                      past = safe.past;
                    },
                  )))))
