-- ===== src/Ordering/UseCases/Creation.antt =====
-- `CreateOrderUseCase` with a session: the order and its jobs are written and the event is staged.
use fast_kit.Events.Relay.{publish_durable}
use fast_kit.Kit.{
  ℕ, String, ◌≡◌, refl, sym, ap, ◌∙◌, subst, true, Option, none, some, List, [], ◌∷◌, ◌++◌, map,
  append-nil, append_assoc, arith, All, Method, pure, or_raise, ◌>>=◌, ◌>>◌, Ensures-bind,
  Ensures-weaken, Exactly, Ensures-then, Ensures, returns,
}
use fast_kit.Events.Values.{Event, Runtime}
use fast_kit.Events.Database.{raised, Tables, Environment, World, Failure}
use fast_kit.Events.Relay.Records.{IsPrivate}
use fast_kit.Events.Relay.Staging.{publish_durable_stages, IsStaged, stage, IsReady}
use fast_kit.Ordering.StateMachine.{pending}
use fast_kit.Ordering.Jobs.{blank_order, Order, Job}
use fast_kit.Ordering.Models.{
  map_order_to_domain, map_order_to_model, JobModel, OrderModel, Shop, map_job_to_domain,
  map_job_to_model,
}
use fast_kit.Ordering.Repository.{
  loaded, create_order, order_row, create_job, insert_job, insert_order, job_row,
}
use fast_kit.Ordering.Repository.Rules.{ran}
use fast_kit.Ordering.Repository.Inserts.{create_order_lem, create_job_lem}
use fast_kit.Ordering.UseCases.{
  order_created, announce, create_order_execute, announce_order, add_jobs, CreateOrderCommand,
  create_jobs, new_job,
}
use fast_kit.Ordering.UseCases.Transition.{nats_bus}

-- A job at the start of the line, of this order.
abbrev IsNew : Option ℕ → Job → Type 0
IsNew order_id job =
    (job.job_status ≡ pending) × (job.file_editable ≡ true) × (job.order_id ≡ order_id)

-- Jobs with these identifiers were written behind the others, at the start of the line.
pub record IsStocked (order_id : Option ℕ) (job_ids : List String) (w : World Shop)
    (jobs : List Job) (w' : World Shop) : Type 0 where
  pub ready : IsReady w'
  pub inside : IsPrivate w w'
  pub names : map (λ j. j.job_id) jobs ≡ job_ids
  pub new : All (IsNew order_id) jobs
  pub rows : List JobModel
  pub written : jobs ≡ map map_job_to_domain rows
  pub kept : w'.db.business.jobs ≡ w.db.business.jobs ++ rows
  pub orders : w'.db.business.orders ≡ w.db.business.orders

-- The order of a command, before it is saved.
abbrev ordered : CreateOrderCommand → Order
ordered command = record blank_order {
  order_number = command.order_number;
  user_id = some command.user_id;
}

-- What the use case leaves when it returns `order`: the command's order and jobs are the new last
-- rows of their tables, the jobs at the start of the line, and the event that tells of them is
-- staged behind the other rows of the outbox.
pub record IsOrdered (command : CreateOrderCommand) (w : World Shop) (order : Order)
    (w' : World Shop) : Type 0 where
  pub ready : IsReady w'
  pub past : IsPrivate w w'
  pub id : ℕ
  pub key : order.id ≡ some id
  pub number : order.order_number ≡ command.order_number
  pub owner : order.user_id ≡ some command.user_id
  pub names : map (λ j. j.job_id) order.jobs ≡ command.jobs
  pub new : All (IsNew (some id)) order.jobs
  pub rows : List JobModel
  pub written : order.jobs ≡ map map_job_to_domain rows
  pub job_rows : w'.db.business.jobs ≡ w.db.business.jobs ++ rows
  pub order_rows :
      w'.db.business.orders
      ≡ w.db.business.orders ++ order_row id (map_order_to_model (ordered command)) w.db ∷ []
  pub before : Tables Shop
  pub staged :
      w'.db ≡ stage (order_created id command.order_number command.user_id command.jobs) before

insert_job-IsReady :
    (key : ℕ) (m : JobModel) (w : World Shop)
    → IsReady w
    → let w1 = ran (insert_job key m w.db) w in IsReady (ran w1.db w1)
insert_job-IsReady key m w ready = record {
  books = ready.books;
  keyed = ready.keyed;
  fresh = λ r i. let lt = ready.fresh r i in omega arith;
}

insert_order-IsReady :
    (key : ℕ) (m : OrderModel) (w : World Shop)
    → IsReady w
    → let w1 = ran (insert_order key m w.db) w in IsReady (ran w1.db w1)
insert_order-IsReady key m w ready = record {
  books = ready.books;
  keyed = ready.keyed;
  fresh = λ r i. let lt = ready.fresh r i in omega arith;
}

module _ (env : Environment) (runtime : Runtime)
    (publish : Event → Method (World Shop) Failure (Unit {0})) where
  create_jobs_ends :
      (old : World Shop) (order_id : Option ℕ) (job_ids : List String) (w : World Shop)
      → IsReady w
      → IsPrivate old w
      → Ensures
          (IsStocked order_id job_ids w)
          (IsPrivate old)
          (create_jobs env (nats_bus env runtime publish) order_id job_ids w)
  unfolding create_jobs
  create_jobs_ends old order_id [] w ready past = returns (record {
    ready = ready;
    inside = (refl, refl);
    names = refl;
    new = tt;
    rows = [];
    written = refl;
    kept = sym (append-nil w.db.business.jobs);
    orders = refl;
  })
  create_jobs_ends old order_id (job_id ∷ rest) w ready past =
      let bus = nats_bus env runtime publish in
      let job = new_job order_id job_id in
      let m = map_job_to_model job none in
      let row = job_row w.db.next_id m w.db in
      let saved = map_job_to_domain row in
      let w1 = ran (insert_job w.db.next_id m w.db) w in
      let w2 = ran w1.db w1 in
      Ensures-then (IsStocked order_id (job_id ∷ rest) w) (IsPrivate old) (create_job env job)
        (λ saved. create_jobs env bus order_id rest >>= λ saved_rest. pure (saved ∷ saved_rest)) w
        saved w2 (create_job_lem env (IsPrivate old) job w past past past)
        (Ensures-bind (IsStocked order_id rest w2) (IsStocked order_id (job_id ∷ rest) w)
          (IsPrivate old) (create_jobs env bus order_id rest)
          (λ saved_rest. pure (saved ∷ saved_rest)) w2
          (create_jobs_ends old order_id rest w2 (insert_job-IsReady w.db.next_id m w ready) past)
          (λ jobs w' h. returns (record {
            ready = h.ready;
            inside = h.inside;
            names = ap (λ l. job_id ∷ l) h.names;
            new = ((refl, refl, refl), h.new);
            rows = row ∷ h.rows;
            written = ap (λ l. saved ∷ l) h.written;
            kept = h.kept ∙ append_assoc w.db.business.jobs (row ∷ []) h.rows;
            orders = h.orders;
          })))

  module _ (command : CreateOrderCommand) (w : World Shop) (ready : IsReady w) where
    -- The saved order, and the session after it is saved.
    abbrev saved_row : OrderModel
    saved_row = order_row w.db.next_id (map_order_to_model (ordered command)) w.db

    abbrev saved_world : World Shop
    saved_world =
        let w1 = ran (insert_order w.db.next_id (map_order_to_model (ordered command)) w.db) w in
        ran w1.db w1

    past : IsPrivate w w
    past = (refl, refl)

    announced :
        (order : Order) (jobs : List Job) (w2 w' : World Shop)
        → order.id ≡ some w.db.next_id
        → order.order_number ≡ command.order_number
        → order.user_id ≡ some command.user_id
        → IsStocked (some w.db.next_id) command.jobs saved_world jobs w2
        → IsReady w'
        → IsPrivate w w'
        → w'.db
          ≡ stage
              (order_created w.db.next_id command.order_number command.user_id command.jobs)
              w2.db
        → IsOrdered command w (record order { jobs = jobs }) w'
    announced order jobs w2 w' key number owner stocked ready' past' staged = record {
      ready = ready';
      past = past';
      id = w.db.next_id;
      key = key;
      number = number;
      owner = owner;
      names = stocked.names;
      new = stocked.new;
      rows = stocked.rows;
      written = stocked.written;
      job_rows = ap (λ (t : Tables Shop). t.business.jobs) staged ∙ stocked.kept;
      order_rows = ap (λ (t : Tables Shop). t.business.orders) staged ∙ stocked.orders;
      before = w2.db;
      staged = staged;
    }

    announce_order_ends :
        (order : Order) (jobs : List Job) (w2 : World Shop)
        → order.id ≡ some w.db.next_id
        → order.order_number ≡ command.order_number
        → order.user_id ≡ some command.user_id
        → IsStocked (some w.db.next_id) command.jobs saved_world jobs w2
        → Ensures
            (IsOrdered command w)
            (IsPrivate w)
            (announce_order env (nats_bus env runtime publish) true order jobs w2)
    unfolding announce_order announce order_created
    announce_order_ends order jobs w2 key number owner stocked =
        let id = w.db.next_id in
        let names = map (λ (j : Job). j.job_id) jobs in
        let event = order_created id order.order_number command.user_id names in
        let told = order_created id command.order_number command.user_id command.jobs in
        let same : event ≡ told =
          ap (λ n. order_created id n command.user_id names) number
          ∙ ap (order_created id command.order_number command.user_id) stocked.names in
        let bus = nats_bus env runtime publish in
        let Q = IsOrdered command w in
        let R : World Shop → Type 0 = IsPrivate w in
        let done = record order { jobs = jobs } in
        let finish : ℕ → ℕ → Method (World Shop) Failure Order =
          λ i u. announce env bus true (order_created i order.order_number u names) >> pure done in
        Ensures-then Q R (or_raise order.id (raised "AssertionError"))
          (λ i. or_raise order.user_id (raised "AssertionError") >>= finish i) w2 id w2
          (subst (λ o. Ensures (Exactly id w2) R (or_raise o (raised "AssertionError") w2))
            (sym key) (returns (refl, refl)))
          (Ensures-then Q R (or_raise order.user_id (raised "AssertionError")) (finish id) w2
            command.user_id w2
            (subst
              (λ o.
                Ensures (Exactly command.user_id w2) R (or_raise o (raised "AssertionError") w2))
              (sym owner) (returns (refl, refl)))
            (Ensures-bind (λ _. IsStaged event w2) Q R (publish_durable env runtime event)
              (λ _. pure done) w2
              (Ensures-weaken _ _ _ _ (λ a s q. q)
                (λ s g. (g.0 ∙ stocked.inside.0, g.1 ∙ stocked.inside.1)) _
                (publish_durable_stages env runtime event w2 stocked.ready))
              (λ _ w' staged. returns (
                announced order jobs w2 w' key number owner stocked staged.ready
                  (staged.past.0 ∙ stocked.inside.0, staged.past.1 ∙ stocked.inside.1)
                  (staged.row refl ∙ ap (λ e. stage e w2.db) same)))))

    add_jobs_ends :
        (order : Order)
        → order.id ≡ some w.db.next_id
        → order.order_number ≡ command.order_number
        → order.user_id ≡ some command.user_id
        → Ensures
            (IsOrdered command w)
            (IsPrivate w)
            (add_jobs env (nats_bus env runtime publish) true command.jobs order saved_world)
    unfolding add_jobs
    add_jobs_ends order key number owner =
        let bus = nats_bus env runtime publish in
        Ensures-bind (IsStocked (some w.db.next_id) command.jobs saved_world) (IsOrdered command w)
          (IsPrivate w) (create_jobs env bus order.id command.jobs)
          (announce_order env bus true order) saved_world
          (subst
            (λ id.
              Ensures (IsStocked (some w.db.next_id) command.jobs saved_world) (IsPrivate w)
                (create_jobs env bus id command.jobs saved_world))
            (sym key)
            (create_jobs_ends w (some w.db.next_id) command.jobs saved_world
              (insert_order-IsReady w.db.next_id (map_order_to_model (ordered command)) w ready)
              past))
          (λ jobs w2 stocked. announce_order_ends order jobs w2 key number owner stocked)

    -- If the use case returns, it has written the order and its jobs and staged the event in its
    -- session; however it ends, nothing has left the session.
    pub create_order_execute_ends :
        Ensures
          (IsOrdered command w)
          (IsPrivate w)
          (create_order_execute env (nats_bus env runtime publish) true command w)
    unfolding create_order_execute
    create_order_execute_ends =
        let bus = nats_bus env runtime publish in
        Ensures-then (IsOrdered command w) (IsPrivate w) (create_order env (ordered command))
          (add_jobs env bus true command.jobs) w
          (map_order_to_domain (loaded saved_world.db.business saved_row)) saved_world
          (create_order_lem env (IsPrivate w) (ordered command) w past past past)
          (add_jobs_ends (map_order_to_domain (loaded saved_world.db.business saved_row)) refl refl
            refl)
