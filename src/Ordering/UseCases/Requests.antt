-- ===== src/Ordering/UseCases/Requests.antt =====
-- The requests of app/modules/ordering/api that write. Their session is `Depends(get_durable_session)`,
-- a function under `asynccontextmanager`: the parameter `entered` says whether FastAPI enters the
-- context manager that it returns. If it does not, the use case gets the manager in place of a
-- session.
use fast_kit.Kit.{◌≡◌, Bool, true, false, Method, raise, Ensures-weaken, Ensures, raises, refl}
use fast_kit.Events.Values.{Event, Runtime}
use fast_kit.Events.Database.{
  Environment, World, Failure, raised, durable_unit_of_work, fresh_session,
}
use fast_kit.Events.Relay.{relay_pending_outbox}
use fast_kit.Events.Relay.Records.{IsPrivate, Sends}
use fast_kit.Events.Relay.Durable.{durable_unit_of_work-IsSafe}
use fast_kit.Events.Relay.Staging.{IsReady, In-stage}
use fast_kit.Events.Relay.Requests.{IsAnnounced, IsSafe-IsAnnounced}
use fast_kit.Ordering.Jobs.{Order, Job}
use fast_kit.Ordering.Models.{Shop}
use fast_kit.Ordering.Repository.{write_job}
use fast_kit.Ordering.UseCases.{
  order_created, CreateOrderCommand, create_order_execute, TransitionJobStatusCommand,
  transition_job_status_execute, job_status_changed, reason_or_statuses,
}
use fast_kit.Ordering.UseCases.Creation.{IsOrdered, create_order_execute_ends}
use fast_kit.Ordering.UseCases.Transition.{
  IsMoved, nats_bus, transition_job_status_execute_ends, moved,
}

-- What the block leaves of its body's last state: the committed tables of the use case are those of
-- the body, and the broker has more only messages of rows that the body left pending.
pub record IsCommitted (body : World Shop) (w w' : World Shop) : Type 0 where
  pub business : w'.committed.business ≡ body.db.business
  pub past : Sends body.db.outbox w.sent w'

-- The committed tables have the move of the job, and the event that tells it is announced.
abbrev pub IsTransitioned : TransitionJobStatusCommand → World Shop → Job → World Shop → Type 0
IsTransitioned command w job w' =
    (body : World Shop) × (moved : IsMoved command (fresh_session w) job body) × IsCommitted body w
      w'
    × IsAnnounced
        (job_status_changed command.job_id moved.row.job_id moved.row.job_status command.new_status
          command.user_id
          (reason_or_statuses command.reason moved.row.job_status command.new_status))
        w'

-- The committed tables have the order and its jobs, and the event that tells of them is announced.
abbrev pub IsPlaced : CreateOrderCommand → World Shop → Order → World Shop → Type 0
IsPlaced command w order w' =
    (body : World Shop) × (saved : IsOrdered command (fresh_session w) order body) × IsCommitted
      body w w'
    × IsAnnounced (order_created saved.id command.order_number command.user_id command.jobs) w'

module _ (env : Environment) (runtime : Runtime)
    (publish : Event → Method (World Shop) Failure (Unit {0})) where
  -- The use case with the session of `get_durable_session`. A manager that is not entered has no
  -- method of a session, so the first use of it raises, and nothing else was done before.
  unfoldable pub in_durable_session :
      {A : Type 0} → Bool → Method (World Shop) Failure A → Method (World Shop) Failure A
  unfolding durable_unit_of_work relay_pending_outbox
  in_durable_session true execute =
      durable_unit_of_work env (relay_pending_outbox env runtime) execute
  in_durable_session false execute = raise (raised "AttributeError")

  -- `POST /orders/jobs/{job_id}/transition`
  unfoldable pub transition_job_status :
      Bool → TransitionJobStatusCommand → Method (World Shop) Failure Job
  unfolding in_durable_session transition_job_status_execute
  transition_job_status entered command =
      in_durable_session entered
        (transition_job_status_execute env (nats_bus env runtime publish) true command)

  -- The use case of a move in the block of the durable session.
  pub transition_in_durable_session :
      (command : TransitionJobStatusCommand) (w : World Shop)
      → IsReady (fresh_session w)
      → Ensures (IsTransitioned command w) (IsPrivate w) (transition_job_status true command w)
  unfolding transition_job_status in_durable_session
  transition_in_durable_session command w ready =
      let execute = transition_job_status_execute env (nats_bus env runtime publish) true command in
      let v = fresh_session w in
      Ensures-weaken _ _ _ _
        (λ job w' h. (
          (execute v).1,
          h.0,
          record { business = h.1.business; past = h.1.past },
          IsSafe-IsAnnounced _ (write_job (moved command.new_status h.0.row) v.db) (execute v).1.db
              w.sent w' (In-stage _ _ _ h.0.tables) h.1,
        ))
        (λ s x. x.1) _
        (durable_unit_of_work-IsSafe env runtime (IsMoved command v) execute w ready.books (
          Ensures-weaken _ _ _ _ (λ job u m. (m, m.ready.books, m.ready.keyed, m.past)) (λ u x. x) _
            (transition_job_status_execute_ends env runtime publish command v ready)))

  -- However the database and the broker fail, and whether the session is entered or not: if the
  -- request returns, then the ordering tables that are committed are those with the move of the job,
  -- which the production line allows, the event that tells it is in the committed outbox, and the
  -- broker has more only messages of rows that were committed as pending; if it raises, the
  -- committed tables are as they were, and the broker has exactly what it had.
  pub transition_job_status_safe :
      (entered : Bool) (command : TransitionJobStatusCommand) (w : World Shop)
      → IsReady (fresh_session w)
      → Ensures (IsTransitioned command w) (IsPrivate w) (transition_job_status entered command w)
  unfolding transition_job_status in_durable_session
  transition_job_status_safe true command w ready = transition_in_durable_session command w ready
  transition_job_status_safe false command w ready = raises (refl, refl)

  -- `POST /orders`
  unfoldable pub place_order : Bool → CreateOrderCommand → Method (World Shop) Failure Order
  unfolding in_durable_session create_order_execute
  place_order entered command =
      in_durable_session entered
        (create_order_execute env (nats_bus env runtime publish) true command)

  -- However the database and the broker fail, and whether the session is entered or not: if the
  -- request returns, then the ordering tables that are committed are those with the order and all its
  -- jobs, at the start of the line, the event that tells of them is in the committed outbox, and the
  -- broker has more only messages of rows that were committed as pending; if it raises, the
  -- committed tables are as they were, and the broker has exactly what it had.
  pub place_order_safe :
      (entered : Bool) (command : CreateOrderCommand) (w : World Shop)
      → IsReady (fresh_session w)
      → Ensures (IsPlaced command w) (IsPrivate w) (place_order entered command w)
  unfolding place_order in_durable_session
  place_order_safe false command w ready = raises (refl, refl)
  place_order_safe true command w ready =
      let execute = create_order_execute env (nats_bus env runtime publish) true command in
      let v = fresh_session w in
      Ensures-weaken _ _ _ _
        (λ order w' h. (
          (execute v).1,
          h.0,
          record { business = h.1.business; past = h.1.past },
          IsSafe-IsAnnounced _ h.0.before (execute v).1.db w.sent w' (In-stage _ _ _ h.0.staged)
              h.1,
        ))
        (λ s x. x.1) _
        (durable_unit_of_work-IsSafe env runtime (IsOrdered command v) execute w ready.books (
          Ensures-weaken _ _ _ _ (λ order u m. (m, m.ready.books, m.ready.keyed, m.past)) (λ u x. x)
            _ (create_order_execute_ends env runtime publish command v ready)))
