-- ===== src/Ordering/UseCases/Transition.antt =====
-- `TransitionJobStatusUseCase` with a session: the job moves and the event is staged, or nothing
-- that is written survives.
use fast_kit.Kit.{
  ℕ, String, ◌≡◌, refl, sym, subst, inl, inr, true, Option, none, some, option_map, find, Method,
  pure, Result, ok, Ensures-bind, Ensures-then, Ensures, returns, raises,
}
use fast_kit.Events.Values.{Event, Runtime}
use fast_kit.Events.Database.{Environment, World, Failure}
use fast_kit.Events.Relay.{publish_durable}
use fast_kit.Events.Relay.Records.{IsPrivate}
use fast_kit.Events.Relay.Staging.{IsReady, IsStaged, stage, publish_durable_stages}
use fast_kit.Ordering.StateMachine.{InvalidTransition, is_file_editable}
use fast_kit.Ordering.StateMachine.Lifecycle.{Step}
use fast_kit.Ordering.Jobs.{Job}
use fast_kit.Ordering.Jobs.History.{transition_to_cases}
use fast_kit.Ordering.Models.{JobModel, Shop, map_job_to_domain}
use fast_kit.Ordering.Repository.{get_job, update_job, write_job, job_with_id, has_key}
use fast_kit.Ordering.Repository.Rules.{get_job_lem, update_job_lem, ran, updated, job_with_id-key}
use fast_kit.Ordering.UseCases.{
  EventBus, TransitionJobStatusCommand, announce, transition_job_status_execute, announce_move,
  save_move, move_found, job_status_changed, reason_or_statuses,
}

-- The job with its new status, before it is written.
abbrev pub moved : String → JobModel → Job
moved new_status row = record (map_job_to_domain row) {
  job_status = new_status;
  file_editable = is_file_editable new_status;
}

-- What the use case leaves when it returns `job`: the row of the command's job had a status from
-- which the production line has a step to the new one; the row has the new status and its flag, and
-- the event that tells both statuses is staged; nothing else in the tables changed.
pub record IsMoved (command : TransitionJobStatusCommand) (w : World Shop) (job : Job)
    (w' : World Shop) : Type 0 where
  pub ready : IsReady w'
  pub past : IsPrivate w w'
  pub row : JobModel
  pub found : job_with_id command.job_id w.db.business.jobs ≡ some row
  pub step : Step row.job_status command.new_status
  pub status : job.job_status ≡ command.new_status
  pub flag : job.file_editable ≡ is_file_editable command.new_status
  pub tables :
      w'.db
      ≡ stage
          (job_status_changed command.job_id row.job_id row.job_status command.new_status
            command.user_id
            (reason_or_statuses command.reason row.job_status command.new_status))
          (write_job (moved command.new_status row) w.db)

module _ (env : Environment) (runtime : Runtime)
    (publish : Event → Method (World Shop) Failure (Unit {0})) where
  -- The bus of the application.
  abbrev pub nats_bus : EventBus Shop
  nats_bus = record { publish = publish; publish_durable = publish_durable env runtime }

  module _ (command : TransitionJobStatusCommand) (w : World Shop) (ready : IsReady w) where
    past : IsPrivate w w
    past = (refl, refl)

    -- The call that announces the move, for the job as it was read back.
    announce_ends :
        (row : JobModel) (key : Option ℕ)
        → job_with_id command.job_id w.db.business.jobs ≡ some row
        → Step row.job_status command.new_status
        → some command.job_id ≡ key
        → Ensures (IsMoved command w) (IsPrivate w) (
            announce_move env nats_bus true command row.job_status
              (record (moved command.new_status row) { id = key; updated_at = some w.db.now })
              (updated (moved command.new_status row) (ran w.db w)))
    unfolding announce_move announce job_status_changed
    announce_ends row key found step e =
        let w2 = updated (moved command.new_status row) (ran w.db w) in
        let job : Job = record (moved command.new_status row) {
          id = some command.job_id;
          updated_at = some w.db.now;
        } in
        let event =
          job_status_changed command.job_id row.job_id row.job_status command.new_status
            command.user_id (reason_or_statuses command.reason row.job_status command.new_status) in
        subst
          (λ k. Ensures (IsMoved command w) (IsPrivate w) (
            announce_move env nats_bus true command row.job_status
              (record (moved command.new_status row) { id = k; updated_at = some w.db.now }) w2))
          e
          (Ensures-bind (λ _. IsStaged event w2) (IsMoved command w) (IsPrivate w)
            (publish_durable env runtime event) (λ _. pure job) w2
            (publish_durable_stages env runtime event w2
              (record { books = ready.books; keyed = ready.keyed; fresh = ready.fresh }))
            (λ _ w' staged. returns (record {
              ready = staged.ready;
              past = staged.past;
              row = row;
              found = found;
              step = step;
              status = refl;
              flag = refl;
              tables = staged.row refl;
            })))

    save_ends :
        (row : JobModel)
        → job_with_id command.job_id w.db.business.jobs ≡ some row
        → Step row.job_status command.new_status
        → Ensures (IsMoved command w) (IsPrivate w) (
            save_move env nats_bus true command row.job_status
              (ok tt, moved command.new_status row)
              (ran w.db w))
    unfolding save_move
    save_ends row found step =
        let job = moved command.new_status row in
        let key = sym (job_with_id-key command.job_id w.db.business.jobs row found) in
        Ensures-then (IsMoved command w) (IsPrivate w) (update_job env job)
          (announce_move env nats_bus true command row.job_status) (ran w.db w)
          (record job { updated_at = some w.db.now }) (updated job (ran w.db w))
          (update_job_lem env (IsPrivate w) job row (ran w.db w)
            (subst (λ k. find (λ r. has_key r.id k) w.db.business.jobs ≡ some row) key found) past
            past past)
          (announce_ends row row.id found step key)

    found_ends :
        (o : Option JobModel)
        → job_with_id command.job_id w.db.business.jobs ≡ o
        → Ensures
            (IsMoved command w)
            (IsPrivate w)
            (move_found env nats_bus true command (option_map map_job_to_domain o) (ran w.db w))
    unfolding move_found
    found_ends none found = raises past
    found_ends (some row) found =
        let Ends : Result InvalidTransition (Unit {0}) × Job → Type 0 = λ r.
          Ensures (IsMoved command w) (IsPrivate w)
            (save_move env nats_bus true command row.job_status r (ran w.db w)) in
        elim (transition_to_cases command.new_status (map_job_to_domain row)) [
          | inl (step, went) ↦ subst Ends (sym went) (save_ends row found step)
          | inr (_, raised) ↦ subst Ends (sym raised) (raises past)
        ]

    -- If the use case returns, it has moved the job and staged the event in its session; however it
    -- ends, nothing has left the session.
    pub transition_job_status_execute_ends :
        Ensures
          (IsMoved command w)
          (IsPrivate w)
          (transition_job_status_execute env nats_bus true command w)
    unfolding transition_job_status_execute
    transition_job_status_execute_ends =
        let o = job_with_id command.job_id w.db.business.jobs in
        Ensures-then (IsMoved command w) (IsPrivate w) (get_job env command.job_id)
          (move_found env nats_bus true command) w (option_map map_job_to_domain o) (ran w.db w)
          (get_job_lem env (IsPrivate w) command.job_id w past) (found_ends o refl)
