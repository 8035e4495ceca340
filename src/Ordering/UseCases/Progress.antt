-- ===== src/Ordering/UseCases/Progress.antt =====
-- A use case that returns in the durable session: no statement fails, whatever the broker does.
use fast_kit.Events.Serializer.{serialize}
use fast_kit.Kit.{
  ℕ, String, ◌≡◌, refl, sym, ap, ◌∙◌, subst, inl, inr, true, false, not, Option, some,
  if◌then◌else◌, is_some, option_map, find, Method, pure, or_raise, ◌>>=◌, ◌>>◌, is_ok, Result, ok,
  err, Ensures, Ensures-is_ok,
}
use fast_kit.Events.Values.{Event, Runtime}
use fast_kit.Events.Database.{
  db_error, Tables, Message, Reply, Environment, World, Failure, durable_unit_of_work, commit,
  in_session, end_session, fresh_session, relay_quietly, statement, query,
}
use fast_kit.Events.Relay.{relay_pending_outbox, publish_durable}
use fast_kit.Events.Outbox.{add_outbox}
use fast_kit.Events.Relay.Staging.{IsReady}
use fast_kit.Ordering.StateMachine.{InvalidTransition}
use fast_kit.Ordering.StateMachine.Lifecycle.{Step}
use fast_kit.Ordering.Jobs.{Job}
use fast_kit.Ordering.Jobs.History.{transition_to_cases}
use fast_kit.Ordering.Models.{map_job_to_model, JobModel, Shop, map_job_to_domain}
use fast_kit.Ordering.Repository.{get_job, update_job, write_job, job_with_id, has_key}
use fast_kit.Ordering.Repository.Rules.{find-update_where, ran, job_with_id-key}
use fast_kit.Ordering.UseCases.{
  job_status_changed, EventBus, TransitionJobStatusCommand, announce, announce_move, save_move,
  move_found, transition_job_status_execute,
}
use fast_kit.Ordering.UseCases.Transition.{nats_bus, moved}
use fast_kit.Ordering.UseCases.Requests.{
  transition_job_status, in_durable_session, IsTransitioned, transition_in_durable_session,
}

-- Surroundings in which no statement fails.
abbrev pub sound : (ℕ → Message → Reply) → Environment
sound broker_reply = record { db_fails = λ _. false; broker_reply = broker_reply }

module _ (broker_reply : ℕ → Message → Reply) where
  module _ {B A : Type 0} (relay : Method (World B) Failure (Unit {0})) where
    -- The block behind the body.
    abbrev rest : A → Method (World B) Failure A
    rest a = commit (sound broker_reply) >> (relay_quietly (sound broker_reply) relay >> pure a)

    rest-is_ok :
        (r : Result Failure A × World B)
        → is_ok r.0 ≡ true
        → let outcome : Result Failure A × World B = elim r.0 [
          | ok a ↦ rest a r.1
          | err e ↦ (err e, r.1)
        ] in
          is_ok (end_session (sound broker_reply) outcome).0 ≡ true
    unfolding end_session commit relay_quietly
    rest-is_ok (ok a, w) h = refl
    rest-is_ok (err e, w) h = h

    durable_unit_of_work-is_ok :
        (body : Method (World B) Failure A) (w : World B)
        → is_ok (body (fresh_session w)).0 ≡ true
        → is_ok (durable_unit_of_work (sound broker_reply) relay body w).0 ≡ true
    unfolding durable_unit_of_work in_session
    durable_unit_of_work-is_ok body w h = rest-is_ok (body (fresh_session w)) h

  module _ (runtime : Runtime) (publish : Event → Method (World Shop) Failure (Unit {0}))
      (command : TransitionJobStatusCommand) where
    abbrev env : Environment
    env = sound broker_reply

    abbrev bus : EventBus Shop
    bus = nats_bus env runtime publish

    announce_move-is_ok :
        (old_status : String) (job : Job) (key : ℕ) (w : World Shop)
        → job.id ≡ some key
        → is_ok (announce_move env bus true command old_status job w).0 ≡ true
    unfolding announce_move announce publish_durable serialize add_outbox statement
        job_status_changed
    announce_move-is_ok old_status job key w e =
        subst
          (λ o.
            is_ok (announce_move env bus true command old_status (record job { id = o }) w).0
            ≡ true)
          (sym e) refl

    save_move-is_ok :
        (old_status : String) (job : Job) (row : JobModel) (key : ℕ) (w : World Shop)
        → find (λ r. has_key r.id job.id) w.db.business.jobs ≡ some row
        → row.id ≡ some key
        → is_ok (save_move env bus true command old_status (ok tt, job) w).0 ≡ true
    unfolding save_move update_job query statement
    save_move-is_ok old_status job row key w found e =
        let p = λ (r : JobModel). has_key r.id job.id in
        let f =
          λ (r : JobModel). record (map_job_to_model job (some r)) { updated_at = some w.db.now } in
        let w2 = ran (write_job job w.db) (ran w.db w) in
        let load = λ (t : Tables Shop). find p t.business.jobs in
        let finish = λ (o : Option JobModel). or_raise (option_map map_job_to_domain o) db_error in
        let next = announce_move env bus true command old_status in
        let Loaded : Option JobModel → Type 0 = λ o.
          is_ok
            (((if not (is_some o)
                  then pure job
                  else statement env (write_job job) >> (query env load >>= finish))
                >>= next)
              (ran w.db w)).0
          ≡ true in
        let Reread : Option JobModel → Type 0 =
          λ o. is_ok ((finish o >>= next) (ran w2.db w2)).0 ≡ true in
        let written =
          find-update_where p f (λ r. refl) w.db.business.jobs ∙ ap (option_map f) found in
        subst Loaded (sym found) (
          subst Reread (sym written)
            (announce_move-is_ok old_status (map_job_to_domain (f row)) key (ran w2.db w2) e))

    execute-is_ok :
        (row : JobModel) (w : World Shop)
        → job_with_id command.job_id w.db.business.jobs ≡ some row
        → Step row.job_status command.new_status
        → is_ok (transition_job_status_execute env bus true command w).0 ≡ true
    unfolding transition_job_status_execute get_job query move_found
    execute-is_ok row w found step =
        let key = job_with_id-key command.job_id w.db.business.jobs row found in
        let w1 = ran w.db w in
        let Found : Option JobModel → Type 0 = λ o.
          is_ok (move_found env bus true command (option_map map_job_to_domain o) w1).0 ≡ true in
        let Went : Result InvalidTransition (Unit {0}) × Job → Type 0 =
          λ r. is_ok (save_move env bus true command row.job_status r w1).0 ≡ true in
        subst Found (sym found)
          (elim (transition_to_cases command.new_status (map_job_to_domain row)) [
            | inl (_, went) ↦ subst Went (sym went) (
                save_move-is_ok row.job_status (moved command.new_status row) row command.job_id w1
                  (subst (λ k. find (λ r. has_key r.id k) w.db.business.jobs ≡ some row) (sym key)
                    found)
                  key)
            | inr (no_step, _) ↦ absurd (no_step step)
          ])

    -- In the durable session, entered as it is meant to be: if no statement fails, and the job of the
    -- command is committed with a status from which the production line has a step to the new one,
    -- then the use case returns, whatever the broker does, and what it returns is committed: the
    -- move of the job, and its event in the outbox.
    pub transition_job_status_returns :
        (row : JobModel) (w : World Shop)
        → IsReady (fresh_session w)
        → job_with_id command.job_id w.committed.business.jobs ≡ some row
        → Step row.job_status command.new_status
        → Ensures
            (IsTransitioned command w)
            (λ _. ⊥)
            (in_durable_session env runtime publish true
              (transition_job_status_execute env bus true command)
              w)
    unfolding transition_job_status in_durable_session
    transition_job_status_returns row w ready found step =
        Ensures-is_ok _ _ _ (transition_in_durable_session env runtime publish command w ready) (
          durable_unit_of_work-is_ok (relay_pending_outbox env runtime)
            (transition_job_status_execute env bus true command) w
            (execute-is_ok row (fresh_session w) found step))
