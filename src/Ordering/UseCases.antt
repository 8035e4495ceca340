-- ===== src/Ordering/UseCases.antt =====
-- app/modules/ordering/use_cases and domain/events.py: orders are created, jobs go through the state
-- machine, and each change is announced by an event.
pub mod Creation
pub mod Transition
pub mod Requests
pub mod Progress
use fast_kit.Kit.{
  Text, codes, ℕ, ◌+◌, ◌-◌, String, Bool, true, false, Option, none, some, List, [], ◌∷◌, ◌++◌, map,
  Method, pure, raise, or_raise, ◌>>=◌, ◌>>◌, Result, ok, err,
}
use fast_kit.Events.Values.{
  Value, null, num, str, arr, Items, nil, item, end, field, EventType, Event,
}
use fast_kit.Events.Database.{Environment, World, Failure, raised, commit}
use fast_kit.Ordering.StateMachine.{pending, InvalidTransition}
use fast_kit.Ordering.Jobs.{Job, blank_job, Order, blank_order, transition_to}
use fast_kit.Ordering.Models.{Shop}
use fast_kit.Ordering.Repository.{create_order, create_job, get_order, get_job, update_job}

-- The classes of domain/events.py.
abbrev order_created_type : EventType
order_created_type = record {
  module_name = codes "app.modules.ordering.domain.events";
  qualname = codes "OrderCreated";
  is_dataclass = true;
}

abbrev job_status_changed_type : EventType
job_status_changed_type = record {
  module_name = codes "app.modules.ordering.domain.events";
  qualname = codes "JobStatusChanged";
  is_dataclass = true;
}

abbrev items : List String → Items
items [] = nil
items (s ∷ ss) = item (str (codes s)) (items ss)

unfoldable pub order_created : ℕ → String → ℕ → List String → Event
order_created order_id order_number user_id job_ids = record {
  type = order_created_type;
  attributes = field "order_id" (num order_id) (
      field "order_number" (str (codes order_number))
        (field "user_id" (num user_id) (field "job_ids" (arr (items job_ids)) end)));
}

abbrev num_or_null : Option ℕ → Value
num_or_null none = null
num_or_null (some n) = num n

unfoldable pub job_status_changed : ℕ → String → String → String → Option ℕ → Text → Event
job_status_changed job_id job_uuid old_status new_status user_id reason = record {
  type = job_status_changed_type;
  attributes = field "job_id" (num job_id) (
      field "job_uuid" (str (codes job_uuid)) (
        field "old_status" (str (codes old_status)) (
          field "new_status" (str (codes new_status))
            (field "user_id" (num_or_null user_id) (field "reason" (str reason) end)))));
}

-- What the use cases call of `IEventBus`.
pub record EventBus (B : Type 0) : Type 0 where
  pub publish : Event → Method (World B) Failure (Unit {0})
  pub publish_durable : Event → Method (World B) Failure (Unit {0})

-- `jobs` holds the `job_id` of each input.
pub record CreateOrderCommand : Type 0 where
  pub user_id : ℕ
  pub order_number : String
  pub jobs : List String

pub record TransitionJobStatusCommand : Type 0 where
  pub job_id : ℕ
  pub new_status : String
  pub user_id : Option ℕ
  pub reason : Option Text

-- `reason or f"Status: {old_status} -> {new_status}"`
abbrev pub reason_or_statuses : Option Text → String → String → Text
reason_or_statuses (some (c ∷ s)) old_status new_status = c ∷ s
reason_or_statuses _ old_status new_status =
    codes "Status: " ++ codes old_status ++ codes " -> " ++ codes new_status

-- A job of a new order.
abbrev pub new_job : Option ℕ → String → Job
new_job order_id job_id = record blank_job {
  order_id = order_id;
  job_id = job_id;
  job_status = pending;
  file_editable = true;
}

module _ (env : Environment) (bus : EventBus Shop) where
  -- The end of both use cases; `durable` says if they were given a session.
  unfoldable pub announce : Bool → Event → Method (World Shop) Failure (Unit {0})
  unfolding commit
  announce true event = bus.publish_durable event
  announce false event = commit env >> bus.publish event

  -- The loop of `CreateOrderUseCase.execute` over the command's jobs.
  unfoldable pub create_jobs : Option ℕ → List String → Method (World Shop) Failure (List Job)
  unfolding create_job
  create_jobs order_id [] = pure []
  create_jobs order_id (job_id ∷ rest) = do
    saved ← create_job env (new_job order_id job_id)
    saved_rest ← create_jobs order_id rest
    pure (saved ∷ saved_rest)

  -- `CreateOrderUseCase.execute`, from the end of the loop on.
  unfoldable pub announce_order : Bool → Order → List Job → Method (World Shop) Failure Order
  unfolding announce order_created
  announce_order durable saved_order saved_jobs = do
    order_id ← or_raise saved_order.id (raised "AssertionError")
    user_id ← or_raise saved_order.user_id (raised "AssertionError")
    announce durable
        (order_created order_id saved_order.order_number user_id (map (λ j. j.job_id) saved_jobs))
    pure (record saved_order { jobs = saved_jobs })

  -- From the saved order on.
  unfoldable pub add_jobs : Bool → List String → Order → Method (World Shop) Failure Order
  unfolding create_jobs announce_order
  add_jobs durable job_ids saved_order =
      create_jobs saved_order.id job_ids >>= announce_order durable saved_order

  unfoldable pub create_order_execute :
      Bool → CreateOrderCommand → Method (World Shop) Failure Order
  unfolding create_order add_jobs
  create_order_execute durable command =
      let order : Order = record blank_order {
        order_number = command.order_number;
        user_id = some command.user_id;
      } in
      create_order env order >>= add_jobs durable command.jobs

  -- `TransitionJobStatusUseCase.execute`, from the updated job on.
  unfoldable pub announce_move :
      Bool → TransitionJobStatusCommand → String → Job → Method (World Shop) Failure Job
  unfolding announce job_status_changed
  announce_move durable command old_status updated_job = do
    id ← or_raise updated_job.id (raised "AssertionError")
    announce durable (
        job_status_changed id updated_job.job_id old_status updated_job.job_status command.user_id
          (reason_or_statuses command.reason old_status updated_job.job_status))
    pure updated_job

  -- From the return or the exception of `transition_to` on.
  unfoldable pub save_move :
      Bool
      → TransitionJobStatusCommand
      → String
      → Result InvalidTransition (Unit {0}) × Job
      → Method (World Shop) Failure Job
  unfolding update_job announce_move
  save_move durable command old_status (err _, job) = raise (raised "INVALID_STATUS_TRANSITION")
  save_move durable command old_status (ok _, job) =
      update_job env job >>= announce_move durable command old_status

  -- From the loaded job on.
  unfoldable pub move_found :
      Bool → TransitionJobStatusCommand → Option Job → Method (World Shop) Failure Job
  unfolding transition_to save_move
  move_found durable command none = raise (raised "JOB_NOT_FOUND")
  move_found durable command (some job) =
      save_move durable command job.job_status (transition_to command.new_status job)

  unfoldable pub transition_job_status_execute :
      Bool → TransitionJobStatusCommand → Method (World Shop) Failure Job
  unfolding get_job move_found
  transition_job_status_execute durable command =
      get_job env command.job_id >>= move_found durable command

  unfoldable pub get_order_execute : ℕ → Method (World Shop) Failure Order
  unfolding get_order
  get_order_execute order_id = do
    order ← get_order env order_id
    or_raise order (raised "ORDER_NOT_FOUND")
