-- ===== src/Ordering/Examples.antt =====
-- Example data, tests, and the theorems of the ordering module at concrete inputs.
use fast_kit.Ordering.UseCases.Progress.{transition_job_status_returns, sound}
use fast_kit.Kit.{
  String, ◌≡◌, refl, ◌↔◌, ◌⊎◌, true, false, none, some, List, [], ◌∷◌, ◌++◌, map, length, is_ok,
  Result, ok, err, Ensures,
}
use fast_kit.Events.Database.{refused, World, Failure, publish}
use fast_kit.Events.Values.{Event}
use fast_kit.Events.Examples.{good, one_class, empty_world, empty_world-IsReady}
use fast_kit.Events.Relay.{publish_durable}
use fast_kit.Events.Outbox.{
  add_outbox, get_pending_outbox, pending_rows, mark_outbox_published, add_event_store,
}
use fast_kit.Ordering.StateMachine.{
  pending, received_artwork, hold, complete, invalid_transition, transitions, allowed_from,
  can_transition, is_file_editable,
}
use fast_kit.Ordering.StateMachine.Lifecycle.{receive, advance, Step, can_transition_iff}
use fast_kit.Ordering.Jobs.{blank_job, transition_to}
use fast_kit.Ordering.Jobs.History.{
  transition_to_cases, transitions_to, transitions_to-IsConsistent, IsConsistent, complete_history,
  full_line,
}
use fast_kit.Ordering.Models.{JobModel, Shop}
use fast_kit.Ordering.UseCases.{
  CreateOrderCommand, TransitionJobStatusCommand, transition_job_status_execute,
}
use fast_kit.Ordering.UseCases.Transition.{nats_bus}
use fast_kit.Events.Relay.Records.{IsPrivate}
use fast_kit.Ordering.UseCases.Requests.{
  IsTransitioned, IsPlaced, transition_job_status, transition_job_status_safe, place_order,
  place_order_safe, in_durable_session,
}

no_way_back : can_transition complete pending ≡ false
unfolding can_transition
no_way_back = refl

can_transition_iff_example : (can_transition hold pending ≡ true) ↔ Step hold pending
can_transition_iff_example = can_transition_iff hold pending

transition_to_cases_example :
    Step pending complete
      × (transition_to complete blank_job ≡ (
        ok tt,
        record blank_job { job_status = complete; file_editable = is_file_editable complete },
      ))
    ⊎ ¬ Step pending complete
      × (transition_to complete blank_job ≡ (
        err (invalid_transition pending complete (allowed_from pending transitions)),
        blank_job,
      ))
transition_to_cases_example = transition_to_cases complete blank_job

transitions_to-IsConsistent_example :
    IsConsistent (transitions_to (hold ∷ complete ∷ []) blank_job).1
unfolding is_file_editable
transitions_to-IsConsistent_example =
    transitions_to-IsConsistent (hold ∷ complete ∷ []) blank_job refl

complete_history_example :
    (before : List String) × (hold ∷ pending ∷ full_line ≡ before ++ full_line)
unfolding transition_to
complete_history_example = complete_history (hold ∷ pending ∷ full_line) blank_job refl refl refl

abbrev order_of_one : CreateOrderCommand
order_of_one = record { user_id = 3; order_number = "A-7"; jobs = "J-1" ∷ [] }

abbrev empty_shop : Shop
empty_shop = record { orders = []; jobs = [] }

abbrev quiet : Event → World Shop → Result Failure (Unit {0}) × World Shop
quiet event w = (ok tt, w)

place_order_safe_example :
    Ensures
      (IsPlaced order_of_one (empty_world empty_shop))
      (IsPrivate (empty_world empty_shop))
      (place_order good one_class quiet true order_of_one (empty_world empty_shop))
place_order_safe_example =
    place_order_safe good one_class quiet true order_of_one (empty_world empty_shop)
      (empty_world-IsReady empty_shop)

-- The order is placed, with its job, and its event is sent.
placed_order :
    let (answer, w) = place_order good one_class quiet true order_of_one (empty_world empty_shop) in
    (is_ok answer ≡ true)
    × (map (λ j. j.job_id) w.committed.business.jobs ≡ "J-1" ∷ [])
    × (length w.sent ≡ 1)
    × (length w.committed.event_store ≡ 1)
unfolding place_order publish_durable add_outbox get_pending_outbox pending_rows publish
    mark_outbox_published add_event_store
placed_order = (refl, refl, refl, refl)

abbrev job_five : JobModel
job_five = record {
  id = some 5;
  order_id = some 4;
  job_id = "J-1";
  job_status = pending;
  file_editable = true;
  created_at = some 1;
  updated_at = some 1;
}

abbrev one_job : Shop
one_job = record { orders = []; jobs = job_five ∷ [] }

abbrev receive_five : TransitionJobStatusCommand
receive_five = record { job_id = 5; new_status = received_artwork; user_id = none; reason = none }

transition_job_status_safe_example :
    Ensures
      (IsTransitioned receive_five (empty_world one_job))
      (IsPrivate (empty_world one_job))
      (transition_job_status good one_class quiet true receive_five (empty_world one_job))
transition_job_status_safe_example =
    transition_job_status_safe good one_class quiet true receive_five (empty_world one_job)
      (empty_world-IsReady one_job)

moved_job :
    let (answer, w) =
      transition_job_status good one_class quiet true receive_five (empty_world one_job) in
    (is_ok answer ≡ true)
    × (map (λ j. j.job_status) w.committed.business.jobs ≡ received_artwork ∷ [])
    × (length w.sent ≡ 1)
unfolding transition_job_status publish_durable add_outbox get_pending_outbox pending_rows publish
    mark_outbox_published add_event_store
moved_job = (refl, refl, refl)

-- With a session that is not entered the request raises.
not_entered :
    is_ok (transition_job_status good one_class quiet false receive_five (empty_world one_job)).0
    ≡ false
unfolding transition_job_status
not_entered = refl

-- It is moved also if the broker refuses all messages.
transition_job_status_returns_example :
    Ensures
      (IsTransitioned receive_five (empty_world one_job))
      (λ _. ⊥)
      (in_durable_session
        (sound (λ _ _. refused []))
        one_class
        quiet
        true
        (transition_job_status_execute
          (sound (λ _ _. refused []))
          (nats_bus (sound (λ _ _. refused [])) one_class quiet)
          true
          receive_five)
        (empty_world one_job))
transition_job_status_returns_example =
    transition_job_status_returns (λ _ _. refused []) one_class quiet receive_five job_five
      (empty_world one_job) (empty_world-IsReady one_job) refl (advance receive)
