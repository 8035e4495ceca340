-- ===== src/Events/Examples/Delivery.antt =====
-- A block that stages one event, when nothing fails: the event is delivered.
use fast_kit.Kit.{◌≡◌, refl, ◌≤◌, true, length, where_, arith, Ensures}
use fast_kit.Events.Database.{durable_unit_of_work, statement}
use fast_kit.Events.Outbox.{is_pending, add_outbox}
use fast_kit.Events.Relay.{relay_pending_outbox, publish_durable}
use fast_kit.Events.Relay.Records.{IsPrivate}
use fast_kit.Events.Relay.Delivered.{calm, IsDelivered, durable_unit_of_work_delivers}
use fast_kit.Events.Examples.{
  one_class, empty_world, empty_world-IsReady, stage_seven, stage_seven-BodyKeeps,
}

still_connected : (stage_seven (empty_world tt)).1.connected ≡ true
unfolding stage_seven publish_durable add_outbox statement
still_connected = refl

one_pending : length (where_ is_pending (stage_seven (empty_world tt)).1.db.outbox) ≤ 100
unfolding stage_seven publish_durable add_outbox statement
one_pending = omega arith

durable_unit_of_work_delivers_example :
    Ensures
      (λ _ w. Unit {0} × IsDelivered (stage_seven (empty_world tt)).1.db w)
      (IsPrivate (empty_world tt))
      (durable_unit_of_work calm (relay_pending_outbox calm one_class) stage_seven (empty_world tt))
durable_unit_of_work_delivers_example =
    durable_unit_of_work_delivers one_class (λ _ _. Unit {0}) stage_seven (empty_world tt)
      (empty_world-IsReady tt).books stage_seven-BodyKeeps still_connected one_pending
