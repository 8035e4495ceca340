-- ===== src/Events/Examples/Recovery.antt =====
-- A dead letter at a concrete input: it is sent again and resolved.
use fast_kit.Events.AdminApi.{replay_dead_letter_event}
use fast_kit.Kit.{codes, ◌≡◌, refl, true, none, [], ◌∷◌, is_ok}
use fast_kit.Events.Examples.{
  obj, class_path, str, World, good, one_class, world_of, empty_tables, order_event_type,
  order_seven,
}

-- A world with one dead letter, of key 4.
abbrev letter_world : World (Unit {0})
letter_world = world_of (record (empty_tables tt) {
  dead_letters =
      record {
        id = 4;
        event_class_path = str (class_path order_event_type);
        payload = obj order_seven.attributes;
        subject = codes "events.ordering.order_created";
        error_message = codes "handler failed";
        attempts = 5;
        resolved_at = none;
        created_at = 95;
      }
      ∷ [];
})

-- The request returns, and the row is resolved.
letter_returns : is_ok (replay_dead_letter_event good one_class 4 letter_world).0 ≡ true
unfolding replay_dead_letter_event
letter_returns = refl
