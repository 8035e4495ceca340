-- ===== src/Events/Outbox.antt =====
-- app/modules/event_outbox/infrastructure/persistence/repository.py
use fast_kit.Events.Values.{Fields, Value}
use fast_kit.Kit.{
  Text, text_eq, ℕ, ◌+◌, Bool, true, false, not, ◌&&◌, Option, none, some, List, [], ◌∷◌, ◌++◌, leb,
  num_eq, is_some, take, drop, where_, find, update_where, order_by, Method, pure, gets, ◌>>=◌,
  ◌>>◌, ok,
}
use fast_kit.Events.Database.{
  Tables, EventStoreRow, Failure, World, query, statement, Environment, DeadLetterRow, OutboxRow,
}

-- The pending rows, oldest first; rows of one `created_at` stay in the order of the table.
abbrev pub older : OutboxRow → OutboxRow → Bool
older a b = leb a.created_at b.created_at

abbrev pub is_pending : OutboxRow → Bool
is_pending r = not (is_some r.published_at)

unfoldable pub pending_rows : ℕ → List OutboxRow → List OutboxRow
pending_rows limit rows = take limit (order_by older (where_ is_pending rows))

-- `if event_type: where(…)`: no filter for `None` and for the empty text
abbrev wanted : Option Text → Option Text → Bool
wanted none found = true
wanted (some []) found = true
wanted (some (c ∷ s)) none = false
wanted (some (c ∷ s)) (some found) = text_eq found (c ∷ s)

abbrev has_resolution : Option Bool → DeadLetterRow → Bool
has_resolution none r = true
has_resolution (some true) r = is_some r.resolved_at
has_resolution (some false) r = not (is_some r.resolved_at)

-- The rows of a key are resolved now.
abbrev pub resolve_rows : {B : Type 0} → ℕ → Tables B → Tables B
resolve_rows id t = record t {
  dead_letters =
      update_where (λ r. num_eq r.id id) (λ r. record r { resolved_at = some t.now })
        t.dead_letters;
}

module _ {B : Type 0} (env : Environment) where
  unfoldable pub add_outbox : Text → Fields → Text → Method (World B) Failure OutboxRow
  unfolding statement query
  add_outbox event_class_path payload subject = do
    id ← gets (λ w. w.db.next_id)
    now ← gets (λ w. w.db.now)
    let model : OutboxRow = record {
      id = id;
      event_class_path = event_class_path;
      payload = payload;
      subject = subject;
      published_at = none;
      attempts = 0;
      error_message = none;
      created_at = now;
    }
    statement env (λ t. record t { outbox = t.outbox ++ model ∷ []; next_id = t.next_id + 1 })
    pure model

  unfoldable pub get_pending_outbox : ℕ → Method (World B) Failure (List OutboxRow)
  unfolding query
  get_pending_outbox limit = query env (λ t. pending_rows limit t.outbox)

  -- `session.get` finds the row by its key, and writes go to that row.
  unfoldable pub mark_outbox_published : ℕ → Method (World B) Failure (Unit {0})
  unfolding statement
  mark_outbox_published outbox_id = statement env (λ t. record t {
    outbox =
        update_where (λ r. num_eq r.id outbox_id) (λ r. record r { published_at = some t.now })
          t.outbox;
  })

  unfoldable pub increment_outbox_attempts : ℕ → Text → Method (World B) Failure (Unit {0})
  unfolding statement
  increment_outbox_attempts outbox_id error_message = statement env (λ t. record t {
    outbox =
        update_where (λ r. num_eq r.id outbox_id)
          (λ r. record r { attempts = r.attempts + 1; error_message = some error_message })
          t.outbox;
  })

  unfoldable pub add_event_store :
      Text → Text → Fields → Option Text → Option Text → Method (World B) Failure (Unit {0})
  unfolding statement
  add_event_store event_type event_class_path payload aggregate_id correlation_id =
      statement env (λ t. record t {
        event_store =
            t.event_store
            ++ record {
              id = t.next_id;
              event_type = event_type;
              event_class_path = event_class_path;
              aggregate_id = aggregate_id;
              payload = payload;
              correlation_id = correlation_id;
              published_at = t.now;
            }
              ∷ [];
        next_id = t.next_id + 1;
      })

  unfoldable pub add_dead_letter :
      Value → Value → Text → Text → ℕ → Method (World B) Failure (Unit {0})
  unfolding statement
  add_dead_letter event_class_path payload subject error_message attempts = statement env (λ t.
      record t {
        dead_letters =
            t.dead_letters
            ++ record {
              id = t.next_id;
              event_class_path = event_class_path;
              payload = payload;
              subject = subject;
              error_message = error_message;
              attempts = attempts;
              resolved_at = none;
              created_at = t.now;
            }
              ∷ [];
        next_id = t.next_id + 1;
      })

  unfoldable pub list_event_store :
      Option Text → Option Text → ℕ → ℕ → Method (World B) Failure (List EventStoreRow)
  unfolding query
  list_event_store event_type aggregate_id limit offset = query env (λ t. take limit (
      drop offset (
        order_by (λ a b. leb b.published_at a.published_at)
          (where_ (λ r. wanted event_type (some r.event_type) && wanted aggregate_id r.aggregate_id)
            t.event_store))))

  unfoldable pub get_event_store : ℕ → Method (World B) Failure (Option EventStoreRow)
  unfolding query
  get_event_store event_id = query env (λ t. find (λ r. num_eq r.id event_id) t.event_store)

  unfoldable pub list_dead_letter :
      Option Bool → ℕ → ℕ → Method (World B) Failure (List DeadLetterRow)
  unfolding query
  list_dead_letter resolved limit offset = query env (λ t. take limit (
      drop offset (
        order_by (λ a b. leb b.created_at a.created_at)
          (where_ (has_resolution resolved) t.dead_letters))))

  unfoldable pub get_dead_letter : ℕ → Method (World B) Failure (Option DeadLetterRow)
  unfolding query
  get_dead_letter dead_letter_id =
      query env (λ t. find (λ r. num_eq r.id dead_letter_id) t.dead_letters)

  -- The write to the row that was found, and the row after it.
  unfoldable pub resolve_row :
      Option DeadLetterRow → Method (World B) Failure (Option DeadLetterRow)
  unfolding statement
  resolve_row none w = (ok none, w)
  resolve_row (some model) w =
      (statement env (resolve_rows model.id)
          >> pure (some (record model { resolved_at = some w.db.now })))
        w

  -- The row after the write, or `None` if there is none of that key.
  unfoldable pub mark_dead_letter_resolved : ℕ → Method (World B) Failure (Option DeadLetterRow)
  unfolding get_dead_letter resolve_row
  mark_dead_letter_resolved dead_letter_id = get_dead_letter dead_letter_id >>= resolve_row
