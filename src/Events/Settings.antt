-- ===== src/Events/Settings.antt =====
-- The NATS part of app/core/settings.py, at its defaults. Delays are in milliseconds, so that the
-- 2.5 seconds that a delivery count of 0 gives are a number too.
use fast_kit.Kit.{ℕ, Text, codes}

abbrev pub nats_events_subject_prefix : Text
nats_events_subject_prefix = codes "events"

abbrev pub nats_dlq_subject_prefix : Text
nats_dlq_subject_prefix = codes "dlq"

abbrev pub nats_consumer_max_deliver : ℕ
nats_consumer_max_deliver = 3

abbrev pub nats_dlq_consumer_max_deliver : ℕ
nats_dlq_consumer_max_deliver = 5

abbrev pub nats_dlq_retry_base_delay : ℕ
nats_dlq_retry_base_delay = 5000

abbrev pub nats_dlq_retry_max_delay : ℕ
nats_dlq_retry_max_delay = 300000
