-- ===== src/Events.antt =====
-- The event subsystem: app/core/{event_bus,event_serializer,nats_bus,database}.py and
-- app/modules/event_outbox.
pub mod Settings
pub mod Values
pub mod Serializer
pub mod Subjects
pub mod Database
pub mod Outbox
pub mod Relay
pub mod Consumer
pub mod DeadLetters
pub mod Publishing
pub mod AdminApi
pub mod Examples
