-- ===== src/Model.antt =====
-- app/models/notification.py and app/event_channel_map.py: the enumerations, the row of the table
-- and the tables that say which channels an event notifies.
pub mod Json
pub mod Enums
pub mod Names
pub mod Row
pub mod Channels
pub mod Repr
