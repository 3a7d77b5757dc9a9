-- ===== src/Semantics.antt =====
-- What the methods of src/ do to a run: which transition fires, who handles an event first, when a
-- dispatch has come to rest, what deactivation leaves, and what a history records.
pub mod Choice
pub mod Internal
pub mod Priority
pub mod Completion
pub mod Leaving
pub mod Ending
pub mod Regions
pub mod Remembering
pub mod Emptying
