-- ===== src/Events.antt =====
-- Events and the people who attend them: the repositories of
-- backend/internal/infrastructure/postgres for events and participation, their use cases, and the
-- seats that they share with purchases.
pub mod View
pub mod Participation
pub mod Lifecycle
pub mod Reads
pub mod Distinct
pub mod Seats
pub mod Lookup
pub mod Capped
pub mod Calls
pub mod Cases
pub mod Sold
pub mod Joined
pub mod Within
pub mod Kept
pub mod Rsvp
pub mod UseCase
pub mod Publishable
pub mod Updated
