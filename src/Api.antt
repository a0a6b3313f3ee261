-- ===== src/Api.antt =====
-- app/api: the dependencies and the route handlers.
pub mod Clients
pub mod Dependencies
pub mod Routes
pub mod Stats
pub mod Health
pub mod RetryAfter
pub mod Refill
pub mod Tests
