-- ===== src/Eta.antt =====
-- Estimated times of arrival: the clients of the two engines (Eta/Clients), the heuristic (Eta/Heuristic),
-- the service (Eta/Service) and what is proved of them.
mod Tests
pub mod Replies
pub mod Clients
pub mod Usable
pub mod Routes
pub mod Heuristic
pub mod Service
pub mod Throttle
pub mod Recomputing
pub mod Answers
pub mod Batch
