-- ===== src/Service.antt =====
-- src/service: the policy registry and the request handlers.
pub mod State
pub mod Routes
pub mod Messages
pub mod Program
