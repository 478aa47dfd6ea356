-- ===== src/Policy.antt =====
-- src/policy: the slice policy and the score that orders the frontier.
pub mod V1
pub mod Scoring
