-- ===== src/Store.antt =====
-- src/store/mod.rs: the trait `GraphStore`. A slice reads a store that nobody changes meanwhile,
-- so a store is the record of its answers. `E` is the store's error type, with its `Display`.
pub mod Memory
pub mod Postgres
use admissibility_kernel.Base.{ℕ, Option, List, Result, Str}
use admissibility_kernel.Types.Turn.{TurnId, TurnSnapshot}
use admissibility_kernel.Types.Edge.{Edge}

pub record GraphStore (F E : Type 0) : Type 0 where
  pub get_turn : TurnId → Result E (Option (TurnSnapshot F))
  pub get_turns : List TurnId → Result E (List (TurnSnapshot F))
  pub get_parents : TurnId → Result E (List TurnId)
  pub get_children : TurnId → Result E (List TurnId)
  pub get_siblings : TurnId → ℕ → Result E (List TurnId)
  pub get_edges : List TurnId → Result E (List Edge)
  pub error_string : E → Str
