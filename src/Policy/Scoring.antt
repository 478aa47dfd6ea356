-- ===== src/Policy/Scoring.antt =====
-- src/policy/scoring.rs: the priority of a candidate, and the order of the frontier.
use Prim.Native.Nat.Ordering.{eq}
use admissibility_kernel.Base.{ℕ, ◌-◌, ◌^◌, Ordering, none, some, compare, ltb, if◌then◌else◌}
use admissibility_kernel.Base.Int.{ℤ, pos, negsuc}
use admissibility_kernel.Base.Order.{reverse}
use admissibility_kernel.Crates.{Floats}
use admissibility_kernel.Types.Turn.{TurnSnapshot}
use admissibility_kernel.Policy.V1.{SlicePolicyV1, get}

-- `distance as i32` of a `u32`
abbrev pub as_i32 : ℕ → ℤ
as_i32 n = if ltb n (2 ^ 31) then pos n else negsuc (2 ^ 32 - 1 - n)

pub record ExpansionCandidate (F : Type 0) : Type 0 where
  pub turn : TurnSnapshot F
  pub distance : ℕ
  pub priority : F

module _ {F : Type 0} (fl : Floats F) where
  unfoldable pub priority_score : TurnSnapshot F → ℕ → SlicePolicyV1 F → F
  priority_score turn distance policy =
      let phase_score = get policy.phase_weights turn.phase in
      let salience_score = fl.mul turn.salience policy.salience_weight in
      let distance_penalty = fl.powi policy.distance_decay (as_i32 distance) in
      fl.mul (fl.add phase_score salience_score) distance_penalty

  -- `ExpansionCandidate::new`
  unfoldable pub new : TurnSnapshot F → ℕ → SlicePolicyV1 F → ExpansionCandidate F
  new turn distance policy = record {
    turn = turn;
    distance = distance;
    priority = priority_score turn distance policy;
  }

  -- The nearer candidate, and then the larger identifier, where the priorities do not decide.
  unfoldable pub tie_break : ExpansionCandidate F → ExpansionCandidate F → Ordering
  tie_break a b = elim (reverse (compare a.distance b.distance)) [
    | eq ↦ compare a.turn.id b.turn.id
    | ord ↦ ord
  ]

  -- `Ord for ExpansionCandidate`: priorities that do not compare count as equal.
  unfoldable pub cmp : ExpansionCandidate F → ExpansionCandidate F → Ordering
  unfolding tie_break
  cmp a b = elim (fl.partial_cmp a.priority b.priority) [
    | none ↦ tie_break a b
    | some ord ↦ elim ord [ eq ↦ tie_break a b | decided ↦ decided ]
  ]
