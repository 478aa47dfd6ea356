-- ===== src/Types/Sufficiency.antt =====
-- src/types/sufficiency.rs: sufficiency policies and evidence bundles.
pub mod Verdict
use Prim.Native.Nat.Ordering.{gt, lt, eq}
use admissibility_kernel.Base.{
  ℕ, suc, ◌+◌, List, [], ◌∷◌, ◌++◌, map, Bool, true, false, not, ◌&&◌, ◌||◌, Option, none, some,
  Str, codes, join, ltb, leb, ◌==◌, str_eq, show_usize, length, filter, is_empty, Result, ok, err,
  if◌then◌else◌,
}
use admissibility_kernel.Base.Int.{ℤ, pos}
use admissibility_kernel.Crates.{Floats, flt, fge}
use admissibility_kernel.Types.Turn.{TurnId, TurnSnapshot}
use admissibility_kernel.Types.Role.{Role, user, assistant, system, tool}
use admissibility_kernel.Types.Phase.{
  Phase, exploration, debugging, planning, consolidation, synthesis,
}
use admissibility_kernel.Types.Admissible
use admissibility_kernel.Types.Admissible.{AdmissibleEvidenceBundle}
use admissibility_kernel.Types.Diversity.{SalienceStats, DiversityMetrics, from_bundle}

pub record SufficiencyPolicy (F : Type 0) : Type 0 where
  pub min_turns : ℕ
  pub min_roles : ℕ
  pub min_phases : ℕ
  pub min_high_salience : ℕ
  pub require_exchange : Bool
  pub min_mean_salience : F

pub data SufficiencyViolation (F : Type 0) : Type 0 where
  insufficient_turns : ℕ → ℕ → SufficiencyViolation F
  insufficient_roles : ℕ → ℕ → SufficiencyViolation F
  insufficient_phases : ℕ → ℕ → SufficiencyViolation F
  insufficient_high_salience : ℕ → ℕ → SufficiencyViolation F
  no_exchange : SufficiencyViolation F
  low_mean_salience : F → F → SufficiencyViolation F

pub record SufficiencyCheck (F : Type 0) : Type 0 where
  pub is_sufficient : Bool
  pub violations : List (SufficiencyViolation F)
  pub metrics : DiversityMetrics F

pub record EvidenceBundle (F : Type 0) : Type 0 where
  pub bundle : AdmissibleEvidenceBundle F
  pub metrics : DiversityMetrics F
  pub policy_id : Str

module _ {F : Type 0} where
  -- A violation is pushed if its condition holds.
  abbrev pub push_if :
      Bool → SufficiencyViolation F → List (SufficiencyViolation F) → List (SufficiencyViolation F)
  push_if c v violations = if c then violations ++ v ∷ [] else violations

module _ {F : Type 0} (fl : Floats F) where
  -- `Default for SufficiencyPolicy`
  unfoldable pub default_policy : SufficiencyPolicy F
  default_policy = record {
    min_turns = 3;
    min_roles = 2;
    min_phases = 1;
    min_high_salience = 1;
    require_exchange = true;
    min_mean_salience = fl.decimal 3 1;
  }

  unfoldable pub lenient : SufficiencyPolicy F
  lenient = record {
    min_turns = 1;
    min_roles = 1;
    min_phases = 1;
    min_high_salience = 0;
    require_exchange = false;
    min_mean_salience = fl.decimal 0 0;
  }

  unfoldable pub strict : SufficiencyPolicy F
  strict = record {
    min_turns = 5;
    min_roles = 2;
    min_phases = 2;
    min_high_salience = 2;
    require_exchange = true;
    min_mean_salience = fl.decimal 5 1;
  }

  unfoldable pub is_satisfied : SufficiencyPolicy F → DiversityMetrics F → Bool
  is_satisfied p m =
      leb p.min_turns m.turn_count
      && (leb p.min_roles m.unique_roles
          && (leb p.min_phases m.unique_phases
              && (leb p.min_high_salience m.salience_stats.high_salience_count
                  && ((not p.require_exchange || m.has_exchange)
                      && fge fl m.salience_stats.mean p.min_mean_salience))))

  unfoldable pub check : SufficiencyPolicy F → DiversityMetrics F → SufficiencyCheck F
  check p m =
      let high = m.salience_stats.high_salience_count in
      let mean = m.salience_stats.mean in
      let v1 =
        push_if (ltb m.turn_count p.min_turns) (insufficient_turns p.min_turns m.turn_count) [] in
      let v2 =
        push_if (ltb m.unique_roles p.min_roles) (insufficient_roles p.min_roles m.unique_roles)
          v1 in
      let v3 =
        push_if (ltb m.unique_phases p.min_phases)
          (insufficient_phases p.min_phases m.unique_phases) v2 in
      let v4 =
        push_if (ltb high p.min_high_salience) (insufficient_high_salience p.min_high_salience high)
          v3 in
      let v5 = push_if (p.require_exchange && not m.has_exchange) no_exchange v4 in
      let v6 =
        push_if (flt fl mean p.min_mean_salience) (low_mean_salience p.min_mean_salience mean) v5 in
      record { is_sufficient = is_empty v6; violations = v6; metrics = m }

  -- "…: {} required, {} found"
  abbrev found : Str → Str → Str → Str
  found what required actual =
      what ++ (required ++ (codes " required, " ++ (actual ++ codes " found")))

  -- `Display for SufficiencyViolation`
  unfoldable pub to_string : SufficiencyViolation F → Str
  to_string (insufficient_turns required actual) =
      found (codes "Insufficient turns: ") (show_usize required) (show_usize actual)
  to_string (insufficient_roles required actual) =
      found (codes "Insufficient roles: ") (show_usize required) (show_usize actual)
  to_string (insufficient_phases required actual) =
      found (codes "Insufficient phases: ") (show_usize required) (show_usize actual)
  to_string (insufficient_high_salience required actual) =
      found (codes "Insufficient high-salience turns: ") (show_usize required) (show_usize actual)
  to_string no_exchange = codes "No meaningful exchange: requires both user and assistant turns"
  to_string (low_mean_salience required actual) =
      found (codes "Low mean salience: ") (fl.show_two required) (fl.show_two actual)

  -- `EvidenceBundle::from_admissible`; the error is `InsufficientEvidence`.
  unfoldable pub from_admissible :
      AdmissibleEvidenceBundle F → SufficiencyPolicy F → Str → Result Str (EvidenceBundle F)
  unfolding from_bundle check to_string
  from_admissible b policy policy_id =
      let metrics = from_bundle fl b in
      let result = check policy metrics in
      if result.is_sufficient
      then ok (record { bundle = b; metrics = metrics; policy_id = policy_id })
      else err (join (codes "; ") (map to_string result.violations))

module _ {F : Type 0} where
  unfoldable pub num_turns : EvidenceBundle F → ℕ
  num_turns e = e.metrics.turn_count

  unfoldable pub is_turn_admissible : EvidenceBundle F → TurnId → Bool
  is_turn_admissible e id = Admissible.is_turn_admissible e.bundle id
