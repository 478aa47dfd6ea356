-- ===== src/Types/Sufficiency/Verdict.antt =====
-- `check` against `is_satisfied` in src/types/sufficiency.rs, and what an evidence bundle shows.
use admissibility_kernel.Base.{
  ◌≤◌, ◌≡◌, refl, sym, ◌∙◌, inl, inr, List, [], ◌∷◌, Bool, true, false, not, ◌&&◌, ◌||◌, none, Str,
  ok, leb, length, is_empty, Bool-cases, arith,
}
use admissibility_kernel.Crates.{Floats, FloatLaws, IsNumber, flt}
use admissibility_kernel.Types.Role.{user, assistant}
use admissibility_kernel.Types.Admissible.{AdmissibleEvidenceBundle}
use admissibility_kernel.Types.Diversity.{DiversityMetrics, from_bundle}
use admissibility_kernel.Types.Diversity.Tally.{has_role, from_bundle_lem}
use admissibility_kernel.Types.Sufficiency.{
  SufficiencyPolicy, SufficiencyViolation, EvidenceBundle, push_if, is_satisfied, check,
  from_admissible,
}

module _ {F : Type 0} (fl : Floats F) where
  is_empty-push_if :
      (c : Bool) (v : SufficiencyViolation F) (vs : List (SufficiencyViolation F))
      → is_empty (push_if c v vs) ≡ is_empty vs && not c
  is_empty-push_if true v [] = refl
  is_empty-push_if true v (x ∷ vs) = refl
  is_empty-push_if false v [] = refl
  is_empty-push_if false v (x ∷ vs) = refl

  -- The conditions of a policy but the one on the mean.
  abbrev pub counts_satisfied : SufficiencyPolicy F → DiversityMetrics F → Bool
  counts_satisfied p m =
      leb p.min_turns m.turn_count
      && (leb p.min_roles m.unique_roles
          && (leb p.min_phases m.unique_phases
              && (leb p.min_high_salience m.salience_stats.high_salience_count
                  && (not p.require_exchange || m.has_exchange))))

  -- `check` finds metrics sufficient exactly if the counts satisfy the policy and the mean is not
  -- below its bound.
  pub is_sufficient-check :
      (p : SufficiencyPolicy F) (m : DiversityMetrics F)
      → (check fl p m).is_sufficient
        ≡ counts_satisfied p m && not (flt fl m.salience_stats.mean p.min_mean_salience)
  unfolding check
  is_sufficient-check p m = ground arith

  -- If neither the mean nor its bound is a NaN, `check` finds metrics sufficient exactly if
  -- `is_satisfied` says so.
  pub check-is_satisfied :
      (laws : FloatLaws fl) (p : SufficiencyPolicy F) (m : DiversityMetrics F)
      → IsNumber laws m.salience_stats.mean
      → IsNumber laws p.min_mean_salience
      → (check fl p m).is_sufficient ≡ is_satisfied fl p m
  unfolding is_satisfied
  check-is_satisfied laws p m (i, hi) (j, hj) = ground (
    arith,
    is_sufficient-check p m,
    laws.by_rank m.salience_stats.mean p.min_mean_salience,
    hi,
    hj,
  )

  -- If the mean is a NaN, no policy is satisfied, and yet `check` lets the metrics pass whenever the
  -- counts do.
  pub check_nan :
      (laws : FloatLaws fl) (p : SufficiencyPolicy F) (m : DiversityMetrics F)
      → laws.rank m.salience_stats.mean ≡ none
      → (is_satisfied fl p m ≡ false) × ((check fl p m).is_sufficient ≡ counts_satisfied p m)
  unfolding is_satisfied
  check_nan laws p m nan = (
    ground (arith, laws.by_rank m.salience_stats.mean p.min_mean_salience, nan),
    ground (
      arith,
      is_sufficient-check p m,
      laws.by_rank m.salience_stats.mean p.min_mean_salience,
      nan,
    ),
  )

  -- An evidence bundle holds the admissible bundle that it was made from. That bundle has at least
  -- the turns that the policy asks for, and if the policy asks for an exchange, a turn of the user and
  -- one of the assistant.
  pub from_admissible_lem :
      (b : AdmissibleEvidenceBundle F) (p : SufficiencyPolicy F) (id : Str) (e : EvidenceBundle F)
      → from_admissible fl b p id ≡ ok e
      → (e.bundle ≡ b)
        × (p.min_turns ≤ length b.slice.turns)
        × (p.require_exchange ≡ true
            → (has_role b.slice.turns user ≡ true) × (has_role b.slice.turns assistant ≡ true))
  unfolding from_admissible
  from_admissible_lem b p id e h =
      let (count, _, _, exchange) = from_bundle_lem fl b in
      elim (Bool-cases (check fl p (from_bundle fl b)).is_sufficient) [
        | inr bad ↦ absurd (ground (arith, bad))
        | inl good ↦
            let counted = sym good ∙ is_sufficient-check p (from_bundle fl b) in
            (
              ground (arith, good),
              ground (arith, counted, count),
              λ asked. ground (arith, counted, exchange, asked),
            )
      ]
