-- ===== src/Types/Diversity.antt =====
-- `DiversityMetrics` of src/types/sufficiency.rs. A hash map of counts is the list of its entries in
-- the order of their first insertion.
pub mod Tally
use Prim.Native.Nat.Ordering.{gt, lt, eq}
use admissibility_kernel.Base.{
  ℕ, suc, ◌+◌, List, [], ◌∷◌, ◌++◌, map, Bool, true, false, not, ◌&&◌, ◌||◌, Option, none, some,
  Str, codes, join, ltb, leb, ◌==◌, str_eq, show_usize, length, filter, is_empty, Result, ok, err,
  if◌then◌else◌,
}
use admissibility_kernel.Base.Int.{ℤ, pos}
use admissibility_kernel.Crates.{Floats, flt, fge}
use admissibility_kernel.Types.Turn.{TurnId, TurnSnapshot}
use admissibility_kernel.Types.Role.{Role, user, assistant, system, tool}
use admissibility_kernel.Types.Phase.{
  Phase, exploration, debugging, planning, consolidation, synthesis,
}
use admissibility_kernel.Types.Admissible
use admissibility_kernel.Types.Admissible.{AdmissibleEvidenceBundle}

-- The derived `PartialEq` of the two enums, by the place of a constructor.
abbrev pub role_rank : Role → ℕ
role_rank user = 0
role_rank assistant = 1
role_rank system = 2
role_rank tool = 3

abbrev pub phase_rank : Phase → ℕ
phase_rank exploration = 0
phase_rank debugging = 1
phase_rank planning = 2
phase_rank consolidation = 3
phase_rank synthesis = 4

abbrev pub same_role : Role → Role → Bool
same_role a b = role_rank a == role_rank b

abbrev pub same_phase : Phase → Phase → Bool
same_phase a b = phase_rank a == phase_rank b

module _ {A : Type 0} (same : A → A → Bool) where
  -- `*map.entry(key).or_insert(0) += 1`
  unfoldable pub bump : A → List (A × ℕ) → List (A × ℕ)
  bump k [] = (k, 1) ∷ []
  bump k ((j, n) ∷ m) = let rest = bump k m in if same k j then (j, n + 1) ∷ m else (j, n) ∷ rest

  -- The loop that counts.
  unfoldable pub tally : List A → List (A × ℕ) → List (A × ℕ)
  unfolding bump
  tally [] m = m
  tally (x ∷ xs) m = tally xs (bump x m)

  unfoldable pub contains_key : List (A × ℕ) → A → Bool
  contains_key [] k = false
  contains_key ((j, n) ∷ m) k = same k j || contains_key m k

-- `HashSet::insert`, and `collect`
abbrev pub has_str : List Str → Str → Bool
has_str [] s = false
has_str (t ∷ ts) s = str_eq s t || has_str ts s

unfoldable pub collect_strs : List Str → List Str → List Str
collect_strs [] acc = acc
collect_strs (s ∷ ss) acc = collect_strs ss (if has_str acc s then acc else s ∷ acc)

pub record SalienceStats (F : Type 0) : Type 0 where
  pub min : F
  pub max : F
  pub mean : F
  pub std_dev : F
  pub high_salience_count : ℕ

pub record DiversityMetrics (F : Type 0) : Type 0 where
  pub turn_count : ℕ
  pub unique_roles : ℕ
  pub role_distribution : List (Role × ℕ)
  pub unique_phases : ℕ
  pub phase_distribution : List (Phase × ℕ)
  pub unique_sessions : ℕ
  pub salience_stats : SalienceStats F
  pub has_exchange : Bool

module _ {F : Type 0} (fl : Floats F) where
  -- The loops `fold(f32::INFINITY, f32::min)` and `fold(f32::NEG_INFINITY, f32::max)`.
  unfoldable pub fold_floats : (F → F → F) → F → List F → F
  fold_floats op acc [] = acc
  fold_floats op acc (x ∷ xs) = fold_floats op (op acc x) xs

  unfoldable pub compute_salience_stats : List F → SalienceStats F
  unfolding fold_floats
  compute_salience_stats saliences =
      let zero = fl.decimal 0 0 in
      let n = fl.of_usize (length saliences) in
      let mean = fl.div (fl.sum saliences) n in
      let variance = fl.div (fl.sum (map (λ s. fl.powi (fl.sub s mean) (pos 2)) saliences)) n in
      if is_empty saliences
      then record { min = zero; max = zero; mean = zero; std_dev = zero; high_salience_count = 0 }
      else record {
        min = fold_floats fl.min fl.infinity saliences;
        max = fold_floats fl.max fl.neg_infinity saliences;
        mean = mean;
        std_dev = fl.sqrt variance;
        high_salience_count = length (filter (λ s. fge fl s (fl.decimal 7 1)) saliences);
      }

  -- `DiversityMetrics::from_bundle`
  unfoldable pub from_bundle : AdmissibleEvidenceBundle F → DiversityMetrics F
  unfolding compute_salience_stats tally contains_key
  from_bundle b =
      let turns = b.slice.turns in
      let role_distribution = tally same_role (map (λ t. t.role) turns) [] in
      let phase_distribution = tally same_phase (map (λ t. t.phase) turns) [] in
      record {
        turn_count = length turns;
        unique_roles = length role_distribution;
        role_distribution = role_distribution;
        unique_phases = length phase_distribution;
        phase_distribution = phase_distribution;
        unique_sessions = length (collect_strs (map (λ t. t.session_id) turns) []);
        salience_stats = compute_salience_stats (map (λ t. t.salience) turns);
        has_exchange =
            contains_key same_role role_distribution user
            && contains_key same_role role_distribution assistant;
      }
