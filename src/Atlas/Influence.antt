-- ===== src/Atlas/Influence.antt =====
-- src/atlas/influence.rs: how often a turn appears in slices, and in slices of which phases. A `u32`
-- wraps round. The topology of phases is in `Topology`.
pub mod Topology
pub mod Counting
pub mod Phases
pub mod Scores
pub mod Bridges
pub mod Batches
use admissibility_kernel.Base.{
  ℕ, ◌+◌, ◌%◌, ◌^◌, List, [], ◌∷◌, ◌++◌, map, Bool, Option, none, some, Ordering, compare, Str,
  codes, length, filter, find, take, ltb, leb, ◌==◌, if◌then◌else◌,
}
use admissibility_kernel.Base.Int.{pos}
use admissibility_kernel.Base.Order.{nat_ord, list_ord, list_cmp}
use admissibility_kernel.Base.Set.{same}
use admissibility_kernel.Base.Sort.{sort_by}
use admissibility_kernel.Base.Tree.{get, insert}
use admissibility_kernel.Crates.{Floats, Crypto, Value, int, float, bool, str, obj, end, field}
use admissibility_kernel.Canonical.{seq, canonical_hash_hex}
use admissibility_kernel.Types.Phase.{
  Phase, exploration, debugging, planning, consolidation, synthesis,
}
use admissibility_kernel.Types.Turn.{TurnSnapshot}
use admissibility_kernel.Types.Slice.{SliceExport}

pub record PhaseCounts : Type 0 where
  pub exploration : ℕ
  pub debugging : ℕ
  pub planning : ℕ
  pub consolidation : ℕ
  pub synthesis : ℕ

-- `PhaseCounts::default`
abbrev pub no_counts : PhaseCounts
no_counts = record {
  exploration = 0;
  debugging = 0;
  planning = 0;
  consolidation = 0;
  synthesis = 0;
}

-- `+= 1` on a `u32`
abbrev pub add_one : ℕ → ℕ
add_one n = (n + 1) % 2 ^ 32

unfoldable pub increment : PhaseCounts → Phase → PhaseCounts
increment c exploration = record c { exploration = add_one c.exploration }
increment c debugging = record c { debugging = add_one c.debugging }
increment c planning = record c { planning = add_one c.planning }
increment c consolidation = record c { consolidation = add_one c.consolidation }
increment c synthesis = record c { synthesis = add_one c.synthesis }

unfoldable pub total : PhaseCounts → ℕ
total c = (c.exploration + c.debugging + c.planning + c.consolidation + c.synthesis) % 2 ^ 32

unfoldable pub is_cross_phase : PhaseCounts → Bool
is_cross_phase c =
    let non_zero =
      ltb 0 c.exploration
      ∷ ltb 0 c.debugging
      ∷ ltb 0 c.planning
      ∷ ltb 0 c.consolidation
      ∷ ltb 0 c.synthesis
      ∷ [] in
    ltb 1 (length (filter (λ x. x) non_zero))

-- The array of `dominant_phase`.
abbrev pub phase_counts : PhaseCounts → List (Phase × ℕ)
phase_counts c =
    (exploration, c.exploration)
    ∷ (debugging, c.debugging)
    ∷ (planning, c.planning)
    ∷ (consolidation, c.consolidation)
    ∷ (synthesis, c.synthesis)
    ∷ []

-- `max_by_key`: the last of the greatest.
unfoldable pub max_from : Phase × ℕ → List (Phase × ℕ) → Phase × ℕ
max_from best [] = best
max_from best (x ∷ xs) = max_from (if leb best.1 x.1 then x else best) xs

unfoldable pub max_by_count : List (Phase × ℕ) → Option Phase
unfolding max_from
max_by_count [] = none
max_by_count (x ∷ xs) = some (max_from x xs).0

unfoldable pub dominant_phase : PhaseCounts → Option Phase
unfolding max_by_count
dominant_phase c = max_by_count (filter (λ x. ltb 0 x.1) (phase_counts c))

pub record TurnInfluence (F : Type 0) : Type 0 where
  pub turn_id : Str
  pub slice_count : ℕ
  pub slice_fraction : F
  pub phase_distribution : PhaseCounts
  pub is_bridge : Bool

pub record InfluenceScores (F : Type 0) : Type 0 where
  pub scores : List (TurnInfluence F)
  pub total_slices : ℕ
  pub scores_hash : Str

pub record BridgeTurn : Type 0 where
  pub turn_id : Str
  pub bridged_phases : List Phase
  pub total_appearances : ℕ

module _ {F : Type 0} where
  -- The derived `Serialize`.
  abbrev pub counts_value : PhaseCounts → Value F
  counts_value c = obj (
      field (codes "exploration") (int (pos c.exploration)) (
        field (codes "debugging") (int (pos c.debugging)) (
          field (codes "planning") (int (pos c.planning)) (
            field (codes "consolidation") (int (pos c.consolidation))
              (field (codes "synthesis") (int (pos c.synthesis)) end)))))

  abbrev pub influence_value : TurnInfluence F → Value F
  influence_value t = obj (
      field (codes "turn_id") (str t.turn_id) (
        field (codes "slice_count") (int (pos t.slice_count)) (
          field (codes "slice_fraction") (float t.slice_fraction) (
            field (codes "phase_distribution") (counts_value t.phase_distribution)
              (field (codes "is_bridge") (bool t.is_bridge) end)))))

  abbrev pub influence_cmp : TurnInfluence F → TurnInfluence F → Ordering
  influence_cmp a b = list_cmp a.turn_id b.turn_id

  -- `InfluenceScores::new`
  unfoldable pub new_scores : Crypto F → List (TurnInfluence F) → ℕ → InfluenceScores F
  new_scores cr scores total_slices =
      let sorted = sort_by influence_cmp scores in
      record {
        scores = sorted;
        total_slices = total_slices;
        scores_hash = canonical_hash_hex cr (seq (map influence_value sorted));
      }

  -- `InfluenceScores::get`
  unfoldable pub get_influence : InfluenceScores F → Str → Option (TurnInfluence F)
  get_influence s turn_id = find (λ t. same t.turn_id turn_id) s.scores

  unfoldable pub top_influential : InfluenceScores F → ℕ → List (TurnInfluence F)
  top_influential s n = take n (sort_by (λ a b. compare b.slice_count a.slice_count) s.scores)

  unfoldable pub bridge_turns : InfluenceScores F → List (TurnInfluence F)
  bridge_turns s = filter (λ t. t.is_bridge) s.scores

  unfoldable pub with_min_slices : InfluenceScores F → ℕ → List (TurnInfluence F)
  with_min_slices s min = filter (λ t. leb min t.slice_count) s.scores

-- What is known of each turn: its slices, and their phases.
abbrev pub TurnData : Type 0
TurnData = List (Str × (ℕ × PhaseCounts))

-- `or_default`
abbrev pub or_default : Option (ℕ × PhaseCounts) → ℕ × PhaseCounts
or_default none = (0, no_counts)
or_default (some e) = e

-- The two increments.
unfoldable pub count_one : Phase → ℕ × PhaseCounts → ℕ × PhaseCounts
unfolding increment
count_one phase (slice_count, counts) = (add_one slice_count, increment counts phase)

unfoldable pub count_turn : Phase → Str → TurnData → TurnData
unfolding count_one
count_turn phase turn_id turn_data =
    insert turn_id (count_one phase (or_default (get turn_id turn_data))) turn_data

module _ {F : Type 0} where
  abbrev phase_of : Option (TurnSnapshot F) → Phase
  phase_of none = exploration
  phase_of (some t) = t.phase

  -- The phase of the anchor, or the default.
  unfoldable pub anchor_phase : SliceExport F → Phase
  anchor_phase s = phase_of (find (λ t. t.id == s.anchor_turn_id) s.turns)

module _ {F : Type 0} (cr : Crypto F) where
  -- The loop over the turns of a slice.
  unfoldable pub count_turns : Phase → List (TurnSnapshot F) → TurnData → TurnData
  unfolding count_turn
  count_turns phase [] turn_data = turn_data
  count_turns phase (t ∷ turns) turn_data =
      count_turns phase turns (count_turn phase (cr.uuid_string t.id) turn_data)

  -- The loop over the slices.
  unfoldable pub count_slices : List (SliceExport F) → TurnData → TurnData
  unfolding count_turns anchor_phase
  count_slices [] turn_data = turn_data
  count_slices (s ∷ slices) turn_data =
      count_slices slices (count_turns (anchor_phase s) s.turns turn_data)

module _ {F : Type 0} (fl : Floats F) where
  unfoldable pub to_influence : ℕ → Str × (ℕ × PhaseCounts) → TurnInfluence F
  unfolding is_cross_phase
  to_influence total_slices (turn_id, (slice_count, phase_distribution)) = record {
    turn_id = turn_id;
    slice_count = slice_count;
    slice_fraction = fl.div (fl.of_usize slice_count) (fl.of_usize total_slices);
    phase_distribution = phase_distribution;
    is_bridge = is_cross_phase phase_distribution;
  }

  unfoldable pub compute_influence : Crypto F → List (SliceExport F) → InfluenceScores F
  unfolding count_slices new_scores to_influence
  compute_influence cr slices =
      let total_slices = length slices in
      new_scores cr (map (to_influence total_slices) (count_slices cr slices [])) total_slices

-- The pushes of `extract_bridges`.
unfoldable pub phases_of : PhaseCounts → List Phase
phases_of c =
    (if ltb 0 c.exploration then exploration ∷ [] else [])
    ++ ((if ltb 0 c.debugging then debugging ∷ [] else [])
        ++ ((if ltb 0 c.planning then planning ∷ [] else [])
            ++ ((if ltb 0 c.consolidation then consolidation ∷ [] else [])
                ++ (if ltb 0 c.synthesis then synthesis ∷ [] else []))))

unfoldable pub extract_bridges : {F : Type 0} → InfluenceScores F → List BridgeTurn
unfolding bridge_turns phases_of
extract_bridges scores =
    map
      (λ t. record {
        turn_id = t.turn_id;
        bridged_phases = phases_of t.phase_distribution;
        total_appearances = t.slice_count;
      })
      (bridge_turns scores)
