-- ===== src/Policy/V1.antt =====
-- src/policy/v1.rs: phase weights, policy parameters and their hash.
use admissibility_kernel.Base.{ℕ, Bool, true, Str, codes}
use admissibility_kernel.Base.Int.{ℤ, pos}
use admissibility_kernel.Crates.{Floats, clamp, Crypto, Value, int, bool, str, obj, end, field}
use admissibility_kernel.Canonical.{canonical_hash_hex}
use admissibility_kernel.Types.Phase.{
  Phase, exploration, debugging, planning, consolidation, synthesis,
}

-- `DEFAULT_POLICY_VERSION` of src/lib.rs
abbrev pub default_policy_version : Str
default_policy_version = codes "slice_policy_v1"

pub record PhaseWeights (F : Type 0) : Type 0 where
  pub synthesis : F
  pub planning : F
  pub consolidation : F
  pub debugging : F
  pub exploration : F

-- `PhaseWeights::get`
unfoldable pub get : {F : Type 0} → PhaseWeights F → Phase → F
get w synthesis = w.synthesis
get w planning = w.planning
get w consolidation = w.consolidation
get w debugging = w.debugging
get w exploration = w.exploration

pub record SlicePolicyV1 (F : Type 0) : Type 0 where
  pub version : Str
  pub max_nodes : ℕ
  pub max_radius : ℕ
  pub phase_weights : PhaseWeights F
  pub salience_weight : F
  pub distance_decay : F
  pub include_siblings : Bool
  pub max_siblings_per_node : ℕ

pub record QuantizedPhaseWeights : Type 0 where
  pub synthesis : ℤ
  pub planning : ℤ
  pub consolidation : ℤ
  pub debugging : ℤ
  pub exploration : ℤ

pub record QuantizedPolicyParams : Type 0 where
  pub version : Str
  pub max_nodes : ℕ
  pub max_radius : ℕ
  pub phase_weights : QuantizedPhaseWeights
  pub salience_weight : ℤ
  pub distance_decay : ℤ
  pub include_siblings : Bool
  pub max_siblings_per_node : ℕ

module _ {F : Type 0} (fl : Floats F) where
  -- `Default for PhaseWeights`
  unfoldable pub default_weights : PhaseWeights F
  default_weights = record {
    synthesis = fl.decimal 10 1;
    planning = fl.decimal 9 1;
    consolidation = fl.decimal 6 1;
    debugging = fl.decimal 5 1;
    exploration = fl.decimal 3 1;
  }

  -- `FLOAT_QUANTIZATION_FACTOR` is 1e6.
  unfoldable pub quantize_float : F → ℤ
  quantize_float value = fl.scaled value 1000000

  unfoldable pub quantize_weights : PhaseWeights F → QuantizedPhaseWeights
  quantize_weights w = record {
    synthesis = quantize_float w.synthesis;
    planning = quantize_float w.planning;
    consolidation = quantize_float w.consolidation;
    debugging = quantize_float w.debugging;
    exploration = quantize_float w.exploration;
  }

  unfoldable pub new : ℕ → ℕ → PhaseWeights F → F → F → Bool → ℕ → SlicePolicyV1 F
  new nodes radius weights salience decay siblings limit =
      let zero_one = λ (x : F). clamp fl x (fl.decimal 0 0) (fl.decimal 1 0) in
      record {
        version = default_policy_version;
        max_nodes = nodes;
        max_radius = radius;
        phase_weights = weights;
        salience_weight = zero_one salience;
        distance_decay = zero_one decay;
        include_siblings = siblings;
        max_siblings_per_node = limit;
      }

  unfoldable pub to_quantized : SlicePolicyV1 F → QuantizedPolicyParams
  unfolding quantize_weights quantize_float
  to_quantized p = record {
    version = p.version;
    max_nodes = p.max_nodes;
    max_radius = p.max_radius;
    phase_weights = quantize_weights p.phase_weights;
    salience_weight = quantize_float p.salience_weight;
    distance_decay = quantize_float p.distance_decay;
    include_siblings = p.include_siblings;
    max_siblings_per_node = p.max_siblings_per_node;
  }

  -- `Default for SlicePolicyV1`
  unfoldable pub default : SlicePolicyV1 F
  unfolding default_weights
  default = record {
    version = default_policy_version;
    max_nodes = 256;
    max_radius = 10;
    phase_weights = default_weights;
    salience_weight = fl.decimal 3 1;
    distance_decay = fl.decimal 9 1;
    include_siblings = true;
    max_siblings_per_node = 5;
  }

-- `SlicePolicyV1::policy_id`
unfoldable pub policy_id : {F : Type 0} → SlicePolicyV1 F → Str
policy_id p = p.version

module _ {F : Type 0} where
  -- The derived `Serialize` of the two structs.
  abbrev pub weights_value : QuantizedPhaseWeights → Value F
  weights_value w = obj (
      field (codes "synthesis") (int w.synthesis) (
        field (codes "planning") (int w.planning) (
          field (codes "consolidation") (int w.consolidation) (
            field (codes "debugging") (int w.debugging)
              (field (codes "exploration") (int w.exploration) end)))))

  abbrev pub params_value : QuantizedPolicyParams → Value F
  params_value p = obj (
      field (codes "version") (str p.version) (
        field (codes "max_nodes") (int (pos p.max_nodes)) (
          field (codes "max_radius") (int (pos p.max_radius)) (
            field (codes "phase_weights") (weights_value p.phase_weights) (
              field (codes "salience_weight") (int p.salience_weight) (
                field (codes "distance_decay") (int p.distance_decay) (
                  field (codes "include_siblings") (bool p.include_siblings) (
                    field (codes "max_siblings_per_node") (int (pos p.max_siblings_per_node))
                      end))))))))

  unfoldable pub params_hash : Floats F → Crypto F → SlicePolicyV1 F → Str
  unfolding to_quantized
  params_hash fl cr p = canonical_hash_hex cr (params_value (to_quantized fl p))
