-- ===== src/Atlas/Bundler.antt =====
-- src/atlas/bundler.rs: the manifest of an Atlas run. `expect` panics with its message.
pub mod Manifest
use admissibility_kernel.Base.{
  is_none, ℕ, List, [], ◌∷◌, map, Bool, true, false, ◌||◌, Option, none, some, Str, codes, length,
  Result, ok, err, ◌>>=◌, if◌then◌else◌,
}
use admissibility_kernel.Base.Int.{ℤ, pos}
use admissibility_kernel.Crates.{Crypto, Value, int, float, str, obj, end, field}
use admissibility_kernel.Canonical.{seq, canonical_hash_hex}
use admissibility_kernel.Atlas.Snapshot.{GraphSnapshot}
use admissibility_kernel.Atlas.BatchSlicer.{BatchSliceResult}
use admissibility_kernel.Atlas.Overlap.{OverlapGraph}
use admissibility_kernel.Atlas.Influence.{InfluenceScores}
use admissibility_kernel.Atlas.Influence.Topology.{entries_value}

-- `ATLAS_SCHEMA_VERSION` of src/atlas/mod.rs
abbrev pub atlas_schema_version : Str
atlas_schema_version = codes "atlas_v1"

pub record AtlasArtifactPaths : Type 0 where
  pub snapshot : Str
  pub anchors : Str
  pub slices_dir : Str
  pub slice_registry : Str
  pub overlap_graph : Str
  pub turn_influence : Str
  pub phase_topology : Str

abbrev pub default_paths : AtlasArtifactPaths
default_paths = record {
  snapshot = codes "graph_snapshot_v1.json";
  anchors = codes "anchors_v1.jsonl";
  slices_dir = codes "slices_v1/";
  slice_registry = codes "slice_registry_v1.jsonl";
  overlap_graph = codes "overlap_graph_v1.json";
  turn_influence = codes "turn_influence_v1.jsonl";
  phase_topology = codes "phase_topology_v1.json";
}

pub record PhaseTopology (F : Type 0) : Type 0 where
  pub phase_pair_overlaps : List (Str × F)
  pub phase_centroids : List (Str × List Str)
  pub bridge_turn_count : ℕ
  pub topology_hash : Str

-- `PhaseTopology::new`
unfoldable pub new_topology :
    {F : Type 0} → Crypto F → List (Str × F) → List (Str × List Str) → ℕ → PhaseTopology F
new_topology cr overlaps centroids bridge_turn_count = record {
  phase_pair_overlaps = overlaps;
  phase_centroids = centroids;
  bridge_turn_count = bridge_turn_count;
  topology_hash = canonical_hash_hex cr (
      seq (
        obj (entries_value float overlaps)
        ∷ obj (entries_value (λ ids. seq (map str ids)) centroids)
        ∷ int (pos bridge_turn_count)
        ∷ []));
}

pub record AtlasStats : Type 0 where
  pub turn_count : ℕ
  pub edge_count : ℕ
  pub anchor_count : ℕ
  pub slice_count : ℕ
  pub overlap_edge_count : ℕ
  pub bridge_turn_count : ℕ

pub record AtlasManifest : Type 0 where
  pub atlas_id : Str
  pub version : Str
  pub snapshot_id : Str
  pub anchor_set_hash : Str
  pub slice_registry_hash : Str
  pub overlap_graph_hash : Str
  pub turn_influence_hash : Str
  pub phase_topology_hash : Str
  pub computed_at : ℤ
  pub artifact_paths : AtlasArtifactPaths
  pub stats : AtlasStats

pub record AtlasIdInput : Type 0 where
  pub snapshot_id : Str
  pub anchor_set_hash : Str
  pub slice_registry_hash : Str
  pub overlap_graph_hash : Str
  pub turn_influence_hash : Str
  pub phase_topology_hash : Str

-- The derived `Serialize`.
abbrev pub atlas_id_value : {F : Type 0} → AtlasIdInput → Value F
atlas_id_value i = obj (
    field (codes "snapshot_id") (str i.snapshot_id) (
      field (codes "anchor_set_hash") (str i.anchor_set_hash) (
        field (codes "slice_registry_hash") (str i.slice_registry_hash) (
          field (codes "overlap_graph_hash") (str i.overlap_graph_hash) (
            field (codes "turn_influence_hash") (str i.turn_influence_hash)
              (field (codes "phase_topology_hash") (str i.phase_topology_hash) end))))))

pub record AtlasBundler (F : Type 0) : Type 0 where
  pub snapshot : Option GraphSnapshot
  pub batch_result : Option (BatchSliceResult F)
  pub overlap_graph : Option (OverlapGraph F)
  pub influence_scores : Option (InfluenceScores F)
  pub phase_topology : Option (PhaseTopology F)
  pub artifact_paths : AtlasArtifactPaths

-- The message of a panic.
abbrev pub Panic : Type 0
Panic = Str

-- `Option::expect`
abbrev pub expect : {A : Type 0} → Option A → Panic → Result Panic A
expect none message = err message
expect (some a) message = ok a

module _ {F : Type 0} where
  -- `AtlasBundler::new`
  abbrev pub new_bundler : AtlasBundler F
  new_bundler = record {
    snapshot = none;
    batch_result = none;
    overlap_graph = none;
    influence_scores = none;
    phase_topology = none;
    artifact_paths = default_paths;
  }

  unfoldable pub with_paths : AtlasBundler F → AtlasArtifactPaths → AtlasBundler F
  with_paths b paths = record b { artifact_paths = paths }

  unfoldable pub set_snapshot : AtlasBundler F → GraphSnapshot → AtlasBundler F
  set_snapshot b snapshot = record b { snapshot = some snapshot }

  unfoldable pub set_batch_result : AtlasBundler F → BatchSliceResult F → AtlasBundler F
  set_batch_result b result = record b { batch_result = some result }

  unfoldable pub set_overlap_graph : AtlasBundler F → OverlapGraph F → AtlasBundler F
  set_overlap_graph b graph = record b { overlap_graph = some graph }

  unfoldable pub set_influence_scores : AtlasBundler F → InfluenceScores F → AtlasBundler F
  set_influence_scores b scores = record b { influence_scores = some scores }

  unfoldable pub set_phase_topology : AtlasBundler F → PhaseTopology F → AtlasBundler F
  set_phase_topology b topology = record b { phase_topology = some topology }

module _ {F : Type 0} (cr : Crypto F) (now : ℤ) where
  -- The manifest of the five parts.
  unfoldable pub new_manifest :
      AtlasArtifactPaths
      → GraphSnapshot
      → BatchSliceResult F
      → OverlapGraph F
      → InfluenceScores F
      → PhaseTopology F
      → AtlasManifest
  new_manifest paths snapshot batch_result overlap_graph influence_scores phase_topology =
      let atlas_id_input : AtlasIdInput = record {
        snapshot_id = snapshot.snapshot_id;
        anchor_set_hash = batch_result.anchor_set_hash;
        slice_registry_hash = batch_result.registry.registry_hash;
        overlap_graph_hash = overlap_graph.graph_hash;
        turn_influence_hash = influence_scores.scores_hash;
        phase_topology_hash = phase_topology.topology_hash;
      } in
      let stats : AtlasStats = record {
        turn_count = snapshot.turn_count;
        edge_count = snapshot.edge_count;
        anchor_count = length batch_result.registry.entries;
        slice_count = length batch_result.slices;
        overlap_edge_count = length overlap_graph.edges;
        bridge_turn_count = phase_topology.bridge_turn_count;
      } in
      record {
        atlas_id = canonical_hash_hex cr (atlas_id_value atlas_id_input);
        version = atlas_schema_version;
        snapshot_id = snapshot.snapshot_id;
        anchor_set_hash = batch_result.anchor_set_hash;
        slice_registry_hash = batch_result.registry.registry_hash;
        overlap_graph_hash = overlap_graph.graph_hash;
        turn_influence_hash = influence_scores.scores_hash;
        phase_topology_hash = phase_topology.topology_hash;
        computed_at = now;
        artifact_paths = paths;
        stats = stats;
      }

  -- `AtlasBundler::build`
  unfoldable pub build : AtlasBundler F → Result Panic AtlasManifest
  unfolding new_manifest
  build b = do
    snapshot ← expect b.snapshot (codes "snapshot is required")
    batch_result ← expect b.batch_result (codes "batch_result is required")
    overlap_graph ← expect b.overlap_graph (codes "overlap_graph is required")
    influence_scores ← expect b.influence_scores (codes "influence_scores is required")
    phase_topology ← expect b.phase_topology (codes "phase_topology is required")
    ok (
        new_manifest b.artifact_paths snapshot batch_result overlap_graph influence_scores
          phase_topology)

  -- `AtlasBundler::try_build`
  unfoldable pub try_build : AtlasBundler F → Result Panic (Option AtlasManifest)
  unfolding build
  try_build b =
      if is_none b.snapshot
        || (is_none b.batch_result
            || (is_none b.overlap_graph
                || (is_none b.influence_scores || is_none b.phase_topology)))
      then ok none
      else build b >>= λ manifest. ok (some manifest)
