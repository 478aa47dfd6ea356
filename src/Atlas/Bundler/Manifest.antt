-- ===== src/Atlas/Bundler/Manifest.antt =====
-- When a manifest is built, and what it names.
use admissibility_kernel.Base.{
  ◌≡◌, ◌⊎◌, inl, inr, none, some, ok, err, Option-cases, Result-cases, ◌≢◌, arith,
}
use admissibility_kernel.Base.Int.{ℤ}
use admissibility_kernel.Crates.{Crypto}
use admissibility_kernel.Atlas.Snapshot.{GraphSnapshot}
use admissibility_kernel.Atlas.BatchSlicer.{BatchSliceResult}
use admissibility_kernel.Atlas.Overlap.{OverlapGraph}
use admissibility_kernel.Atlas.Influence.{InfluenceScores}
use admissibility_kernel.Atlas.Bundler.{
  AtlasBundler, AtlasManifest, PhaseTopology, Panic, new_manifest, build, try_build,
}

module _ {F : Type 0} (cr : Crypto F) (now : ℤ) (b : AtlasBundler F) where
  -- A part is missing.
  pub data Missing : Type 0 where
    no_snapshot : b.snapshot ≡ none → Missing
    no_batch : b.batch_result ≡ none → Missing
    no_overlaps : b.overlap_graph ≡ none → Missing
    no_scores : b.influence_scores ≡ none → Missing
    no_topology : b.phase_topology ≡ none → Missing

  -- The five parts.
  pub record Complete : Type 0 where
    pub snapshot : GraphSnapshot
    pub batch : BatchSliceResult F
    pub overlaps : OverlapGraph F
    pub scores : InfluenceScores F
    pub topology : PhaseTopology F
    pub has_snapshot : b.snapshot ≡ some snapshot
    pub has_batch : b.batch_result ≡ some batch
    pub has_overlaps : b.overlap_graph ≡ some overlaps
    pub has_scores : b.influence_scores ≡ some scores
    pub has_topology : b.phase_topology ≡ some topology

  parts : Missing ⊎ Complete
  parts = elim (Option-cases b.snapshot) [
    | inl e ↦ inl (no_snapshot e)
    | inr (s, hs) ↦ elim (Option-cases b.batch_result) [
      | inl e ↦ inl (no_batch e)
      | inr (r, hr) ↦ elim (Option-cases b.overlap_graph) [
        | inl e ↦ inl (no_overlaps e)
        | inr (g, hg) ↦ elim (Option-cases b.influence_scores) [
          | inl e ↦ inl (no_scores e)
          | inr (i, hi) ↦ elim (Option-cases b.phase_topology) [
            | inl e ↦ inl (no_topology e)
            | inr (t, ht) ↦ inr (record {
              snapshot = s;
              batch = r;
              overlaps = g;
              scores = i;
              topology = t;
              has_snapshot = hs;
              has_batch = hr;
              has_overlaps = hg;
              has_scores = hi;
              has_topology = ht;
            })
          ]
        ]
      ]
    ]
  ]

  -- The manifest of the parts.
  abbrev pub manifest_of : Complete → AtlasManifest
  manifest_of c =
      new_manifest cr now b.artifact_paths c.snapshot c.batch c.overlaps c.scores c.topology

  build-ne_ok : Missing → (m : AtlasManifest) → build cr now b ≢ ok m
  unfolding build
  build-ne_ok (no_snapshot e) m h = ground arith
  build-ne_ok (no_batch e) m h = ground arith
  build-ne_ok (no_overlaps e) m h = ground arith
  build-ne_ok (no_scores e) m h = ground arith
  build-ne_ok (no_topology e) m h = ground arith

  build-Missing : Missing → (message : Panic) × (build cr now b ≡ err message)
  build-Missing missing = elim (Result-cases (build cr now b)) [
    | inl (m, e) ↦ absurd (build-ne_ok missing m e)
    | inr found ↦ found
  ]

  try_build-Missing : Missing → try_build cr now b ≡ ok none
  unfolding try_build
  try_build-Missing (no_snapshot e) = ground arith
  try_build-Missing (no_batch e) = ground arith
  try_build-Missing (no_overlaps e) = ground arith
  try_build-Missing (no_scores e) = ground arith
  try_build-Missing (no_topology e) = ground arith

  build-Complete : (c : Complete) → build cr now b ≡ ok (manifest_of c)
  unfolding build
  build-Complete c = ground arith

  try_build-Complete : (c : Complete) → try_build cr now b ≡ ok (some (manifest_of c))
  unfolding try_build
  try_build-Complete c = ground arith

  -- `try_build` does not panic. Either a part is missing: then it returns `None`, and `build` panics.
  -- Or both return the manifest of the five parts.
  pub try_build_lem :
      (Missing
        × (try_build cr now b ≡ ok none)
        × ((message : Panic) × (build cr now b ≡ err message)))
      ⊎ ((c : Complete) × (try_build cr now b ≡ ok (some (manifest_of c)))
          × (build cr now b ≡ ok (manifest_of c)))
  try_build_lem = elim parts [
    | inl missing ↦ inl (missing, try_build-Missing missing, build-Missing missing)
    | inr c ↦ inr (c, try_build-Complete c, build-Complete c)
  ]
