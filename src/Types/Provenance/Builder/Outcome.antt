-- ===== src/Types/Provenance/Builder/Outcome.antt =====
-- When a provenance is built in src/types/provenance.rs.
use admissibility_kernel.Base.{
  ◌≡◌, refl, List, [], ◌∷◌, Option, none, some, Str, codes, Result, ok, err,
}
use admissibility_kernel.Base.Int.{ℤ}
use admissibility_kernel.Types.Provenance.{
  EmbeddingModelRef, NormalizationVersion, RetrievalParams, ReplayProvenance,
}
use admissibility_kernel.Types.Provenance.Builder.{
  ProvenanceError, missing_field, ProvenanceBuilder, build,
}
use admissibility_kernel.Types.Slice.{GraphSnapshotHash}

-- The name in front, when the field is missing.
unfoldable pub named : {A : Type 0} → Str → Option A → List Str → List Str
named name none names = name ∷ names
named _ (some _) names = names

module _ {F : Type 0} where
  -- The provenance has what the builder was given.
  pub record IsBuilt (now : ℤ) (b : ProvenanceBuilder F) (p : ReplayProvenance F) : Type 0 where
    pub at : p.timestamp ≡ now
    pub model : b.embedding_model ≡ some p.embedding_model
    pub normal : b.normalization ≡ some p.normalization
    pub params : b.retrieval_params ≡ some p.retrieval_params
    pub snapshot : b.graph_snapshot ≡ some p.graph_snapshot
    pub slice : b.slice_fingerprint ≡ some p.slice_fingerprint
    pub query : p.query_vector_hash ≡ b.query_vector_hash
    pub notes : p.metadata ≡ b.metadata

  -- The names of the required fields that are missing, in the order of the fields.
  abbrev pub missing : ProvenanceBuilder F → List Str
  missing b = named (codes "embedding_model") b.embedding_model (
      named (codes "normalization") b.normalization (
        named (codes "retrieval_params") b.retrieval_params (
          named (codes "graph_snapshot") b.graph_snapshot
            (named (codes "slice_fingerprint") b.slice_fingerprint []))))

  -- What `build` returns, by the names of what is missing.
  abbrev pub IsOutcome :
      ℤ → ProvenanceBuilder F → List Str → Result ProvenanceError (ReplayProvenance F) → Type 0
  IsOutcome now b [] r = (p : ReplayProvenance F) × (r ≡ ok p) × IsBuilt now b p
  IsOutcome now b (name ∷ _) r = r ≡ err (missing_field name)

  abbrev with_parts :
      Option EmbeddingModelRef
      → Option NormalizationVersion
      → Option (RetrievalParams F)
      → Option GraphSnapshotHash
      → Option Str
      → Option Str
      → List (Str × Str)
      → ProvenanceBuilder F
  with_parts model norm params snapshot slice query notes = record {
    embedding_model = model;
    normalization = norm;
    retrieval_params = params;
    graph_snapshot = snapshot;
    slice_fingerprint = slice;
    query_vector_hash = query;
    metadata = notes;
  }

  abbrev HasOutcome : ℤ → ProvenanceBuilder F → Type 0
  HasOutcome now b = IsOutcome now b (missing b) (build now b)

  parts-HasOutcome :
      (now : ℤ) (model : Option EmbeddingModelRef) (norm : Option NormalizationVersion)
      (params : Option (RetrievalParams F)) (snapshot : Option GraphSnapshotHash)
      (slice query : Option Str) (notes : List (Str × Str))
      → HasOutcome now (with_parts model norm params snapshot slice query notes)
  unfolding build named
  parts-HasOutcome now none norm params snapshot slice query notes = refl
  parts-HasOutcome now (some m) none params snapshot slice query notes = refl
  parts-HasOutcome now (some m) (some n) none snapshot slice query notes = refl
  parts-HasOutcome now (some m) (some n) (some p) none slice query notes = refl
  parts-HasOutcome now (some m) (some n) (some p) (some g) none query notes = refl
  parts-HasOutcome now (some m) (some n) (some p) (some g) (some s) query notes = (
    _,
    refl,
    record {
      at = refl;
      model = refl;
      normal = refl;
      params = refl;
      snapshot = refl;
      slice = refl;
      query = refl;
      notes = refl;
    },
  )

  -- With every required field set, `build` returns a provenance of what the builder holds and
  -- the time; otherwise the error names the first of the missing fields, in their order.
  pub build_lem : (now : ℤ) (b : ProvenanceBuilder F) → IsOutcome now b (missing b) (build now b)
  build_lem now b =
      parts-HasOutcome now b.embedding_model b.normalization b.retrieval_params b.graph_snapshot
        b.slice_fingerprint b.query_vector_hash b.metadata
