-- ===== src/Types/Provenance/Builder.antt =====
-- `ProvenanceBuilder` of src/types/provenance.rs.
pub mod Outcome
use admissibility_kernel.Base.{
  ℕ, List, [], ◌∷◌, ◌++◌, Bool, true, false, not, ◌&&◌, Option, none, some, Ordering, Str, codes,
  as_bytes, hex_digits, str_eq, show_usize, is_empty, Result, ok, err, ◌>>=◌, ◌==◌,
}
use admissibility_kernel.Base.Int.{ℤ}
use admissibility_kernel.Base.Order.{nat_ord, list_ord}
use admissibility_kernel.Base.Tree.{insert}
use admissibility_kernel.Crates.{Floats, Crypto}
use admissibility_kernel.Types.Slice.{GraphSnapshotHash}
use admissibility_kernel.Types.Provenance.{
  EmbeddingModelRef, NormalizationVersion, RetrievalParams, ReplayProvenance,
}

pub data ProvenanceError : Type 0 where
  missing_field : Str → ProvenanceError
  invalid_value : Str → Str → ProvenanceError

pub record ProvenanceBuilder (F : Type 0) : Type 0 where
  pub embedding_model : Option EmbeddingModelRef
  pub normalization : Option NormalizationVersion
  pub retrieval_params : Option (RetrievalParams F)
  pub graph_snapshot : Option GraphSnapshotHash
  pub slice_fingerprint : Option Str
  pub query_vector_hash : Option Str
  pub metadata : List (Str × Str)

-- `Display`
unfoldable pub show_provenance_error : ProvenanceError → Str
show_provenance_error (missing_field field_name) =
    codes "Missing required provenance field: " ++ field_name
show_provenance_error (invalid_value field_name reason) =
    codes "Invalid provenance value for " ++ (field_name ++ (codes ": " ++ reason))

-- `ok_or_else`
abbrev pub require : {A : Type 0} → Option A → Str → Result ProvenanceError A
require none field_name = err (missing_field field_name)
require (some a) field_name = ok a

module _ {F : Type 0} where
  -- `ProvenanceBuilder::new`
  abbrev pub new_builder : ProvenanceBuilder F
  new_builder = record {
    embedding_model = none;
    normalization = none;
    retrieval_params = none;
    graph_snapshot = none;
    slice_fingerprint = none;
    query_vector_hash = none;
    metadata = [];
  }

  unfoldable pub set_embedding_model : ProvenanceBuilder F → EmbeddingModelRef → ProvenanceBuilder F
  set_embedding_model b model = record b { embedding_model = some model }

  unfoldable pub set_normalization :
      ProvenanceBuilder F → NormalizationVersion → ProvenanceBuilder F
  set_normalization b norm = record b { normalization = some norm }

  unfoldable pub set_retrieval_params :
      ProvenanceBuilder F → RetrievalParams F → ProvenanceBuilder F
  set_retrieval_params b params = record b { retrieval_params = some params }

  unfoldable pub set_graph_snapshot : ProvenanceBuilder F → GraphSnapshotHash → ProvenanceBuilder F
  set_graph_snapshot b snapshot = record b { graph_snapshot = some snapshot }

  unfoldable pub set_slice_fingerprint : ProvenanceBuilder F → Str → ProvenanceBuilder F
  set_slice_fingerprint b fingerprint = record b { slice_fingerprint = some fingerprint }

  unfoldable pub set_query_vector_hash : ProvenanceBuilder F → Str → ProvenanceBuilder F
  set_query_vector_hash b hash = record b { query_vector_hash = some hash }

  -- `ProvenanceBuilder::metadata`
  unfoldable pub add_metadata : ProvenanceBuilder F → Str → Str → ProvenanceBuilder F
  add_metadata b key value = record b { metadata = insert key value b.metadata }

  -- `ProvenanceBuilder::build`, at the time `now`
  unfoldable pub build : ℤ → ProvenanceBuilder F → Result ProvenanceError (ReplayProvenance F)
  build now b = do
    embedding_model ← require b.embedding_model (codes "embedding_model")
    normalization ← require b.normalization (codes "normalization")
    retrieval_params ← require b.retrieval_params (codes "retrieval_params")
    graph_snapshot ← require b.graph_snapshot (codes "graph_snapshot")
    slice_fingerprint ← require b.slice_fingerprint (codes "slice_fingerprint")
    ok (record {
      timestamp = now;
      embedding_model = embedding_model;
      normalization = normalization;
      retrieval_params = retrieval_params;
      graph_snapshot = graph_snapshot;
      slice_fingerprint = slice_fingerprint;
      query_vector_hash = b.query_vector_hash;
      metadata = b.metadata;
    })
