-- ===== src/Types/Provenance.antt =====
-- src/types/provenance.rs: what a retrieval has to record to be replayed. Its builder is in `Builder`.
pub mod Replay
pub mod Builder
use admissibility_kernel.Base.{
  ℕ, List, [], ◌∷◌, ◌++◌, Bool, true, false, not, ◌&&◌, Option, none, some, Ordering, Str, codes,
  as_bytes, hex_digits, str_eq, show_usize, is_empty, Result, ok, err, ◌>>=◌, ◌==◌,
}
use admissibility_kernel.Base.Int.{ℤ}
use admissibility_kernel.Base.Order.{nat_ord, list_ord}
use admissibility_kernel.Base.Tree.{insert}
use admissibility_kernel.Crates.{Floats, Crypto}
use admissibility_kernel.Types.Slice.{GraphSnapshotHash}

pub record EmbeddingModelRef : Type 0 where
  pub model_id : Str
  pub version : Str
  pub dimensions : ℕ
  pub quantization : Option Str
  pub deterministic : Bool

unfoldable pub new_model : Str → Str → ℕ → EmbeddingModelRef
new_model model_id version dimensions = record {
  model_id = model_id;
  version = version;
  dimensions = dimensions;
  quantization = none;
  deterministic = true;
}

unfoldable pub with_quantization : EmbeddingModelRef → Str → EmbeddingModelRef
with_quantization m quantization = record m { quantization = some quantization }

unfoldable pub non_deterministic : EmbeddingModelRef → EmbeddingModelRef
non_deterministic m = record m { deterministic = false }

unfoldable pub to_ref_string : EmbeddingModelRef → Str
to_ref_string m =
    let quant : Str = elim m.quantization [ none ↦ codes "none" | some q ↦ q ] in
    m.model_id
    ++ (codes "@"
        ++ (m.version ++ (codes ":d" ++ (show_usize m.dimensions ++ (codes ":q" ++ quant)))))

pub record NormalizationVersion : Type 0 where
  pub version : Str
  pub config_hash : Str
  pub features : List Str

unfoldable pub new_normalization : Str → Str → NormalizationVersion
new_normalization version config_hash = record {
  version = version;
  config_hash = config_hash;
  features = [];
}

unfoldable pub with_features : NormalizationVersion → List Str → NormalizationVersion
with_features n features = record n { features = features }

-- `CANONICAL_CONTENT_VERSION` of src/canonical_content.rs
abbrev pub canonical_content_version : Str
canonical_content_version = codes "1.0.0"

-- `NormalizationVersion::current`
abbrev pub current_normalization : NormalizationVersion
current_normalization = record {
  version = codes "1.0.0";
  config_hash = canonical_content_version;
  features = codes "crlf_to_lf" ∷ codes "trim_whitespace" ∷ codes "utf8_encode" ∷ [];
}

pub record RetrievalParams (F : Type 0) : Type 0 where
  pub k : ℕ
  pub similarity_threshold : F
  pub reranking_enabled : Bool
  pub reranker_model : Option Str
  pub max_context_tokens : Option ℕ
  pub slice_policy_version : Str
  pub policy_params_hash : Str

module _ {F : Type 0} where
  -- `RetrievalParams::new`
  unfoldable pub new_params : ℕ → F → Str → RetrievalParams F
  new_params k similarity_threshold policy_version = record {
    k = k;
    similarity_threshold = similarity_threshold;
    reranking_enabled = false;
    reranker_model = none;
    max_context_tokens = none;
    slice_policy_version = policy_version;
    policy_params_hash = [];
  }

  unfoldable pub with_reranking : RetrievalParams F → Str → RetrievalParams F
  with_reranking p model = record p { reranking_enabled = true; reranker_model = some model }

  unfoldable pub with_max_tokens : RetrievalParams F → ℕ → RetrievalParams F
  with_max_tokens p tokens = record p { max_context_tokens = some tokens }

  unfoldable pub with_policy_params_hash : RetrievalParams F → Str → RetrievalParams F
  with_policy_params_hash p hash = record p { policy_params_hash = hash }

pub record ReplayProvenance (F : Type 0) : Type 0 where
  pub timestamp : ℤ
  pub embedding_model : EmbeddingModelRef
  pub normalization : NormalizationVersion
  pub retrieval_params : RetrievalParams F
  pub graph_snapshot : GraphSnapshotHash
  pub slice_fingerprint : Str
  pub query_vector_hash : Option Str
  pub metadata : List (Str × Str)

-- The derived `PartialEq`, field by field.
module _ {A : Type 0} (same : A → A → Bool) where
  abbrev pub same_option : Option A → Option A → Bool
  same_option none none = true
  same_option (some a) (some b) = same a b
  same_option _ _ = false

  abbrev pub same_list : List A → List A → Bool
  same_list [] [] = true
  same_list (a ∷ as_) (b ∷ bs) = same a b && same_list as_ bs
  same_list _ _ = false

abbrev pub same_bool : Bool → Bool → Bool
same_bool true b = b
same_bool false b = not b

abbrev pub is_equal : Option Ordering → Bool
is_equal (some Ordering.eq) = true
is_equal _ = false

abbrev pub same_model : EmbeddingModelRef → EmbeddingModelRef → Bool
same_model m n =
    str_eq m.model_id n.model_id
    && (str_eq m.version n.version
        && (m.dimensions == n.dimensions
            && (same_option str_eq m.quantization n.quantization
                && same_bool m.deterministic n.deterministic)))

abbrev pub same_normalization : NormalizationVersion → NormalizationVersion → Bool
same_normalization m n =
    str_eq m.version n.version
    && (str_eq m.config_hash n.config_hash && same_list str_eq m.features n.features)

module _ {F : Type 0} where
  abbrev pub same_params : Floats F → RetrievalParams F → RetrievalParams F → Bool
  same_params fl p q =
      p.k == q.k
      && (is_equal (fl.partial_cmp p.similarity_threshold q.similarity_threshold)
          && (same_bool p.reranking_enabled q.reranking_enabled
              && (same_option str_eq p.reranker_model q.reranker_model
                  && (same_option (λ a b. a == b) p.max_context_tokens q.max_context_tokens
                      && (str_eq p.slice_policy_version q.slice_policy_version
                          && str_eq p.policy_params_hash q.policy_params_hash)))))

  unfoldable pub is_complete : ReplayProvenance F → Bool
  is_complete p =
      not (is_empty p.embedding_model.model_id)
      && (not (is_empty p.normalization.version)
          && (not (is_empty p.retrieval_params.slice_policy_version)
              && not (is_empty p.slice_fingerprint)))

  unfoldable pub is_deterministic : ReplayProvenance F → Bool
  is_deterministic p = p.embedding_model.deterministic

  -- What is hashed.
  unfoldable pub fingerprint_data : ReplayProvenance F → Str
  unfolding to_ref_string
  fingerprint_data p =
      to_ref_string p.embedding_model
      ++ (codes "|"
          ++ (p.normalization.version
              ++ (codes "|"
                  ++ (p.retrieval_params.slice_policy_version
                      ++ (codes "|"
                          ++ (p.retrieval_params.policy_params_hash
                              ++ (codes "|" ++ p.graph_snapshot)))))))

  unfoldable pub fingerprint : Crypto F → ReplayProvenance F → Str
  unfolding fingerprint_data
  fingerprint cr p = hex_digits 16 (cr.xxh64 (as_bytes (fingerprint_data p)))

  unfoldable pub is_replay_compatible : Floats F → ReplayProvenance F → ReplayProvenance F → Bool
  is_replay_compatible fl p q =
      same_model p.embedding_model q.embedding_model
      && (same_normalization p.normalization q.normalization
          && (same_params fl p.retrieval_params q.retrieval_params
              && str_eq p.graph_snapshot q.graph_snapshot))
