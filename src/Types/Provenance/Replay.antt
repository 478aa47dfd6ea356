-- ===== src/Types/Provenance/Replay.antt =====
-- Retrievals that can be replayed for each other have one fingerprint.
use admissibility_kernel.Base.{
  ◌≡◌, refl, ap, Option, none, some, true, ◌==◌, Bool, ◌&&◌, hex_digits, as_bytes, Str, str_eq,
  eq_of_str_eq, ==→eq, arith,
}
use admissibility_kernel.Crates.{Floats, Crypto}
use admissibility_kernel.Types.Provenance.{
  EmbeddingModelRef, same_model, RetrievalParams, same_params, same_bool, is_equal,
  ReplayProvenance, fingerprint, fingerprint_data, to_ref_string, is_replay_compatible, same_option,
}

same_option-eq : (q r : Option Str) → same_option str_eq q r ≡ true → q ≡ r
same_option-eq none none h = refl
same_option-eq (some q) (some r) h = ap some (eq_of_str_eq q r h)
same_option-eq _ _ h = ground arith

both : {a b : Bool} → (a && b) ≡ true → (a ≡ true) × (b ≡ true)
both {a} {b} h = (ground arith, ground arith)

last_two :
    (a b c d e f g : Bool)
    → (a && (b && (c && (d && (e && (f && g)))))) ≡ true
    → (f ≡ true) × (g ≡ true)
last_two a b c d e f g h = ground arith

to_ref_string-eq :
    (m n : EmbeddingModelRef) → same_model m n ≡ true → to_ref_string m ≡ to_ref_string n
unfolding to_ref_string
to_ref_string-eq m n h =
    let rest = both h in
    let more = both rest.1 in
    let last = both more.1 in
    let id : m.model_id ≡ n.model_id = eq_of_str_eq m.model_id n.model_id rest.0 in
    let version : m.version ≡ n.version = eq_of_str_eq m.version n.version more.0 in
    let dimensions : m.dimensions ≡ n.dimensions = ==→eq m.dimensions n.dimensions last.0 in
    let quantization : m.quantization ≡ n.quantization =
      same_option-eq m.quantization n.quantization (both last.1).0 in
    cc

module _ {F : Type 0} (fl : Floats F) where
  same_params-eq :
      (p q : RetrievalParams F)
      → same_params fl p q ≡ true
      → (p.slice_policy_version ≡ q.slice_policy_version)
        × (p.policy_params_hash ≡ q.policy_params_hash)
  same_params-eq p q h =
      let texts : (str_eq p.slice_policy_version q.slice_policy_version ≡ true)
          × (str_eq p.policy_params_hash q.policy_params_hash ≡ true) =
        last_two (p.k == q.k)
          (is_equal (fl.partial_cmp p.similarity_threshold q.similarity_threshold))
          (same_bool p.reranking_enabled q.reranking_enabled)
          (same_option str_eq p.reranker_model q.reranker_model)
          (same_option (λ a b. a == b) p.max_context_tokens q.max_context_tokens)
          (str_eq p.slice_policy_version q.slice_policy_version)
          (str_eq p.policy_params_hash q.policy_params_hash) h in
      (
        eq_of_str_eq p.slice_policy_version q.slice_policy_version texts.0,
        eq_of_str_eq p.policy_params_hash q.policy_params_hash texts.1,
      )

  fingerprint_data-eq :
      (p q : ReplayProvenance F)
      → is_replay_compatible fl p q ≡ true
      → fingerprint_data p ≡ fingerprint_data q
  unfolding fingerprint_data is_replay_compatible
  fingerprint_data-eq p q h =
      let outer = both h in
      let inner = both outer.1 in
      let last = both inner.1 in
      let policy = same_params-eq p.retrieval_params q.retrieval_params last.0 in
      let model : to_ref_string p.embedding_model ≡ to_ref_string q.embedding_model =
        to_ref_string-eq p.embedding_model q.embedding_model outer.0 in
      let version : p.normalization.version ≡ q.normalization.version =
        eq_of_str_eq p.normalization.version q.normalization.version (both inner.0).0 in
      let policy_version : p.retrieval_params.slice_policy_version
          ≡ q.retrieval_params.slice_policy_version =
        policy.0 in
      let hash : p.retrieval_params.policy_params_hash ≡ q.retrieval_params.policy_params_hash =
        policy.1 in
      let snapshot : p.graph_snapshot ≡ q.graph_snapshot =
        eq_of_str_eq p.graph_snapshot q.graph_snapshot last.1 in
      cc

  -- Retrievals that are compatible for a replay have the same fingerprint.
  pub fingerprint-eq_of_compatible :
      (cr : Crypto F) (p q : ReplayProvenance F)
      → is_replay_compatible fl p q ≡ true
      → fingerprint cr p ≡ fingerprint cr q
  unfolding fingerprint
  fingerprint-eq_of_compatible cr p q h =
      ap (λ text. hex_digits 16 (cr.xxh64 (as_bytes text))) (fingerprint_data-eq p q h)
