-- ===== src/Service/Routes/Promises.antt =====
-- What a client of src/service/routes.rs may rely on.
use admissibility_kernel.Base.{
  ◌<◌, ◌^◌, ◌≡◌, sym, ap, subst, ◌∙◌, inl, inr, true, Option, none, some, Str, ok, Option-cases,
  Result-cases, arith,
}
use admissibility_kernel.Base.Int.{ℤ}
use admissibility_kernel.Crates.{Floats, Crypto, CryptoLaws}
use admissibility_kernel.Types.Turn.{TurnId}
use admissibility_kernel.Types.Slice.{SliceExport, new_with_secret, verify_token}
use admissibility_kernel.Types.Admissible.{AdmissibleEvidenceBundle}
use admissibility_kernel.Policy.V1.{SlicePolicyV1, policy_id, params_hash}
use admissibility_kernel.Slicer.{slice}
use admissibility_kernel.Slicer.Ends.{slice_returns}
use admissibility_kernel.Slicer.Sound.{slice-Origin}
use admissibility_kernel.Slicer.Bundle.{slice_verifies}
use admissibility_kernel.Service.State.{PolicyRef, from_policy, resolve, ServiceState}
use admissibility_kernel.Service.State.Registry.{Built, registry-WellFormed}
use admissibility_kernel.Service.Messages.{
  SliceRequest, SliceExportDto, SliceResponse, VerifyTokenRequest,
}
use admissibility_kernel.Service.Routes.{
  to_dto, verify_token_handler, choose_policy, respond, slice_handler,
}

-- The request that asks about the slice of a response.
abbrev pub ask : SliceExportDto → VerifyTokenRequest
ask d = record {
  admissibility_token = d.admissibility_token;
  slice_id = d.slice_id;
  anchor_turn_id = d.anchor_turn_id;
  policy_id = d.policy_id;
  policy_params_hash = d.policy_params_hash;
  graph_snapshot_hash = d.graph_snapshot_hash;
  schema_version = d.schema_version;
}

module _ {F E : Type 0} (fl : Floats F) (cr : Crypto F) (st : ServiceState F E) (now : ℤ)
    (uuid_error : Str → Str) (debug_ref : PolicyRef → Str) where
  -- How a request comes to a response.
  pub record Served (request : SliceRequest) (resp : SliceResponse) : Type 0 where
    pub anchor_id : TurnId
    pub policy : SlicePolicyV1 F
    pub bundle : AdmissibleEvidenceBundle F
    pub parsed : cr.parse_uuid request.anchor_turn_id ≡ some anchor_id
    pub chosen :
        choose_policy fl cr debug_ref st.policy_registry request.policy_ref
        ≡ ok (policy, resp.policy_ref)
    pub sliced : slice fl cr st.store policy st.hmac_secret now anchor_id ≡ some (ok bundle)
    pub sent : resp.slice ≡ to_dto cr bundle.slice

  pub slice_handler-Served :
      (request : SliceRequest) (resp : SliceResponse)
      → slice_handler fl cr uuid_error debug_ref now st request ≡ some (ok resp)
      → Served request resp
  unfolding slice_handler respond
  slice_handler-Served request resp h = elim (Option-cases (cr.parse_uuid request.anchor_turn_id)) [
    | inl bad ↦ absurd (ground (arith, bad))
    | inr (a, parsed) ↦
        elim (Result-cases (choose_policy fl cr debug_ref st.policy_registry request.policy_ref)) [
          | inr (f, bad) ↦ absurd (ground (arith, parsed, bad))
          | inl ((policy, ref), chosen) ↦
              let (r, ends) = slice_returns fl cr st.store policy st.hmac_secret now a in
              elim (Result-cases r) [
                | inr (e, bad) ↦ absurd (ground (arith, parsed, chosen, ends, bad))
                | inl (b, good) ↦
                    let same : record { slice = to_dto cr b.slice; policy_ref = ref } ≡ resp =
                      ground (arith, parsed, chosen, ends, good) in
                    record {
                      anchor_id = a;
                      policy = policy;
                      bundle = b;
                      parsed = parsed;
                      chosen = chosen ∙ ap (λ x. ok (policy, x.policy_ref)) same;
                      sliced = ends ∙ ap some good;
                      sent = sym (ap (λ x. x.slice) same);
                    }
              ]
        ]
  ]

module _ {F E : Type 0} (fl : Floats F) (cr : Crypto F) (laws : CryptoLaws cr) where
  verify-to_dto :
      (st : ServiceState F E) (s : SliceExport F)
      → s.anchor_turn_id < 2 ^ 128
      → (verify_token_handler cr st (ask (to_dto cr s))).valid ≡ verify_token cr s st.hmac_secret
  unfolding verify_token_handler to_dto verify_token
  verify-to_dto st s range = ground (arith, laws.parse-uuid_string s.anchor_turn_id range)

  module _ (st : ServiceState F E) (now : ℤ) where
    slice-anchor :
        (policy : SlicePolicyV1 F) (anchor_id : TurnId) (b : AdmissibleEvidenceBundle F)
        → slice fl cr st.store policy st.hmac_secret now anchor_id ≡ some (ok b)
        → (b.slice.anchor_turn_id ≡ anchor_id)
          × (b.slice.policy_id ≡ policy_id policy)
          × (b.slice.policy_params_hash ≡ params_hash fl cr policy)
    unfolding new_with_secret
    slice-anchor policy anchor_id b h =
        let o = slice-Origin fl cr st.store policy st.hmac_secret now anchor_id laws b h in
        (
          ap (λ x. x.slice.anchor_turn_id) o.is_bundled,
          ap (λ x. x.slice.policy_id) o.is_bundled,
          ap (λ x. x.slice.policy_params_hash) o.is_bundled,
        )

    -- A bundle's slice, sent out and asked about, is valid.
    pub bundle-valid :
        (policy : SlicePolicyV1 F) (anchor_id : TurnId) (b : AdmissibleEvidenceBundle F)
        → anchor_id < 2 ^ 128
        → slice fl cr st.store policy st.hmac_secret now anchor_id ≡ some (ok b)
        → (verify_token_handler cr st (ask (to_dto cr b.slice))).valid ≡ true
    bundle-valid policy anchor_id b range h =
        let (e, _, _) = slice-anchor policy anchor_id b h in
        verify-to_dto st b.slice (subst (λ a. a < 2 ^ 128) (sym e) range)
        ∙ slice_verifies fl cr laws st.store policy st.hmac_secret now anchor_id b h

    module _ (uuid_error : Str → Str) (debug_ref : PolicyRef → Str) where
      -- A slice that the service responds with is valid when it is sent back to be verified.
      pub slice_handler_valid :
          (request : SliceRequest) (resp : SliceResponse)
          → slice_handler fl cr uuid_error debug_ref now st request ≡ some (ok resp)
          → (verify_token_handler cr st (ask resp.slice)).valid ≡ true
      slice_handler_valid request resp h =
          let s = slice_handler-Served fl cr st now uuid_error debug_ref request resp h in
          subst (λ d. (verify_token_handler cr st (ask d)).valid ≡ true) (sym s.sent)
            (bundle-valid s.policy s.anchor_id s.bundle
              (laws.parse-range request.anchor_turn_id s.anchor_id s.parsed) s.sliced)

      choose_policy-ref :
          (pref : Option PolicyRef) (policy : SlicePolicyV1 F) (ref : PolicyRef)
          → Built fl cr st.policy_registry
          → choose_policy fl cr debug_ref st.policy_registry pref ≡ ok (policy, ref)
          → from_policy fl cr policy ≡ ref
      unfolding choose_policy resolve
      choose_policy-ref none policy ref built h = ground arith
      choose_policy-ref (some pref) policy ref built h =
          elim (Option-cases (resolve st.policy_registry pref)) [
            | inl gone ↦ absurd (ground (arith, gone))
            | inr (q, found) ↦
                let own = (registry-WellFormed fl cr built).own_ref pref q found in
                ground (arith, found, own)
          ]

      -- If the registry was built by registering policies: the slice names the policy that the
      -- response refers to.
      pub slice_handler_policy :
          (request : SliceRequest) (resp : SliceResponse)
          → Built fl cr st.policy_registry
          → slice_handler fl cr uuid_error debug_ref now st request ≡ some (ok resp)
          → (resp.slice.policy_id ≡ resp.policy_ref.policy_id)
            × (resp.slice.policy_params_hash ≡ resp.policy_ref.params_hash)
      unfolding to_dto from_policy
      slice_handler_policy request resp built h =
          let s = slice_handler-Served fl cr st now uuid_error debug_ref request resp h in
          let (_, named, hashed) = slice-anchor s.policy s.anchor_id s.bundle s.sliced in
          let own = choose_policy-ref request.policy_ref s.policy resp.policy_ref built s.chosen in
          (
            ap (λ d. d.policy_id) s.sent ∙ named ∙ ap (λ r. r.policy_id) own,
            ap (λ d. d.policy_params_hash) s.sent ∙ hashed ∙ ap (λ r. r.params_hash) own,
          )
