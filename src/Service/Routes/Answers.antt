-- ===== src/Service/Routes/Answers.antt =====
-- `slice_handler` of src/service/routes.rs: what it answers to each request.
use admissibility_kernel.Base.{
  ◌≡◌, ◌≢◌, refl, ap, ◌∙◌, ◌⊎◌, inl, inr, Option, none, some, Str, ok, err, Option-cases,
  Result-cases, arith,
}
use admissibility_kernel.Base.Int.{ℤ}
use admissibility_kernel.Crates.{Floats, Crypto}
use admissibility_kernel.Types.Turn.{TurnId}
use admissibility_kernel.Types.Admissible.{AdmissibleEvidenceBundle}
use admissibility_kernel.Policy.V1
use admissibility_kernel.Policy.V1.{SlicePolicyV1}
use admissibility_kernel.Slicer.{SlicerError, slice}
use admissibility_kernel.Slicer.Ends.{slice_returns}
use admissibility_kernel.Service.State.{PolicyRef, from_policy, resolve, ServiceState}
use admissibility_kernel.Service.Messages.{SliceRequest, SliceResponse, Failure}
use admissibility_kernel.Service.Routes.{to_dto, choose_policy, respond, slice_handler}
use admissibility_kernel.Service.Routes.Promises.{slice_handler-Served}

module _ {F E : Type 0} (fl : Floats F) (cr : Crypto F) (st : ServiceState F E) where
  -- The policy that a request asks for: the default one if it refers to none, and otherwise the
  -- one that is registered under its reference.
  abbrev pub IsAsked : Option PolicyRef → SlicePolicyV1 F → PolicyRef → Type 0
  IsAsked pref policy ref =
      ((pref ≡ none) × (policy ≡ V1.default fl) × (ref ≡ from_policy fl cr (V1.default fl)))
      ⊎ ((pref ≡ some ref) × (resolve st.policy_registry ref ≡ some policy))

  module _ (debug_ref : PolicyRef → Str) where
    pub choose_policy-IsAsked :
        (pref : Option PolicyRef) (policy : SlicePolicyV1 F) (ref : PolicyRef)
        → choose_policy fl cr debug_ref st.policy_registry pref ≡ ok (policy, ref)
        → IsAsked pref policy ref
    unfolding choose_policy
    choose_policy-IsAsked none policy ref h = inl (refl, ground arith, ground arith)
    choose_policy-IsAsked (some given) policy ref h =
        elim (Option-cases (resolve st.policy_registry given)) [
          | inl gone ↦ absurd (ground (arith, gone))
          | inr (q, found) ↦ inr (ground (arith, found), ground (arith, found))
        ]

    pub choose_policy-eq_ok :
        (pref : Option PolicyRef) (policy : SlicePolicyV1 F) (ref : PolicyRef)
        → IsAsked pref policy ref
        → choose_policy fl cr debug_ref st.policy_registry pref ≡ ok (policy, ref)
    unfolding choose_policy
    choose_policy-eq_ok pref policy ref (inl (none_given, p, r)) = ground (arith, none_given, p, r)
    choose_policy-eq_ok pref policy ref (inr (given, found)) = ground (arith, given, found)

module _ {F E : Type 0} (fl : Floats F) (cr : Crypto F) (st : ServiceState F E) (now : ℤ)
    (uuid_error : Str → Str) (debug_ref : PolicyRef → Str) where
  -- Why a request may fail, and with which status code.
  pub data Reason (request : SliceRequest) (f : Failure) : Type 0 where
    unparsed : cr.parse_uuid request.anchor_turn_id ≡ none → f.status ≡ 400 → Reason request f
    unresolved :
        (anchor_id : TurnId) (ref : PolicyRef)
        → cr.parse_uuid request.anchor_turn_id ≡ some anchor_id
        → request.policy_ref ≡ some ref
        → resolve st.policy_registry ref ≡ none
        → f.status ≡ 404
        → Reason request f
    unsliced :
        (policy : SlicePolicyV1 F) (ref : PolicyRef) (anchor_id : TurnId) (e : SlicerError)
        → cr.parse_uuid request.anchor_turn_id ≡ some anchor_id
        → IsAsked fl cr st request.policy_ref policy ref
        → slice fl cr st.store policy st.hmac_secret now anchor_id ≡ some (err e)
        → f.status ≡ 500
        → Reason request f

  choose_policy-Reason :
      (request : SliceRequest) (f : Failure) (anchor_id : TurnId)
      → cr.parse_uuid request.anchor_turn_id ≡ some anchor_id
      → choose_policy fl cr debug_ref st.policy_registry request.policy_ref ≡ err f
      → Reason request f
  unfolding choose_policy
  choose_policy-Reason request f anchor_id parsed h = elim (Option-cases request.policy_ref) [
    | inl default ↦ absurd (ground (arith, default))
    | inr (ref, given) ↦ elim (Option-cases (resolve st.policy_registry ref)) [
      | inl gone ↦ unresolved anchor_id ref parsed given gone (ground (arith, given, gone))
      | inr (q, found) ↦ absurd (ground (arith, given, found))
    ]
  ]

  slice_handler-Reason :
      (request : SliceRequest) (f : Failure)
      → slice_handler fl cr uuid_error debug_ref now st request ≡ some (err f)
      → Reason request f
  unfolding slice_handler respond
  slice_handler-Reason request f h = elim (Option-cases (cr.parse_uuid request.anchor_turn_id)) [
    | inl bad ↦ unparsed bad (ground (arith, bad))
    | inr (a, parsed) ↦
        elim (Result-cases (choose_policy fl cr debug_ref st.policy_registry request.policy_ref)) [
          | inr (g, bad) ↦
              let same : g ≡ f = ground (arith, parsed, bad) in
              choose_policy-Reason request f a parsed (bad ∙ ap err same)
          | inl ((policy, ref), chosen) ↦
              let (r, ends) = slice_returns fl cr st.store policy st.hmac_secret now a in
              elim (Result-cases r) [
                | inl (b, good) ↦ absurd (ground (arith, parsed, chosen, ends, good))
                | inr (e, bad) ↦
                    unsliced policy ref a e parsed
                      (choose_policy-IsAsked fl cr st debug_ref request.policy_ref policy ref
                        chosen)
                      (ends ∙ ap some bad) (ground (arith, parsed, chosen, ends, bad))
              ]
        ]
  ]

  slice_handler-some :
      (request : SliceRequest) → slice_handler fl cr uuid_error debug_ref now st request ≢ none
  unfolding slice_handler respond
  slice_handler-some request h = elim (Option-cases (cr.parse_uuid request.anchor_turn_id)) [
    | inl bad ↦ ground (arith, bad)
    | inr (a, parsed) ↦
        elim (Result-cases (choose_policy fl cr debug_ref st.policy_registry request.policy_ref)) [
          | inr (f, bad) ↦ ground (arith, parsed, bad)
          | inl ((policy, ref), chosen) ↦
              let (r, ends) = slice_returns fl cr st.store policy st.hmac_secret now a in
              elim (Result-cases r) [
                | inl (b, good) ↦ ground (arith, parsed, chosen, ends, good)
                | inr (e, bad) ↦ ground (arith, parsed, chosen, ends, bad)
              ]
        ]
  ]

  -- The response holds the slice of the anchor that the request names, by the policy that it asks
  -- for, and refers to that policy.
  abbrev pub Granted : SliceRequest → SliceResponse → Type 0
  Granted request resp =
      (anchor_id : TurnId) × (policy : SlicePolicyV1 F) × (bundle : AdmissibleEvidenceBundle F)
      × (cr.parse_uuid request.anchor_turn_id ≡ some anchor_id)
      × IsAsked fl cr st request.policy_ref policy resp.policy_ref
      × (slice fl cr st.store policy st.hmac_secret now anchor_id ≡ some (ok bundle))
      × (resp.slice ≡ to_dto cr bundle.slice)

  slice_handler-Granted :
      (request : SliceRequest) (resp : SliceResponse)
      → slice_handler fl cr uuid_error debug_ref now st request ≡ some (ok resp)
      → Granted request resp
  slice_handler-Granted request resp h =
      let s = slice_handler-Served fl cr st now uuid_error debug_ref request resp h in
      (
        s.anchor_id,
        s.policy,
        s.bundle,
        s.parsed,
        choose_policy-IsAsked fl cr st debug_ref request.policy_ref s.policy resp.policy_ref
            s.chosen,
        s.sliced,
        s.sent,
      )

  -- A request always gets an answer: either the slice of the anchor that it names, by the policy
  -- that it refers to, or by the default one if it refers to none, with a reference to that policy,
  -- or a failure. It is a failure with 400 only if the anchor does not parse, with 404 only if the
  -- anchor parses and the reference does not resolve, and with 500 only if both are fine and the
  -- slicer fails, and there are no other failures.
  pub slice_handler_returns :
      (request : SliceRequest)
      → ((resp : SliceResponse) × (slice_handler fl cr uuid_error debug_ref now st request
            ≡ some (ok resp))
          × Granted request resp)
        ⊎ ((f : Failure) × (slice_handler fl cr uuid_error debug_ref now st request ≡ some (err f))
            × Reason request f)
  slice_handler_returns request =
      elim (Option-cases (slice_handler fl cr uuid_error debug_ref now st request)) [
        | inl never ↦ absurd (slice_handler-some request never)
        | inr (r, ends) ↦ elim (Result-cases r) [
          | inl (resp, good) ↦
              let answered = ends ∙ ap some good in
              inl (resp, answered, slice_handler-Granted request resp answered)
          | inr (f, bad) ↦
              let failed = ends ∙ ap some bad in
              inr (f, failed, slice_handler-Reason request f failed)
        ]
      ]
