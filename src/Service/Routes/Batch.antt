-- ===== src/Service/Routes/Batch.antt =====
-- `batch_slice_handler` of src/service/routes.rs.
use mathlib.Core.List.{append_assoc, append-nil}
use admissibility_kernel.Base.{
  ◌+◌, ◌≡◌, refl, inl, inr, List, [], ◌∷◌, ◌++◌, true, none, some, Str, codes, ok, err, All, length,
  Option-cases, Result-cases, arith,
}
use admissibility_kernel.Base.Int.{ℤ}
use admissibility_kernel.Crates.{Floats, Crypto, CryptoLaws}
use admissibility_kernel.Types.Turn.{TurnId}
use admissibility_kernel.Types.Admissible.{AdmissibleEvidenceBundle}
use admissibility_kernel.Policy.V1.{SlicePolicyV1}
use admissibility_kernel.Slicer.{SlicerError, slice}
use admissibility_kernel.Slicer.Display.{slicer_error_string}
use admissibility_kernel.Slicer.Ends.{slice_returns}
use admissibility_kernel.Service.State.{PolicyRef, ServiceState}
use admissibility_kernel.Service.Messages.{
  BatchSliceRequest, BatchSliceResponse, SliceExportDto, SliceError,
}
use admissibility_kernel.Service.Routes.{
  to_dto, verify_token_handler, slice_anchor, batch_loop, batch_slice_handler,
}
use admissibility_kernel.Service.Routes.Promises.{ask, bundle-valid}
use admissibility_kernel.Service.Routes.Answers.{IsAsked, choose_policy-eq_ok}

module _ {F E : Type 0} (fl : Floats F) (cr : Crypto F) (st : ServiceState F E) (now : ℤ)
    (uuid_error : Str → Str) where
  -- What becomes of each anchor, in the order of the anchors: a slice of it, or an error with it.
  pub data Outcomes (policy : SlicePolicyV1 F)
      : List Str → List SliceExportDto → List SliceError → Type 0 where
    none_left : Outcomes policy [] [] []
    sliced :
        (anchor : Str) (anchors : List Str) (slices : List SliceExportDto)
        (errors : List SliceError) (id : TurnId) (bundle : AdmissibleEvidenceBundle F)
        → cr.parse_uuid anchor ≡ some id
        → slice fl cr st.store policy st.hmac_secret now id ≡ some (ok bundle)
        → Outcomes policy anchors slices errors
        → Outcomes policy (anchor ∷ anchors) (to_dto cr bundle.slice ∷ slices) errors
    unparsed :
        (anchor : Str) (anchors : List Str) (slices : List SliceExportDto)
        (errors : List SliceError)
        → cr.parse_uuid anchor ≡ none
        → Outcomes policy anchors slices errors
        → Outcomes policy (anchor ∷ anchors) slices (
            record {
              anchor_turn_id = anchor;
              error = codes "Invalid turn ID: " ++ uuid_error anchor;
            }
            ∷ errors)
    unsliced :
        (anchor : Str) (anchors : List Str) (slices : List SliceExportDto)
        (errors : List SliceError) (id : TurnId) (e : SlicerError)
        → cr.parse_uuid anchor ≡ some id
        → slice fl cr st.store policy st.hmac_secret now id ≡ some (err e)
        → Outcomes policy anchors slices errors
        → Outcomes policy
            (anchor ∷ anchors)
            slices
            (record { anchor_turn_id = anchor; error = slicer_error_string cr e } ∷ errors)

  Outcomes-length :
      (policy : SlicePolicyV1 F) {anchors : List Str} {slices : List SliceExportDto}
      {errors : List SliceError}
      → Outcomes policy anchors slices errors
      → length slices + length errors ≡ length anchors
  Outcomes-length policy none_left = refl
  Outcomes-length policy (sliced _ _ _ _ _ _ _ _ later) =
      omega (arith, Outcomes-length policy later)
  Outcomes-length policy (unparsed _ _ _ _ _ later) = omega (arith, Outcomes-length policy later)
  Outcomes-length policy (unsliced _ _ _ _ _ _ _ _ later) =
      omega (arith, Outcomes-length policy later)

  module _ (debug_ref : PolicyRef → Str) where
    -- The loop pushes its outcomes behind what it holds.
    batch_loop_lem :
        (policy : SlicePolicyV1 F) (anchors : List Str) (slices : List SliceExportDto)
        (errors : List SliceError)
        → (s : List SliceExportDto) × (e : List SliceError) × (batch_loop fl cr uuid_error debug_ref
              now st policy anchors slices errors
            ≡ some (slices ++ s, errors ++ e))
          × Outcomes policy anchors s e
    unfolding batch_loop slice_anchor
    batch_loop_lem policy [] slices errors =
        ([], [], ground (arith, append-nil slices, append-nil errors), none_left)
    batch_loop_lem policy (a ∷ anchors) slices errors = elim (Option-cases (cr.parse_uuid a)) [
      | inl bad ↦
          let x : SliceError = record {
            anchor_turn_id = a;
            error = codes "Invalid turn ID: " ++ uuid_error a;
          } in
          let (s, e, ends, later) = batch_loop_lem policy anchors slices (errors ++ x ∷ []) in
          (
            s,
            x ∷ e,
            ground (arith, bad, ends, append_assoc errors (x ∷ []) e),
            unparsed a anchors s e bad later,
          )
      | inr (id, parsed) ↦
          let (r, returns) = slice_returns fl cr st.store policy st.hmac_secret now id in
          elim (Result-cases r) [
            | inl (b, good) ↦
                let d = to_dto cr b.slice in
                let (s, e, ends, later) = batch_loop_lem policy anchors (slices ++ d ∷ []) errors in
                (
                  d ∷ s,
                  e,
                  ground (arith, parsed, returns, good, ends, append_assoc slices (d ∷ []) s),
                  sliced a anchors s e id b parsed (ground (arith, returns, good)) later,
                )
            | inr (f, bad) ↦
                let x : SliceError = record {
                  anchor_turn_id = a;
                  error = slicer_error_string cr f;
                } in
                let (s, e, ends, later) = batch_loop_lem policy anchors slices (errors ++ x ∷ []) in
                (
                  s,
                  x ∷ e,
                  ground (arith, parsed, returns, bad, ends, append_assoc errors (x ∷ []) e),
                  unsliced a anchors s e id f parsed (ground (arith, returns, bad)) later,
                )
          ]
    ]

    module _ (laws : CryptoLaws cr) where
      -- The service verifies the slice.
      abbrev pub IsAccepted : SliceExportDto → Type 0
      IsAccepted d = (verify_token_handler cr st (ask d)).valid ≡ true

      Outcomes-IsAccepted :
          (policy : SlicePolicyV1 F) {anchors : List Str} {slices : List SliceExportDto}
          {errors : List SliceError}
          → Outcomes policy anchors slices errors
          → All IsAccepted slices
      Outcomes-IsAccepted policy none_left = tt
      Outcomes-IsAccepted policy (sliced anchor _ _ _ id b parsed good later) = (
        bundle-valid fl cr laws st now policy id b (laws.parse-range anchor id parsed) good,
        Outcomes-IsAccepted policy later,
      )
      Outcomes-IsAccepted policy (unparsed _ _ _ _ _ later) = Outcomes-IsAccepted policy later
      Outcomes-IsAccepted policy (unsliced _ _ _ _ _ _ _ _ later) = Outcomes-IsAccepted policy later

      -- A batch whose policy reference resolves, or that refers to none, gets a response that refers to the policy. In the order of the
      -- anchors, it has the slice of each anchor that parses and that the slicer slices by the policy,
      -- and an error with the anchor and its reason for each that does not parse or that the slicer
      -- fails on, which makes one slice or one error for each anchor. The count of successes is that of
      -- the slices, and each slice is valid when it is sent back to be verified.
      pub batch_slice_handler_lem :
          (request : BatchSliceRequest) (policy : SlicePolicyV1 F) (ref : PolicyRef)
          → IsAsked fl cr st request.policy_ref policy ref
          → (resp : BatchSliceResponse) × (batch_slice_handler fl cr uuid_error debug_ref now st
                request
              ≡ some (ok resp))
            × (resp.policy_ref ≡ ref)
            × Outcomes policy request.anchor_turn_ids resp.slices resp.errors
            × (resp.success_count ≡ length resp.slices)
            × (length resp.slices + length resp.errors ≡ length request.anchor_turn_ids)
            × All IsAccepted resp.slices
      unfolding batch_slice_handler
      batch_slice_handler_lem request policy ref asked =
          let (s, e, done, each) = batch_loop_lem policy request.anchor_turn_ids [] [] in
          (
            record { slices = s; policy_ref = ref; success_count = length s; errors = e },
            ground (
              arith,
              choose_policy-eq_ok fl cr st debug_ref request.policy_ref policy ref asked,
              done,
            ),
            refl,
            each,
            refl,
            Outcomes-length policy each,
            Outcomes-IsAccepted policy each,
          )
