-- ===== src/Slicer/Bundle.antt =====
-- What a caller of `slice` of src/slicer.rs may rely on in the bundle.
use mathlib.Core.List.Permᴰ
use admissibility_kernel.Base.{
  ◌+◌, ◌≤◌, ◌<◌, ◌^◌, ◌≡◌, sym, subst, ◌∙◌, inl, inr, List, [], ◌∷◌, some, true, Bytes, ok, All,
  length, length-map, contains, Distinct, Permᴰ, ◌==◌, Bool-cases, arith,
}
use admissibility_kernel.Base.Int.{ℤ}
use admissibility_kernel.Base.Membership.{Distinct-perm, Distinct-left}
use admissibility_kernel.Base.Sort.{sort_by, sort_by-perm}
use admissibility_kernel.Base.Sort.Ascending.{contains-sort_by, length-sort_by}
use admissibility_kernel.Crates.{Floats, Crypto, CryptoLaws}
use admissibility_kernel.Types.Turn.{TurnId, TurnSnapshot}
use admissibility_kernel.Types.Edge.{Edge}
use admissibility_kernel.Types.Slice.{new_with_secret, verify_token, turn_ids, turn_cmp}
use admissibility_kernel.Types.Slice.Token.Verify.{verify_hmac-issue_hmac}
use admissibility_kernel.Types.Admissible.{AdmissibleEvidenceBundle, bundle_turn_ids}
use admissibility_kernel.Policy.V1.{SlicePolicyV1}
use admissibility_kernel.Store.{GraphStore}
use admissibility_kernel.Slicer.{Expansion, round, select_turns, start, slice, finished}
use admissibility_kernel.Slicer.Rounds.{
  loop_rule, round_view, drained, full, far, leaf, grown, broken,
}
use admissibility_kernel.Slicer.Invariant.{IsHonest, Reached, Inv, round-Inv, start-Inv}
use admissibility_kernel.Slicer.Anchor.{select_turns-anchor}
use admissibility_kernel.Slicer.Sound.{slice-Origin, Origin, bundled}

module _ {F E : Type 0} (fl : Floats F) (store : GraphStore F E) (policy : SlicePolicyV1 F)
    (anchor_id : TurnId) where
  -- What holds of the selected turns when the loop has ended.
  pub record Selection (s : Expansion F) : Type 0 where
    pub budget : length s.selected ≤ policy.max_nodes
    pub reached : All (λ t. Reached fl store policy anchor_id t.id) s.selected
    pub distinct : Distinct (turn_ids s.selected)

  finished-Selection :
      (s t : Expansion F)
      → Inv fl store policy anchor_id s
      → round fl store policy s ≡ finished t
      → Selection t
  finished-Selection s t inv h =
      let same : s.selected ≡ t.selected = elim (round_view fl store policy s) [
        | drained empty e ↦ ground (arith, e)
        | full c rest popped no_room e ↦ ground (arith, e)
        | far c rest popped beyond e ↦ absurd (ground (arith, e))
        | leaf c rest popped free within last_step e ↦ absurd (ground (arith, e))
        | grown c rest v popped free within next grew e ↦ absurd (ground (arith, e))
        | broken c rest x popped bad e ↦ absurd (ground (arith, e))
      ] in
      record {
        budget = subst (λ l. length l ≤ policy.max_nodes) same inv.budget;
        reached = subst (All (λ t. Reached fl store policy anchor_id t.id)) same inv.reached;
        distinct = subst (λ l. Distinct (turn_ids l)) same (Distinct-left _ _ inv.distinct);
      }

  pub select_turns-Selection :
      IsHonest store
      → policy.max_radius + 1 < 2 ^ 32
      → (anchor : TurnSnapshot F) → anchor.id ≡ anchor_id
      → (t : Expansion F) → select_turns fl store policy anchor anchor_id ≡ some (ok t)
      → Selection t
  unfolding select_turns
  select_turns-Selection honest small anchor e t h =
      let (u, inv, last) =
        loop_rule fl store policy (Inv fl store policy anchor_id)
          (round-Inv fl store policy anchor_id honest small) (policy.max_nodes + 1)
          (start fl store policy anchor anchor_id) t (start-Inv fl store policy anchor_id anchor e)
          h in
      finished-Selection u t inv last

  All-contains :
      (P : TurnId → Type 0) (turns : List (TurnSnapshot F)) (v : TurnId)
      → All (λ t. P t.id) turns
      → contains (turn_ids turns) v ≡ true
      → P v
  All-contains P [] v all_p h = cc
  All-contains P (t ∷ turns) v all_p h = elim (Bool-cases (v == t.id)) [
    | inl here ↦ subst P (ground (arith, here)) all_p.0
    | inr later ↦ All-contains P turns v all_p.1 (ground (arith, later))
  ]

module _ {F E : Type 0} (fl : Floats F) (cr : Crypto F) (laws : CryptoLaws cr)
    (store : GraphStore F E) (policy : SlicePolicyV1 F) (secret : Bytes) (now : ℤ)
    (anchor_id : TurnId) (b : AdmissibleEvidenceBundle F)
    (is_slice : slice fl cr store policy secret now anchor_id ≡ some (ok b)) where
  origin : Origin fl cr store policy secret now anchor_id b
  origin = slice-Origin fl cr store policy secret now anchor_id laws b is_slice

  pub contains-bundle :
      (selected : List (TurnSnapshot F)) (edges : List Edge) (v : TurnId)
      → contains
          (bundle_turn_ids (bundled fl cr store policy secret now anchor_id selected edges))
          v
        ≡ contains (turn_ids selected) v
  unfolding bundle_turn_ids new_with_secret
  contains-bundle selected edges v = contains-sort_by (λ t. t.id) selected v

  bundle-perm :
      (selected : List (TurnSnapshot F)) (edges : List Edge)
      → Permᴰ
          (bundle_turn_ids (bundled fl cr store policy secret now anchor_id selected edges))
          (turn_ids selected)
  unfolding bundle_turn_ids new_with_secret
  bundle-perm selected edges =
      Permᴰ.map (λ (t : TurnSnapshot F). t.id) (sort_by-perm turn_cmp selected)

  pub length-bundle :
      (selected : List (TurnSnapshot F)) (edges : List Edge)
      → length (bundle_turn_ids (bundled fl cr store policy secret now anchor_id selected edges))
        ≡ length selected
  unfolding bundle_turn_ids new_with_secret
  length-bundle selected edges =
      length-map (sort_by turn_cmp selected) (λ t. t.id) ∙ length-sort_by (λ t. t.id) selected

  -- If the store returns the turns that it is asked for, and the radius is below the last two
  -- `u32`: the bundle holds at most `max_nodes` turns, each once, and each is reached from the
  -- anchor by a walk along parents, children and allowed siblings whose links are at most
  -- `max_radius`.
  pub slice_sound :
      IsHonest store
      → policy.max_radius + 1 < 2 ^ 32
      → (length (bundle_turn_ids b) ≤ policy.max_nodes)
        × Distinct (bundle_turn_ids b)
        × ((v : TurnId)
            → contains (bundle_turn_ids b) v ≡ true
            → Reached fl store policy anchor_id v)
  slice_sound honest small =
      let o = origin in
      let sel =
        select_turns-Selection fl store policy anchor_id honest small o.anchor
          (honest anchor_id o.anchor o.found) o.loop_end o.ended in
      subst
        (λ x.
          (length (bundle_turn_ids x) ≤ policy.max_nodes)
          × Distinct (bundle_turn_ids x)
          × ((v : TurnId)
              → contains (bundle_turn_ids x) v ≡ true
              → Reached fl store policy anchor_id v))
        (sym o.is_bundled)
        (
          omega (arith, length-bundle o.loop_end.selected o.edges, sel.budget),
          Distinct-perm (Permᴰ.symm (bundle-perm o.loop_end.selected o.edges)) sel.distinct,
          λ v h.
              All-contains fl store policy anchor_id (Reached fl store policy anchor_id)
                o.loop_end.selected v sel.reached
                (sym (contains-bundle o.loop_end.selected o.edges v) ∙ h),
        )

  -- The bundle holds its anchor, if the policy allows a turn at all and the store returns the turns
  -- that it is asked for.
  pub slice-contains_anchor :
      IsHonest store → 0 < policy.max_nodes → contains (bundle_turn_ids b) anchor_id ≡ true
  slice-contains_anchor honest room =
      let o = origin in
      subst (λ x. contains (bundle_turn_ids x) anchor_id ≡ true) (sym o.is_bundled)
        (contains-bundle o.loop_end.selected o.edges anchor_id
          ∙ select_turns-anchor fl store policy o.anchor anchor_id
              (honest anchor_id o.anchor o.found) o.loop_end room o.ended)

  -- The slice of the bundle carries a token that verifies under the kernel's secret.
  pub slice_verifies : verify_token cr b.slice secret ≡ true
  unfolding verify_token new_with_secret
  slice_verifies =
      let o = origin in
      subst (λ x. verify_token cr x.slice secret ≡ true) (sym o.is_bundled)
        (verify_hmac-issue_hmac cr laws secret _ _ _ _ _ _)
