-- ===== src/Slicer/Complete.antt =====
-- When a slice of src/slicer.rs is everything that there is: neither the budget nor the radius cuts it.
use admissibility_kernel.Base.{
  ◌+◌, ◌^◌, ◌≤◌, ◌<◌, ◌≡◌, refl, sym, ap, subst, ◌∙◌, ◌⊎◌, inl, inr, ⊎_elim, List, [], ◌∷◌, none,
  some, true, Bytes, ok, length, contains, contains-append, arith,
}
use admissibility_kernel.Base.Int.{ℤ}
use admissibility_kernel.Crates.{Floats, Crypto, CryptoLaws}
use admissibility_kernel.Types.Turn.{TurnId, TurnSnapshot}
use admissibility_kernel.Types.Slice.{turn_ids}
use admissibility_kernel.Types.Admissible.{AdmissibleEvidenceBundle, bundle_turn_ids}
use admissibility_kernel.Policy.V1.{SlicePolicyV1}
use admissibility_kernel.Policy.Scoring.{ExpansionCandidate}
use admissibility_kernel.Store.{GraphStore}
use admissibility_kernel.Slicer.{Expansion, round, select_turns, start, slice, finished}
use admissibility_kernel.Slicer.Frontier.{pop}
use admissibility_kernel.Slicer.Rules.{Linked}
use admissibility_kernel.Slicer.Rounds.{
  round_view, loop_rule, drained, full, far, leaf, grown, broken,
}
use admissibility_kernel.Slicer.Invariant.{IsHonest, candidate_ids}
use admissibility_kernel.Slicer.Sound.{slice-Origin}
use admissibility_kernel.Slicer.Bundle.{contains-bundle, length-bundle, slice-contains_anchor}
use admissibility_kernel.Slicer.Kept.{Whole, round-Whole, start-Whole}

module _ {F E : Type 0} (fl : Floats F) (store : GraphStore F E) (policy : SlicePolicyV1 F)
    (anchor_id : TurnId) where
  -- Joined to the anchor by parents and children that the store holds.
  pub data Joined : TurnId → Type 0 where
    anchored : {v : TurnId} → v ≡ anchor_id → Joined v
    joined :
        {u v : TurnId} (turn : TurnSnapshot F)
        → Joined u
        → Linked store u v
        → store.get_turn v ≡ ok (some turn)
        → Joined v

  module _ (honest : IsHonest store) (wide : policy.max_nodes ≤ policy.max_radius)
      (small : policy.max_radius + 1 < 2 ^ 32) where
    -- What is linked to a selected turn is selected, or is not in the store.
    abbrev IsClosed : List (TurnSnapshot F) → Type 0
    IsClosed selected =
        (u v : TurnId)
        → contains (turn_ids selected) u ≡ true
        → Linked store u v
        → (contains (turn_ids selected) v ≡ true) ⊎ (store.get_turn v ≡ ok none)

    drained-nil : (cs : List (ExpansionCandidate F)) → pop fl cs ≡ none → cs ≡ []
    unfolding pop
    drained-nil [] h = refl
    drained-nil (c ∷ cs) h = cc

    drained-IsClosed :
        (s : Expansion F)
        → pop fl s.frontier ≡ none
        → Whole fl store policy anchor_id s
        → IsClosed s.selected
    drained-IsClosed s empty whole u v h near =
        let gone = drained-nil s.frontier empty in
        let only =
          contains-append (turn_ids s.selected) (candidate_ids fl store policy anchor_id s.frontier)
            v in
        ⊎_elim (λ there. inl (ground (arith, there, only, gone))) inr
          (whole.kept.covered v (whole.kept.closed u v h near))

    finished-IsClosed :
        (s t : Expansion F)
        → Whole fl store policy anchor_id s
        → round fl store policy s ≡ finished t
        → length t.selected < policy.max_nodes
        → IsClosed t.selected
    finished-IsClosed s t whole h few = elim (round_view fl store policy s) [
      | drained empty e ↦
          let same : s ≡ t = ground (arith, e) in
          subst (λ x. IsClosed x.selected) same (drained-IsClosed s empty whole)
      | full c rest popped no_room e ↦
          let same : s.selected ≡ t.selected = ground (arith, e) in
          absurd (omega (arith, ap length same))
      | far c rest popped beyond e ↦ absurd (ground (arith, e))
      | leaf c rest popped free within last_step e ↦ absurd (ground (arith, e))
      | grown c rest v popped free within next grew e ↦ absurd (ground (arith, e))
      | broken c rest x popped bad e ↦ absurd (ground (arith, e))
    ]

    pub select_turns-IsClosed :
        (anchor : TurnSnapshot F)
        → anchor.id ≡ anchor_id
        → (t : Expansion F) → select_turns fl store policy anchor anchor_id ≡ some (ok t)
        → length t.selected < policy.max_nodes
        → IsClosed t.selected
    unfolding select_turns
    select_turns-IsClosed anchor e t h few =
        let (u, whole, last) =
          loop_rule fl store policy (Whole fl store policy anchor_id)
            (round-Whole fl store policy anchor_id honest wide small) (policy.max_nodes + 1)
            (start fl store policy anchor anchor_id) t
            (start-Whole fl store policy anchor_id honest wide small anchor e) h in
        finished-IsClosed u t whole last few

    Joined-selected :
        (selected : List (TurnSnapshot F))
        → contains (turn_ids selected) anchor_id ≡ true
        → IsClosed selected
        → (v : TurnId) → Joined v
        → contains (turn_ids selected) v ≡ true
    Joined-selected selected here closed v (anchored e) =
        subst (λ w. contains (turn_ids selected) w ≡ true) (sym e) here
    Joined-selected selected here closed v (joined {u} turn so_far near there) =
        ⊎_elim (λ found. found) (λ gone. absurd (ground (arith, gone, there)))
          (closed u v (Joined-selected selected here closed u so_far) near)

module _ {F E : Type 0} (fl : Floats F) (cr : Crypto F) (laws : CryptoLaws cr)
    (store : GraphStore F E) (policy : SlicePolicyV1 F) (secret : Bytes) (now : ℤ)
    (anchor_id : TurnId) (b : AdmissibleEvidenceBundle F)
    (is_slice : slice fl cr store policy secret now anchor_id ≡ some (ok b)) where
  -- If the store returns the turns that it is asked for, and the radius is at least the budget of
  -- turns and below the last two `u32`: a bundle with fewer turns than the budget holds every turn
  -- that is joined to the anchor by parents and children in the store.
  pub slice_complete :
      IsHonest store
      → policy.max_nodes ≤ policy.max_radius
      → policy.max_radius + 1 < 2 ^ 32
      → length (bundle_turn_ids b) < policy.max_nodes
      → (v : TurnId) → Joined fl store policy anchor_id v
      → contains (bundle_turn_ids b) v ≡ true
  slice_complete honest wide small few v so_far =
      let o = slice-Origin fl cr store policy secret now anchor_id laws b is_slice in
      let selected = o.loop_end.selected in
      let same = ap bundle_turn_ids o.is_bundled in
      let count =
        length-bundle fl cr laws store policy secret now anchor_id b is_slice selected o.edges in
      let members = λ (w : TurnId).
        ap (λ l. contains l w) same
        ∙ contains-bundle fl cr laws store policy secret now anchor_id b is_slice selected o.edges
            w in
      let here =
        slice-contains_anchor fl cr laws store policy secret now anchor_id b is_slice honest
          (omega arith) in
      let closed =
        select_turns-IsClosed fl store policy anchor_id honest wide small o.anchor
          (honest anchor_id o.anchor o.found) o.loop_end o.ended
          (omega (arith, few, count, ap length same)) in
      members v
      ∙ Joined-selected fl store policy anchor_id honest wide small selected
          (sym (members anchor_id) ∙ here) closed v so_far
