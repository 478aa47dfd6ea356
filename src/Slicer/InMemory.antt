-- ===== src/Slicer/InMemory.antt =====
-- `slice` of src/slicer.rs over the store of src/store/memory.rs, which never fails.
use admissibility_kernel.Base.{
  ◌≡◌, sym, ap, subst, ◌∙◌, inl, inr, ⊎_elim, some, Bytes, ok, filter, Permᴰ, Result-cases, arith,
}
use admissibility_kernel.Base.Int.{ℤ}
use admissibility_kernel.Base.Sort.{sort_by-perm}
use admissibility_kernel.Crates.{Floats, Crypto, CryptoLaws}
use admissibility_kernel.Types.Turn.{TurnId, TurnSnapshot}
use admissibility_kernel.Types.Edge.{edge_cmp}
use admissibility_kernel.Types.Slice.{new_with_secret, turn_ids}
use admissibility_kernel.Types.Admissible.{AdmissibleEvidenceBundle, bundle_turn_ids}
use admissibility_kernel.Policy.V1.{SlicePolicyV1}
use admissibility_kernel.Store.Memory.{
  InMemoryGraphStore, InMemoryError, graph_store, get_turn, get_edges,
}
use admissibility_kernel.Store.Memory.Answers.{is_inside, get_edges-perm, filter-ext}
use admissibility_kernel.Slicer.{slice}
use admissibility_kernel.Slicer.Ends.{slice_returns}
use admissibility_kernel.Slicer.Errors.{
  slice_errors, Fails, turn, parents, children, siblings, edges,
}
use admissibility_kernel.Slicer.Sound.{slice-Origin}
use admissibility_kernel.Slicer.Bundle.{contains-bundle}

module _ {F : Type 0} (fl : Floats F) (cr : Crypto F) (laws : CryptoLaws cr)
    (s : InMemoryGraphStore F) (policy : SlicePolicyV1 F) (secret : Bytes) (now : ℤ)
    (anchor_id : TurnId) where
  never_fails : (e : InMemoryError) → Fails (graph_store fl cr s) e → ⊥
  never_fails e (turn id h) = cc
  never_fails e (parents id h) = cc
  never_fails e (children id h) = cc
  never_fails e (siblings id limit h) = cc
  never_fails e (edges ids h) = cc

  -- A slice around a turn that the store holds is a bundle, whatever the graph, the policy and the
  -- secret.
  pub slice_in_memory :
      (anchor : TurnSnapshot F)
      → get_turn s anchor_id ≡ some anchor
      → (b : AdmissibleEvidenceBundle F) × (slice fl cr
            (graph_store fl cr s)
            policy
            secret
            now
            anchor_id
          ≡ some (ok b))
  slice_in_memory anchor there =
      let (r, ends) = slice_returns fl cr (graph_store fl cr s) policy secret now anchor_id in
      elim (Result-cases r) [
        | inl (b, good) ↦ (b, ends ∙ ap some good)
        | inr (x, bad) ↦ absurd (
            ⊎_elim (λ (_, gone). ground (arith, gone, there)) (λ (e, fails, _). never_fails e fails)
              (slice_errors fl cr laws (graph_store fl cr s) policy secret now anchor_id x
                (ends ∙ ap some bad)))
      ]

  -- The edges of a bundle are those of the store between its turns, each as often as it was added.
  pub slice_edges :
      (b : AdmissibleEvidenceBundle F)
      → slice fl cr (graph_store fl cr s) policy secret now anchor_id ≡ some (ok b)
      → Permᴰ b.slice.edges (filter (is_inside (bundle_turn_ids b)) s.edges)
  unfolding new_with_secret
  slice_edges b h =
      let o = slice-Origin fl cr (graph_store fl cr s) policy secret now anchor_id laws b h in
      let selected = o.loop_end.selected in
      let same = λ (v : TurnId).
        contains-bundle fl cr laws (graph_store fl cr s) policy secret now anchor_id b h selected
          o.edges v in
      let asked : get_edges s (turn_ids selected) ≡ o.edges = ground (arith, o.joined) in
      subst (λ x. Permᴰ x.slice.edges (filter (is_inside (bundle_turn_ids x)) s.edges))
        (sym o.is_bundled)
        (Permᴰ.trans (sort_by-perm edge_cmp o.edges) (
          subst (Permᴰ o.edges)
            (filter-ext (is_inside (turn_ids selected)) _ s.edges
              (λ e. ground (arith, same e.parent, same e.child)))
            (subst (λ l. Permᴰ l (filter (is_inside (turn_ids selected)) s.edges)) asked
              (get_edges-perm s (turn_ids selected)))))
