-- ===== src/Slicer/Errors.antt =====
-- The errors of src/slicer.rs: those of the store, a missing anchor, and no other.
use admissibility_kernel.Base.{
  ℕ, zero, suc, ◌+◌, ◌≡◌, refl, ⊎_elim, ◌⊎◌, inl, inr, List, [], ◌∷◌, Option, none, some, Bytes,
  Result, ok, err, ◌>>=◌, contains, Bool-cases, Option-cases, Result-cases, >>=-eq-err, arith,
}
use admissibility_kernel.Base.Int.{ℤ}
use admissibility_kernel.Crates.{Floats, Crypto, CryptoLaws}
use admissibility_kernel.Types.Turn.{TurnId, TurnSnapshot}
use admissibility_kernel.Types.Slice.{turn_ids}
use admissibility_kernel.Policy.V1.{SlicePolicyV1}
use admissibility_kernel.Store.{GraphStore}
use admissibility_kernel.Slicer.{
  SlicerError, anchor_not_found, store_error, Expansion, from_store, visit, visit_all,
  expand_siblings, expand, round, expand_loop, select_turns, start, seal, finish, slice,
}
use admissibility_kernel.Slicer.Rounds.{
  Round-cases, round_view, drained, full, far, leaf, grown, broken,
}
use admissibility_kernel.Slicer.Sound.{seal-of-edges, seal-of-error}

module _ {F E : Type 0} (store : GraphStore F E) where
  -- A query of the store fails with `e`.
  pub data Fails (e : E) : Type 0 where
    turn : (id : TurnId) → store.get_turn id ≡ err e → Fails e
    parents : (id : TurnId) → store.get_parents id ≡ err e → Fails e
    children : (id : TurnId) → store.get_children id ≡ err e → Fails e
    siblings : (id : TurnId) (limit : ℕ) → store.get_siblings id limit ≡ err e → Fails e
    edges : (ids : List TurnId) → store.get_edges ids ≡ err e → Fails e

  -- The message of a failed query.
  abbrev pub IsStoreError : SlicerError → Type 0
  IsStoreError x = (e : E) × Fails e × (x ≡ store_error (store.error_string e))

  from_store-err :
      {A : Type 0} (r : Result E A) {x : SlicerError}
      → ((e : E) → r ≡ err e → Fails e)
      → from_store store r ≡ err x
      → IsStoreError x
  unfolding from_store
  from_store-err (ok a) fails h = cc
  from_store-err (err e) fails h = (e, fails e refl, ground arith)

  module _ (fl : Floats F) (policy : SlicePolicyV1 F) where
    visit-err :
        (d : ℕ) (id : TurnId) (s : Expansion F) {x : SlicerError}
        → visit fl store policy d id s ≡ err x
        → IsStoreError x
    unfolding visit
    visit-err d id s {x} h = elim (Bool-cases (contains s.visited id)) [
      | inl old ↦ absurd (ground (arith, old))
      | inr new ↦ elim (Result-cases (from_store store (store.get_turn id))) [
        | inl (t, found) ↦ absurd (ground (arith, new, found))
        | inr (e, bad) ↦
            let same : e ≡ x = ground (arith, new, bad) in
            from_store-err (store.get_turn id) (λ z. turn id) (rw same at bad)
      ]
    ]

    visit_all-err :
        (d : ℕ) (ids : List TurnId) (s : Expansion F) {x : SlicerError}
        → visit_all fl store policy d ids s ≡ err x
        → IsStoreError x
    unfolding visit_all
    visit_all-err d [] s h = cc
    visit_all-err d (id ∷ ids) s h =
        ⊎_elim (visit-err d id s) (λ (t, _, rest). visit_all-err d ids t rest)
          (>>=-eq-err (visit fl store policy d id s) _ h)

    expand_siblings-err :
        (d : ℕ) (id : TurnId) (s : Expansion F) {x : SlicerError}
        → expand_siblings fl store policy d id s ≡ err x
        → IsStoreError x
    unfolding expand_siblings
    expand_siblings-err d id s {x} h =
        let asked = from_store store (store.get_siblings id policy.max_siblings_per_node) in
        let h' : (asked >>= λ ids. visit_all fl store policy d ids s) ≡ err x = ground arith in
        ⊎_elim (from_store-err _ (λ z. siblings id policy.max_siblings_per_node))
          (λ (ids, _, rest). visit_all-err d ids s rest)
          (>>=-eq-err asked (λ ids. visit_all fl store policy d ids s) h')

    expand-err :
        (d next : ℕ) (id : TurnId) (s : Expansion F) {x : SlicerError}
        → expand fl store policy d next id s ≡ err x
        → IsStoreError x
    unfolding expand
    expand-err d next id s h =
        ⊎_elim (from_store-err _ (λ z. parents id))
          (λ (ps, _, r1).
            ⊎_elim (visit_all-err next ps s)
              (λ (s1, _, r2).
                ⊎_elim (from_store-err _ (λ z. children id))
                  (λ (cs, _, r3).
                    ⊎_elim (visit_all-err next cs s1)
                      (λ (s2, _, r4). expand_siblings-err d id s2 r4)
                      (>>=-eq-err (visit_all fl store policy next cs s1) _ r3))
                  (>>=-eq-err (from_store store (store.get_children id)) _ r2))
              (>>=-eq-err (visit_all fl store policy next ps s) _ r1))
          (>>=-eq-err (from_store store (store.get_parents id)) _ h)

    expand_loop-err :
        (fuel : ℕ) (s : Expansion F) {x : SlicerError}
        → expand_loop fl store policy fuel s ≡ some (err x)
        → IsStoreError x
    unfolding expand_loop
    expand_loop-err zero s h = cc
    expand_loop-err (suc fuel) s {x} h = elim (Round-cases (round fl store policy s)) [
      | inl (t, e) ↦ absurd (ground (arith, e))
      | inr (inl (t, e)) ↦ expand_loop-err fuel t (ground (arith, e))
      | inr (inr (y, e)) ↦ elim (round_view fl store policy s) [
        | drained empty r ↦ absurd (ground (arith, e, r))
        | full c rest popped no_room r ↦ absurd (ground (arith, e, r))
        | far c rest popped beyond r ↦ absurd (ground (arith, e, r))
        | leaf c rest popped room within last_step r ↦ absurd (ground (arith, e, r))
        | grown c rest t popped room within next grew r ↦ absurd (ground (arith, e, r))
        | broken c rest z popped bad r ↦
            let same : z ≡ x = ground (arith, e, r) in expand-err _ _ c.turn.id _ (rw same at bad)
      ]
    ]

module _ {F E : Type 0} (fl : Floats F) (cr : Crypto F) (laws : CryptoLaws cr)
    (store : GraphStore F E) (policy : SlicePolicyV1 F) (secret : Bytes) (now : ℤ)
    (anchor_id : TurnId) where
  seal-err :
      (selected : List (TurnSnapshot F)) {x : SlicerError}
      → seal fl cr store policy secret now anchor_id selected ≡ err x
      → IsStoreError store x
  seal-err selected h = elim (Result-cases (store.get_edges (turn_ids selected))) [
    | inl (joint, joined) ↦ absurd (
        ground
          (arith, seal-of-edges fl cr store policy secret now anchor_id laws selected joint joined))
    | inr (e, bad) ↦ (
      e,
      edges (turn_ids selected) bad,
      ground (arith, seal-of-error fl cr store policy secret now anchor_id laws selected e bad),
    )
  ]

  finish-err :
      (anchor : TurnSnapshot F) (r : Option (Result SlicerError (Expansion F))) {x : SlicerError}
      → select_turns fl store policy anchor anchor_id ≡ r
      → finish fl cr store policy secret now anchor_id r ≡ some (err x)
      → IsStoreError store x
  unfolding finish select_turns
  finish-err anchor none ended h = cc
  finish-err anchor (some (ok s)) ended h = seal-err s.selected (ground arith)
  finish-err anchor (some (err y)) {x} ended h =
      let same : y ≡ x = ground arith in
      expand_loop-err store fl policy (policy.max_nodes + 1)
        (start fl store policy anchor anchor_id) (rw same at ended)

  -- `slice` fails in two ways: with the missing anchor, if the store answers that it has no such
  -- turn, or with the message of a query that the store failed. It never fails to verify the slice that it has just signed.
  pub slice_errors :
      (x : SlicerError)
      → slice fl cr store policy secret now anchor_id ≡ some (err x)
      → ((x ≡ anchor_not_found anchor_id) × (store.get_turn anchor_id ≡ ok none))
        ⊎ IsStoreError store x
  unfolding slice from_store
  slice_errors x h = elim (Result-cases (store.get_turn anchor_id)) [
    | inr (e, bad) ↦ inr (e, turn anchor_id bad, ground (arith, bad))
    | inl (found, good) ↦ elim (Option-cases found) [
      | inl missing ↦ inl (ground (arith, good, missing), ground (arith, good, missing))
      | inr (anchor, there) ↦ inr (finish-err anchor _ refl (ground (arith, good, there)))
    ]
  ]
