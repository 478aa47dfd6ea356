-- ===== src/Slicer/Kept.antt =====
-- What the loop of src/slicer.rs keeps of what it has found, as long as neither the budget nor the
-- radius cuts it.
use mathlib.Core.List.Permᴰ
use mathlib.Core.List.{map-append}
use admissibility_kernel.Base.{
  ℕ, ◌+◌, ◌^◌, ◌≤◌, ◌<◌, ◌≡◌, refl, sym, ap, subst, ◌∙◌, ◌⊎◌, inl, inr, ⊎_elim, List, [], ◌∷◌, ◌++◌,
  none, some, true, ok, All, length, length-append, contains, contains-append, Permᴰ, Bool-cases,
  ◌==◌, arith,
}
use admissibility_kernel.Base.Membership.{contains-perm}
use admissibility_kernel.Crates.{Floats}
use admissibility_kernel.Types.Turn.{TurnId, TurnSnapshot}
use admissibility_kernel.Types.Slice.{turn_ids}
use admissibility_kernel.Policy.V1.{SlicePolicyV1}
use admissibility_kernel.Policy.Scoring
use admissibility_kernel.Policy.Scoring.{ExpansionCandidate}
use admissibility_kernel.Store.{GraphStore}
use admissibility_kernel.Slicer.{
  Expansion, push_turn, next_distance, expand, round, start, continues,
}
use admissibility_kernel.Slicer.Frontier.{pop}
use admissibility_kernel.Slicer.Frontier.Pop.{pop-All}
use admissibility_kernel.Slicer.Rules.{Linked, Pushes, expand_rule}
use admissibility_kernel.Slicer.Rounds.{choose, round_view, drained, full, far, leaf, grown, broken}
use admissibility_kernel.Slicer.Invariant.{IsHonest, ids, candidate_ids, choose-perm}
use admissibility_kernel.Slicer.Seen.{expand-Seen}

module _ {F E : Type 0} (fl : Floats F) (store : GraphStore F E) (policy : SlicePolicyV1 F)
    (anchor_id : TurnId) where
  abbrev pub all_ids : Expansion F → List TurnId
  all_ids = ids fl store policy anchor_id

  -- Nothing that is linked to a turn of `expanded` is forgotten.
  pub record Kept (expanded : List TurnId) (s : Expansion F) : Type 0 where
    pub near : All (λ c. c.distance ≤ length s.selected) s.frontier
    pub covered :
        (v : TurnId)
        → contains s.visited v ≡ true
        → (contains (all_ids s) v ≡ true) ⊎ (store.get_turn v ≡ ok none)
    pub closed :
        (u v : TurnId) → contains expanded u ≡ true → Linked store u v → contains s.visited v ≡ true

  push-Kept :
      IsHonest store
      → (expanded : List TurnId) (chosen : List (TurnSnapshot F)) (d : ℕ) (id : TurnId)
      → d ≤ length chosen
      → Pushes fl store policy (λ s. Kept expanded s × (s.selected ≡ chosen)) d id
  unfolding push_turn Scoring.new
  push-Kept honest expanded chosen d id small s none new found (kept, same) = (
    record {
      near = kept.near;
      covered = λ v h. elim (Bool-cases (v == id)) [
        | inl here ↦ let e : v ≡ id = ground (arith, here) in inr (ap store.get_turn e ∙ found)
        | inr other ↦ kept.covered v (ground (arith, other))
      ];
      closed = λ u v h near. ground (arith, kept.closed u v h near);
    },
    same,
  )
  push-Kept honest expanded chosen d id small s (some turn) new found (kept, same) =
      let e : turn.id ≡ id = honest id turn found in
      let moved : Permᴰ
          (turn_ids s.selected ++ turn.id ∷ candidate_ids fl store policy anchor_id s.frontier)
          (turn.id ∷ all_ids s) =
        Permᴰ.middle turn.id (turn_ids s.selected)
          (candidate_ids fl store policy anchor_id s.frontier) in
      (
        record {
          near = (omega (arith, small, ap length same), kept.near);
          covered = λ v h. elim (Bool-cases (v == id)) [
            | inl here ↦ inl (ground (arith, contains-perm v moved, e, here))
            | inr other ↦
                ⊎_elim (λ there. inl (ground (arith, contains-perm v moved, there))) inr
                  (kept.covered v (ground (arith, other)))
          ];
          closed = λ u v h near. ground (arith, kept.closed u v h near);
        },
        same,
      )

  -- What the loop keeps.
  pub record Whole (s : Expansion F) : Type 0 where
    pub budget : length s.selected ≤ policy.max_nodes
    pub kept : Kept (turn_ids s.selected) s

  All-le-suc :
      (n : ℕ) (cs : List (ExpansionCandidate F))
      → All (λ c. c.distance ≤ n) cs
      → All (λ c. c.distance ≤ n + 1) cs
  All-le-suc n [] h = tt
  All-le-suc n (c ∷ cs) h = (omega (arith, h.0), All-le-suc n cs h.1)

  choose-Kept :
      (s : Expansion F) (c : ExpansionCandidate F) (rest : List (ExpansionCandidate F))
      → pop fl s.frontier ≡ some (c, rest)
      → Kept (turn_ids s.selected) s
      → Kept (turn_ids s.selected) (choose fl store policy s c rest)
  choose-Kept s c rest popped kept =
      let (_, near) =
        pop-All fl (λ c. c.distance ≤ length s.selected) s.frontier c rest kept.near popped in
      let moved = choose-perm fl store policy anchor_id s c rest popped in
      record {
        near =
            subst (λ n. All (λ c. c.distance ≤ n) rest)
              (sym (length-append s.selected (c.turn ∷ [])))
              (All-le-suc (length s.selected) rest near);
        covered = λ v h.
            ⊎_elim (λ there. inl (sym (contains-perm v moved) ∙ there)) inr (kept.covered v h);
        closed = kept.closed;
      }

  contains-chosen :
      (s : Expansion F) (c : ExpansionCandidate F) (u : TurnId)
      → contains (turn_ids (s.selected ++ c.turn ∷ [])) u ≡ true
      → (contains (turn_ids s.selected) u ≡ true) ⊎ (u ≡ c.turn.id)
  contains-chosen s c u h =
      let parts =
        ap (λ l. contains l u) (map-append (λ t. t.id) s.selected (c.turn ∷ []))
        ∙ contains-append (turn_ids s.selected) (c.turn.id ∷ []) u in
      elim (Bool-cases (contains (turn_ids s.selected) u)) [
        | inl old ↦ inl old
        | inr new ↦ inr (ground (arith, parts, h, new))
      ]

  module _ (honest : IsHonest store) (wide : policy.max_nodes ≤ policy.max_radius)
      (small : policy.max_radius + 1 < 2 ^ 32) where
    grown-Whole :
        (s : Expansion F) (c : ExpansionCandidate F) (rest : List (ExpansionCandidate F))
        (t : Expansion F)
        → pop fl s.frontier ≡ some (c, rest)
        → length s.selected < policy.max_nodes
        → expand fl store policy c.distance
            (next_distance c.distance)
            c.turn.id
            (choose fl store policy s c rest)
          ≡ ok t
        → Whole s
        → Whole t
    grown-Whole s c rest t popped room grew whole =
        let chosen = s.selected ++ c.turn ∷ [] in
        let (close, _) =
          pop-All fl (λ c. c.distance ≤ length s.selected) s.frontier c rest whole.kept.near
            popped in
        let longer = length-append s.selected (c.turn ∷ []) in
        let (kept, same) =
          expand_rule fl store policy (λ u. Kept (turn_ids s.selected) u × (u.selected ≡ chosen))
            c.distance (next_distance c.distance) c.turn.id (choose fl store policy s c rest) t
            (λ v _.
              push-Kept honest (turn_ids s.selected) chosen (next_distance c.distance) v
                (omega (arith, close, longer)))
            (λ v _.
              push-Kept honest (turn_ids s.selected) chosen c.distance v
                (omega (arith, close, longer)))
            grew (choose-Kept s c rest popped whole.kept, refl) in
        record {
          budget = omega (arith, room, longer, ap length same);
          kept = record {
            near = kept.near;
            covered = kept.covered;
            closed = λ u v h near.
                ⊎_elim (λ old. kept.closed u v old near)
                  (λ e.
                    expand-Seen fl store policy c.distance (next_distance c.distance) c.turn.id
                      (choose fl store policy s c rest) t v grew
                      (subst (λ w. Linked store w v) e near))
                  (contains-chosen s c u (subst (λ l. contains (turn_ids l) u ≡ true) same h));
          };
        }

    pub round-Whole :
        (s t : Expansion F) → Whole s → round fl store policy s ≡ continues t → Whole t
    round-Whole s t whole h = elim (round_view fl store policy s) [
      | drained empty e ↦ absurd (ground (arith, e))
      | full c rest popped no_room e ↦ absurd (ground (arith, e))
      | far c rest popped beyond e ↦
          let (close, _) =
            pop-All fl (λ c. c.distance ≤ length s.selected) s.frontier c rest whole.kept.near
              popped in
          absurd (omega (arith, whole.budget, close, beyond))
      | leaf c rest popped room within last_step e ↦
          let (close, _) =
            pop-All fl (λ c. c.distance ≤ length s.selected) s.frontier c rest whole.kept.near
              popped in
          absurd (omega (arith, close, last_step))
      | grown c rest u popped room within next grew e ↦
          let same : u ≡ t = ground (arith, e) in
          subst Whole same (grown-Whole s c rest u popped room grew whole)
      | broken c rest x popped bad e ↦ absurd (ground (arith, e))
    ]

    pub start-Whole :
        (anchor : TurnSnapshot F)
        → anchor.id ≡ anchor_id
        → Whole (start fl store policy anchor anchor_id)
    unfolding Scoring.new
    start-Whole anchor e = record {
      budget = omega arith;
      kept = record {
        near = (omega arith, tt);
        covered = λ v h. inl (ground (arith, h, e));
        closed = λ u v h near. cc;
      };
    }
