-- ===== src/Slicer/Invariant.antt =====
-- The invariant of the loop of src/slicer.rs: budget, radius, walks, and each turn once.
use mathlib.Core.List.{map-append, append_assoc}
use mathlib.Core.List.Permᴰ
use admissibility_kernel.Base.{
  ℕ, ◌+◌, ◌^◌, ◌≤◌, ◌<◌, ◌≡◌, refl, sym, ap, ◌∙◌, subst, List, [], ◌∷◌, ◌++◌, map, none, some, true,
  ok, All, All-append, length, length-append, contains, Distinct, Permᴰ, arith,
}
use admissibility_kernel.Base.Membership.{contains-perm, Distinct-perm}
use admissibility_kernel.Crates.{Floats}
use admissibility_kernel.Types.Turn.{TurnId, TurnSnapshot}
use admissibility_kernel.Types.Slice.{turn_ids}
use admissibility_kernel.Policy.V1.{SlicePolicyV1}
use admissibility_kernel.Policy.Scoring
use admissibility_kernel.Policy.Scoring.{ExpansionCandidate}
use admissibility_kernel.Store.{GraphStore}
use admissibility_kernel.Slicer.{Expansion, continues, push_turn, next_distance, round, start}
use admissibility_kernel.Slicer.Frontier.{pop}
use admissibility_kernel.Slicer.Frontier.Pop.{pop-All, pop-perm}
use admissibility_kernel.Slicer.Rules.{Walk, here, link, aside, Pushes, expand_rule}
use admissibility_kernel.Slicer.Rounds.{choose, round_view, drained, full, far, leaf, grown, broken}

-- A turn that the store returns is the one that was asked for.
abbrev pub IsHonest : {F E : Type 0} → GraphStore F E → Type 0
IsHonest {F} store =
    (id : TurnId) (turn : TurnSnapshot F) → store.get_turn id ≡ ok (some turn) → turn.id ≡ id

module _ {F E : Type 0} (fl : Floats F) (store : GraphStore F E) (policy : SlicePolicyV1 F)
    (anchor_id : TurnId) where
  abbrev pub candidate_ids : List (ExpansionCandidate F) → List TurnId
  candidate_ids = map (λ c. c.turn.id)

  -- A walk within the radius leads to the turn.
  abbrev pub Reached : TurnId → Type 0
  Reached v = (d : ℕ) × (d ≤ policy.max_radius) × Walk store policy anchor_id v d

  abbrev Placed : ExpansionCandidate F → Type 0
  Placed c = (c.distance ≤ policy.max_radius) × Walk store policy anchor_id c.turn.id c.distance

  abbrev pub ids : Expansion F → List TurnId
  ids s = turn_ids s.selected ++ candidate_ids s.frontier

  pub record Inv (s : Expansion F) : Type 0 where
    pub budget : length s.selected ≤ policy.max_nodes
    pub placed : All Placed s.frontier
    pub reached : All (λ t. Reached t.id) s.selected
    pub distinct : Distinct (ids s)
    pub seen : (v : TurnId) → contains (ids s) v ≡ true → contains s.visited v ≡ true

  push-Inv :
      IsHonest store
      → (d : ℕ) (v : TurnId) → d ≤ policy.max_radius
      → Walk store policy anchor_id v d
      → Pushes fl store policy Inv d v
  unfolding push_turn Scoring.new
  push-Inv honest d v near walk s none new found inv = record {
    budget = inv.budget;
    placed = inv.placed;
    reached = inv.reached;
    distinct = inv.distinct;
    seen = λ w h. ground (arith, inv.seen w h);
  }
  push-Inv honest d v near walk s (some turn) new found inv =
      let e : turn.id ≡ v = honest v turn found in
      let moved : Permᴰ (turn_ids s.selected ++ turn.id ∷ candidate_ids s.frontier)
          (turn.id ∷ ids s) =
        Permᴰ.middle turn.id (turn_ids s.selected) (candidate_ids s.frontier) in
      record {
        budget = inv.budget;
        placed = ((near, subst (λ w. Walk store policy anchor_id w d) (sym e) walk), inv.placed);
        reached = inv.reached;
        distinct =
            Distinct-perm (Permᴰ.symm moved) (ground (arith, inv.seen turn.id, e), inv.distinct);
        seen = λ w h. ground (arith, contains-perm w moved, inv.seen w, e);
      }

  -- A popped candidate moves from the frontier to the selected turns.
  pub choose-perm :
      (s : Expansion F) (c : ExpansionCandidate F) (rest : List (ExpansionCandidate F))
      → pop fl s.frontier ≡ some (c, rest)
      → Permᴰ (ids s) (ids (choose fl store policy s c rest))
  choose-perm s c rest popped =
      subst (Permᴰ (ids s))
        (sym (
          ap (λ l. l ++ candidate_ids rest) (map-append (λ t. t.id) s.selected (c.turn ∷ []))
          ∙ append_assoc (turn_ids s.selected) (c.turn.id ∷ []) (candidate_ids rest)))
        (Permᴰ.append_left (turn_ids s.selected) (
          Permᴰ.map (λ (x : ExpansionCandidate F). x.turn.id)
            (pop-perm fl s.frontier c rest popped)))

  choose-Inv :
      (s : Expansion F) (c : ExpansionCandidate F) (rest : List (ExpansionCandidate F))
      → pop fl s.frontier ≡ some (c, rest)
      → length s.selected < policy.max_nodes
      → Inv s
      → Inv (choose fl store policy s c rest)
  choose-Inv s c rest popped room inv =
      let (at_c, placed) = pop-All fl Placed s.frontier c rest inv.placed popped in
      let moved = choose-perm s c rest popped in
      record {
        budget = omega (arith, length-append s.selected (c.turn ∷ []));
        placed = placed;
        reached =
            All-append (λ t. Reached t.id) s.selected (c.turn ∷ []) inv.reached
              ((c.distance, at_c.0, at_c.1), tt);
        distinct = Distinct-perm moved inv.distinct;
        seen = λ v h. inv.seen v (contains-perm v moved ∙ h);
      }

  pub round-Inv :
      IsHonest store
      → policy.max_radius + 1 < 2 ^ 32
      → (s t : Expansion F) → Inv s
      → round fl store policy s ≡ continues t
      → Inv t
  round-Inv honest small s t inv h = elim (round_view fl store policy s) [
    | drained empty e ↦ absurd (ground (arith, e))
    | full c rest popped no_room e ↦ absurd (ground (arith, e))
    | far c rest popped beyond e ↦
        let (at_c, _) = pop-All fl Placed s.frontier c rest inv.placed popped in
        absurd (omega (arith, at_c.0))
    | leaf c rest popped room within last_step e ↦
        let same : choose fl store policy s c rest ≡ t = ground (arith, e) in
        subst Inv same (choose-Inv s c rest popped room inv)
    | grown c rest u popped room within next grew e ↦
        let (at_c, _) = pop-All fl Placed s.frontier c rest inv.placed popped in
        let same : u ≡ t = ground (arith, e) in
        subst Inv same (
          expand_rule fl store policy Inv c.distance (next_distance c.distance) c.turn.id
            (choose fl store policy s c rest) u
            (λ v near.
              push-Inv honest (next_distance c.distance) v next (link at_c.1 near (omega arith)))
            (λ v beside. push-Inv honest c.distance v within (aside at_c.1 beside)) grew
            (choose-Inv s c rest popped room inv))
    | broken c rest x popped bad e ↦ absurd (ground (arith, e))
  ]

  pub start-Inv :
      (anchor : TurnSnapshot F)
      → anchor.id ≡ anchor_id
      → Inv (start fl store policy anchor anchor_id)
  unfolding Scoring.new
  start-Inv anchor e = record {
    budget = omega arith;
    placed = ((omega arith, here e refl), tt);
    reached = tt;
    distinct = (refl, tt);
    seen = λ v h. ground arith;
  }
