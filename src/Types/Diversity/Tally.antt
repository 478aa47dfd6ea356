-- ===== src/Types/Diversity/Tally.antt =====
-- What the counts of src/types/sufficiency.rs say of the turns.
use admissibility_kernel.Base.{
  ℕ, ◌+◌, ◌≡◌, refl, List, [], ◌∷◌, map, Bool, false, ◌&&◌, ◌||◌, length, ◌==◌, arith,
}
use admissibility_kernel.Crates.{Floats}
use admissibility_kernel.Types.Turn.{TurnSnapshot}
use admissibility_kernel.Types.Role.{Role, user, assistant}
use admissibility_kernel.Types.Admissible.{AdmissibleEvidenceBundle}
use admissibility_kernel.Types.Diversity.{
  role_rank, same_role, phase_rank, bump, tally, contains_key, from_bundle,
}

module _ {A : Type 0} (rank : A → ℕ) where
  abbrev by_rank : A → A → Bool
  by_rank a b = rank a == rank b

  -- `iter().any(|x| x == k)`
  abbrev any_same : List A → A → Bool
  any_same [] k = false
  any_same (x ∷ xs) k = by_rank k x || any_same xs k

  -- The sum of the counts.
  abbrev pub total : List (A × ℕ) → ℕ
  total [] = 0
  total ((k, n) ∷ m) = n + total m

  contains_key-bump :
      (x : A) (m : List (A × ℕ)) (k : A)
      → contains_key by_rank (bump by_rank x m) k ≡ by_rank k x || contains_key by_rank m k
  unfolding contains_key bump
  contains_key-bump x [] k = refl
  contains_key-bump x ((j, n) ∷ m) k = ground (arith, contains_key-bump x m k)

  contains_key-tally :
      (xs : List A) (m : List (A × ℕ)) (k : A)
      → contains_key by_rank (tally by_rank xs m) k ≡ contains_key by_rank m k || any_same xs k
  unfolding tally
  contains_key-tally [] m k = ground arith
  contains_key-tally (x ∷ xs) m k =
      ground (arith, contains_key-tally xs (bump by_rank x m) k, contains_key-bump x m k)

  total-bump : (x : A) (m : List (A × ℕ)) → total (bump by_rank x m) ≡ total m + 1
  unfolding bump
  total-bump x [] = refl
  total-bump x ((j, n) ∷ m) = ground (arith, total-bump x m)

  total-tally : (xs : List A) (m : List (A × ℕ)) → total (tally by_rank xs m) ≡ length xs + total m
  unfolding tally
  total-tally [] m = omega arith
  total-tally (x ∷ xs) m = omega (arith, total-tally xs (bump by_rank x m), total-bump x m)

-- Some turn has the role.
abbrev pub has_role : {F : Type 0} → List (TurnSnapshot F) → Role → Bool
has_role [] r = false
has_role (t ∷ turns) r = same_role r t.role || has_role turns r

module _ {F : Type 0} where
  any_same-has_role :
      (turns : List (TurnSnapshot F)) (r : Role)
      → any_same role_rank (map (λ t. t.role) turns) r ≡ has_role turns r
  any_same-has_role [] r = refl
  any_same-has_role (t ∷ turns) r = ground (arith, any_same-has_role turns r)

  length-roles :
      {A : Type 0} (f : TurnSnapshot F → A) (turns : List (TurnSnapshot F))
      → length (map f turns) ≡ length turns
  length-roles f [] = refl
  length-roles f (t ∷ turns) = omega (arith, length-roles f turns)

  -- The metrics of a bundle count every turn under one role and one phase, and they report an exchange
  -- exactly if the bundle has a turn of the user and one of the assistant.
  pub from_bundle_lem :
      (fl : Floats F) (b : AdmissibleEvidenceBundle F)
      → let m = from_bundle fl b in
        (m.turn_count ≡ length b.slice.turns)
        × (total role_rank m.role_distribution ≡ length b.slice.turns)
        × (total phase_rank m.phase_distribution ≡ length b.slice.turns)
        × (m.has_exchange ≡ has_role b.slice.turns user && has_role b.slice.turns assistant)
  unfolding from_bundle contains_key
  from_bundle_lem fl b =
      let roles = map (λ (t : TurnSnapshot F). t.role) b.slice.turns in
      let phases = map (λ (t : TurnSnapshot F). t.phase) b.slice.turns in
      (
        refl,
        omega (arith, total-tally role_rank roles [], length-roles (λ t. t.role) b.slice.turns),
        omega (arith, total-tally phase_rank phases [], length-roles (λ t. t.phase) b.slice.turns),
        ground (
          arith,
          contains_key-tally role_rank roles [] user,
          contains_key-tally role_rank roles [] assistant,
          any_same-has_role b.slice.turns user,
          any_same-has_role b.slice.turns assistant,
        ),
      )
