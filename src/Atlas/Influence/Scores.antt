-- ===== src/Atlas/Influence/Scores.antt =====
-- What `compute_influence` says of a turn.
use admissibility_kernel.Base.{
  ℕ, zero, suc, ◌+◌, ◌%◌, ◌^◌, ◌<◌, ◌≡◌, refl, ap, ap₂, ◌∙◌, List, [], ◌∷◌, map, Option, none, some,
  Str, Permᴰ, length, find, if◌then◌else◌, ◌==◌, arith,
}
use admissibility_kernel.Base.Membership.{length-perm}
use admissibility_kernel.Base.Order.{Ord, nat_ord, list_ord}
use admissibility_kernel.Base.Set.{same}
use admissibility_kernel.Base.Sort.{sort_by, insert_by}
use admissibility_kernel.Base.Tree.{get, IsOrdered}
use admissibility_kernel.Base.Tree.Same.{get-front}
use admissibility_kernel.Crates.{Floats, Crypto}
use admissibility_kernel.Types.Phase.{Phase}
use admissibility_kernel.Types.Diversity.{phase_rank}
use admissibility_kernel.Types.Slice.{SliceExport}
use admissibility_kernel.Atlas.Influence.{
  PhaseCounts, TurnInfluence, TurnData, total, count_one, or_default, anchor_phase, influence_cmp,
  new_scores, get_influence, to_influence, count_slices, compute_influence, is_cross_phase,
}
use admissibility_kernel.Atlas.Influence.Counting.{
  Entry, listed, times, listings, entry_of, get-count_slices, count_slices-IsOrdered,
  count_slices-perm,
}
use admissibility_kernel.Atlas.Influence.Phases.{count_of, count_of-increment, total-increment}

abbrev slices_of : Entry → ℕ
slices_of none = 0
slices_of (some e) = e.0

abbrev phase_slices_of : Phase → Entry → ℕ
phase_slices_of p e = count_of (or_default e).1 p

times-slices_of :
    (n : ℕ) (p : Phase) (e : Entry)
    → slices_of e < 2 ^ 32
    → slices_of (times n p e) ≡ (slices_of e + n) % 2 ^ 32
unfolding times count_one
times-slices_of zero p e h = omega arith
times-slices_of (suc n) p none h = ground (arith, times-slices_of n p (listed p none))
times-slices_of (suc n) p (some e) h = ground (arith, times-slices_of n p (listed p (some e)))

times-phase_slices_of :
    (n : ℕ) (q p : Phase) (e : Entry)
    → phase_slices_of p e < 2 ^ 32
    → phase_slices_of p (times n q e)
      ≡ (phase_slices_of p e + (if phase_rank p == phase_rank q then n else 0)) % 2 ^ 32
unfolding times count_one
times-phase_slices_of zero q p e h = ground arith
times-phase_slices_of (suc n) q p e h =
    ground
      (arith, times-phase_slices_of n q p (listed q e), count_of-increment (or_default e).1 q p)

-- The counts of phases add up to the count of slices.
abbrev IsTotal : Entry → Type 0
IsTotal e = total (or_default e).1 ≡ (or_default e).0

times-IsTotal : (n : ℕ) (p : Phase) (e : Entry) → IsTotal e → IsTotal (times n p e)
unfolding times count_one
times-IsTotal zero p e h = h
times-IsTotal (suc n) p e h =
    times-IsTotal n p (listed p e) (ground (arith, total-increment (or_default e).1 p))

times-there : (n : ℕ) (p : Phase) (e : Entry) → (times n p e ≡ none) → (n ≡ 0) × (e ≡ none)
unfolding times
times-there zero p e h = (refl, h)
times-there (suc n) p e h = ground (arith, times-there n p (listed p e))

-- The scores of an ordered map are in order.
module _ {F : Type 0} (fl : Floats F) (total_slices : ℕ) where
  insert-first :
      (k : Str) (e : ℕ × PhaseCounts) (m : TurnData)
      → IsOrdered ((k, e) ∷ m)
      → insert_by influence_cmp
          (to_influence fl total_slices (k, e))
          (map (to_influence fl total_slices) m)
        ≡ to_influence fl total_slices (k, e) ∷ map (to_influence fl total_slices) m
  unfolding insert_by to_influence
  insert-first k e [] h = refl
  insert-first k e ((j, d) ∷ m) h = ground arith

  pub sort_by-ordered :
      (m : TurnData)
      → IsOrdered m
      → sort_by influence_cmp (map (to_influence fl total_slices) m)
        ≡ map (to_influence fl total_slices) m
  unfolding sort_by
  sort_by-ordered [] h = refl
  sort_by-ordered ((k, e) ∷ m) h =
      ap (insert_by influence_cmp (to_influence fl total_slices (k, e))) (sort_by-ordered m h.1)
      ∙ insert-first k e m h

  -- The score of an entry.
  abbrev pub score_of : Str → Entry → Option (TurnInfluence F)
  score_of id none = none
  score_of id (some e) = some (to_influence fl total_slices (id, e))

  find-ordered :
      (id : Str) (m : TurnData)
      → IsOrdered m
      → find (λ t. same t.turn_id id) (map (to_influence fl total_slices) m)
        ≡ score_of id (get id m)
  unfolding get to_influence
  find-ordered id [] h = refl
  find-ordered id ((k, e) ∷ m) h =
      let o : Ord Str = list_ord in
      ground (
        arith,
        find-ordered id m,
        get-front id k m,
        o.cmp_reverse id k,
        o.eq_of_cmp id k,
        o.cmp_refl k,
      )

module _ {F : Type 0} (fl : Floats F) (cr : Crypto F) where
  pub get_influence-entry :
      (slices : List (SliceExport F)) (id : Str)
      → get_influence (compute_influence fl cr slices) id
        ≡ score_of fl (length slices) id (entry_of cr id slices none)
  unfolding get_influence compute_influence new_scores get
  get_influence-entry slices id =
      let m = count_slices cr slices [] in
      let ordered = count_slices-IsOrdered cr slices [] tt in
      ap (find (λ t. same t.turn_id id)) (sort_by-ordered fl (length slices) m ordered)
      ∙ (find-ordered fl (length slices) id m ordered
          ∙ ap (score_of fl (length slices) id) (get-count_slices cr id slices [] tt))

  -- Slices in another order give the same scores, and the same hash of them.
  pub compute_influence-perm :
      {slices others : List (SliceExport F)}
      → Permᴰ slices others
      → compute_influence fl cr slices ≡ compute_influence fl cr others
  unfolding compute_influence
  compute_influence-perm p =
      ap₂ (λ n m. new_scores cr (map (to_influence fl n) m) n) (length-perm p)
        (count_slices-perm cr p)

module _ {F : Type 0} (cr : Crypto F) where
  -- How often slices list the turn.
  abbrev pub appearances : Str → List (SliceExport F) → ℕ
  appearances id [] = 0
  appearances id (s ∷ slices) = listings cr id s.turns + appearances id slices

  -- How often slices list it whose anchor is in the phase.
  abbrev pub phase_appearances : Phase → Str → List (SliceExport F) → ℕ
  phase_appearances p id [] = 0
  phase_appearances p id (s ∷ slices) =
      (if phase_rank p == phase_rank (anchor_phase s) then listings cr id s.turns else 0)
      + phase_appearances p id slices

  entry-slices_of :
      (id : Str) (slices : List (SliceExport F)) (e : Entry)
      → slices_of e < 2 ^ 32
      → slices_of (entry_of cr id slices e) ≡ (slices_of e + appearances id slices) % 2 ^ 32
  unfolding entry_of
  entry-slices_of id [] e h = omega arith
  entry-slices_of id (s ∷ slices) e h =
      let n = listings cr id s.turns in
      let next = times n (anchor_phase s) e in
      omega (arith, times-slices_of n (anchor_phase s) e h, entry-slices_of id slices next)

  entry-phase_slices_of :
      (p : Phase) (id : Str) (slices : List (SliceExport F)) (e : Entry)
      → phase_slices_of p e < 2 ^ 32
      → phase_slices_of p (entry_of cr id slices e)
        ≡ (phase_slices_of p e + phase_appearances p id slices) % 2 ^ 32
  unfolding entry_of
  entry-phase_slices_of p id [] e h = omega arith
  entry-phase_slices_of p id (s ∷ slices) e h =
      let n = listings cr id s.turns in
      let next = times n (anchor_phase s) e in
      omega (
        arith,
        times-phase_slices_of n (anchor_phase s) p e h,
        entry-phase_slices_of p id slices next,
      )

  entry-IsTotal :
      (id : Str) (slices : List (SliceExport F)) (e : Entry)
      → IsTotal e
      → IsTotal (entry_of cr id slices e)
  unfolding entry_of
  entry-IsTotal id [] e h = h
  entry-IsTotal id (s ∷ slices) e h =
      entry-IsTotal id slices _ (times-IsTotal (listings cr id s.turns) (anchor_phase s) e h)

  pub entry-there :
      (id : Str) (slices : List (SliceExport F)) (e : Entry)
      → entry_of cr id slices e ≡ none
      → (appearances id slices ≡ 0) × (e ≡ none)
  unfolding entry_of
  entry-there id [] e h = (refl, h)
  entry-there id (s ∷ slices) e h =
      let n = listings cr id s.turns in
      ground (
        arith,
        entry-there id slices (times n (anchor_phase s) e) h,
        times-there n (anchor_phase s) e,
      )

  entry-absent :
      (id : Str) (slices : List (SliceExport F)) (e : Entry)
      → appearances id slices ≡ 0
      → entry_of cr id slices e ≡ e
  unfolding entry_of times
  entry-absent id [] e h = refl
  entry-absent id (s ∷ slices) e h =
      let none_here : listings cr id s.turns ≡ 0 = omega arith in
      ap (λ n. entry_of cr id slices (times n (anchor_phase s) e)) none_here
      ∙ entry-absent id slices e (omega arith)

  -- The score is that of the turn in the slices.
  pub record IsScore (slices : List (SliceExport F)) (id : Str) (t : TurnInfluence F) : Type 0 where
    pub is_turn : t.turn_id ≡ id
    pub seen : 0 < appearances id slices
    pub slices_counted : t.slice_count ≡ appearances id slices % 2 ^ 32
    pub phases_counted :
        (p : Phase) → count_of t.phase_distribution p ≡ phase_appearances p id slices % 2 ^ 32
    pub sum_counted : total t.phase_distribution ≡ t.slice_count
    pub bridge : t.is_bridge ≡ is_cross_phase t.phase_distribution

  pub entry-IsScore :
      (fl : Floats F) (slices : List (SliceExport F)) (id : Str) (e : ℕ × PhaseCounts) (n : ℕ)
      → entry_of cr id slices none ≡ some e
      → IsScore slices id (to_influence fl n (id, e))
  unfolding to_influence total
  entry-IsScore fl slices id e n found = record {
    is_turn = refl;
    seen = ground (arith, entry-absent id slices none);
    slices_counted = ground (arith, entry-slices_of id slices none);
    phases_counted = λ p. ground (arith, entry-phase_slices_of p id slices none);
    sum_counted = ground (arith, entry-IsTotal id slices none refl);
    bridge = refl;
  }
