-- ===== src/Atlas/Influence/Counting.antt =====
-- What `count_slices` knows of a turn, from the listings of the turn alone.
use admissibility_kernel.Base.{
  one_if, ℕ, zero, suc, ◌+◌, ◌≡◌, refl, ap, ap₂, sym, ◌∙◌, List, [], ◌∷◌, Option, none, some, Str,
  Permᴰ, arith,
}
use admissibility_kernel.Base.Order.{Ord, nat_ord, list_ord}
use admissibility_kernel.Base.Set.{same}
use admissibility_kernel.Base.Tree.{
  get, IsOrdered, get-insert_same, get-insert_other, insert-IsOrdered,
}
use admissibility_kernel.Base.Tree.Same.{ordered-ext}
use admissibility_kernel.Crates.{Crypto}
use admissibility_kernel.Types.Phase.{Phase}
use admissibility_kernel.Types.Turn.{TurnSnapshot}
use admissibility_kernel.Types.Slice.{SliceExport}
use admissibility_kernel.Atlas.Influence.{
  PhaseCounts, or_default, increment, count_one, TurnData, count_turn, count_turns, count_slices,
  anchor_phase,
}

abbrev pub Entry : Type 0
Entry = Option (ℕ × PhaseCounts)

-- One more listing by a slice of the phase.
abbrev pub listed : Phase → Entry → Entry
listed phase e = some (count_one phase (or_default e))

-- Some more listings.
unfoldable pub times : ℕ → Phase → Entry → Entry
times zero phase e = e
times (suc n) phase e = times n phase (listed phase e)

listed_comm : (p q : Phase) (e : Entry) → listed p (listed q e) ≡ listed q (listed p e)
unfolding count_one increment
listed_comm p q none = ground arith
listed_comm p q (some e) = ground arith

times-listed : (n : ℕ) (p q : Phase) (e : Entry) → times n p (listed q e) ≡ listed q (times n p e)
unfolding times
times-listed zero p q e = refl
times-listed (suc n) p q e = ap (times n p) (listed_comm p q e) ∙ times-listed n p q (listed p e)

times_comm : (n m : ℕ) (p q : Phase) (e : Entry) → times n p (times m q e) ≡ times m q (times n p e)
unfolding times
times_comm n zero p q e = refl
times_comm n (suc m) p q e = times_comm n m p q (listed q e) ∙ ap (times m q) (times-listed n p q e)

times-add : (n m : ℕ) (p : Phase) (e : Entry) → times (n + m) p e ≡ times m p (times n p e)
unfolding times
times-add zero m p e = let sum : zero + m ≡ m = omega arith in ap (λ k. times k p e) sum
times-add (suc n) m p e =
    let sum : suc n + m ≡ suc (n + m) = omega arith in
    ap (λ k. times k p e) sum ∙ times-add n m p (listed p e)

module _ {F : Type 0} (cr : Crypto F) where
  -- How often the turn is listed.
  abbrev pub listings : Str → List (TurnSnapshot F) → ℕ
  listings id [] = 0
  listings id (t ∷ turns) = one_if (same id (cr.uuid_string t.id)) + listings id turns

  -- What is known of the turn after the slices.
  unfoldable pub entry_of : Str → List (SliceExport F) → Entry → Entry
  entry_of id [] e = e
  entry_of id (s ∷ slices) e = entry_of id slices (times (listings id s.turns) (anchor_phase s) e)

  get-count_turn :
      (phase : Phase) (id j : Str) (m : TurnData)
      → IsOrdered m
      → get id (count_turn phase j m) ≡ times (one_if (same id j)) phase (get id m)
  unfolding count_turn times
  get-count_turn phase id j m h =
      let o : Ord Str = list_ord in
      let e = count_one phase (or_default (get j m)) in
      ground (arith, get-insert_same j e m, o.eq_of_cmp id j, get-insert_other j id e m)

  count_turn-IsOrdered :
      (phase : Phase) (j : Str) (m : TurnData) → IsOrdered m → IsOrdered (count_turn phase j m)
  unfolding count_turn
  count_turn-IsOrdered phase j m h = insert-IsOrdered j _ m h

  count_turns-IsOrdered :
      (phase : Phase) (turns : List (TurnSnapshot F)) (m : TurnData)
      → IsOrdered m
      → IsOrdered (count_turns cr phase turns m)
  unfolding count_turns
  count_turns-IsOrdered phase [] m h = h
  count_turns-IsOrdered phase (t ∷ turns) m h =
      count_turns-IsOrdered phase turns _ (count_turn-IsOrdered phase (cr.uuid_string t.id) m h)

  get-count_turns :
      (phase : Phase) (id : Str) (turns : List (TurnSnapshot F)) (m : TurnData)
      → IsOrdered m
      → get id (count_turns cr phase turns m) ≡ times (listings id turns) phase (get id m)
  unfolding count_turns times
  get-count_turns phase id [] m h = refl
  get-count_turns phase id (t ∷ turns) m h =
      let j = cr.uuid_string t.id in
      get-count_turns phase id turns (count_turn phase j m) (count_turn-IsOrdered phase j m h)
      ∙ (ap (times (listings id turns) phase) (get-count_turn phase id j m h)
          ∙ sym (times-add (one_if (same id j)) (listings id turns) phase (get id m)))

  pub count_slices-IsOrdered :
      (slices : List (SliceExport F)) (m : TurnData)
      → IsOrdered m
      → IsOrdered (count_slices cr slices m)
  unfolding count_slices
  count_slices-IsOrdered [] m h = h
  count_slices-IsOrdered (s ∷ slices) m h =
      count_slices-IsOrdered slices _ (count_turns-IsOrdered (anchor_phase s) s.turns m h)

  pub get-count_slices :
      (id : Str) (slices : List (SliceExport F)) (m : TurnData)
      → IsOrdered m
      → get id (count_slices cr slices m) ≡ entry_of id slices (get id m)
  unfolding count_slices entry_of
  get-count_slices id [] m h = refl
  get-count_slices id (s ∷ slices) m h =
      get-count_slices id slices _ (count_turns-IsOrdered (anchor_phase s) s.turns m h)
      ∙ ap (entry_of id slices) (get-count_turns (anchor_phase s) id s.turns m h)

  entry_of-perm :
      (id : Str) {slices others : List (SliceExport F)} (e : Entry)
      → Permᴰ slices others
      → entry_of id slices e ≡ entry_of id others e
  unfolding entry_of
  entry_of-perm id e Permᴰ.nil = refl
  entry_of-perm id e (Permᴰ.cons {a = s} {b = t} {l₁ = l} h p) =
      ap (λ x. entry_of id l (times (listings id x.turns) (anchor_phase x) e)) h
      ∙ entry_of-perm id (times (listings id t.turns) (anchor_phase t) e) p
  entry_of-perm id e (Permᴰ.swap {a = s} {b = t} {l = l} h k) =
      ap (entry_of id l)
        (times_comm (listings id t.turns) (listings id s.turns) (anchor_phase t) (anchor_phase s) e)
      ∙ ap₂
          (λ x y. entry_of id l (
            times (listings id y.turns) (anchor_phase y)
              (times (listings id x.turns) (anchor_phase x) e)))
          k h
  entry_of-perm id e (Permᴰ.trans p q) = entry_of-perm id e p ∙ entry_of-perm id e q

  -- The order of the slices does not matter.
  pub count_slices-perm :
      {slices others : List (SliceExport F)}
      → Permᴰ slices others
      → count_slices cr slices [] ≡ count_slices cr others []
  count_slices-perm {slices} {others} p =
      ordered-ext (count_slices cr slices []) (count_slices cr others [])
        (count_slices-IsOrdered slices [] tt) (count_slices-IsOrdered others [] tt)
        (λ id.
          get-count_slices id slices [] tt
          ∙ (entry_of-perm id (get id []) p ∙ sym (get-count_slices id others [] tt)))
