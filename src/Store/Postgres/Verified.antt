-- ===== src/Store/Postgres/Verified.antt =====
-- What `get_turn_with_verified_content` of src/store/postgres.rs lets through.
use admissibility_kernel.Base.{
  ◌≡◌, ◌≢◌, ◌⊎◌, refl, sym, subst, ap, ◌∙◌, Option, none, some, true, false, Str, Result, ok, err,
  Result-cases, Option-cases, Bool-cases, inl, inr, arith, as_bytes,
}
use admissibility_kernel.Crates.{Floats, Crypto}
use admissibility_kernel.CanonicalContent
use admissibility_kernel.CanonicalContent.{validate_content_hash, compute_content_hash}
use admissibility_kernel.CanonicalContent.Normal.Hash.{verify_content_hash_iff}
use admissibility_kernel.Types.Turn.{TurnId, TurnSnapshot, has_content_hash, verify_content_hash}
use admissibility_kernel.Store.Postgres.{
  TurnRow, Database, PostgresError, database, content_hash_mismatch, text_of, parse_turn_row,
  verified_content, get_turn_with_verified_content,
}

module _ {F S D : Type 0} (fl : Floats F) (cr : Crypto F) (db : Database F S D) where
  -- The hash, if there is one, is that of the text.
  abbrev pub IsHashOf : Option Str → Str → Type 0
  IsHashOf none text = Unit
  IsHashOf (some hash) text = as_bytes (compute_content_hash cr text) ≡ as_bytes hash

  -- What a row may give.
  abbrev pub IsVerified :
      TurnRow S D → Result (PostgresError S) (Option (TurnSnapshot F × Str)) → Type 0
  IsVerified row (ok none) = ⊥
  IsVerified row (ok (some (turn, text))) =
      (parse_turn_row fl cr db row ≡ ok turn)
      × (text ≡ text_of row.content_text)
      × IsHashOf turn.content_hash text
  IsVerified row (err (database e)) = parse_turn_row fl cr db row ≡ err e
  IsVerified row (err (content_hash_mismatch e)) =
      (turn : TurnSnapshot F) × (parse_turn_row fl cr db row ≡ ok turn)
      × (turn.content_hash ≡ some e.stored)
      × (as_bytes (compute_content_hash cr (text_of row.content_text)) ≢ as_bytes e.stored)

  module _ (row : TurnRow S D) (turn : TurnSnapshot F)
      (parsed : parse_turn_row fl cr db row ≡ ok turn) where
    passed :
        (turn.content_hash ≡ none)
          ⊎ ((hash : Str) × (turn.content_hash ≡ some hash)
              × (CanonicalContent.verify_content_hash cr (text_of row.content_text) hash ≡ true))
        → verified_content fl cr db (some row) ≡ ok (some (turn, text_of row.content_text))
    unfolding verified_content has_content_hash verify_content_hash validate_content_hash
    passed (inl missing) = ground (arith, parsed, missing)
    passed (inr (hash, there, same)) = ground (arith, parsed, there, same)

    refused :
        (hash : Str)
        → turn.content_hash ≡ some hash
        → CanonicalContent.verify_content_hash cr (text_of row.content_text) hash ≡ false
        → verified_content fl cr db (some row)
          ≡ err (
              content_hash_mismatch (record {
                turn_id = turn.id;
                stored = hash;
                computed = compute_content_hash cr (text_of row.content_text);
              }))
    unfolding verified_content has_content_hash verify_content_hash validate_content_hash
    refused hash there other = ground (arith, parsed, there, other)

    parsed-IsVerified : IsVerified row (verified_content fl cr db (some row))
    parsed-IsVerified = elim (Option-cases turn.content_hash) [
      | inl missing ↦
          subst (IsVerified row) (sym (passed (inl missing))) (parsed, refl, rw missing tt)
      | inr (hash, there) ↦
          elim (Bool-cases
            (CanonicalContent.verify_content_hash cr (text_of row.content_text) hash)) [
              | inl same ↦ subst (IsVerified row) (sym (passed (inr (hash, there, same)))) (
                parsed,
                refl,
                rw there ((verify_content_hash_iff cr (text_of row.content_text) hash).0 same),
              )
              | inr different ↦ subst (IsVerified row) (sym (refused hash there different)) (
                turn,
                parsed,
                there,
                λ e.
                    let same = (verify_content_hash_iff cr (text_of row.content_text) hash).1 e in
                    cc,
              )
            ]
    ]

  unread :
      (row : TurnRow S D) (e : S)
      → parse_turn_row fl cr db row ≡ err e
      → verified_content fl cr db (some row) ≡ err (database e)
  unfolding verified_content
  unread row e bad = ground (arith, bad)

  asked :
      (id : TurnId) (row : TurnRow S D)
      → db.content_by_id id ≡ ok (some row)
      → get_turn_with_verified_content fl cr db id ≡ verified_content fl cr db (some row)
  unfolding get_turn_with_verified_content
  asked id row there = ground (arith, there)

  verified_content-IsVerified :
      (row : TurnRow S D) → IsVerified row (verified_content fl cr db (some row))
  verified_content-IsVerified row = elim (Result-cases (parse_turn_row fl cr db row)) [
    | inr (e, bad) ↦ subst (IsVerified row) (sym (unread row e bad)) bad
    | inl (turn, parsed) ↦ parsed-IsVerified row turn parsed
  ]

  -- What the query may give.
  abbrev pub IsAnswer : TurnId → Result (PostgresError S) (Option (TurnSnapshot F × Str)) → Type 0
  IsAnswer id r =
      ((e : S) × (db.content_by_id id ≡ err e) × (r ≡ err (database e)))
      ⊎ ((db.content_by_id id ≡ ok none) × (r ≡ ok none))
      ⊎ ((row : TurnRow S D) × (db.content_by_id id ≡ ok (some row)) × IsVerified row r)

  -- An error of the query is passed on, and no row gives no turn. A row that is read gives its turn
  -- and its text, and then the turn has no hash or the hash of the text; or it gives a mismatch, and
  -- then its hash is not that of the text. A row that cannot be read gives the error of the reading.
  pub get_turn_with_verified_content_lem :
      (id : TurnId) → IsAnswer id (get_turn_with_verified_content fl cr db id)
  unfolding get_turn_with_verified_content verified_content
  get_turn_with_verified_content_lem id = elim (Result-cases (db.content_by_id id)) [
    | inr (e, bad) ↦ inl (e, bad, ground (arith, bad))
    | inl (found, good) ↦ elim (Option-cases found) [
      | inl missing ↦ inr (inl (good ∙ ap ok missing, ground (arith, good, missing)))
      | inr (row, there) ↦
          let all = good ∙ ap ok there in
          inr (
            inr (
              row,
              all,
              subst (IsVerified row) (sym (asked id row all)) (verified_content-IsVerified row),
            ))
    ]
  ]
