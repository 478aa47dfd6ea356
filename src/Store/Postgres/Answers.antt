-- ===== src/Store/Postgres/Answers.antt =====
-- The store over PostgreSQL answers as the slicer needs it to.
use admissibility_kernel.Base.{
  ℕ, ◌%◌, ◌^◌, ◌<◌, ◌≡◌, ap, ◌∙◌, some, ok, Result-cases, Option-cases, inl, inr, arith,
}
use admissibility_kernel.Base.Int.{pos}
use admissibility_kernel.Crates.{Floats, Crypto}
use admissibility_kernel.Types.Turn
use admissibility_kernel.Types.Turn.{TurnId, TurnSnapshot, with_content_hash, new_with_content_hash}
use admissibility_kernel.Store.Postgres.{
  TurnRow, Database, as_u32, as_i32, parse_turn_row, parse_found, get_turn, postgres_store,
}
use admissibility_kernel.Slicer.Invariant.{IsHonest}

-- `SELECT id … WHERE id = $1`: a row that is found has the identifier that is asked for.
abbrev pub IsKeyed : {F S D : Type 0} → Database F S D → Type 0
IsKeyed {S} {D} db =
    (id : TurnId) (row : TurnRow S D) → db.turn_by_id id ≡ ok (some row) → row.id ≡ ok id

module _ {F S D : Type 0} (fl : Floats F) (cr : Crypto F) (db : Database F S D) where
  parse_turn_row-id :
      (row : TurnRow S D) (turn : TurnSnapshot F)
      → parse_turn_row fl cr db row ≡ ok turn
      → row.id ≡ ok turn.id
  unfolding parse_turn_row Turn.new with_content_hash new_with_content_hash
  parse_turn_row-id row turn h = ground arith

  get_turn-row :
      (id : TurnId) (turn : TurnSnapshot F)
      → get_turn fl cr db id ≡ ok (some turn)
      → (row : TurnRow S D) × (db.turn_by_id id ≡ ok (some row))
        × (parse_turn_row fl cr db row ≡ ok turn)
  unfolding get_turn parse_found
  get_turn-row id turn h = elim (Result-cases (db.turn_by_id id)) [
    | inr (e, bad) ↦ absurd (ground (arith, bad))
    | inl (found, good) ↦ elim (Option-cases found) [
      | inl missing ↦ absurd (ground (arith, good, missing))
      | inr (row, there) ↦ elim (Result-cases (parse_turn_row fl cr db row)) [
        | inr (e, bad) ↦ absurd (ground (arith, good, there, bad))
        | inl (t, parsed) ↦
            (row, good ∙ ap ok there, parsed ∙ ap ok (ground (arith, good, there, parsed)))
      ]
    ]
  ]

  -- If the rows that the database finds have the identifiers that they are asked for by, a turn that
  -- the store returns is the one that was asked for: what the slicer asks of a store.
  pub postgres_store-IsHonest : IsKeyed db → IsHonest (postgres_store fl cr db)
  postgres_store-IsHonest keyed id turn h =
      let (row, there, parsed) = get_turn-row id turn h in
      ground (arith, keyed id row there, parse_turn_row-id row turn parsed)

-- A limit below 2^31 reaches the database as it is. Another is negative or too small there; the cast
-- back gives it modulo 2^32.
pub as_i32_lem : (n : ℕ) → (n < 2 ^ 31 → as_i32 n ≡ pos n) × (as_u32 (as_i32 n) ≡ n % 2 ^ 32)
unfolding as_i32 as_u32
as_i32_lem n = (λ h. ground arith, ground arith)
