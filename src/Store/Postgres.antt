-- ===== src/Store/Postgres.antt =====
-- src/store/postgres.rs: the store over PostgreSQL. The answers of the SQL queries are arguments, one
-- for each query, with rows of cells that may fail to decode; a cell that is read by `get`, which
-- panics where `try_get` fails, is one that decodes.
pub mod Answers
pub mod Verified
pub mod Config
use admissibility_kernel.Base.{
  unwrap_or, and_then, map_option, ℕ, ◌+◌, ◌-◌, ◌%◌, ◌^◌, List, [], ◌∷◌, ◌++◌, map, Bool, true,
  false, Option, none, some, Str, codes, Result, ok, err, ◌>>=◌, ltb, if◌then◌else◌,
}
use admissibility_kernel.Base.Int.{ℤ, pos, negsuc}
use admissibility_kernel.Crates.{Floats, Crypto}
use admissibility_kernel.Types.Role
use admissibility_kernel.Types.Role.{Role}
use admissibility_kernel.Types.Phase
use admissibility_kernel.Types.Phase.{Phase}
use admissibility_kernel.Types.Turn
use admissibility_kernel.Types.Turn.{
  TurnId, TurnSnapshot, ContentHashError, with_content_hash, has_content_hash, verify_content_hash,
}
use admissibility_kernel.Types.Edge
use admissibility_kernel.Types.Edge.{Edge, EdgeType}
use admissibility_kernel.Store.{GraphStore}

-- A row of `memory_turns`: `S` is `sqlx::Error`, and `D` is `f64`. A cell may be NULL.
pub record TurnRow (S D : Type 0) : Type 0 where
  pub id : Result S ℕ
  pub conversation_id : Result S (Option ℕ)
  pub role : Result S (Option Str)
  pub phase : Result S (Option Str)
  pub salience_score : Result S (Option D)
  pub trajectory_depth : Result S (Option ℤ)
  pub trajectory_sibling_order : Result S (Option ℤ)
  pub trajectory_homogeneity : Result S (Option D)
  pub trajectory_temporal : Result S (Option D)
  pub trajectory_complexity : Result S (Option ℤ)
  -- `timestamp()` of the cell
  pub created_at : Result S ℤ
  pub content_hash : Result S (Option Str)
  pub content_text : Result S Str

-- A row of `memory_turn_edges`.
pub record EdgeRow : Type 0 where
  pub parent_turn_id : ℕ
  pub child_turn_id : ℕ
  pub edge_type : Option Str

-- The queries of the file, in the order in which they stand there, and the casts of `f64` and `i32`.
pub record Database (F S D : Type 0) : Type 0 where
  pub ping : Result S (Unit {0})
  pub content_by_id : ℕ → Result S (Option (TurnRow S D))
  pub turn_by_id : ℕ → Result S (Option (TurnRow S D))
  pub turns_by_ids : List ℕ → Result S (List (TurnRow S D))
  pub parents_of : ℕ → Result S (List ℕ)
  pub children_of : ℕ → Result S (List ℕ)
  pub siblings_of : ℕ → ℤ → Result S (List ℕ)
  pub edges_among : List ℕ → Result S (List EdgeRow)
  pub half : D
  pub narrow : D → F
  pub of_i32 : ℤ → F
  pub show_error : S → Str

pub data PostgresError (S : Type 0) : Type 0 where
  database : S → PostgresError S
  content_hash_mismatch : ContentHashError → PostgresError S

-- `?` on what fails with a `sqlx::Error`
abbrev pub from_database : {S A : Type 0} → Result S A → Result (PostgresError S) A
from_database (ok a) = ok a
from_database (err e) = err (database e)

-- `?` on what fails with a `ContentHashError`
abbrev pub from_mismatch : {S A : Type 0} → Result ContentHashError A → Result (PostgresError S) A
from_mismatch (ok a) = ok a
from_mismatch (err e) = err (content_hash_mismatch e)

-- `i as u32`
unfoldable pub as_u32 : ℤ → ℕ
as_u32 (pos n) = n % 2 ^ 32
as_u32 (negsuc n) = 2 ^ 32 - 1 - n % 2 ^ 32

-- `n as i32`
unfoldable pub as_i32 : ℕ → ℤ
as_i32 n = let w = n % 2 ^ 32 in if ltb w (2 ^ 31) then pos w else negsuc (2 ^ 32 - 1 - w)

-- `unwrap_or_default`
abbrev pub text_of : {S : Type 0} → Result S Str → Str
text_of (ok text) = text
text_of (err e) = []

-- `iter().map(f).collect::<Result<Vec<_>, _>>()`
unfoldable pub collect_rows : {E A B : Type 0} → (A → Result E B) → List A → Result E (List B)
collect_rows f [] = ok []
collect_rows f (x ∷ xs) = f x >>= λ y. collect_rows f xs >>= λ ys. ok (y ∷ ys)

module _ {F S D : Type 0} (fl : Floats F) (cr : Crypto F) (db : Database F S D) where
  unfoldable pub parse_turn_row : TurnRow S D → Result S (TurnSnapshot F)
  unfolding Role.from_str Phase.from_str Turn.new with_content_hash as_u32
  parse_turn_row row = do
    id ← row.id
    conversation_id ← row.conversation_id
    role_str ← row.role
    phase_str ← row.phase
    salience ← row.salience_score
    depth ← row.trajectory_depth
    sibling_order ← row.trajectory_sibling_order
    homogeneity ← row.trajectory_homogeneity
    temporal ← row.trajectory_temporal
    complexity ← row.trajectory_complexity
    created_at ← row.created_at
    content_hash ← row.content_hash
    ok (
        with_content_hash
          (Turn.new fl id (unwrap_or (map_option cr.uuid_string conversation_id) [])
            (unwrap_or (and_then role_str Role.from_str) Role.default)
            (unwrap_or (and_then phase_str Phase.from_str) Phase.default)
            (db.narrow (unwrap_or salience db.half)) (as_u32 (unwrap_or depth (pos 0)))
            (as_u32 (unwrap_or sibling_order (pos 0))) (db.narrow (unwrap_or homogeneity db.half))
            (db.narrow (unwrap_or temporal db.half)) (db.of_i32 (unwrap_or complexity (pos 1)))
            created_at)
          content_hash)

  -- `None` if there is no row.
  unfoldable pub parse_found :
      Option (TurnRow S D) → Result (PostgresError S) (Option (TurnSnapshot F))
  unfolding parse_turn_row
  parse_found none = ok none
  parse_found (some row) = from_database (parse_turn_row row) >>= λ turn. ok (some turn)

  unfoldable pub get_turn : TurnId → Result (PostgresError S) (Option (TurnSnapshot F))
  unfolding parse_found
  get_turn id = from_database (db.turn_by_id id) >>= parse_found

  unfoldable pub get_turns : List TurnId → Result (PostgresError S) (List (TurnSnapshot F))
  unfolding parse_turn_row collect_rows
  get_turns ids = from_database (db.turns_by_ids ids) >>= λ rows.
      from_database (collect_rows parse_turn_row rows)

  -- The turn and its text, if the row's hash is that of the text.
  unfoldable pub verified_content :
      Option (TurnRow S D) → Result (PostgresError S) (Option (TurnSnapshot F × Str))
  unfolding parse_turn_row has_content_hash
  verified_content none = ok none
  verified_content (some row) = do
    turn ← from_database (parse_turn_row row)
    let content_text = text_of row.content_text
    checked ←
        if has_content_hash turn
        then from_mismatch (verify_content_hash cr turn content_text)
        else ok tt
    ok (some (turn, content_text))

  unfoldable pub get_turn_with_verified_content :
      TurnId → Result (PostgresError S) (Option (TurnSnapshot F × Str))
  unfolding verified_content
  get_turn_with_verified_content id = from_database (db.content_by_id id) >>= verified_content

module _ {F S D : Type 0} (db : Database F S D) where
  unfoldable pub is_healthy : Bool
  is_healthy = elim db.ping [ ok _ ↦ true | err _ ↦ false ]

  unfoldable pub get_parents : TurnId → Result (PostgresError S) (List TurnId)
  get_parents id = from_database (db.parents_of id)

  unfoldable pub get_children : TurnId → Result (PostgresError S) (List TurnId)
  get_children id = from_database (db.children_of id)

  unfoldable pub get_siblings : TurnId → ℕ → Result (PostgresError S) (List TurnId)
  unfolding as_i32
  get_siblings id limit = from_database (db.siblings_of id (as_i32 limit))

  unfoldable pub parse_edge_row : EdgeRow → Edge
  unfolding Edge.from_str Edge.new
  parse_edge_row row =
      Edge.new row.parent_turn_id row.child_turn_id
        (unwrap_or (and_then row.edge_type Edge.from_str) EdgeType.default)

  unfoldable pub get_edges : List TurnId → Result (PostgresError S) (List Edge)
  unfolding parse_edge_row
  get_edges turn_ids =
      from_database (db.edges_among turn_ids) >>= λ rows. ok (map parse_edge_row rows)

module _ {F : Type 0} (cr : Crypto F) where
  -- `Display for ContentHashError`
  unfoldable pub show_mismatch : ContentHashError → Str
  show_mismatch e =
      codes "Content hash mismatch for turn "
      ++ (cr.uuid_string e.turn_id
          ++ (codes ": stored=" ++ (e.stored ++ (codes ", computed=" ++ e.computed))))

  -- `Display for PostgresError`
  unfoldable pub show_postgres_error : {S : Type 0} → (S → Str) → PostgresError S → Str
  unfolding show_mismatch
  show_postgres_error show_error (database e) = codes "Database error: " ++ show_error e
  show_postgres_error show_error (content_hash_mismatch e) =
      codes "Content hash verification failed: " ++ show_mismatch e

-- `GraphStore for PostgresGraphStore`
abbrev pub postgres_store :
    {F S D : Type 0} → Floats F → Crypto F → Database F S D → GraphStore F (PostgresError S)
postgres_store fl cr db = record {
  get_turn = get_turn fl cr db;
  get_turns = get_turns fl cr db;
  get_parents = get_parents db;
  get_children = get_children db;
  get_siblings = get_siblings db;
  get_edges = get_edges db;
  error_string = show_postgres_error cr db.show_error;
}
