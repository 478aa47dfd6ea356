-- ===== src/Lib.antt =====
-- The admissibility kernel: a service that cuts a bounded slice of turns out of a graph of
-- conversations, and signs the slice so that others can check where it came from.
--
-- The parts and how they interact (paths from the repository's root):
--   src/slicer.rs asks a store for turns and neighbours, orders the frontier by the scores of
--   src/policy, and exports what it selects as a slice of src/types/slice.rs. The export sorts
--   turns and edges, hashes them into a fingerprint, and signs the fingerprint with the other
--   fields into a token. The token is verified before the slice leaves as a bundle of
--   src/types/admissible.rs. src/service holds the registry of policies and the handlers that
--   run the slicer and verify tokens. src/types/verification.rs verifies tokens with a cache,
--   src/types/boundary.rs confines queries to the turns of a slice, src/types/sufficiency.rs
--   asks a bundle for enough diversity, and src/canonical_content.rs hashes a turn's text.
--   src/atlas slices many anchors, finds the slices that share turns and the turns that are in
--   many slices, and packs what it finds with the name of the state of the graph.
--   src/store/postgres.rs reads the graph from a database, and src/types/incident.rs records
--   what goes wrong.
--
-- Which file models which part:
--   Base              lists, options, strings, numbers in decimal, orders, sorting, maps and
--                     sets, bits
--   Crates            what comes from outside: floats, and the crates for HMAC, SHA-256, hex,
--                     xxHash, UUID, JSON and the LRU cache, each a record of operations;
--                     CryptoLaws, FloatLaws and LruLaws state what the proofs use of them
--   Canonical         src/canonical.rs
--   CanonicalContent  src/canonical_content.rs; Normal and Normal/Hash prove
--   Types/Role, Types/Phase, Types/Turn, Types/Edge
--                     src/types/turn.rs and src/types/edge.rs
--   Types/Slice       src/types/slice.rs: Token (issue_hmac, verify_hmac), Search (the binary
--                     search behind contains_turn); Contents, Token/Verify, Token/Fields,
--                     Token/Format and Search/Correct prove
--   Types/Admissible  src/types/admissible.rs: from_verified; Authority proves
--   Types/Verification
--                     src/types/verification.rs: verify_token returns the verdict and the new
--                     verifier; Cache proves
--   Types/Boundary    src/types/boundary.rs; Access proves
--   Types/Diversity, Types/Sufficiency
--                     src/types/sufficiency.rs; Tally and Verdict prove
--   Types/Provenance  src/types/provenance.rs, with ProvenanceBuilder in Builder; Replay and
--                     Builder/Outcome prove
--   Types/Incident    src/types/incident.rs; Lifecycle and Counters prove
--   Policy            src/policy/v1.rs and src/policy/scoring.rs
--   Store             src/store/mod.rs, a record of answers; Store/Memory is
--                     src/store/memory.rs, with Mirror, Answers and Answers/Siblings for proofs;
--                     Store/Postgres is src/store/postgres.rs, with Answers and Verified for
--                     proofs; its PostgresConfig is in Postgres/Config, and Config/Printed proves
--   Slicer            src/slicer.rs: slice runs select_turns, whose loop is expand_loop with a
--                     round for each popped candidate, and then seal; Frontier is the heap.
--                     Rules, Rounds, Invariant, Anchor, Seen, Kept, Complete, Ends, Errors,
--                     Sound, Bundle, InMemory and Frontier/Greatest prove
--   Service           src/service/state.rs (State) and src/service/routes.rs (Messages, Routes,
--                     Routes/Health); State/Registry, Routes/Promises, Routes/Answers and
--                     Routes/Batch prove; Program is what src/bin/graph_kernel_service.rs reads and
--                     starts with, and Program/Start proves
--   Atlas/Overlap     src/atlas/overlap.rs: compute_overlap is OverlapAnalyzer::compute;
--                     Overlap/Pairs and Overlap/Symmetry prove
--   Atlas/Snapshot    src/atlas/snapshot.rs; Snapshot/Same proves
--   Atlas/Influence   src/atlas/influence.rs, with compute_phase_topology in Influence/Topology;
--                     Counting, Phases, Scores, Bridges and Batches prove
--   Atlas/BatchSlicer src/atlas/batch_slicer.rs: slice_all, whose loop is slice_loop; Anchors,
--                     Outcome, Signed and Index prove
--   Atlas/Bundler     src/atlas/bundler.rs; Bundler/Manifest proves
--   Samples           small stand-ins for the crates that satisfy the laws, and the theorems at
--                     small inputs
--
-- How the code is written down:
--   A TurnId is the 128-bit number of its UUID, whose order is that of the bytes. A String is
--   the list of its code points, and as_bytes its UTF-8. BTreeMap and BTreeSet are ordered
--   lists, a HashSet the list of its members, a BinaryHeap the list of its members from which
--   pop takes the greatest. A store is the record of its answers, which do not change during a
--   slice. The clock is an argument, now. A handler is one step, and locks are left out.
--   Numbers are natural numbers; distance + 1 wraps round at 2^32 as in a release build, and so
--   do the counts of src/atlas/influence.rs. A HashMap is kept as an ordered list where its order
--   cannot be seen. A panic is an error with the message. The answers of SQL queries are
--   arguments, a record with one field for each query.
--   An f32 is a member of any type with the operations of Floats, and FloatLaws says that all
--   but the NaNs are in a line. to_lowercase lowers ASCII letters, which is all that a
--   comparison with the words of the program can tell.
--
-- Bounds and fuel:
--   The loop of the slicer runs on max_nodes + 1 rounds, which suffice: every round that goes on
--   selects a turn, and the loop stops at max_nodes. The binary search runs on as many rounds as
--   the list is long. show_usize writes at most 20 digits, as a usize has.
--
-- What is not modelled:
--   The middleware, the router, the listener and the signals of the program, and the pool of
--   connections to the database are glue over other crates. The deprecated and test-only
--   constructors are left out, as are log lines and the two table schemas of
--   src/types/incident.rs.
mod Base
pub mod Crates
pub mod Canonical
pub mod CanonicalContent
pub mod Types
pub mod Policy
pub mod Store
pub mod Slicer
pub mod Service
pub mod Atlas
pub mod Samples
