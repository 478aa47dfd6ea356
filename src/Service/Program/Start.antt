-- ===== src/Service/Program/Start.antt =====
-- The state that the program of src/bin starts with.
use admissibility_kernel.Base.{
  ◌<◌, [], ◌∷◌, Option, none, some, Str, length, length-as_bytes, arith,
}
use admissibility_kernel.Crates.{Floats, Crypto}
use admissibility_kernel.Policy.V1
use admissibility_kernel.Policy.V1.{SlicePolicyV1}
use admissibility_kernel.Base.{◌≡◌, ap, sym, ◌∙◌, ◌≤◌, ◌+◌, ◌^◌, true, ok, length-map}
use admissibility_kernel.Base.Int.{ℤ}
use admissibility_kernel.Crates.{CryptoLaws}
use admissibility_kernel.Slicer.Bundle.{slice_sound}
use admissibility_kernel.Types.Admissible.{bundle_turn_ids}
use admissibility_kernel.Store.Postgres.{Database, PostgresError, postgres_store}
use admissibility_kernel.Store.Postgres.Answers.{IsKeyed, postgres_store-IsHonest}
use admissibility_kernel.Service.State.{ServiceState, PolicyRef, PolicyRegistry}
use admissibility_kernel.Service.Messages.{SliceRequest, SliceResponse}
use admissibility_kernel.Service.Routes.{to_dto, choose_policy, slice_handler, verify_token_handler}
use admissibility_kernel.Service.Routes.Promises.{ask, slice_handler-Served, slice_handler_valid}
use admissibility_kernel.Store.{GraphStore}
use admissibility_kernel.Store.Postgres.Config.{Environment}
use admissibility_kernel.Service.State.{with_registry, with_defaults}
use admissibility_kernel.Service.State.Registry.{Built, empty, registered}
use admissibility_kernel.Service.Program.{choose_secret, start_state}

choose_secret-pos : (secret : Option Str) → 0 < length (choose_secret secret)
unfolding choose_secret
choose_secret-pos none = omega arith
choose_secret-pos (some []) = omega arith
choose_secret-pos (some (c ∷ s)) = length-as_bytes c s

-- Whatever the environment, the program signs with a secret that is not empty, and its registry is
-- built by registering policies.
pub start_lem :
    {F E : Type 0} (fl : Floats F) (cr : Crypto F) (store : GraphStore F E) (env : Environment)
    → (0 < length (start_state fl cr store env).hmac_secret)
      × Built fl cr (start_state fl cr store env).policy_registry
unfolding start_state with_registry with_defaults
start_lem fl cr store env = (choose_secret-pos _, registered (V1.default fl) empty)

-- The program's state, over PostgreSQL.
abbrev pub running :
    {F S D : Type 0}
    → Floats F
    → Crypto F
    → Database F S D
    → Environment
    → ServiceState F (PostgresError S)
running fl cr db env = start_state fl cr (postgres_store fl cr db) env

module _ {F S D : Type 0} (fl : Floats F) (cr : Crypto F) (laws : CryptoLaws cr)
    (db : Database F S D) (env : Environment) (now : ℤ) (uuid_error : Str → Str)
    (debug_ref : PolicyRef → Str) where
  default_chosen :
      (registry : PolicyRegistry F) (pref : Option PolicyRef) (policy : SlicePolicyV1 F)
      (policy_ref : PolicyRef)
      → pref ≡ none
      → choose_policy fl cr debug_ref registry pref ≡ ok (policy, policy_ref)
      → V1.default fl ≡ policy
  unfolding choose_policy
  default_chosen registry pref policy policy_ref missing h = ground (arith, missing, h)

  -- If the rows that the database finds have the identifiers that they are asked for by: a slice with
  -- which the program over PostgreSQL answers a request that names no policy has at most 256 turns,
  -- and is valid when it is sent back to be verified.
  pub start-slice_handler :
      IsKeyed db
      → (request : SliceRequest) (resp : SliceResponse) → request.policy_ref ≡ none
      → slice_handler fl cr uuid_error debug_ref now (running fl cr db env) request ≡ some (ok resp)
      → (length resp.slice.turn_ids ≤ 256)
        × ((verify_token_handler cr (running fl cr db env) (ask resp.slice)).valid ≡ true)
  unfolding to_dto bundle_turn_ids V1.default start_state with_registry
  start-slice_handler keyed request resp missing h =
      let st = running fl cr db env in
      let s = slice_handler-Served fl cr st now uuid_error debug_ref request resp h in
      let same =
        default_chosen st.policy_registry request.policy_ref s.policy resp.policy_ref missing
          s.chosen in
      let small : s.policy.max_radius + 1 < 2 ^ 32 = ground (arith, ap (λ p. p.max_radius) same) in
      let sound =
        slice_sound fl cr laws st.store s.policy st.hmac_secret now s.anchor_id s.bundle s.sliced
          (postgres_store-IsHonest fl cr db keyed) small in
      let turns = s.bundle.slice.turns in
      let count : length resp.slice.turn_ids ≡ length (bundle_turn_ids s.bundle) =
        ap (λ d. length d.turn_ids) s.sent
        ∙ (length-map turns (λ t. cr.uuid_string t.id) ∙ sym (length-map turns (λ t. t.id))) in
      let budget = ap (λ p. p.max_nodes) same in
      (
        omega (arith, count, sound.0, budget),
        slice_handler_valid fl cr laws st now uuid_error debug_ref request resp h,
      )
