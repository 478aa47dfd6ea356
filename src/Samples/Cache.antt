-- ===== src/Samples/Cache.antt =====
-- A small cache, and the theorems on the token verifier with it.
use admissibility_kernel.Base.{
  ℕ, zero, suc, ◌+◌, ◌-◌, ◌≡◌, ◌≢◌, refl, sym, ap, ◌∙◌, as_bytes, ◌⊎◌, ⊎_elim, inl, inr, List, [],
  ◌∷◌, map, Memᴰ, Bool, true, Option, none, some, Str, codes, length, take, ◌==◌, Bool-cases,
  if◌then◌else◌, arith,
}
use mathlib.Core.List.Memᴰ
use admissibility_kernel.Crates.{Lru, LruLaws}
use admissibility_kernel.Types.Verification.{
  VerificationMode, cached, Claim, mode_secret, check_hmac, compute, verify_token, new,
}
use admissibility_kernel.Types.Verification.Cache.{
  NoClash, verify_all, verify_all-new, verify_token_moved,
}
use admissibility_kernel.Samples.{crypto}
use admissibility_kernel.Samples.Graph.{secret}

abbrev find_entry : ℕ → List (ℕ × Bool) → Option Bool
find_entry k [] = none
find_entry k ((j, b) ∷ m) = if k == j then some b else find_entry k m

-- The newest entries, one more than the first component.
abbrev pub lru : Lru (ℕ × List (ℕ × Bool))
lru = record {
  new = λ n. (n - 1, []);
  peek = λ k c. find_entry k c.1;
  put = λ k b c. (c.0, take (suc c.0) ((k, b) ∷ c.1));
  clear = λ c. (c.0, []);
  len = λ c. length c.1;
  cap = λ c. c.0 + 1;
}

find-take :
    (n k : ℕ) (b : Bool) (m : List (ℕ × Bool))
    → find_entry k (take n m) ≡ some b
    → find_entry k m ≡ some b
find-take zero k b m h = cc
find-take (suc n) k b [] h = cc
find-take (suc n) k b ((j, c) ∷ m) h = ground (arith, find-take n k b m)

pub lru_laws : LruLaws lru
lru_laws = record {
  peek-new = λ n k. refl;
  peek-clear = λ c k. refl;
  peek-put_same = λ c k v. ground arith;
  peek-put_old = λ c k j v b h. elim (Bool-cases (j == k)) [
    | inl same ↦ inl (ground (arith, same), ground (arith, same))
    | inr other ↦ inr (find-take c.0 j b c.1 (ground (arith, other)))
  ];
}

abbrev claim : Str → Str → Claim
claim id params = record {
  token = codes "00";
  slice_id = codes "s";
  anchor_turn_id = 2;
  policy_id = id;
  policy_params_hash = params;
  graph_snapshot_hash = codes "g";
  schema_version = codes "1";
}

abbrev mode : VerificationMode
mode = cached secret (record { max_entries = 2; enabled = true })

abbrev one : Claim
one = claim (codes "a") (codes "b")

abbrev two : Claim
two = claim (codes "d") (codes "b")

abbrev claims : List Claim
claims = one ∷ two ∷ one ∷ []

one_or_two : (p : Claim) → Memᴰ p claims → (p ≡ one) ⊎ (p ≡ two)
one_or_two p m =
    ⊎_elim inl
      (λ rest.
        ⊎_elim inr
          (λ last. ⊎_elim inl (λ none_left. absurd (Memᴰ.not-nil none_left)) (Memᴰ.cases_cons last))
          (Memᴰ.cases_cons rest))
      (Memᴰ.cases_cons m)

keys_differ : compute crypto one ≢ compute crypto two
unfolding compute as_bytes
keys_differ h = omega (arith, h)

no_clash : NoClash crypto (mode_secret mode) claims
no_clash p q m n same =
    ⊎_elim
      (λ e.
        ⊎_elim (λ f. ap (check_hmac crypto (mode_secret mode)) (e ∙ sym f))
          (λ f. absurd (keys_differ (ap (compute crypto) (sym e) ∙ same ∙ ap (compute crypto) f)))
          (one_or_two q n))
      (λ e.
        ⊎_elim
          (λ f.
            absurd (keys_differ (sym (ap (compute crypto) (sym e) ∙ same ∙ ap (compute crypto) f))))
          (λ f. ap (check_hmac crypto (mode_secret mode)) (e ∙ sym f)) (one_or_two q n))
      (one_or_two p m)

verify_all-new_example :
    map (λ r. r.is_valid) (verify_all crypto lru (new lru mode) claims)
    ≡ map (check_hmac crypto (mode_secret mode)) claims
verify_all-new_example = verify_all-new crypto lru lru_laws mode claims no_clash

verify_token_moved_example :
    (verify_token lru crypto
      (verify_token lru crypto (new lru mode) (claim (codes "ab") (codes "c"))).1
      (claim (codes "a") (codes "bc"))).0
    ≡ record {
      is_valid =
          check_hmac crypto (mode_secret (new lru mode).mode) (claim (codes "ab") (codes "c"));
      cache_hit = true;
    }
unfolding new
verify_token_moved_example =
    verify_token_moved crypto lru lru_laws (new lru mode) (1, []) (claim [] []) (codes "a")
      (codes "b") (codes "c") refl refl
