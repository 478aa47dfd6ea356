-- ===== src/Base/Perm.antt =====
-- Permutations of lists that are joined.
use mathlib.Core.List.Permᴰ
use mathlib.Core.List.{List, ◌++◌, Permᴰ, append_assoc}
use mathlib.Core.Path.{◌≡◌, sym, subst}

module _ {ℓ} {A : Type ℓ} where
  pub of_eq : {xs ys : List A} → xs ≡ ys → Permᴰ xs ys
  of_eq {xs} e = subst (λ zs. Permᴰ xs zs) e (Permᴰ.refl xs)

  pub append-perm : {a b c d : List A} → Permᴰ a b → Permᴰ c d → Permᴰ (a ++ c) (b ++ d)
  append-perm {b} {c} p q = Permᴰ.trans (Permᴰ.append_right c p) (Permᴰ.append_left b q)

  pub append_swap : (xs ys zs : List A) → Permᴰ (xs ++ (ys ++ zs)) (ys ++ (xs ++ zs))
  append_swap xs ys zs = Permᴰ.trans (of_eq (sym (append_assoc xs ys zs))) (
      Permᴰ.trans (Permᴰ.append_right zs (Permᴰ.append_comm xs ys)) (of_eq (append_assoc ys xs zs)))

  pub regroup : (ws xs ys zs : List A) → Permᴰ ((ws ++ xs) ++ (ys ++ zs)) ((ws ++ ys) ++ (xs ++ zs))
  regroup ws xs ys zs = Permᴰ.trans (of_eq (append_assoc ws xs (ys ++ zs))) (
      Permᴰ.trans (Permᴰ.append_left ws (append_swap xs ys zs))
        (of_eq (sym (append_assoc ws ys (xs ++ zs)))))
