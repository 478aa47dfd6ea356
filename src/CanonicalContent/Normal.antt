-- ===== src/CanonicalContent/Normal.antt =====
-- The normal form of src/canonical_content.rs, and the comparison of hashes.
pub mod Hash
use admissibility_kernel.Base.{
  ℕ, ◌+◌, ◌≡◌, refl, sym, ap, ◌∙◌, ◌⊎◌, inl, inr, List, [], ◌∷◌, ◌++◌, Bool, true, false, ◌&&◌,
  ◌||◌, Str, contains, Bool-cases, List-cases, ◌==◌, if◌then◌else◌, arith,
}
use admissibility_kernel.CanonicalContent.{
  replace_crlf, replace_cr, is_whitespace, trim_start, trim_end, trim, normalize_text,
}

abbrev pub cr : ℕ
cr = 13

abbrev pub lf : ℕ
lf = 10

-- No carriage return is left.
contains-replace_cr : (s : Str) → contains (replace_cr s) cr ≡ false
unfolding replace_cr
contains-replace_cr [] = refl
contains-replace_cr (a ∷ s) = ground (arith, contains-replace_cr s)

contains-trim_start : (s : Str) (a : ℕ) → contains s a ≡ false → contains (trim_start s) a ≡ false
unfolding trim_start
contains-trim_start [] a h = refl
contains-trim_start (c ∷ s) a h = ground (arith, contains-trim_start s a)

contains-trim_end : (s : Str) (a : ℕ) → contains s a ≡ false → contains (trim_end s) a ≡ false
unfolding trim_end
contains-trim_end [] a h = refl
contains-trim_end (c ∷ s) a h = ground (arith, contains-trim_end s a)

-- A text with no carriage return has no line ending to replace.
replace_crlf-clean : (s : Str) → contains s cr ≡ false → replace_crlf s ≡ s
unfolding replace_crlf
replace_crlf-clean [] h = refl
replace_crlf-clean (a ∷ []) h = refl
replace_crlf-clean (a ∷ b ∷ s) h = ground (arith, replace_crlf-clean (b ∷ s))

replace_cr-clean : (s : Str) → contains s cr ≡ false → replace_cr s ≡ s
unfolding replace_cr
replace_cr-clean [] h = refl
replace_cr-clean (a ∷ s) h = ground (arith, replace_cr-clean s)

-- The first character is no white space.
abbrev starts_clean : Str → Bool
starts_clean [] = true
starts_clean (c ∷ s) = if is_whitespace c then false else true

trim_start-starts_clean : (s : Str) → starts_clean (trim_start s) ≡ true
unfolding trim_start
trim_start-starts_clean [] = refl
trim_start-starts_clean (c ∷ s) = ground (arith, trim_start-starts_clean s)

trim_end-starts_clean : (s : Str) → starts_clean s ≡ true → starts_clean (trim_end s) ≡ true
unfolding trim_end
trim_end-starts_clean [] h = refl
trim_end-starts_clean (c ∷ s) h = ground arith

trim_start-clean : (s : Str) → starts_clean s ≡ true → trim_start s ≡ s
unfolding trim_start
trim_start-clean [] h = refl
trim_start-clean (c ∷ s) h = ground arith

trim_end_twice : (s : Str) → trim_end (trim_end s) ≡ trim_end s
unfolding trim_end
trim_end_twice [] = refl
trim_end_twice (c ∷ s) = ground (arith, trim_end_twice s)

trim_twice : (s : Str) → trim (trim s) ≡ trim s
unfolding trim
trim_twice s =
    ap trim_end (
      trim_start-clean (trim_end (trim_start s))
        (trim_end-starts_clean (trim_start s) (trim_start-starts_clean s)))
    ∙ trim_end_twice (trim_start s)

normalize_text-no_cr : (s : Str) → contains (normalize_text s) cr ≡ false
unfolding normalize_text trim
normalize_text-no_cr s =
    contains-trim_end _ cr (contains-trim_start _ cr (contains-replace_cr (replace_crlf s)))

-- A normal form has no carriage return, does not start with white space, and is its own normal form.
pub normalize_text_lem :
    (s : Str)
    → (contains (normalize_text s) cr ≡ false)
      × (trim_start (normalize_text s) ≡ normalize_text s)
      × (normalize_text (normalize_text s) ≡ normalize_text s)
unfolding normalize_text trim
normalize_text_lem s =
    let clean = normalize_text-no_cr s in
    (
      clean,
      trim_start-clean _
          (trim_end-starts_clean _ (trim_start-starts_clean (replace_cr (replace_crlf s)))),
      ap (λ t. trim (replace_cr t)) (replace_crlf-clean (normalize_text s) clean)
          ∙ ap trim (replace_cr-clean (normalize_text s) clean)
          ∙ trim_twice (replace_cr (replace_crlf s)),
    )

-- Every line feed as a carriage return and a line feed.
abbrev pub to_crlf : Str → Str
to_crlf [] = []
to_crlf (c ∷ s) = if c == lf then cr ∷ lf ∷ to_crlf s else c ∷ to_crlf s

-- Every line feed as a carriage return.
abbrev pub to_cr : Str → Str
to_cr [] = []
to_cr (c ∷ s) = (if c == lf then cr else c) ∷ to_cr s

replace_crlf-cons : (c : ℕ) (s : Str) → c == cr ≡ false → replace_crlf (c ∷ s) ≡ c ∷ replace_crlf s
unfolding replace_crlf
replace_crlf-cons c [] h = refl
replace_crlf-cons c (d ∷ s) h = ground arith

replace_crlf-to_crlf : (s : Str) → contains s cr ≡ false → replace_crlf (to_crlf s) ≡ s
unfolding replace_crlf
replace_crlf-to_crlf [] h = refl
replace_crlf-to_crlf (c ∷ s) h = elim (Bool-cases (c == lf)) [
  | inl feed ↦ ground (arith, feed, replace_crlf-to_crlf s)
  | inr other ↦ ground (arith, other, replace_crlf-cons c (to_crlf s), replace_crlf-to_crlf s)
]

replace_cr-to_cr : (s : Str) → contains s cr ≡ false → replace_cr (to_cr s) ≡ s
unfolding replace_cr
replace_cr-to_cr [] h = refl
replace_cr-to_cr (c ∷ s) h = ground (arith, replace_cr-to_cr s)

contains-lf-to_cr : (s : Str) → contains (to_cr s) lf ≡ false
contains-lf-to_cr [] = refl
contains-lf-to_cr (c ∷ s) = ground (arith, contains-lf-to_cr s)

replace_crlf-no_lf : (s : Str) → contains s lf ≡ false → replace_crlf s ≡ s
unfolding replace_crlf
replace_crlf-no_lf [] h = refl
replace_crlf-no_lf (a ∷ []) h = refl
replace_crlf-no_lf (a ∷ b ∷ s) h = ground (arith, replace_crlf-no_lf (b ∷ s))

-- A text with line feeds only has the normal form of the same text with either of the other line
-- endings.
pub normalize_text-line_endings :
    (s : Str)
    → contains s cr ≡ false
    → (normalize_text (to_crlf s) ≡ normalize_text s)
      × (normalize_text (to_cr s) ≡ normalize_text s)
unfolding normalize_text
normalize_text-line_endings s h = (
  ap (λ t. trim (replace_cr t)) (replace_crlf-to_crlf s h ∙ sym (replace_crlf-clean s h)),
  ap (λ t. trim (replace_cr t)) (replace_crlf-no_lf (to_cr s) (contains-lf-to_cr s))
      ∙ ap trim (
          replace_cr-to_cr s h
          ∙ sym (ap replace_cr (replace_crlf-clean s h) ∙ replace_cr-clean s h)),
)
