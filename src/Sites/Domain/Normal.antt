-- ===== src/Sites/Domain/Normal.antt =====
-- A normalised domain of crates/core/src/site.rs is a normal form.
use fabdev.Prelude.{
  ℕ, ◌≤◌, ◌≡◌, refl, sym, ap, ◌∙◌, inl, inr, Bool, true, false, ◌||◌, List, [], ◌∷◌, arith, ◌==◌,
  Bool-cases, All, length, all, All-imp, All-both, Text, codes, is_whitespace, trim_start_matches,
  trim_end_matches, trim, is_ascii_lowercase, is_ascii_uppercase, is_ascii_digit, lower,
  to_ascii_lowercase, utf8_width, len, ends_with, push_first, split, ok,
}
use fabdev.Sites.Domain.{
  is_dot, is_dash, is_label_character, is_label, fold_domain, is_domain, normalize_domain,
}

-- A lower-case letter, a digit, a dash or a dot.
unfoldable pub is_domain_character : ℕ → Bool
is_domain_character c = is_ascii_lowercase c || (is_ascii_digit c || (is_dash c || is_dot c))

lower-lower : (c : ℕ) → lower (lower c) ≡ lower c
unfolding lower
lower-lower c = ground arith

fold-fold : (s : Text) → to_ascii_lowercase (to_ascii_lowercase s) ≡ to_ascii_lowercase s
fold-fold [] = refl
fold-fold (c ∷ s) = cc (lower-lower c, fold-fold s)

pub trim_start-id :
    (p : ℕ → Bool) (s : Text) → All (λ c. p c ≡ false) s → trim_start_matches p s ≡ s
unfolding trim_start_matches
trim_start-id p [] h = refl
trim_start-id p (c ∷ s) h = ground arith

pub trim_end-id : (p : ℕ → Bool) (s : Text) → All (λ c. p c ≡ false) s → trim_end_matches p s ≡ s
unfolding trim_end_matches
trim_end-id p [] h = refl
trim_end-id p (c ∷ s) h = ground (arith, trim_end-id p s h.1)

all-push_first :
    (p : ℕ → Bool) (d : ℕ) (ws : List Text)
    → all (all p) (push_first d ws) ≡ true
    → (p d ≡ true) × (all (all p) ws ≡ true)
all-push_first p d [] h = ground arith
all-push_first p d (w ∷ ws) h = ground arith

-- What holds of each piece's characters holds of the text's, but for the separator.
split-characters :
    (p : ℕ → Bool) (c : ℕ) (s : Text)
    → all (all p) (split c s) ≡ true
    → All (λ x. (p x || x == c) ≡ true) s
unfolding split
split-characters p c [] h = tt
split-characters p c (d ∷ s) h = elim (Bool-cases (d == c)) [
  | inl sep ↦ (ground arith, split-characters p c s (ground arith))
  | inr char ↦
      let parts = all-push_first p d (split c s) (rw char at h) in
      (ground arith, split-characters p c s parts.1)
]

label-characters :
    (ws : List Text) → all is_label ws ≡ true → all (all is_label_character) ws ≡ true
unfolding is_label
label-characters [] h = refl
label-characters (w ∷ ws) h = ground (arith, label-characters ws)

trim_end-fold :
    (s : Text)
    → trim_end_matches is_dot (to_ascii_lowercase s)
      ≡ to_ascii_lowercase (trim_end_matches is_dot s)
unfolding trim_end_matches lower
trim_end-fold [] = refl
trim_end-fold (c ∷ s) = ground (arith, trim_end-fold s)

trim_end-trim_end :
    (p : ℕ → Bool) (s : Text) → trim_end_matches p (trim_end_matches p s) ≡ trim_end_matches p s
unfolding trim_end_matches
trim_end-trim_end p [] = refl
trim_end-trim_end p (c ∷ s) = ground (arith, trim_end-trim_end p s)

module _ (value domain : Text) (accepted : normalize_domain value ≡ ok domain) where
  domain-fold : domain ≡ fold_domain value
  unfolding normalize_domain
  domain-fold = ground arith

  domain-is_domain : is_domain domain ≡ true
  unfolding normalize_domain
  domain-is_domain = ground arith

  domain-labels : all is_label (split b'.' domain) ≡ true
  unfolding is_domain
  domain-labels = ground (arith, domain-is_domain)

not_upper : (c : ℕ) → is_ascii_uppercase (lower c) ≡ false
unfolding lower
not_upper c = ground arith

lower-not_upper : (s : Text) → All (λ c. is_ascii_uppercase c ≡ false) (to_ascii_lowercase s)
lower-not_upper [] = tt
lower-not_upper (c ∷ s) = (not_upper c, lower-not_upper s)

character :
    (c : ℕ)
    → (is_label_character c || is_dot c) ≡ true
    → is_ascii_uppercase c ≡ false
    → is_domain_character c ≡ true
unfolding is_label_character is_domain_character
character c h u = ground arith

character-is_whitespace : (c : ℕ) → is_domain_character c ≡ true → is_whitespace c ≡ false
unfolding is_domain_character is_whitespace is_ascii_lowercase is_ascii_digit
character-is_whitespace c h = ground arith

character-width : (c : ℕ) → is_domain_character c ≡ true → utf8_width c ≡ 1
unfolding is_domain_character utf8_width is_ascii_lowercase is_ascii_digit
character-width c h = ground arith

len-length : (s : Text) → All (λ c. is_domain_character c ≡ true) s → len s ≡ length s
unfolding len
len-length [] h = refl
len-length (c ∷ s) h = omega (arith, character-width c h.0, len-length s h.1)

pub record IsNormal (domain : Text) : Type 0 where
  pub suffix : ends_with (codes ".test") domain ≡ true
  pub short : length domain ≤ 253
  pub labels : all is_label (split b'.' domain) ≡ true
  pub characters : All (λ c. is_domain_character c ≡ true) domain

domain-characters :
    (s : Text)
    → all is_label (split b'.' s) ≡ true
    → All (λ c. is_ascii_uppercase c ≡ false) s
    → All (λ c. is_domain_character c ≡ true) s
domain-characters s labels upper =
    All-imp (λ c. ((is_label_character c || is_dot c) ≡ true) × (is_ascii_uppercase c ≡ false)) _
      (λ c h. character c h.0 h.1) s
      (All-both _ _ s
        (split-characters is_label_character b'.' s (label-characters (split b'.' s) labels)) upper)

pub fold-normal :
    (s t : Text)
    → s ≡ to_ascii_lowercase (trim_end_matches is_dot t)
    → All (λ c. is_domain_character c ≡ true) s
    → fold_domain s ≡ s
fold-normal s t e h =
    let spaces : All (λ c. is_whitespace c ≡ false) s = All-imp _ _ character-is_whitespace s h in
    let trimmed : trim s ≡ s =
      ap (trim_end_matches is_whitespace) (trim_start-id is_whitespace s spaces)
      ∙ trim_end-id is_whitespace s spaces in
    ap (λ x. to_ascii_lowercase (trim_end_matches is_dot x)) (trimmed ∙ e)
    ∙ ap to_ascii_lowercase (trim_end-fold (trim_end_matches is_dot t))
    ∙ fold-fold (trim_end_matches is_dot (trim_end_matches is_dot t))
    ∙ ap to_ascii_lowercase (trim_end-trim_end is_dot t)
    ∙ sym e

module _ (value domain : Text) (accepted : normalize_domain value ≡ ok domain) where
  normalized-characters : All (λ c. is_domain_character c ≡ true) domain
  normalized-characters = domain-characters domain (domain-labels value domain accepted) (
      rw (domain-fold value domain accepted)
        (lower-not_upper (trim_end_matches is_dot (trim value))))

  -- An accepted domain ends in .test, has at most 253 characters, all of them lower-case letters,
  -- digits, dashes and dots, and splits at its dots into labels that are allowed.
  pub normalize_domain-IsNormal : IsNormal domain
  unfolding is_domain
  normalize_domain-IsNormal =
      let fine = domain-is_domain value domain accepted in
      let size = len-length domain normalized-characters in
      record {
        suffix = ground arith;
        short = ground arith;
        labels = domain-labels value domain accepted;
        characters = normalized-characters;
      }

  -- Normalising an accepted domain again gives the same domain.
  pub normalize_domain_idem : normalize_domain domain ≡ ok domain
  unfolding normalize_domain
  normalize_domain_idem =
      let same =
        fold-normal domain (trim value) (domain-fold value domain accepted) normalized-characters in
      rw same (rw (domain-is_domain value domain accepted))
