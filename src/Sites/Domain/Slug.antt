-- ===== src/Sites/Domain/Slug.antt =====
-- `default_site_domain` of crates/core/src/site.rs: the domain that it falls back to is allowed.
use fabdev.Prelude.{
  ℕ, ◌+◌, ◌≤◌, ◌≡◌, refl, ap, ◌∙◌, inl, inr, Bool, true, false, ◌||◌, [], ◌∷◌, ◌++◌, map, arith,
  ◌==◌, Bool-cases, All, length, all, All-imp, Text, codes, text_eq, text_eq_refl, Result-cases,
  is_whitespace, trim_start_matches, prepend, trim_end_matches, trim_matches, is_ascii_lowercase,
  is_ascii_digit, is_ascii_alphanumeric, lower, to_ascii_lowercase, utf8_width, len, starts_with,
  ends_with, is_empty, split, ok,
}
use fabdev.Sites.Domain.{
  is_dot, is_dash, is_label_character, is_label, fold_domain, is_domain, normalize_domain, slugify,
  default_site_domain, slug_character,
}
use fabdev.Sites.Domain.Normal.{trim_start-id, trim_end-id, normalize_domain_idem}

ends_with-append : (t s : Text) → ends_with t (s ++ t) ≡ true
unfolding ends_with
ends_with-append [] [] = unfold text_eq in refl
ends_with-append (c ∷ t) [] = ground (arith, text_eq_refl (c ∷ t))
ends_with-append t (d ∷ s) = ground (arith, ends_with-append t s)

split-append :
    (c : ℕ) (w r : Text) → All (λ x. (x == c) ≡ false) w → split c (w ++ (c ∷ r)) ≡ w ∷ split c r
unfolding split
split-append c [] r h = ground arith
split-append c (x ∷ w) r h = ground (arith, split-append c w r h.1)

-- A lower-case letter, a digit or a dash.
abbrev is_slug_character : ℕ → Bool
is_slug_character c = is_ascii_lowercase c || (is_ascii_digit c || is_dash c)

slug_character-lem : (c : ℕ) → is_slug_character (slug_character c) ≡ true
unfolding is_ascii_alphanumeric lower
slug_character-lem c = ground arith

slug_characters : (s : Text) → All (λ c. is_slug_character c ≡ true) (map slug_character s)
slug_characters [] = tt
slug_characters (c ∷ s) = (slug_character-lem c, slug_characters s)

trim_start-All :
    (P : ℕ → Type 0) (p : ℕ → Bool) (s : Text) → All P s → All P (trim_start_matches p s)
unfolding trim_start_matches
trim_start-All P p [] h = tt
trim_start-All P p (c ∷ s) h = ground (arith, trim_start-All P p s h.1)

prepend-All : (P : ℕ → Type 0) (b : Bool) (c : ℕ) (s : Text) → P c → All P s → All P (prepend b c s)
prepend-All P true c [] h k = tt
prepend-All P false c [] h k = (h, tt)
prepend-All P true c (d ∷ s) h k = (h, k)
prepend-All P false c (d ∷ s) h k = (h, k)

trim_end-All : (P : ℕ → Type 0) (p : ℕ → Bool) (s : Text) → All P s → All P (trim_end_matches p s)
unfolding trim_end_matches
trim_end-All P p [] h = tt
trim_end-All P p (c ∷ s) h =
    prepend-All P (p c) c (trim_end_matches p s) h.0 (trim_end-All P p s h.1)

starts-trim_start : (s : Text) → starts_with (codes "-") (trim_start_matches is_dash s) ≡ false
unfolding starts_with trim_start_matches
starts-trim_start [] = refl
starts-trim_start (c ∷ s) = ground (arith, starts-trim_start s)

starts-trim_end :
    (s : Text)
    → starts_with (codes "-") s ≡ false
    → starts_with (codes "-") (trim_end_matches is_dash s) ≡ false
unfolding starts_with trim_end_matches
starts-trim_end [] h = refl
starts-trim_end (c ∷ s) h = ground arith

ends-prepend :
    (c : ℕ) (s : Text)
    → ends_with (codes "-") s ≡ false
    → ends_with (codes "-") (prepend (is_dash c) c s) ≡ false
unfolding ends_with text_eq
ends-prepend c [] h = ground arith
ends-prepend c (d ∷ s) h = ground arith

ends-trim_end : (s : Text) → ends_with (codes "-") (trim_end_matches is_dash s) ≡ false
unfolding trim_end_matches
ends-trim_end [] = unfold ends_with text_eq in refl
ends-trim_end (c ∷ s) = ends-prepend c (trim_end_matches is_dash s) (ends-trim_end s)

slug-width : (c : ℕ) → is_slug_character c ≡ true → utf8_width c ≡ 1
unfolding utf8_width is_ascii_lowercase is_ascii_digit
slug-width c h = ground arith

slug-len : (s : Text) → All (λ c. is_slug_character c ≡ true) s → len s ≡ length s
unfolding len
slug-len [] h = refl
slug-len (c ∷ s) h = omega (arith, slug-width c h.0, slug-len s h.1)

slug-label_characters :
    (s : Text) → All (λ c. is_slug_character c ≡ true) s → all is_label_character s ≡ true
unfolding is_label_character is_ascii_alphanumeric
slug-label_characters [] h = refl
slug-label_characters (c ∷ s) h = ground (arith, slug-label_characters s h.1)

-- What `slugify` gives: characters of a slug, and an allowed label if it is short enough.
pub record IsSlug (s : Text) : Type 0 where
  pub characters : All (λ c. is_slug_character c ≡ true) s
  pub some_character : is_empty s ≡ false
  pub first : starts_with (codes "-") s ≡ false
  pub last : ends_with (codes "-") s ≡ false

site-IsSlug : IsSlug (codes "site")
unfolding is_ascii_lowercase is_ascii_digit is_empty starts_with ends_with text_eq
site-IsSlug = record {
  characters = (refl, (refl, (refl, (refl, tt))));
  some_character = refl;
  first = refl;
  last = refl;
}

slugify-IsSlug : (value : Text) → IsSlug (slugify value)
unfolding slugify
slugify-IsSlug value = elim (Bool-cases (is_empty slug)) [
  | inl none_left ↦ rw none_left site-IsSlug
  | inr left ↦ rw left (record {
    characters = trim_end-All _ is_dash _ (trim_start-All _ is_dash _ (slug_characters value));
    some_character = left;
    first =
        starts-trim_end (trim_start_matches is_dash (map slug_character value))
          (starts-trim_start (map slug_character value));
    last = ends-trim_end (trim_start_matches is_dash (map slug_character value));
  })
]
  where
    slug : Text
    slug = trim_matches is_dash (map slug_character value)

slug-not_dot : (c : ℕ) → is_slug_character c ≡ true → (c == b'.') ≡ false
unfolding is_ascii_lowercase is_ascii_digit
slug-not_dot c h = ground arith

slug-not_space : (c : ℕ) → is_slug_character c ≡ true → is_whitespace c ≡ false
unfolding is_ascii_lowercase is_ascii_digit is_whitespace
slug-not_space c h = ground arith

slug-lower : (c : ℕ) → is_slug_character c ≡ true → lower c ≡ c
unfolding is_ascii_lowercase is_ascii_digit lower
slug-lower c h = ground arith

slug-is_label : (s : Text) → IsSlug s → length s ≤ 63 → is_label s ≡ true
unfolding is_label
slug-is_label s v short = ground (
  arith,
  v.some_character,
  v.first,
  v.last,
  slug-len s v.characters,
  slug-label_characters s v.characters,
)

len-append : (s t : Text) → len (s ++ t) ≡ len s + len t
unfolding len
len-append [] t = omega arith
len-append (c ∷ s) t = omega (arith, len-append s t)

test-is_label : is_label (codes "test") ≡ true
unfolding is_label
test-is_label = refl

slug-is_domain : (s : Text) → IsSlug s → length s ≤ 63 → is_domain (s ++ codes ".test") ≡ true
unfolding is_domain
slug-is_domain s v short =
    let parts : split b'.' (s ++ codes ".test") ≡ s ∷ codes "test" ∷ [] =
      split-append b'.' s (codes "test") (All-imp _ _ slug-not_dot s v.characters) in
    let five : len (s ++ codes ".test") ≤ 253 =
      omega (arith, len-append s (codes ".test"), slug-len s v.characters) in
    let all_labels : all is_label (split b'.' (s ++ codes ".test")) ≡ true =
      rw parts (ground (arith, slug-is_label s v short, test-is_label)) in
    ground (arith, ends_with-append (codes ".test") s)

trim_end-append :
    (p : ℕ → Bool) (s t : Text)
    → trim_end_matches p t ≡ t
    → is_empty t ≡ false
    → trim_end_matches p (s ++ t) ≡ s ++ t
unfolding trim_end_matches is_empty
trim_end-append p [] t h n = h
trim_end-append p (c ∷ s) t h n = rw (trim_end-append p s t h n) (keep s t n)
  where
    keep : (s t : Text) → is_empty t ≡ false → prepend (p c) c (s ++ t) ≡ c ∷ (s ++ t)
    keep [] [] n = cc
    keep [] (d ∷ t) n = ground arith
    keep (d ∷ s) t n = ground arith

All-append : (P : ℕ → Type 0) (s t : Text) → All P s → All P t → All P (s ++ t)
All-append P [] t h k = k
All-append P (c ∷ s) t h k = (h.0, All-append P s t h.1 k)

lower-id : (s : Text) → All (λ c. lower c ≡ c) s → to_ascii_lowercase s ≡ s
lower-id [] h = refl
lower-id (c ∷ s) h = cc (h.0, lower-id s h.1)

slug-fold : (s : Text) → IsSlug s → fold_domain (s ++ codes ".test") ≡ s ++ codes ".test"
unfolding trim_end_matches is_whitespace lower is_empty
slug-fold s v =
    let spaces : All (λ c. is_whitespace c ≡ false) (s ++ codes ".test") =
      All-append _ s (codes ".test") (All-imp _ _ slug-not_space s v.characters)
        (refl, (refl, (refl, (refl, (refl, tt))))) in
    let lowered : All (λ c. lower c ≡ c) (s ++ codes ".test") =
      All-append _ s (codes ".test") (All-imp _ _ slug-lower s v.characters)
        (refl, (refl, (refl, (refl, (refl, tt))))) in
    ap (λ x. to_ascii_lowercase (trim_end_matches is_dot (trim_end_matches is_whitespace x)))
      (trim_start-id is_whitespace (s ++ codes ".test") spaces)
    ∙ ap (λ x. to_ascii_lowercase (trim_end_matches is_dot x))
        (trim_end-id is_whitespace (s ++ codes ".test") spaces)
    ∙ ap to_ascii_lowercase (trim_end-append is_dot s (codes ".test") refl refl)
    ∙ lower-id (s ++ codes ".test") lowered

slug-normalize :
    (s : Text)
    → IsSlug s
    → length s ≤ 63
    → normalize_domain (s ++ codes ".test") ≡ ok (s ++ codes ".test")
unfolding normalize_domain
slug-normalize s v short = rw (slug-fold s v) (rw (slug-is_domain s v short))

-- If the slug of a name has at most 63 characters, the default domain of the name is accepted by
-- `normalize_domain` as it is, whatever characters the name holds.
pub default_site_domain-normal :
    (value : Text)
    → length (slugify value) ≤ 63
    → normalize_domain (default_site_domain value) ≡ ok (default_site_domain value)
unfolding default_site_domain
default_site_domain-normal value short =
    elim (Result-cases (normalize_domain (value ++ codes ".test"))) [
      | inl (e, refused) ↦ rw refused (slug-normalize (slugify value) (slugify-IsSlug value) short)
      | inr (d, accepted) ↦ rw accepted (normalize_domain_idem (value ++ codes ".test") d accepted)
    ]
