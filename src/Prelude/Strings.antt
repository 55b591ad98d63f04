-- ===== src/Prelude/Strings.antt =====
-- The methods of `str` that the program uses, on code points.
use Prim.Native.Nat.{ℕ, zero, suc, ◌+◌, ◌-◌, ◌*◌, ◌/◌, ◌%◌}
use mathlib.Core.Path.{◌≡◌, refl, ap, ◌∙◌}
use mathlib.Core.Logic.{inl, inr}
use mathlib.Core.Bool.{Bool, true, false, ◌&&◌, ◌||◌}
use mathlib.Core.Option.{Option, none, some}
use mathlib.Core.List.{List, [], ◌∷◌, ◌++◌, map}
use native.Mathlib.Omega.{arith}
use package.fabdev.Prelude.Tests.{ltb, leb, ◌==◌, if◌then◌else◌, Bool-cases}
use package.fabdev.Prelude.Texts.{Text, text_eq}

-- `char::is_whitespace`: the property White_Space.
unfoldable pub is_whitespace : ℕ → Bool
is_whitespace c =
    (leb 9 c && leb c 13)
    || (c == 32
        || (c == 0x85
            || (c == 0xa0
                || (c == 0x1680
                    || ((leb 0x2000 c && leb c 0x200a)
                        || (c == 0x2028
                            || (c == 0x2029 || (c == 0x202f || (c == 0x205f || c == 0x3000)))))))))

-- `trim_start_matches`
unfoldable pub trim_start_matches : (ℕ → Bool) → Text → Text
trim_start_matches p [] = []
trim_start_matches p (c ∷ s) = if p c then trim_start_matches p s else c ∷ s

abbrev pub prepend : Bool → ℕ → Text → Text
prepend true c [] = []
prepend false c [] = c ∷ []
prepend b c (d ∷ s) = c ∷ d ∷ s

-- `trim_end_matches`
unfoldable pub trim_end_matches : (ℕ → Bool) → Text → Text
trim_end_matches p [] = []
trim_end_matches p (c ∷ s) = prepend (p c) c (trim_end_matches p s)

-- `trim_matches`
abbrev pub trim_matches : (ℕ → Bool) → Text → Text
trim_matches p s = trim_end_matches p (trim_start_matches p s)

abbrev pub trim : Text → Text
trim = trim_matches is_whitespace

unfoldable pub is_ascii_lowercase : ℕ → Bool
is_ascii_lowercase c = leb b'a' c && leb c b'z'

unfoldable pub is_ascii_uppercase : ℕ → Bool
is_ascii_uppercase c = leb b'A' c && leb c b'Z'

unfoldable pub is_ascii_digit : ℕ → Bool
is_ascii_digit c = leb b'0' c && leb c b'9'

unfoldable pub is_ascii_alphanumeric : ℕ → Bool
unfolding is_ascii_lowercase is_ascii_uppercase is_ascii_digit
is_ascii_alphanumeric c = is_ascii_lowercase c || (is_ascii_uppercase c || is_ascii_digit c)

unfoldable pub lower : ℕ → ℕ
unfolding is_ascii_uppercase
lower c = if is_ascii_uppercase c then c + 32 else c

unfoldable pub upper : ℕ → ℕ
unfolding is_ascii_lowercase
upper c = if is_ascii_lowercase c then c - 32 else c

abbrev pub to_ascii_uppercase : Text → Text
to_ascii_uppercase = map upper

abbrev pub to_ascii_lowercase : Text → Text
to_ascii_lowercase = map lower

-- The bytes of a code point in UTF-8.
unfoldable pub utf8_width : ℕ → ℕ
utf8_width c = if ltb c 0x80 then 1 else if ltb c 0x800 then 2 else if ltb c 0x10000 then 3 else 4

-- `str::len`
unfoldable pub len : Text → ℕ
unfolding utf8_width
len [] = 0
len (c ∷ s) = utf8_width c + len s

unfoldable pub starts_with : Text → Text → Bool
starts_with [] s = true
starts_with (c ∷ t) [] = false
starts_with (c ∷ t) (d ∷ s) = c == d && starts_with t s

-- `ends_with` of the second text: one of its tails is the first.
unfoldable pub ends_with : Text → Text → Bool
unfolding text_eq
ends_with t [] = text_eq t []
ends_with t (c ∷ s) = text_eq t (c ∷ s) || ends_with t s

unfoldable pub is_empty {ℓ} : {A : Type ℓ} → List A → Bool
is_empty [] = true
is_empty (c ∷ s) = false

abbrev pub push_first : ℕ → List Text → List Text
push_first c [] = (c ∷ []) ∷ []
push_first c (w ∷ ws) = (c ∷ w) ∷ ws

-- `str::split` at one character
unfoldable pub split : ℕ → Text → List Text
split c [] = [] ∷ []
split c (d ∷ s) = if d == c then [] ∷ split c s else push_first d (split c s)

-- `[String]::join` with one character
unfoldable pub join : ℕ → List Text → Text
join c [] = []
join c (w ∷ []) = w
join c (w ∷ v ∷ ws) = w ++ (c ∷ join c (v ∷ ws))

-- The decimal digits of a number, before `rest`; twenty digits are enough for 64 bits.
unfoldable pub decimal : ℕ → ℕ → Text → Text
decimal zero n rest = rest
decimal (suc f) n rest =
    let more = decimal f (n / 10) ((b'0' + n % 10) ∷ rest) in
    if ltb n 10 then (b'0' + n) ∷ rest else more

-- `Display` of an unsigned integer
unfoldable pub to_string : ℕ → Text
unfolding decimal
to_string n = decimal 20 n []

unfoldable pub parse_digits : ℕ → ℕ → Text → Option ℕ
unfolding is_ascii_digit
parse_digits top acc [] = some acc
parse_digits top acc (c ∷ s) =
    let next = acc * 10 + (c - b'0') in
    let rest = parse_digits top next s in if is_ascii_digit c && leb next top then rest else none

abbrev pub drop_plus : Text → Text
drop_plus [] = []
drop_plus (c ∷ s) = if c == b'+' then s else c ∷ s

-- `str::parse` of an unsigned integer whose greatest value is `top`: a plus sign may stand in front.
unfoldable pub parse_uint : ℕ → Text → Option ℕ
unfolding parse_digits is_empty
parse_uint top s =
    let digits = drop_plus s in if is_empty digits then none else parse_digits top 0 digits

-- Trimming both ends again changes nothing.
trim_start-head :
    (p : ℕ → Bool) (s : Text)
    → trim_start_matches p (trim_end_matches p (trim_start_matches p s))
      ≡ trim_end_matches p (trim_start_matches p s)
unfolding trim_start_matches trim_end_matches
trim_start-head p [] = refl
trim_start-head p (c ∷ s) = elim (Bool-cases (p c)) [
  | inl drop ↦ rw drop (trim_start-head p s)
  | inr keep ↦ rw keep (rw keep (first c (trim_end_matches p s) keep))
]
  where
    first :
        (c : ℕ) (t : Text)
        → p c ≡ false
        → trim_start_matches p (prepend false c t) ≡ prepend false c t
    first c [] h = ground arith
    first c (d ∷ t) h = ground arith

trim_end-again :
    (p : ℕ → Bool) (s : Text) → trim_end_matches p (trim_end_matches p s) ≡ trim_end_matches p s
unfolding trim_end_matches
trim_end-again p [] = refl
trim_end-again p (c ∷ s) = ground (arith, trim_end-again p s)

pub trim_idem : (s : Text) → trim (trim s) ≡ trim s
trim_idem s =
    ap (trim_end_matches is_whitespace) (trim_start-head is_whitespace s)
    ∙ trim_end-again is_whitespace (trim_start_matches is_whitespace s)
