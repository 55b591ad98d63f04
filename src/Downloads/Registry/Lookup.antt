-- ===== src/Downloads/Registry/Lookup.antt =====
-- What a lookup of one key sees after a write to the registry of crates/agent/src/main.rs.
use fabdev.Prelude.{
  ℕ, ◌≡◌, refl, ◌⊎◌, inl, inr, Bool, false, not, Option, none, some, List, [], ◌∷◌, map, arith,
  ◌==◌, if◌then◌else◌, Bool-cases, All, retain, Pairs, All-imp,
}
use fabdev.Downloads.Registry.{Entry, insert, prune, is_kept, modify, lookup}
use fabdev.Downloads.Registry.Apart.{Apart}

abbrev pub edit : ℕ → (Entry → Entry) → Entry → Entry
edit id f e = if e.id == id then f e else e

abbrev pub change : (Entry → Entry) → Option Entry → Option Entry
change f none = none
change f (some e) = some (f e)

pub lookup-modify :
    (id j : ℕ) (f : Entry → Entry) (es : List Entry)
    → ((e : Entry) → (f e).id ≡ e.id)
    → lookup j (modify id f es) ≡ change (edit id f) (lookup j es)
unfolding lookup modify
lookup-modify id j f [] keeps = refl
lookup-modify id j f (e ∷ es) keeps = ground (arith, keeps e, lookup-modify id j f es keeps)

lookup-absent :
    (id : ℕ) (p : Entry → Bool) (es : List Entry)
    → All (λ x. (x.id == id) ≡ false) es
    → lookup id (retain p es) ≡ none
unfolding lookup
lookup-absent id p [] h = refl
lookup-absent id p (e ∷ es) h = ground (arith, lookup-absent id p es h.1)

-- With different keys, a filter keeps or drops what is under a key and uncovers nothing else.
pub lookup-retain :
    (id : ℕ) (p : Entry → Bool) (es : List Entry) (e : Entry)
    → Pairs Apart es
    → lookup id es ≡ some e
    → lookup id (retain p es) ≡ (if p e then some e else none)
unfolding lookup
lookup-retain id p [] e h q = cc
lookup-retain id p (x ∷ xs) e h q = elim (Bool-cases (x.id == id)) [
  | inl here ↦
      let same : x ≡ e = ground arith in
      let gone : lookup id (retain p xs) ≡ none =
        lookup-absent id p xs (All-imp (Apart x) _ (λ y r. ground (arith, r.keys)) xs h.0) in
      ground (arith, gone)
  | inr other ↦ ground (arith, lookup-retain id p xs e h.1)
]

pub lookup-prune :
    (id : ℕ) (es : List Entry) (e : Entry)
    → Pairs Apart es
    → lookup id es ≡ some e
    → (lookup id (prune es) ≡ some e) ⊎ ((lookup id (prune es) ≡ none) × (is_kept e ≡ false))
unfolding prune
lookup-prune id es e h q = ground (arith, lookup-retain id is_kept es e h q)

lookup-others :
    (id k : ℕ) (es : List Entry)
    → (k == id) ≡ false
    → lookup id (retain (λ x. not (x.id == k)) es) ≡ lookup id es
unfolding lookup
lookup-others id k [] n = refl
lookup-others id k (e ∷ es) n = ground (arith, lookup-others id k es n)

pub lookup-insert_ne :
    (id : ℕ) (x : Entry) (es : List Entry)
    → (x.id == id) ≡ false
    → lookup id (insert x es) ≡ lookup id es
unfolding insert lookup
lookup-insert_ne id x es n = ground (arith, lookup-others id x.id es n)

pub lookup-map :
    (id : ℕ) (f : Entry → Entry) (es : List Entry)
    → ((e : Entry) → (f e).id ≡ e.id)
    → lookup id (map f es) ≡ change f (lookup id es)
unfolding lookup
lookup-map id f [] keeps = refl
lookup-map id f (e ∷ es) keeps = ground (arith, keeps e, lookup-map id f es keeps)

none_under : (id : ℕ) (es : List Entry) → lookup id es ≡ none → All (λ x. (x.id == id) ≡ false) es
unfolding lookup
none_under id [] h = tt
none_under id (e ∷ es) h = elim (Bool-cases (e.id == id)) [
  | inl here ↦ absurd (ground arith)
  | inr other ↦ (other, none_under id es (rw other at h))
]

pub lookup-prune-none :
    (id : ℕ) (es : List Entry) → lookup id es ≡ none → lookup id (prune es) ≡ none
unfolding prune
lookup-prune-none id es h = ground (arith, lookup-absent id is_kept es (none_under id es h))
