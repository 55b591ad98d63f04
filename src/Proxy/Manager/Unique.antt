-- ===== src/Proxy/Manager/Unique.antt =====
-- No two connections of `ProxyManager` have an identifier, a port or a domain in common:
-- crates/proxy/src/lib.rs.
pub mod Kept
pub mod Every
use fabdev.Prelude.{
  ◌≡◌, refl, ◌∙◌, ◌⊎◌, inl, inr, Bool, true, false, Option, none, some, [], ◌∷◌, arith, Bool-cases,
  Option-cases, All, find, Pairs, All-imp, Map, map_remove, map_insert, place-All, place-Pairs,
  remove-All, remove-Pairs, Text, text_eq, text_eq_refl, text_eq_iff, text_eq_sym, ok,
}
use fabdev.Proxy.Settings.{ProxyConnectionSettings, connection_ports}
use fabdev.Proxy.Manager.{
  ProxyManager, ManagerError, is_other, shares_port, takes_port, takes_domain, no_clash,
  validate_unique,
}

-- An entry stands under the identifier of its settings.
abbrev pub IsOwn : Text × ProxyConnectionSettings → Type 0
IsOwn e = text_eq e.0 e.1.id ≡ true

abbrev pub Apart : Text × ProxyConnectionSettings → Text × ProxyConnectionSettings → Type 0
Apart e f =
    (text_eq e.0 f.0 ≡ false)
    × (shares_port e.1 f.1 ≡ false)
    × (text_eq e.1.domain f.1.domain ≡ false)

abbrev pub IsUnique : Map ProxyConnectionSettings → Type 0
IsUnique cs = All IsOwn cs × Pairs Apart cs

pub shares_port-sym : (a b : ProxyConnectionSettings) → shares_port a b ≡ shares_port b a
unfolding shares_port connection_ports
shares_port-sym a b = ground arith

pub Apart-sym : (e f : Text × ProxyConnectionSettings) → Apart e f → Apart f e
Apart-sym e f h = (
  text_eq_sym f.0 e.0 ∙ h.0,
  shares_port-sym f.1 e.1 ∙ h.1,
  text_eq_sym f.1.domain e.1.domain ∙ h.2,
)

pub remove-IsUnique :
    (id : Text) (cs : Map ProxyConnectionSettings) → IsUnique cs → IsUnique (map_remove id cs)
remove-IsUnique id cs u = (remove-All IsOwn id cs u.0, remove-Pairs Apart id cs u.1)

-- Settings that are apart from all entries but their own keep the map so.
pub insert-IsUnique :
    (s : ProxyConnectionSettings) (cs : Map ProxyConnectionSettings)
    → All (λ e. Apart e (s.id, s)) (map_remove s.id cs)
    → IsUnique cs
    → IsUnique (map_insert s.id s cs)
unfolding map_insert
insert-IsUnique s cs a u =
    let rest = remove-IsUnique s.id cs u in
    let others = map_remove s.id cs in
    (
      place-All IsOwn s.id s others (text_eq_refl s.id) rest.0,
      place-Pairs Apart s.id s others
          (All-imp (λ e. Apart e (s.id, s)) (Apart (s.id, s)) (λ e h. Apart-sym e (s.id, s) h)
            others a)
          a rest.1,
    )

find-none :
    (p : Text × ProxyConnectionSettings → Bool) (cs : Map ProxyConnectionSettings)
    → find p cs ≡ none
    → All (λ e. p e ≡ false) cs
find-none p [] h = tt
find-none p (e ∷ cs) h = (ground arith, find-none p cs (ground arith))

no_clash-none :
    (o : Option (Text × ProxyConnectionSettings))
    (e : Text × ProxyConnectionSettings → ManagerError)
    → no_clash o e ≡ ok tt
    → o ≡ none
no_clash-none none e h = refl
no_clash-none (some a) e h = cc

-- The settings replace those under `replacing`, if that is their own identifier.
pub Replaces : Option Text → Text → Type 0
Replaces replacing id = (replacing ≡ none) ⊎ (replacing ≡ some id)

clear_entry :
    (s : ProxyConnectionSettings) (replacing : Option Text) (e : Text × ProxyConnectionSettings)
    → Replaces replacing s.id
    → IsOwn e
    → takes_port replacing s e ≡ false
    → takes_domain replacing s e ≡ false
    → text_eq e.0 s.id ≡ false
    → Apart e (s.id, s)
unfolding takes_port takes_domain Replaces
clear_entry s replacing (k, c) r own port domain key =
    let other : is_other replacing c.id ≡ true =
      ground (arith, text_eq_iff k c.id, text_eq_sym s.id c.id) in
    (key, ground arith, ground arith)

clear_entries :
    (s : ProxyConnectionSettings) (replacing : Option Text) (cs : Map ProxyConnectionSettings)
    → Replaces replacing s.id
    → All IsOwn cs
    → All (λ e. takes_port replacing s e ≡ false) cs
    → All (λ e. takes_domain replacing s e ≡ false) cs
    → All (λ e. Apart e (s.id, s)) (map_remove s.id cs)
unfolding map_remove
clear_entries s replacing [] r own port domain = tt
clear_entries s replacing ((k, c) ∷ cs) r own port domain =
    let rest = clear_entries s replacing cs r own.1 port.1 domain.1 in
    elim (Bool-cases (text_eq k s.id)) [
      | inl same ↦ rw same rest
      | inr key ↦ rw key (clear_entry s replacing (k, c) r own.0 port.0 domain.0 key, rest)
    ]

-- Settings that `validate_unique` accepts can be put into the map.
pub validate_unique-IsUnique :
    (m : ProxyManager) (s : ProxyConnectionSettings) (replacing : Option Text)
    → Replaces replacing s.id
    → validate_unique m s replacing ≡ ok tt
    → IsUnique m.connections
    → IsUnique (map_insert s.id s m.connections)
unfolding validate_unique
validate_unique-IsUnique m s replacing r v u =
    let ports = find (takes_port replacing s) m.connections in
    let domains = find (takes_domain replacing s) m.connections in
    elim (Option-cases ports) [
      | inr (e, taken) ↦ absurd (ground arith)
      | inl free_port ↦ elim (Option-cases domains) [
        | inr (e, taken) ↦ absurd (ground arith)
        | inl free_domain ↦
            insert-IsUnique s m.connections
              (clear_entries s replacing m.connections r u.0
                (find-none (takes_port replacing s) m.connections free_port)
                (find-none (takes_domain replacing s) m.connections free_domain))
              u
      ]
    ]
