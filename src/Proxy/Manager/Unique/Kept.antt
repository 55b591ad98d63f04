-- ===== src/Proxy/Manager/Unique/Kept.antt =====
-- Every operation of `ProxyManager` keeps its connections apart: crates/proxy/src/lib.rs.
use fabdev.Prelude.{
  ◌≡◌, refl, sym, ap, ◌∙◌, subst, ◌⊎◌, inl, inr, Bool, true, false, some, [], ◌∷◌, arith,
  Bool-cases, All, All-imp, Map, map_get, contains_key, map_remove, place, map_insert, remove-All,
  get-All, Text, text_eq, text_eq_refl, text_eq_iff,
}
use fabdev.Proxy.Settings.{ProxyConnectionSettings, Parsers}
use fabdev.Proxy.Manager.{ProxyManager, Bind, with_connections, forget_failure, stop, listen, start}
use fabdev.Proxy.Manager.Update.{put_settings, stop_if, roll_back, restart, replace}
use fabdev.Proxy.Manager.Unique.{IsOwn, Apart, Apart-sym, IsUnique, insert-IsUnique}

pub stop-connections : (id : Text) (m : ProxyManager) → (stop id m).0.connections ≡ m.connections
unfolding stop forget_failure
stop-connections id m = ground arith

stop_if-connections :
    (b : Bool) (id : Text) (m : ProxyManager) → (stop_if b id m).0.connections ≡ m.connections
unfolding stop_if
stop_if-connections true id m = stop-connections id m
stop_if-connections false id m = refl

pub listen-connections :
    (parsers : Parsers) (bind : Bind) (id : Text) (m : ProxyManager)
    → (listen parsers bind id m).0.connections ≡ m.connections
unfolding listen forget_failure
listen-connections parsers bind id m = ground arith

pub start-connections :
    (parsers : Parsers) (bind : Bind) (id : Text) (m : ProxyManager)
    → (start parsers bind id m).0.connections ≡ m.connections
unfolding start
start-connections parsers bind id m = ground (
  arith,
  listen-connections parsers bind id m,
  listen-connections parsers bind id (stop id m).0,
  stop-connections id m,
)

-- Putting an entry twice is putting the second one.
remove-place :
    (k : Text) (s : ProxyConnectionSettings) (cs : Map ProxyConnectionSettings)
    → map_remove k (place k s cs) ≡ map_remove k cs
unfolding map_remove place
remove-place k s [] = ground (arith, text_eq_refl k)
remove-place k s ((j, c) ∷ cs) = ground (arith, remove-place k s cs, text_eq_refl k)

remove-remove :
    (k : Text) (cs : Map ProxyConnectionSettings) → map_remove k (map_remove k cs) ≡ map_remove k cs
unfolding map_remove
remove-remove k [] = refl
remove-remove k ((j, c) ∷ cs) = ground (arith, remove-remove k cs)

pub insert-insert :
    (k : Text) (s t : ProxyConnectionSettings) (cs : Map ProxyConnectionSettings)
    → map_insert k t (map_insert k s cs) ≡ map_insert k t cs
unfolding map_insert
insert-insert k s t cs = ap (place k t) (remove-place k s (map_remove k cs) ∙ remove-remove k cs)

-- An entry is apart from the rest of the map.
entry-Apart :
    (k : Text) (s : ProxyConnectionSettings) (cs : Map ProxyConnectionSettings)
    → IsUnique cs
    → map_get k cs ≡ some s
    → All (λ e. Apart e (k, s)) (map_remove k cs)
unfolding map_get map_remove
entry-Apart k s [] u h = tt
entry-Apart k s ((j, c) ∷ cs) (own, apart) h = elim (Bool-cases (text_eq j k)) [
  | inl same ↦
      let here : (j, c) ≡ (k, s) = ground (arith, text_eq_iff j k) in
      rw same (
        remove-All (λ e. Apart e (k, s)) k cs
          (All-imp (Apart (j, c)) (λ e. Apart e (k, s))
            (λ e a. Apart-sym (k, s) e (subst (λ x. Apart x e) here a)) cs apart.0))
  | inr differ ↦
      let later : map_get k cs ≡ some s = ground arith in
      rw differ
        (get-All (Apart (j, c)) k cs s later apart.0, entry-Apart k s cs (own.1, apart.1) later)
]

-- The entry that was in the map can come back.
pub back-IsUnique :
    (k : Text) (s t : ProxyConnectionSettings) (cs : Map ProxyConnectionSettings)
    → IsUnique cs
    → map_get k cs ≡ some s
    → IsUnique (map_insert k s (map_insert k t cs))
back-IsUnique k s t cs u h =
    let same : k ≡ s.id = (text_eq_iff k s.id).0 (get-All IsOwn k cs s h u.0) in
    let whole : IsUnique (map_insert s.id s cs) =
      insert-IsUnique s cs
        (subst (λ i. All (λ e. Apart e (i, s)) (map_remove i cs)) same (entry-Apart k s cs u h))
        u in
    subst IsUnique (sym (insert-insert k t s cs))
      (subst (λ i. IsUnique (map_insert i s cs)) (sym same) whole)

-- The new settings alone, or the previous ones again.
pub restart-connections :
    (parsers : Parsers) (first second : Bind) (id : Text) (previous : ProxyConnectionSettings)
    (m : ProxyManager)
    → let after = (restart parsers first second id previous m).0.connections in
      (after ≡ m.connections) ⊎ (after ≡ map_insert id previous m.connections)
unfolding restart roll_back
restart-connections parsers first second id previous m = ground (
  arith,
  start-connections parsers first id m,
  start-connections parsers second id (
      with_connections (start parsers first id m).0
        (map_insert id previous (start parsers first id m).0.connections)),
)

pub replace-connections :
    (parsers : Parsers) (first second : Bind) (id : Text) (previous s : ProxyConnectionSettings)
    (m : ProxyManager)
    → let after = (replace parsers first second id previous s m).0.connections in
      (after ≡ m.connections)
      ⊎ (after ≡ map_insert id s m.connections)
      ⊎ (after ≡ map_insert id previous (map_insert id s m.connections))
unfolding replace put_settings forget_failure
replace-connections parsers first second id previous s m = ground (
  arith,
  stop_if-connections (contains_key id m.running) id m,
  restart-connections parsers first second id previous
      (put_settings id s (stop_if (contains_key id m.running) id m).0),
)
