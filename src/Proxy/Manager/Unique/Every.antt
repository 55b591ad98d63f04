-- ===== src/Proxy/Manager/Unique/Every.antt =====
-- Every call of `ProxyManager` keeps its connections apart, and a refused update changes none of
-- them: crates/proxy/src/lib.rs.
use fabdev.Prelude.{
  ◌≡◌, refl, sym, ap, ◌∙◌, subst, ◌⊎◌, inl, inr, Bool, none, some, List, [], ◌∷◌, arith, Bool-cases,
  Option-cases, map_get, map_remove, map_insert, Text, text_eq, text_eq_iff, Result-cases, ok,
}
use fabdev.Proxy.Settings.{
  ProxyConnectionSettings, ProxyConnectionInput, Parsers, normalize_connection_settings,
  connection_from_input,
}
use fabdev.Proxy.Manager.{
  ProxyManager, ManagerError, Outcome, Bind, lift, validate_unique, with_connections,
  forget_failure, stop, listen, start, add_settings, add, remove,
}
use fabdev.Proxy.Manager
use fabdev.Proxy.Manager.Update.{put_settings, check_update, update, restore_update}
use fabdev.Proxy.Manager.Calls.{
  Call, adding, adding_settings, starting, stopping, removing, updating, restoring, perform, run,
}
use fabdev.Proxy.Manager.Unique
use fabdev.Proxy.Manager.Unique.{IsUnique, Replaces, validate_unique-IsUnique}
use fabdev.Proxy.Manager.Unique.Kept.{
  stop-connections, start-connections, back-IsUnique, replace-connections,
}

module _ (parsers : Parsers) where
  add_settings-connections :
      (given : ProxyConnectionSettings) (m : ProxyManager)
      → let s = normalize_connection_settings given in
        let after = (add_settings parsers given m).0.connections in
        (after ≡ m.connections)
        ⊎ ((validate_unique m s none ≡ ok tt) × (after ≡ map_insert s.id s m.connections))
  unfolding add_settings
  add_settings-connections given m = ground arith

  add_settings-IsUnique :
      (s : ProxyConnectionSettings) (m : ProxyManager)
      → IsUnique m.connections
      → IsUnique (add_settings parsers s m).0.connections
  unfolding Replaces
  add_settings-IsUnique given m u = elim (add_settings-connections given m) [
    | inl same ↦ subst IsUnique (sym same) u
    | inr (accepted, changed) ↦ subst IsUnique (sym changed) (
        validate_unique-IsUnique m (normalize_connection_settings given) none (inl refl) accepted u)
  ]

  add-connections :
      (input : ProxyConnectionInput) (m : ProxyManager)
      → ((add parsers input m).0.connections ≡ m.connections)
        ⊎ ((s : ProxyConnectionSettings) × ((add parsers input m).0.connections
              ≡ (add_settings parsers s m).0.connections))
  unfolding add
  add-connections input m = elim (Result-cases (lift (connection_from_input parsers input))) [
    | inl (e, refused) ↦ inl (ground arith)
    | inr (s, made) ↦ inr (s, ground arith)
  ]

  add-IsUnique :
      (input : ProxyConnectionInput) (m : ProxyManager)
      → IsUnique m.connections
      → IsUnique (add parsers input m).0.connections
  add-IsUnique input m u = elim (add-connections input m) [
    | inl same ↦ subst IsUnique (sym same) u
    | inr (s, as_added) ↦ subst IsUnique (sym as_added) (add_settings-IsUnique s m u)
  ]

  remove-connections :
      (id : Text) (m : ProxyManager)
      → ((remove parsers id m).0.connections ≡ m.connections)
        ⊎ ((remove parsers id m).0.connections ≡ map_remove id m.connections)
  unfolding remove forget_failure
  remove-connections id m = ground (arith, stop-connections id m)

  remove-IsUnique :
      (id : Text) (m : ProxyManager)
      → IsUnique m.connections
      → IsUnique (remove parsers id m).0.connections
  remove-IsUnique id m u = elim (remove-connections id m) [
    | inl same ↦ subst IsUnique (sym same) u
    | inr changed ↦ subst IsUnique (sym changed) (Unique.remove-IsUnique id m.connections u)
  ]

  restore_update-connections :
      (bind : Bind) (given : ProxyConnectionSettings) (b : Bool) (m : ProxyManager)
      → let s = normalize_connection_settings given in
        let after = (restore_update parsers bind bind given b m).0.connections in
        (after ≡ m.connections)
        ⊎ ((validate_unique m s (some s.id) ≡ ok tt) × (after ≡ map_insert s.id s m.connections))
  unfolding restore_update put_settings forget_failure
  restore_update-connections bind given b m =
      let s = normalize_connection_settings given in
      ground (
        arith,
        stop-connections s.id m,
        start-connections parsers bind s.id (put_settings s.id s (stop s.id m).0),
      )

  restore_update-IsUnique :
      (bind : Bind) (s : ProxyConnectionSettings) (b : Bool) (m : ProxyManager)
      → IsUnique m.connections
      → IsUnique (restore_update parsers bind bind s b m).0.connections
  unfolding Replaces
  restore_update-IsUnique bind given b m u = elim (restore_update-connections bind given b m) [
    | inl same ↦ subst IsUnique (sym same) u
    | inr (accepted, changed) ↦
        let s = normalize_connection_settings given in
        subst IsUnique (sym changed)
          (validate_unique-IsUnique m s (some s.id) (inr refl) accepted u)
  ]

  -- What `check_update` answers was in the map, and can take its place.
  check_update-ok :
      (id : Text) (input : ProxyConnectionInput) (m : ProxyManager)
      (previous s : ProxyConnectionSettings)
      → check_update parsers id input m ≡ ok (previous, s)
      → (map_get id m.connections ≡ some previous)
        × (s.id ≡ id)
        × (validate_unique m s (some id) ≡ ok tt)
  unfolding check_update
  check_update-ok id input m previous s h = elim (Option-cases (map_get id m.connections)) [
    | inl missing ↦ absurd (ground arith)
    | inr (p, found) ↦ elim (Result-cases (lift (connection_from_input parsers input))) [
      | inl (e, refused) ↦ absurd (ground arith)
      | inr (t, made) ↦ elim (Bool-cases (text_eq t.id id)) [
        | inr differ ↦ absurd (ground arith)
        | inl same ↦ elim (Result-cases (validate_unique m t (some id))) [
          | inl (e, refused) ↦ absurd (ground arith)
          | inr (x, accepted) ↦
              let p_is : p ≡ previous = ground arith in
              let t_is : t ≡ s = ground arith in
              (
                found ∙ ap some p_is,
                subst (λ x. x.id ≡ id) t_is ((text_eq_iff t.id id).0 same),
                subst (λ x. validate_unique m x (some id) ≡ ok tt) t_is accepted,
              )
        ]
      ]
    ]
  ]

  update-connections :
      (first second : Bind) (id : Text) (input : ProxyConnectionInput) (m : ProxyManager)
      → let after = (update parsers first second id input m).0.connections in
        (after ≡ m.connections)
        ⊎ ((previous : ProxyConnectionSettings) × (s : ProxyConnectionSettings) × (check_update
                parsers id input m
              ≡ ok (previous, s))
            × ((after ≡ map_insert id s m.connections)
                ⊎ (after ≡ map_insert id previous (map_insert id s m.connections))))
  unfolding update
  update-connections first second id input m =
      elim (Result-cases (check_update parsers id input m)) [
        | inl (e, refused) ↦ inl (ground arith)
        | inr ((previous, s), checked) ↦
            elim (replace-connections parsers first second id previous s m) [
              | inl same ↦ inl (ground arith)
              | inr changed ↦ inr (previous, s, checked, ground arith)
            ]
      ]

  update-IsUnique :
      (first second : Bind) (id : Text) (input : ProxyConnectionInput) (m : ProxyManager)
      → IsUnique m.connections
      → IsUnique (update parsers first second id input m).0.connections
  unfolding Replaces
  update-IsUnique first second id input m u = elim (update-connections first second id input m) [
    | inl same ↦ subst IsUnique (sym same) u
    | inr (previous, s, checked, changed) ↦
        let (found, own, accepted) = check_update-ok id input m previous s checked in
        let put : IsUnique (map_insert id s m.connections) =
          subst (λ i. IsUnique (map_insert i s m.connections)) own
            (validate_unique-IsUnique m s (some id) (inr (ap some (sym own))) accepted u) in
        elim changed [
          | inl new ↦ subst IsUnique (sym new) put
          | inr old ↦ subst IsUnique (sym old) (back-IsUnique id previous s m.connections u found)
        ]
  ]

  perform-IsUnique :
      (c : Call) (m : ProxyManager)
      → IsUnique m.connections
      → IsUnique (perform parsers c m).connections
  unfolding perform
  perform-IsUnique (adding input) m u = add-IsUnique input m u
  perform-IsUnique (adding_settings s) m u = add_settings-IsUnique s m u
  perform-IsUnique (starting bind id) m u =
      subst IsUnique (sym (start-connections parsers bind id m)) u
  perform-IsUnique (stopping id) m u = subst IsUnique (sym (stop-connections id m)) u
  perform-IsUnique (removing id) m u = remove-IsUnique id m u
  perform-IsUnique (updating first second id input) m u = update-IsUnique first second id input m u
  perform-IsUnique (restoring bind s b) m u = restore_update-IsUnique bind s b m u

  from-IsUnique :
      (cs : List Call) (m : ProxyManager)
      → IsUnique m.connections
      → IsUnique (run parsers cs m).connections
  unfolding run
  from-IsUnique [] m u = u
  from-IsUnique (c ∷ cs) m u = from-IsUnique cs (perform parsers c m) (perform-IsUnique c m u)

  -- Whatever calls are made of a new manager, and whichever binds fail, every connection stands under
  -- its own identifier and no two have an identifier, a port or a domain in common.
  pub run-IsUnique : (cs : List Call) → IsUnique (run parsers cs Manager.init).connections
  run-IsUnique cs = from-IsUnique cs Manager.init (tt, tt)
