-- ===== src/Proxy/Manager/Refused.antt =====
-- A refused `update` of `ProxyManager` puts the previous connection back: crates/proxy/src/lib.rs.
use fabdev.Prelude.{
  ◌≡◌, ap, ◌∙◌, subst, inl, inr, Bool, true, some, arith, Bool-cases, Option-cases, map_get,
  contains_key, map_insert, map_get-insert, Text, text_eq, text_eq_refl, text_eq_iff, Result-cases,
  ok, err,
}
use fabdev.Proxy.Settings.{
  ProxyConnectionSettings, ProxyConnectionInput, Parsers, invalid_domain, validate_connection,
  or_error, normalize_allowed_origins, requested, accept, connection_from_input,
}
use fabdev.Sites.Domain.{normalize_domain}
use fabdev.Proxy.Settings.Valid.{validate_connection-IsChecked}
use fabdev.Proxy.Manager.{
  ProxyManager, ManagerError, Bind, validate_unique, with_connections, forget_failure, stop, listen,
  start,
}
use fabdev.Proxy.Manager.Update.{
  put_settings, stop_if, roll_back, restart, replace, check_update, update,
}
use fabdev.Proxy.Manager.Unique.Kept.{stop-connections, start-connections}

stop-ok :
    (id : Text) (m : ProxyManager) (s : ProxyConnectionSettings)
    → map_get id m.connections ≡ some s
    → (stop id m).1 ≡ ok tt
unfolding stop
stop-ok id m s h = ground arith

listen-ok :
    (parsers : Parsers) (bind : Bind) (id : Text) (m : ProxyManager) (s : ProxyConnectionSettings)
    (b : Bool)
    → map_get id m.connections ≡ some s
    → parsers.parse_loopback s.listen_host ≡ some b
    → (listen parsers bind id m).1 ≡ ok tt
unfolding listen
listen-ok parsers bind id m s b found parsed = ground arith

-- With settings whose host can be read, a start succeeds; a failed bind is only noted.
start-ok :
    (parsers : Parsers) (bind : Bind) (id : Text) (m : ProxyManager) (s : ProxyConnectionSettings)
    (b : Bool)
    → map_get id m.connections ≡ some s
    → parsers.parse_loopback s.listen_host ≡ some b
    → (start parsers bind id m).1 ≡ ok tt
unfolding start
start-ok parsers bind id m s b found parsed =
    let stopped = (stop id m).0 in
    ground (
      arith,
      listen-ok parsers bind id m s b found parsed,
      listen-ok parsers bind id stopped s b (ap (map_get id) (stop-connections id m) ∙ found)
          parsed,
      stop-ok id m s found,
    )

module _ (parsers : Parsers) (first second : Bind) where
  restart-refused :
      (id : Text) (previous s : ProxyConnectionSettings) (m : ProxyManager) (b : Bool)
      (e : ManagerError)
      → map_get id m.connections ≡ some s
      → parsers.parse_loopback s.listen_host ≡ some b
      → (restart parsers first second id previous m).1 ≡ err e
      → (restart parsers first second id previous m).0.connections
        ≡ map_insert id previous m.connections
  unfolding restart roll_back
  restart-refused id previous s m b e found parsed h = ground (
    arith,
    start-ok parsers first id m s b found parsed,
    start-connections parsers first id m,
    start-connections parsers second id (
        with_connections (start parsers first id m).0
          (map_insert id previous (start parsers first id m).0.connections)),
  )

  replace-refused :
      (id : Text) (previous s : ProxyConnectionSettings) (m : ProxyManager) (b : Bool)
      (e : ManagerError)
      → map_get id m.connections ≡ some previous
      → parsers.parse_loopback s.listen_host ≡ some b
      → (replace parsers first second id previous s m).1 ≡ err e
      → (replace parsers first second id previous s m).0.connections
        ≡ map_insert id previous (map_insert id s m.connections)
  unfolding replace put_settings forget_failure stop_if
  replace-refused id previous s m b e found parsed h =
      elim (Bool-cases (contains_key id m.running)) [
        | inr idle ↦ absurd (ground arith)
        | inl was_running ↦
            let put = put_settings id s (stop id m).0 in
            ground (
              arith,
              stop-ok id m previous found,
              stop-connections id m,
              restart-refused id previous s put b e
                  (ground (
                    arith,
                    map_get-insert id id s m.connections,
                    text_eq_refl id,
                    stop-connections id m,
                  ))
                  parsed,
            )
      ]

  accept-ok :
      (t s : ProxyConnectionSettings)
      → accept parsers t ≡ ok s
      → validate_connection parsers s ≡ ok tt
  unfolding accept
  accept-ok t s h = elim (Result-cases (validate_connection parsers t)) [
    | inl (e, refused) ↦ absurd (ground arith)
    | inr (x, valid) ↦
        let same : t ≡ s = ground arith in
        subst (λ r. validate_connection parsers r ≡ ok tt) same valid
  ]

  -- Settings made from an input are valid.
  connection_from_input-valid :
      (input : ProxyConnectionInput) (s : ProxyConnectionSettings)
      → connection_from_input parsers input ≡ ok s
      → validate_connection parsers s ≡ ok tt
  unfolding connection_from_input
  connection_from_input-valid input s h =
      elim (Result-cases (or_error (invalid_domain input.domain) (normalize_domain input.domain))) [
        | inl (e, refused) ↦ absurd (ground arith)
        | inr (domain, normal) ↦
            elim (Result-cases (normalize_allowed_origins parsers input.allowed_origins domain)) [
              | inl (e, refused) ↦ absurd (ground arith)
              | inr (origins, allowed) ↦
                  accept-ok (requested parsers input domain origins) s (ground arith)
            ]
      ]

  check_update-facts :
      (id : Text) (input : ProxyConnectionInput) (m : ProxyManager)
      (previous s : ProxyConnectionSettings)
      → check_update parsers id input m ≡ ok (previous, s)
      → (map_get id m.connections ≡ some previous) × (validate_connection parsers s ≡ ok tt)
  unfolding check_update
  check_update-facts id input m previous s h = elim (Option-cases (map_get id m.connections)) [
    | inl missing ↦ absurd (ground arith)
    | inr (p, found) ↦ elim (Result-cases (connection_from_input parsers input)) [
      | inl (e, refused) ↦ absurd (ground arith)
      | inr (t, made) ↦ elim (Bool-cases (text_eq t.id id)) [
        | inr differ ↦ absurd (ground arith)
        | inl same ↦ elim (Result-cases (validate_unique m t (some id))) [
          | inl (e, refused) ↦ absurd (ground arith)
          | inr (x, accepted) ↦
              let p_is : p ≡ previous = ground arith in
              let t_is : t ≡ s = ground arith in
              (found ∙ ap some p_is, connection_from_input-valid input s (made ∙ ap ok t_is))
        ]
      ]
    ]
  ]

  put_back :
      (id j : Text) (previous s : ProxyConnectionSettings) (m : ProxyManager)
      → map_get id m.connections ≡ some previous
      → map_get j (map_insert id previous (map_insert id s m.connections)) ≡ map_get j m.connections
  put_back id j previous s m found = ground (
    arith,
    map_get-insert id j previous (map_insert id s m.connections),
    map_get-insert id j s m.connections,
    text_eq_iff id j,
  )

  -- An update that returns an error leaves each connection's settings as they were: it was refused
  -- before any change, or its listener could not be bound and the previous settings are put back.
  pub update-refused :
      (id j : Text) (input : ProxyConnectionInput) (m : ProxyManager) (e : ManagerError)
      → (update parsers first second id input m).1 ≡ err e
      → map_get j (update parsers first second id input m).0.connections ≡ map_get j m.connections
  unfolding update
  update-refused id j input m e h = elim (Result-cases (check_update parsers id input m)) [
    | inl (x, refused) ↦ ground arith
    | inr ((previous, s), checked) ↦
        let (found, valid) = check_update-facts id input m previous s checked in
        let readable = (validate_connection-IsChecked parsers s valid).loopback in
        let back = replace-refused id previous s m true e found readable (ground arith) in
        ground (arith, back, put_back id j previous s m found)
  ]
