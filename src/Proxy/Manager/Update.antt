-- ===== src/Proxy/Manager/Update.antt =====
-- `update` and `restore_update` of crates/proxy/src/lib.rs.
use fabdev.Prelude.{
  Bool, true, false, not, none, some, if◌then◌else◌, map_get, contains_key, map_insert, Text,
  text_eq, Result, ◌>>=◌, ◌>>◌, bail_if, context, ok, err,
}
use fabdev.Proxy.Settings.{
  ProxyConnectionSettings, ProxyConnectionInput, Parsers, normalize_connection_settings,
  validate_connection, connection_from_input,
}
use fabdev.Proxy.Manager.{
  ProxyManager, ManagerError, unknown_connection, id_changed, apply_failed, Outcome, Bind, lift,
  validate_unique, with_connections, forget_failure, stop, start,
}

-- `insert` of the settings, after the failure under the identifier is forgotten.
unfoldable pub put_settings : Text → ProxyConnectionSettings → ProxyManager → ProxyManager
unfolding map_insert forget_failure
put_settings id s m =
    let cleared = forget_failure id m in
    with_connections cleared (map_insert id s cleared.connections)

unfoldable pub stop_if : Bool → Text → ProxyManager → Outcome (Unit {0})
unfolding stop
stop_if true id m = stop id m
stop_if false id m = (m, ok tt)

module _ (parsers : Parsers) where
  abbrev same_id : Text → ProxyConnectionSettings → Result ManagerError (Unit {0})
  same_id id s = bail_if (not (text_eq s.id id)) id_changed

  -- The checks of `update`, which come before every write.
  unfoldable pub check_update :
      Text
      → ProxyConnectionInput
      → ProxyManager
      → Result ManagerError (ProxyConnectionSettings × ProxyConnectionSettings)
  unfolding map_get connection_from_input validate_unique
  check_update id input m = do
    previous ← context (map_get id m.connections) (unknown_connection id)
    s ← lift (connection_from_input parsers input)
    same_id id s
    validate_unique m s (some id)
    ok (previous, s)

-- The failed bind of the new settings is undone: `first` answers the bind of the new settings, `second`
-- that of the previous ones.
module _ (parsers : Parsers) (first second : Bind) where
  -- The previous settings come back and are started again; `error` is why.
  unfoldable pub roll_back :
      Text
      → ProxyConnectionSettings
      → Text
      → ProxyManager
      → Outcome (ProxyConnectionSettings × Bool)
  unfolding start map_get map_insert
  roll_back id previous error m =
      let restored = with_connections m (map_insert id previous m.connections) in
      let (again, result) = start parsers second id restored in
      elim result [
        | err e ↦ (again, err e)
        | ok _ ↦ (again, err (apply_failed error (map_get id again.failed)))
      ]

  -- `update` from the point where the new settings are in place.
  unfoldable pub restart :
      Text → ProxyConnectionSettings → ProxyManager → Outcome (ProxyConnectionSettings × Bool)
  unfolding start map_get roll_back
  restart id previous m =
      let (started, result) = start parsers first id m in
      elim result [
        | err e ↦ (started, err e)
        | ok _ ↦ elim (map_get id started.failed) [
          | none ↦ (started, ok (previous, true))
          | some error ↦ roll_back id previous error started
        ]
      ]

  unfoldable pub replace :
      Text
      → ProxyConnectionSettings
      → ProxyConnectionSettings
      → ProxyManager
      → Outcome (ProxyConnectionSettings × Bool)
  unfolding map_get stop_if put_settings restart
  replace id previous s m =
      let was_running = contains_key id m.running in
      let (stopped, result) = stop_if was_running id m in
      elim result [
        | err e ↦ (stopped, err e)
        | ok _ ↦
            if was_running
            then restart id previous (put_settings id s stopped)
            else (put_settings id s stopped, ok (previous, false))
      ]

  unfoldable pub update :
      Text → ProxyConnectionInput → ProxyManager → Outcome (ProxyConnectionSettings × Bool)
  unfolding check_update replace
  update id input m = elim (check_update parsers id input m) [
    | err e ↦ (m, err e)
    | ok (previous, s) ↦ replace id previous s m
  ]

  unfoldable pub restore_update : ProxyConnectionSettings → Bool → ProxyManager → Outcome (Unit {0})
  unfolding normalize_connection_settings validate_connection validate_unique stop put_settings
      start
  restore_update given should_run m =
      let s = normalize_connection_settings given in
      let checked : Result ManagerError (Unit {0}) =
        lift (validate_connection parsers s) >> validate_unique m s (some s.id) in
      elim checked [
        | err e ↦ (m, err e)
        | ok _ ↦
            let (stopped, result) = stop s.id m in
            elim result [
              | err e ↦ (stopped, err e)
              | ok _ ↦
                  if should_run
                  then start parsers first s.id (put_settings s.id s stopped)
                  else (put_settings s.id s stopped, ok tt)
            ]
      ]
