-- ===== src/Proxy/Manager.antt =====
-- `ProxyManager` of crates/proxy/src/lib.rs. Each method has the manager for itself while it runs.
-- What it writes before an error stays written, so the manager comes back beside the error too.
-- Whether an address can be bound is an argument of the call: `none`, or the error of the bind.
pub mod Unique
pub mod Update
pub mod Calls
pub mod Report
pub mod Refused
pub mod Placed
mod Tests
use fabdev.Prelude.{
  Bool, true, false, not, ◌&&◌, Option, none, some, [], ◌==◌, if◌then◌else◌, is_some, any, find,
  Map, map_get, contains_key, map_remove, map_insert, Text, text_eq, Result, ◌>>=◌, ◌>>◌, bail_if,
  ok, err,
}
use fabdev.Proxy.Health.{ConnectionHealthState}
use fabdev.Proxy.Health
use fabdev.Proxy.Settings.{
  ProxyConnectionSettings, ProxyConnectionInput, Parsers, SettingsError, invalid_listen_host,
  normalize_connection_settings, validate_connection, connection_from_input, connection_ports,
}

-- A listener's task, with whether it has ended by itself.
pub record RunningProxy : Type 0 where
  pub is_finished : Bool
  pub health : ConnectionHealthState

pub record ProxyManager : Type 0 where
  pub connections : Map ProxyConnectionSettings
  pub running : Map RunningProxy
  pub failed : Map Text

pub data ManagerError : Type 0 where
  settings : SettingsError → ManagerError
  unknown_connection duplicate_id : Text → ManagerError
  conflicting_ports domain_in_use : Text → Text → ManagerError
  id_changed : ManagerError
  apply_failed : Text → Option Text → ManagerError

abbrev pub Outcome : Type 0 → Type 0
Outcome A = ProxyManager × Result ManagerError A

abbrev pub Bind : Type 0
Bind = ProxyConnectionSettings → Option Text

abbrev pub init : ProxyManager
init = record { connections = []; running = []; failed = [] }

abbrev pub lift : {A : Type 0} → Result SettingsError A → Result ManagerError A
lift (ok a) = ok a
lift (err e) = err (settings e)

-- `replacing_id != Some(id)`
abbrev pub is_other : Option Text → Text → Bool
is_other none id = true
is_other (some replacing) id = not (text_eq replacing id)

unfoldable pub shares_port : ProxyConnectionSettings → ProxyConnectionSettings → Bool
unfolding connection_ports
shares_port a b = any (λ p. any (λ q. q == p) (connection_ports b)) (connection_ports a)

unfoldable pub takes_port :
    Option Text → ProxyConnectionSettings → Text × ProxyConnectionSettings → Bool
unfolding shares_port
takes_port replacing s (k, c) = is_other replacing c.id && shares_port c s

unfoldable pub takes_domain :
    Option Text → ProxyConnectionSettings → Text × ProxyConnectionSettings → Bool
unfolding text_eq
takes_domain replacing s (k, c) = is_other replacing c.id && text_eq c.domain s.domain

abbrev pub no_clash {ℓ} :
    {A : Type ℓ} → Option A → (A → ManagerError) → Result ManagerError (Unit {0})
no_clash none e = ok tt
no_clash (some a) e = err (e a)

unfoldable pub validate_unique :
    ProxyManager → ProxyConnectionSettings → Option Text → Result ManagerError (Unit {0})
unfolding map_get takes_port takes_domain
validate_unique m s replacing = do
  bail_if (contains_key s.id m.connections && is_other replacing s.id) (duplicate_id s.id)
  no_clash (find (takes_port replacing s) m.connections) (λ (k, c). conflicting_ports c.id s.id)
  no_clash (find (takes_domain replacing s) m.connections) (λ (k, c). domain_in_use c.id s.id)

abbrev pub with_connections : ProxyManager → Map ProxyConnectionSettings → ProxyManager
with_connections m cs = record m { connections = cs }

unfoldable pub forget_failure : Text → ProxyManager → ProxyManager
unfolding map_remove
forget_failure id m = record m { failed = map_remove id m.failed }

-- The drain of the task is waited for; its listener is gone when the call returns.
unfoldable pub stop : Text → ProxyManager → Outcome (Unit {0})
unfolding map_get forget_failure
stop id m =
    if contains_key id m.connections
    then (record (forget_failure id m) { running = map_remove id m.running }, ok tt)
    else (m, err (unknown_connection id))

module _ (parsers : Parsers) (bind : Bind) where
  -- The end of `start`, once no listener runs under the identifier.
  unfoldable pub listen : Text → ProxyManager → Outcome (Unit {0})
  unfolding map_get forget_failure map_insert
  listen id m = elim (map_get id m.connections) [
    | none ↦ (m, err (unknown_connection id))
    | some s ↦
        let cleared = forget_failure id m in
        let started = record cleared {
          running =
              map_insert id (record { is_finished = false; health = Health.default })
                cleared.running;
        } in
        if not (is_some (parsers.parse_loopback s.listen_host))
        then (cleared, err (settings (invalid_listen_host s.listen_host)))
        else elim (bind s) [
          | some error ↦ (record cleared { failed = map_insert id error cleared.failed }, ok tt)
          | none ↦ (started, ok tt)
        ]
  ]

  unfoldable pub start : Text → ProxyManager → Outcome (Unit {0})
  unfolding map_get stop listen
  start id m = elim (map_get id m.running) [
    | none ↦ listen id m
    | some r ↦
        if not r.is_finished
        then (m, ok tt)
        else (let (stopped, result) = stop id m in
            elim result [ ok _ ↦ listen id stopped | err e ↦ (stopped, err e) ])
  ]

module _ (parsers : Parsers) where
  unfoldable pub add_settings : ProxyConnectionSettings → ProxyManager → Outcome (Unit {0})
  unfolding normalize_connection_settings validate_connection validate_unique map_insert
  add_settings given m =
      let s = normalize_connection_settings given in
      let checked : Result ManagerError (Unit {0}) =
        lift (validate_connection parsers s) >> validate_unique m s none in
      elim checked [
        | err e ↦ (m, err e)
        | ok _ ↦ (with_connections m (map_insert s.id s m.connections), ok tt)
      ]

  unfoldable pub add : ProxyConnectionInput → ProxyManager → Outcome Text
  unfolding connection_from_input add_settings
  add input m = elim (lift (connection_from_input parsers input)) [
    | err e ↦ (m, err e)
    | ok s ↦ (let (added, result) = add_settings s m in (added, (do result; ok s.id)))
  ]

  unfoldable pub remove : Text → ProxyManager → Outcome ProxyConnectionSettings
  unfolding map_get stop forget_failure map_remove
  remove id m = elim (map_get id m.connections) [
    | none ↦ (m, err (unknown_connection id))
    | some s ↦
        let (stopped, result) = stop id m in
        let cleared = forget_failure id stopped in
        elim result [
          | err e ↦ (stopped, err e)
          | ok _ ↦ (with_connections cleared (map_remove id cleared.connections), ok s)
        ]
  ]
