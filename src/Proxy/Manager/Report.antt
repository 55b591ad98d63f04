-- ===== src/Proxy/Manager/Report.antt =====
-- What `ProxyManager` tells of its connections: `state` and `running_ids` of crates/proxy/src/lib.rs.
pub mod Complete
use fabdev.Prelude.{
  ℕ, Bool, Option, none, some, List, [], ◌∷◌, leb, if◌then◌else◌, Map, map_get, sort_by, Text,
  codes, text_leb,
}
use fabdev.Proxy.Health.{last_error}
use fabdev.Proxy.Settings.{ProxyConnectionSettings}
use fabdev.Proxy.Manager.{ProxyManager, RunningProxy}

pub data ProxyConnectionState : Type 0 where
  starting running degraded stopping stopped failed : ProxyConnectionState

pub record ProxyConnectionInfo : Type 0 where
  pub secured : Bool
  pub https_port : Option ℕ
  pub id : Text
  pub name : Text
  pub domain : Text
  pub listen_host : Text
  pub listen_port : ℕ
  pub target : Text
  pub allowed_origins : List Text
  pub upstream_response_timeout_seconds : ℕ
  pub state : ProxyConnectionState
  pub last_error : Option Text

abbrev stopped_unexpectedly : Text
stopped_unexpectedly = codes "Proxy Runtime stopped unexpectedly"

abbrev of_health : Option Text → ProxyConnectionState × Option Text
of_health none = (running, none)
of_health (some error) = (degraded, some error)

abbrev of_running : RunningProxy → ProxyConnectionState × Option Text
of_running r =
    if r.is_finished then (failed, some stopped_unexpectedly) else of_health (last_error r.health)

abbrev of_failure : Option Text → ProxyConnectionState × Option Text
of_failure none = (stopped, none)
of_failure (some error) = (failed, some error)

-- The state and the last error of one connection.
unfoldable pub connection_state : Text → ProxyManager → ProxyConnectionState × Option Text
unfolding map_get last_error
connection_state id m = elim (map_get id m.running) [
  | none ↦ of_failure (map_get id m.failed)
  | some r ↦ of_running r
]

unfoldable pub info : ProxyManager → Text × ProxyConnectionSettings → ProxyConnectionInfo
unfolding connection_state
info m (key, s) =
    let (state, error) = connection_state key m in
    record {
      secured = s.secured;
      https_port = s.https_port;
      id = s.id;
      name = s.name;
      domain = s.domain;
      listen_host = s.listen_host;
      listen_port = s.listen_port;
      target = s.target;
      allowed_origins = s.allowed_origins;
      upstream_response_timeout_seconds = s.upstream_response_timeout_seconds;
      state = state;
      last_error = error;
    }

unfoldable pub infos : ProxyManager → Map ProxyConnectionSettings → List ProxyConnectionInfo
unfolding info
infos m [] = []
infos m (e ∷ es) = info m e ∷ infos m es

abbrev pub by_port : ProxyConnectionInfo → ProxyConnectionInfo → Bool
by_port a b = leb a.listen_port b.listen_port

unfoldable pub state : ProxyManager → List ProxyConnectionInfo
unfolding infos sort_by
state m = sort_by by_port (infos m m.connections)

unfoldable pub keys : {V : Type 0} → Map V → List Text
keys [] = []
keys ((k, v) ∷ m) = k ∷ keys m

unfoldable pub running_ids : ProxyManager → List Text
unfolding keys sort_by text_leb
running_ids m = sort_by text_leb (keys m.running)
