-- ===== src/Proxy/Manager/Placed.antt =====
-- Where the identifiers of `ProxyManager` stand: crates/proxy/src/lib.rs.
pub mod Every
use fabdev.Prelude.{
  ◌≡◌, inl, inr, true, false, none, arith, Bool-cases, Option-cases, map_get, contains_key,
  map_remove, map_insert, map_get-remove, map_get-insert, Text, text_eq_refl, text_eq_iff,
  Result-cases, ok,
}
use fabdev.Proxy.Settings.{
  ProxyConnectionSettings, ProxyConnectionInput, Parsers, normalize_connection_settings,
  validate_connection, connection_from_input,
}
use fabdev.Proxy.Manager.{
  ProxyManager, RunningProxy, ManagerError, Outcome, Bind, lift, validate_unique, with_connections,
  forget_failure, stop, listen, start, add_settings, add, remove,
}
use fabdev.Proxy.Manager
use fabdev.Proxy.Health
use fabdev.Proxy.Manager.Update.{
  put_settings, stop_if, roll_back, restart, replace, check_update, update, restore_update,
}
use fabdev.Proxy.Manager.Calls.{
  Call, adding, adding_settings, starting, stopping, removing, updating, restoring, perform, run,
}

-- A running or failed identifier is that of a connection, and none is both.
pub record IsPlaced (j : Text) (m : ProxyManager) : Type 0 where
  pub running : contains_key j m.running ≡ true → contains_key j m.connections ≡ true
  pub failed : contains_key j m.failed ≡ true → contains_key j m.connections ≡ true
  pub apart : contains_key j m.running ≡ true → contains_key j m.failed ≡ false

abbrev fresh : RunningProxy
fresh = record { is_finished = false; health = Health.default }

module _ (j : Text) where
  pub stop-IsPlaced : (id : Text) (m : ProxyManager) → IsPlaced j m → IsPlaced j (stop id m).0
  unfolding stop forget_failure
  stop-IsPlaced id m p = record {
    running = λ h. ground (arith, p.running, map_get-remove id j m.running);
    failed = λ h. ground (arith, p.failed, map_get-remove id j m.failed);
    apart =
        λ h. ground (arith, p.apart, map_get-remove id j m.running, map_get-remove id j m.failed);
  }

  -- The three maps after a failure is forgotten, and then a listener or a failure is noted.
  pub forget-IsPlaced :
      (id : Text) (m : ProxyManager) → IsPlaced j m → IsPlaced j (forget_failure id m)
  unfolding forget_failure
  forget-IsPlaced id m p = record {
    running = p.running;
    failed = λ h. ground (arith, p.failed, map_get-remove id j m.failed);
    apart = λ h. ground (arith, p.apart, map_get-remove id j m.failed);
  }

  fresh-IsPlaced :
      (id : Text) (r : RunningProxy) (m : ProxyManager)
      → contains_key id m.connections ≡ true
      → IsPlaced j m
      → IsPlaced j (record (forget_failure id m) { running = map_insert id r m.running })
  unfolding forget_failure
  fresh-IsPlaced id r m known p = record {
    running = λ h. ground (arith, p.running, map_get-insert id j r m.running, text_eq_iff id j);
    failed = λ h. ground (arith, p.failed, map_get-remove id j m.failed);
    apart = λ h. ground (
      arith,
      p.apart,
      map_get-insert id j r m.running,
      map_get-remove id j m.failed,
      text_eq_iff id j,
    );
  }

  fail-IsPlaced :
      (id error : Text) (m : ProxyManager)
      → contains_key id m.connections ≡ true
      → map_get id m.running ≡ none
      → IsPlaced j m
      → IsPlaced j (record m { failed = map_insert id error (map_remove id m.failed) })
  fail-IsPlaced id error m known idle p =
      let cleared = map_remove id m.failed in
      record {
        running = p.running;
        failed = λ h. ground (
          arith,
          p.failed,
          map_get-insert id j error cleared,
          map_get-remove id j m.failed,
          text_eq_iff id j,
        );
        apart = λ h. ground (
          arith,
          p.apart,
          map_get-insert id j error cleared,
          map_get-remove id j m.failed,
          text_eq_iff id j,
        );
      }

  stop-idle :
      (id : Text) (m : ProxyManager) (x : Unit {0})
      → (stop id m).1 ≡ ok x
      → map_get id (stop id m).0.running ≡ none
  unfolding stop
  stop-idle id m x h = ground (arith, map_get-remove id id m.running, text_eq_refl id)

  module _ (parsers : Parsers) (bind : Bind) where
    listen-IsPlaced :
        (id : Text) (m : ProxyManager)
        → map_get id m.running ≡ none
        → IsPlaced j m
        → IsPlaced j (listen parsers bind id m).0
    unfolding listen forget_failure
    listen-IsPlaced id m idle p = elim (Option-cases (map_get id m.connections)) [
      | inl unknown ↦ ground (arith, unknown, p)
      | inr (s, found) ↦ elim (Option-cases (parsers.parse_loopback s.listen_host)) [
        | inl unreadable ↦ ground (arith, found, unreadable, forget-IsPlaced id m p)
        | inr (loopback, read) ↦ elim (Option-cases (bind s)) [
          | inl bound ↦
              ground
                (arith, found, read, bound, fresh-IsPlaced id fresh m (ground (arith, found)) p)
          | inr (error, refused) ↦
              ground (
                arith,
                found,
                read,
                refused,
                fail-IsPlaced id error m (ground (arith, found)) idle p,
              )
        ]
      ]
    ]

    pub start-IsPlaced :
        (id : Text) (m : ProxyManager) → IsPlaced j m → IsPlaced j (start parsers bind id m).0
    unfolding start
    start-IsPlaced id m p = elim (Option-cases (map_get id m.running)) [
      | inl idle ↦ ground (arith, idle, listen-IsPlaced id m idle p)
      | inr (r, runs) ↦ elim (Bool-cases r.is_finished) [
        | inr live ↦ ground (arith, runs, live, p)
        | inl finished ↦
            let stopped = (stop id m).0 in
            let kept = stop-IsPlaced id m p in
            elim (Result-cases (stop id m).1) [
              | inl (e, refused) ↦ ground (arith, runs, finished, refused, kept)
              | inr (x, done) ↦ ground (
                arith,
                runs,
                finished,
                done,
                listen-IsPlaced id stopped (stop-idle id m x done) kept,
              )
            ]
      ]
    ]

  -- More connections, or other settings, move no identifier.
  pub insert-IsPlaced :
      (id : Text) (s : ProxyConnectionSettings) (m : ProxyManager)
      → IsPlaced j m
      → IsPlaced j (with_connections m (map_insert id s m.connections))
  insert-IsPlaced id s m p = record {
    running = λ h. ground (arith, p.running, map_get-insert id j s m.connections);
    failed = λ h. ground (arith, p.failed, map_get-insert id j s m.connections);
    apart = p.apart;
  }

  pub remove-IsPlaced :
      (parsers : Parsers) (id : Text) (m : ProxyManager)
      → IsPlaced j m
      → IsPlaced j (remove parsers id m).0
  unfolding remove forget_failure stop
  remove-IsPlaced parsers id m p = elim (Option-cases (map_get id m.connections)) [
    | inl unknown ↦ ground (arith, unknown, p)
    | inr (s, found) ↦
        let gone = record m {
          running = map_remove id m.running;
          failed = map_remove id (map_remove id m.failed);
          connections = map_remove id m.connections;
        } in
        let placed : IsPlaced j gone = record {
          running = λ h.
              ground (
                arith,
                p.running,
                map_get-remove id j m.running,
                map_get-remove id j m.connections,
              );
          failed = λ h. ground (
            arith,
            p.failed,
            map_get-remove id j (map_remove id m.failed),
            map_get-remove id j m.failed,
            map_get-remove id j m.connections,
          );
          apart = λ h. ground (
            arith,
            p.apart,
            map_get-remove id j m.running,
            map_get-remove id j (map_remove id m.failed),
            map_get-remove id j m.failed,
          );
        } in
        ground (arith, found, placed)
  ]
