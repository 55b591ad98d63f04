-- ===== src/Proxy/Manager/Placed/Every.antt =====
-- Every call of `ProxyManager` keeps its identifiers in place: crates/proxy/src/lib.rs.
use fabdev.Prelude.{
  refl, inl, inr, Bool, true, false, List, [], ◌∷◌, arith, Option-cases, map_get, contains_key,
  map_insert, Text, Result-cases,
}
use fabdev.Proxy.Settings.{
  ProxyConnectionSettings, ProxyConnectionInput, Parsers, normalize_connection_settings,
  connection_from_input,
}
use fabdev.Proxy.Manager.{
  ProxyManager, ManagerError, Outcome, Bind, lift, validate_unique, with_connections,
  forget_failure, stop, listen, start, add_settings, add, remove,
}
use fabdev.Proxy.Manager
use fabdev.Proxy.Manager.Update.{
  put_settings, stop_if, roll_back, restart, replace, check_update, update, restore_update,
}
use fabdev.Proxy.Manager.Calls.{
  Call, adding, adding_settings, starting, stopping, removing, updating, restoring, perform, run,
}
use fabdev.Proxy.Manager.Placed.{
  IsPlaced, stop-IsPlaced, forget-IsPlaced, insert-IsPlaced, remove-IsPlaced, start-IsPlaced,
}

module _ (j : Text) where
  put_settings-IsPlaced :
      (id : Text) (s : ProxyConnectionSettings) (m : ProxyManager)
      → IsPlaced j m
      → IsPlaced j (put_settings id s m)
  unfolding put_settings
  put_settings-IsPlaced id s m p =
      insert-IsPlaced j id s (forget_failure id m) (forget-IsPlaced j id m p)

  stop_if-IsPlaced :
      (b : Bool) (id : Text) (m : ProxyManager) → IsPlaced j m → IsPlaced j (stop_if b id m).0
  unfolding stop_if
  stop_if-IsPlaced true id m p = stop-IsPlaced j id m p
  stop_if-IsPlaced false id m p = p

  module _ (parsers : Parsers) where
    add_settings-IsPlaced :
        (given : ProxyConnectionSettings) (m : ProxyManager)
        → IsPlaced j m
        → IsPlaced j (add_settings parsers given m).0
    unfolding add_settings
    add_settings-IsPlaced given m p =
        let s = normalize_connection_settings given in
        ground (arith, p, insert-IsPlaced j s.id s m p)

    add-IsPlaced :
        (input : ProxyConnectionInput) (m : ProxyManager)
        → IsPlaced j m
        → IsPlaced j (add parsers input m).0
    unfolding add
    add-IsPlaced input m p = elim (Result-cases (lift (connection_from_input parsers input))) [
      | inl (e, refused) ↦ ground (arith, refused, p)
      | inr (s, made) ↦ ground (arith, made, add_settings-IsPlaced s m p)
    ]

    module _ (first second : Bind) where
      roll_back-IsPlaced :
          (id : Text) (previous : ProxyConnectionSettings) (error : Text) (m : ProxyManager)
          → IsPlaced j m
          → IsPlaced j (roll_back parsers first second id previous error m).0
      unfolding roll_back
      roll_back-IsPlaced id previous error m p =
          let restored = with_connections m (map_insert id previous m.connections) in
          ground
            (arith, start-IsPlaced j parsers second id restored (insert-IsPlaced j id previous m p))

      restart-IsPlaced :
          (id : Text) (previous : ProxyConnectionSettings) (m : ProxyManager)
          → IsPlaced j m
          → IsPlaced j (restart parsers first second id previous m).0
      unfolding restart
      restart-IsPlaced id previous m p =
          let started = (start parsers first id m).0 in
          let kept = start-IsPlaced j parsers first id m p in
          elim (Option-cases (map_get id started.failed)) [
            | inl fine ↦ ground (arith, fine, kept)
            | inr (error, failed) ↦
                ground (arith, failed, kept, roll_back-IsPlaced id previous error started kept)
          ]

      replace-IsPlaced :
          (id : Text) (previous s : ProxyConnectionSettings) (m : ProxyManager)
          → IsPlaced j m
          → IsPlaced j (replace parsers first second id previous s m).0
      unfolding replace
      replace-IsPlaced id previous s m p =
          let stopped = (stop_if (contains_key id m.running) id m).0 in
          let kept = stop_if-IsPlaced (contains_key id m.running) id m p in
          let put = put_settings-IsPlaced id s stopped kept in
          ground (arith, kept, put, restart-IsPlaced id previous (put_settings id s stopped) put)

      update-IsPlaced :
          (id : Text) (input : ProxyConnectionInput) (m : ProxyManager)
          → IsPlaced j m
          → IsPlaced j (update parsers first second id input m).0
      unfolding update
      update-IsPlaced id input m p = elim (Result-cases (check_update parsers id input m)) [
        | inl (e, refused) ↦ ground (arith, refused, p)
        | inr ((previous, s), checked) ↦ ground (arith, checked, replace-IsPlaced id previous s m p)
      ]

      restore_update-IsPlaced :
          (given : ProxyConnectionSettings) (b : Bool) (m : ProxyManager)
          → IsPlaced j m
          → IsPlaced j (restore_update parsers first second given b m).0
      unfolding restore_update
      restore_update-IsPlaced given b m p =
          let s = normalize_connection_settings given in
          let stopped = (stop s.id m).0 in
          let kept = stop-IsPlaced j s.id m p in
          let put = put_settings-IsPlaced s.id s stopped kept in
          ground (
            arith,
            p,
            kept,
            put,
            start-IsPlaced j parsers first s.id (put_settings s.id s stopped) put,
          )

    perform-IsPlaced :
        (c : Call) (m : ProxyManager) → IsPlaced j m → IsPlaced j (perform parsers c m)
    unfolding perform
    perform-IsPlaced (adding input) m p = add-IsPlaced input m p
    perform-IsPlaced (adding_settings s) m p = add_settings-IsPlaced s m p
    perform-IsPlaced (starting bind id) m p = start-IsPlaced j parsers bind id m p
    perform-IsPlaced (stopping id) m p = stop-IsPlaced j id m p
    perform-IsPlaced (removing id) m p = remove-IsPlaced j parsers id m p
    perform-IsPlaced (updating first second id input) m p =
        update-IsPlaced first second id input m p
    perform-IsPlaced (restoring bind s b) m p = restore_update-IsPlaced bind bind s b m p

    from-IsPlaced :
        (cs : List Call) (m : ProxyManager) → IsPlaced j m → IsPlaced j (run parsers cs m)
    unfolding run
    from-IsPlaced [] m p = p
    from-IsPlaced (c ∷ cs) m p = from-IsPlaced cs (perform parsers c m) (perform-IsPlaced c m p)

-- Whatever calls are made of a new manager, and whichever binds fail, an identifier that runs or has
-- failed is that of a connection, and none both runs and has failed.
pub run-IsPlaced :
    (parsers : Parsers) (cs : List Call) (j : Text) → IsPlaced j (run parsers cs Manager.init)
unfolding map_get
run-IsPlaced parsers cs j = from-IsPlaced j parsers cs Manager.init (record {
  running = λ h. absurd (ground arith);
  failed = λ h. absurd (ground arith);
  apart = λ h. refl;
})
