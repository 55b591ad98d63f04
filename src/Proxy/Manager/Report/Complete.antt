-- ===== src/Proxy/Manager/Report/Complete.antt =====
-- The report of `ProxyManager` is complete and in order: crates/proxy/src/lib.rs.
use fabdev.Prelude.{
  sorted-All, ◌<◌, map_get, Option, none, some, true, ◌≡◌, refl, ap, ◌∙◌, Bool, false, ◌||◌, List,
  [], ◌∷◌, arith, ◌==◌, All, any, Pairs, Map, any-sort_by, IsSorted, sort_by-IsSorted,
  sort_by-Pairs, Text,
}
use fabdev.Proxy.Settings.{ProxyConnectionSettings, Parsers, connection_ports}
use fabdev.Proxy.Manager.{ProxyManager, RunningProxy, shares_port}
use fabdev.Proxy.Manager
use fabdev.Proxy.Manager.Calls.{Call, run}
use fabdev.Proxy.Manager.Unique.{Apart}
use fabdev.Proxy.Manager.Unique.Every.{run-IsUnique}
use fabdev.Proxy.Manager.Report.{
  ProxyConnectionInfo, ProxyConnectionState, running, degraded, stopped, failed, connection_state,
  of_failure, of_running, info, infos, by_port, state,
}
use fabdev.Proxy.Health.{last_error}

abbrev pub OtherPort : ProxyConnectionInfo → ProxyConnectionInfo → Type 0
OtherPort a b = (a.listen_port == b.listen_port) ≡ false

-- Every entry of the list is told, and nothing else.
infos-any :
    (m : ProxyManager) (cs : Map ProxyConnectionSettings) (p : ProxyConnectionInfo → Bool)
    → any p (infos m cs) ≡ any (λ e. p (info m e)) cs
unfolding infos
infos-any m [] p = refl
infos-any m (e ∷ es) p = ap (◌||◌ (p (info m e))) (infos-any m es p)

other_port :
    (m : ProxyManager) (e f : Text × ProxyConnectionSettings)
    → Apart e f
    → OtherPort (info m e) (info m f)
unfolding info shares_port connection_ports
other_port m (j, c) (k, d) h = ground (arith, h.1)

other_ports :
    (m : ProxyManager) (e : Text × ProxyConnectionSettings) (cs : Map ProxyConnectionSettings)
    → All (Apart e) cs
    → All (OtherPort (info m e)) (infos m cs)
unfolding infos
other_ports m e [] a = tt
other_ports m e (f ∷ cs) a = (other_port m e f a.0, other_ports m e cs a.1)

infos-Pairs :
    (m : ProxyManager) (cs : Map ProxyConnectionSettings)
    → Pairs Apart cs
    → Pairs OtherPort (infos m cs)
unfolding infos
infos-Pairs m [] p = tt
infos-Pairs m (e ∷ cs) p = (other_ports m e cs p.0, infos-Pairs m cs p.1)

-- The port of each is below that of every later one.
abbrev pub Ascends : ProxyConnectionInfo → ProxyConnectionInfo → Type 0
Ascends a b = a.listen_port < b.listen_port

ascends :
    (a : ProxyConnectionInfo) (is : List ProxyConnectionInfo)
    → All (λ b. by_port a b ≡ true) is
    → All (OtherPort a) is
    → All (Ascends a) is
ascends a [] s o = tt
ascends a (b ∷ is) s o = (ground (arith, s.0, o.0), ascends a is s.1 o.1)

ascending :
    (is : List ProxyConnectionInfo) → IsSorted by_port is → Pairs OtherPort is → Pairs Ascends is
ascending [] s o = tt
ascending (a ∷ is) s o = (
  ascends a is (sorted-All by_port (λ a b c h k. ground arith) a is s.0 s.1) o.0,
  ascending is s.1 o.1,
)

-- The settings that the report repeats.
abbrev pub Repeats : ProxyConnectionSettings → ProxyConnectionInfo → Type 0
Repeats s i =
    (i.id ≡ s.id)
    × (i.domain ≡ s.domain)
    × (i.target ≡ s.target)
    × (i.listen_port ≡ s.listen_port)
    × (i.https_port ≡ s.https_port)
    × (i.secured ≡ s.secured)

-- What the report says of the state: `running` holds for a live listener without an error alone.
abbrev pub Reflects : Option RunningProxy → Option Text → ProxyConnectionInfo → Type 0
Reflects none none i = (i.state ≡ stopped) × (i.last_error ≡ none)
Reflects none (some error) i = (i.state ≡ failed) × (i.last_error ≡ some error)
Reflects (some r) f i =
    (r.is_finished ≡ true → i.state ≡ failed)
    × (r.is_finished ≡ false → last_error r.health ≡ none → i.state ≡ running)
    × ((e : Text)
        → r.is_finished ≡ false
        → last_error r.health ≡ some e
        → (i.state ≡ degraded) × (i.last_error ≡ some e))

info-Reflects :
    (m : ProxyManager) (k : Text) (s : ProxyConnectionSettings)
    → Repeats s (info m (k, s))
      × Reflects (map_get k m.running) (map_get k m.failed) (info m (k, s))
unfolding info connection_state
info-Reflects m k s =
    ((refl, refl, refl, refl, refl, refl), by_maps (map_get k m.running) (map_get k m.failed))
  where
    told : ProxyConnectionState × Option Text → ProxyConnectionInfo
    told (state, error) = record {
      secured = s.secured;
      https_port = s.https_port;
      id = s.id;
      name = s.name;
      domain = s.domain;
      listen_host = s.listen_host;
      listen_port = s.listen_port;
      target = s.target;
      allowed_origins = s.allowed_origins;
      upstream_response_timeout_seconds = s.upstream_response_timeout_seconds;
      state = state;
      last_error = error;
    }

    by_maps :
        (r : Option RunningProxy) (f : Option Text)
        → Reflects r f (told (elim r [ none ↦ of_failure f | some p ↦ of_running p ]))
    by_maps none none = (refl, refl)
    by_maps none (some e) = (refl, refl)
    by_maps (some p) f = (λ h. rw h, λ h e. rw (h, e), λ e h q. (rw (h, q), rw (h, q)))

pub run-state :
    (parsers : Parsers) (cs : List Call) (p : ProxyConnectionInfo → Bool)
    → let m = run parsers cs Manager.init in
      (any p (state m) ≡ any (λ e. p (info m e)) m.connections)
      × Pairs Ascends (state m)
      × ((k : Text) (s : ProxyConnectionSettings)
          → Repeats s (info m (k, s))
            × Reflects (map_get k m.running) (map_get k m.failed) (info m (k, s)))
unfolding state
run-state parsers cs p =
    let m = run parsers cs Manager.init in
    (
      any-sort_by p by_port (infos m m.connections) ∙ infos-any m m.connections p,
      ascending (state m) (sort_by-IsSorted by_port (λ a b h. ground arith) (infos m m.connections))
          (sort_by-Pairs OtherPort by_port (infos m m.connections) (λ a b h. ground arith)
            (infos-Pairs m m.connections (run-IsUnique parsers cs).1)),
      info-Reflects m,
    )
