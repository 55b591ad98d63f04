-- ===== src/Share/State/Consistent.antt =====
-- After any calls of `LanShareState` the server runs just when there is a list, and allows exactly the
-- listed sites' domains: crates/agent/src/main.rs.
use fabdev.Prelude.{
  ℕ, ◌≡◌, refl, inl, inr, Option, none, some, List, [], ◌∷◌, arith, ltb, ◌==◌, Bool-cases,
  Option-cases, find, retain, sort_by, Text, text_eq, Result, Result-cases, ok, err,
}
use fabdev.Sites.Site.{Site}
use fabdev.Share.Server.{
  SocketAddr, ShareServer, normalize_domains, start_with_domains, start_restricted,
}
use fabdev.Share.State.{
  LanShareInfo, LanShareState, init, shares, by_domain, share_of, with_sites, add_site,
  start_server, start_shared, start, stop, no_site, is_not, stop_site, renamed, update_site,
  still_shared, sync_sites,
}
use fabdev.Share.State
use fabdev.Share.State.Calls.{
  Call, starting, stopping, stopping_site, updating, syncing, perform, run,
}
use fabdev.Share.State.Invariant.{
  IsListed, Serves, Consistent, IsConsistent, sort-IsListed, publish-ok, published-Serves,
  add_site-IsListed, renamed-IsListed, still_shared-Pairs, retain-IsListed,
}

abbrev state : SocketAddr → Option ShareServer → Option LanShareInfo → LanShareState
state upstream server info = record { upstream = upstream; server = server; info = info }

stop-IsConsistent : (ended : Option Text) (st : LanShareState) → IsConsistent (stop ended st).0
unfolding stop
stop-IsConsistent ended st = from st.upstream st.server st.info
  where
    from :
        (upstream : SocketAddr) (server : Option ShareServer) (info : Option LanShareInfo)
        → IsConsistent (stop ended (state upstream server info)).0
    from upstream none info = tt
    from upstream (some server) info = tt

-- A server that starts lets just the domain it is given pass.
start_restricted-allows :
    (upstream : SocketAddr) (domain : Text) (listening : Result Text SocketAddr)
    (server : ShareServer)
    → start_restricted upstream (domain ∷ []) listening ≡ ok server
    → server.allowed_domains ≡ some (normalize_domains (domain ∷ []))
unfolding start_restricted start_with_domains
start_restricted-allows upstream domain (err e) server h = absurd (ground arith)
start_restricted-allows upstream domain (ok local) server h =
    elim (Bool-cases upstream.is_loopback) [
      | inl loopback ↦ ground arith
      | inr outside ↦ absurd (ground arith)
    ]

start_server-IsConsistent :
    (site : Site) (listening : Result Text SocketAddr) (lan : Result Text Text) (st : LanShareState)
    → IsConsistent st
    → IsConsistent (start_server site listening lan st).0
unfolding start_server
start_server-IsConsistent site listening lan st c =
    elim (Result-cases (start_restricted st.upstream (site.domain ∷ []) listening)) [
      | inl (e, refused) ↦ ground (arith, refused, c)
      | inr (server, started) ↦ elim lan [
        | err e ↦ ground (arith, started, c)
        | ok host ↦
            let listed : IsListed (share_of site ∷ []) = record {
              some_site = refl;
              distinct = (tt, tt);
              sorted = (tt, tt);
            } in
            ground (
              arith,
              started,
              start_restricted-allows st.upstream site.domain listening server started,
              listed,
            )
      ]
    ]

start_shared-IsConsistent :
    (site : Site) (port : ℕ) (upstream : SocketAddr) (server : ShareServer) (info : LanShareInfo)
    → Serves info server
    → IsListed info.sites
    → IsConsistent (start_shared site port info (state upstream (some server) (some info))).0
unfolding start_shared
start_shared-IsConsistent site port upstream server info s l =
    let shared = add_site site info in
    let listed = add_site-IsListed site info l in
    elim (Bool-cases (info.port == port)) [
      | inr other ↦ rw other (s, l)
      | inl same ↦
          rw (same, publish-ok shared server listed.some_site)
            (published-Serves shared server, listed)
    ]

stop_site-from :
    (id : ℕ) (ended : Option Text) (upstream : SocketAddr) (server : Option ShareServer)
    (info : Option LanShareInfo)
    → Consistent server info
    → IsConsistent (stop_site id ended (state upstream server info)).0
unfolding stop_site
stop_site-from id ended upstream none none c = tt
stop_site-from id ended upstream (some server) none c = absurd (ground arith)
stop_site-from id ended upstream none (some info) c = absurd (ground arith)
stop_site-from id ended upstream (some server) (some info) (s, l) =
    let kept = with_sites info (retain (is_not id) info.sites) in
    elim (Bool-cases (no_site kept.sites)) [
      | inl empty ↦ rw empty (stop-IsConsistent ended (state upstream (some server) (some kept)))
      | inr left ↦
          rw (left, publish-ok kept server left)
            (published-Serves kept server, retain-IsListed id info left l)
    ]

update_site-from :
    (site : Site) (upstream : SocketAddr) (server : Option ShareServer) (info : Option LanShareInfo)
    → Consistent server info
    → IsConsistent (update_site site (state upstream server info)).0
unfolding update_site
update_site-from site upstream none none c = tt
update_site-from site upstream (some server) none c = absurd (ground arith)
update_site-from site upstream none (some info) c = absurd (ground arith)
update_site-from site upstream (some server) (some info) (s, l) =
    let next = renamed site.id site.domain info in
    let listed = renamed-IsListed site.id site.domain info l in
    elim (Option-cases (find (shares site.id) info.sites)) [
      | inl unshared ↦ ground (arith, unshared, s, l)
      | inr (shared, found) ↦ elim (Bool-cases (text_eq shared.domain site.domain)) [
        | inl same ↦ ground (arith, found, same, s, l)
        | inr other ↦ ground (
          arith,
          found,
          other,
          publish-ok next server listed.some_site,
          published-Serves next server,
          listed,
        )
      ]
    ]

sync_sites-from :
    (sites : List Site) (ended : Option Text) (upstream : SocketAddr) (server : Option ShareServer)
    (info : Option LanShareInfo)
    → Consistent server info
    → IsConsistent (sync_sites sites ended (state upstream server info)).0
unfolding sync_sites
sync_sites-from sites ended upstream none none c = tt
sync_sites-from sites ended upstream (some server) none c = absurd (ground arith)
sync_sites-from sites ended upstream none (some info) c = absurd (ground arith)
sync_sites-from sites ended upstream (some server) (some info) (s, l) =
    let kept = still_shared sites info.sites in
    let synced = with_sites info (sort_by by_domain kept) in
    elim (Bool-cases (no_site kept)) [
      | inl empty ↦ rw empty (stop-IsConsistent ended (state upstream (some server) (some info)))
      | inr left ↦
          let listed = sort-IsListed kept left (still_shared-Pairs sites info.sites l.distinct) in
          rw (left, publish-ok synced server listed.some_site)
            (published-Serves synced server, listed)
    ]

start-from :
    (site : Site) (port : ℕ) (listening : Result Text SocketAddr) (lan : Result Text Text)
    (upstream : SocketAddr) (server : Option ShareServer) (info : Option LanShareInfo)
    → Consistent server info
    → IsConsistent (start site port listening lan (state upstream server info)).0
unfolding start
start-from site port listening lan upstream server info c = elim (Bool-cases (ltb port 1024)) [
  | inl low ↦ rw low c
  | inr high ↦ rw high (start-unprivileged server info c)
]
  where
    start-unprivileged :
        (server : Option ShareServer) (info : Option LanShareInfo)
        → Consistent server info
        → IsConsistent
            (elim info as (λ o. State.Outcome LanShareInfo) [
              | none ↦ start_server site listening lan (state upstream server info)
              | some i ↦ start_shared site port i (state upstream server info)
            ]).0
    start-unprivileged none none c =
        start_server-IsConsistent site listening lan (state upstream none none) c
    start-unprivileged (some server) none c = absurd (ground arith)
    start-unprivileged none (some info) c = absurd (ground arith)
    start-unprivileged (some server) (some info) (s, l) =
        start_shared-IsConsistent site port upstream server info s l

perform-IsConsistent :
    (c : Call) (st : LanShareState) → IsConsistent st → IsConsistent (perform c st)
unfolding perform
perform-IsConsistent (starting site port listening lan) st c =
    start-from site port listening lan st.upstream st.server st.info c
perform-IsConsistent (stopping ended) st c = stop-IsConsistent ended st
perform-IsConsistent (stopping_site id ended) st c =
    stop_site-from id ended st.upstream st.server st.info c
perform-IsConsistent (updating site) st c = update_site-from site st.upstream st.server st.info c
perform-IsConsistent (syncing sites ended) st c =
    sync_sites-from sites ended st.upstream st.server st.info c

from-IsConsistent :
    (cs : List Call) (st : LanShareState) → IsConsistent st → IsConsistent (run cs st)
unfolding run
from-IsConsistent [] st c = c
from-IsConsistent (k ∷ cs) st c = from-IsConsistent cs (perform k st) (perform-IsConsistent k st c)

-- After any calls, failed ones too, the server runs just when there is a list of shared sites; the list
-- is then not empty, names no site twice and is sorted by domain, and the server allows exactly the
-- trimmed lower-case domains of the list.
pub run-IsConsistent :
    (cs : List Call) (http_port : ℕ) → IsConsistent (run cs (State.init http_port))
run-IsConsistent cs http_port = from-IsConsistent cs (State.init http_port) tt
