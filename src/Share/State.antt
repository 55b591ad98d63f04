-- ===== src/Share/State.antt =====
-- `LanShareState` of crates/agent/src/main.rs, which the agent keeps behind one lock. What a call wrote
-- before an error stays written, so the state comes back beside the error too.
pub mod Calls
pub mod Invariant
pub mod Consistent
pub mod Forwarded
use fabdev.Prelude.{
  ℕ, Bool, true, false, not, ◌&&◌, Option, none, some, List, [], ◌∷◌, ◌++◌, map, ltb, ◌==◌,
  if◌then◌else◌, any, find, retain, sort_by, Text, text_eq, text_leb, Result, ◌>>=◌, ◌>>◌, ok, err,
}
use fabdev.Sites.Site.{Site}
use fabdev.Share.Server.{
  SocketAddr, ShareError, no_domains, unprivileged_port, lan_address, already_running, ShareServer,
  start_restricted, set_allowed_domains, stop_server,
}

pub record LanShareSiteInfo : Type 0 where
  pub site_id : ℕ
  pub domain : Text

pub record LanShareInfo : Type 0 where
  pub host : Text
  pub port : ℕ
  pub sites : List LanShareSiteInfo

pub record LanShareState : Type 0 where
  pub upstream : SocketAddr
  pub server : Option ShareServer
  pub info : Option LanShareInfo

abbrev pub Outcome : Type 0 → Type 0
Outcome A = LanShareState × Result ShareError A

abbrev pub init : ℕ → LanShareState
init http_port = record {
  upstream = record { is_loopback = true; port = http_port };
  server = none;
  info = none;
}

abbrev pub shares : ℕ → LanShareSiteInfo → Bool
shares id shared = shared.site_id == id

unfoldable pub contains : ℕ → LanShareState → Bool
contains id st = elim st.info [ none ↦ false | some info ↦ any (shares id) info.sites ]

abbrev pub by_domain : LanShareSiteInfo → LanShareSiteInfo → Bool
by_domain left right = text_leb left.domain right.domain

abbrev pub site_domain : LanShareSiteInfo → Text
site_domain shared = shared.domain

abbrev pub share_of : Site → LanShareSiteInfo
share_of site = record { site_id = site.id; domain = site.domain }

abbrev pub with_sites : LanShareInfo → List LanShareSiteInfo → LanShareInfo
with_sites info sites = record info { sites = sites }

unfoldable pub add_site : Site → LanShareInfo → LanShareInfo
unfolding sort_by text_leb
add_site site info =
    if any (shares site.id) info.sites
    then info
    else with_sites info (sort_by by_domain (info.sites ++ (share_of site ∷ [])))

-- The server, if there is one, takes the domains of `info`.
unfoldable pub publish : LanShareInfo → Option ShareServer → Result ShareError (Option ShareServer)
unfolding set_allowed_domains
publish info none = ok none
publish info (some server) = do
  published ← set_allowed_domains (map site_domain info.sites) server
  ok (some published)

abbrev with_server : LanShareState → Option ShareServer → LanShareState
with_server st server = record st { server = server }

abbrev with_info : LanShareState → Option LanShareInfo → LanShareState
with_info st info = record st { info = info }

-- `start` when no share runs. `listening` answers the bind of `0.0.0.0:port`, `lan` the probe for the
-- host's address; a server whose address is not found is dropped.
unfoldable pub start_server :
    Site → Result Text SocketAddr → Result Text Text → LanShareState → Outcome LanShareInfo
unfolding start_restricted
start_server site listening lan st =
    elim (start_restricted st.upstream (site.domain ∷ []) listening) [
      | err e ↦ (st, err e)
      | ok server ↦ elim lan [
        | err e ↦ (st, err (lan_address e))
        | ok host ↦
            let info : LanShareInfo = record {
              host = host;
              port = server.local_addr.port;
              sites = share_of site ∷ [];
            } in
            (record st { server = some server; info = some info }, ok info)
      ]
    ]

-- `start` when a share runs.
unfoldable pub start_shared : Site → ℕ → LanShareInfo → LanShareState → Outcome LanShareInfo
unfolding add_site publish
start_shared site port info st =
    if not (info.port == port)
    then (st, err (already_running info.port))
    else (let shared = add_site site info in
        let next = with_info st (some shared) in
        elim (publish shared st.server) [
          | err e ↦ (next, err e)
          | ok server ↦ (with_server next server, ok shared)
        ])

unfoldable pub start :
    Site → ℕ → Result Text SocketAddr → Result Text Text → LanShareState → Outcome LanShareInfo
unfolding start_server start_shared
start site port listening lan st =
    if ltb port 1024 then (st, err unprivileged_port) else elim st.info [
      | none ↦ start_server site listening lan st
      | some info ↦ start_shared site port info st
    ]

-- `ended` answers the end of the server's task; there is none without a server.
unfoldable pub stop : Option Text → LanShareState → Outcome (Unit {0})
stop ended st =
    let gone = record st { server = none; info = none } in
    elim st.server [ none ↦ (gone, ok tt) | some server ↦ (gone, stop_server ended) ]

abbrev no_site : List LanShareSiteInfo → Bool
no_site [] = true
no_site (s ∷ ss) = false

abbrev is_not : ℕ → LanShareSiteInfo → Bool
is_not id shared = not (shares id shared)

unfoldable pub stop_site : ℕ → Option Text → LanShareState → Outcome (Option LanShareInfo)
unfolding stop publish
stop_site id ended st = elim st.info [
  | none ↦ (st, ok none)
  | some info ↦
      let kept = with_sites info (retain (is_not id) info.sites) in
      let next = with_info st (some kept) in
      let (stopped, result) = stop ended next in
      if no_site kept.sites
      then (stopped, (do result; ok none))
      else elim (publish kept st.server) [
        | err e ↦ (next, err e)
        | ok server ↦ (with_server next server, ok (some kept))
      ]
]

-- `iter_mut().find` and the assignment of the domain.
unfoldable pub rename : ℕ → Text → List LanShareSiteInfo → List LanShareSiteInfo
rename id domain [] = []
rename id domain (s ∷ ss) =
    let rest = rename id domain ss in
    if shares id s then record s { domain = domain } ∷ ss else s ∷ rest

unfoldable pub renamed : ℕ → Text → LanShareInfo → LanShareInfo
unfolding rename sort_by text_leb
renamed id domain info = with_sites info (sort_by by_domain (rename id domain info.sites))

unfoldable pub update_site : Site → LanShareState → Outcome (Unit {0})
unfolding renamed publish text_eq
update_site site st = elim st.info [
  | none ↦ (st, ok tt)
  | some info ↦ elim (find (shares site.id) info.sites) [
    | none ↦ (st, ok tt)
    | some shared ↦
        let next = renamed site.id site.domain info in
        if text_eq shared.domain site.domain then (st, ok tt) else elim (publish next st.server) [
          | err e ↦ (with_info st (some (renamed site.id shared.domain next)), err e)
          | ok server ↦ (with_server (with_info st (some next)) server, ok tt)
        ]
  ]
]

abbrev pub serves : ℕ → Site → Bool
serves id site = site.id == id && site.enabled

abbrev pub keep_found : Option Site → List LanShareSiteInfo → List LanShareSiteInfo
keep_found none rest = rest
keep_found (some site) rest = share_of site ∷ rest

-- The shared sites that are still there and enabled, with the domain that they have now.
unfoldable pub still_shared : List Site → List LanShareSiteInfo → List LanShareSiteInfo
still_shared sites [] = []
still_shared sites (s ∷ ss) =
    let rest = still_shared sites ss in keep_found (find (serves s.site_id) sites) rest

unfoldable pub sync_sites : List Site → Option Text → LanShareState → Outcome (Unit {0})
unfolding still_shared stop publish sort_by text_leb
sync_sites sites ended st = elim st.info [
  | none ↦ (st, ok tt)
  | some info ↦
      let kept = still_shared sites info.sites in
      let synced = with_sites info (sort_by by_domain kept) in
      if no_site kept then stop ended st else elim (publish synced st.server) [
        | err e ↦ (st, err e)
        | ok server ↦ (with_server (with_info st (some synced)) server, ok tt)
      ]
]
