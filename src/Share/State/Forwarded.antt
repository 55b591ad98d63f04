-- ===== src/Share/State/Forwarded.antt =====
-- What a running server passes on: crates/agent/src/main.rs, crates/share/src/lib.rs and
-- restricted_http.rs.
use fabdev.Prelude.{
  ℕ, ◌≡◌, refl, sym, ◌∙◌, ap, subst, ◌⊎◌, inl, inr, Bool, true, false, &&-true, ◌||◌, Option, none,
  some, List, [], ◌∷◌, map, arith, Bool-cases, Option-cases, any, Text, text_eq, text_eq_iff,
  to_ascii_lowercase,
}
use fabdev.Share.Server.{
  Authority, Request, Http, only, is_target_of, request_is_allowed, forwards, ShareServer,
  normalize_domains, normalize_domain, is_allowed, request_domain, passes,
}
use fabdev.Share.State.{LanShareSiteInfo, LanShareInfo, init, site_domain}
use fabdev.Share.State
use fabdev.Share.State.Calls.{Call, run}
use fabdev.Share.State.Invariant.{Serves, Consistent}
use fabdev.Share.State.Consistent.{run-IsConsistent}

any-map :
    (p : Text → Bool) (sites : List LanShareSiteInfo)
    → any p (normalize_domains (map site_domain sites))
      ≡ any (λ s. p (normalize_domain s.domain)) sites
any-map p [] = refl
any-map p (s ∷ ss) = ap (◌||◌ (p (normalize_domain s.domain))) (any-map p ss)

-- Whether a request's host is the domain of a listed site.
pub names_shared : List Text → List LanShareSiteInfo → Bool
unfolding normalize_domain
names_shared lines sites = elim (request_domain lines) [
  | none ↦ false
  | some domain ↦ any (λ s. text_eq (to_ascii_lowercase domain) (normalize_domain s.domain)) sites
]

serving :
    (server : ShareServer) (o : Option ShareServer) (i : Option LanShareInfo)
    → Consistent o i
    → o ≡ some server
    → (info : LanShareInfo) × (i ≡ some info) × Serves info server
serving server none i c h = absurd (ground arith)
serving server (some s) none c h = absurd (ground arith)
serving server (some s) (some info) c h =
    let same : s ≡ server = ground arith in (info, refl, subst (Serves info) same c.0)

-- A request that may reach a shared site: by its header lines and, as it is parsed, by the one `Host`.
pub record IsForwardable (http : Http) (lines : List Text) (sites : List LanShareSiteInfo)
    : Type 0 where
  pub named : names_shared lines sites ≡ true
  pub request : Request
  pub parsed : http.parse_request lines ≡ some request
  pub no_tunnel : request.is_connect ≡ false
  pub value : Text
  pub alone : request.hosts ≡ value ∷ []
  pub host : Authority
  pub valid : http.parse_authority value ≡ some host
  pub shared :
      any (λ s. text_eq (to_ascii_lowercase host.host) (normalize_domain s.domain)) sites ≡ true
  pub target :
      (request.authority ≡ none)
      ⊎ ((a : Authority) × (request.authority ≡ some a)
          × (to_ascii_lowercase a.text ≡ to_ascii_lowercase host.text))

allowed-named :
    (lines : List Text) (sites : List LanShareSiteInfo)
    → is_allowed lines (normalize_domains (map site_domain sites)) ≡ names_shared lines sites
unfolding is_allowed names_shared
allowed-named lines sites = elim (Option-cases (request_domain lines)) [
  | inl missing ↦ ground (arith, missing)
  | inr (domain, found) ↦ ground (arith, found, any-map (text_eq (to_ascii_lowercase domain)) sites)
]

only-alone : (values : List Text) (value : Text) → only values ≡ some value → values ≡ value ∷ []
only-alone [] value h = cc
only-alone (v ∷ []) value h = cc
only-alone (v ∷ (w ∷ vs)) value h = cc

target-authority :
    (o : Option Authority) (host : Authority)
    → is_target_of o host ≡ true
    → (o ≡ none)
      ⊎ ((a : Authority) × (o ≡ some a)
          × (to_ascii_lowercase a.text ≡ to_ascii_lowercase host.text))
target-authority none host h = inl refl
target-authority (some a) host h =
    inr (a, refl, (text_eq_iff (to_ascii_lowercase a.text) (to_ascii_lowercase host.text)).0 h)

-- What the service lets through is forwardable.
forwards-IsForwardable :
    (http : Http) (lines : List Text) (sites : List LanShareSiteInfo)
    → names_shared lines sites ≡ true
    → forwards http lines (normalize_domains (map site_domain sites)) ≡ true
    → IsForwardable http lines sites
unfolding forwards request_is_allowed
forwards-IsForwardable http lines sites named h = elim (Option-cases (http.parse_request lines)) [
  | inl refused ↦ absurd (cc (rw (refused, forwards) at h))
  | inr (request, parsed) ↦ elim (Bool-cases request.is_connect) [
    | inl tunnel ↦ absurd (cc (rw (parsed, tunnel, forwards, request_is_allowed) at h))
    | inr no_tunnel ↦ elim (Option-cases (only request.hosts)) [
      | inl several ↦
          absurd (cc (rw (parsed, no_tunnel, several, forwards, request_is_allowed) at h))
      | inr (value, alone) ↦ elim (Option-cases (http.parse_authority value)) [
        | inl invalid ↦
            absurd (cc (rw (parsed, no_tunnel, alone, invalid, forwards, request_is_allowed) at h))
        | inr (host, valid) ↦
            let (shared, target) =
              &&-true _ _
                (rw (parsed, no_tunnel, alone, valid, forwards, request_is_allowed) at h) in
            record {
              named = named;
              request = request;
              parsed = parsed;
              no_tunnel = no_tunnel;
              value = value;
              alone = only-alone request.hosts value alone;
              host = host;
              valid = valid;
              shared = sym (any-map (text_eq (to_ascii_lowercase host.host)) sites) ∙ shared;
              target = target-authority request.authority host target;
            }
      ]
    ]
  ]
]

passes-IsForwardable :
    (http : Http) (server : ShareServer) (info : LanShareInfo) (lines : List Text)
    → Serves info server
    → passes http server lines ≡ true
    → IsForwardable http lines info.sites
unfolding passes
passes-IsForwardable http server info lines serves h =
    let (named, forwarded) = &&-true _ _ (rw serves at h) in
    forwards-IsForwardable http lines info.sites (sym (allowed-named lines info.sites) ∙ named)
      forwarded

-- After any calls, if a running server passes a first request on: it has a `Host` line and its name, in
-- lower case, is the trimmed lower-case domain of a shared site; as it is parsed it is no CONNECT, has one
-- `Host` header only, an authority whose host is in lower case such a domain too, and if the target is
-- absolute, then its authority is that of the header, but for the case of letters.
pub run-passes :
    (http : Http) (cs : List Call) (http_port : ℕ) (server : ShareServer) (lines : List Text)
    → (run cs (State.init http_port)).server ≡ some server
    → passes http server lines ≡ true
    → (info : LanShareInfo) × ((run cs (State.init http_port)).info ≡ some info)
      × IsForwardable http lines info.sites
run-passes http cs http_port server lines h passed =
    let st = run cs (State.init http_port) in
    let (info, listed, serves) =
      serving server st.server st.info (run-IsConsistent cs http_port) h in
    (info, listed, passes-IsForwardable http server info lines serves passed)
