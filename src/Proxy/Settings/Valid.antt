-- ===== src/Proxy/Settings/Valid.antt =====
-- What settings of crates/proxy/src/lib.rs satisfy once they are validated.
use fabdev.Prelude.{
  ℕ, ◌≤◌, ◌≡◌, ◌≢◌, inl, inr, Bool, true, false, Option, none, some, [], ◌∷◌, arith, is_some, All,
  all, Text, Result-cases, is_empty, ok,
}
use fabdev.Sites.Domain.{normalize_domain}
use fabdev.Proxy.Settings.{
  ProxyConnectionSettings, Parsers, validate_connection, is_bad_https_port, is_id, is_id_character,
  max_timeout,
}

abbrev pub InRange : Option ℕ → ℕ → Type 0
InRange none listen_port = Unit
InRange (some port) listen_port = (1024 ≤ port) × (port ≢ listen_port)

pub record IsChecked (parsers : Parsers) (s : ProxyConnectionSettings) : Type 0 where
  pub id : All (λ c. is_id_character c ≡ true) s.id
  pub some_id : is_empty s.id ≡ false
  pub unprivileged : 1024 ≤ s.listen_port
  pub https : InRange s.https_port s.listen_port
  pub secure_port : s.secured ≡ true → is_some s.https_port ≡ true
  pub timeout : s.upstream_response_timeout_seconds ≤ max_timeout
  pub loopback : parsers.parse_loopback s.listen_host ≡ some true
  pub domain : (d : Text) × (normalize_domain s.domain ≡ ok d)

all-All : (p : ℕ → Bool) (s : Text) → all p s ≡ true → All (λ c. p c ≡ true) s
all-All p [] h = tt
all-All p (c ∷ s) h = ground (arith, all-All p s)

good_https :
    (o : Option ℕ) (listen_port : ℕ)
    → is_bad_https_port o listen_port ≡ false
    → InRange o listen_port
good_https none listen_port h = tt
good_https (some port) listen_port h = (ground arith, λ e. ground arith)

module _ (parsers : Parsers) (s : ProxyConnectionSettings)
    (v : validate_connection parsers s ≡ ok tt) where
  valid-id : is_id s.id ≡ true
  unfolding validate_connection
  valid-id = ground arith

  valid-https : is_bad_https_port s.https_port s.listen_port ≡ false
  unfolding validate_connection
  valid-https = ground arith

  valid-domain : (d : Text) × (normalize_domain s.domain ≡ ok d)
  unfolding validate_connection
  valid-domain = elim (Result-cases (normalize_domain s.domain)) [
    | inl (e, refused) ↦ absurd (ground arith)
    | inr (d, accepted) ↦ (d, accepted)
  ]

  -- Validated settings have an identifier of lower-case letters, digits and dashes, unprivileged and
  -- different ports, an HTTPS port if they are secured, a timeout of at most 360 seconds, a loopback
  -- listener and a domain that is accepted.
  pub validate_connection-IsChecked : IsChecked parsers s
  unfolding validate_connection is_id
  validate_connection-IsChecked = record {
    id = all-All is_id_character s.id (ground (arith, valid-id));
    some_id = ground (arith, valid-id);
    unprivileged = ground arith;
    https = good_https s.https_port s.listen_port valid-https;
    secure_port = λ h. ground arith;
    timeout = ground arith;
    loopback = ground arith;
    domain = valid-domain;
  }
