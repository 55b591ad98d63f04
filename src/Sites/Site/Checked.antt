-- ===== src/Sites/Site/Checked.antt =====
-- What a site of crates/core/src/site.rs satisfies once it is created or edited.
use fabdev.Prelude.{
  refl, ℕ, ◌≤◌, ◌≡◌, inl, inr, true, false, Option, none, some, [], arith, Text, Result-cases, trim,
  is_empty, trim_idem, ok,
}
use fabdev.Sites.Domain.{normalize_domain, default_site_domain}
use fabdev.Sites.Domain.Normal.{IsNormal, normalize_domain-IsNormal}
use fabdev.Sites.Site.{
  Host, Site, SiteInput, SiteEditInput, create_site, edit_site, document_root_of,
  given_document_root, detect_document_root, site_name, default_timeout, max_timeout, or_default,
  or_previous,
}

pub record IsCreated (host : Host) (s : Site) : Type 0 where
  pub domain : IsNormal s.domain
  pub positive : 1 ≤ s.upstream_response_timeout_seconds
  pub bounded : s.upstream_response_timeout_seconds ≤ max_timeout

-- A document root that the user gave lies inside the project and is a directory.
abbrev pub IsInside : Host → Option Text → Site → Type 0
IsInside host none s = s.document_root ≡ detect_document_root host s.project_path
IsInside host (some root) s =
    (host.path_starts_with s.document_root s.project_path ≡ true)
    × (host.is_dir s.document_root ≡ true)

given-inside :
    (host : Host) (project path root : Text)
    → given_document_root host project path ≡ ok root
    → (host.path_starts_with root project ≡ true) × (host.is_dir root ≡ true)
unfolding given_document_root
given-inside host project path root h = (ground arith, ground arith)

module _ (host : Host) (id : ℕ) (input : SiteInput) (s : Site)
    (created : create_site host id input ≡ ok s) where
  create-normal : (w : Text) × (normalize_domain w ≡ ok s.domain)
  unfolding create_site
  create-normal = (
    or_default (default_site_domain (or_default [] (host.file_name s.project_path))) input.domain,
    ground arith,
  )

  create-root : document_root_of host s.project_path input.document_root ≡ ok s.document_root
  unfolding create_site
  create-root = ground arith

  root-IsInside :
      (o : Option Text)
      → document_root_of host s.project_path o ≡ ok s.document_root
      → IsInside host o s
  unfolding document_root_of
  root-IsInside none h = ground arith
  root-IsInside (some path) h = given-inside host s.project_path path s.document_root h

  -- A site that is created has a normal domain and a timeout of 1 to 360 seconds; its document root
  -- lies inside its canonical project directory and is a directory, or is the detected one if none
  -- was given; it is enabled and not secured, and has the requested PHP version.
  pub create_site-IsCreated :
      IsCreated host s
      × IsInside host input.document_root s
      × (host.canonicalize input.project_path ≡ some s.project_path)
      × (s.enabled ≡ true)
      × (s.secured ≡ false)
      × (s.php_version ≡ input.php_version)
  unfolding create_site
  create_site-IsCreated = (
    record {
      domain = normalize_domain-IsNormal create-normal.0 s.domain create-normal.1;
      positive = ground arith;
      bounded = ground arith;
    },
    root-IsInside input.document_root create-root,
    ground arith,
    ground arith,
    ground arith,
    ground arith,
  )

module _ (host : Host) (id : ℕ) (input : SiteInput) (s : Site)
    (created : create_site host id input ≡ ok s) where
  create-name : s.name ≡ site_name input.name (or_default [] (host.file_name s.project_path))
  unfolding create_site
  create-name = ground arith

  create-timeout :
      s.upstream_response_timeout_seconds
      ≡ or_default default_timeout input.upstream_response_timeout_seconds
  unfolding create_site
  create-timeout = ground arith

  create-domain :
      (wanted : Text) → input.domain ≡ some wanted → normalize_domain wanted ≡ ok s.domain
  unfolding create_site
  create-domain wanted h = ground arith

trimmed-name :
    (name fallback : Text)
    → is_empty (trim name) ≡ false
    → site_name (some (trim name)) fallback ≡ trim name
unfolding site_name
trimmed-name name fallback h = rw (trim_idem name) (rw h)

abbrev edited_input : Site → SiteEditInput → SiteInput
edited_input previous input = record {
  name = some (trim input.name);
  domain = some input.domain;
  project_path = input.project_path;
  document_root = input.document_root;
  php_version = previous.php_version;
  upstream_response_timeout_seconds =
      or_previous input.upstream_response_timeout_seconds
        previous.upstream_response_timeout_seconds;
}

-- An edit creates the site anew, from the trimmed name and the previous settings.
edit-creates :
    (host : Host) (id : ℕ) (previous s : Site) (input : SiteEditInput)
    → edit_site host id previous input ≡ ok s
    → (u : Site) × (create_site host id (edited_input previous input) ≡ ok u)
      × (is_empty (trim input.name) ≡ false)
      × (s ≡ record u { id = previous.id; enabled = previous.enabled; secured = previous.secured })
unfolding edit_site
edit-creates host id previous s input h =
    elim (Result-cases (create_site host id (edited_input previous input))) [
      | inl (e, refused) ↦ absurd (ground arith)
      | inr (u, created) ↦ (u, created, ground arith, ground arith)
    ]

moved-IsInside :
    (host : Host) (o : Option Text) (previous u : Site)
    → IsInside host o u
    → IsInside host o
        (record u { id = previous.id; enabled = previous.enabled; secured = previous.secured })
moved-IsInside host none previous u h = h
moved-IsInside host (some root) previous u h = h

abbrev requested_timeout : SiteEditInput → Site → ℕ
requested_timeout input previous =
    or_default previous.upstream_response_timeout_seconds input.upstream_response_timeout_seconds

-- A site that is edited keeps its identifier, its enabled and secured flags and its PHP version, has the
-- trimmed name, and the new timeout or else the old one; its domain is the normalized one asked for and its
-- timeout is 1 to 360 seconds; its project path is the canonical one of the path asked for, and its document
-- root lies inside it and is a directory, or is the detected one if none was given.
pub edit_site-keeps :
    (host : Host) (id : ℕ) (previous s : Site) (input : SiteEditInput)
    → edit_site host id previous input ≡ ok s
    → IsCreated host s
      × (normalize_domain input.domain ≡ ok s.domain)
      × (host.canonicalize input.project_path ≡ some s.project_path)
      × IsInside host input.document_root s
      × (s.id ≡ previous.id)
      × (s.enabled ≡ previous.enabled)
      × (s.secured ≡ previous.secured)
      × (s.php_version ≡ previous.php_version)
      × (s.name ≡ trim input.name)
      × (s.upstream_response_timeout_seconds ≡ requested_timeout input previous)
edit_site-keeps host id previous s input h =
    let (u, created, named, same) = edit-creates host id previous s input h in
    let checked = create_site-IsCreated host id (edited_input previous input) u created in
    let name = create-name host id (edited_input previous input) u created in
    let timeout = create-timeout host id (edited_input previous input) u created in
    let fixed = trimmed-name input.name (or_default [] (host.file_name u.project_path)) named in
    (
      rw same (record {
        domain = checked.0.domain;
        positive = checked.0.positive;
        bounded = checked.0.bounded;
      }),
      rw same (create-domain host id (edited_input previous input) u created input.domain refl),
      rw same checked.2,
      rw same (moved-IsInside host input.document_root previous u checked.1),
      ground arith,
      ground arith,
      ground arith,
      ground arith,
      ground arith,
      ground arith,
    )
