-- ===== src/Sites/Site/Tests.antt =====
-- Sites of crates/core/src/site.rs created and edited on a small host, and PHP versions in the database.
use fabdev.Prelude.{
  ◌≡◌, refl, Bool, true, false, Option, none, some, ◌∷◌, ◌++◌, arith, Text, codes, trim,
  starts_with, ok,
}
use fabdev.Sites.Domain.{normalize_domain, default_site_domain}
use fabdev.Sites.PhpVersion.{
  PhpVersion, display, from_str, serialize_php_version, parse_php_version,
}
use fabdev.Sites.PhpVersion.RoundTrip.{from_str-display, parse-serialize}
use fabdev.Sites.Site.{Host, Site, SiteInput, SiteEditInput, create_site, edit_site}
use fabdev.Sites.Site.Checked.{IsInside, IsCreated, create_site-IsCreated, edit_site-keeps}

-- Every path is a directory in canonical form, and no front controller is there.
abbrev host : Host
host = record {
  exists = λ p. true;
  is_dir = λ p. true;
  is_file = λ p. false;
  canonicalize = λ p. some p;
  file_name = λ p. some (codes "My ERP");
  is_absolute = λ p. starts_with (codes "/") p;
  join = λ p q. p ++ (b'/' ∷ q);
  path_starts_with = λ p q. starts_with q p;
}

abbrev php : PhpVersion
php = record { major = 8; minor = 2 }

abbrev input : SiteInput
input = record {
  name = none;
  domain = none;
  project_path = codes "/erp";
  document_root = some (codes "public");
  php_version = some php;
  upstream_response_timeout_seconds = none;
}

abbrev site : Site
site = record {
  id = 7;
  name = codes "My ERP";
  domain = codes "my-erp.test";
  project_path = codes "/erp";
  document_root = codes "/erp/public";
  php_version = some php;
  enabled = true;
  secured = false;
  upstream_response_timeout_seconds = 120;
}

created : create_site host 7 input ≡ ok site
unfolding create_site default_site_domain
created = refl

abbrev edit : SiteEditInput
edit = record {
  name = codes " ERP ";
  domain = codes "ERP.test.";
  project_path = codes "/erp";
  document_root = none;
  upstream_response_timeout_seconds = some 240;
}

abbrev edited : Site
edited = record site {
  name = codes "ERP";
  domain = codes "erp.test";
  document_root = codes "/erp";
  upstream_response_timeout_seconds = 240;
}

is_edited : edit_site host 9 site edit ≡ ok edited
unfolding edit_site create_site normalize_domain
is_edited = refl

create_site-IsCreated_example :
    IsCreated host site
    × ((starts_with (codes "/erp") (codes "/erp/public") ≡ true) × (◌≡◌ {A = Bool} true true))
    × (◌≡◌ {A = Option Text} (some (codes "/erp")) (some (codes "/erp")))
    × (site.enabled ≡ true)
    × (site.secured ≡ false)
    × (site.php_version ≡ input.php_version)
create_site-IsCreated_example = create_site-IsCreated host 7 input site created

edit_site-keeps_example :
    IsCreated host edited
    × (normalize_domain edit.domain ≡ ok edited.domain)
    × (host.canonicalize edit.project_path ≡ some edited.project_path)
    × IsInside host edit.document_root edited
    × (edited.id ≡ site.id)
    × (edited.enabled ≡ site.enabled)
    × (edited.secured ≡ site.secured)
    × (edited.php_version ≡ site.php_version)
    × (edited.name ≡ trim edit.name)
    × (edited.upstream_response_timeout_seconds ≡ 240)
edit_site-keeps_example = edit_site-keeps host 9 site edited edit is_edited

from_str-display_example : from_str (display php) ≡ ok php
from_str-display_example =
    from_str-display php
      (record { major_fits = omega arith; minor_fits = omega arith; supported = omega arith })

parse-serialize_example : parse_php_version (serialize_php_version (some php)) ≡ ok (some php)
parse-serialize_example =
    parse-serialize (some php)
      (record { major_fits = omega arith; minor_fits = omega arith; supported = omega arith })
