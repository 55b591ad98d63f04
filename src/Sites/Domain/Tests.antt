-- ===== src/Sites/Domain/Tests.antt =====
-- Runs of the domain functions of crates/core/src/site.rs, its own tests among them.
use fabdev.Prelude.{◌≤◌, ◌≡◌, refl, arith, length, codes, ok, err}
use fabdev.Sites.Domain.{invalid_domain, normalize_domain, slugify, default_site_domain}
use fabdev.Sites.Domain.Normal.{IsNormal, normalize_domain-IsNormal, normalize_domain_idem}
use fabdev.Sites.Domain.Slug.{default_site_domain-normal}

normalize_new : normalize_domain (codes " NEW.test. ") ≡ ok (codes "new.test")
unfolding normalize_domain
normalize_new = refl

normalize_local : normalize_domain (codes "erp.local") ≡ err (invalid_domain (codes "erp.local"))
unfolding normalize_domain
normalize_local = refl

default_subdomain : default_site_domain (codes "API.YXR") ≡ codes "api.yxr.test"
unfolding default_site_domain
default_subdomain = refl

default_spaces : default_site_domain (codes "My ERP") ≡ codes "my-erp.test"
unfolding default_site_domain
default_spaces = refl

normalize_domain-IsNormal_example : IsNormal (codes "new.test")
normalize_domain-IsNormal_example =
    normalize_domain-IsNormal (codes " NEW.test. ") (codes "new.test") normalize_new

normalize_domain_idem_example : normalize_domain (codes "new.test") ≡ ok (codes "new.test")
normalize_domain_idem_example =
    normalize_domain_idem (codes " NEW.test. ") (codes "new.test") normalize_new

short_slug : length (slugify (codes "My ERP")) ≤ 63
unfolding slugify
short_slug = omega arith

default_site_domain-normal_example :
    normalize_domain (default_site_domain (codes "My ERP"))
    ≡ ok (default_site_domain (codes "My ERP"))
default_site_domain-normal_example = default_site_domain-normal (codes "My ERP") short_slug
