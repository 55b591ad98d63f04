-- ===== src/Share/State/Invariant.antt =====
-- What the calls of `LanShareState` keep: crates/agent/src/main.rs.
use fabdev.Prelude.{
  ℕ, ◌≡◌, refl, sym, ◌∙◌, subst, inl, inr, Bool, true, false, Option, none, some, List, [], ◌∷◌,
  ◌++◌, map, arith, ◌==◌, Bool-cases, Option-cases, All, any, find, retain, Pairs, All-imp,
  Pairs-retain, find-true, insert_by, sort_by, IsSorted, sort_by-IsSorted, sort_by-Pairs,
  retain-IsSorted, Text, text_leb_total, text_leb_trans, ok,
}
use fabdev.Sites.Site.{Site}
use fabdev.Share.Server.{no_text, ShareServer, normalize_domains, set_allowed_domains}
use fabdev.Share.State.{
  LanShareSiteInfo, LanShareInfo, LanShareState, shares, by_domain, site_domain, share_of,
  keep_found, add_site, publish, no_site, is_not, rename, renamed, serves, still_shared,
}

abbrev pub Differ : LanShareSiteInfo → LanShareSiteInfo → Type 0
Differ a b = (a.site_id == b.site_id) ≡ false

Differ-sym : (a b : LanShareSiteInfo) → Differ a b → Differ b a
Differ-sym a b h = ground arith

-- There is a shared site, no site twice, and they are in the order of their domains.
pub record IsListed (sites : List LanShareSiteInfo) : Type 0 where
  pub some_site : no_site sites ≡ false
  pub distinct : Pairs Differ sites
  pub sorted : IsSorted by_domain sites

-- The server lets the requests for the shared sites' domains pass.
abbrev pub Serves : LanShareInfo → ShareServer → Type 0
Serves info server = server.allowed_domains ≡ some (normalize_domains (map site_domain info.sites))

abbrev pub Consistent : Option ShareServer → Option LanShareInfo → Type 0
Consistent none none = Unit
Consistent (some server) (some info) = Serves info server × IsListed info.sites
Consistent none (some info) = true ≡ false
Consistent (some server) none = true ≡ false

abbrev pub IsConsistent : LanShareState → Type 0
IsConsistent st = Consistent st.server st.info

no_site-insert :
    (le : LanShareSiteInfo → LanShareSiteInfo → Bool) (s : LanShareSiteInfo)
    (ss : List LanShareSiteInfo)
    → no_site (insert_by le s ss) ≡ false
unfolding insert_by
no_site-insert le s [] = refl
no_site-insert le s (t ∷ ts) = ground arith

no_site-sort :
    (le : LanShareSiteInfo → LanShareSiteInfo → Bool) (sites : List LanShareSiteInfo)
    → no_site (sort_by le sites) ≡ no_site sites
unfolding sort_by
no_site-sort le [] = refl
no_site-sort le (s ∷ ss) = no_site-insert le s (sort_by le ss)

pub sort-IsListed :
    (sites : List LanShareSiteInfo)
    → no_site sites ≡ false
    → Pairs Differ sites
    → IsListed (sort_by by_domain sites)
sort-IsListed sites h p = record {
  some_site = no_site-sort by_domain sites ∙ h;
  distinct = sort_by-Pairs Differ by_domain sites Differ-sym p;
  sorted = sort_by-IsSorted by_domain (λ a b. text_leb_total a.domain b.domain) sites;
}

no_text-domains : (sites : List LanShareSiteInfo) → no_text (map site_domain sites) ≡ no_site sites
no_text-domains [] = refl
no_text-domains (s ∷ ss) = refl

-- What publishing makes of a server.
pub published : LanShareInfo → ShareServer → ShareServer
published info server = record server {
  allowed_domains = some (normalize_domains (map site_domain info.sites));
}

-- Publishing never fails on a list with a site in it.
pub publish-ok :
    (info : LanShareInfo) (server : ShareServer)
    → no_site info.sites ≡ false
    → publish info (some server) ≡ ok (some (published info server))
unfolding publish set_allowed_domains published
publish-ok info server h = ground (arith, no_text-domains info.sites)

append-All :
    (P : LanShareSiteInfo → Type 0) (x : LanShareSiteInfo) (xs : List LanShareSiteInfo)
    → P x
    → All P xs
    → All P (xs ++ (x ∷ []))
append-All P x [] h a = (h, tt)
append-All P x (y ∷ ys) h a = (a.0, append-All P x ys h a.1)

append-Pairs :
    (x : LanShareSiteInfo) (xs : List LanShareSiteInfo)
    → Pairs Differ xs
    → any (shares x.site_id) xs ≡ false
    → Pairs Differ (xs ++ (x ∷ []))
append-Pairs x [] p h = (tt, tt)
append-Pairs x (y ∷ ys) p h =
    (append-All (Differ y) x ys (ground arith) p.0, append-Pairs x ys p.1 (ground arith))

no_site-append :
    (xs : List LanShareSiteInfo) (x : LanShareSiteInfo) → no_site (xs ++ (x ∷ [])) ≡ false
no_site-append [] x = refl
no_site-append (y ∷ ys) x = refl

pub add_site-IsListed :
    (site : Site) (info : LanShareInfo) → IsListed info.sites → IsListed (add_site site info).sites
unfolding add_site
add_site-IsListed site info l = elim (Bool-cases (any (shares site.id) info.sites)) [
  | inl present ↦ rw present l
  | inr missing ↦ rw missing (
      sort-IsListed (info.sites ++ (share_of site ∷ [])) (no_site-append info.sites (share_of site))
        (append-Pairs (share_of site) info.sites l.distinct missing))
]

rename-All :
    (x : LanShareSiteInfo) (id : ℕ) (domain : Text) (sites : List LanShareSiteInfo)
    → All (Differ x) sites
    → All (Differ x) (rename id domain sites)
unfolding rename
rename-All x id domain [] a = tt
rename-All x id domain (s ∷ ss) a = ground (arith, rename-All x id domain ss a.1)

rename-Pairs :
    (id : ℕ) (domain : Text) (sites : List LanShareSiteInfo)
    → Pairs Differ sites
    → Pairs Differ (rename id domain sites)
unfolding rename
rename-Pairs id domain [] p = tt
rename-Pairs id domain (s ∷ ss) p =
    ground (arith, rename-Pairs id domain ss p.1, rename-All s id domain ss p.0)

no_site-rename :
    (id : ℕ) (domain : Text) (sites : List LanShareSiteInfo)
    → no_site (rename id domain sites) ≡ no_site sites
unfolding rename
no_site-rename id domain [] = refl
no_site-rename id domain (s ∷ ss) = ground arith

pub renamed-IsListed :
    (id : ℕ) (domain : Text) (info : LanShareInfo)
    → IsListed info.sites
    → IsListed (renamed id domain info).sites
unfolding renamed
renamed-IsListed id domain info l =
    sort-IsListed (rename id domain info.sites) (no_site-rename id domain info.sites ∙ l.some_site)
      (rename-Pairs id domain info.sites l.distinct)

still_shared-All :
    (x : LanShareSiteInfo) (sites : List Site) (shared : List LanShareSiteInfo)
    → All (Differ x) shared
    → All (Differ x) (still_shared sites shared)
unfolding still_shared
still_shared-All x sites [] a = tt
still_shared-All x sites (s ∷ ss) a =
    let rest = still_shared-All x sites ss a.1 in
    elim (Option-cases (find (serves s.site_id) sites)) [
      | inl gone ↦ ground (arith, gone, rest)
      | inr (site, found) ↦
          let differ : Differ x (share_of site) =
            ground (arith, find-true (serves s.site_id) sites site found) in
          subst (λ o. All (Differ x) (keep_found o (still_shared sites ss))) (sym found)
            (differ, rest)
    ]

pub still_shared-Pairs :
    (sites : List Site) (shared : List LanShareSiteInfo)
    → Pairs Differ shared
    → Pairs Differ (still_shared sites shared)
unfolding still_shared
still_shared-Pairs sites [] p = tt
still_shared-Pairs sites (s ∷ ss) p =
    let rest = still_shared-Pairs sites ss p.1 in
    elim (Option-cases (find (serves s.site_id) sites)) [
      | inl gone ↦ ground (arith, gone, rest)
      | inr (site, found) ↦
          let same : site.id ≡ s.site_id =
            ground (arith, find-true (serves s.site_id) sites site found) in
          let apart : All (Differ (share_of site)) ss =
            All-imp (Differ s) (Differ (share_of site)) (λ t d. ground arith) ss p.0 in
          subst (λ o. Pairs Differ (keep_found o (still_shared sites ss))) (sym found)
            (still_shared-All (share_of site) sites ss apart, rest)
    ]

pub published-Serves :
    (info : LanShareInfo) (server : ShareServer) → Serves info (published info server)
unfolding published
published-Serves info server = refl

pub retain-IsListed :
    (id : ℕ) (info : LanShareInfo)
    → no_site (retain (is_not id) info.sites) ≡ false
    → IsListed info.sites
    → IsListed (retain (is_not id) info.sites)
retain-IsListed id info h l = record {
  some_site = h;
  distinct = Pairs-retain Differ (is_not id) info.sites l.distinct;
  sorted =
      retain-IsSorted by_domain (λ a b c. text_leb_trans a.domain b.domain c.domain) (is_not id)
        info.sites l.sorted;
}
