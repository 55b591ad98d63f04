-- ===== src/Updates/Catalogs/Advance.antt =====
-- The accepted runtime catalog never goes back: crates/updater/src/runtime_updates.rs.
use fabdev.Prelude.{
  ℕ, ◌≤◌, ◌<◌, ◌≡◌, refl, sym, ap, ◌∙◌, subst, ◌⊎◌, inl, inr, All, not, ◌&&◌, if◌then◌else◌, Bool,
  true, false, Option, none, some, List, [], ◌∷◌, arith, ltb, ◌==◌, ltb→lt, ==→eq, Bool-cases,
  is_some, Semver, Text, Result, ◌>>◌, Result-cases, beside-ok, ok, err, ◌||◌,
}
use fabdev.Runtimes.Catalog.{AcceptedRuntimeCatalog}
use fabdev.Runtimes.Catalog.Trusted.{NotRolledBack, validate_runtime_catalog-IsTrusted}
use fabdev.Runtimes.Document.{
  Decoder, ValidatedRuntimeCatalog, parse_and_validate_runtime_catalog, parsed_valid,
}
use fabdev.Updates.Catalogs.{
  Write, write_file_atomically, unsupported_schema, Cache, Client, CheckError, of_schema,
  accept_state, runtime_catalog_validation, persist_runtime_catalog,
  validate_fetched_runtime_catalog, fetched, check_for_runtime_updates,
}

-- One refresh: who asks and when, what the two servers answer, and how the writes go.
pub record Refresh : Type 0 where
  pub client : Client
  pub v2 : Result Text Text
  pub v1 : Result Text Text
  pub catalog_write : Write
  pub state_write : Write

-- The schema grows, or the sequence does, or the contents are the same.
abbrev pub Advances : Option AcceptedRuntimeCatalog → Option AcceptedRuntimeCatalog → Type 0
Advances none b = Unit
Advances (some a) none = true ≡ false
Advances (some a) (some b) =
    (a.schema_version < b.schema_version)
    ⊎ ((a.schema_version ≡ b.schema_version)
        × ((a.sequence < b.sequence) ⊎ ((a.sequence ≡ b.sequence) × (a.sha256 ≡ b.sha256))))

Advances-refl : (a : Option AcceptedRuntimeCatalog) → Advances a a
Advances-refl none = tt
Advances-refl (some a) = inr (refl, inr (refl, refl))

Advances-trans :
    (a b c : Option AcceptedRuntimeCatalog) → Advances a b → Advances b c → Advances a c
Advances-trans none b c h k = tt
Advances-trans (some a) none c h k = cc
Advances-trans (some a) (some b) none h k = cc
Advances-trans (some a) (some b) (some c) (inl h) (inl k) = inl (omega arith)
Advances-trans (some a) (some b) (some c) (inl h) (inr k) = inl (omega (arith, k.0))
Advances-trans (some a) (some b) (some c) (inr h) (inl k) = inl (omega (arith, h.0))
Advances-trans (some a) (some b) (some c) (inr (h, i)) (inr (k, j)) = inr (h ∙ k, sequences i j)
  where
    sequences :
        ((a.sequence < b.sequence) ⊎ ((a.sequence ≡ b.sequence) × (a.sha256 ≡ b.sha256)))
        → ((b.sequence < c.sequence) ⊎ ((b.sequence ≡ c.sequence) × (b.sha256 ≡ c.sha256)))
        → ((a.sequence < c.sequence) ⊎ ((a.sequence ≡ c.sequence) × (a.sha256 ≡ c.sha256)))
    sequences (inl i) (inl j) = inl (omega arith)
    sequences (inl i) (inr (j, s)) = inl (omega (arith, j))
    sequences (inr (i, s)) (inl j) = inl (omega (arith, i))
    sequences (inr (i, s)) (inr (j, t)) = inr (i ∙ j, s ∙ t)

-- Only schemas 1 and 2 are ever accepted.
abbrev pub IsKnown : Option AcceptedRuntimeCatalog → Type 0
IsKnown none = Unit
IsKnown (some a) = (1 ≤ a.schema_version) × (a.schema_version ≤ 2)

below_2 : (a b : ℕ) → (1 ≤ a) × (a ≤ 2) → a == 2 ≡ false → b ≡ 2 → a < b
below_2 a b k other s = ground arith

at_1 : (a : ℕ) → (1 ≤ a) × (a ≤ 2) → a == 2 ≡ false → a == 1 ≡ true
at_1 a k other = ground arith

module _ (semver : Semver) (decoder : Decoder) where
  -- What is taken of a server has the schema asked for and does not roll back.
  validated-NotRolledBack :
      (client : Client) (contents : Text) (schema : ℕ) (accepted : Option AcceptedRuntimeCatalog)
      (v : ValidatedRuntimeCatalog)
      → validate_fetched_runtime_catalog semver decoder client contents schema accepted ≡ ok v
      → (v.catalog.schema_version ≡ schema) × NotRolledBack v.catalog v.sha256 accepted
  unfolding validate_fetched_runtime_catalog runtime_catalog_validation
  validated-NotRolledBack client contents schema accepted v h =
      let validation = runtime_catalog_validation client accepted in
      elim (Result-cases (parse_and_validate_runtime_catalog semver decoder contents validation)) [
        | inl (e, refused) ↦ absurd (ground arith)
        | inr (w, parsed) ↦ elim (Bool-cases (w.catalog.schema_version == schema)) [
          | inr other ↦ absurd (ground arith)
          | inl same ↦
              let is : w ≡ v = ground arith in
              let (valid, _) = parsed_valid semver decoder contents validation w parsed in
              let (_, _, _, kept) =
                validate_runtime_catalog-IsTrusted semver w.catalog w.sha256 validation valid in
              subst
                (λ x.
                  (x.catalog.schema_version ≡ schema) × NotRolledBack x.catalog x.sha256 accepted)
                is (==→eq w.catalog.schema_version schema same, kept)
        ]
      ]

  not_rolled-Advances :
      (v : ValidatedRuntimeCatalog) (a : AcceptedRuntimeCatalog)
      → NotRolledBack v.catalog v.sha256 (some a)
      → Advances (some a) (some (accept_state v))
  not_rolled-Advances v a (schema, sequence, same) =
      elim (Bool-cases (ltb a.sequence v.catalog.catalog_sequence)) [
        | inl later ↦ inr (schema, inl (ltb→lt a.sequence v.catalog.catalog_sequence later))
        | inr equal ↦
            let e : a.sequence ≡ v.catalog.catalog_sequence = ground arith in
            inr (schema, inr (e, sym (same (sym e))))
      ]

  fetched-Advances :
      (client : Client) (v2 v1 : Result Text Text) (accepted : Option AcceptedRuntimeCatalog)
      (contents : Text) (v : ValidatedRuntimeCatalog)
      → IsKnown accepted
      → fetched semver decoder client v2 v1 accepted ≡ ok (contents, v)
      → Advances accepted (some (accept_state v)) × IsKnown (some (accept_state v))
  unfolding fetched
  fetched-Advances client (ok c2) v1 accepted contents v k h =
      let valid =
        beside-ok
          (validate_fetched_runtime_catalog semver decoder client c2 2 (of_schema 2 accepted)) c2
          contents v h in
      let (schema, kept) = validated-NotRolledBack client c2 2 (of_schema 2 accepted) v valid in
      (schema_2 accepted v k schema kept, omega (arith, schema))
    where
      schema_2 :
          (accepted : Option AcceptedRuntimeCatalog) (w : ValidatedRuntimeCatalog)
          → IsKnown accepted
          → w.catalog.schema_version ≡ 2
          → NotRolledBack w.catalog w.sha256 (of_schema 2 accepted)
          → Advances accepted (some (accept_state w))
      schema_2 none w k s n = tt
      schema_2 (some a) w k s n = elim (Bool-cases (a.schema_version == 2)) [
        | inl same ↦ not_rolled-Advances w a (rw same at n)
        | inr older ↦ inl (below_2 a.schema_version w.catalog.schema_version k older s)
      ]
  fetched-Advances client (err e) (err x) accepted contents v k h =
      elim (Bool-cases (is_some (of_schema 2 accepted))) [
        | inl newer ↦ absurd (cc (rw newer at h))
        | inr older ↦ absurd (cc (rw older at h))
      ]
  fetched-Advances client (err e) (ok c1) none contents v k h =
      let valid =
        beside-ok (validate_fetched_runtime_catalog semver decoder client c1 1 none) c1 contents v
          h in
      let (schema, kept) = validated-NotRolledBack client c1 1 none v valid in
      (tt, omega (arith, schema))
  fetched-Advances client (err e) (ok c1) (some a) contents v k h =
      elim (Bool-cases (a.schema_version == 2)) [
        | inl newer ↦ absurd (cc (rw newer at h))
        | inr older ↦
            let valid =
              beside-ok
                (validate_fetched_runtime_catalog semver decoder client c1 1 (of_schema 1 (some a)))
                c1 contents v (rw older at h) in
            let (schema, kept) =
              validated-NotRolledBack client c1 1 (of_schema 1 (some a)) v valid in
            let same : a.schema_version == 1 ≡ true = at_1 a.schema_version k older in
            (not_rolled-Advances v a (rw same at kept), omega (arith, schema))
      ]

  -- One refresh, and a run of them.
  unfoldable pub refresh : Refresh → Cache → Cache
  unfolding check_for_runtime_updates
  refresh r cache =
      (check_for_runtime_updates semver decoder r.client r.v2 r.v1 r.catalog_write r.state_write
        cache).0

  unfoldable pub run : List Refresh → Cache → Cache
  unfolding refresh
  run [] cache = cache
  run (r ∷ rs) cache = run rs (refresh r cache)

  -- A write of which the rename does not fail leaves the old file or makes the new one.
  written-file :
      {A : Type 0} (w : Write) (contents : A) (old : Option A)
      → w.renames ≡ true
      → ((write_file_atomically w contents old).0 ≡ old)
        ⊎ ((write_file_atomically w contents old).0 ≡ some contents)
  unfolding write_file_atomically
  written-file w contents old renames = elim (Bool-cases (w.stages && w.removes)) [
    | inl ready ↦ inr (rw (ready, renames))
    | inr failed ↦ inl (rw failed)
  ]

  persisted-accepted :
      (catalog_write state_write : Write) (contents : Text) (v : ValidatedRuntimeCatalog)
      (cache : Cache)
      → state_write.renames ≡ true
      → ((persist_runtime_catalog catalog_write state_write contents v cache).0.accepted
          ≡ cache.accepted)
        ⊎ ((persist_runtime_catalog catalog_write state_write contents v cache).0.accepted
            ≡ some (accept_state v))
  unfolding persist_runtime_catalog
  persisted-accepted catalog_write state_write contents v cache renames =
      by_cases (v.catalog.schema_version == 1 || v.catalog.schema_version == 2)
        (v.catalog.schema_version == 1) write.1
    where
      write : Option Text × Result CheckError (Unit {0})
      write =
          write_file_atomically catalog_write contents
            (if v.catalog.schema_version == 1 then cache.catalog_v1 else cache.catalog_v2)

      state : Option AcceptedRuntimeCatalog × Result CheckError (Unit {0})
      state = write_file_atomically state_write (accept_state v) cache.accepted

      filed : Bool → Cache
      filed first =
          if first
          then record cache { catalog_v1 = write.0 }
          else record cache { catalog_v2 = write.0 }

      next :
          (known first : Bool) → Result CheckError (Unit {0}) → Cache × Result CheckError (Unit {0})
      next known first written =
          if not known then (cache, err unsupported_schema) else elim written [
            | err e ↦ (filed first, err e)
            | ok _ ↦ (record (filed first) { accepted = state.0 }, state.1)
          ]

      filed-accepted : (first : Bool) → (filed first).accepted ≡ cache.accepted
      filed-accepted true = refl
      filed-accepted false = refl

      by_cases :
          (known first : Bool) (written : Result CheckError (Unit {0}))
          → ((next known first written).0.accepted ≡ cache.accepted)
            ⊎ ((next known first written).0.accepted ≡ some (accept_state v))
      by_cases false first written = inl refl
      by_cases true first (err e) = inl (filed-accepted first)
      by_cases true first (ok x) = written-file state_write (accept_state v) cache.accepted renames

  check-accepted :
      (client : Client) (v2 v1 : Result Text Text) (x y : Write) (cache : Cache)
      → y.renames ≡ true
      → ((check_for_runtime_updates semver decoder client v2 v1 x y cache).0.accepted
          ≡ cache.accepted)
        ⊎ ((contents : Text) × (v : ValidatedRuntimeCatalog) × (fetched semver decoder client v2 v1
                cache.accepted
              ≡ ok (contents, v))
            × ((check_for_runtime_updates semver decoder client v2 v1 x y cache).0.accepted
                ≡ some (accept_state v)))
  unfolding check_for_runtime_updates
  check-accepted client v2 v1 x y cache renames =
      from (fetched semver decoder client v2 v1 cache.accepted) refl
    where
      next :
          Result CheckError (Text × ValidatedRuntimeCatalog)
          → Cache × Result CheckError ValidatedRuntimeCatalog
      next f = elim f [
        | err e ↦ (cache, err e)
        | ok (contents, v) ↦
            let (next, written) = persist_runtime_catalog x y contents v cache in
            (next, (do written; ok v))
      ]

      from :
          (f : Result CheckError (Text × ValidatedRuntimeCatalog))
          → fetched semver decoder client v2 v1 cache.accepted ≡ f
          → ((next (fetched semver decoder client v2 v1 cache.accepted)).0.accepted
              ≡ cache.accepted)
            ⊎ ((contents : Text) × (v : ValidatedRuntimeCatalog) × (fetched semver decoder client v2
                    v1 cache.accepted
                  ≡ ok (contents, v))
                × ((next (fetched semver decoder client v2 v1 cache.accepted)).0.accepted
                    ≡ some (accept_state v)))
      from (err e) h = inl (ap (λ f. (next f).0.accepted) h)
      from (ok (contents, v)) h = elim (persisted-accepted x y contents v cache renames) [
        | inl kept ↦ inl (ap (λ f. (next f).0.accepted) h ∙ kept)
        | inr taken ↦ inr (contents, v, h, ap (λ f. (next f).0.accepted) h ∙ taken)
      ]

  refresh-Advances :
      (r : Refresh) (cache : Cache)
      → r.state_write.renames ≡ true
      → IsKnown cache.accepted
      → Advances cache.accepted (refresh r cache).accepted × IsKnown (refresh r cache).accepted
  unfolding refresh
  refresh-Advances r cache renames k =
      elim (check-accepted r.client r.v2 r.v1 r.catalog_write r.state_write cache renames) [
        | inl kept ↦
            subst (λ a. Advances cache.accepted a × IsKnown a) (sym kept)
              (Advances-refl cache.accepted, k)
        | inr (contents, v, got, taken) ↦
            subst (λ a. Advances cache.accepted a × IsKnown a) (sym taken)
              (fetched-Advances r.client r.v2 r.v1 cache.accepted contents v k got)
      ]

  pub run-Advances :
      (rs : List Refresh) (cache : Cache)
      → All (λ r. r.state_write.renames ≡ true) rs
      → IsKnown cache.accepted
      → Advances cache.accepted (run rs cache).accepted × IsKnown (run rs cache).accepted
  unfolding run
  run-Advances [] cache renames k = (Advances-refl cache.accepted, k)
  run-Advances (r ∷ rs) cache renames k =
      let (first, known) = refresh-Advances r cache renames.0 k in
      let (rest, known_after) = run-Advances rs (refresh r cache) renames.1 known in
      (
        Advances-trans cache.accepted (refresh r cache).accepted (run rs (refresh r cache)).accepted
            first rest,
        known_after,
      )
