-- ===== src/Runtimes/Document.antt =====
-- `parse_and_validate_runtime_catalog` of crates/runtime/src/lib.rs. The JSON parser and the digest are
-- a parameter.
use fabdev.Prelude.{
  ℕ, ◌+◌, ◌≡◌, sym, subst, inl, inr, Bool, Option, none, some, List, [], ◌∷◌, arith, ltb,
  if◌then◌else◌, Option-cases, Semver, length, Text, codes, Result, ◌>>=◌, ◌>>◌, context,
  Result-cases, ok, err,
}
use fabdev.Runtimes.Fields.{CatalogError, too_large, json, Checked, require, invalid}
use fabdev.Runtimes.Catalog.{RuntimeCatalog, RuntimeCatalogValidation, release_field}
use fabdev.Runtimes.Catalog.Validate.{validate_runtime_catalog}

-- What the code asks of a `serde_json::Value`: the key `signature` of the document, whether each runtime
-- of its array has that key, and its reading as a catalog.
pub record Document : Type 0 where
  pub is_object : Bool
  pub has_signature : Bool
  pub runtime_signatures : Option (List Bool)
  pub from_value : Option RuntimeCatalog

pub record Decoder : Type 0 where
  pub from_slice : Text → Option Document
  pub sha256 : Text → Text

pub record ValidatedRuntimeCatalog : Type 0 where
  pub catalog : RuntimeCatalog
  pub sha256 : Text

abbrev pub catalog_max_bytes : ℕ
catalog_max_bytes = 1048576

unfoldable pub validate_runtime_signatures : ℕ → List Bool → Checked
unfolding release_field
validate_runtime_signatures index [] = ok tt
validate_runtime_signatures index (b ∷ bs) =
    let rest = validate_runtime_signatures (index + 1) bs in
    require b (release_field index (codes "signature")) >> rest

unfoldable pub validate_signature_fields_present : Document → Checked
unfolding validate_runtime_signatures
validate_signature_fields_present document = do
  require document.is_object (codes "document")
  require document.has_signature (codes "signature")
  runtimes ← context document.runtime_signatures (invalid (codes "runtimes"))
  validate_runtime_signatures 0 runtimes

-- `contents` are bytes.
unfoldable pub parse_and_validate_runtime_catalog :
    Semver → Decoder → Text → RuntimeCatalogValidation → Result CatalogError ValidatedRuntimeCatalog
unfolding validate_signature_fields_present validate_runtime_catalog
parse_and_validate_runtime_catalog semver decoder contents validation =
    if ltb catalog_max_bytes (length contents)
    then err too_large
    else elim (decoder.from_slice contents) [
      | none ↦ err json
      | some document ↦ elim (validate_signature_fields_present document) [
        | err e ↦ err e
        | ok _ ↦ elim document.from_value [
          | none ↦ err json
          | some catalog ↦
              elim (validate_runtime_catalog semver catalog (decoder.sha256 contents) validation) [
                | err e ↦ err e
                | ok _ ↦ ok (record { catalog = catalog; sha256 = decoder.sha256 contents })
              ]
        ]
      ]
    ]

-- What comes back was validated, under the digest of the contents.
pub parsed_valid :
    (semver : Semver) (decoder : Decoder) (contents : Text) (validation : RuntimeCatalogValidation)
    (v : ValidatedRuntimeCatalog)
    → parse_and_validate_runtime_catalog semver decoder contents validation ≡ ok v
    → (validate_runtime_catalog semver v.catalog v.sha256 validation ≡ ok tt)
      × (v.sha256 ≡ decoder.sha256 contents)
unfolding parse_and_validate_runtime_catalog
parsed_valid semver decoder contents validation v h =
    elim (Option-cases (decoder.from_slice contents)) [
      | inl bad ↦ absurd (ground arith)
      | inr (document, read) ↦ elim (Result-cases (validate_signature_fields_present document)) [
        | inl (e, refused) ↦ absurd (ground arith)
        | inr (x, present) ↦ elim (Option-cases document.from_value) [
          | inl bad ↦ absurd (ground arith)
          | inr (catalog, typed) ↦
              elim (Result-cases
                (validate_runtime_catalog semver catalog (decoder.sha256 contents) validation)) [
                  | inl (e, refused) ↦ absurd (ground arith)
                  | inr (y, valid) ↦
                      let c : catalog ≡ v.catalog = ground arith in
                      let s : decoder.sha256 contents ≡ v.sha256 = ground arith in
                      (
                        subst (λ d. validate_runtime_catalog semver d v.sha256 validation ≡ ok tt) c
                            (subst
                              (λ d. validate_runtime_catalog semver catalog d validation ≡ ok tt) s
                              valid),
                        sym s,
                      )
                ]
        ]
      ]
    ]
