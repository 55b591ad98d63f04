-- ===== src/Updates/Package/Stream.antt =====
-- The stream of a runtime package, until its end: crates/updater/src/runtime_updates.rs.
use fabdev.Prelude.{
  ℕ, ◌+◌, ◌≤◌, ◌≡◌, refl, sym, ap, ◌∙◌, subst, ◌⊎◌, inl, inr, Bool, true, false, List, [], ◌∷◌,
  ◌++◌, arith, ltb, ◌==◌, ==→eq, Bool-cases, u64_max, length, length-append, Text, text_eq,
  text_eq_iff, Result, ok, err,
}
use fabdev.Runtimes.Catalog.{RuntimeRelease}
use fabdev.Updates.Package.{
  DownloadError, Entry, absent, directory, symlink, regular, Files, Event, chunk, lost,
  waiting_cancelled, found_cancelled, Progress, remove_file_if_exists, rename, receive, finish,
  stream_into,
}

-- A partial file that a later download can go on from.
abbrev pub IsWithin : ℕ → Entry → Type 0
IsWithin size absent = Unit
IsWithin size directory = Unit
IsWithin size symlink = Unit
IsWithin size (regular c) = length c ≤ size

-- What was received is what was hashed, written and counted.
abbrev pub IsFaithful : ℕ → Progress → Type 0
IsFaithful size p =
    (p.hasher ≡ p.written) × (p.downloaded ≡ length p.written) × (p.downloaded ≤ size)

abbrev pub IsReceived : ℕ → Entry × Result DownloadError Progress → Type 0
IsReceived size (e, ok q) = (e ≡ regular q.written) × IsFaithful size q
IsReceived size (e, err x) = IsWithin size e

receive-IsFaithful :
    (size : ℕ) (es : List Event) (p : Progress)
    → IsFaithful size p
    → IsReceived size (receive size es p)
unfolding receive
receive-IsFaithful size [] p f = (refl, f)
receive-IsFaithful size (lost ∷ es) p f = omega (arith, f.1, f.2)
receive-IsFaithful size (waiting_cancelled ∷ es) p f = omega (arith, f.1, f.2)
receive-IsFaithful size (found_cancelled ∷ es) p f = tt
receive-IsFaithful size (chunk c ∷ es) p f =
    elim (Bool-cases (ltb u64_max (p.downloaded + length c))) [
      | inl wraps ↦ rw wraps (omega (arith, f.1, f.2))
      | inr fits ↦ elim (Bool-cases (ltb size (p.downloaded + length c))) [
        | inl past ↦ rw (fits, past) tt
        | inr within ↦
            let next : Progress = record {
              downloaded = p.downloaded + length c;
              hasher = p.hasher ++ c;
              written = p.written ++ c;
            } in
            rw (fits, within)
              (receive-IsFaithful size es next (
                ap (λ (x : Text). x ++ c) f.0,
                ap (λ n. n + length c) f.1 ∙ sym (length-append p.written c),
                ground arith,
              ))
      ]
    ]

pub removed-absent : (e gone : Entry) → remove_file_if_exists e ≡ ok gone → gone ≡ absent
unfolding remove_file_if_exists
removed-absent directory gone h = cc
removed-absent absent gone h = cc
removed-absent symlink gone h = cc
removed-absent (regular c) gone h = cc

module _ (sha256 : Text → Text) where
  abbrev pub IsVerified : RuntimeRelease → Entry → Type 0
  IsVerified r absent = true ≡ false
  IsVerified r directory = true ≡ false
  IsVerified r symlink = true ≡ false
  IsVerified r (regular c) = (length c ≡ r.size) × (sha256 c ≡ r.sha256)

  -- A success leaves the verified package and no partial file; a failure leaves the target as it was,
  -- and a partial file that is as it was or can be gone on from.
  abbrev pub IsSound : RuntimeRelease → Files → Files × Result DownloadError (Unit {0}) → Type 0
  IsSound r before (next, ok x) = IsVerified r next.target × (next.partial ≡ absent)
  IsSound r before (next, err e) =
      (next.target ≡ before.target)
      × ((next.partial ≡ before.partial) ⊎ IsWithin r.size next.partial)

  pub rename-IsSound :
      (r : RuntimeRelease) (before files : Files)
      → files.target ≡ before.target
      → IsWithin r.size files.partial
      → IsVerified r files.partial
      → IsSound r before (rename files)
  unfolding rename
  rename-IsSound r before files same w v = by_target files.target same
    where
      by_target :
          (t : Entry)
          → t ≡ before.target
          → IsSound r before (rename (record { partial = files.partial; target = t }))
      by_target absent same = (v, refl)
      by_target symlink same = (v, refl)
      by_target (regular c) same = (v, refl)
      by_target directory same = (same, inr w)

  finish-IsSound :
      (r : RuntimeRelease) (at_end : Bool) (before files : Files) (p : Progress)
      → files.target ≡ before.target
      → files.partial ≡ regular p.written
      → IsFaithful r.size p
      → IsSound r before (finish sha256 r at_end files p)
  unfolding finish
  finish-IsSound r true before files p same named f = (same, inr tt)
  finish-IsSound r false before files p same named f =
      let within : length p.written ≤ r.size = omega (arith, f.1, f.2) in
      elim (Bool-cases (p.downloaded == r.size)) [
        | inr short ↦ rw short (same, inr (subst (IsWithin r.size) (sym named) within))
        | inl whole ↦ elim (Bool-cases (text_eq (sha256 p.hasher) r.sha256)) [
          | inr other ↦ rw (whole, other) (same, inr tt)
          | inl digest ↦
              let verified : IsVerified r (regular p.written) = (
                sym f.1 ∙ ==→eq p.downloaded r.size whole,
                ap sha256 (sym f.0) ∙ (text_eq_iff (sha256 p.hasher) r.sha256).0 digest,
              ) in
              rw (whole, digest)
                (rename-IsSound r before files same (subst (IsWithin r.size) (sym named) within)
                  (subst (IsVerified r) (sym named) verified))
        ]
      ]

  pub stream-IsSound :
      (r : RuntimeRelease) (at_end : Bool) (events : List Event) (before files : Files)
      (p : Progress)
      → files.target ≡ before.target
      → IsFaithful r.size p
      → IsSound r before (stream_into sha256 r at_end events files p)
  unfolding stream_into
  stream-IsSound r at_end events before files p same f =
      from (receive r.size events p) (receive-IsFaithful r.size events p f)
    where
      from :
          (got : Entry × Result DownloadError Progress)
          → IsReceived r.size got
          → IsSound r before (elim got.1 [
            | err e ↦ (record files { partial = got.0 }, err e)
            | ok q ↦ finish sha256 r at_end (record files { partial = got.0 }) q
          ])
      from (e, err x) within = (same, inr within)
      from (e, ok q) (named, faithful) =
          finish-IsSound r at_end before (record files { partial = e }) q same named faithful
