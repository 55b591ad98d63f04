-- ===== src/Runtimes/Retry.antt =====
-- `retry_permission_denied` of crates/runtime/src/lib.rs. The operation is a step on the state of the
-- disk; the pause between two attempts is left out.
use fabdev.Prelude.{
  ℕ, zero, suc, ◌≤◌, ◌≡◌, refl, ap, ◌∙◌, inl, inr, Bool, true, false, ◌&&◌, Option, none, some,
  arith, ltb, if◌then◌else◌, Bool-cases, Result, ok, err,
}

-- What the loop asks of an `io::Error`.
pub record ErrorKinds (E : Type 0) : Type 0 where
  pub is_permission_denied : E → Bool

abbrev pub Disk : Type 0 → Type 0 → Type 0 → Type 0
Disk S E A = S → S × Result E A

module _ {S E A : Type 0} (kinds : ErrorKinds E) (operation : Disk S E A) where
  open kinds use {is_permission_denied}

  -- The attempts that are left; `none` is the end of the loop, which the code marks unreachable.
  unfoldable pub retry_permission_denied : ℕ → S → S × Option (Result E A)
  retry_permission_denied zero s = (s, none)
  retry_permission_denied (suc n) s =
      let (next, result) = operation s in
      let rest = retry_permission_denied n next in
      elim result [
        | ok a ↦ (next, some (ok a))
        | err e ↦ if is_permission_denied e && ltb 0 n then rest else (next, some (err e))
      ]

  abbrev pub is_denied : Result E A → Bool
  is_denied (ok a) = false
  is_denied (err e) = is_permission_denied e

  -- A run of the operation: all attempts but the last are denied.
  pub data Tries : ℕ → S → S → Result E A → Type 0 where
    last : {s t : S} {r : Result E A} → operation s ≡ (t, r) → Tries 1 s t r
    again :
        {n : ℕ} {s t u : S} {r x : Result E A}
        → operation s ≡ (t, x)
        → is_denied x ≡ true
        → Tries n t u r
        → Tries (suc n) s u r

  -- What the loop makes of one run.
  unfoldable go_on : ℕ → S × Result E A → S × Option (Result E A)
  unfolding retry_permission_denied
  go_on n (next, ok a) = (next, some (ok a))
  go_on n (next, err e) =
      let rest = retry_permission_denied n next in
      if is_permission_denied e && ltb 0 n then rest else (next, some (err e))

  retry-go_on : (n : ℕ) (s : S) → retry_permission_denied (suc n) s ≡ go_on n (operation s)
  unfolding retry_permission_denied go_on
  retry-go_on n s = by_run (operation s)
    where
      by_run :
          (o : S × Result E A)
          → (elim o.1 [
            | ok a ↦ (o.0, some (ok a))
            | err e ↦
                if is_permission_denied e && ltb 0 n
                then retry_permission_denied n o.0
                else (o.0, some (err e))
          ])
            ≡ go_on n o
      by_run (t, ok a) = refl
      by_run (t, err x) = refl

  abbrev pub Returns : ℕ → S → Type 0
  Returns attempts s =
      (k : ℕ) × (t : S) × (r : Result E A) × (retry_permission_denied attempts s ≡ (t, some r))
      × Tries k s t r
      × (k ≤ attempts)
      × ((is_denied r ≡ true) → k ≡ attempts)

  -- With at least one attempt the loop returns: after at most as many runs as there are attempts, of
  -- which all but the last were denied, with the last one's state and result; a denied result is
  -- returned only when no attempt is left.
  pub retry_permission_denied-Returns : (n : ℕ) (s : S) → Returns (suc n) s
  unfolding go_on
  retry_permission_denied-Returns zero s = by_run (operation s) refl
    where
      only : E → Bool → S → S × Option (Result E A)
      only x b t = if b && false then retry_permission_denied zero t else (t, some (err x))

      by_run : (o : S × Result E A) → operation s ≡ o → Returns 1 s
      by_run (t, ok a) e =
          (1, t, ok a, retry-go_on 0 s ∙ ap (go_on 0) e, last e, omega arith, λ h. refl)
      by_run (t, err x) e = (
        1,
        t,
        err x,
        retry-go_on 0 s ∙ ap (go_on 0) e ∙ never (is_permission_denied x),
        last e,
        omega arith,
        λ h. refl,
      )
        where
          never : (b : Bool) → only x b t ≡ (t, some (err x))
          never true = refl
          never false = refl
  retry_permission_denied-Returns (suc n) s =
      by_run (retry_permission_denied-Returns n) (operation s) refl
    where
      by_run :
          ((t : S) → Returns (suc n) t)
          → (o : S × Result E A) → operation s ≡ o
          → Returns (suc (suc n)) s
      by_run next (t, ok a) e =
          (1, t, ok a, retry-go_on (suc n) s ∙ ap (go_on (suc n)) e, last e, omega arith, λ h. cc)
      by_run next (t, err x) e = elim (Bool-cases (is_permission_denied x)) [
        | inr other ↦ (
          1,
          t,
          err x,
          retry-go_on (suc n) s ∙ ap (go_on (suc n)) e ∙ rw other,
          last e,
          omega arith,
          λ h. absurd (cc (h, other)),
        )
        | inl denied ↦
            let left : ltb 0 (suc n) ≡ true = ground arith in
            let (k, u, r, back, tries, few, used) = next t in
            (
              suc k,
              u,
              r,
              retry-go_on (suc n) s ∙ ap (go_on (suc n)) e ∙ rw (denied, left) back,
              again e denied tries,
              omega arith,
              λ h. ap (λ m. suc m) (used h),
            )
      ]
