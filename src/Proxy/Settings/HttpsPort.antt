-- ===== src/Proxy/Settings/HttpsPort.antt =====
-- `default_https_port` of crates/proxy/src/lib.rs as arithmetic.
use fabdev.Prelude.{
  ℕ, ◌+◌, ◌-◌, ◌/◌, ◌%◌, ◌≤◌, ◌≡◌, none, some, [], ◌∷◌, arith, is_ascii_digit, is_empty, to_string,
}
use fabdev.Proxy.Settings.{default_https_port, u16_max}

four_digits :
    (p : ℕ)
    → 1000 ≤ p
    → p ≤ 9999
    → to_string p
      ≡ (b'0' + p / 1000) ∷ (b'0' + p / 100 % 10) ∷ (b'0' + p / 10 % 10) ∷ (b'0' + p % 10) ∷ []
unfolding to_string
four_digits p lo hi = ground arith

-- For a port of four digits the default HTTPS port is the port plus 40000.
pub default_https_port_four :
    (p : ℕ) → 1000 ≤ p → p ≤ 9999 → default_https_port p ≡ some (40000 + p)
unfolding default_https_port is_ascii_digit is_empty
default_https_port_four p lo hi =
    rw (four_digits p lo hi)
      (let a : (n : ℕ) → b'0' + n - b'0' ≡ n = λ n. omega arith in simp a (ground arith))

five_digits :
    (p : ℕ)
    → 10000 ≤ p
    → p ≤ u16_max
    → to_string p
      ≡ (b'0' + p / 10000)
        ∷ (b'0' + p / 1000 % 10)
        ∷ (b'0' + p / 100 % 10)
        ∷ (b'0' + p / 10 % 10)
        ∷ (b'0' + p % 10)
        ∷ []
unfolding to_string
five_digits p lo hi = ground arith

-- For a port of five digits there is no default HTTPS port.
pub default_https_port_five : (p : ℕ) → 10000 ≤ p → p ≤ u16_max → default_https_port p ≡ none
unfolding default_https_port is_ascii_digit is_empty
default_https_port_five p lo hi =
    rw (five_digits p lo hi)
      (let a : (n : ℕ) → b'0' + n - b'0' ≡ n = λ n. omega arith in simp a (ground arith))
