-- ===== src/Otp/Codes.antt =====
-- The code that an app shows, as RFC 4226 has it: the truncated sum modulo a power of ten.
use gitus.Prelude.{
  ℕ, Bytes, ◌<◌, length, ◌++◌, ◌^◌, ◌∷◌, ◌≤◌, suc, ◌*◌, ◌≡◌, arith, length-append, ◌+◌, ◌/◌, ◌%◌,
  ◌-◌, [], refl, zero,
}
use gitus.Otp.{Crypto, decimals, modulus, hotp_code, truncate, big_endian}

-- The number that digits stand for, read from the left.
abbrev pub number_from : ℕ → Bytes → ℕ
number_from a [] = a
number_from a (c ∷ s) = number_from (a * 10 + (c - 48)) s

number_from-append :
    (a : ℕ) (s t : Bytes) → number_from a (s ++ t) ≡ number_from (number_from a s) t
number_from-append a [] t = refl
number_from-append a (c ∷ s) t = number_from-append (a * 10 + (c - 48)) s t

-- Shifting by a digit.
power_suc : (n x : ℕ) → x < 10 ^ suc n → x / 10 < 10 ^ n
power_suc n x h = omega arith

decimals-number : (n x : ℕ) → x < 10 ^ n → number_from 0 (decimals n x) ≡ x
unfolding decimals
decimals-number zero x h = omega arith
decimals-number (suc n) x h =
    rw
      (
        number_from-append 0 (decimals n (x / 10)) ((b'0' + x % 10) ∷ []),
        decimals-number n (x / 10) (power_suc n x h),
      )
      (omega arith)

decimals-length : (n x : ℕ) → length (decimals n x) ≡ n
unfolding decimals
decimals-length zero x = refl
decimals-length (suc n) x =
    rw (length-append (decimals n (x / 10)) ((b'0' + x % 10) ∷ []), decimals-length n (x / 10))
      (omega arith)

modulus_exact : (d : ℕ) → d ≤ 9 → modulus d ≡ 10 ^ d
unfolding modulus
modulus_exact zero h = refl
modulus_exact (suc zero) h = refl
modulus_exact (suc (suc zero)) h = refl
modulus_exact (suc (suc (suc zero))) h = refl
modulus_exact (suc (suc (suc (suc zero)))) h = refl
modulus_exact (suc (suc (suc (suc (suc zero))))) h = refl
modulus_exact (suc (suc (suc (suc (suc (suc zero)))))) h = refl
modulus_exact (suc (suc (suc (suc (suc (suc (suc zero))))))) h = refl
modulus_exact (suc (suc (suc (suc (suc (suc (suc (suc zero)))))))) h = refl
modulus_exact (suc (suc (suc (suc (suc (suc (suc (suc (suc zero))))))))) h = refl
modulus_exact (suc (suc (suc (suc (suc (suc (suc (suc (suc (suc d)))))))))) h = absurd (omega arith)

pow_pos : (d : ℕ) → 0 < 10 ^ d
pow_pos zero = omega arith
pow_pos (suc d) = omega (arith, pow_pos d)

mod_bound : (d x : ℕ) → x % 10 ^ d < 10 ^ d
mod_bound d x = omega (arith, pow_pos d)

-- Every code has as many digits as it was asked to have.
pub hotp_code-length :
    (k : Crypto) (key : Bytes) (counter digits : ℕ)
    → length (hotp_code k key counter digits) ≡ digits
unfolding hotp_code
hotp_code-length k key counter digits =
    decimals-length digits (truncate (k.hmac_sha1 key (big_endian 8 counter)) % modulus digits)

-- For at most nine digits the code has exactly that many, and reads as RFC 4226 has it: the
-- truncated sum modulo that power of ten.
pub hotp_code-number :
    (k : Crypto) (key : Bytes) (counter digits : ℕ)
    → digits ≤ 9
    → (length (hotp_code k key counter digits) ≡ digits)
      × (number_from 0 (hotp_code k key counter digits)
          ≡ truncate (k.hmac_sha1 key (big_endian 8 counter)) % 10 ^ digits)
unfolding hotp_code
hotp_code-number k key counter digits h = (
  hotp_code-length k key counter digits,
  rw (modulus_exact digits h) (
      decimals-number digits (truncate (k.hmac_sha1 key (big_endian 8 counter)) % 10 ^ digits)
        (mod_bound digits (truncate (k.hmac_sha1 key (big_endian 8 counter))))),
)

-- At ten digits, which normalizeDigits lets through, the modulus has wrapped around: the code is
-- the truncated sum modulo 1410065408, and not modulo ten to the tenth.
hotp_code_wraps :
    (k : Crypto) (key : Bytes) (counter : ℕ)
    → number_from 0 (hotp_code k key counter 10)
      ≡ truncate (k.hmac_sha1 key (big_endian 8 counter)) % 1410065408
unfolding hotp_code modulus
hotp_code_wraps k key counter =
    decimals-number 10 (truncate (k.hmac_sha1 key (big_endian 8 counter)) % 1410065408)
      (omega arith)
