-- ===== src/Otp/Tests.antt =====
-- The functions at a key of three bytes and a sum that stands for HMAC's.
use gitus.Prelude.{Bytes, List, some, codes, trim_space, ◌∷◌, ◌≡◌, [], is_space, refl, beq, false}
use gitus.Otp.{
  Crypto, decode_secret, hash_recovery_code, hotp_code, normalize_code, normalize_digits,
  normalize_recovery_code, verify_code, verify_recovery_code, modulus, scan, decimals,
}
use gitus.Otp.Verify.{Found, verify_code-Found, counter_at}

-- The sum of 20 bytes for the first vector of RFC 4226, appendix D, and the digest that is the text.
abbrev sum : Bytes
sum =
    0xcc ∷ 0x93 ∷ 0xcf ∷ 0x18 ∷ 0x50 ∷ 0x8d ∷ 0x94 ∷ 0x93 ∷ 0x4c ∷ 0x64 ∷ 0xb6 ∷ 0x5d ∷ 0x8b ∷ 0xa7
    ∷ 0x66 ∷ 0x7f ∷ 0xb7 ∷ 0xcd ∷ 0xe4 ∷ 0xb0 ∷ []

abbrev rfc : Crypto
rfc = record { hmac_sha1 = λ key m. sum; base32_decode = λ s. some s; sha256_hex = λ s. s }

-- 755224
rfc_first : hotp_code rfc (codes "key") 0 6 ≡ codes "755224"
unfolding hotp_code modulus decimals
rfc_first = refl

key_decoded : decode_secret rfc (codes "ABCD EFGH") ≡ some (codes "ABCDEFGH")
unfolding decode_secret trim_space is_space
key_decoded = refl

six : normalize_digits 0 ≡ some 6
unfolding normalize_digits
six = refl

accepted : verify_code rfc (codes "ABCD EFGH") (codes "755 224") 7 0 10 ≡ some (some 7)
unfolding verify_code decode_secret normalize_digits normalize_code scan hotp_code modulus decimals
    trim_space is_space beq
accepted = refl

verify_code-Found_example :
    Found rfc (codes "ABCDEFGH") (normalize_code (codes "755 224")) 7 6 0 11 7
verify_code-Found_example =
    verify_code-Found rfc (codes "ABCD EFGH") (codes "755 224") (codes "ABCDEFGH") 7 0 6 10 7
      key_decoded six accepted

typed_code : normalize_code (codes "755-224") ≡ hotp_code rfc (codes "ABCDEFGH") (counter_at 7 3) 6
unfolding normalize_code hotp_code modulus decimals trim_space is_space
typed_code = refl

abbrev stored : List Bytes
stored = codes "aa22" ∷ codes "bb33" ∷ []

first_used : verify_recovery_code rfc stored (codes "AA-22") ≡ some (codes "aa22")
unfolding verify_recovery_code hash_recovery_code normalize_recovery_code trim_space is_space beq
first_used = refl

same_code : normalize_recovery_code (codes "aa 22") ≡ normalize_recovery_code (codes "AA-22")
unfolding normalize_recovery_code trim_space is_space
same_code = refl

other_digest :
    beq (codes "aa22") (hash_recovery_code rfc (normalize_recovery_code (codes "bb33"))) ≡ false
unfolding hash_recovery_code normalize_recovery_code trim_space is_space beq
other_digest = refl
