-- ===== src/Otp.antt =====
-- pkg/gitus/otp: the one-time passwords of an authenticator app, and the recovery codes.
pub mod Codes
pub mod Verify
pub mod Recovery
mod Tests
use gitus.Prelude.{
  ℕ, Bytes, Bool, List, Option, [], drop, if◌then◌else◌, length, suc, trim_space, ◌%◌, ◌/◌, filterb,
  is_empty, last_or, leb, none, not, some, ◌*◌, ◌++◌, ◌==◌, ◌^◌, ◌∷◌, beq, ltb, map, take, zero,
  ◌&&◌, ◌+◌, ◌-◌, ◌||◌,
}

-- The functions of Go's crypto and encoding packages: HMAC with SHA-1 by key and message, the
-- base32 decoder, and the digest of SHA-256 in hexadecimal.
pub record Crypto : Type 0 where
  pub hmac_sha1 : Bytes → Bytes → Bytes
  pub base32_decode : Bytes → Option Bytes
  pub sha256_hex : Bytes → Bytes

abbrev pub is_separator : ℕ → Bool
is_separator c = c == b' ' || c == b'-' || c == 9

abbrev pub to_upper : ℕ → ℕ
to_upper c = if leb b'a' c && leb c b'z' then c - 32 else c

abbrev pub to_lower : ℕ → ℕ
to_lower c = if leb b'A' c && leb c b'Z' then c + 32 else c

abbrev pub repeat : ℕ → ℕ → Bytes
repeat zero c = []
repeat (suc n) c = c ∷ repeat n c

-- `if m := len(s) % 8; m != 0 { s = s + strings.Repeat("=", 8-m) }`
abbrev pad_secret : Bytes → Bytes
pad_secret s = let m = length s % 8 in if m == 0 then s else s ++ repeat (8 - m) b'='

unfoldable pub decode_secret : Crypto → Bytes → Option Bytes
unfolding trim_space
decode_secret k secret =
    let s = filterb (λ c. not (c == b' ' || c == b'-')) (map to_upper (trim_space secret)) in
    if is_empty s then none else k.base32_decode (pad_secret s)

unfoldable pub normalize_code : Bytes → Bytes
unfolding trim_space
normalize_code s = filterb (λ c. not (is_separator c)) (trim_space s)

-- Go's `digits <= 0` for an `int` that the caller has read: a negative one is handed over as 0, and
-- so is a negative period or window.
unfoldable pub normalize_digits : ℕ → Option ℕ
normalize_digits digits =
    if digits == 0 then some 6 else if ltb digits 6 || ltb 10 digits then none else some digits

unfoldable pub normalize_period : ℕ → ℕ
normalize_period period = if period == 0 then 30 else period

-- The `n` bytes of a number, the highest first.
abbrev pub big_endian : ℕ → ℕ → Bytes
big_endian zero x = []
big_endian (suc n) x = (x / 256 ^ n) % 256 ∷ big_endian n x

abbrev pub uint32_of : Bytes → ℕ
uint32_of (a ∷ b ∷ c ∷ d ∷ s) = ((a * 256 + b) * 256 + c) * 256 + d
uint32_of s = 0

-- `sum[len(sum)-1] & 0x0f`, and the 31 bits at that place. The sum has 20 bytes, so the four that
-- are read are in range.
abbrev pub truncate : Bytes → ℕ
truncate sum = uint32_of (drop (last_or 0 sum % 16) sum) % 2 ^ 31

-- `mod := uint32(1); for range digits { mod *= 10 }`
unfoldable pub modulus : ℕ → ℕ
modulus zero = 1
modulus (suc n) = (modulus n * 10) % 2 ^ 32

-- The decimal digits of a number, the last `n` of them.
unfoldable pub decimals : ℕ → ℕ → Bytes
decimals zero x = []
decimals (suc n) x = decimals n (x / 10) ++ ((b'0' + x % 10) ∷ [])

-- `fmt.Sprintf("%0*d", digits, bin%mod)`: a number of at most `digits` digits, which Otp.Codes
-- shows that it is.
unfoldable pub hotp_code : Crypto → Bytes → ℕ → ℕ → Bytes
unfolding modulus decimals
hotp_code k key counter digits =
    decimals digits (truncate (k.hmac_sha1 key (big_endian 8 counter)) % modulus digits)

infixl 5 ◌>>=◌
abbrev ◌>>=◌ {ℓ κ} : {A : Type ℓ} {B : Type κ} → Option A → (A → Option B) → Option B
none >>= f = none
some a >>= f = f a

unfoldable pub code : Crypto → Bytes → ℕ → ℕ → Option Bytes
unfolding decode_secret normalize_digits hotp_code
code k secret counter digits = do
  key ← decode_secret k secret
  d ← normalize_digits digits
  some (hotp_code k key counter d)

-- `t.Unix()` for a time from 1970 on.
unfoldable pub time_counter : ℕ → ℕ → ℕ
unfolding normalize_period
time_counter now period = now / normalize_period period

unfoldable pub totp_code : Crypto → Bytes → ℕ → ℕ → ℕ → Option Bytes
unfolding code time_counter
totp_code k secret now period digits = code k secret (time_counter now period) digits

-- The counters from `counter + i` on, `n` of them; `none` is `0, false, nil`. The sum is uint64.
unfoldable pub scan : Crypto → Bytes → Bytes → ℕ → ℕ → ℕ → ℕ → Option ℕ
scan k key c counter d i zero = none
scan k key c counter d i (suc n) =
    let rest = scan k key c counter d (i + 1) n in
    let at = (counter + i) % 2 ^ 64 in if beq (hotp_code k key at d) c then some at else rest

-- `none` is an error, `some none` is `0, false, nil`.
unfoldable pub verify_code : Crypto → Bytes → Bytes → ℕ → ℕ → ℕ → Option (Option ℕ)
unfolding decode_secret normalize_digits normalize_code scan
verify_code k secret typed counter digits window = do
  key ← decode_secret k secret
  d ← normalize_digits digits
  let c = normalize_code typed
  (if not (length c == d) then some none else some (scan k key c counter d 0 (window + 1)))

-- The time steps `counter - window + i` on, `n` of them, those below 0 passed over.
unfoldable pub scan_around : Crypto → Bytes → Bytes → ℕ → ℕ → ℕ → ℕ → ℕ → Option ℕ
scan_around k key c counter d window i zero = none
scan_around k key c counter d window i (suc n) =
    let rest = scan_around k key c counter d window (i + 1) n in
    let at = counter + i - window in
    if ltb (counter + i) window
    then rest
    else if beq (hotp_code k key at d) c
    then some at
    else rest

unfoldable pub verify_totp : Crypto → Bytes → Bytes → ℕ → ℕ → ℕ → ℕ → Option (Option ℕ)
unfolding decode_secret normalize_digits normalize_code scan_around time_counter
verify_totp k secret typed now period digits window = do
  key ← decode_secret k secret
  d ← normalize_digits digits
  let c = normalize_code typed
  (if not (length c == d)
      then some none
      else some (scan_around k key c (time_counter now period) d window 0 (2 * window + 1)))

unfoldable pub normalize_recovery_code : Bytes → Bytes
unfolding trim_space
normalize_recovery_code s = filterb (λ c. not (is_separator c)) (map to_lower (trim_space s))

unfoldable pub hash_recovery_code : Crypto → Bytes → Bytes
unfolding normalize_recovery_code
hash_recovery_code k s = k.sha256_hex (normalize_recovery_code s)

-- The loop over the stored digests keeps the last that matches.
abbrev pub matching : List Bytes → Bytes → Option Bytes → Option Bytes
matching [] h acc = acc
matching (s ∷ ss) h acc = if beq s h then matching ss h (some s) else matching ss h acc

unfoldable pub verify_recovery_code : Crypto → List Bytes → Bytes → Option Bytes
unfolding hash_recovery_code
verify_recovery_code k hashes s =
    let n = normalize_recovery_code s in
    if is_empty n then none else matching hashes (hash_recovery_code k n) none

unfoldable pub remove_recovery_code : List Bytes → Bytes → List Bytes
remove_recovery_code hashes used = filterb (λ h. not (beq h used)) hashes

unfoldable pub format_recovery_code : Bytes → Option Bytes
unfolding normalize_recovery_code
format_recovery_code s =
    let n = normalize_recovery_code s in
    if not (length n == 12)
    then none
    else some (take 4 n ++ (b'-' ∷ take 4 (drop 4 n) ++ (b'-' ∷ drop 8 n)))
