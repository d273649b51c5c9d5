-- ===== src/Otp/Recovery.antt =====
-- The recovery codes: each one works once.
use gitus.Prelude.{
  [], List, Bytes, Option, beq, ◌≡◌, false, some, ◌∷◌, ◌⊎◌, arith, inl, none, beq_iff, refl,
}
use gitus.Otp.{
  Crypto, remove_recovery_code, verify_recovery_code, hash_recovery_code, matching,
  normalize_recovery_code,
}

matching-found :
    (hs : List Bytes) (h : Bytes) (acc : Option Bytes) (u : Bytes)
    → matching hs h acc ≡ some u
    → (acc ≡ some u) ⊎ (u ≡ h)
matching-found [] h acc u e = inl e
matching-found (s ∷ hs) h acc u e =
    ground (arith, beq_iff s h, matching-found hs h acc u, matching-found hs h (some s) u)

-- Without the digest nothing matches it.
matching-removed :
    (hs : List Bytes) (h : Bytes) (acc : Option Bytes)
    → matching (remove_recovery_code hs h) h acc ≡ acc
unfolding remove_recovery_code
matching-removed [] h acc = refl
matching-removed (s ∷ hs) h acc = ground (arith, matching-removed hs h acc)

matching_others :
    (hs : List Bytes) (used h : Bytes) (acc : Option Bytes)
    → beq used h ≡ false
    → matching (remove_recovery_code hs used) h acc ≡ matching hs h acc
unfolding remove_recovery_code
matching_others [] used h acc d = refl
matching_others (s ∷ hs) used h acc d = ground (
  arith,
  beq_iff s used,
  beq_iff s h,
  beq_iff used h,
  matching_others hs used h acc d,
  matching_others hs used h (some s) d,
)

verify-digest :
    (k : Crypto) (hs : List Bytes) (s u : Bytes)
    → verify_recovery_code k hs s ≡ some u
    → u ≡ hash_recovery_code k (normalize_recovery_code s)
unfolding verify_recovery_code
verify-digest k hs s u h =
    ground (arith, matching-found hs (hash_recovery_code k (normalize_recovery_code s)) none u)

-- A code that was accepted, and whose digest was removed, is not accepted again, however it is
-- written.
pub verify_recovery_code_once :
    (k : Crypto) (hs : List Bytes) (s t u : Bytes)
    → verify_recovery_code k hs s ≡ some u
    → normalize_recovery_code t ≡ normalize_recovery_code s
    → verify_recovery_code k (remove_recovery_code hs u) t ≡ none
unfolding verify_recovery_code
verify_recovery_code_once k hs s t u h e =
    rw (e, verify-digest k hs s u h)
      (ground (arith, matching-removed hs (hash_recovery_code k (normalize_recovery_code s)) none))

-- The other codes stay as they are: a code with another digest is accepted as before.
pub verify_recovery_code_others :
    (k : Crypto) (hs : List Bytes) (t u : Bytes)
    → beq u (hash_recovery_code k (normalize_recovery_code t)) ≡ false
    → verify_recovery_code k (remove_recovery_code hs u) t ≡ verify_recovery_code k hs t
unfolding verify_recovery_code
verify_recovery_code_others k hs t u d =
    ground (arith, matching_others hs u (hash_recovery_code k (normalize_recovery_code t)) none d)
