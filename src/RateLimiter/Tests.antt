-- ===== src/RateLimiter/Tests.antt =====
-- Two clients, with buckets that hold one request.
use gitus.Prelude.{ℕ, codes, ◌≡◌, refl, arith, false, some, ◌∷◌, [], ltb, ◌-◌}
use gitus.Prelude.{lookup, beq}
use gitus.RateLimiter.{Buckets, RateLimiter, RateLimiterEntry, is_ip_allowed}
use gitus.RateLimiter.Kept.{is_ip_allowed-others}
use gitus.Prelude.{IsUnique}

-- A bucket is the number of requests that are left in it.
abbrev tokens : Buckets ℕ
tokens = record { new_limiter = λ limit cap. cap; allow = λ now b. (ltb 0 b, b - 1) }

abbrev bob_entry : RateLimiterEntry ℕ
bob_entry = record { limiter = 0; last_seen = 5 }

abbrev limiter : RateLimiter ℕ
limiter = record {
  entries = (codes "bob", bob_entry) ∷ [];
  limit = 1;
  cap = 1;
  inserts = 1;
  idle_ttl = 10;
  sweep_every = 2;
}

limiter-IsUnique : IsUnique limiter.entries
unfolding lookup
limiter-IsUnique = (refl, tt)

bob_found : lookup (codes "bob") limiter.entries ≡ some bob_entry
unfolding lookup beq
bob_found = refl

ann_bob : beq (codes "ann") (codes "bob") ≡ false
unfolding beq
ann_bob = refl

is_ip_allowed-others_example :
    lookup (codes "bob") (is_ip_allowed tokens (codes "ann") 15 limiter).1.entries ≡ some bob_entry
is_ip_allowed-others_example =
    is_ip_allowed-others tokens (codes "ann") (codes "bob") 15 limiter bob_entry limiter-IsUnique
      ann_bob bob_found (omega arith)

bob_refused : (is_ip_allowed tokens (codes "bob") 6 limiter).0 ≡ false
unfolding is_ip_allowed lookup beq
bob_refused = refl
