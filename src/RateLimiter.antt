-- ===== src/RateLimiter.antt =====
-- routes/ratelimiter.go. The token buckets of golang.org/x/time/rate are a parameter.
pub mod Kept
mod Tests
use gitus.Prelude.{
  ℕ, Bool, Bytes, List, Option, [], none, some, ◌∷◌, true, false, suc, ◌+◌, ◌%◌, ◌==◌, ltb, not,
  ◌&&◌, if◌then◌else◌, filterb, Dict, map,
}
use gitus.Prelude.{lookup, insert, split, trim_space}

-- rate.NewLimiter, by the limit and the size of a bucket, and Allow at a time.
pub record Buckets (B : Type 0) : Type 0 where
  pub new_limiter : ℕ → ℕ → B
  pub allow : ℕ → B → Bool × B

-- A time is a number of nanoseconds.
pub record RateLimiterEntry (B : Type 0) : Type 0 where
  pub limiter : B
  pub last_seen : ℕ

pub record RateLimiter (B : Type 0) : Type 0 where
  pub entries : Dict (RateLimiterEntry B)
  pub limit : ℕ
  pub cap : ℕ
  -- new entries since the last sweep, not reset by it
  pub inserts : ℕ
  pub idle_ttl : ℕ
  pub sweep_every : ℕ

abbrev default_rate_limiter_idle_ttl : ℕ
default_rate_limiter_idle_ttl = 600000000000

abbrev default_rate_limiter_sweep_every : ℕ
default_rate_limiter_sweep_every = 256

-- By cfg.MaxRequestInSecond.
unfoldable pub new_rate_limiter : {B : Type 0} → ℕ → RateLimiter B
new_rate_limiter max_request_in_second = record {
  entries = [];
  limit = max_request_in_second;
  cap = 1;
  inserts = 0;
  idle_ttl = default_rate_limiter_idle_ttl;
  sweep_every = default_rate_limiter_sweep_every;
}

abbrev pub or_else : Option Bytes → Option Bytes → Option Bytes
or_else none o = o
or_else (some s) o = some s

-- The first part of a list that net.ParseIP reads, as it prints it.
abbrev pub first_ip : (Bytes → Option Bytes) → List Bytes → Option Bytes
first_ip parse_ip [] = none
first_ip parse_ip (s ∷ parts) = let rest = first_ip parse_ip parts in or_else (parse_ip s) rest

abbrev pub pieces_of : Bytes → List Bytes
unfolding split trim_space
pieces_of s = let r = split 44 s in map trim_space (r.0 ∷ r.1)

abbrev pub forwarded_ip : (Bytes → Option Bytes) → List Bytes → Option Bytes
unfolding pieces_of
forwarded_ip parse_ip [] = none
forwarded_ip parse_ip (header ∷ headers) =
    let rest = forwarded_ip parse_ip headers in or_else (first_ip parse_ip (pieces_of header)) rest

-- The headers X-Real-IP and X-Forwarded-For, and r.RemoteAddr with net.SplitHostPort.
pub record Origin : Type 0 where
  pub real_ip : Bytes
  pub forwarded_for : List Bytes
  pub remote_addr : Bytes
  pub split_host : Bytes → Option Bytes

abbrev pub value_or : Bytes → Option Bytes → Bytes
value_or d none = d
value_or d (some s) = s

unfoldable pub resolve_most_possible_ip : (Bytes → Option Bytes) → Origin → Bytes
unfolding forwarded_ip
resolve_most_possible_ip parse_ip r =
    value_or (value_or r.remote_addr (r.split_host r.remote_addr))
      (or_else (parse_ip r.real_ip) (forwarded_ip parse_ip r.forwarded_for))

-- `lastSeen < now - idleTTL`, written with a sum.
abbrev pub is_idle : {B : Type 0} → ℕ → ℕ → Bytes × RateLimiterEntry B → Bool
is_idle ttl now e = ltb (e.1.last_seen + ttl) now

unfoldable pub sweep_locked : {B : Type 0} → ℕ → RateLimiter B → RateLimiter B
sweep_locked now rl = record rl {
  entries = filterb (λ e. not (is_idle rl.idle_ttl now e)) rl.entries;
}

abbrev pub swept_if : {B : Type 0} → Bool → ℕ → RateLimiter B → RateLimiter B
unfolding sweep_locked
swept_if b now rl = if b then sweep_locked now rl else rl

abbrev pub with_entry : {B : Type 0} → Bytes → RateLimiterEntry B → RateLimiter B → RateLimiter B
unfolding insert
with_entry ip e rl = record rl { entries = insert ip e rl.entries }

abbrev pub seen_at : {B : Type 0} → ℕ → RateLimiterEntry B → RateLimiterEntry B
seen_at now e = record e { last_seen = now }

abbrev pub new_entry : {B : Type 0} → Buckets B → ℕ → RateLimiter B → RateLimiterEntry B
new_entry bs now rl = record { limiter = bs.new_limiter rl.limit rl.cap; last_seen = now }

abbrev pub counted : {B : Type 0} → RateLimiter B → RateLimiter B
counted rl = record rl { inserts = suc rl.inserts }

-- `rl.sweepEvery > 0 && rl.inserts % rl.sweepEvery == 0`
abbrev pub is_sweep_due : {B : Type 0} → RateLimiter B → Bool
is_sweep_due rl = ltb 0 rl.sweep_every && rl.inserts % rl.sweep_every == 0

-- The entry of a client, and the limiter with it, before Allow.
abbrev pub seen :
    {B : Type 0}
    → Buckets B
    → Bytes
    → ℕ
    → RateLimiter B
    → Option (RateLimiterEntry B)
    → RateLimiterEntry B × RateLimiter B
unfolding with_entry swept_if
seen bs ip now rl (some e) = (seen_at now e, with_entry ip (seen_at now e) rl)
seen bs ip now rl none = (
  new_entry bs now rl,
  swept_if (is_sweep_due (counted rl)) now (with_entry ip (new_entry bs now rl) (counted rl)),
)

-- Allow changes the bucket that the map points to, if the entry is still there.
abbrev pub spent :
    {B : Type 0}
    → Bytes
    → RateLimiterEntry B
    → RateLimiter B
    → Option (RateLimiterEntry B)
    → RateLimiter B
unfolding with_entry
spent ip e rl none = rl
spent ip e rl (some old) = with_entry ip e rl

-- One request, from a client's address at a time. Requests that overlap take the lock one after the
-- other.
unfoldable pub is_ip_allowed :
    {B : Type 0} → Buckets B → Bytes → ℕ → RateLimiter B → Bool × RateLimiter B
unfolding seen spent lookup
is_ip_allowed bs ip now rl =
    let (e, rl2) = seen bs ip now rl (lookup ip rl.entries) in
    let (ok, limiter) = bs.allow now e.limiter in
    (ok, spent ip (record e { limiter = limiter }) rl2 (lookup ip rl2.entries))
