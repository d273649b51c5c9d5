-- ===== src/RateLimiter/Kept.antt =====
-- Which clients a request leaves in the map, and with which bucket.
use gitus.Prelude.{
  ℕ, ◌≡◌, refl, arith, Bytes, Bool, true, false, Option, none, some, ◌≤◌, ◌+◌, ◌∙◌, ap, not,
  if◌then◌else◌,
}
use gitus.Prelude.{lookup, beq, lookup-insert, beq_refl}
use gitus.RateLimiter.{
  Buckets, RateLimiter, RateLimiterEntry, is_ip_allowed, seen, spent, swept_if, sweep_locked,
  is_idle, with_entry, seen_at, new_entry, counted, is_sweep_due,
}
use gitus.Prelude.{IsUnique, insert-IsUnique, lookup-filterb, kept_if, filterb-IsUnique}

-- An entry that was seen within the time that makes a client idle.
abbrev pub IsFresh : {B : Type 0} → ℕ → ℕ → RateLimiterEntry B → Type 0
IsFresh ttl now e = now ≤ e.last_seen + ttl

module _ {B : Type 0} where
  fresh-kept :
      (ttl now : ℕ) (k : Bytes) (e : RateLimiterEntry B)
      → IsFresh ttl now e
      → kept_if (λ x. not (is_idle ttl now x)) k (some e) ≡ some e
  fresh-kept ttl now k e h = ground arith

  swept_if-keeps :
      (b : Bool) (now : ℕ) (rl : RateLimiter B) (k : Bytes) (e : RateLimiterEntry B)
      → IsUnique rl.entries
      → lookup k rl.entries ≡ some e
      → IsFresh rl.idle_ttl now e
      → lookup k (swept_if b now rl).entries ≡ some e
  unfolding swept_if sweep_locked
  swept_if-keeps false now rl k e u h f = h
  swept_if-keeps true now rl k e u h f =
      lookup-filterb (λ x. not (is_idle rl.idle_ttl now x)) k rl.entries u
      ∙ (ap (kept_if (λ x. not (is_idle rl.idle_ttl now x)) k) h ∙ fresh-kept rl.idle_ttl now k e f)

  lookup-with_entry :
      (ip k : Bytes) (e : RateLimiterEntry B) (rl : RateLimiter B)
      → lookup k (with_entry ip e rl).entries ≡ (if beq ip k then some e else lookup k rl.entries)
  unfolding with_entry
  lookup-with_entry ip k e rl = lookup-insert ip k e rl.entries

  other-with_entry :
      (ip k : Bytes) (e : RateLimiterEntry B) (rl : RateLimiter B) (o : Option (RateLimiterEntry B))
      → beq ip k ≡ false
      → lookup k rl.entries ≡ o
      → lookup k (with_entry ip e rl).entries ≡ o
  other-with_entry ip k e rl o h p = lookup-with_entry ip k e rl ∙ (rw (h) p)

  own-with_entry :
      (ip : Bytes) (e : RateLimiterEntry B) (rl : RateLimiter B)
      → lookup ip (with_entry ip e rl).entries ≡ some e
  own-with_entry ip e rl = lookup-with_entry ip ip e rl ∙ (rw (beq_refl ip) refl)

  seen-other :
      (bs : Buckets B) (ip k : Bytes) (now : ℕ) (rl : RateLimiter B) (e : RateLimiterEntry B)
      (o : Option (RateLimiterEntry B))
      → IsUnique rl.entries
      → beq ip k ≡ false
      → lookup k rl.entries ≡ some e
      → IsFresh rl.idle_ttl now e
      → lookup k (seen bs ip now rl o).1.entries ≡ some e
  unfolding seen with_entry
  seen-other bs ip k now rl e (some x) u h p f =
      other-with_entry ip k (seen_at now x) rl (some e) h p
  seen-other bs ip k now rl e none u h p f =
      swept_if-keeps (is_sweep_due (counted rl)) now
        (with_entry ip (new_entry bs now rl) (counted rl)) k e
        (insert-IsUnique ip (new_entry bs now rl) rl.entries u)
        (other-with_entry ip k (new_entry bs now rl) (counted rl) (some e) h p) f

  seen-own :
      (bs : Buckets B) (ip : Bytes) (now : ℕ) (rl : RateLimiter B) (o : Option (RateLimiterEntry B))
      → IsUnique rl.entries
      → lookup ip (seen bs ip now rl o).1.entries ≡ some (seen bs ip now rl o).0
  unfolding seen with_entry
  seen-own bs ip now rl (some x) u = own-with_entry ip (seen_at now x) rl
  seen-own bs ip now rl none u =
      swept_if-keeps (is_sweep_due (counted rl)) now
        (with_entry ip (new_entry bs now rl) (counted rl)) ip (new_entry bs now rl)
        (insert-IsUnique ip (new_entry bs now rl) rl.entries u)
        (own-with_entry ip (new_entry bs now rl) (counted rl)) (omega arith)

  spent-other :
      (ip k : Bytes) (x : RateLimiterEntry B) (rl : RateLimiter B)
      (o p : Option (RateLimiterEntry B))
      → beq ip k ≡ false
      → lookup k rl.entries ≡ o
      → lookup k (spent ip x rl p).entries ≡ o
  unfolding spent
  spent-other ip k x rl o none h e = e
  spent-other ip k x rl o (some y) h e = other-with_entry ip k x rl o h e

  -- A request leaves every other client that was seen within the idle time in the map, with the bucket
  -- it had, also when it makes an entry and sweeps the map.
  pub is_ip_allowed-others :
      (bs : Buckets B) (ip k : Bytes) (now : ℕ) (rl : RateLimiter B) (e : RateLimiterEntry B)
      → IsUnique rl.entries
      → beq ip k ≡ false
      → lookup k rl.entries ≡ some e
      → IsFresh rl.idle_ttl now e
      → lookup k (is_ip_allowed bs ip now rl).1.entries ≡ some e
  unfolding is_ip_allowed
  is_ip_allowed-others bs ip k now rl e u h p f =
      let o = lookup ip rl.entries in
      spent-other ip k _ (seen bs ip now rl o).1 (some e) _ h
        (seen-other bs ip k now rl e o u h p f)

  -- The bucket that decides on a client's request: the one of the client's entry, or a new one.
  abbrev pub bucket_of : Buckets B → RateLimiter B → Option (RateLimiterEntry B) → B
  bucket_of bs rl none = bs.new_limiter rl.limit rl.cap
  bucket_of bs rl (some e) = e.limiter

  seen-bucket_of :
      (bs : Buckets B) (ip : Bytes) (now : ℕ) (rl : RateLimiter B) (o : Option (RateLimiterEntry B))
      → (seen bs ip now rl o).0 ≡ record { limiter = bucket_of bs rl o; last_seen = now }
  unfolding seen
  seen-bucket_of bs ip now rl none = refl
  seen-bucket_of bs ip now rl (some e) = refl

  spent-own :
      (ip : Bytes) (e x : RateLimiterEntry B) (rl : RateLimiter B) (o : Option (RateLimiterEntry B))
      → o ≡ some e
      → lookup ip (spent ip x rl o).entries ≡ some x
  unfolding spent
  spent-own ip e x rl none h = cc
  spent-own ip e x rl (some y) h = own-with_entry ip x rl

  -- The answer to a request is that of the client's bucket, or of a new one for a client without an
  -- entry, and the bucket that it leaves is found for the client afterwards, seen at that time.
  pub is_ip_allowed-own :
      (bs : Buckets B) (ip : Bytes) (now : ℕ) (rl : RateLimiter B)
      → IsUnique rl.entries
      → ((is_ip_allowed bs ip now rl).0 ≡ (bs.allow now (bucket_of bs rl (lookup ip rl.entries))).0)
        × (lookup ip (is_ip_allowed bs ip now rl).1.entries
            ≡ some (record {
              limiter = (bs.allow now (bucket_of bs rl (lookup ip rl.entries))).1;
              last_seen = now;
            }))
  unfolding is_ip_allowed
  is_ip_allowed-own bs ip now rl u =
      let o = lookup ip rl.entries in
      let h = seen-bucket_of bs ip now rl o in
      (
        ap (λ e. (bs.allow now e.limiter).0) h,
        spent-own ip (seen bs ip now rl o).0 _ (seen bs ip now rl o).1 _ (seen-own bs ip now rl o u)
            ∙ ap
                (λ e.
                  some (record { limiter = (bs.allow now e.limiter).1; last_seen = e.last_seen }))
                h,
      )

  swept_if-IsUnique :
      (b : Bool) (now : ℕ) (rl : RateLimiter B)
      → IsUnique rl.entries
      → IsUnique (swept_if b now rl).entries
  unfolding swept_if sweep_locked
  swept_if-IsUnique false now rl u = u
  swept_if-IsUnique true now rl u =
      filterb-IsUnique (λ x. not (is_idle rl.idle_ttl now x)) rl.entries u

  seen-IsUnique :
      (bs : Buckets B) (ip : Bytes) (now : ℕ) (rl : RateLimiter B) (o : Option (RateLimiterEntry B))
      → IsUnique rl.entries
      → IsUnique (seen bs ip now rl o).1.entries
  unfolding seen with_entry
  seen-IsUnique bs ip now rl (some e) u = insert-IsUnique ip (seen_at now e) rl.entries u
  seen-IsUnique bs ip now rl none u =
      swept_if-IsUnique (is_sweep_due (counted rl)) now
        (with_entry ip (new_entry bs now rl) (counted rl))
        (insert-IsUnique ip (new_entry bs now rl) rl.entries u)

  spent-IsUnique :
      (ip : Bytes) (x : RateLimiterEntry B) (rl : RateLimiter B) (o : Option (RateLimiterEntry B))
      → IsUnique rl.entries
      → IsUnique (spent ip x rl o).entries
  unfolding spent with_entry
  spent-IsUnique ip x rl none u = u
  spent-IsUnique ip x rl (some y) u = insert-IsUnique ip x rl.entries u

  -- A request keeps one entry for a client at most.
  pub is_ip_allowed-IsUnique :
      (bs : Buckets B) (ip : Bytes) (now : ℕ) (rl : RateLimiter B)
      → IsUnique rl.entries
      → IsUnique (is_ip_allowed bs ip now rl).1.entries
  unfolding is_ip_allowed
  is_ip_allowed-IsUnique bs ip now rl u =
      spent-IsUnique ip _ (seen bs ip now rl (lookup ip rl.entries)).1 _
        (seen-IsUnique bs ip now rl (lookup ip rl.entries) u)
