-- ===== src/Tcache/Compact.antt =====
-- Rebuilding the heap from the map.
use gitus.Prelude.{
  ℕ, [], true, false, Bytes, Dict, lookup, List, All, Bool, ◌<◌, ◌≡◌, if◌then◌else◌, none, some,
  ◌+◌, ◌==◌, ◌∷◌, arith, ◌≤◌, beq_iff, beq_refl, ltb, refl, ◌*◌, length,
}
use gitus.Tcache.{TCache, ExpiryItem, compact, drop_expired, push, sweep, CacheVal}
use gitus.Tcache.Sweep.{Matches}
use gitus.Tcache.Sound.{Distinct, All-map, All-push, IsSound, cache_of, drop_expired-All}

-- An item that was made from an entry of the map.
pub record Owned (m : Dict CacheVal) (e : ExpiryItem) : Type 0 where
  pub held : CacheVal
  pub found : lookup e.key m ≡ some held
  pub same_seq : held.seq ≡ e.seq
  pub same_at : held.expires_at ≡ e.at
  pub timed : 0 < e.at

pub Owned-cons :
    (k : Bytes) (v : CacheVal) (m : Dict CacheVal) (e : ExpiryItem)
    → lookup k m ≡ none
    → Owned m e
    → Owned ((k, v) ∷ m) e
unfolding lookup
Owned-cons k v m e n o = record {
  held = o.held;
  found = ground (arith, o.found, beq_iff k e.key);
  same_seq = o.same_seq;
  same_at = o.same_at;
  timed = o.timed;
}

pub compacted :
    (k : Bytes) (v : CacheVal) (m : Dict CacheVal) (b : Bool)
    → (v.expires_at == 0) ≡ b
    → All (Owned ((k, v) ∷ m)) (compact m)
    → All (Owned ((k, v) ∷ m)) (
        if b
        then compact m
        else push (record { key = k; at = v.expires_at; seq = v.seq }) (compact m))
unfolding lookup
compacted k v m true q a = a
compacted k v m false q a =
    All-push (Owned ((k, v) ∷ m)) (record { key = k; at = v.expires_at; seq = v.seq }) (compact m)
      (record {
        held = v;
        found = ground (arith, beq_refl k);
        same_seq = refl;
        same_at = refl;
        timed = ground arith;
      })
      a

pub compact-Owned : (m : Dict CacheVal) → Distinct m → All (Owned m) (compact m)
unfolding compact lookup
compact-Owned [] d = tt
compact-Owned ((k, v) ∷ m) d =
    let rest =
      All-map (Owned m) (Owned ((k, v) ∷ m)) (λ e. Owned-cons k v m e d.0) (compact m)
        (compact-Owned m d.1) in
    compacted k v m (v.expires_at == 0) refl rest

pub Owned-Matches :
    (m : Dict CacheVal) (n : ℕ) (e : ExpiryItem)
    → ((k : Bytes) (v : CacheVal) → lookup k m ≡ some v → v.seq ≤ n)
    → Owned m e
    → Matches m n e
Owned-Matches m n e f o = record {
  same = λ v l s. ground (arith, o.found, o.same_at);
  past = ground (arith, f e.key o.held o.found, o.same_seq);
  timed = o.timed;
}

pub compact_choice :
    (n : ℕ) (p : Dict CacheVal × List ExpiryItem) (b : Bool)
    → IsSound (cache_of n p)
    → IsSound (record { val = p.0; expiries = (if b then compact p.0 else p.1); seq = n })
compact_choice n p false s = s
compact_choice n p true s = record {
  swept = record {
    items =
        All-map (Owned p.0) (Matches p.0 n) (λ e. Owned-Matches p.0 n e s.swept.values)
          (compact p.0) (compact-Owned p.0 s.distinct);
    values = s.swept.values;
  };
  distinct = s.distinct;
}

pub sweep-IsSound : (now : ℕ) (t : TCache) → IsSound t → IsSound (sweep now t)
unfolding sweep
sweep-IsSound now t s =
    compact_choice t.seq (drop_expired now t.val t.expiries)
      (ltb (2 * length (drop_expired now t.val t.expiries).0 + 16)
        (length (drop_expired now t.val t.expiries).1))
      (drop_expired-All now t.seq t.val t.expiries s.swept.items s.distinct s.swept.values)
