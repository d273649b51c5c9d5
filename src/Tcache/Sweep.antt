-- ===== src/Tcache/Sweep.antt =====
-- The sweeper changes no answer.
use gitus.Prelude.{
  ℕ, [], true, false, All, Dict, Bytes, List, lookup, ◌≤◌, remove, ◌∷◌, ◌≡◌, Bool, Option, some,
  arith, ltb, ◌<◌, lookup-remove, not, refl, beq_iff, ◌==◌, ◌∙◌, none,
}
use gitus.Tcache.{TCache, drop_expired, get, CacheVal, sweep, ExpiryItem, read_at, is_stale}

-- An item of the heap that belongs to a value has the value's expiry, and no item is newer than
-- the cache's counter.
pub record Matches (m : Dict CacheVal) (n : ℕ) (e : ExpiryItem) : Type 0 where
  pub same : (v : CacheVal) → lookup e.key m ≡ some v → v.seq ≡ e.seq → v.expires_at ≡ e.at
  pub past : e.seq ≤ n
  pub timed : 0 < e.at

-- Every item of the heap matches, and no value is newer than the counter.
pub record IsSwept (t : TCache) : Type 0 where
  pub items : All (Matches t.val t.seq) t.expiries
  pub values : (k : Bytes) (v : CacheVal) → lookup k t.val ≡ some v → v.seq ≤ t.seq

pub removed_found :
    (m : Dict CacheVal) (k j : Bytes) (v : CacheVal)
    → lookup j (remove k m) ≡ some v
    → lookup j m ≡ some v
removed_found m k j v l = ground (arith, lookup-remove k j m)

Matches-remove :
    (m : Dict CacheVal) (n : ℕ) (k : Bytes) (e : ExpiryItem)
    → Matches m n e
    → Matches (remove k m) n e
Matches-remove m n k e h = record {
  same = λ v l s. h.same v (removed_found m k e.key v l) s;
  past = h.past;
  timed = h.timed;
}

pub All-remove :
    (m : Dict CacheVal) (n : ℕ) (k : Bytes) (es : List ExpiryItem)
    → All (Matches m n) es
    → All (Matches (remove k m) n) es
All-remove m n k [] a = tt
All-remove m n k (e ∷ es) a = (Matches-remove m n k e a.0, All-remove m n k es a.1)

-- An entry whose time has come reads the same whether it is there or not.
expired_reads :
    (m : Dict CacheVal) (j k : Bytes) (v : CacheVal) (later : ℕ)
    → lookup j m ≡ some v
    → 0 < v.expires_at
    → v.expires_at ≤ later
    → read_at (lookup k (remove j m)) later ≡ read_at (lookup k m) later
expired_reads m j k v later l p le = ground (arith, lookup-remove j k m, beq_iff j k)

dropped_value :
    (now later n : ℕ) (m : Dict CacheVal) (e : ExpiryItem) (es : List ExpiryItem) (k : Bytes)
    → All (Matches m n) (e ∷ es)
    → now ≤ later
    → (v : CacheVal) (b stale : Bool) → lookup e.key m ≡ some v
    → ltb now e.at ≡ b
    → not (v.seq == e.seq) ≡ stale
    → read_at (lookup k (drop_expired now m es).0) later ≡ read_at (lookup k m) later
    → read_at (lookup k (drop_expired now (remove e.key m) es).0) later
      ≡ read_at (lookup k (remove e.key m)) later
    → read_at
        (lookup k
          (elim stale as (λ x. Dict CacheVal × List ExpiryItem) [
            | true ↦ drop_expired now m es
            | false ↦ elim b as (λ x. Dict CacheVal × List ExpiryItem) [
              | true ↦ (m, e ∷ es)
              | false ↦ drop_expired now (remove e.key m) es
            ]
          ]).0)
        later
      ≡ read_at (lookup k m) later
dropped_value now later n m e es k a le v b true q r s skip drop = skip
dropped_value now later n m e es k a le v true false q r s skip drop = refl
dropped_value now later n m e es k a le v false false q r s skip drop =
    let at = a.0.same v q (ground arith) in
    drop ∙ expired_reads m e.key k v later q (ground (arith, a.0.timed)) (ground arith)

-- One round of the loop, by what it finds at the front of the heap.
dropped_reads :
    (now later n : ℕ) (m : Dict CacheVal) (e : ExpiryItem) (es : List ExpiryItem) (k : Bytes)
    → All (Matches m n) (e ∷ es)
    → now ≤ later
    → (o : Option CacheVal) (b : Bool) → lookup e.key m ≡ o
    → ltb now e.at ≡ b
    → read_at (lookup k (drop_expired now m es).0) later ≡ read_at (lookup k m) later
    → read_at (lookup k (drop_expired now (remove e.key m) es).0) later
      ≡ read_at (lookup k (remove e.key m)) later
    → read_at
        (lookup k
          (elim (is_stale o e) as (λ x. Dict CacheVal × List ExpiryItem) [
            | true ↦ drop_expired now m es
            | false ↦ elim b as (λ x. Dict CacheVal × List ExpiryItem) [
              | true ↦ (m, e ∷ es)
              | false ↦ drop_expired now (remove e.key m) es
            ]
          ]).0)
        later
      ≡ read_at (lookup k m) later
dropped_reads now later n m e es k a le none b q r skip drop = skip
dropped_reads now later n m e es k a le (some v) b q r skip drop =
    dropped_value now later n m e es k a le v b _ q r refl skip drop

drop_expired-reads :
    (now later n : ℕ) (m : Dict CacheVal) (es : List ExpiryItem) (k : Bytes)
    → All (Matches m n) es
    → now ≤ later
    → read_at (lookup k (drop_expired now m es).0) later ≡ read_at (lookup k m) later
unfolding drop_expired
drop_expired-reads now later n m [] k a le = refl
drop_expired-reads now later n m (e ∷ es) k a le =
    dropped_reads now later n m e es k a le _ _ refl refl
      (drop_expired-reads now later n m es k a.1 le)
      (drop_expired-reads now later n (remove e.key m) es k (All-remove m n e.key es a.1) le)

-- A round of the sweeper changes nothing that Get returns, now or later.
pub get-sweep :
    (now later : ℕ) (t : TCache) (k : Bytes)
    → IsSwept t
    → now ≤ later
    → get k later (sweep now t) ≡ get k later t
unfolding get sweep
get-sweep now later t k w le = drop_expired-reads now later t.seq t.val t.expiries k w.items le
