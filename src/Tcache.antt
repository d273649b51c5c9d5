-- ===== src/Tcache.antt =====
-- pkg/tcache/main.go: a cache whose entries expire, and the sweeper that drops them. Under its lock
-- each operation is one step, at a time `now`; the channel that wakes the sweeper changes no state.
pub mod Sweep
pub mod Reads
pub mod Sound
pub mod Compact
pub mod Steps
mod Tests
use gitus.Prelude.{
  ℕ, Bytes, Bool, Dict, List, Option, [], if◌then◌else◌, insert, lookup, remove, ltb, not, some,
  true, ◌+◌, ◌∷◌, false, none, ◌*◌, ◌==◌, length, ◌&&◌,
}

-- `expires_at` is 0, Go's zero time, for an entry that does not expire.
pub record CacheVal : Type 0 where
  pub value : Bytes
  pub expires_at : ℕ
  pub seq : ℕ

pub record ExpiryItem : Type 0 where
  pub key : Bytes
  pub at : ℕ
  pub seq : ℕ

-- The heap of container/heap is the list of its items with the earliest first.
pub record TCache : Type 0 where
  pub val : Dict CacheVal
  pub expiries : List ExpiryItem
  pub seq : ℕ

unfoldable pub new_tcache : TCache
new_tcache = record { val = []; expiries = []; seq = 0 }

-- heap.Push
unfoldable pub push : ExpiryItem → List ExpiryItem → List ExpiryItem
push x [] = x ∷ []
push x (y ∷ ys) = if ltb x.at y.at then x ∷ y ∷ ys else y ∷ push x ys

abbrev pub expiry_of : Option ℕ → ℕ → ℕ
expiry_of none now = 0
expiry_of (some d) now = now + d

abbrev pub pushed : Option ℕ → ExpiryItem → List ExpiryItem → List ExpiryItem
pushed none e es = es
pushed (some d) e es = push e es

-- `none` is the duration -1, for no expiry.
unfoldable pub register : Bytes → Bytes → Option ℕ → ℕ → TCache → TCache
unfolding insert push
register k v d now t =
    let n = t.seq + 1 in
    let at = expiry_of d now in
    record {
      val = insert k (record { value = v; expires_at = at; seq = n }) t.val;
      expiries = pushed d (record { key = k; at = at; seq = n }) t.expiries;
      seq = n;
    }

abbrev pub is_expired : CacheVal → ℕ → Bool
is_expired v now = not (v.expires_at == 0) && not (ltb now v.expires_at)

abbrev pub read_at : Option CacheVal → ℕ → Option Bytes
read_at none now = none
read_at (some v) now = if is_expired v now then none else some v.value

unfoldable pub get : Bytes → ℕ → TCache → Option Bytes
unfolding lookup
get k now t = read_at (lookup k t.val) now

unfoldable pub delete : Bytes → TCache → TCache
unfolding remove
delete k t = record t { val = remove k t.val }

-- `!ok || v.seq != e.seq`
abbrev pub is_stale : Option CacheVal → ExpiryItem → Bool
is_stale none e = true
is_stale (some v) e = not (v.seq == e.seq)

-- dropExpiredLocked, on the map and the heap.
unfoldable pub drop_expired : ℕ → Dict CacheVal → List ExpiryItem → Dict CacheVal × List ExpiryItem
unfolding lookup remove
drop_expired now m [] = (m, [])
drop_expired now m (e ∷ es) = elim (is_stale (lookup e.key m) e) [
  | true ↦ drop_expired now m es
  | false ↦ elim (ltb now e.at) [
    | true ↦ (m, e ∷ es)
    | false ↦ drop_expired now (remove e.key m) es
  ]
]

-- compactLocked
unfoldable pub compact : Dict CacheVal → List ExpiryItem
unfolding push
compact [] = []
compact ((k, v) ∷ m) =
    let rest = compact m in
    if v.expires_at == 0
    then rest
    else push (record { key = k; at = v.expires_at; seq = v.seq }) rest

-- A round of sweepLoop.
unfoldable pub sweep : ℕ → TCache → TCache
unfolding drop_expired compact
sweep now t =
    let (m, es) = drop_expired now t.val t.expiries in
    record {
      val = m;
      expiries = (if ltb (2 * length m + 16) (length es) then compact m else es);
      seq = t.seq;
    }
