-- ===== src/Tcache/Steps.antt =====
-- What any sequence of operations keeps.
use gitus.Prelude.{
  ℕ, true, false, Bytes, Dict, insert, lookup, List, Option, All, Bool, ◌<◌, ◌≡◌, if◌then◌else◌,
  none, some, ◌+◌, arith, beq, ◌≤◌, beq_refl, lookup-insert, sym, refl, ◌∙◌,
}
use gitus.Tcache.{
  TCache, ExpiryItem, new_tcache, register, sweep, CacheVal, delete, expiry_of, get, pushed,
}
use gitus.Tcache.Sweep.{Matches, All-remove, removed_found, get-sweep}
use gitus.Tcache.Sound.{
  IsSound, All-map, All-push, remove-Distinct, Matches-insert, insert-Distinct,
}
use gitus.Tcache.Compact.{sweep-IsSound}

-- The operations, at times after Go's zero time.
pub data Step (t : TCache) : TCache → Type 0 where
  registers : (k v : Bytes) (d : Option ℕ) (now : ℕ) → 0 < now → Step t (register k v d now t)
  deletes : (k : Bytes) → Step t (delete k t)
  sweeps : (now : ℕ) → Step t (sweep now t)

pub data Reach : TCache → Type 0 where
  fresh : Reach new_tcache
  then_step : {t u : TCache} → Reach t → Step t u → Reach u

pushed-All {κ} :
    (P : ExpiryItem → Type κ) (d : Option ℕ) (e : ExpiryItem) (es : List ExpiryItem)
    → ((dd : ℕ) → d ≡ some dd → P e)
    → All P es
    → All P (pushed d e es)
pushed-All P none e es f a = a
pushed-All P (some dd) e es f a = All-push P e es (f dd refl) a

own_item :
    (k v : Bytes) (d : Option ℕ) (dd now n : ℕ) (m : Dict CacheVal)
    → 0 < now
    → d ≡ some dd
    → Matches
        (insert k (record { value = v; expires_at = expiry_of d now; seq = n }) m)
        n
        (record { key = k; at = expiry_of d now; seq = n })
own_item k v d dd now n m p q = record {
  same = λ w l s. ground (
    arith,
    beq_refl k,
    lookup-insert k k (record { value = v; expires_at = expiry_of d now; seq = n }) m,
  );
  past = omega arith;
  timed = ground arith;
}

inserted_past :
    (k j : Bytes) (w x : CacheVal) (t : TCache)
    → w.seq ≡ t.seq + 1
    → IsSound t
    → (b : Bool) → (if b then some w else lookup j t.val) ≡ some x
    → x.seq ≤ t.seq + 1
inserted_past k j w x t q s true l = ground arith
inserted_past k j w x t q s false l = omega (arith, s.swept.values j x l)

register-IsSound :
    (k v : Bytes) (d : Option ℕ) (now : ℕ) (t : TCache)
    → 0 < now
    → IsSound t
    → IsSound (register k v d now t)
unfolding register
register-IsSound k v d now t p s =
    let w : CacheVal = record { value = v; expires_at = expiry_of d now; seq = t.seq + 1 } in
    record {
      swept = record {
        items =
            pushed-All (Matches (insert k w t.val) (t.seq + 1)) d
              (record { key = k; at = expiry_of d now; seq = t.seq + 1 }) t.expiries
              (λ dd e. own_item k v d dd now (t.seq + 1) t.val p e)
              (All-map (Matches t.val t.seq) (Matches (insert k w t.val) (t.seq + 1))
                (λ e. Matches-insert t.val t.seq k w e refl) t.expiries s.swept.items);
        values =
            λ j x l. inserted_past k j w x t refl s (beq k j) (sym (lookup-insert k j w t.val) ∙ l);
      };
      distinct = insert-Distinct k w t.val s.distinct;
    }

delete-IsSound : (k : Bytes) (t : TCache) → IsSound t → IsSound (delete k t)
unfolding delete
delete-IsSound k t s = record {
  swept = record {
    items = All-remove t.val t.seq k t.expiries s.swept.items;
    values = λ j v l. s.swept.values j v (removed_found t.val k j v l);
  };
  distinct = remove-Distinct k t.val s.distinct;
}

-- Whatever is registered, deleted and swept, in whatever order, every item of the heap that belongs
-- to a value has the value's expiry, and the map has no key twice.
pub Reach-IsSound : (t : TCache) → Reach t → IsSound t
unfolding new_tcache lookup
Reach-IsSound t fresh = record {
  swept = record { items = tt; values = λ k v l. absurd (ground arith) };
  distinct = tt;
}
Reach-IsSound t (then_step r (registers k v d now p)) =
    register-IsSound k v d now _ p (Reach-IsSound _ r)
Reach-IsSound t (then_step r (deletes k)) = delete-IsSound k _ (Reach-IsSound _ r)
Reach-IsSound t (then_step r (sweeps now)) = sweep-IsSound now _ (Reach-IsSound _ r)

-- In any cache that the operations lead to, a round of the sweeper changes nothing that Get
-- returns, now or later.
pub get-sweep_reached :
    (now later : ℕ) (t : TCache) (k : Bytes)
    → Reach t
    → now ≤ later
    → get k later (sweep now t) ≡ get k later t
get-sweep_reached now later t k r le = get-sweep now later t k (Reach-IsSound t r).swept le
