-- ===== src/Tcache/Reads.antt =====
-- What Get returns after the other operations.
use gitus.Prelude.{
  ℕ, Bytes, Option, ◌≡◌, if◌then◌else◌, beq, none, arith, some, lookup-remove, ◌+◌, lookup-insert,
  Bool, ap, ◌∙◌, lookup, true, false, refl,
}
use gitus.Tcache.{TCache, get, delete, register, read_at, expiry_of, CacheVal}

read_choice :
    (b : Bool) (later : ℕ) (v : CacheVal) (o : Option CacheVal)
    → read_at (if b then some v else o) later
      ≡ (if b then read_at (some v) later else read_at o later)
read_choice true later v o = refl
read_choice false later v o = refl

-- Get returns what was registered last for a key, until it expires, and other keys are left alone.
pub get-register :
    (k j v : Bytes) (d : Option ℕ) (now later : ℕ) (t : TCache)
    → get j later (register k v d now t) ≡ (
        if beq k j
        then read_at
            (some (record { value = v; expires_at = expiry_of d now; seq = t.seq + 1 }))
            later
        else get j later t)
unfolding get register
get-register k j v d now later t =
    ap (λ o. read_at o later)
      (lookup-insert k j (record { value = v; expires_at = expiry_of d now; seq = t.seq + 1 })
        t.val)
    ∙ read_choice (beq k j) later
        (record { value = v; expires_at = expiry_of d now; seq = t.seq + 1 }) (lookup j t.val)

-- Nothing is returned for a deleted key, and other keys are left alone.
pub get-delete :
    (k j : Bytes) (now : ℕ) (t : TCache)
    → get j now (delete k t) ≡ (if beq k j then none else get j now t)
unfolding get delete
get-delete k j now t = ground (arith, lookup-remove k j t.val)
