-- ===== src/Tcache/Sound.antt =====
-- The map has no key twice, and each item of the heap matches it: kept by dropping items.
use gitus.Prelude.{
  ℕ, [], true, false, Bytes, Dict, insert, lookup, remove, List, All, Bool, ◌≡◌, if◌then◌else◌,
  none, some, ◌+◌, ◌∷◌, Bool-cases, arith, beq, ◌≤◌, beq_iff, lookup-insert, lookup-remove, ltb,
  sym, inl, refl, ◌∙◌, inr,
}
use gitus.Tcache.{TCache, ExpiryItem, drop_expired, push, CacheVal, is_stale}
use gitus.Tcache.Sweep.{IsSwept, Matches, All-remove, removed_found}

-- No key twice, as in a Go map.
abbrev pub Distinct : Dict CacheVal → Type 0
Distinct [] = Unit
Distinct ((k, v) ∷ m) = (lookup k m ≡ none) × Distinct m

pub record IsSound (t : TCache) : Type 0 where
  pub swept : IsSwept t
  pub distinct : Distinct t.val

pub insert-Distinct :
    (k : Bytes) (v : CacheVal) (m : Dict CacheVal) → Distinct m → Distinct (insert k v m)
unfolding insert lookup
insert-Distinct k v [] d = (refl, tt)
insert-Distinct k v ((j, w) ∷ m) d =
    ground (arith, insert-Distinct k v m d.1, lookup-insert k j v m, beq_iff j k, beq_iff k j)

pub remove-Distinct : (k : Bytes) (m : Dict CacheVal) → Distinct m → Distinct (remove k m)
unfolding remove lookup
remove-Distinct k [] d = tt
remove-Distinct k ((j, w) ∷ m) d = ground (arith, remove-Distinct k m d.1, lookup-remove k j m)

pub All-push {κ} :
    (P : ExpiryItem → Type κ) (x : ExpiryItem) (es : List ExpiryItem)
    → P x
    → All P es
    → All P (push x es)
unfolding push
All-push P x [] p a = (p, tt)
All-push P x (e ∷ es) p a = elim (Bool-cases (ltb x.at e.at)) [
  | inl h ↦ rw h (p, a)
  | inr h ↦ rw h (a.0, All-push P x es p a.1)
]

pub All-map {κ μ} :
    (P : ExpiryItem → Type κ) (Q : ExpiryItem → Type μ)
    → ((e : ExpiryItem) → P e → Q e)
    → (es : List ExpiryItem) → All P es
    → All Q es
All-map P Q f [] a = tt
All-map P Q f (e ∷ es) a = (f e a.0, All-map P Q f es a.1)

pub newer_value_differs :
    (m : Dict CacheVal) (n : ℕ) (k : Bytes) (v : CacheVal) (e : ExpiryItem)
    → v.seq ≡ n + 1
    → Matches m n e
    → (w : CacheVal) (b : Bool) → beq k e.key ≡ b
    → (if b then some v else lookup e.key m) ≡ some w
    → w.seq ≡ e.seq
    → w.expires_at ≡ e.at
newer_value_differs m n k v e s h w true q l r = absurd (ground (arith, h.past))
newer_value_differs m n k v e s h w false q l r = h.same w l r

-- An item that was made before a value was put in does not belong to it.
pub Matches-insert :
    (m : Dict CacheVal) (n : ℕ) (k : Bytes) (v : CacheVal) (e : ExpiryItem)
    → v.seq ≡ n + 1
    → Matches m n e
    → Matches (insert k v m) (n + 1) e
Matches-insert m n k v e s h = record {
  same = λ w l q.
      newer_value_differs m n k v e s h w (beq k e.key) refl (sym (lookup-insert k e.key v m) ∙ l)
        q;
  past = omega (arith, h.past);
  timed = h.timed;
}

abbrev pub cache_of : ℕ → Dict CacheVal × List ExpiryItem → TCache
cache_of n p = record { val = p.0; expiries = p.1; seq = n }

pub kept_by_round :
    (now n : ℕ) (m : Dict CacheVal) (e : ExpiryItem) (es : List ExpiryItem)
    → All (Matches m n) (e ∷ es)
    → Distinct m
    → ((k : Bytes) (v : CacheVal) → lookup k m ≡ some v → v.seq ≤ n)
    → (stale early : Bool) → IsSound (cache_of n (drop_expired now m es))
    → IsSound (cache_of n (drop_expired now (remove e.key m) es))
    → IsSound (
        cache_of n (elim stale as (λ x. Dict CacheVal × List ExpiryItem) [
          | true ↦ drop_expired now m es
          | false ↦ elim early as (λ x. Dict CacheVal × List ExpiryItem) [
            | true ↦ (m, e ∷ es)
            | false ↦ drop_expired now (remove e.key m) es
          ]
        ]))
kept_by_round now n m e es a d v true b skip drop = skip
kept_by_round now n m e es a d v false true skip drop = record {
  swept = record { items = a; values = v };
  distinct = d;
}
kept_by_round now n m e es a d v false false skip drop = drop

pub drop_expired-All :
    (now n : ℕ) (m : Dict CacheVal) (es : List ExpiryItem)
    → All (Matches m n) es
    → Distinct m
    → ((k : Bytes) (v : CacheVal) → lookup k m ≡ some v → v.seq ≤ n)
    → IsSound (cache_of n (drop_expired now m es))
unfolding drop_expired
drop_expired-All now n m [] a d v = record {
  swept = record { items = a; values = v };
  distinct = d;
}
drop_expired-All now n m (e ∷ es) a d v =
    kept_by_round now n m e es a d v (is_stale (lookup e.key m) e) (ltb now e.at)
      (drop_expired-All now n m es a.1 d v)
      (drop_expired-All now n (remove e.key m) es (All-remove m n e.key es a.1)
        (remove-Distinct e.key m d) (λ k w l. v k w (removed_found m e.key k w l)))
