-- ===== src/Prelude/Unique.antt =====
-- Maps with one entry for a key: what insertion, a test on the entries, and copying leave.
use mathlib.Core.Path.{◌≡◌, refl, sym, ap, ◌∙◌, subst}
use mathlib.Core.Logic.{inl, inr}
use mathlib.Core.Bool.{Bool, true, false}
use mathlib.Core.List.{[], ◌∷◌}
use mathlib.Core.Option.{Option, none, some}
use gitus.Prelude.Tests.{if◌then◌else◌, Bool-cases}
use gitus.Prelude.Lists.{filterb}
use gitus.Prelude.Text.{Bytes, beq, beq→eq, beq_refl, beq_sym}
use gitus.Prelude.Maps.{Dict, lookup, insert, lookup-insert}

module _ {V : Type 0} where
  abbrev pub IsUnique : Dict V → Type 0
  IsUnique [] = Unit
  IsUnique ((k, v) ∷ m) = (lookup k m ≡ none) × IsUnique m

  abbrev pub kept_if : (Bytes × V → Bool) → Bytes → Option V → Option V
  kept_if p k none = none
  kept_if p k (some v) = if p (k, v) then some v else none

  insert_new :
      (k j : Bytes) (v : V) (m : Dict V)
      → beq j k ≡ false
      → lookup j m ≡ none
      → lookup j (insert k v m) ≡ none
  insert_new k j v m h e = rw (lookup-insert k j v m, beq_sym k j, h) e

  pub insert-IsUnique : (k : Bytes) (v : V) (m : Dict V) → IsUnique m → IsUnique (insert k v m)
  unfolding insert lookup
  insert-IsUnique k v [] u = (refl, tt)
  insert-IsUnique k v ((j, w) ∷ m) u = elim (Bool-cases (beq j k)) [
    | inl h ↦ rw (h) (subst (λ x. lookup x m ≡ none) (beq→eq j k h) u.0, u.1)
    | inr h ↦ rw (h) (insert_new k j v m h u.0, insert-IsUnique k v m u.1)
  ]

  found_head : (k j : Bytes) (w : V) (m : Dict V) → beq j k ≡ true → lookup k ((j, w) ∷ m) ≡ some w
  unfolding lookup
  found_head k j w m h = rw (h) refl

  found_tail :
      (k j : Bytes) (w : V) (m : Dict V) → beq j k ≡ false → lookup k ((j, w) ∷ m) ≡ lookup k m
  unfolding lookup
  found_tail k j w m h = rw (h) refl

  filterb_head :
      (p : Bytes × V → Bool) (k j : Bytes) (w : V) (m : Dict V)
      → beq j k ≡ true
      → lookup j m ≡ none
      → lookup k (filterb p m) ≡ kept_if p k (lookup k m)
      → lookup k (filterb p ((j, w) ∷ m)) ≡ kept_if p k (some w)
  unfolding lookup
  filterb_head p k j w m h e ih = elim (Bool-cases (p (k, w))) [
    | inl q ↦ rw (beq→eq j k h, q, beq_refl k) refl
    | inr q ↦
        rw (beq→eq j k h, q)
          (ih ∙ ap (kept_if p k) (subst (λ x. lookup x m ≡ none) (beq→eq j k h) e))
  ]

  filterb_tail :
      (p : Bytes × V → Bool) (k j : Bytes) (w : V) (m : Dict V)
      → beq j k ≡ false
      → lookup k (filterb p ((j, w) ∷ m)) ≡ lookup k (filterb p m)
  unfolding lookup
  filterb_tail p k j w m h = elim (Bool-cases (p (j, w))) [
    | inl q ↦ rw (q, h) refl
    | inr q ↦ rw (q) refl
  ]

  -- What is found among the entries that pass a test.
  pub lookup-filterb :
      (p : Bytes × V → Bool) (k : Bytes) (m : Dict V)
      → IsUnique m
      → lookup k (filterb p m) ≡ kept_if p k (lookup k m)
  unfolding lookup
  lookup-filterb p k [] u = refl
  lookup-filterb p k ((j, w) ∷ m) u = elim (Bool-cases (beq j k)) [
    | inl h ↦
        filterb_head p k j w m h u.0 (lookup-filterb p k m u.1)
        ∙ ap (kept_if p k) (sym (found_head k j w m h))
    | inr h ↦
        filterb_tail p k j w m h
        ∙ (lookup-filterb p k m u.1 ∙ ap (kept_if p k) (sym (found_tail k j w m h)))
  ]

  pub filterb-IsUnique : (p : Bytes × V → Bool) (m : Dict V) → IsUnique m → IsUnique (filterb p m)
  filterb-IsUnique p [] u = tt
  filterb-IsUnique p ((j, w) ∷ m) u = elim (Bool-cases (p (j, w))) [
    | inl q ↦ rw (q) (lookup-filterb p j m u.1 ∙ ap (kept_if p j) u.0, filterb-IsUnique p m u.1)
    | inr q ↦ rw (q) (filterb-IsUnique p m u.1)
  ]

  -- maps.Copy: the entries of the second map are put into the first.
  unfoldable pub copied : Dict V → Dict V → Dict V
  unfolding insert
  copied p [] = p
  copied p ((k, v) ∷ q) = copied (insert k v p) q

  abbrev pub found_or_else : Option V → Option V → Option V
  found_or_else none o = o
  found_or_else (some v) o = some v

  copied_step :
      (k j : Bytes) (v : V) (p q : Dict V)
      → lookup k q ≡ none
      → found_or_else (lookup j q) (lookup j (insert k v p))
        ≡ found_or_else (lookup j ((k, v) ∷ q)) (lookup j p)
  unfolding lookup
  copied_step k j v p q u = elim (Bool-cases (beq k j)) [
    | inl h ↦ rw (lookup-insert k j v p, h, subst (λ x. lookup x q ≡ none) (beq→eq k j h) u) refl
    | inr h ↦ rw (lookup-insert k j v p, h) refl
  ]

  -- A key is found in the second map, or else in the first.
  pub lookup-copied :
      (j : Bytes) (p q : Dict V)
      → IsUnique q
      → lookup j (copied p q) ≡ found_or_else (lookup j q) (lookup j p)
  unfolding lookup copied
  lookup-copied j p [] u = refl
  lookup-copied j p ((k, v) ∷ q) u =
      lookup-copied j (insert k v p) q u.1 ∙ copied_step k j v p q u.0
