-- ===== src/Prelude/Pieces.antt =====
-- Texts cut and split at a byte that a piece does not hold.
use Prim.Native.Nat.{ℕ}
use mathlib.Core.Path.{◌≡◌, refl}
use mathlib.Core.Bool.{Bool, true, false}
use mathlib.Core.List.{[], ◌∷◌, ◌++◌}
use mathlib.Core.Option.{some}
use native.Mathlib.Omega.{arith}
use gitus.Prelude.Tests.{◌==◌}
use gitus.Prelude.Text.{Bytes, Free, cut, split}

pub same_byte : (c : ℕ) → (c == c) ≡ true
same_byte c = ground arith

pub cut-piece :
    (sep : ℕ) (p q : Bytes) → Free (λ c. c == sep) p → cut sep (p ++ (sep ∷ q)) ≡ (p, some q)
unfolding cut
cut-piece sep [] q f = rw (same_byte sep) refl
cut-piece sep (c ∷ p) q f = rw (f.0, cut-piece sep p q f.1) refl

pub split-piece :
    (sep : ℕ) (p q : Bytes)
    → Free (λ c. c == sep) p
    → split sep (p ++ (sep ∷ q)) ≡ (p, (split sep q).0 ∷ (split sep q).1)
unfolding split
split-piece sep [] q f = rw (same_byte sep) refl
split-piece sep (c ∷ p) q f = rw (f.0, split-piece sep p q f.1) refl

pub split-whole : (sep : ℕ) (p : Bytes) → Free (λ c. c == sep) p → split sep p ≡ (p, [])
unfolding split
split-whole sep [] f = refl
split-whole sep (c ∷ p) f = rw (f.0, split-whole sep p f.1) refl

pub Free-weaken :
    (p q : ℕ → Bool) (s : Bytes) → ((c : ℕ) → p c ≡ false → q c ≡ false) → Free p s → Free q s
Free-weaken p q [] h f = tt
Free-weaken p q (c ∷ s) h f = (h c f.0, Free-weaken p q s h f.1)
