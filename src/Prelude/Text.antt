-- ===== src/Prelude/Text.antt =====
-- Go strings as lists of byte values, with the operations of package strings that the code uses.
use Prim.Native.Nat.{ℕ}
use Prim.Native.Char.{code}
use Prim.Native.String.{String}
use mathlib.Core.Path.{◌≡◌, refl}
use mathlib.Core.Logic.{◌↔◌}
use mathlib.Core.Bool.{Bool, true, false, ◌&&◌, ◌||◌}
use mathlib.Core.List.{List, [], ◌∷◌, ◌++◌, reverse, reverse-cons, reverse-reverse}
use mathlib.Core.Option.{Option, none, some}
use native.Mathlib.Omega.{arith}
use gitus.Prelude.Tests.{◌==◌, leb, if◌then◌else◌}

abbrev pub Bytes : Type 0
Bytes = List ℕ

-- The code points of a text: its bytes, if it is ASCII.
abbrev pub codes : String → Bytes
codes String.[] = []
codes (String.◌∷◌ c s) = code c ∷ codes s

-- `a == b` on strings.
unfoldable pub beq : Bytes → Bytes → Bool
beq [] [] = true
beq [] (y ∷ ys) = false
beq (x ∷ xs) [] = false
beq (x ∷ xs) (y ∷ ys) = x == y && beq xs ys

pub beq_refl : (s : Bytes) → beq s s ≡ true
unfolding beq
beq_refl [] = refl
beq_refl (x ∷ xs) = ground (arith, beq_refl xs)

pub beq→eq : (s t : Bytes) → beq s t ≡ true → s ≡ t
unfolding beq
beq→eq [] [] h = refl
beq→eq [] (y ∷ ys) h = cc
beq→eq (x ∷ xs) [] h = cc
beq→eq (x ∷ xs) (y ∷ ys) h = ground (arith, beq→eq xs ys)

pub eq→beq : (s t : Bytes) → s ≡ t → beq s t ≡ true
eq→beq s t h = ground (arith, beq_refl s)

pub beq_iff : (s t : Bytes) → (beq s t ≡ true) ↔ (s ≡ t)
beq_iff s t = (beq→eq s t, eq→beq s t)

pub beq_sym : (s t : Bytes) → beq s t ≡ beq t s
unfolding beq
beq_sym [] [] = refl
beq_sym [] (y ∷ ys) = refl
beq_sym (x ∷ xs) [] = refl
beq_sym (x ∷ xs) (y ∷ ys) = ground (arith, beq_sym xs ys)

-- `len(s) <= 0`
abbrev pub is_empty : Bytes → Bool
is_empty [] = true
is_empty (x ∷ xs) = false

-- strings.HasPrefix
unfoldable pub has_prefix : Bytes → Bytes → Bool
has_prefix s [] = true
has_prefix [] (p ∷ ps) = false
has_prefix (x ∷ xs) (p ∷ ps) = x == p && has_prefix xs ps

-- strings.Contains
unfoldable pub contains : Bytes → Bytes → Bool
unfolding has_prefix
contains [] p = has_prefix [] p
contains (x ∷ xs) p = has_prefix (x ∷ xs) p || contains xs p

-- `slices.Contains`
unfoldable pub mem : Bytes → List Bytes → Bool
mem s [] = false
mem s (x ∷ xs) = beq x s || mem s xs

-- ASCII white space: the part of unicode.IsSpace that one byte can hold.
unfoldable pub is_space : ℕ → Bool
is_space c = (leb 9 c && leb c 13) || c == 32

unfoldable pub trim_left : Bytes → Bytes
unfolding is_space
trim_left [] = []
trim_left (c ∷ s) = if is_space c then trim_left s else c ∷ s

-- strings.TrimSpace
unfoldable pub trim_space : Bytes → Bytes
unfolding trim_left
trim_space s = reverse (trim_left (reverse (trim_left s)))

-- strings.SplitN(s, sep, 2): the part before the first separator, and the rest if there is one.
unfoldable pub cut : ℕ → Bytes → Bytes × Option Bytes
cut sep [] = ([], none)
cut sep (c ∷ s) = let r = cut sep s in if c == sep then ([], some s) else (c ∷ r.0, r.1)

-- strings.Split(s, sep) for a one-byte separator, as the first piece and the others.
unfoldable pub split : ℕ → Bytes → Bytes × List Bytes
split sep [] = ([], [])
split sep (c ∷ s) = let r = split sep s in if c == sep then ([], r.0 ∷ r.1) else (c ∷ r.0, r.1)

-- Pieces joined by a separator.
unfoldable pub join : Bytes → List Bytes → Bytes
join sep [] = []
join sep (x ∷ []) = x
join sep (x ∷ y ∷ xs) = x ++ (sep ++ join sep (y ∷ xs))

-- The bytes of a string pass a test.
abbrev pub Free : (ℕ → Bool) → Bytes → Type 0
Free p [] = Unit
Free p (x ∷ xs) = (p x ≡ false) × Free p xs

-- Text with no white space is left as it is.
trim_left-Free : (s : Bytes) → Free is_space s → trim_left s ≡ s
unfolding trim_left
trim_left-Free [] f = refl
trim_left-Free (c ∷ s) f = rw f.0

pub Free-append : (p : ℕ → Bool) (s t : Bytes) → Free p s → Free p t → Free p (s ++ t)
Free-append p [] t f g = g
Free-append p (c ∷ s) t f g = (f.0, Free-append p s t f.1 g)

Free-reverse : (p : ℕ → Bool) (s : Bytes) → Free p s → Free p (reverse s)
Free-reverse p [] f = tt
Free-reverse p (c ∷ s) f =
    rw (reverse-cons c s) (Free-append p (reverse s) (c ∷ []) (Free-reverse p s f.1) (f.0, tt))

pub trim_space-Free : (s : Bytes) → Free is_space s → trim_space s ≡ s
unfolding trim_space
trim_space-Free s f =
    rw (trim_left-Free s f, trim_left-Free (reverse s) (Free-reverse is_space s f))
      (reverse-reverse s)
