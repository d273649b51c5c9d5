-- ===== src/Diff/Patterns.antt =====
-- The regular expressions of pkg/gitlib/diff.go, as functions that give the groups of the first match.
use gitus.Prelude.{
  ℕ, Bool, Bytes, List, [], ◌∷◌, ◌++◌, Option, none, some, if◌then◌else◌, codes, leb, ◌*◌, ◌==◌,
  ◌&&◌, ◌+◌, ◌-◌,
}

-- The text behind a prefix.
unfoldable pub strip : Bytes → Bytes → Option Bytes
strip [] s = some s
strip (p ∷ ps) [] = none
strip (p ∷ ps) (c ∷ s) = if c == p then strip ps s else none

-- `.*` stops at a line feed.
unfoldable pub up_to_feed : Bytes → Bytes
up_to_feed [] = []
up_to_feed (c ∷ s) = if c == 10 then [] else c ∷ up_to_feed s

-- The first position at which a pattern matches.
abbrev pub or_else {ℓ} : {A : Type ℓ} → Option A → Option A → Option A
or_else none o = o
or_else (some a) o = some a

unfoldable pub first_match {ℓ} : {A : Type ℓ} → (Bytes → Option A) → Bytes → Option A
first_match p [] = p []
first_match p (c ∷ s) = or_else (p (c ∷ s)) (first_match p s)

abbrev pub old_file : Bytes
old_file = codes "--- "

abbrev pub new_file : Bytes
new_file = codes "+++ "

abbrev pub captured : Option Bytes → Option Bytes
unfolding up_to_feed
captured none = none
captured (some s) = some (up_to_feed s)

-- `--- (.*)` and `\+\+\+ (.*)`
unfoldable pub file_match : Bytes → Bytes → Option Bytes
unfolding first_match strip captured
file_match p s = first_match (λ t. captured (strip p t)) s

pub data HeaderMatch : Type 0 where
  -- the second and the third group
  keyword_match : Bytes → Bytes → HeaderMatch
  -- the fourth and the fifth; the sixth is always empty, since the fifth takes the spaces
  index_match : Bytes → Bytes → HeaderMatch

abbrev pub keywords : List Bytes
keywords =
    codes "old mode"
    ∷ codes "new mode"
    ∷ codes "deleted file mode"
    ∷ codes "new file mode"
    ∷ codes "copy from"
    ∷ codes "copy to"
    ∷ codes "rename from"
    ∷ codes "rename to"
    ∷ codes "similarity index"
    ∷ codes "dissimilarity index"
    ∷ []

unfoldable pub keyword_found : Bytes → Option Bytes → Option HeaderMatch
unfolding up_to_feed
keyword_found k none = none
keyword_found k (some s) = some (keyword_match k (up_to_feed s))

unfoldable pub one_of : List Bytes → Bytes → Option HeaderMatch
unfolding strip keyword_found
one_of [] s = none
one_of (k ∷ ks) s = or_else (keyword_found k (strip (k ++ (b' ' ∷ [])) s)) (one_of ks s)

-- `[^.]+`, with what follows.
abbrev pub no_dots : Bytes → Bytes × Bytes
no_dots [] = ([], [])
no_dots (c ∷ s) = let r = no_dots s in if c == b'.' then ([], c ∷ s) else (c ∷ r.0, r.1)

abbrev pub index_second : Bytes → Bytes × Bytes → Option HeaderMatch
index_second a ([], rest) = none
index_second a (c ∷ b, rest) = some (index_match a (c ∷ b))

abbrev pub index_dots : Bytes → Option Bytes → Option HeaderMatch
index_dots a none = none
index_dots a (some s) = index_second a (no_dots s)

unfoldable pub index_first : Bytes × Bytes → Option HeaderMatch
unfolding strip
index_first ([], rest) = none
index_first (c ∷ a, rest) = index_dots (c ∷ a) (strip (codes "..") rest)

unfoldable pub index_found : Option Bytes → Option HeaderMatch
unfolding index_first
index_found none = none
index_found (some s) = index_first (no_dots s)

-- `(((?:(?:old|new|deleted file|new file) mode)|(?:copy (?:from|to))|(?:rename (?:from|to))|
-- (?:dis)?similarity index) (.*))|(?:index ([^.]+)\.\.([^.]+)(?: (.*))?)`
unfoldable pub header_match : Bytes → Option HeaderMatch
unfolding first_match one_of index_found strip
header_match s =
    first_match (λ t. or_else (one_of keywords t) (index_found (strip (codes "index ") t))) s

-- The groups of the header of a patch, as numbers: a group that is missing is 1.
pub record LineHeader : Type 0 where
  pub l_start : ℕ
  pub l_line_count : ℕ
  pub r_start : ℕ
  pub r_line_count : ℕ
  pub context_line : Bytes

abbrev is_digit : ℕ → Bool
is_digit c = leb b'0' c && leb c b'9'

-- `\d+` or `\d*`, with what follows.
abbrev pub digits : Bytes → Bytes × Bytes
digits [] = ([], [])
digits (c ∷ s) = let r = digits s in if is_digit c then (c ∷ r.0, r.1) else ([], c ∷ s)

abbrev pub value_of : ℕ → Bytes → ℕ
value_of n [] = n
value_of n (c ∷ s) = value_of (n * 10 + (c - b'0')) s

-- strconv.ParseInt, whose error is dropped: a number past the range is the largest int64.
abbrev pub parse_int : Bytes → ℕ
parse_int s = let n = value_of 0 s in if leb n 9223372036854775807 then n else 9223372036854775807

-- `(?:,(\d+))?`: the count and what follows. Without digits the comma is not taken.
abbrev pub count_digits : Bytes → Bytes × Bytes → ℕ × Bytes
count_digits s ([], rest) = (1, s)
count_digits s (c ∷ d, rest) = (parse_int (c ∷ d), rest)

abbrev pub after_comma : Bytes → Option Bytes → ℕ × Bytes
after_comma s none = (1, s)
after_comma s (some t) = count_digits s (digits t)

abbrev pub count_of : Bytes → ℕ × Bytes
unfolding strip
count_of s = after_comma s (strip (codes ",") s)

-- A number, its count and what follows.
abbrev pub range_of : Bytes × Bytes → Option (ℕ × ℕ × Bytes)
unfolding count_of
range_of ([], rest) = none
range_of (c ∷ d, rest) = let r = count_of rest in some (parse_int (c ∷ d), r.0, r.1)

abbrev pub with_context : ℕ × ℕ × Bytes → ℕ × ℕ × Bytes → Option Bytes → Option LineHeader
unfolding up_to_feed
with_context l r none = none
with_context l r (some s) = some (record {
  l_start = l.0;
  l_line_count = l.1;
  r_start = r.0;
  r_line_count = r.1;
  context_line = up_to_feed s;
})

abbrev pub with_right : ℕ × ℕ × Bytes → Option (ℕ × ℕ × Bytes) → Option LineHeader
unfolding with_context strip
with_right l none = none
with_right l (some r) = with_context l r (strip (codes " @@") r.2)

abbrev pub right_of : ℕ × ℕ × Bytes → Option Bytes → Option LineHeader
unfolding with_right range_of
right_of l none = none
right_of l (some s) = with_right l (range_of (digits s))

abbrev pub with_left : Option (ℕ × ℕ × Bytes) → Option LineHeader
unfolding right_of strip
with_left none = none
with_left (some l) = right_of l (strip (codes " +") l.2)

abbrev pub left_of : Option Bytes → Option LineHeader
unfolding with_left range_of
left_of none = none
left_of (some s) = with_left (range_of (digits s))

-- `@@ -(\d+)(?:,(\d+))? \+(\d+)(?:,(\d+))? @@(.*)`
unfoldable pub line_match : Bytes → Option LineHeader
unfolding first_match left_of strip
line_match s = first_match (λ t. left_of (strip (codes "@@ -") t)) s
