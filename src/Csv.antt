-- ===== src/Csv.antt =====
-- pkg/auxfuncs/main.go: ParseCSV and EncodeCSV.
pub mod Fields
mod Tests
use gitus.Prelude.{
  ℕ, Bool, Bytes, List, [], ◌∷◌, ◌++◌, true, false, if◌then◌else◌, Run, done, panics, is_empty,
  is_space, join, last_or, ◌==◌, ◌>>=◌, codes, ◌&&◌, ◌||◌, map, not,
}

-- unicode.IsSpace of one byte.
unfoldable pub is_space_byte : ℕ → Bool
unfolding is_space
is_space_byte c = is_space c || c == 133 || c == 160

-- Every `\x` becomes `x`, but before a line feed: the pattern `\\(.)` with the replacement `$1`.
unfoldable pub without_escapes : Bytes → Bytes
without_escapes [] = []
without_escapes (c ∷ []) = c ∷ []
without_escapes (c ∷ d ∷ s) =
    let escaped = d ∷ without_escapes s in
    let plain = c ∷ without_escapes (d ∷ s) in
    if c == b'\\' && not (d == 10) then escaped else plain

-- The loop, with the text since the last comma; `true` behind a backslash, whose next byte is
-- skipped. The end of the text right behind a backslash leaves the loop without a last field.
unfoldable pub fields_of : Bool → Bytes → Bytes → List Bytes
unfolding without_escapes
fields_of true field [] = []
fields_of true field (d ∷ s) = fields_of false (field ++ (b'\\' ∷ d ∷ [])) s
fields_of false field [] = without_escapes field ∷ []
fields_of false field (c ∷ s) =
    let skip = fields_of true field s in
    let next = fields_of false [] s in
    let more = fields_of false (field ++ (c ∷ [])) s in
    if c == b'\\' then skip else if c == b',' then without_escapes field ∷ next else more

unfoldable pub skip_spaces : Bytes → Bytes
unfolding is_space_byte
skip_spaces [] = []
skip_spaces (c ∷ s) = if is_space_byte c then skip_spaces s else c ∷ s

-- The text up to its last byte that is no white space, and the white space behind it.
unfoldable pub split_spaces : Bytes → Bytes × Bytes
unfolding is_space_byte
split_spaces [] = ([], [])
split_spaces (c ∷ s) =
    let r = split_spaces s in
    if is_empty r.0 && is_space_byte c then ([], c ∷ r.1) else (c ∷ r.0, r.1)

-- A backslash at the end keeps one byte of white space; without any, the slice is out of range.
abbrev pub kept_space : Bytes → Bytes → Run Bytes
kept_space s [] = panics
kept_space s (c ∷ spaces) = done (s ++ (c ∷ []))

unfoldable pub trimmed_end : Bytes → Run Bytes
unfolding split_spaces
trimmed_end s =
    let r = split_spaces s in if last_or 0 r.0 == b'\\' then kept_space r.0 r.1 else done r.0

-- For a text of white space alone, the slice ends before it starts.
abbrev pub trimmed_rest : Bytes → Bytes → Run Bytes
unfolding trimmed_end
trimmed_rest [] [] = done []
trimmed_rest (c ∷ s) [] = panics
trimmed_rest s (c ∷ rest) = trimmed_end (c ∷ rest)

unfoldable pub parse_csv : Bytes → Run (List Bytes)
unfolding fields_of skip_spaces trimmed_rest
parse_csv s = trimmed_rest s (skip_spaces s) >>= (λ r. done (fields_of false [] r))

-- strings.ReplaceAll of one byte.
unfoldable pub replace_all : ℕ → Bytes → Bytes → Bytes
replace_all b new [] = []
replace_all b new (c ∷ s) = (if c == b then new else c ∷ []) ++ replace_all b new s

abbrev pub protect_last : Bytes → Bytes
unfolding is_space_byte
protect_last [] = []
protect_last (c ∷ []) = if is_space_byte c then b'\\' ∷ c ∷ [] else c ∷ []
protect_last (c ∷ d ∷ s) = c ∷ protect_last (d ∷ s)

-- `pre[0]` of an empty text panics.
abbrev pub protect_ends : Bytes → Run Bytes
unfolding is_space_byte protect_last
protect_ends [] = panics
protect_ends (c ∷ s) = done (protect_last (if is_space_byte c then b'\\' ∷ c ∷ s else c ∷ s))

unfoldable pub encode_csv : List Bytes → Run Bytes
unfolding replace_all protect_ends join
encode_csv a = protect_ends (join (codes ",") (map (replace_all b',' (codes "\\,")) a))
