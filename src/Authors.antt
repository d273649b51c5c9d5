-- ===== src/Authors.antt =====
-- pkg/gitlib/author-time.go: the authors of commits and tags with their times. The patterns that find an
-- author with its time, and a co-author, are parameters.
pub mod Zones
mod Tests
use gitus.Prelude.{
  ℕ, Bool, Bytes, List, [], ◌∷◌, ◌++◌, Option, none, some, true, false, if◌then◌else◌, codes, zero,
  suc, leb, ltb, ◌*◌, ◌+◌, ◌/◌, ◌==◌, ◌%◌, ◌-◌, ◌&&◌,
}

pub data ℤ : Type 0 where
  pos : ℕ → ℤ
  negsuc : ℕ → ℤ

abbrev pub sub_ℕ : ℕ → ℕ → ℤ
sub_ℕ a b = if leb b a then pos (a - b) else negsuc (b - a - 1)

-- What code gives that can panic or end the program by os.Exit.
pub data Ended {ℓ} (A : Type ℓ) : Type ℓ where
  gives : A → Ended A
  crashes : Ended A
  exits : Ended A

infixl 5 ◌>>=◌
abbrev pub ◌>>=◌ {ℓ κ} : {A : Type ℓ} {B : Type κ} → Ended A → (A → Ended B) → Ended B
gives a >>= f = f a
crashes >>= f = crashes
exits >>= f = exits

-- A time.Time by its seconds, and its zone by the name and the seconds east of UTC.
pub record Time : Type 0 where
  pub unix : ℤ
  pub zone : Bytes
  pub offset : ℤ

pub record AuthorTime : Type 0 where
  pub author_name : Bytes
  pub author_email : Bytes
  pub time : Time

-- `((a * 10 + b) * 60 + c * 10 + d) * 60` for four bytes, each less the byte of `0`: what is
-- subtracted comes last.
abbrev pub zone_seconds : Bool → ℕ → ℕ → ℕ → ℕ → ℤ
zone_seconds is_west a b c d =
    let total = ((a * 10 + b) * 60 + c * 10 + d) * 60 in
    let zeros = ((b'0' * 10 + b'0') * 60 + b'0' * 10 + b'0') * 60 in
    if is_west then sub_ℕ zeros total else sub_ℕ total zeros

-- `none` is the error.
unfoldable pub parse_timezone_offset : Bytes → Option ℤ
parse_timezone_offset (a ∷ []) = if a == b'Z' then some (pos 0) else none
parse_timezone_offset (s ∷ a ∷ b ∷ c ∷ d ∷ []) = some (zone_seconds (s == b'-') a b c d)
parse_timezone_offset s = none

abbrev pub digits_value : ℕ → Bytes → Option ℕ
digits_value n [] = some n
digits_value n (c ∷ s) =
    let rest = digits_value (n * 10 + (c - b'0')) s in
    if leb b'0' c && leb c b'9' then rest else none

abbrev pub unsigned_of : Bytes → Option ℕ
unsigned_of [] = none
unsigned_of (c ∷ s) = digits_value 0 (c ∷ s)

abbrev pub at_most : ℕ → Option ℕ → ℕ
at_most limit none = 0
at_most limit (some n) = if leb n limit then n else 0

-- strconv.ParseInt, with 0 in place of an error.
unfoldable pub timestamp_of : Bytes → ℤ
timestamp_of [] = pos 0
timestamp_of (c ∷ s) =
    if c == b'-'
    then sub_ℕ 0 (at_most 9223372036854775808 (unsigned_of s))
    else if c == b'+'
    then pos (at_most 9223372036854775807 (unsigned_of s))
    else pos (at_most 9223372036854775807 (unsigned_of (c ∷ s)))

-- `([^<>]+)\s*<([^>]*)>\s*([^\s]+)\s*([^\s]+)`: the name, the address, the seconds and the zone; and
-- `^\s*[cC]o-[aA]uthored-[bB]y:\s*([^<>]+)\s*<([^>]*)>\s*$`: the name and the address.
pub record AuthorPatterns : Type 0 where
  pub author_time : Bytes → Option (Bytes × Bytes × Bytes × Bytes)
  pub co_author : Bytes → Option (Bytes × Bytes)

abbrev pub with_offset : Bytes → Bytes → Bytes → Bytes → Option ℤ → Ended AuthorTime
unfolding timestamp_of
with_offset name email seconds zone none = exits
with_offset name email seconds zone (some o) = gives (record {
  author_name = name;
  author_email = email;
  time = record { unix = timestamp_of seconds; zone = codes "UTC" ++ zone; offset = o };
})

abbrev pub author_of : Option (Bytes × Bytes × Bytes × Bytes) → Ended AuthorTime
unfolding with_offset parse_timezone_offset
author_of none = exits
author_of (some m) = with_offset m.0 m.1 m.2 m.3 (parse_timezone_offset m.3)

unfoldable pub parse_author_time : AuthorPatterns → Bytes → Ended AuthorTime
unfolding author_of
parse_author_time p s = author_of (p.author_time s)

-- `%02d`
abbrev pub digit : ℕ → ℕ
digit n = b'0' + n

abbrev pub decimal_from : ℕ → ℕ → Bytes → Bytes
decimal_from zero n s = s
decimal_from (suc fuel) n s =
    let more = decimal_from fuel (n / 10) (digit (n % 10) ∷ s) in
    if ltb n 10 then digit n ∷ s else more

-- A number has fewer digits than one more than itself.
unfoldable pub decimal : ℕ → Bytes
decimal n = decimal_from (suc n) n []

unfoldable pub two_digits : ℕ → Bytes
unfolding decimal
two_digits n = if ltb n 10 then b'0' ∷ digit n ∷ [] else decimal n

abbrev pub is_positive : ℤ → Bool
is_positive (pos n) = ltb 0 n
is_positive (negsuc n) = false

abbrev pub magnitude : ℤ → ℕ
magnitude (pos n) = n
magnitude (negsuc n) = suc n

-- The offset of a zone as AuthorTime.String writes it.
unfoldable pub offset_string : ℤ → Bytes
unfolding two_digits
offset_string i =
    let minutes = magnitude i / 60 in
    (if is_positive i then b'+' else b'-')
    ∷ (two_digits (minutes / 60) ++ two_digits (minutes % 60))

abbrev pub signed_decimal : ℤ → Bytes
unfolding decimal
signed_decimal (pos n) = decimal n
signed_decimal (negsuc n) = b'-' ∷ decimal (suc n)

unfoldable pub author_time_string : AuthorTime → Bytes
unfolding offset_string signed_decimal
author_time_string a =
    a.author_name
    ++ (codes " <"
        ++ (a.author_email
            ++ (codes "> "
                ++ (signed_decimal a.time.unix ++ (codes " " ++ offset_string a.time.offset)))))

-- The zero time.Time, in the year 1.
abbrev pub zero_time : Time
zero_time = record { unix = negsuc 62135596799; zone = codes "UTC"; offset = pos 0 }
