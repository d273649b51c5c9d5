-- ===== src/Packed/Delta.antt =====
-- Delta commands as git writes them are read back.
use gitus.Prelude.{
  ℕ, zero, suc, ◌≡◌, refl, arith, List, Bytes, [], ◌∷◌, ◌++◌, true, false, some, done, ◌+◌, ◌*◌,
  ◌/◌, ◌%◌, ◌<◌, ◌≤◌, length, take-append, drop-append, length-append, All, ap, ◌==◌, if◌then◌else◌,
  ltb, lt→ltb, le→leb, ◌∙◌,
}
use gitus.Packed.{
  after_command, DeltaCommand, copy, data_of, read_fields, little_endian, size_or_default, copy_of,
  read_command, parse_commands, parse_delta_command_list, cons_if,
}

-- The header of a copy, and the bytes that follow it: those of the offset and the size that are not
-- 0, each with its bit in the header.
abbrev pub presence : ℕ → ℕ
presence zero = 0
presence (suc b) = 1

abbrev pub mask : Bytes → ℕ
mask [] = 1
mask (b ∷ bs) = presence b + 2 * mask bs

abbrev pub present : Bytes → Bytes
present [] = []
present (zero ∷ bs) = present bs
present (suc b ∷ bs) = suc b ∷ present bs

-- The lowest bytes of a number.
abbrev pub bytes_of : ℕ → ℕ → Bytes
bytes_of zero x = []
bytes_of (suc n) x = x % 256 ∷ bytes_of n (x / 256)

-- A size of 0x10000 takes no bytes.
abbrev pub stored_size : ℕ → ℕ
stored_size size = if size == 65536 then 0 else size

abbrev pub copy_bytes : ℕ → ℕ → Bytes
copy_bytes offset size = bytes_of 4 offset ++ bytes_of 3 (stored_size size)

-- A command as git writes it.
abbrev pub encode : DeltaCommand → Bytes
encode (copy offset size) = mask (copy_bytes offset size) ∷ present (copy_bytes offset size)
encode (data_of s) = length s ∷ s

abbrev pub encode_all : List DeltaCommand → Bytes
encode_all [] = []
encode_all (c ∷ cs) = encode c ++ encode_all cs

-- The commands that the format can hold.
abbrev pub IsEncodable : DeltaCommand → Type 0
IsEncodable (copy offset size) = (offset < 4294967296) × (0 < size) × (size < 16777216)
IsEncodable (data_of s) = length s < 128

read_fields_one :
    (n h m b : ℕ) (bs t s : Bytes)
    → (h % 2 == 1) ≡ true
    → h / 2 ≡ m
    → read_fields n m t ≡ some (bs, s)
    → read_fields (suc n) h (b ∷ t) ≡ some (b ∷ bs, s)
read_fields_one n h m b bs t s p q r = rw (p, q, r) refl

read_fields_none :
    (n h m : ℕ) (bs t s : Bytes)
    → (h % 2 == 1) ≡ false
    → h / 2 ≡ m
    → read_fields n m t ≡ some (bs, s)
    → read_fields (suc n) h t ≡ some (0 ∷ bs, s)
read_fields_none n h m bs t s p q r = rw (p, q, r) refl

odd_bit : (m : ℕ) → ((1 + 2 * m) % 2 == 1) ≡ true
odd_bit m = ground arith

even_bit : (m : ℕ) → ((0 + 2 * m) % 2 == 1) ≡ false
even_bit m = ground arith

read_fields-present :
    (bs : Bytes) (s : Bytes) → read_fields (length bs) (mask bs) (present bs ++ s) ≡ some (bs, s)
read_fields-present [] s = refl
read_fields-present (zero ∷ bs) s =
    read_fields_none (length bs) (mask (zero ∷ bs)) (mask bs) bs (present bs ++ s) s
      (even_bit (mask bs)) (omega arith) (read_fields-present bs s)
read_fields-present (suc b ∷ bs) s =
    read_fields_one (length bs) (mask (suc b ∷ bs)) (mask bs) (suc b) bs (present bs ++ s) s
      (odd_bit (mask bs)) (omega arith) (read_fields-present bs s)

mask-ge : (a b c d e f g : ℕ) → 128 ≤ mask (a ∷ b ∷ c ∷ d ∷ e ∷ f ∷ g ∷ [])
mask-ge a b c d e f g = omega arith

ge→ltb : (a b : ℕ) → b ≤ a → ltb a b ≡ false
ge→ltb a b h = ground arith

read_command_copy :
    (h : ℕ) (bs t s : Bytes)
    → ltb h 128 ≡ false
    → read_fields 7 h t ≡ some (bs, s)
    → read_command h t ≡ some (copy_of bs, s)
unfolding read_command
read_command_copy h bs t s p q = rw (p, q) refl

little_endian-bytes_of4 : (x : ℕ) → x < 4294967296 → little_endian (bytes_of 4 x) ≡ x
little_endian-bytes_of4 x h = omega arith

little_endian-bytes_of3 : (x : ℕ) → x < 16777216 → little_endian (bytes_of 3 x) ≡ x
little_endian-bytes_of3 x h = omega arith

size_or_default-stored_size : (n : ℕ) → 0 < n → size_or_default (stored_size n) ≡ n
size_or_default-stored_size n h = ground arith

stored_size-lt : (n : ℕ) → n < 16777216 → stored_size n < 16777216
stored_size-lt n h = ground arith

copy_of-copy_bytes :
    (offset size : ℕ)
    → IsEncodable (copy offset size)
    → copy_of (copy_bytes offset size) ≡ copy offset size
copy_of-copy_bytes o n (p, q, r) =
    ap (λ x. copy x (size_or_default (little_endian (bytes_of 3 (stored_size n)))))
      (little_endian-bytes_of4 o p)
    ∙ ap (λ x. copy o x)
        (ap size_or_default (little_endian-bytes_of3 (stored_size n) (stored_size-lt n r))
          ∙ size_or_default-stored_size n q)

read_copy :
    (offset size : ℕ) (s : Bytes)
    → IsEncodable (copy offset size)
    → read_command (mask (copy_bytes offset size)) (present (copy_bytes offset size) ++ s)
      ≡ some (copy offset size, s)
read_copy o n s h =
    read_command_copy (mask (copy_bytes o n)) (copy_bytes o n) (present (copy_bytes o n) ++ s) s
      (ge→ltb _ 128 (mask-ge _ _ _ _ _ _ _)) (read_fields-present (copy_bytes o n) s)
    ∙ ap (λ c. some (c, s)) (copy_of-copy_bytes o n h)

read_data : (d s : Bytes) → length d < 128 → read_command (length d) (d ++ s) ≡ some (data_of d, s)
unfolding read_command
read_data d s h =
    rw
      (
        lt→ltb (length d) 128 h,
        le→leb (length d) (length (d ++ s)) (omega (arith, length-append d s)),
        take-append d s,
        drop-append d s,
      )
      refl

parse_commands_one :
    (fuel h : ℕ) (t rest : Bytes) (c : DeltaCommand) (cs : List DeltaCommand)
    → read_command h t ≡ some (c, rest)
    → parse_commands fuel rest ≡ done (some cs)
    → parse_commands (suc fuel) (h ∷ t) ≡ done (some (c ∷ cs))
unfolding parse_commands
parse_commands_one fuel h t rest c cs p q =
    ap (after_command (parse_commands fuel)) p ∙ ap (cons_if c) q

parse_commands-encode_all :
    (fuel : ℕ) (cs : List DeltaCommand)
    → All IsEncodable cs
    → length (encode_all cs) ≤ fuel
    → parse_commands fuel (encode_all cs) ≡ done (some cs)
unfolding parse_commands
parse_commands-encode_all fuel [] v h = refl
parse_commands-encode_all zero (copy o n ∷ cs) v h = absurd (omega arith)
parse_commands-encode_all zero (data_of s ∷ cs) v h = absurd (omega arith)
parse_commands-encode_all (suc fuel) (copy o n ∷ cs) v h =
    parse_commands_one fuel (mask (copy_bytes o n)) (present (copy_bytes o n) ++ encode_all cs)
      (encode_all cs) (copy o n) cs (read_copy o n (encode_all cs) v.0)
      (parse_commands-encode_all fuel cs v.1
        (omega (arith, length-append (present (copy_bytes o n)) (encode_all cs))))
parse_commands-encode_all (suc fuel) (data_of s ∷ cs) v h =
    parse_commands_one fuel (length s) (s ++ encode_all cs) (encode_all cs) (data_of s) cs
      (read_data s (encode_all cs) v.0)
      (parse_commands-encode_all fuel cs v.1 (omega (arith, length-append s (encode_all cs))))

-- Commands written the way git writes them are read back as they are, when their offsets have four
-- bytes and their sizes three, no copy is empty, and no data is longer than 127 bytes.
pub parse_delta_command_list-encode_all :
    (cs : List DeltaCommand)
    → All IsEncodable cs
    → parse_delta_command_list (encode_all cs) ≡ done (some cs)
unfolding parse_delta_command_list
parse_delta_command_list-encode_all cs v =
    parse_commands-encode_all (length (encode_all cs)) cs v (omega arith)
