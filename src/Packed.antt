-- ===== src/Packed.antt =====
-- What a pack stores: pkg/gitlib/delta.go, the offset of ofs-delta.go, the header of pack-index.go
-- and the two numbers that ref-delta.go and ofs-delta.go skip. A reader is a function of the bytes
-- that are left; `none` is io.EOF or io.ErrUnexpectedEOF.
pub mod Numbers
pub mod Delta
pub mod Total
mod Tests
use gitus.Prelude.{
  ℕ, Bool, Bytes, List, Option, [], none, some, ◌∷◌, ◌++◌, true, false, zero, suc, ◌+◌, ◌-◌, ◌*◌,
  ◌/◌, ◌%◌, ◌^◌, ◌==◌, if◌then◌else◌, leb, ltb, take, drop, length, Run, done, panics, no_fuel,
}

abbrev pub Reader {ℓ} : Type ℓ → Type ℓ
Reader A = Bytes → Option (A × Bytes)

abbrev pub next {ℓ κ} :
    {A : Type ℓ} {B : Type κ} → (A → Reader B) → Option (A × Bytes) → Option (B × Bytes)
next f none = none
next f (some (a, s)) = f a s

infixl 5 ◌>>=◌
abbrev pub ◌>>=◌ {ℓ κ} : {A : Type ℓ} {B : Type κ} → Reader A → (A → Reader B) → Reader B
m >>= f = λ s. next f (m s)

abbrev pub return {ℓ} : {A : Type ℓ} → A → Reader A
return a = λ s. some (a, s)

-- io.ReadFull with a buffer of one byte, and of `n` bytes.
abbrev pub read_byte : Reader ℕ
read_byte [] = none
read_byte (b ∷ s) = some (b, s)

abbrev pub read_full : ℕ → Reader Bytes
read_full n s = if leb n (length s) then some (take n s, drop n s) else none

pub data DeltaCommand : Type 0 where
  -- an offset and a size
  copy : ℕ → ℕ → DeltaCommand
  data_of : Bytes → DeltaCommand

-- `byteN := 0; if h & mask > 0 { read }` for one mask after the other, from the lowest bit on. The
-- caller hands the rest of the bits over.
abbrev pub read_fields : ℕ → ℕ → Reader (List ℕ)
read_fields zero h = return []
read_fields (suc n) h = do
  b ← if h % 2 == 1 then read_byte else return 0
  bs ← read_fields n (h / 2)
  return (b ∷ bs)

-- Bytes with the lowest first: `(byte4<<24)|(byte3<<16)|(byte2<<8)|byte1`.
abbrev pub little_endian : List ℕ → ℕ
little_endian [] = 0
little_endian (b ∷ bs) = b + 256 * little_endian bs

abbrev pub size_or_default : ℕ → ℕ
size_or_default n = if n == 0 then 65536 else n

abbrev pub copy_of : List ℕ → DeltaCommand
copy_of bs = copy (little_endian (take 4 bs)) (size_or_default (little_endian (drop 4 bs)))

-- What follows the first byte of a command, which has its top bit set for a copy.
unfoldable pub read_command : ℕ → Reader DeltaCommand
read_command h =
    if ltb h 128
    then (read_full h >>= λ s. return (data_of s))
    else (read_fields 7 h >>= λ bs. return (copy_of bs))

abbrev pub cons_if :
    DeltaCommand → Run (Option (List DeltaCommand)) → Run (Option (List DeltaCommand))
cons_if c (done (some cs)) = done (some (c ∷ cs))
cons_if c r = r

abbrev pub after_command :
    (Bytes → Run (Option (List DeltaCommand)))
    → Option (DeltaCommand × Bytes)
    → Run (Option (List DeltaCommand))
after_command f none = done none
after_command f (some (c, rest)) = cons_if c (f rest)

-- The loop over the commands; `none` is an error. Each round reads a byte at least, so the length of
-- the input is fuel enough.
unfoldable pub parse_commands : ℕ → Bytes → Run (Option (List DeltaCommand))
unfolding read_command
parse_commands fuel [] = done (some [])
parse_commands zero (h ∷ s) = no_fuel
parse_commands (suc fuel) (h ∷ s) = after_command (parse_commands fuel) (read_command h s)

unfoldable pub parse_delta_command_list : Bytes → Run (Option (List DeltaCommand))
unfolding parse_commands
parse_delta_command_list b = parse_commands (length b) b

-- DeltaCopyCommand.Execute slices the base, which panics out of range, and DeltaDataCommand.Execute
-- gives its data. The base is a slice with no capacity beyond its length.
unfoldable pub execute : Bytes → DeltaCommand → Run Bytes
execute base (copy offset size) =
    if leb (offset + size) (length base) then done (take size (drop offset base)) else panics
execute base (data_of s) = done s

-- The rest of readOfsDeltaOffset: an offset so far, and the byte that was read last.
abbrev pub offset_loop : ℕ → ℕ → Reader ℕ
offset_loop b offset [] = if ltb b 128 then some (offset, []) else none
offset_loop b offset (c ∷ s) =
    let rest = offset_loop c (((offset + 1) * 128 + c % 128) % 2 ^ 64) s in
    if ltb b 128 then some (offset, c ∷ s) else rest

-- An int64, whose sign is that of its 64 bits.
unfoldable pub read_ofs_delta_offset : Reader ℕ
read_ofs_delta_offset [] = none
read_ofs_delta_offset (b ∷ s) = offset_loop b (b % 128) s

-- `size += int64(b&0x7f)<<shiftCount` with a shift that reaches 64 giving 0.
abbrev pub size_loop : ℕ → ℕ → ℕ → Reader ℕ
size_loop b shift size [] = if ltb b 128 then some (size, []) else none
size_loop b shift size (c ∷ s) =
    let rest = size_loop c (shift + 7) ((size + (c % 128) * 2 ^ shift) % 2 ^ 64) s in
    if ltb b 128 then some (size, c ∷ s) else rest

-- parsePackedObjectHeaderAtOffset from the offset on: the type and the size.
unfoldable pub parse_packed_object_header : Reader (ℕ × ℕ)
parse_packed_object_header [] = none
parse_packed_object_header (b ∷ s) =
    (size_loop b 4 (b % 16) >>= λ size. return ((b / 16) % 8, size)) s

-- `for data[i]&0x80 > 0 { i += 1 }; i += 1`, which panics past the end.
abbrev pub skip_number : Bytes → Run Bytes
skip_number [] = panics
skip_number (b ∷ s) = let rest = skip_number s in if ltb b 128 then done s else rest

abbrev pub in_run {ℓ κ} : {A : Type ℓ} {B : Type κ} → Run A → (A → Run B) → Run B
in_run (done a) f = f a
in_run panics f = panics
in_run no_fuel f = no_fuel

-- The commands of a REF_DELTA or an OFS_DELTA object from its inflated data.
unfoldable pub delta_commands : Bytes → Run (Option (List DeltaCommand))
unfolding parse_delta_command_list
delta_commands inflated =
    in_run (skip_number inflated) λ s. in_run (skip_number s) parse_delta_command_list
