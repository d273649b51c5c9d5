-- ===== src/Packed/Numbers.antt =====
-- The numbers of a pack that are written seven bits at a time, and the two at the head of a delta.
use gitus.Prelude.{
  ℕ, ◌≡◌, refl, arith, List, Bytes, [], ◌∷◌, ◌++◌, true, false, some, done, ◌+◌, ◌*◌, ◌%◌, ◌<◌, ◌≤◌,
  All, ap, ltb, lt→ltb, ◌^◌, ◌∙◌,
}
use gitus.Packed.{
  DeltaCommand, offset_loop, read_ofs_delta_offset, skip_number, delta_commands,
  parse_delta_command_list, in_run,
}
use gitus.Packed.Delta.{encode_all, IsEncodable, parse_delta_command_list-encode_all}

-- Groups of seven bits as bytes: the top bit is set in all but the last.
abbrev pub grouped : ℕ → List ℕ → Bytes
grouped g [] = g ∷ []
grouped g (h ∷ gs) = (128 + g) ∷ grouped h gs

-- The offset that the groups after the first add to: each group but the first counts from 1.
abbrev pub offset_value : ℕ → List ℕ → ℕ
offset_value v [] = v
offset_value v (g ∷ gs) = offset_value ((v + 1) * 128 + g) gs

abbrev pub IsGroup : ℕ → Type 0
IsGroup g = g < 128

offset_value-ge : (v : ℕ) (gs : List ℕ) → v ≤ offset_value v gs
offset_value-ge v [] = omega arith
offset_value-ge v (g ∷ gs) = omega (arith, offset_value-ge ((v + 1) * 128 + g) gs)

offset_loop_stops : (b v : ℕ) (s : Bytes) → ltb b 128 ≡ true → offset_loop b v s ≡ some (v, s)
offset_loop_stops b v [] h = rw (h) refl
offset_loop_stops b v (c ∷ s) h = rw (h) refl

offset_loop_goes :
    (b c v w : ℕ) (s : Bytes)
    → ltb b 128 ≡ false
    → ((v + 1) * 128 + c % 128) % 2 ^ 64 ≡ w
    → offset_loop b v (c ∷ s) ≡ offset_loop c w s
offset_loop_goes b c v w s h p = rw (h, p) refl

not_last : (g : ℕ) → ltb (128 + g) 128 ≡ false
not_last g = ground arith

offset_loop-grouped :
    (v g : ℕ) (gs : List ℕ) (s : Bytes)
    → IsGroup g
    → All IsGroup gs
    → offset_value v gs < 9223372036854775808
    → (t : Bytes) × (b : ℕ) × (grouped g gs ++ s ≡ b ∷ t)
      × (b % 128 ≡ g)
      × (offset_loop b v t ≡ some (offset_value v gs, s))
offset_loop-grouped v g [] s p a h =
    (s, g, refl, omega arith, offset_loop_stops g v s (lt→ltb g 128 p))
offset_loop-grouped v g (k ∷ gs) s p a h =
    let w = (v + 1) * 128 + k in
    let (t, b, e, m, q) = offset_loop-grouped w k gs s a.0 a.1 h in
    (
      grouped k gs ++ s,
      128 + g,
      refl,
      omega arith,
      ap (offset_loop (128 + g) v) e
          ∙ (offset_loop_goes (128 + g) b v w t (not_last g) (omega (arith, offset_value-ge w gs))
              ∙ q),
    )

ofs_at : (b g : ℕ) (t : Bytes) → b % 128 ≡ g → read_ofs_delta_offset (b ∷ t) ≡ offset_loop b g t
unfolding read_ofs_delta_offset
ofs_at b g t h = rw (h) refl

-- An offset written in groups of seven bits, where each group after the first counts from 1, is read
-- back, and what follows it is left, as long as it is below 2^63.
pub read_ofs_delta_offset-grouped :
    (g : ℕ) (gs : List ℕ) (s : Bytes)
    → IsGroup g
    → All IsGroup gs
    → offset_value g gs < 9223372036854775808
    → read_ofs_delta_offset (grouped g gs ++ s) ≡ some (offset_value g gs, s)
read_ofs_delta_offset-grouped g gs s p a h =
    let (t, b, e, m, q) = offset_loop-grouped g g gs s p a h in
    ap read_ofs_delta_offset e ∙ (ofs_at b g t m ∙ q)

skip_stops : (b : ℕ) (s : Bytes) → ltb b 128 ≡ true → skip_number (b ∷ s) ≡ done s
skip_stops b s h = rw (h) refl

skip_goes : (b : ℕ) (s : Bytes) → ltb b 128 ≡ false → skip_number (b ∷ s) ≡ skip_number s
skip_goes b s h = rw (h) refl

skip_number-grouped :
    (g : ℕ) (gs : List ℕ) (s : Bytes)
    → IsGroup g
    → All IsGroup gs
    → skip_number (grouped g gs ++ s) ≡ done s
skip_number-grouped g [] s p a = skip_stops g s (lt→ltb g 128 p)
skip_number-grouped g (h ∷ gs) s p a =
    skip_goes (128 + g) (grouped h gs ++ s) (not_last g) ∙ skip_number-grouped h gs s a.0 a.1

-- The data of a delta, two numbers in groups of seven bits and then commands as git writes them, is
-- read as these commands, when each command fits the format: four bytes for an offset, three for the
-- size of a copy, which is not 0, and at most 127 bytes of data.
pub delta_commands-encode_all :
    (g k : ℕ) (gs ks : List ℕ) (cs : List DeltaCommand)
    → IsGroup g × All IsGroup gs
    → IsGroup k × All IsGroup ks
    → All IsEncodable cs
    → delta_commands (grouped g gs ++ (grouped k ks ++ encode_all cs)) ≡ done (some cs)
unfolding delta_commands
delta_commands-encode_all g k gs ks cs p q v =
    ap (λ r. in_run r λ s. in_run (skip_number s) parse_delta_command_list)
      (skip_number-grouped g gs (grouped k ks ++ encode_all cs) p.0 p.1)
    ∙ (ap (λ r. in_run r parse_delta_command_list)
          (skip_number-grouped k ks (encode_all cs) q.0 q.1)
        ∙ parse_delta_command_list-encode_all cs v)
