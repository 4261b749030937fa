-- ===== src/CharConv/Pack.antt =====
-- `gsm7_pack` and `gsm7_unpack_decode` of src/char_conv.c: septets one behind the other in bytes. A
-- size of a buffer is an argument, and -1 is `none`.
use asterisk_chan_quectel.Prelude.{
  ℕ, zero, suc, ◌+◌, ◌-◌, ◌*◌, ◌/◌, ◌%◌, ◌^◌, Bool, false, ◌||◌, Option, none, some, List, [], ◌∷◌,
  ◌++◌, ltb, leb, ◌==◌, if◌then◌else◌, sub_u32, bit_and, bit_or, length, get_or, take,
}
use asterisk_chan_quectel.CharConv.LutLs.{lut_gsm7_ls16}
use asterisk_chan_quectel.CharConv.LutSs.{lut_gsm7_ss16}

-- The septets of a unit that `gsm7_encode` gave: one, or two where the first byte is not 0.
unfoldable pub unit_septets : ℕ → List ℕ
unit_septets u =
    let c0 = bit_and u 0xff00 / 256 in
    let c1 = bit_and u 0x00ff in
    if c0 == 0 then bit_and c1 0x7f ∷ [] else bit_and c0 0x7f ∷ bit_and c1 0x7f ∷ []

unfoldable pub septets_of : List ℕ → List ℕ
unfolding unit_septets
septets_of [] = []
septets_of (u ∷ us) = unit_septets u ++ septets_of us

-- The bytes that are put out from here on, and `out_padding` at the end.
unfoldable pub pack_loop : List ℕ → ℕ → ℕ → List ℕ × ℕ
pack_loop [] value pad = (if pad == 0 then [] else bit_and value 0xff ∷ [], pad)
pack_loop (s ∷ ss) value pad =
    let value' = bit_or value (s * 2 ^ pad) in
    let full = leb 8 (pad + 7) in
    let rest =
      pack_loop ss (if full then value' / 256 else value')
        (if full then pad + 7 - 8 else pad + 7) in
    (if full then bit_and value' 0xff ∷ rest.0 else rest.0, rest.1)

-- The number of nibbles that is returned, and the bytes.
unfoldable pub gsm7_pack : List ℕ → ℕ → ℕ → Option (ℕ × List ℕ)
unfolding septets_of pack_loop
gsm7_pack us out_size out_padding =
    if ltb out_size ((out_padding + 7 * length us + 7) / 8 + 1)
    then none
    else (let (out, pad) = pack_loop (septets_of us) 0 out_padding in
        some (length out * 2 - (if pad == 1 || pad == 2 || pad == 3 then 1 else 0), out))

-- `in[i / 2]` and its nibble, for each `i`.
unfoldable pub nibbles_of : List ℕ → List ℕ
nibbles_of [] = []
nibbles_of (b ∷ bs) = bit_and b 15 ∷ bit_and (b / 16) 15 ∷ nibbles_of bs

-- `while (in_padding >= 7 * 2)`, with fuel: the septets that are ready.
unfoldable pub drain : ℕ → ℕ → ℕ → List ℕ × ℕ × ℕ
drain zero value pad = ([], value, pad)
drain (suc fuel) value pad =
    let rest = drain fuel (value / 128) (pad - 7) in
    if leb 14 pad then (bit_and (value / 128) 0x7f ∷ rest.0, rest.1, rest.2) else ([], value, pad)

-- `LUT_GSM7_LS16[ls][c]` and `LUT_GSM7_SS16[ss][c]`
unfoldable pub ls_code : ℕ → ℕ → ℕ
unfolding lut_gsm7_ls16
ls_code ls c = get_or (get_or lut_gsm7_ls16 ls []) c 0

unfoldable pub ss_code : ℕ → ℕ → ℕ
unfolding lut_gsm7_ss16
ss_code ss c = get_or (get_or lut_gsm7_ss16 ss []) c 0

-- `big_endian_16` on a little-endian host.
unfoldable pub big_endian_16 : ℕ → ℕ
big_endian_16 v = v % 256 * 256 + v / 256

-- The units for some septets, and `esc` behind them.
unfoldable pub decode_septets : ℕ → ℕ → Bool → List ℕ → List ℕ × Bool
decode_septets ls ss esc [] = ([], esc)
decode_septets ls ss esc (s ∷ septets) =
    let val = if esc then ss_code ss s else ls_code ls s in
    let rest = decode_septets ls ss (val == 0x1b) septets in
    (if val == 0x1b then rest.0 else big_endian_16 val ∷ rest.0, rest.1)

-- The units that the rest of the text gives, in front of which those found go.
unfoldable pub prepend : List ℕ → Option (List ℕ) → Option (List ℕ)
prepend found none = none
prepend found (some out) = some (found ++ out)

-- The loop over the nibbles; `x` is the number of units put out.
unfoldable pub unpack_loop : ℕ → ℕ → ℕ → List ℕ → ℕ → ℕ → Bool → ℕ → Option (List ℕ)
unfolding drain decode_septets prepend
unpack_loop ls ss out_size [] value pad esc x = some []
unpack_loop ls ss out_size (n ∷ ns) value pad esc x =
    let (ready, value', pad') = drain (pad + 4) (bit_or value (n * 2 ^ pad)) (pad + 4) in
    let (found, esc') = decode_septets ls ss esc ready in
    let rest = unpack_loop ls ss out_size ns value' pad' esc' (x + length found) in
    if leb out_size x then none else prepend found rest

unfoldable pub gsm7_unpack_decode : List ℕ → ℕ → ℕ → ℕ → ℕ → ℕ → Option (List ℕ)
unfolding nibbles_of unpack_loop
gsm7_unpack_decode bytes in_nibbles out_size in_padding ls ss =
    let ls' = if ltb 13 ls then 0 else ls in
    let ss' = if ltb 13 ss then 0 else ss in
    if out_size == 0
    then none
    else (if ltb in_nibbles 2
        then some []
        else unpack_loop ls' ss' out_size (take in_nibbles (nibbles_of bytes)) 0
            (sub_u32 7 in_padding) false 0)
