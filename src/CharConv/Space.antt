-- ===== src/CharConv/Space.antt =====
-- `gsm7_pack` of src/char_conv.c: the bytes that it writes and the size that it checks.
use asterisk_chan_quectel.Prelude.{
  ℕ, ◌+◌, ◌-◌, ◌*◌, ◌/◌, ◌%◌, ◌≤◌, ◌<◌, ◌≡◌, refl, false, some, List, [], ◌∷◌, ltb, ◌==◌, ◌&&◌,
  if◌then◌else◌, bit_and, length, All, arith, high_byte, length-append,
}
use asterisk_chan_quectel.CharConv.Pack.{unit_septets, septets_of, pack_loop, gsm7_pack}
use asterisk_chan_quectel.CharConv.Septets.{pack_loop-length}
use asterisk_chan_quectel.CharConv.RoundTrip.{nibble_count, packed}

-- With a padding of less than eight bits, `gsm7_pack` writes as many bytes as the padding and the
-- septets fill, the last one in part, and returns their number of nibbles, one fewer where one to
-- three bits of the last byte are used.
pub length-gsm7_pack :
    (us bytes : List ℕ) (size pad k : ℕ)
    → pad < 8
    → gsm7_pack us size pad ≡ some (k, bytes)
    → let bits = pad + 7 * length (septets_of us) in
      (length bytes ≡ (bits + 7) / 8)
      × (k ≡ 2 * length bytes - (if ltb 0 (bits % 8) && ltb (bits % 8) 4 then 1 else 0))
length-gsm7_pack us bytes size pad k h done =
    let (out, count) = packed us size pad k bytes done in
    let (l, over) = pack_loop-length (septets_of us) 0 pad h in rw out (l, ground arith)

-- A unit of two septets.
abbrev pub IsEscaped : ℕ → Type 0
IsEscaped u = (u < 65536) × (256 ≤ u)

two_septets : (u : ℕ) → IsEscaped u → length (unit_septets u) ≡ 2
unfolding unit_septets
two_septets u (h, k) =
    let c0 = high_byte u h in
    let marked : (bit_and u 0xff00 / 256 == 0) ≡ false = ground (arith, c0) in rw marked refl

All-two_septets : (us : List ℕ) → All IsEscaped us → length (septets_of us) ≡ 2 * length us
unfolding septets_of
All-two_septets [] h = refl
All-two_septets (u ∷ us) (h, hs) =
    omega (
      arith,
      two_septets u h,
      length-append (unit_septets u) (septets_of us),
      All-two_septets us hs,
    )

-- The size check of `gsm7_pack` counts one septet for each unit: for three or more units, all
-- behind the escape, and a padding of less than eight bits, the smallest buffer that it lets pass
-- is smaller than what is written.
pub gsm7_pack_overruns :
    (us : List ℕ) (pad : ℕ)
    → pad < 8
    → All IsEscaped us
    → 3 ≤ length us
    → let size = (pad + 7 * length us + 7) / 8 + 1 in
      (k : ℕ) × (bytes : List ℕ) × (gsm7_pack us size pad ≡ some (k, bytes)) × (size < length bytes)
unfolding gsm7_pack
gsm7_pack_overruns us pad h all many =
    let size = (pad + 7 * length us + 7) / 8 + 1 in
    let r = pack_loop (septets_of us) 0 pad in
    let (l, over) = pack_loop-length (septets_of us) 0 pad h in
    let two = All-two_septets us all in
    let passes : ltb size size ≡ false = ground arith in
    (nibble_count (length (r.0)) (r.1), r.0, rw passes refl, omega arith)
