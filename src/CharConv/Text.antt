-- ===== src/CharConv/Text.antt =====
-- A text of UTF-16 units through src/char_conv.c: `gsm7_encode`, `gsm7_pack` and `gsm7_unpack_decode`.
use asterisk_chan_quectel.Prelude.{
  ℕ, ◌+◌, ◌-◌, ◌*◌, ◌/◌, ◌%◌, ◌≤◌, ◌<◌, ◌≡◌, ◌≢◌, refl, ap, sym, ◌∙◌, true, false, Option, none,
  some, inl, inr, List, [], ◌∷◌, ◌++◌, ltb, ◌==◌, if◌then◌else◌, bit_and, bit_or, length, All,
  arith, low7, low8, high_byte, all_below, all_below_sound, ==_iff, Bool-cases, length-append,
}
use asterisk_chan_quectel.CharConv.{
  gsm7_encode, get_char_gsm7_encoding, gsm7_invalid, cons_code, rev_subtab, rev_row,
}
use asterisk_chan_quectel.CharConv.Alphabet.{decode_code, decode_code-get_char_gsm7_encoding}
use asterisk_chan_quectel.CharConv.Pack.{
  unit_septets, septets_of, gsm7_pack, decode_septets, gsm7_unpack_decode, ls_code, ss_code,
  big_endian_16,
}
use asterisk_chan_quectel.CharConv.RoundTrip.{gsm7_unpack_decode-gsm7_pack}

-- A UTF-16 unit, as a little-endian host reads it, other than the escape character.
abbrev pub IsUnit : ℕ → Type 0
IsUnit u = (u < 65536) × (u ≢ 0x1b00)

escape_code : get_char_gsm7_encoding 0x1b00 ≡ 27
unfolding get_char_gsm7_encoding rev_subtab rev_row
escape_code = refl

escape_unit : ls_code 0 27 ≡ 27
unfolding ls_code
escape_unit = refl

-- A code behind the escape in its two bytes.
escaped_table : all_below 128 (λ v. bit_or 6912 v == 6912 + v) ≡ true
unfolding all_below
escaped_table = refl

escaped : (v : ℕ) → v < 128 → bit_or 6912 v ≡ 6912 + v
escaped v h =
    (==_iff (bit_or 6912 v) (6912 + v)).0
      (all_below_sound 128 (λ v. bit_or 6912 v == 6912 + v) v escaped_table h)

big_endian_again : (u : ℕ) → u < 65536 → big_endian_16 (u % 256 * 256 + u / 256) ≡ u
unfolding big_endian_16
big_endian_again u h = omega arith

unit_septets_plain : (c : ℕ) → c ≤ 127 → unit_septets c ≡ c ∷ []
unfolding unit_septets
unit_septets_plain c h =
    let c0 : bit_and c 0xff00 / 256 ≡ 0 = omega (arith, high_byte c (omega arith)) in
    let c1 : bit_and c 0x00ff ≡ c = omega (arith, low8 c) in
    let low : bit_and c 0x7f ≡ c = omega (arith, low7 c) in rw (c0, c1, low) refl

unit_septets_escaped : (v : ℕ) → v < 128 → unit_septets (6912 + v) ≡ 27 ∷ v ∷ []
unfolding unit_septets
unit_septets_escaped v h =
    let c0 : bit_and (6912 + v) 0xff00 / 256 ≡ 27 =
      omega (arith, high_byte (6912 + v) (omega arith)) in
    let c1 : bit_and (6912 + v) 0x00ff ≡ v = omega (arith, low8 (6912 + v)) in
    let low : bit_and v 0x7f ≡ v = omega (arith, low7 v) in rw (c0, c1, low) refl

-- The septets of the unit's code, read back in front of others.
abbrev Reads : ℕ → ℕ → Type 0
Reads u code =
    (rest : List ℕ)
    → (decode_septets 0 0 false (unit_septets code ++ rest)).0
      ≡ u ∷ (decode_septets 0 0 false rest).0

Reads-plain : (u c : ℕ) → IsUnit u → c ≤ 127 → ls_code 0 c ≡ u % 256 * 256 + u / 256 → Reads u c
Reads-plain u c (h, e) small is = λ rest.
    let septets : unit_septets c ≡ c ∷ [] = unit_septets_plain c small in
    let other : (ls_code 0 c == 0x1b) ≡ false = ground arith in
    rw septets (unfold decode_septets in rw (other, is, big_endian_again u h) refl)

Reads-escaped :
    (u v : ℕ) → IsUnit u → v < 128 → ss_code 0 v ≡ u % 256 * 256 + u / 256 → Reads u (6912 + v)
Reads-escaped u v (h, e) small is = λ rest.
    let septets : unit_septets (6912 + v) ≡ 27 ∷ v ∷ [] = unit_septets_escaped v small in
    let other : (ss_code 0 v == 0x1b) ≡ false = ground arith in
    rw septets (unfold decode_septets in rw (escape_unit, other, is, big_endian_again u h) refl)

-- What `gsm7_encode` makes of one unit.
abbrev code_of : ℕ → ℕ
code_of c = if ltb 127 c then bit_or (get_char_gsm7_encoding 0x1b00 * 256) (c - 128) else c

decode_high : (c : ℕ) → ltb 127 c ≡ true → decode_code c ≡ ss_code 0 (c - 128)
unfolding decode_code
decode_high c h = ground arith

decode_low : (c : ℕ) → ltb 127 c ≡ false → decode_code c ≡ ls_code 0 c
unfolding decode_code
decode_low c h = ground arith

Reads-code :
    (u : ℕ)
    → IsUnit u
    → get_char_gsm7_encoding u ≢ gsm7_invalid
    → Reads u (code_of (get_char_gsm7_encoding u))
Reads-code u (h, e) valid =
    let c = get_char_gsm7_encoding u in
    let (is, byte) = decode_code-get_char_gsm7_encoding u h valid in
    elim (Bool-cases (ltb 127 c)) [
      | inl high ↦
          let found : ss_code 0 (c - 128) ≡ u % 256 * 256 + u / 256 =
            sym (decode_high c high) ∙ is in
          let code : bit_or (get_char_gsm7_encoding 0x1b00 * 256) (c - 128) ≡ 6912 + (c - 128) =
            ap (λ k. bit_or (k * 256) (c - 128)) escape_code ∙ escaped (c - 128) (ground arith) in
          rw (high, code) (Reads-escaped u (c - 128) (h, e) (ground arith) found)
      | inr low ↦
          let found : ls_code 0 c ≡ u % 256 * 256 + u / 256 = sym (decode_low c low) ∙ is in
          rw low (Reads-plain u c (h, e) (ground arith) found)
    ]

-- What the code of one unit and the rest of the text must have been.
abbrev Encoded : ℕ → Option (ℕ × List ℕ) → ℕ → List ℕ → Type 0
Encoded c rest n codes =
    (c ≢ gsm7_invalid)
    × ((k : ℕ) × (r : List ℕ) × (rest ≡ some (k, r))
        × (codes ≡ code_of c ∷ r)
        × (n ≡ (if ltb 127 c then 2 else 1) + k))

inverted :
    (c : ℕ) (rest : Option (ℕ × List ℕ)) (n : ℕ) (codes : List ℕ)
    → (if c == gsm7_invalid
        then none
        else (if ltb 127 c
            then cons_code 2 (bit_or (get_char_gsm7_encoding 0x1b00 * 256) (c - 128)) rest
            else cons_code 1 c rest))
      ≡ some (n, codes)
    → Encoded c rest n codes
unfolding cons_code
inverted c none n codes h = absurd (ground arith)
inverted c (some (k, r)) n codes h = (ground arith, (k, r, refl, ground arith, ground arith))

encoded :
    (u : ℕ) (us codes : List ℕ) (n : ℕ)
    → gsm7_encode (u ∷ us) ≡ some (n, codes)
    → Encoded (get_char_gsm7_encoding u) (gsm7_encode us) n codes
unfolding gsm7_encode
encoded u us codes n h = inverted (get_char_gsm7_encoding u) (gsm7_encode us) n codes h

code_septets :
    (u : ℕ)
    → IsUnit u
    → get_char_gsm7_encoding u ≢ gsm7_invalid
    → let c = get_char_gsm7_encoding u in
      length (unit_septets (code_of c)) ≡ (if ltb 127 c then 2 else 1)
code_septets u (h, e) valid =
    let c = get_char_gsm7_encoding u in
    let (is, byte) = decode_code-get_char_gsm7_encoding u h valid in
    elim (Bool-cases (ltb 127 c)) [
      | inl high ↦
          let code : bit_or (get_char_gsm7_encoding 0x1b00 * 256) (c - 128) ≡ 6912 + (c - 128) =
            ap (λ k. bit_or (k * 256) (c - 128)) escape_code ∙ escaped (c - 128) (ground arith) in
          rw (high, code, unit_septets_escaped (c - 128) (ground arith)) refl
      | inr low ↦ rw (low, unit_septets_plain c (ground arith)) refl
    ]

decode-encode :
    (us codes : List ℕ) (n : ℕ)
    → All IsUnit us
    → gsm7_encode us ≡ some (n, codes)
    → ((decode_septets 0 0 false (septets_of codes)).0 ≡ us) × (n ≡ length (septets_of codes))
unfolding septets_of
decode-encode [] codes n all h =
    let empty : codes ≡ [] = unfold gsm7_encode in ground arith in
    let zero_n : n ≡ 0 = unfold gsm7_encode in ground arith in
    rw (empty, zero_n) (unfold decode_septets in (refl, refl))
decode-encode (u ∷ us) codes n (one, all) h =
    let (valid, (k, r, rest, code, count)) = encoded u us codes n h in
    let (again, length_r) = decode-encode us r k all rest in
    let c = code_of (get_char_gsm7_encoding u) in
    let read = Reads-code u one valid in
    rw code (
      read (septets_of r) ∙ ap (λ t. u ∷ t) again,
      omega (
        arith,
        length-append (unit_septets c) (septets_of r),
        code_septets u one valid,
        count,
        length_r,
      ),
    )

-- A text of one unit or more that `gsm7_encode` can encode and that has no escape character of
-- its own comes back from the whole way: encoded, packed with any padding of up to six bits into
-- a buffer that `gsm7_pack` accepts, and unpacked with the default tables, it is the same text,
-- given room for one unit more than there are septets. The number that `gsm7_encode` returns is
-- the number of septets.
pub gsm7_encode_round_trip :
    (us codes bytes : List ℕ) (n size out_size pad k : ℕ)
    → All IsUnit us
    → 0 < length codes
    → pad < 7
    → gsm7_encode us ≡ some (n, codes)
    → gsm7_pack codes size pad ≡ some (k, bytes)
    → n < out_size
    → (gsm7_unpack_decode bytes k out_size pad 0 0 ≡ some us) × (n ≡ length (septets_of codes))
gsm7_encode_round_trip us codes bytes n size out_size pad k all some_codes h enc done room =
    let (again, count) = decode-encode us codes n all enc in
    (
      gsm7_unpack_decode-gsm7_pack codes bytes size out_size pad k 0 0 h some_codes (omega arith)
            (omega arith) done (omega arith)
          ∙ ap some again,
      count,
    )
