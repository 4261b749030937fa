-- ===== src/Pdu/Center.antt =====
-- The address of the service center, from `pdu_build` to `pdu_parse_sca` of src/pdu.c.
use asterisk_chan_quectel.Prelude.{
  ℕ, suc, ◌+◌, ◌-◌, ◌*◌, ◌/◌, ◌^◌, ◌≤◌, ◌<◌, ◌≡◌, refl, true, false, none, some, List, [], ◌∷◌,
  ◌++◌, arith, ltb, ◌==◌, length, All, u8, sub_size,
}
use mathlib.Core.Option.{some-injective}
use mathlib.Core.Path.{subst}
use asterisk_chan_quectel.Pdu.{pdu_parse_number, put_byte}
use asterisk_chan_quectel.Pdu.Numbers.{IsDigit, pdu_parse_number_stored}
use asterisk_chan_quectel.Pdu.Build.{sca_bytes}
use asterisk_chan_quectel.Pdu.Report.{pdu_parse_sca}

-- The address of a service center that `pdu_build` has put in front, of one to 250 digits, `*`, `#`,
-- `A`, `B` and `C`, is read back by `pdu_parse_sca` with a `+` in front, and as many bytes are read as
-- were put. The caller has room for three characters more, and the bytes behind the address, fewer
-- than 2 ^ 32, are at least as many as those of its digits: the check of the space counts a byte for
-- each digit.
pub pdu_parse_sca-sca_bytes :
    (utf8 : List ℕ → ℕ → List ℕ) (sca_len c : ℕ) (cs rest : List ℕ)
    → All IsDigit (c ∷ cs)
    → length (c ∷ cs) ≤ 250
    → length (c ∷ cs) + 3 ≤ sca_len
    → (length (c ∷ cs) + 1) / 2 ≤ length rest
    → length rest < 2 ^ 32
    → (bytes : List ℕ) × (sca_bytes (c ∷ cs) ≡ some bytes)
      × (pdu_parse_sca utf8 (bytes ++ rest) sca_len ≡ some (length bytes, b'+' ∷ c ∷ cs))
unfolding sca_bytes pdu_parse_sca
pdu_parse_sca-sca_bytes utf8 sca_len c cs rest digits size room behind few =
    let n = length (c ∷ cs) in
    let first = u8 (1 + (n + 1) / 2) in
    let count = (first - 1) * 2 in
    let (bytes, stored, read) =
      pdu_parse_number_stored utf8 0x91 sca_len count (c ∷ cs) rest digits (omega arith)
        (omega (arith, size)) (omega (arith, size)) (omega (arith, size, room)) behind few in
    let not_empty : (first == 0) ≡ false = ground (arith, size) in
    let up : length bytes + 1 ≡ suc (length bytes) = omega arith in
    (first ∷ bytes, rw stored (unfold put_byte in refl), rw (not_empty, read, up) refl)

-- A message without the address of a service center, as `pdu_build` puts it where it is handed none,
-- is refused by `pdu_parse_sca`, whatever follows, in one byte or more and fewer than 2 ^ 31.
pub pdu_parse_sca_refuses_none :
    (utf8 : List ℕ → ℕ → List ℕ) (sca_len : ℕ) (bytes rest : List ℕ)
    → sca_bytes [] ≡ some bytes
    → 0 < length rest
    → length rest < 2 ^ 31
    → pdu_parse_sca utf8 (bytes ++ rest) sca_len ≡ none
unfolding sca_bytes pdu_parse_sca pdu_parse_number
pdu_parse_sca_refuses_none utf8 sca_len bytes rest none_put some_rest few =
    let is = some-injective (0 ∷ []) bytes none_put in
    let space : ltb sca_len 0 ≡ false = ground arith in
    let over : ltb (sub_size (length rest) 1) 0xfffffffe ≡ true = ground (arith, some_rest, few) in
    subst (λ b. pdu_parse_sca utf8 (b ++ rest) sca_len ≡ none) is (rw (space, over) refl)
