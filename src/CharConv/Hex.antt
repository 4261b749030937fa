-- ===== src/CharConv/Hex.antt =====
-- `unhex` and `hexify` of src/char_conv.c together.
use asterisk_chan_quectel.Prelude.{
  ℕ, suc, ◌+◌, ◌*◌, ◌/◌, ◌<◌, ◌≡◌, refl, ap, ◌∙◌, Bool, true, false, Option, none, some, List, [],
  ◌∷◌, arith, ◌==◌, bit_and, length, All, all_below, all_below_sound,
}
use asterisk_chan_quectel.CharConv.{hexchar2val, val2hexchar, join_digits, cons_byte, unhex, hexify}

unfoldable holds_byte : Option ℕ → ℕ → Bool
holds_byte none v = false
holds_byte (some x) v = x == v

holds_byte_sound : (o : Option ℕ) (v : ℕ) → holds_byte o v ≡ true → o ≡ some v
unfolding holds_byte
holds_byte_sound none v h = ground arith
holds_byte_sound (some x) v h = ground arith

-- The two digits of a byte, read back.
unfoldable byte_again : ℕ → Option ℕ
byte_again b =
    join_digits (hexchar2val (val2hexchar (b / 16))) (hexchar2val (val2hexchar (bit_and b 15)))

bytes_again : all_below 256 (λ b. holds_byte (byte_again b) b) ≡ true
unfolding all_below holds_byte byte_again join_digits hexchar2val val2hexchar
bytes_again = refl

byte_again_lem : (b : ℕ) → b < 256 → byte_again b ≡ some b
byte_again_lem b h =
    holds_byte_sound (byte_again b) b
      (all_below_sound 256 (λ b. holds_byte (byte_again b) b) b bytes_again h)

unhex-digits :
    (b : ℕ) (bs : List ℕ) → unhex (hexify (b ∷ bs)) ≡ cons_byte (byte_again b) 2 (unhex (hexify bs))
unfolding unhex hexify byte_again
unhex-digits b bs = refl

-- The text that `hexify` writes for a list of bytes is read back by `unhex` as those bytes, and
-- the number of digits that it returns is twice the number of bytes.
pub unhex-hexify :
    (bs : List ℕ) → All (λ b. b < 256) bs → unhex (hexify bs) ≡ some (2 * length bs, bs)
unhex-hexify [] h = unfold unhex hexify in refl
unhex-hexify (b ∷ bs) (h, hs) =
    unhex-digits b bs
    ∙ rw (byte_again_lem b h) (
        rw (unhex-hexify bs hs) (
          unfold cons_byte in
          ap (λ n. some (n, b ∷ bs)) {x = 2 + 2 * length bs} {y = 2 * suc (length bs)}
            (omega arith)))
