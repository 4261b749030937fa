-- ===== src/Pdu/Numbers.antt =====
-- `pdu_store_number` and `pdu_parse_number` of src/pdu.c together.
use mathlib.Core.Option.{some-injective}
use asterisk_chan_quectel.Prelude.{
  ℕ, suc, ◌+◌, ◌*◌, ◌/◌, ◌%◌, ◌^◌, ◌≤◌, ◌<◌, ◌≡◌, ◌≢◌, refl, ap, sym, ◌∙◌, Bool, true, false, ◌&&◌,
  ◌||◌, none, some, List, [], ◌∷◌, ◌++◌, ltb, ◌==◌, if◌then◌else◌, bit_and, bit_or, length, All,
  arith, all_below, all_below_sound, sub_size, ==_iff, length-append,
}
use asterisk_chan_quectel.Pdu.{
  pdu_digit2code, pdu_code2digit, store_digits, put_byte, pdu_store_number, parse_digits, ton_of,
  pdu_parse_number,
}

-- A character of a number as `pdu_code2digit` writes it.
abbrev pub IsDigit : ℕ → Type 0
IsDigit x = (pdu_digit2code x < 15) × (pdu_code2digit (pdu_digit2code x) ≡ x)

-- Two codes of a byte, each as it is read.
unfoldable pair_reads : ℕ → ℕ → Bool
pair_reads a b = bit_and (bit_or a (b * 16)) 0xf == a && bit_or a (b * 16) / 16 == b

pairs_read : all_below 15 (λ a. all_below 16 (λ b. pair_reads a b)) ≡ true
unfolding all_below pair_reads
pairs_read = refl

pair_read :
    (a b : ℕ)
    → a < 15
    → b < 16
    → (bit_and (bit_or a (b * 16)) 0xf ≡ a) × (bit_or a (b * 16) / 16 ≡ b)
unfolding pair_reads
pair_read a b h k =
    let inner = all_below_sound 15 (λ a. all_below 16 (λ b. pair_reads a b)) a pairs_read h in
    let both = all_below_sound 16 (λ b. pair_reads a b) b inner k in
    (ground (arith, both), ground (arith, both))

parse_pair :
    (x y rounds : ℕ) (rest : List ℕ)
    → IsDigit x
    → IsDigit y
    → parse_digits (suc rounds) (bit_or (pdu_digit2code x) (pdu_digit2code y * 16) ∷ rest)
      ≡ x ∷ y ∷ parse_digits rounds rest
unfolding parse_digits
parse_pair x y rounds rest (h, same) (k, same') =
    let (low, high) = pair_read (pdu_digit2code x) (pdu_digit2code y) h (omega arith) in
    let full : (pdu_digit2code y == 0xf) ≡ false = ground arith in
    rw (low, high, full, same, same') refl

parse_last :
    (x rounds : ℕ) (rest : List ℕ)
    → IsDigit x
    → parse_digits (suc rounds) (bit_or (pdu_digit2code x) 0xf0 ∷ rest)
      ≡ x ∷ parse_digits rounds rest
unfolding parse_digits
parse_last x rounds rest (h, same) =
    let (low, high) = pair_read (pdu_digit2code x) 15 h (omega arith) in rw (low, high, same) refl

-- The stored bytes of a number, with others behind them.
store_digits-parse :
    (number rest : List ℕ)
    → All IsDigit number
    → (bytes : List ℕ) × (store_digits number ≡ some bytes)
      × (length bytes ≡ (length number + 1) / 2)
      × (parse_digits (length bytes) (bytes ++ rest) ≡ number)
unfolding store_digits
store_digits-parse [] rest h = ([], refl, refl, unfold parse_digits in refl)
store_digits-parse (x ∷ []) rest (h, hs) =
    let good : (pdu_digit2code x == 255) ≡ false = ground arith in
    (
      bit_or (pdu_digit2code x) 0xf0 ∷ [],
      rw good refl,
      refl,
      parse_last x 0 rest h ∙ unfold parse_digits in refl,
    )
store_digits-parse (x ∷ y ∷ number) rest (h, (k, hs)) =
    let (bytes, stored, size, same) = store_digits-parse number rest hs in
    let good : (pdu_digit2code x == 255 || pdu_digit2code y == 255) ≡ false = ground arith in
    (
      bit_or (pdu_digit2code x) (pdu_digit2code y * 16) ∷ bytes,
      rw (good, stored) (unfold put_byte in refl),
      omega (arith, size),
      parse_pair x y (length bytes) (bytes ++ rest) h k ∙ ap (λ t. x ∷ y ∷ t) same,
    )

round_up_table : all_below 256 (λ d. bit_and (d + 1) 0xfffffffe == 2 * ((d + 1) / 2)) ≡ true
unfolding all_below
round_up_table = refl

round_up : (d : ℕ) → d < 256 → bit_and (d + 1) 0xfffffffe ≡ 2 * ((d + 1) / 2)
round_up d h =
    (==_iff (bit_and (d + 1) 0xfffffffe) (2 * ((d + 1) / 2))).0 (
      all_below_sound 256 (λ d. bit_and (d + 1) 0xfffffffe == 2 * ((d + 1) / 2)) d round_up_table h)

not_ltb : (a b : ℕ) → b ≤ a → ltb a b ≡ false
not_ltb a b h = ground arith

is_ltb : (a b : ℕ) → a < b → ltb a b ≡ true
is_ltb a b h = ground arith

-- The number is read back, whether its count of digits or the next even one is given.
pub pdu_parse_number_stored :
    (utf8 : List ℕ → ℕ → List ℕ) (toa num_len count : ℕ) (number rest : List ℕ)
    → All IsDigit number
    → ton_of toa ≢ 0x50
    → (count + 1) / 2 ≡ (length number + 1) / 2
    → count < 256
    → count + 2 ≤ num_len
    → (length number + 1) / 2 ≤ length rest
    → length rest < 2 ^ 32
    → (bytes : List ℕ) × (pdu_store_number toa number ≡ some bytes)
      × (pdu_parse_number utf8 (bytes ++ rest) count num_len
          ≡ some (length bytes, if ton_of toa == 0x10 then b'+' ∷ number else number))
pdu_parse_number_stored utf8 toa num_len count number rest digits plain as_many size room behind
      few =
    let (bytes, stored, held_by, same) = store_digits-parse number rest digits in
    let pdu = toa ∷ bytes ++ rest in
    let syms : bit_and (count + 1) 0xfffffffe ≡ 2 * length bytes =
      omega (arith, round_up count size) in
    let space : ltb num_len ((count + 2) % 2 ^ 32) ≡ false = ground (arith, size, room) in
    let left : sub_size (length pdu) 1 ≡ length bytes + length rest =
      omega (arith, length-append bytes rest) in
    let held = not_ltb (length bytes + length rest) (2 * length bytes) (omega arith) in
    let digits_only : (ton_of toa == 0x50) ≡ false = ground arith in
    let half : 2 * length bytes / 2 ≡ length bytes = omega arith in
    let up : 1 + length bytes ≡ suc (length bytes) = omega arith in
    (
      toa ∷ bytes,
      unfold pdu_store_number in rw stored (unfold put_byte in refl),
      unfold pdu_parse_number in rw (space, syms, left, held, digits_only, half, same, up) refl,
    )

-- A number of fewer than 256 digits, `*`, `#`, `A`, `B` and `C` that `pdu_store_number` has
-- stored, with a type of address that is not alphanumeric, is read back by `pdu_parse_number`,
-- with a `+` in front where the type is international, and as many bytes are read as were stored.
-- The caller has room for two characters more, and the bytes behind the number, fewer than 2 ^
-- 32, are at least as many as its own without the type of address: the check of the space counts
-- a byte for each digit.
pub pdu_parse_number-pdu_store_number :
    (utf8 : List ℕ → ℕ → List ℕ) (toa num_len : ℕ) (number rest : List ℕ)
    → All IsDigit number
    → ton_of toa ≢ 0x50
    → length number < 256
    → length number + 2 ≤ num_len
    → (length number + 1) / 2 ≤ length rest
    → length rest < 2 ^ 32
    → (bytes : List ℕ) × (pdu_store_number toa number ≡ some bytes)
      × (pdu_parse_number utf8 (bytes ++ rest) (length number) num_len
          ≡ some (length bytes, if ton_of toa == 0x10 then b'+' ∷ number else number))
pdu_parse_number-pdu_store_number utf8 toa num_len number rest digits plain size room behind few =
    pdu_parse_number_stored utf8 toa num_len (length number) number rest digits plain refl size room
      behind few

-- Where fewer bytes stand behind a stored number of fewer than 256 digits than it has itself,
-- without the type of address, `pdu_parse_number` refuses it, though the number is there whole
-- and the caller has room for it.
pub pdu_parse_number_refuses :
    (utf8 : List ℕ → ℕ → List ℕ) (toa num_len : ℕ) (number bytes rest : List ℕ)
    → All IsDigit number
    → length number < 256
    → length number + 2 ≤ num_len
    → pdu_store_number toa number ≡ some bytes
    → length rest < (length number + 1) / 2
    → pdu_parse_number utf8 (bytes ++ rest) (length number) num_len ≡ none
pdu_parse_number_refuses utf8 toa num_len number bytes rest digits size room done short =
    let (stored_bytes, stored, count, same) = store_digits-parse number rest digits in
    let whole : pdu_store_number toa number ≡ some (toa ∷ stored_bytes) =
      unfold pdu_store_number in rw stored (unfold put_byte in refl) in
    let is : bytes ≡ toa ∷ stored_bytes =
      some-injective bytes (toa ∷ stored_bytes) (sym done ∙ whole) in
    let pdu = toa ∷ stored_bytes ++ rest in
    let syms : bit_and (length number + 1) 0xfffffffe ≡ 2 * length stored_bytes =
      omega (arith, round_up (length number) size) in
    let space : ltb num_len ((length number + 2) % 2 ^ 32) ≡ false = ground (arith, size, room) in
    let left : sub_size (length pdu) 1 ≡ length stored_bytes + length rest =
      omega (arith, length-append stored_bytes rest) in
    let held : ltb (length stored_bytes + length rest) (2 * length stored_bytes) ≡ true =
      is_ltb (length stored_bytes + length rest) (2 * length stored_bytes) (omega arith) in
    rw is (unfold pdu_parse_number in rw (space, syms, left, held) refl)
