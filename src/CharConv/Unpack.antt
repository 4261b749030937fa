-- ===== src/CharConv/Unpack.antt =====
-- The loop over the nibbles of `gsm7_unpack_decode` of src/char_conv.c, as arithmetic.
use asterisk_chan_quectel.Prelude.{
  ℕ, zero, suc, ◌+◌, ◌-◌, ◌*◌, ◌/◌, ◌%◌, ◌^◌, ◌≤◌, ◌<◌, ◌≡◌, refl, ap, sym, ◌∙◌, List, [], ◌∷◌,
  ◌++◌, bit_and, bit_or, length, All, arith, low7, bit_or-disjoint,
}
use native.Mathlib.Decide.{dec_le}
use asterisk_chan_quectel.CharConv.Pack.{drain}
use asterisk_chan_quectel.CharConv.Septets.{number, pow-add}

-- The first `c` digits of `t` to the base 128.
unfoldable pub digits : ℕ → ℕ → List ℕ
digits zero t = []
digits (suc c) t = t % 128 ∷ digits c (t / 128)

pub digits-number : (ss : List ℕ) → All (λ s. s < 128) ss → digits (length ss) (number 128 ss) ≡ ss
unfolding digits number
digits-number [] h = refl
digits-number (s ∷ ss) (h, hs) =
    let low : (s + 128 * number 128 ss) % 128 ≡ s = omega arith in
    let rest : (s + 128 * number 128 ss) / 128 ≡ number 128 ss = omega arith in
    rw (low, rest) (ap (λ t. s ∷ t) (digits-number ss hs))

-- The septets that the loop over the nibbles finds.
unfoldable pub stream : List ℕ → ℕ → ℕ → List ℕ
stream [] v p = []
stream (n ∷ ns) v p =
    let (ready, v', p') = drain (p + 4) (bit_or v (n * 2 ^ p)) (p + 4) in ready ++ stream ns v' p'

drain_waits : (f v p : ℕ) → p < 14 → drain (suc f) v p ≡ ([], v, p)
unfolding drain
drain_waits f v p h = ground arith

drain_gives :
    (f v p : ℕ)
    → 14 ≤ p
    → p < 21
    → drain (suc (suc f)) v p ≡ (bit_and (v / 128) 0x7f ∷ [], v / 128, p - 7)
unfolding drain
drain_gives f v p h k = ground arith

stream_waits :
    (n : ℕ) (ns : List ℕ) (v p : ℕ)
    → p + 4 < 14
    → stream (n ∷ ns) v p ≡ stream ns (bit_or v (n * 2 ^ p)) (p + 4)
unfolding stream
stream_waits n ns v p h =
    let fuel : p + 4 ≡ suc (p + 3) = omega arith in
    let d : drain (p + 4) (bit_or v (n * 2 ^ p)) (p + 4) ≡ ([], bit_or v (n * 2 ^ p), p + 4) =
      ap (λ f. drain f (bit_or v (n * 2 ^ p)) (p + 4)) fuel
      ∙ drain_waits (p + 3) (bit_or v (n * 2 ^ p)) (p + 4) h in
    ap (λ (r : List ℕ × ℕ × ℕ). r.0 ++ stream ns (r.1) (r.2)) d

stream_gives :
    (n : ℕ) (ns : List ℕ) (v p : ℕ)
    → 14 ≤ p + 4
    → p + 4 < 21
    → let v' = bit_or v (n * 2 ^ p) / 128 in
      stream (n ∷ ns) v p ≡ bit_and v' 0x7f ∷ stream ns v' (p + 4 - 7)
unfolding stream
stream_gives n ns v p h k =
    let fuel : p + 4 ≡ suc (suc (p + 2)) = omega arith in
    let d =
      ap (λ f. drain f (bit_or v (n * 2 ^ p)) (p + 4)) fuel
      ∙ drain_gives (p + 2) (bit_or v (n * 2 ^ p)) (p + 4) h k in
    ap (λ (r : List ℕ × ℕ × ℕ). r.0 ++ stream ns (r.1) (r.2)) d

nibble_room : (v n p : ℕ) → v < 2 ^ p → n < 16 → bit_or v (n * 2 ^ p) < 16 * 2 ^ p
nibble_room v n p small b =
    let top : n * 2 ^ p + 2 ^ p ≤ 16 * 2 ^ p = grind arith in
    omega (arith, bit_or-disjoint p v n small)

-- The septets are digits of the number that the nibbles stand for, from the seventh bit on.
pub stream-digits :
    (ns : List ℕ) (v p : ℕ)
    → All (λ n. n < 16) ns
    → p < 14
    → v < 2 ^ p
    → stream ns v p ≡ digits ((p + 4 * length ns) / 7 - 1) ((v + 2 ^ p * number 16 ns) / 128)
unfolding number
stream-digits [] v p all h small =
    let none_ready : (p + 4 * 0) / 7 - 1 ≡ 0 = omega arith in
    rw none_ready (unfold stream digits in refl)
stream-digits (n ∷ ns) v p (b, bs) h small = elim (dec_le 14 (p + 4)) [
  | no few ↦
      let v1 = bit_or v (n * 2 ^ p) in
      let joined : v1 ≡ v + n * 2 ^ p = bit_or-disjoint p v n small in
      let wide : 2 ^ (p + 4) ≡ 2 ^ p * 16 = pow-add p 4 in
      let fits : v1 < 2 ^ (p + 4) = omega (arith, nibble_room v n p small b, wide) in
      let scaled = ap (λ (t : ℕ). t * number 16 ns) wide in
      let count : p + 4 + 4 * length ns ≡ p + 4 * suc (length ns) = omega arith in
      let value : v1 + 2 ^ (p + 4) * number 16 ns ≡ v + 2 ^ p * (n + 16 * number 16 ns) =
        omega arith in
      stream_waits n ns v p (omega arith)
      ∙ stream-digits ns v1 (p + 4) bs (omega arith) fits
      ∙ ap (λ c. digits (c / 7 - 1) ((v1 + 2 ^ (p + 4) * number 16 ns) / 128)) count
      ∙ ap (λ t. digits ((p + 4 * suc (length ns)) / 7 - 1) (t / 128)) value
  | yes many ↦
      let w = p - 10 in
      let v1 = bit_or v (n * 2 ^ p) in
      let v' = v1 / 128 in
      let q = p + 4 - 7 in
      let t = v' + 2 ^ q * number 16 ns in
      let joined : v1 ≡ v + n * 2 ^ p = bit_or-disjoint p v n small in
      let wide : 2 ^ p ≡ 1024 * 2 ^ w =
        ap (λ k. 2 ^ k) {x = p} {y = 10 + w} (omega arith) ∙ pow-add 10 w in
      let kept : 2 ^ q ≡ 128 * 2 ^ w =
        ap (λ k. 2 ^ k) {x = q} {y = 7 + w} (omega arith) ∙ pow-add 7 w in
      let room = nibble_room v n p small b in
      let scaled = ap (λ (x : ℕ). x * number 16 ns) kept in
      let scaled' = ap (λ (x : ℕ). x * number 16 ns) wide in
      let value : (v + 2 ^ p * (n + 16 * number 16 ns)) / 128 ≡ t = omega arith in
      let first : t % 128 ≡ bit_and v' 0x7f = omega (arith, low7 v') in
      let count : (p + 4 * suc (length ns)) / 7 - 1 ≡ suc ((q + 4 * length ns) / 7 - 1) =
        omega arith in
      stream_gives n ns v p many (omega arith)
      ∙ ap (λ ds. bit_and v' 0x7f ∷ ds) (stream-digits ns v' q bs (omega arith) (omega arith))
      ∙ sym (
          rw (count, value)
            (unfold digits in ap (λ d. d ∷ digits ((q + 4 * length ns) / 7 - 1) (t / 128)) first))
]
