-- ===== src/CharConv/RoundTrip.antt =====
-- `gsm7_pack` and `gsm7_unpack_decode` of src/char_conv.c together.
use asterisk_chan_quectel.Prelude.{
  ℕ, zero, suc, ◌+◌, ◌-◌, ◌*◌, ◌/◌, ◌%◌, ◌^◌, ◌≤◌, ◌<◌, ◌≡◌, refl, ap, sym, ◌∙◌, Bool, false, ◌||◌,
  some, List, [], ◌∷◌, ◌++◌, ltb, leb, ◌==◌, if◌then◌else◌, bit_and, bit_or, length, take, All,
  arith, low7, pow-positive, if-elim, length-append, length-take, All-append, sub_u32,
}
use native.Mathlib.Nat.{mul-le-mul_left}
use asterisk_chan_quectel.CharConv.Pack.{
  unit_septets, septets_of, pack_loop, gsm7_pack, nibbles_of, drain, decode_septets, unpack_loop,
  prepend, gsm7_unpack_decode, ls_code, ss_code,
}
use asterisk_chan_quectel.CharConv.Septets.{
  number, pow-add, pow_below, pack_loop-number, pack_loop-length, pack_loop-bytes,
  number-nibbles_of, nibbles_small, length-nibbles_of, number-take, number_small,
}
use asterisk_chan_quectel.CharConv.Unpack.{digits-number, stream, stream-digits}

decode_septets-append :
    (ls ss : ℕ) (esc : Bool) (a b : List ℕ)
    → (decode_septets ls ss esc (a ++ b)).0
      ≡ (decode_septets ls ss esc a).0 ++ (decode_septets ls ss (decode_septets ls ss esc a).1 b).0
unfolding decode_septets
decode_septets-append ls ss esc [] b = refl
decode_septets-append ls ss esc (s ∷ a) b =
    let val = if esc then ss_code ss s else ls_code ls s in
    ground (arith, decode_septets-append ls ss (val == 0x1b) a b)

length-decode_septets :
    (ls ss : ℕ) (esc : Bool) (a : List ℕ) → length (decode_septets ls ss esc a).0 ≤ length a
unfolding decode_septets
length-decode_septets ls ss esc [] = omega arith
length-decode_septets ls ss esc (s ∷ a) =
    let val = if esc then ss_code ss s else ls_code ls s in
    ground (arith, length-decode_septets ls ss (val == 0x1b) a)

unpack_loop-stream :
    (ls ss out_size : ℕ) (ns : List ℕ) (v p : ℕ) (esc : Bool) (x : ℕ)
    → x + length (stream ns v p) < out_size
    → unpack_loop ls ss out_size ns v p esc x ≡ some (decode_septets ls ss esc (stream ns v p)).0
unfolding unpack_loop stream
unpack_loop-stream ls ss out_size [] v p esc x h = unfold decode_septets in refl
unpack_loop-stream ls ss out_size (n ∷ ns) v p esc x h =
    let r = drain (p + 4) (bit_or v (n * 2 ^ p)) (p + 4) in
    let d = decode_septets ls ss esc (r.0) in
    let less = length-decode_septets ls ss esc (r.0) in
    let both = length-append (r.0) (stream ns (r.1) (r.2)) in
    let room : leb out_size x ≡ false = ground arith in
    let rest =
      unpack_loop-stream ls ss out_size ns (r.1) (r.2) (d.1) (x + length (d.0)) (omega arith) in
    rw (room, rest)
      (unfold prepend in
        ap some (sym (decode_septets-append ls ss esc (r.0) (stream ns (r.1) (r.2)))))

unit_small : (u : ℕ) → All (λ s. s < 128) (unit_septets u)
unfolding unit_septets
unit_small u =
    let c0 = bit_and u 0xff00 / 256 in
    let c1 = bit_and u 0x00ff in
    if-elim (All (λ s. s < 128)) (c0 == 0) (λ _. omega (arith, low7 c1))
      (λ _. omega (arith, low7 c0, low7 c1))

septets_small : (us : List ℕ) → All (λ s. s < 128) (septets_of us)
unfolding septets_of
septets_small [] = omega arith
septets_small (u ∷ us) =
    All-append (λ s. s < 128) (unit_septets u) (septets_of us) (unit_small u) (septets_small us)

unit_some : (u : ℕ) → 0 < length (unit_septets u)
unfolding unit_septets
unit_some u = ground arith

length-septets_of : (us : List ℕ) → length us ≤ length (septets_of us)
unfolding septets_of
length-septets_of [] = omega arith
length-septets_of (u ∷ us) =
    omega (arith, unit_some u, length-append (unit_septets u) (septets_of us), length-septets_of us)

-- The count of nibbles for `out` bytes that end with `pad` bits over.
abbrev pub nibble_count : ℕ → ℕ → ℕ
nibble_count out pad = out * 2 - (if pad == 1 || pad == 2 || pad == 3 then 1 else 0)

pub packed :
    (us : List ℕ) (size pad k : ℕ) (bytes : List ℕ)
    → gsm7_pack us size pad ≡ some (k, bytes)
    → let r = pack_loop (septets_of us) 0 pad in
      (bytes ≡ r.0) × (k ≡ nibble_count (length (r.0)) (r.1))
unfolding gsm7_pack
packed us size pad k bytes h = ground arith

-- The nibbles that are counted hold every septet, and fewer than seven bits more.
nibbles_enough :
    (m pad out over : ℕ)
    → pad < 7
    → out ≡ (pad + 7 * m + 7) / 8
    → over ≡ (pad + 7 * m) % 8
    → let k = nibble_count out over in
      (pad + 7 * m ≤ 4 * k) × (4 * k < pad + 7 * m + 7) × (k ≤ 2 * out)
nibbles_enough m pad out over h o r = ground arith

All-take : (k : ℕ) (ns : List ℕ) → All (λ n. n < 16) ns → All (λ n. n < 16) (take k ns)
All-take zero ns h = omega arith
All-take (suc k) [] h = h
All-take (suc k) (n ∷ ns) (h, hs) = (h, All-take k ns hs)

stream-packed :
    (ss : List ℕ) (pad k : ℕ)
    → All (λ s. s < 128) ss
    → pad < 7
    → pad + 7 * length ss ≤ 4 * k
    → 4 * k < pad + 7 * length ss + 7
    → let r = pack_loop ss 0 pad in
      k ≤ 2 * length (r.0) → stream (take k (nibbles_of (r.0))) 0 (7 - pad) ≡ ss
stream-packed ss pad k small h holds tight inside =
    let r = pack_loop ss 0 pad in
    let ns = take k (nibbles_of (r.0)) in
    let value : number 256 (r.0) ≡ 2 ^ pad * number 128 ss =
      omega (arith, pack_loop-number ss 0 pad small (omega arith) (pow-positive pad)) in
    let same = number-nibbles_of (r.0) (pack_loop-bytes ss 0 pad) in
    let wide = pow-add pad (7 * length ss) in
    let room = pow_below (4 * k) (pad + 7 * length ss) (omega arith) in
    let below : 2 ^ pad * number 128 ss < 2 ^ pad * 2 ^ (7 * length ss) =
      omega (arith, mul-le-mul_left (2 ^ pad) (number_small ss small), pow-positive pad) in
    let taken = number-take k (nibbles_of (r.0)) (omega arith) in
    let counted : length ns ≡ k =
      omega (arith, length-take k (nibbles_of (r.0)), length-nibbles_of (r.0)) in
    let seven : 2 ^ (7 - pad) * 2 ^ pad ≡ 128 =
      sym (pow-add (7 - pad) pad) ∙ ap (λ t. 2 ^ t) {x = 7 - pad + pad} {y = 7} (omega arith) in
    let scaled = ap (λ (t : ℕ). t * number 128 ss) seven in
    let scaled' = ap (λ (t : ℕ). 2 ^ (7 - pad) * t) (taken ∙ same ∙ value) in
    let t : (0 + 2 ^ (7 - pad) * number 16 ns) / 128 ≡ number 128 ss = omega arith in
    let c : (7 - pad + 4 * length ns) / 7 - 1 ≡ length ss = omega arith in
    stream-digits ns 0 (7 - pad) (All-take k (nibbles_of (r.0)) (nibbles_small (r.0))) (omega arith)
      (pow-positive (7 - pad))
    ∙ rw (c, t) (digits-number ss small)

some_nibbles :
    (us : List ℕ) (pad k : ℕ)
    → 0 < length us
    → pad < 7
    → pad + 7 * length (septets_of us) ≤ 4 * k
    → 2 ≤ k
some_nibbles us pad k some_us h holds = omega (arith, length-septets_of us)

-- As many nibbles as the septets fill, and fewer than seven bits more, are taken apart into them.
pub gsm7_unpack_decode_packed :
    (us bytes : List ℕ) (size out_size pad n k ls ss : ℕ)
    → pad < 7
    → 0 < length us
    → ls ≤ 13
    → ss ≤ 13
    → gsm7_pack us size pad ≡ some (n, bytes)
    → pad + 7 * length (septets_of us) ≤ 4 * k
    → 4 * k < pad + 7 * length (septets_of us) + 7
    → k ≤ 2 * length bytes
    → length (septets_of us) < out_size
    → gsm7_unpack_decode bytes k out_size pad ls ss
      ≡ some (decode_septets ls ss false (septets_of us)).0
unfolding gsm7_unpack_decode
gsm7_unpack_decode_packed us bytes size out_size pad n k ls ss h some_us l s done holds tight inside
      room =
    let (out, count) = packed us size pad n bytes done in
    let two = some_nibbles us pad k some_us h holds in
    let start : sub_u32 7 pad ≡ 7 - pad = omega arith in
    let whole = ap (length {A = ℕ}) out in
    let same =
      stream-packed (septets_of us) pad k (septets_small us) h holds tight (omega (arith, whole)) in
    let ns = take k (nibbles_of (pack_loop (septets_of us) 0 pad).0) in
    let loop =
      unpack_loop-stream ls ss out_size ns 0 (7 - pad) false 0
        (omega (arith, ap (length {A = ℕ}) same)) in
    let l' : ltb 13 ls ≡ false = ground arith in
    let s' : ltb 13 ss ≡ false = ground arith in
    let o : (out_size == 0) ≡ false = ground arith in
    let k' : ltb k 2 ≡ false = ground arith in
    rw (l', s', o, k', start, out) (loop ∙ ap (λ t. some (decode_septets ls ss false t).0) same)

-- What `gsm7_pack` has packed of one unit or more, `gsm7_unpack_decode` takes apart into the same
-- septets, whatever the padding of up to six bits: with the count of nibbles that `gsm7_pack`
-- returned, tables from 0 to 13, and room for one unit more than there are septets, it gives the
-- units that the tables have for them.
pub gsm7_unpack_decode-gsm7_pack :
    (us bytes : List ℕ) (size out_size pad k ls ss : ℕ)
    → pad < 7
    → 0 < length us
    → ls ≤ 13
    → ss ≤ 13
    → gsm7_pack us size pad ≡ some (k, bytes)
    → length (septets_of us) < out_size
    → gsm7_unpack_decode bytes k out_size pad ls ss
      ≡ some (decode_septets ls ss false (septets_of us)).0
gsm7_unpack_decode-gsm7_pack us bytes size out_size pad k ls ss h some_us l s done room =
    let (out, count) = packed us size pad k bytes done in
    let r = pack_loop (septets_of us) 0 pad in
    let (size_of, over) = pack_loop-length (septets_of us) 0 pad (omega arith) in
    let (holds, tight, inside) =
      nibbles_enough (length (septets_of us)) pad (length (r.0)) (r.1) h size_of over in
    gsm7_unpack_decode_packed us bytes size out_size pad k k ls ss h some_us l s done
      (omega (arith, holds, count)) (omega (arith, tight, count))
      (omega (arith, inside, count, ap (length {A = ℕ}) out)) room
