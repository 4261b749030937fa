-- ===== src/Pdu/Headers.antt =====
-- The user data header of src/pdu.c, from its elements to its bytes and back.
use asterisk_chan_quectel.Prelude.{
  ℕ, zero, suc, ◌+◌, ◌-◌, ◌*◌, ◌≤◌, ◌<◌, ◌≡◌, refl, ap, ◌∙◌, true, false, ◌||◌, List, [], ◌∷◌, ◌++◌,
  append_assoc, arith, leb, ◌==◌, u8, bit_or, length, length-append, drop, All,
}
use asterisk_chan_quectel.Pdu.{PduUdh}
use asterisk_chan_quectel.Pdu.Deliver.{
  HeaderState, HeaderResult, header, reads, header_element, header_loop,
}

-- An element of a header: a part of a message, with a reference of 8 or 16 bits, or one of another
-- kind.
pub data Element : Type 0 where
  concatenated : ℕ → ℕ → ℕ → Element
  concatenated16 : ℕ → ℕ → ℕ → ℕ → Element
  other : ℕ → List ℕ → Element

abbrev pub encode : Element → List ℕ
encode (concatenated ref parts order) = 0 ∷ 3 ∷ ref ∷ parts ∷ order ∷ []
encode (concatenated16 high low parts order) = 8 ∷ 4 ∷ high ∷ low ∷ parts ∷ order ∷ []
encode (other kind bytes) = kind ∷ length bytes ∷ bytes

abbrev pub encode_all : List Element → List ℕ
encode_all [] = []
encode_all (e ∷ es) = encode e ++ encode_all es

-- The kind of another element is none of those that the parser looks into.
abbrev pub IsRegular : Element → Type 0
IsRegular (concatenated ref parts order) = Unit
IsRegular (concatenated16 high low parts order) = Unit
IsRegular (other kind bytes) = (kind == 0 || kind == 8 || kind == 0x24 || kind == 0x25) ≡ false

-- What the element says; of a reference of 16 bits the low byte is kept.
abbrev pub told : Element → PduUdh → PduUdh
told (concatenated ref parts order) udh = record udh { ref = ref; parts = parts; order = order }
told (concatenated16 high low parts order) udh = record udh {
  ref = u8 (bit_or (u8 (high * 256)) low);
  parts = parts;
  order = order;
}
told (other kind bytes) udh = udh

abbrev pub told_all : List Element → PduUdh → PduUdh
told_all [] udh = udh
told_all (e ∷ es) udh = told_all es (told e udh)

pub drop_front : (xs ys : List ℕ) → drop (length xs) (xs ++ ys) ≡ ys
drop_front [] ys = refl
drop_front (x ∷ xs) ys = drop_front xs ys

reads_front : (xs ys : List ℕ) (next : HeaderResult) → reads (length xs) (xs ++ ys) next ≡ next
reads_front [] ys next = refl
reads_front (x ∷ xs) ys next = reads_front xs ys next

pub drop_all : (xs : List ℕ) → drop (length xs) xs ≡ []
drop_all [] = refl
drop_all (x ∷ xs) = drop_all xs

-- One round takes one element.
header_loop_element :
    (fuel : ℕ) (e : Element) (more : List ℕ) (u : ℕ) (udh : PduUdh)
    → IsRegular e
    → header_loop
        (suc fuel)
        (record { rest = encode e ++ more; udhl = length (encode e) + u; udh = udh })
      ≡ header_loop fuel (record { rest = more; udhl = u; udh = told e udh })
unfolding header_loop header_element
header_loop_element fuel (concatenated ref parts order) more u udh known =
    let enough : leb 2 (5 + u) ≡ true = ground arith in
    let fits : leb 3 (5 + u - 2) ≡ true = ground arith in
    let left : 5 + u - 2 - 3 ≡ u = omega arith in rw (enough, fits, left) refl
header_loop_element fuel (concatenated16 high low parts order) more u udh known =
    let enough : leb 2 (6 + u) ≡ true = ground arith in
    let fits : leb 4 (6 + u - 2) ≡ true = ground arith in
    let left : 6 + u - 2 - 4 ≡ u = omega arith in rw (enough, fits, left) refl
header_loop_element fuel (other kind bytes) more u udh known =
    let n = length bytes in
    let enough : leb 2 (suc (suc n) + u) ≡ true = ground arith in
    let fits : leb n (suc (suc n) + u - 2) ≡ true = ground arith in
    let left : suc (suc n) + u - 2 - n ≡ u = omega arith in
    let next = header_loop fuel (record { rest = more; udhl = u; udh = udh }) in
    let not0 : (kind == 0) ≡ false = ground arith in
    let not8 : (kind == 8) ≡ false = ground arith in
    let not24 : (kind == 0x24) ≡ false = ground arith in
    let not25 : (kind == 0x25) ≡ false = ground arith in
    rw (enough, fits, not0, not8, not24, not25, left, drop_front bytes more)
      (reads_front bytes more next)

header_loop_end : (fuel : ℕ) (s : HeaderState) → s.udhl < 2 → header_loop (suc fuel) s ≡ header s
unfolding header_loop header_element
header_loop_end fuel s h = let over : leb 2 s.udhl ≡ false = ground arith in rw over refl

header_loop_stops : (f : ℕ) (s : HeaderState) → s.udhl < 2 → 0 < f → header_loop f s ≡ header s
header_loop_stops zero s few h = absurd (omega (arith, h))
header_loop_stops (suc f) s few h = header_loop_end f s few

length-encode : (e : Element) → 2 ≤ length (encode e)
length-encode (concatenated ref parts order) = omega arith
length-encode (concatenated16 high low parts order) = omega arith
length-encode (other kind bytes) = omega arith

abbrev state : List ℕ → ℕ → PduUdh → HeaderState
state rest udhl udh = record { rest = rest; udhl = udhl; udh = udh }

-- The rounds over regular elements lead to what comes of the bytes behind them.
header_loop_elements :
    (es : List Element) (fuel need u : ℕ) (more : List ℕ) (udh : PduUdh) (r : HeaderResult)
    → All IsRegular es
    → ((f : ℕ) → need < f → header_loop f (state more u (told_all es udh)) ≡ r)
    → length (encode_all es) + need < fuel
    → header_loop fuel (state (encode_all es ++ more) (length (encode_all es) + u) udh) ≡ r
header_loop_elements [] fuel need u more udh r all tail h =
    ap (λ (n : ℕ). header_loop fuel (state more n udh)) (omega arith) ∙ tail fuel (omega (arith, h))
header_loop_elements (e ∷ es) zero need u more udh r all tail h = absurd (omega (arith, h))
header_loop_elements (e ∷ es) (suc fuel) need u more udh r all tail h =
    let joined = length-append (encode e) (encode_all es) in
    let rest =
      header_loop_elements es fuel need u more (told e udh) r (all.1) tail
        (omega (arith, h, joined, length-encode e)) in
    let size : length (encode e ++ encode_all es) + u
        ≡ length (encode e) + (length (encode_all es) + u) =
      omega (arith, joined) in
    rw (append_assoc (encode e) (encode_all es) more, size)
      (header_loop_element fuel e (encode_all es ++ more) (length (encode_all es) + u) udh (all.0)
        ∙ rest)

-- The loop over a header of regular elements, of parts of messages and of kinds that the parser does
-- not know, stops behind them, with what they told: it reads all of `udhl`, but for a single byte
-- that may be left over. As many rounds as there are bytes are enough.
pub header_loop_told :
    (es : List Element) (left : ℕ) (more : List ℕ) (udh : PduUdh)
    → All IsRegular es
    → left < 2
    → let udhl = length (encode_all es) + left in
      header_loop (udhl + 1) (record { rest = encode_all es ++ more; udhl = udhl; udh = udh })
      ≡ header (record { rest = more; udhl = left; udh = told_all es udh })
header_loop_told es left more udh all few =
    header_loop_elements es (length (encode_all es) + left + 1) 0 left more udh _ all
      (λ f. header_loop_stops f (state more left (told_all es udh)) few) (omega arith)

-- A national language for the single shift, at the end of a header of regular elements.
language_last :
    (f v : ℕ) (more : List ℕ) (udh : PduUdh)
    → 1 < f
    → header_loop f (state (0x24 ∷ 1 ∷ v ∷ more) 3 udh)
      ≡ header (state more 1 (record udh { ss = v }))
unfolding header_loop header_element
language_last zero v more udh h = absurd (omega (arith, h))
language_last (suc zero) v more udh h = absurd (omega (arith, h))
language_last (suc (suc f)) v more udh h = refl

-- Where the last element of a header names a national language for the single shift, behind regular
-- elements, its byte is not taken off the length that is left: the loop stops behind the header with
-- one byte still to skip, so that the text is read from its second byte on.
pub header_loop_language :
    (es : List Element) (v : ℕ) (text : List ℕ) (udh : PduUdh)
    → All IsRegular es
    → let udhl = length (encode_all es) + 3 in
      header_loop
        (udhl + 1)
        (record { rest = encode_all es ++ (0x24 ∷ 1 ∷ v ∷ text); udhl = udhl; udh = udh })
      ≡ header (record { rest = text; udhl = 1; udh = record (told_all es udh) { ss = v } })
header_loop_language es v text udh all =
    header_loop_elements es (length (encode_all es) + 3 + 1) 1 3 (0x24 ∷ 1 ∷ v ∷ text) udh _ all
      (λ f. language_last f v text (told_all es udh)) (omega arith)
