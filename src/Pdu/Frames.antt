-- ===== src/Pdu/Frames.antt =====
-- The sizes of the messages that `pdu_build` of src/pdu.c gives.
use asterisk_chan_quectel.Prelude.{
  ℕ, suc, ◌+◌, ◌-◌, ◌*◌, ◌/◌, ◌≤◌, ◌<◌, ◌≡◌, refl, sym, ap, ◌∙◌, Bool, Option, none, some, List, [],
  ◌∷◌, ◌++◌, arith, ltb, ◌==◌, ◌||◌, bit_or, append_assoc, length, length-append, u8, if-elim,
  get_or, sub_size,
}
use mathlib.Core.Option.{some-injective}
use mathlib.Core.Path.{subst}
use asterisk_chan_quectel.Pdu.{
  PduUdh, pdu_relative_validity, pdu_digit2code, pdu_store_number, store_digits, put_byte,
}
use asterisk_chan_quectel.Pdu.Build.{
  udl_of, header_bytes, text_bytes, Built, built, sca_bytes, limited, with_destination, with_sca,
  pdu_build, without_plus,
}

-- A message with the address of the service center in front, whose length the first byte says, and
-- within the limits.
pub record IsFramed (tpdulen : ℕ) (bytes : List ℕ) : Type 0 where
  pub short : tpdulen ≤ 176
  pub fits : length bytes ≤ 256
  pub framed : length bytes ≡ 1 + get_or bytes 0 0 + tpdulen

length-put_byte :
    (b n : ℕ) (rest : Option (List ℕ))
    → ((bs : List ℕ) → rest ≡ some bs → length bs ≡ n)
    → (bytes : List ℕ) → put_byte b rest ≡ some bytes
    → length bytes ≡ suc n
unfolding put_byte
length-put_byte b n none h bytes done = ground arith
length-put_byte b n (some bs) h bytes done =
    sym (ap (length {A = ℕ}) (some-injective (b ∷ bs) bytes done)) ∙ ap suc (h bs refl)

length-store_digits :
    (number bytes : List ℕ)
    → store_digits number ≡ some bytes
    → length bytes ≡ (length number + 1) / 2
unfolding store_digits
length-store_digits [] bytes done = ground arith
length-store_digits (x ∷ []) bytes done = ground arith
length-store_digits (x ∷ y ∷ number) bytes done =
    let a = pdu_digit2code x in
    let b = pdu_digit2code y in
    if-elim
      (λ (r : Option (List ℕ)). r ≡ some bytes → length bytes ≡ (suc (suc (length number)) + 1) / 2)
      (a == 255 || b == 255) (λ t d. absurd (ground (arith, d)))
      (λ f d.
        length-put_byte (bit_or a (b * 16)) ((length number + 1) / 2) (store_digits number)
          (length-store_digits number) bytes d
        ∙ omega arith)
      done

length-pdu_store_number :
    (toa : ℕ) (number bytes : List ℕ)
    → pdu_store_number toa number ≡ some bytes
    → length bytes ≡ 1 + (length number + 1) / 2
unfolding pdu_store_number
length-pdu_store_number toa number bytes done =
    length-put_byte toa ((length number + 1) / 2) (store_digits number) (length-store_digits number)
      bytes done
    ∙ omega arith

put_byte_first :
    (b : ℕ) (rest : Option (List ℕ)) (bytes : List ℕ)
    → put_byte b rest ≡ some bytes
    → get_or bytes 0 0 ≡ b
unfolding put_byte
put_byte_first b none bytes done = absurd (ground (arith, done))
put_byte_first b (some bs) bytes done =
    sym (ap (λ l. get_or l 0 0) (some-injective (b ∷ bs) bytes done))

-- Where the address is there, its first byte is the length of what follows.
sca_first :
    (sca bytes : List ℕ)
    → sca_bytes sca ≡ some bytes
    → length bytes ≤ 256
    → length bytes ≡ 1 + get_or bytes 0 0
unfolding sca_bytes
sca_first [] bytes done small = ground arith
sca_first (c ∷ cs) bytes done small =
    let n = (length (c ∷ cs) + 1) / 2 in
    let size =
      length-put_byte (u8 (1 + n)) (1 + n) (pdu_store_number 0x91 (c ∷ cs))
        (length-pdu_store_number 0x91 (c ∷ cs)) bytes done in
    let first = put_byte_first (u8 (1 + n)) (pdu_store_number 0x91 (c ∷ cs)) bytes done in
    size ∙ rw first (omega (arith, size, small))

first_of_append : (xs ys : List ℕ) → 0 < length xs → get_or (xs ++ ys) 0 0 ≡ get_or xs 0 0
first_of_append [] ys h = absurd (omega (arith, h))
first_of_append (x ∷ xs) ys h = refl

limited-IsFramed :
    (sca rest bytes : List ℕ) (tpdulen : ℕ)
    → (length sca ≤ 256 → length sca ≡ 1 + get_or sca 0 0)
    → limited (length sca) (sca ++ rest) ≡ built tpdulen bytes
    → IsFramed tpdulen bytes
unfolding limited
limited-IsFramed sca rest bytes tpdulen h done =
    let all_bytes = sca ++ rest in
    let size = length-append sca rest in
    if-elim (λ (r : Built). r ≡ built tpdulen bytes → IsFramed tpdulen bytes)
      (ltb 176 (length all_bytes - length sca)) (λ t d. absurd (ground (arith, d)))
      (λ f.
        if-elim (λ (r : Built). r ≡ built tpdulen bytes → IsFramed tpdulen bytes)
          (ltb 256 (length all_bytes)) (λ t d. absurd (ground (arith, d)))
          (λ g d.
            let is : all_bytes ≡ bytes = ground (arith, d) in
            let count : length all_bytes - length sca ≡ tpdulen = ground (arith, d) in
            let small : length sca ≤ 256 = ground (arith, size) in
            subst (λ (b : List ℕ). IsFramed tpdulen b) is
              (record {
                short = ground (arith, count);
                fits = ground arith;
                framed = omega (
                  arith,
                  size,
                  count,
                  h small,
                  first_of_append sca rest (omega (arith, h small)),
                );
              })))
      done

with_destination-IsFramed :
    (sca front bytes msg : List ℕ) (number : Option (List ℕ))
    (size dcs msg_len valid_minutes tpdulen : ℕ) (udh : PduUdh)
    → (length sca ≤ 256 → length sca ≡ 1 + get_or sca 0 0)
    → with_destination size (length sca) dcs msg msg_len valid_minutes udh (sca ++ front) number
      ≡ built tpdulen bytes
    → IsFramed tpdulen bytes
unfolding with_destination
with_destination-IsFramed sca front bytes msg none size dcs msg_len valid_minutes tpdulen udh h
      done =
    absurd (ground (arith, done))
with_destination-IsFramed sca front bytes msg (some number) size dcs msg_len valid_minutes tpdulen
      udh h done =
    let rest =
      number
      ++ (0
          ∷ dcs
          ∷ pdu_relative_validity valid_minutes
          ∷ udl_of dcs msg_len udh
          ∷ header_bytes udh) in
    let head = (sca ++ front) ++ rest in
    let text = text_bytes (sub_size size (length head + 1)) dcs msg msg_len udh in
    let joined : head ++ text ≡ sca ++ ((front ++ rest) ++ text) =
      ap (λ l. l ++ text) (append_assoc sca front rest) ∙ append_assoc sca (front ++ rest) text in
    limited-IsFramed sca ((front ++ rest) ++ text) bytes tpdulen h
      (subst (λ l. limited (length sca) l ≡ built tpdulen bytes) joined done)

with_sca-IsFramed :
    (sca : Option (List ℕ)) (dst msg bytes : List ℕ) (size dcs msg_len valid_minutes tpdulen : ℕ)
    (srr : Bool) (udh : PduUdh)
    → ((s : List ℕ) → sca ≡ some s → length s ≤ 256 → length s ≡ 1 + get_or s 0 0)
    → with_sca size dst dcs msg msg_len valid_minutes srr udh sca ≡ built tpdulen bytes
    → IsFramed tpdulen bytes
unfolding with_sca
with_sca-IsFramed none dst msg bytes size dcs msg_len valid_minutes tpdulen srr udh h done =
    absurd (ground (arith, done))
with_sca-IsFramed (some sca) dst msg bytes size dcs msg_len valid_minutes tpdulen srr udh h done =
    with_destination-IsFramed sca _ bytes msg _ size dcs msg_len valid_minutes tpdulen udh
      (h sca refl) done

-- A message that `pdu_build` gives is within the limits of 176 bytes for the TPDU and of 256 bytes in
-- all, and the first of its bytes says how many of the address of the service center stand in front
-- of the TPDU.
pub pdu_build-IsFramed :
    (size : ℕ) (sca dst : List ℕ) (dcs : ℕ) (msg : List ℕ) (msg_len valid_minutes : ℕ) (srr : Bool)
    (udh : PduUdh) (tpdulen : ℕ) (bytes : List ℕ)
    → pdu_build size sca dst dcs msg msg_len valid_minutes srr udh ≡ built tpdulen bytes
    → IsFramed tpdulen bytes
unfolding pdu_build
pdu_build-IsFramed size sca dst dcs msg msg_len valid_minutes srr udh tpdulen bytes done =
    with_sca-IsFramed (sca_bytes (without_plus sca)) dst msg bytes size dcs msg_len valid_minutes
      tpdulen srr udh (sca_first (without_plus sca)) done
