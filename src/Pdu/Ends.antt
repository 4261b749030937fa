-- ===== src/Pdu/Ends.antt =====
-- The end of `pdu_build_mult` of src/pdu.c.
use asterisk_chan_quectel.Prelude.{
  ℕ, zero, suc, ◌+◌, ◌-◌, ◌/◌, ◌≤◌, ◌≡◌, ◌≢◌, refl, Bool, Option, none, some, List, [], ◌∷◌, arith,
  ltb, if◌then◌else◌, length, drop, if-elim,
}
use asterisk_chan_quectel.CharConv.{gsm7_encode}
use asterisk_chan_quectel.Pdu.{PduUdh}
use asterisk_chan_quectel.Pdu.Parts.{
  part_of, parts_of, parts_of_lem, part_some, length-drop, gsm7_split,
}
use asterisk_chan_quectel.Pdu.Build.{
  Built, built, build_failed, pdu_build, Messages, messages, not_built, unending, add_message,
  gsm7_messages, ucs2_messages, send_gsm7, send_ucs2, send_encoded, pdu_build_mult,
}

add_message_ends : (b : Built) (rest : Messages) → rest ≢ unending → add_message b rest ≢ unending
add_message_ends (build_failed e) rest h same = absurd (ground (arith, same))
add_message_ends (built tpdulen bytes) (messages ms) h same = absurd (ground (arith, same))
add_message_ends (built tpdulen bytes) (not_built e) h same = absurd (ground (arith, same))
add_message_ends (built tpdulen bytes) unending h same = h refl

gsm7_messages_end :
    (build : List ℕ → ℕ → PduUdh → Built) (fuel split csmsref cnt i : ℕ) (us : List ℕ)
    → 3 ≤ split
    → length us ≤ fuel
    → gsm7_messages build fuel split csmsref cnt i us ≢ unending
unfolding gsm7_messages
gsm7_messages_end build fuel split csmsref cnt i [] wide h same = absurd (ground (arith, same))
gsm7_messages_end build zero split csmsref cnt i (u ∷ us) wide h same = absurd (omega (arith, h))
gsm7_messages_end build (suc fuel) split csmsref cnt i (u ∷ us) wide h same =
    let part = part_of split (u ∷ us) 0 in
    add_message_ends _ _
      (gsm7_messages_end build fuel split csmsref cnt (i + 1) (drop (part.0) (u ∷ us)) wide
        (omega (arith, h, part_some split u us wide, length-drop (part.0) (u ∷ us))))
      same

ucs2_messages_end :
    (build : List ℕ → ℕ → PduUdh → Built) (fuel split csmsref cnt i : ℕ) (us : List ℕ)
    → 1 ≤ split
    → length us ≤ fuel
    → ucs2_messages build fuel split csmsref cnt i us ≢ unending
unfolding ucs2_messages
ucs2_messages_end build fuel split csmsref cnt i [] wide h same = absurd (ground (arith, same))
ucs2_messages_end build zero split csmsref cnt i (u ∷ us) wide h same = absurd (omega (arith, h))
ucs2_messages_end build (suc fuel) split csmsref cnt i (u ∷ us) wide h same =
    add_message_ends _ _
      (ucs2_messages_end build fuel split csmsref cnt (i + 1) (drop split (u ∷ us)) wide
        (omega (arith, h, length-drop split (u ∷ us))))
      same

split_wide : (gsm7_len : ℕ) → 3 ≤ gsm7_split gsm7_len
unfolding gsm7_split
split_wide gsm7_len = ground arith

send_gsm7_ends :
    (build : List ℕ → ℕ → PduUdh → Built) (split csmsref : ℕ) (codes : List ℕ)
    → 3 ≤ split
    → send_gsm7 build split csmsref codes (parts_of (length codes) split codes) ≢ unending
unfolding send_gsm7
send_gsm7_ends build split csmsref codes wide same =
    let (parts, made, good, units, septets) =
      parts_of_lem (length codes) split codes wide (omega arith) in
    let told : send_gsm7 build split csmsref codes (some parts) ≡ unending = rw made at same in
    if-elim (λ (m : Messages). m ≡ unending → ⊥) (ltb 255 (length parts))
      (λ t d. absurd (ground (arith, d)))
      (λ f.
        gsm7_messages_end build (length codes) split csmsref (length parts) 0 codes wide
          (omega arith))
      told

send_ucs2_ends :
    (build : List ℕ → ℕ → PduUdh → Built) (csmsref : ℕ) (msg : List ℕ)
    → send_ucs2 build csmsref msg ≢ unending
unfolding send_ucs2
send_ucs2_ends build csmsref msg same =
    let split : ℕ = if ltb 70 (length msg) then 67 else 70 in
    let wide : 1 ≤ split = ground arith in
    let cnt = (length msg + split - 1) / split in
    if-elim (λ (m : Messages). m ≡ unending → ⊥) (ltb 255 cnt) (λ t d. absurd (ground (arith, d)))
      (λ f. ucs2_messages_end build (length msg) split csmsref cnt 0 msg wide (omega arith)) same

send_encoded_ends :
    (build : ℕ → List ℕ → ℕ → PduUdh → Built) (csmsref : ℕ) (msg : List ℕ)
    (encoded : Option (ℕ × List ℕ))
    → send_encoded build csmsref msg encoded ≢ unending
unfolding send_encoded
send_encoded_ends build csmsref msg none = send_ucs2_ends (build 8) csmsref msg
send_encoded_ends build csmsref msg (some (gsm7_len, codes)) =
    send_gsm7_ends (build 0) (gsm7_split gsm7_len) csmsref codes (split_wide gsm7_len)

-- `pdu_build_mult` comes to an end for every text, in either alphabet: the loops over the parts use
-- no more rounds than the text has units.
pub pdu_build_mult_ends :
    (sca dst msg : List ℕ) (valid_minutes : ℕ) (srr : Bool) (csmsref : ℕ)
    → pdu_build_mult sca dst msg valid_minutes srr csmsref ≢ unending
unfolding pdu_build_mult
pdu_build_mult_ends sca dst msg valid_minutes srr csmsref =
    send_encoded_ends
      (λ dcs units msg_len udh. pdu_build 256 sca dst dcs units msg_len valid_minutes srr udh)
      csmsref msg (gsm7_encode msg)
