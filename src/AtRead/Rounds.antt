-- ===== src/AtRead/Rounds.antt =====
-- The rounds of the monitor of src/monitor_thread.c over the responses that the ring holds.
use asterisk_chan_quectel.Prelude.{
  ℕ, zero, suc, ◌^◌, ◌<◌, ◌≡◌, refl, false, Option, some, List, [], ◌∷◌, ◌++◌, arith, ◌==◌,
  add_size, length, if-elim,
}
use asterisk_chan_quectel.Ring.Bounds.{IsValid, rb_read_upd-IsValid}
use asterisk_chan_quectel.AtRead.{
  Reader, at_combine_iov, Push, pushed, no_memory, refused, Drained, waiting, restart, consume,
  hand_on, after_result, read_responses,
}
use asterisk_chan_quectel.AtRead.Loops.{
  used-rb_read_upd, buffer-rb_read_upd, IsUseful, at_read_result_iov-Returns, length-at_combine_iov,
}

-- A reader between two rounds.
pub record IsRested (r : Reader) : Type 0 where
  pub ring : IsValid r.rb
  pub storage : length r.rb.buffer < 2 ^ 62
  pub no_skip : r.skip ≡ 0

abbrev pub Ends : Option Drained → Type 0
Ends o = (d : Drained) × (o ≡ some d)

-- Where a result is useful, the ring holds less after it.
consume-IsRested :
    (n : ℕ) (r : Reader)
    → IsValid r.rb
    → length r.rb.buffer < 2 ^ 62
    → (n == 0) ≡ false
    → IsUseful n r
    → let r' = consume (length (at_combine_iov r.rb r.iov n)) r in
      IsRested r' × (r'.rb.used < r.rb.used)
unfolding consume
consume-IsRested n r v few some_result useful =
    let len = length (at_combine_iov r.rb r.iov n) in
    let (more, small, held) = useful some_result in
    let bound = length-at_combine_iov r.rb r.iov n in
    let total : 0 < add_size len r.skip = omega arith in
    (
      record {
        ring = rb_read_upd-IsValid (add_size len r.skip) v;
        storage = rw (buffer-rb_read_upd (add_size len r.skip) r.rb) few;
        no_skip = refl;
      },
      omega (arith, used-rb_read_upd (add_size len r.skip) v),
    )

hand_on-Ends :
    (go : List (List ℕ) → Reader → Option Drained) (push : Push) (text : List ℕ)
    (out : List (List ℕ)) (r : Reader)
    → ((out' : List (List ℕ)) → Ends (go out' r))
    → Ends (hand_on go push text out r)
hand_on-Ends go pushed text out r ends = ends (out ++ (text ∷ []))
hand_on-Ends go no_memory text out r ends = ends out
hand_on-Ends go refused text out r ends = (restart out r, refl)

-- The loop of the monitor over what the ring holds ends within as many rounds as it holds bytes and
-- one more, whatever becomes of the responses, where the storage is smaller than 2 ^ 62 bytes and
-- nothing is to be skipped first.
pub read_responses-Ends :
    (push : ℕ → Push) (fuel : ℕ) (out : List (List ℕ)) (r : Reader)
    → IsRested r
    → r.rb.used < fuel
    → Ends (read_responses push fuel out r)
unfolding read_responses after_result
read_responses-Ends push zero out r rest h = absurd (omega (arith, h))
read_responses-Ends push (suc fuel) out r rest h =
    let (n, r1, e, v1, fewer, kept, useful) = at_read_result_iov-Returns r rest.ring in
    let few : length r1.rb.buffer < 2 ^ 62 = rw kept rest.storage in
    let text = at_combine_iov r1.rb r1.iov n in
    let r2 = consume (length text) r1 in
    rw e (
      if-elim Ends (n == 0) (λ p. (waiting out r1, refl))
        (λ p.
          let next = consume-IsRested n r1 v1 few p (useful rest.no_skip) in
          let left : r2.rb.used < fuel = ground (arith, next.1, fewer, h) in
          let go = λ (out' : List (List ℕ)). read_responses-Ends push fuel out' r2 (next.0) left in
          if-elim Ends (length text == 0) (λ z. go out)
            (λ z. hand_on-Ends (read_responses push fuel) (push fuel) text out r2 go)))
