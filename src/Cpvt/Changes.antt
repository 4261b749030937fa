-- ===== src/Cpvt/Changes.antt =====
-- The counters of src/cpvt.c when a call enters a new state, and in what follows that.
use asterisk_chan_quectel.Prelude.{
  ℕ, ◌+◌, ◌≡◌, refl, sym, ap, ◌∙◌, inl, inr, Bool, true, false, not, ◌||◌, some, map, arith, u8,
  u32, sub_u8, length, Bool-cases, Option-cases, if-elim,
}
use asterisk_chan_quectel.AtCommand.{Enqueued, Hangup, at_enqueue_hangup}
use asterisk_chan_quectel.Cpvt.{
  CallState, active, onhold, released, same_state, Cpvt, Control, ChannelState, Event, Config,
  Device, emit, find_cpvt, set_cpvt, change_cpvt, set_count,
}
use asterisk_chan_quectel.Cpvt.Change.{
  Outside, clear_flag, pvt_update_state_flags, enqueued, hangup_by_sys_chan, unless_failed,
  announce, announce_active,
}
use asterisk_chan_quectel.Cpvt.Counts.{
  state_of, count_state, one, IsCounted, Keeps, same_state_sound, count_state-set_cpvt,
  length-set_cpvt, Keeps-IsCounted,
}
use asterisk_chan_quectel.Cpvt.Kept.{kept_same, kept_then}

-- One state's counter, when a call goes from one state to another.
updated_count :
    (counts : CallState → ℕ) (n : CallState → ℕ) (m : ℕ) (old new s : CallState)
    → same_state new old ≡ false
    → ((t : CallState) → counts t ≡ u8 (n t))
    → m + one s old ≡ n s + one s new
    → (let first = set_count counts old (sub_u8 (counts old) 1) in
        set_count first new (u8 (first new + 1)) s)
      ≡ u8 m
updated_count counts n m old new s differ k h =
    let back : same_state old new ≡ false = ground arith in
    elim (Bool-cases (same_state new s)) [
      | inl p ↦
          let e = same_state_sound new s p in
          let away : same_state old s ≡ false =
            rw (ap (λ (t : CallState). same_state old t) e) at back in
          let h' : m + 0 ≡ n s + 1 = rw (p, away) at h in
          rw (p, back) (omega (arith, k new, ap n e))
      | inr q ↦ elim (Bool-cases (same_state old s)) [
        | inl p ↦
            let e = same_state_sound old s p in
            let h' : m + 1 ≡ n s + 0 = rw (p, q) at h in rw (p, q) (omega (arith, k old, ap n e))
        | inr r ↦ let h' : m + 0 ≡ n s + 0 = rw (r, q) at h in rw (r, q) (omega (arith, k s))
      ]
    ]

pub Keeps-clear_flag : (old : CallState) (dev : Device) → Keeps dev (clear_flag old dev)
unfolding clear_flag
Keeps-clear_flag old dev = kept_same dev _ (ground arith) (ground arith) (ground arith)

-- A call in a new state, with the counters of both states.
pub update-IsCounted :
    (c : Cpvt) (new : CallState) (dev : Device)
    → find_cpvt c.id dev.chans ≡ some c
    → same_state new c.state ≡ false
    → IsCounted dev
    → IsCounted (
        pvt_update_state_flags c.state new
          (change_cpvt c.id (λ (d : Cpvt). record d { state = new }) dev))
unfolding pvt_update_state_flags
update-IsCounted c new dev e differ k =
    let f : Cpvt → Cpvt = λ d. record d { state = new } in
    let counts = λ (s : CallState).
      updated_count dev.chan_count (λ (t : CallState). count_state t (map state_of dev.chans))
        (count_state s (map state_of (set_cpvt c.id f dev.chans))) c.state new s differ k.states
        (count_state-set_cpvt s c.id f dev.chans c e) in
    let number : dev.chansno ≡ u32 (length (set_cpvt c.id f dev.chans)) =
      k.number ∙ ap u32 (sym (length-set_cpvt c.id f dev.chans)) in
    if-elim IsCounted (same_state new active || same_state new released)
      (λ p.
        Keeps-IsCounted (Keeps-clear_flag c.state _) (record { number = number; states = counts }))
      (λ q. record { number = number; states = counts })

pub Keeps-emit : (e : Event) (dev : Device) → Keeps dev (emit e dev)
Keeps-emit e dev = kept_same dev _ refl refl refl

pub Keeps-enqueued : (q : Enqueued) (dev : Device) → Keeps dev (enqueued q dev).0
unfolding enqueued
Keeps-enqueued q dev = elim (Option-cases q.sent) [
  | inl e ↦ rw e (kept_same dev _ refl refl refl)
  | inr (text, e) ↦ rw e (kept_same dev _ refl refl refl)
]

pub Keeps-hangup_by_sys_chan :
    (conf : Config) (o : Outside) (call_idx cause : ℕ) (dev : Device)
    → Keeps dev (hangup_by_sys_chan conf o call_idx cause dev).0
unfolding hangup_by_sys_chan
Keeps-hangup_by_sys_chan conf o call_idx cause dev =
    let h : Hangup = record {
      chansno = dev.chansno;
      is_simcom = conf.is_simcom;
      qhup = conf.qhup;
      sys_or_incoming = true;
      past_dialing = false;
    } in
    Keeps-enqueued (at_enqueue_hangup o.ast o.format o.env h 0 call_idx cause dev.queue) dev

-- What follows an activation, where that did not fail.
pub Keeps-unless_failed :
    (f : Device → Device) (dev : Device) (r : Device × Bool)
    → ((d : Device) → Keeps d (f d))
    → Keeps dev r.0
    → Keeps dev (unless_failed f r)
Keeps-unless_failed f dev (d, true) g k = k
Keeps-unless_failed f dev (d, false) g k = kept_then k (g d)

pub Keeps-announce :
    (name : ℕ) (control : Control) (state : ChannelState) (dev : Device)
    → Keeps dev (announce name control state dev)
unfolding announce
Keeps-announce name control state dev = kept_same dev _ refl refl refl

pub Keeps-announce_active :
    (old : CallState) (c : Cpvt) (name : ℕ) (dev : Device)
    → Keeps dev (announce_active old c name dev)
unfolding announce_active
Keeps-announce_active old c name dev =
    if-elim (Keeps dev) (same_state old onhold) (λ p. Keeps-emit _ dev)
      (λ p. if-elim (Keeps dev) (not c.direction) (λ q. Keeps-emit _ dev) (λ q. Keeps-emit _ dev))
