-- ===== src/Cpvt/Calls.antt =====
-- The audio of a device through what src/cpvt.c, src/channel.c, src/at_response.c and
-- src/chan_quectel.c do with a call.
use asterisk_chan_quectel.Prelude.{
  ℕ, ◌≡◌, refl, ap, ◌∙◌, inl, inr, Bool, true, false, ◌||◌, none, some, arith, Option-cases,
  if-elim,
}
use asterisk_chan_quectel.AtCommand.{Enqueued, Hangup, at_enqueue_hangup}
use asterisk_chan_quectel.Cpvt.{
  CallState, active, onhold, dialing, alerting, incoming, waiting, released, init, same_state,
  Channel, Cpvt, Control, ChannelState, progress, ringing, state_dialing, state_ringing,
  drop_tech_pvt, Config, Device, emit, find_cpvt, change_cpvt,
}
use asterisk_chan_quectel.Cpvt.Activate.{cpvt_call_disactivate}
use asterisk_chan_quectel.Cpvt.Change.{
  Outside, clear_flag, pvt_update_state_flags, enqueued, hangup_by_sys_chan,
  change_state_no_channel, unless_failed, announce, announce_active, change_state, enter_state,
  cpvt_change_state,
}
use asterisk_chan_quectel.Cpvt.Found.{find_own, find_cpvt-set_cpvt}
use asterisk_chan_quectel.Cpvt.Audio.{
  has_channel, IsAudio, Same, Same-IsAudio, change_cpvt-IsAudio, cpvt_free-IsAudio,
  cpvt_call_disactivate-IsAudio,
}
use asterisk_chan_quectel.Cpvt.Master.{cpvt_call_activate-IsAudio}

pub Same-enqueued : (q : Enqueued) (dev : Device) → Same dev (enqueued q dev).0
unfolding enqueued
Same-enqueued q dev = elim (Option-cases q.sent) [
  | inl e ↦ rw e (record { chans = refl; timer = refl })
  | inr (text, e) ↦ rw e (record { chans = refl; timer = refl })
]

pub Same-hangup_by_sys_chan :
    (conf : Config) (o : Outside) (call_idx cause : ℕ) (dev : Device)
    → Same dev (hangup_by_sys_chan conf o call_idx cause dev).0
unfolding hangup_by_sys_chan
Same-hangup_by_sys_chan conf o call_idx cause dev =
    let h : Hangup = record {
      chansno = dev.chansno;
      is_simcom = conf.is_simcom;
      qhup = conf.qhup;
      sys_or_incoming = true;
      past_dialing = false;
    } in
    Same-enqueued (at_enqueue_hangup o.ast o.format o.env h 0 call_idx cause dev.queue) dev

Same-clear_flag : (old : CallState) (dev : Device) → Same dev (clear_flag old dev)
unfolding clear_flag
Same-clear_flag old dev = record { chans = ground arith; timer = ground arith }

pub Same-pvt_update_state_flags :
    (old new : CallState) (dev : Device) → Same dev (pvt_update_state_flags old new dev)
unfolding pvt_update_state_flags
Same-pvt_update_state_flags old new dev =
    if-elim (Same dev) (same_state new active || same_state new released)
      (λ p. let s = Same-clear_flag old _ in record { chans = s.chans; timer = s.timer })
      (λ p. record { chans = refl; timer = refl })

change_state_no_channel-IsAudio :
    (conf : Config) (o : Outside) (c : Cpvt) (new : CallState) (dev : Device)
    → IsAudio conf dev
    → IsAudio conf (change_state_no_channel conf o c new dev)
unfolding change_state_no_channel
change_state_no_channel-IsAudio conf o c new dev a =
    let ended = Same-IsAudio conf (Same-hangup_by_sys_chan conf o c.call_idx 31 dev) a in
    elim new as (λ s. IsAudio conf (change_state_no_channel conf o c s dev)) [
      | released ↦ cpvt_free-IsAudio conf c.id dev a
      | active ↦ a
      | onhold ↦ ended
      | dialing ↦ ended
      | alerting ↦ ended
      | incoming ↦ ended
      | waiting ↦ ended
      | init ↦ ended
    ]

-- What follows an activation tells Asterisk, and changes nothing of the calls.
unless_failed-IsAudio :
    (conf : Config) (f : Device → Device) (r : Device × Bool)
    → ((d : Device) → Same d (f d))
    → IsAudio conf r.0
    → IsAudio conf (unless_failed f r)
unless_failed-IsAudio conf f (d, true) g a = a
unless_failed-IsAudio conf f (d, false) g a = Same-IsAudio conf (g d) a

Same-announce :
    (name : ℕ) (control : Control) (state : ChannelState) (dev : Device)
    → Same dev (announce name control state dev)
unfolding announce
Same-announce name control state dev = record { chans = refl; timer = refl }

Same-announce_active :
    (old : CallState) (c : Cpvt) (name : ℕ) (dev : Device)
    → Same dev (announce_active old c name dev)
unfolding announce_active
Same-announce_active old c name dev = record { chans = ground arith; timer = ground arith }

change_state-IsAudio :
    (conf : Config) (o : Outside) (c d : Cpvt) (ch : Channel) (old new : CallState) (cause : ℕ)
    (dev : Device)
    → find_cpvt c.id dev.chans ≡ some d
    → has_channel d.channel ≡ true
    → IsAudio conf dev
    → IsAudio conf (change_state conf o c ch old new cause dev)
unfolding change_state
change_state-IsAudio conf o c d ch old new cause dev e h a =
    let on = cpvt_call_activate-IsAudio conf o.first o.second c.id d dev e h a in
    let off = cpvt_call_disactivate-IsAudio conf c.id dev a in
    elim new as (λ s. IsAudio conf (change_state conf o c ch old s cause dev)) [
      | dialing ↦ unless_failed-IsAudio conf _ _ (Same-announce ch.name progress state_dialing) on
      | alerting ↦ unless_failed-IsAudio conf _ _ (Same-announce ch.name ringing state_ringing) on
      | incoming ↦ on
      | active ↦ unless_failed-IsAudio conf _ _ (Same-announce_active old c ch.name) on
      | onhold ↦ Same-IsAudio conf (record { chans = refl; timer = refl }) off
      | released ↦
          let dropped = emit (drop_tech_pvt ch.name) (cpvt_call_disactivate conf c.id dev) in
          let freed =
            cpvt_free-IsAudio conf c.id dropped
              (Same-IsAudio conf (record { chans = refl; timer = refl }) off) in
          Same-IsAudio conf (record { chans = refl; timer = refl }) freed
      | waiting ↦ a
      | init ↦ a
    ]

-- The two kinds of a change, by whether the call has a channel.
change_by-IsAudio :
    (conf : Config) (o : Outside) (c d : Cpvt) (new : CallState) (cause : ℕ) (dev : Device)
    → find_cpvt c.id dev.chans ≡ some d
    → d.channel ≡ c.channel
    → IsAudio conf dev
    → IsAudio conf (elim c.channel [
      | some ch ↦ change_state conf o c ch c.state new cause dev
      | none ↦ change_state_no_channel conf o c new dev
    ])
change_by-IsAudio conf o c d new cause dev e same a = elim (Option-cases c.channel) [
  | inl n ↦ rw n (change_state_no_channel-IsAudio conf o c new dev a)
  | inr (ch, n) ↦
      let h : has_channel d.channel ≡ true = ap has_channel (same ∙ n) in
      rw n (change_state-IsAudio conf o c d ch c.state new cause dev e h a)
]

enter_state-IsAudio :
    (conf : Config) (o : Outside) (c : Cpvt) (new : CallState) (cause : ℕ) (dev : Device)
    → find_cpvt c.id dev.chans ≡ some c
    → IsAudio conf dev
    → IsAudio conf (enter_state conf o c new cause dev).0
unfolding enter_state
enter_state-IsAudio conf o c new cause dev e a =
    let f : Cpvt → Cpvt = λ d. record d { state = new } in
    let dev1 = change_cpvt c.id f dev in
    let s = Same-pvt_update_state_flags c.state new dev1 in
    let found : find_cpvt c.id (pvt_update_state_flags c.state new dev1).chans ≡ some (f c) =
      rw s.chans (find_cpvt-set_cpvt c.id f dev.chans c (λ d. refl) e) in
    let a1 =
      change_cpvt-IsAudio conf c.id f dev c e
        (λ m h. record {
          one_master = h.one_master;
          master_active = h.master_active;
          active_channel = h.active_channel;
          only_master_polls = h.only_master_polls;
        })
        a in
    if-elim (λ (r : Device × Bool). IsAudio conf r.0) (same_state new c.state) (λ p. a)
      (λ q. change_by-IsAudio conf o c (f c) new cause _ found refl (Same-IsAudio conf s a1))

-- `cpvt_change_state` keeps what the audio of the device is, whatever the new state and what the
-- environment answers.
pub cpvt_change_state-IsAudio :
    (conf : Config) (o : Outside) (id : ℕ) (new : CallState) (cause : ℕ) (dev : Device)
    → IsAudio conf dev
    → IsAudio conf (cpvt_change_state conf o id new cause dev).0
unfolding cpvt_change_state
cpvt_change_state-IsAudio conf o id new cause dev a = elim (Option-cases (find_cpvt id dev.chans)) [
  | inl e ↦ rw e a
  | inr (c, e) ↦ rw e (enter_state-IsAudio conf o c new cause dev (find_own id dev.chans c e) a)
]
