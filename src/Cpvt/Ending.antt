-- ===== src/Cpvt/Ending.antt =====
-- The audio of a device through `channel_hangup` of src/channel.c, `start_pbx` of src/at_response.c and
-- `pvt_disconnect` of src/chan_quectel.c.
use mathlib.Core.Path.{subst}
use asterisk_chan_quectel.Prelude.{
  ℕ, ◌≡◌, refl, inl, inr, Bool, true, false, not, ◌&&◌, Option, none, some, List, [], ◌∷◌, arith,
  ◌==◌, Bool-cases, Option-cases, if-elim,
}
use asterisk_chan_quectel.AtCommand.{Hangup, at_enqueue_hangup, at_hangup_immediately}
use asterisk_chan_quectel.Cpvt.{
  CallState, dialing, released, init, same_state, Cpvt, Config, Device, find_cpvt, change_cpvt, Got,
}
use asterisk_chan_quectel.Cpvt.Activate.{disactivate, cpvt_call_disactivate}
use asterisk_chan_quectel.Cpvt.Change.{Outside, cause_normal_unspecified, enqueued}
use asterisk_chan_quectel.Cpvt.Channels.{
  channel_new, is_channel, hangup_call, channel_hangup, pbx_failed, run_pbx, start_pbx,
  release_call, release_calls, pvt_disconnect,
}
use asterisk_chan_quectel.Cpvt.Found.{find_same, find_own, find_cpvt-set_cpvt, set_cpvt_missing}
use asterisk_chan_quectel.Cpvt.Audio.{
  IsCall, IsAudio, Same-IsAudio, change_cpvt-IsAudio, cpvt_free-IsAudio, disactivated,
  disactivate_lem, disactivate-IsAudio,
}
use asterisk_chan_quectel.Cpvt.Calls.{
  Same-enqueued, Same-hangup_by_sys_chan, cpvt_change_state-IsAudio,
}
use asterisk_chan_quectel.Cpvt.Sound.{change_missing-IsAudio, channel_new-IsAudio}

-- The call that is disactivated is found as one that is not activated.
found_off :
    (conf : Config) (c : Cpvt) (dev : Device)
    → find_cpvt c.id dev.chans ≡ some c
    → (d : Cpvt) × (find_cpvt c.id (disactivate conf c dev).chans ≡ some d) × (d.activated ≡ false)
found_off conf c dev e = elim (Bool-cases c.activated) [
  | inl on ↦
      let same : (d : Cpvt) → (disactivated conf d).id ≡ d.id = λ d. ground arith in
      (
        disactivated conf c,
        rw (disactivate_lem conf c dev on).chans
            (find_cpvt-set_cpvt c.id (disactivated conf) dev.chans c same e),
        ground arith,
      )
  | inr off ↦
      let same : disactivate conf c dev ≡ dev = unfold disactivate in (rw off refl) in
      (c, rw same e, off)
]

-- A call without a channel that is not activated.
no_channel-IsCall :
    (uac : Bool) (m : ℕ) (d : Cpvt)
    → d.activated ≡ false
    → IsCall uac m d
    → IsCall uac m (record d { channel = none })
no_channel-IsCall uac m d off h = record {
  one_master = h.one_master;
  master_active = h.master_active;
  active_channel = λ on. cc;
  only_master_polls = λ u p. cc;
}

disactivate_no_channel-IsAudio :
    (conf : Config) (c : Cpvt) (dev : Device)
    → find_cpvt c.id dev.chans ≡ some c
    → IsAudio conf dev
    → IsAudio conf
        (change_cpvt c.id (λ (d : Cpvt). record d { channel = none }) (disactivate conf c dev))
disactivate_no_channel-IsAudio conf c dev e a =
    let (d, found, off) = found_off conf c dev e in
    change_cpvt-IsAudio conf c.id (λ (d : Cpvt). record d { channel = none }) _ d found
      (λ m. no_channel-IsCall conf.uac m d off) (disactivate-IsAudio conf c dev e a)

-- The end of `channel_hangup`'s part for a call.
drop_channel-IsAudio :
    (conf : Config) (id : ℕ) (dev : Device)
    → IsAudio conf dev
    → IsAudio conf (
        change_cpvt id
          (λ (d : Cpvt). record d { channel = none })
          (cpvt_call_disactivate conf id dev))
unfolding cpvt_call_disactivate
drop_channel-IsAudio conf id dev a = elim (Option-cases (find_cpvt id dev.chans)) [
  | inl e ↦ rw e (
      Same-IsAudio conf
        (record {
          chans = set_cpvt_missing id (λ (d : Cpvt). record d { channel = none }) dev.chans e;
          timer = refl;
        })
        a)
  | inr (c, e) ↦ rw e (
      subst
        (λ (n : ℕ).
          IsAudio conf
            (change_cpvt n (λ (d : Cpvt). record d { channel = none }) (disactivate conf c dev)))
        (find_same id dev.chans c e)
        (disactivate_no_channel-IsAudio conf c dev (find_own id dev.chans c e) a))
]

-- A flag that says nothing of the audio.
pub need_hangup-IsAudio :
    (conf : Config) (id : ℕ) (b : Bool) (dev : Device)
    → IsAudio conf dev
    → IsAudio conf (change_cpvt id (λ (d : Cpvt). record d { need_hangup = b }) dev)
need_hangup-IsAudio conf id b dev a =
    change_missing-IsAudio conf id (λ (d : Cpvt). record d { need_hangup = b }) dev
      (λ c e m h. record {
        one_master = h.one_master;
        master_active = h.master_active;
        active_channel = h.active_channel;
        only_master_polls = h.only_master_polls;
      })
      a

hangup_call-IsAudio :
    (conf : Config) (o : Outside) (c : Cpvt) (cause : ℕ) (dev : Device)
    → IsAudio conf dev
    → IsAudio conf (hangup_call conf o c cause dev)
unfolding hangup_call
hangup_call-IsAudio conf o c cause dev a =
    let h : Hangup = record {
      chansno = dev.chansno;
      is_simcom = conf.is_simcom;
      qhup = conf.qhup;
      sys_or_incoming = c.direction;
      past_dialing = not (same_state c.state init) && not (same_state c.state dialing);
    } in
    let q = at_enqueue_hangup o.ast o.format o.env h c.id c.call_idx cause dev.queue in
    let r = enqueued q dev in
    let kept = Same-IsAudio conf (Same-enqueued q dev) a in
    let asked =
      if-elim (IsAudio conf) r.1 (λ p. kept) (λ p. need_hangup-IsAudio conf c.id false r.0 kept) in
    drop_channel-IsAudio conf c.id _ (if-elim (IsAudio conf) c.need_hangup (λ p. asked) (λ p. a))

-- `channel_hangup` keeps what the audio of the device is.
pub channel_hangup-IsAudio :
    (conf : Config) (o : Outside) (channel : ℕ) (cpvt : Option ℕ) (cause : ℕ) (dev : Device)
    → IsAudio conf dev
    → IsAudio conf (channel_hangup conf o channel cpvt cause dev)
unfolding channel_hangup
channel_hangup-IsAudio conf o channel none cause dev a =
    Same-IsAudio conf (record { chans = refl; timer = refl }) a
channel_hangup-IsAudio conf o channel (some id) cause dev a =
    elim (Option-cases (find_cpvt id dev.chans)) [
      | inl e ↦ rw e (Same-IsAudio conf (record { chans = refl; timer = refl }) a)
      | inr (c, e) ↦
          let a' =
            if-elim (IsAudio conf) (is_channel channel c.channel)
              (λ p. hangup_call-IsAudio conf o c cause dev a) (λ p. a) in
          rw e (Same-IsAudio conf (record { chans = refl; timer = refl }) a')
    ]

pbx_failed-IsAudio :
    (conf : Config) (o : Outside) (channel : Option ℕ) (id : ℕ) (dev : Device)
    → IsAudio conf dev
    → IsAudio conf (pbx_failed conf o channel id dev)
unfolding pbx_failed
pbx_failed-IsAudio conf o none id dev a = a
pbx_failed-IsAudio conf o (some name) id dev a =
    channel_hangup-IsAudio conf o name none 0 _
      (cpvt_free-IsAudio conf id _ (Same-IsAudio conf (record { chans = refl; timer = refl }) a))

run_pbx-IsAudio :
    (conf : Config) (o : Outside) (channel : Option ℕ) (pbx : Bool) (call_idx : ℕ) (made : Option ℕ)
    (dev : Device)
    → IsAudio conf dev
    → IsAudio conf (run_pbx conf o channel pbx call_idx made dev).0
unfolding run_pbx
run_pbx-IsAudio conf o channel pbx call_idx none dev a =
    Same-IsAudio conf (Same-hangup_by_sys_chan conf o call_idx 27 dev) a
run_pbx-IsAudio conf o channel pbx call_idx (some id) dev a =
    let kept = need_hangup-IsAudio conf id true dev a in
    if-elim (λ (x : Device × Bool). IsAudio conf x.0) pbx (λ p. kept)
      (λ p. pbx_failed-IsAudio conf o channel id _ kept)

-- `start_pbx` keeps what the audio of the device is, also where the dialplan does not start.
pub start_pbx-IsAudio :
    (conf : Config) (o : Outside) (got : Got) (channel : Option ℕ) (pbx : Bool) (call_idx : ℕ)
    (state : CallState) (dev : Device)
    → IsAudio conf dev
    → IsAudio conf (start_pbx conf o got channel pbx call_idx state dev).0
unfolding start_pbx
start_pbx-IsAudio conf o got channel pbx call_idx state dev a =
    let r = channel_new conf o got channel call_idx true state false dev in
    run_pbx-IsAudio conf o channel pbx call_idx r.0 r.1
      (channel_new-IsAudio conf o got channel call_idx true state false dev a)

release_calls-IsAudio :
    (conf : Config) (o : ℕ → Outside) (cs : List Cpvt) (dev : Device)
    → IsAudio conf dev
    → IsAudio conf (release_calls conf o cs dev)
unfolding release_calls release_call
release_calls-IsAudio conf o [] dev a = a
release_calls-IsAudio conf o (c ∷ cs) dev a =
    let asked =
      at_hangup_immediately (o c.id).ast (o c.id).format (o c.id).env conf.is_simcom c.id c.call_idx
        cause_normal_unspecified dev.queue in
    let kept =
      need_hangup-IsAudio conf c.id false _ (Same-IsAudio conf (Same-enqueued asked dev) a) in
    release_calls-IsAudio conf o cs _
      (cpvt_change_state-IsAudio conf (o c.id) c.id released cause_normal_unspecified _ kept)

-- `pvt_disconnect` keeps what the audio of the device is while it releases the calls.
pub pvt_disconnect-IsAudio :
    (conf : Config) (o : ℕ → Outside) (dev : Device)
    → IsAudio conf dev
    → IsAudio conf (pvt_disconnect conf o dev)
unfolding pvt_disconnect
pvt_disconnect-IsAudio conf o dev a =
    if-elim (IsAudio conf) (not (dev.chansno == 0))
      (λ p. release_calls-IsAudio conf o dev.chans dev a) (λ p. a)
