-- ===== src/Cpvt/Ports.antt =====
-- The calls of a device through `channel_fixup` and `channel_start_capture` of src/channel.c and
-- `reopen_audio_port` of src/monitor_thread.c.
use asterisk_chan_quectel.Prelude.{
  ℕ, ◌≡◌, refl, ap, inl, inr, Bool, false, not, Option, none, some, List, [], ◌∷◌, map, arith, ◌==◌,
  Option-cases, if-elim,
}
use asterisk_chan_quectel.Cpvt.{Channel, Cpvt, Config, Device, find_cpvt, change_cpvt, queue_hangup}
use asterisk_chan_quectel.Cpvt.Activate.{Start, starts, cause_unavail}
use asterisk_chan_quectel.Cpvt.Channels.{
  is_channel, take_channel, channel_fixup, enqueue_hangup, channel_start_capture, set_fd0,
  reopen_audio_port,
}
use asterisk_chan_quectel.Cpvt.Found.{All-map}
use asterisk_chan_quectel.Cpvt.Counts.{state_of, key_of, Keeps, copies-map}
use asterisk_chan_quectel.Cpvt.Kept.{kept_same, kept_then, kept_change, Keeps-cpvt_call_disactivate}
use asterisk_chan_quectel.Cpvt.Changes.{Keeps-emit}
use asterisk_chan_quectel.Cpvt.Audio.{
  polls, IsCall, IsAudio, Same, Same-IsAudio, cpvt_call_disactivate-IsAudio,
}
use asterisk_chan_quectel.Cpvt.Sound.{change_missing-IsAudio}

take_channel_key : (old : ℕ) (new : Channel) (c : Cpvt) → key_of (take_channel old new c) ≡ key_of c
unfolding take_channel
take_channel_key old new c =
    if-elim (λ (d : Cpvt). key_of d ≡ key_of c) (is_channel old c.channel) (λ p. refl) (λ q. refl)

pub Keeps-channel_fixup :
    (cpvt : Option ℕ) (old : ℕ) (new : Channel) (dev : Device)
    → Keeps dev (channel_fixup cpvt old new dev).0
unfolding channel_fixup
Keeps-channel_fixup none old new dev = kept_same dev dev refl refl refl
Keeps-channel_fixup (some id) old new dev =
    kept_change id (take_channel old new) dev (take_channel_key old new)

Keeps-enqueue_hangup :
    (channel : Option Channel) (cause : ℕ) (dev : Device)
    → Keeps dev (enqueue_hangup channel cause dev)
unfolding enqueue_hangup
Keeps-enqueue_hangup none cause dev = kept_same dev dev refl refl refl
Keeps-enqueue_hangup (some ch) cause dev = Keeps-emit (queue_hangup ch.name cause) dev

pub Keeps-channel_start_capture :
    (conf : Config) (first second : Start) (id : ℕ) (dev : Device)
    → Keeps dev (channel_start_capture conf first second id dev).0
unfolding channel_start_capture
Keeps-channel_start_capture conf first second id dev =
    if-elim (λ (r : Device × Bool). Keeps dev r.0) (starts first second)
      (λ p. kept_same dev dev refl refl refl)
      (λ q. elim (Option-cases (find_cpvt id dev.chans)) [
        | inl e ↦ rw e (kept_same dev dev refl refl refl)
        | inr (c, e) ↦ rw e (
            kept_then (Keeps-cpvt_call_disactivate conf c.id dev)
              (Keeps-enqueue_hangup c.channel cause_unavail _))
      ])

set_fd0_states :
    (fd : Option ℕ) (cs : List Cpvt)
    → map state_of (map (λ (c : Cpvt). record c { channel = set_fd0 fd c.channel }) cs)
      ≡ map state_of cs
set_fd0_states fd [] = refl
set_fd0_states fd (c ∷ cs) = ap (λ l. c.state ∷ l) (set_fd0_states fd cs)

pub Keeps-reopen_audio_port :
    (fd : Option ℕ) (dev : Device) → Keeps dev (reopen_audio_port fd dev).0
unfolding reopen_audio_port
Keeps-reopen_audio_port fd dev =
    if-elim (Keeps dev) (not (dev.chansno == 0))
      (λ p. record {
        states = set_fd0_states fd dev.chans;
        number = refl;
        counts = refl;
        addresses = λ x.
            copies-map x (λ (c : Cpvt). record c { channel = set_fd0 fd c.channel }) dev.chans
              (λ c. refl);
      })
      (λ q. kept_same dev _ refl refl refl)

-- Asterisk gives the channel that takes a call over the descriptors of the one before.
abbrev pub HasDescriptors : ℕ → Channel → Device → Type 0
HasDescriptors id new dev =
    (c : Cpvt) (ch : Channel)
    → find_cpvt id dev.chans ≡ some c
    → c.channel ≡ some ch
    → (new.fd0 ≡ ch.fd0) × (new.fd1 ≡ ch.fd1)

take_channel-IsCall :
    (uac : Bool) (m old : ℕ) (new : Channel) (c : Cpvt)
    → ((ch : Channel) → c.channel ≡ some ch → (new.fd0 ≡ ch.fd0) × (new.fd1 ≡ ch.fd1))
    → IsCall uac m c
    → IsCall uac m (take_channel old new c)
unfolding take_channel
take_channel-IsCall uac m old new c same h = elim (Option-cases c.channel) [
  | inl e ↦
      let no : is_channel old c.channel ≡ false = rw e refl in
      if-elim (IsCall uac m) (is_channel old c.channel) (λ p. absurd (ground (arith, no, p)))
        (λ q. h)
  | inr (ch, e) ↦
      let fds = same ch e in
      let polls_same : polls c.channel ≡ polls (some new) = rw (e, fds.0, fds.1) refl in
      if-elim (IsCall uac m) (is_channel old c.channel)
        (λ p. record {
          one_master = h.one_master;
          master_active = h.master_active;
          active_channel = λ on. refl;
          only_master_polls = λ u k. h.only_master_polls u (rw polls_same k);
        })
        (λ q. h)
]

pub channel_fixup-IsAudio :
    (conf : Config) (id old : ℕ) (new : Channel) (dev : Device)
    → HasDescriptors id new dev
    → IsAudio conf dev
    → IsAudio conf (channel_fixup (some id) old new dev).0
unfolding channel_fixup
channel_fixup-IsAudio conf id old new dev same a =
    change_missing-IsAudio conf id (take_channel old new) dev
      (λ c e m h. take_channel-IsCall conf.uac m old new c (λ ch. same c ch e) h) a

Same-enqueue_hangup :
    (channel : Option Channel) (cause : ℕ) (dev : Device)
    → Same dev (enqueue_hangup channel cause dev)
unfolding enqueue_hangup
Same-enqueue_hangup none cause dev = record { chans = refl; timer = refl }
Same-enqueue_hangup (some ch) cause dev = record { chans = refl; timer = refl }

pub channel_start_capture-IsAudio :
    (conf : Config) (first second : Start) (id : ℕ) (dev : Device)
    → IsAudio conf dev
    → IsAudio conf (channel_start_capture conf first second id dev).0
unfolding channel_start_capture
channel_start_capture-IsAudio conf first second id dev a =
    if-elim (λ (r : Device × Bool). IsAudio conf r.0) (starts first second) (λ p. a)
      (λ q. elim (Option-cases (find_cpvt id dev.chans)) [
        | inl e ↦ rw e a
        | inr (c, e) ↦ rw e (
            Same-IsAudio conf (Same-enqueue_hangup c.channel cause_unavail _)
              (cpvt_call_disactivate-IsAudio conf c.id dev a))
      ])

set_fd0-IsCall :
    (m : ℕ) (fd : Option ℕ) (c : Cpvt)
    → IsCall false m c
    → IsCall false m (record c { channel = set_fd0 fd c.channel })
set_fd0-IsCall m fd c h = record {
  one_master = h.one_master;
  master_active = h.master_active;
  active_channel = λ on. elim (Option-cases c.channel) [
    | inl e ↦ rw e (rw e at (h.active_channel on))
    | inr (ch, e) ↦ rw e refl
  ];
  only_master_polls = λ u. cc;
}

pub reopen_audio_port-IsAudio :
    (conf : Config) (fd : Option ℕ) (dev : Device)
    → conf.uac ≡ false
    → IsAudio conf dev
    → IsAudio conf (reopen_audio_port fd dev).0
unfolding reopen_audio_port
reopen_audio_port-IsAudio conf fd dev tty a =
    if-elim (IsAudio conf) (not (dev.chansno == 0))
      (λ p. record {
        main = a.main;
        calls =
            All-map (IsCall conf.uac a.main) (IsCall conf.uac a.main)
              (λ (c : Cpvt). record c { channel = set_fd0 fd c.channel }) dev.chans
              (rw tty (set_fd0-IsCall a.main fd)) a.calls;
        no_timer = a.no_timer;
      })
      (λ q. Same-IsAudio conf (record { chans = refl; timer = refl }) a)

-- The number of a call says nothing of the audio.
pub renumber-IsAudio :
    (conf : Config) (id call_idx : ℕ) (dev : Device)
    → IsAudio conf dev
    → IsAudio conf (change_cpvt id (λ (c : Cpvt). record c { call_idx = call_idx }) dev)
renumber-IsAudio conf id call_idx dev a =
    change_missing-IsAudio conf id (λ (c : Cpvt). record c { call_idx = call_idx }) dev
      (λ c e m h. record {
        one_master = h.one_master;
        master_active = h.master_active;
        active_channel = h.active_channel;
        only_master_polls = h.only_master_polls;
      })
      a
