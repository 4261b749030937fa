-- ===== src/Cpvt/Master.antt =====
-- `cpvt_call_activate` of src/cpvt.c: the audio goes from one call to another.
use asterisk_chan_quectel.Prelude.{
  ℕ, ◌≡◌, refl, inl, inr, Bool, true, not, ◌&&◌, ◌||◌, Option, none, some, map, arith, ◌==◌, ==_iff,
  if◌then◌else◌, All, Bool-cases, Option-cases, if-elim,
}
use asterisk_chan_quectel.Cpvt.{Cpvt, Config, Device, find_cpvt}
use asterisk_chan_quectel.Cpvt.Activate.{
  Start, starts, cpvt_stop_uac, set_fds, attach_stream, reset_flags, close_fds, yield_master,
  other_master, grant, refuse, take_audio, activate, cpvt_call_activate,
}
use asterisk_chan_quectel.Cpvt.Found.{find_own, All-set_cpvt, All-map, find_cpvt-map}
use asterisk_chan_quectel.Cpvt.Audio.{
  has_channel, IsCall, IsAudio, Same, change_cpvt-IsAudio, Same-cpvt_stop_uac,
}

-- The loop over the calls makes the address given the only one that a master can have.
yield_master-IsCall :
    (uac : Bool) (m id : ℕ) (c : Cpvt) → IsCall uac m c → IsCall uac id (yield_master uac id c)
unfolding yield_master
yield_master-IsCall uac m id c h = elim (Bool-cases (c.id == id)) [
  | inl p ↦ rw p (record {
    one_master = λ k. (==_iff c.id id).0 p;
    master_active = h.master_active;
    active_channel = h.active_channel;
    only_master_polls = h.only_master_polls;
  })
  | inr q ↦ rw q (record {
    one_master = ground arith;
    master_active = ground arith;
    active_channel = ground arith;
    only_master_polls = ground arith;
  })
]

yield_master_same : (uac : Bool) (id : ℕ) (c : Cpvt) → (yield_master uac id c).id ≡ c.id
unfolding yield_master
yield_master_same uac id c = ground arith

yield_master_fixed :
    (uac : Bool) (id : ℕ) (c : Cpvt) → (c.id == id) ≡ true → yield_master uac id c ≡ c
unfolding yield_master
yield_master_fixed uac id c p = rw p refl

-- A device in which only the call with the address `id` can be the master, and that has the call.
record IsReady (conf : Config) (id : ℕ) (c : Cpvt) (dev : Device) : Type 0 where
  calls : All (IsCall conf.uac id) dev.chans
  no_timer : conf.uac ≡ true → dev.a_timer ≡ none
  found : find_cpvt id dev.chans ≡ some c

IsReady-IsAudio :
    (conf : Config) (id : ℕ) (c : Cpvt) (dev : Device) → IsReady conf id c dev → IsAudio conf dev
IsReady-IsAudio conf id c dev r = record { main = id; calls = r.calls; no_timer = r.no_timer }

Same-IsReady :
    (conf : Config) (id : ℕ) (c : Cpvt) (dev dev' : Device)
    → Same dev dev'
    → IsReady conf id c dev
    → IsReady conf id c dev'
Same-IsReady conf id c dev dev' s r = record {
  calls = rw s.chans r.calls;
  no_timer = λ u. rw s.timer (r.no_timer u);
  found = rw s.chans r.found;
}

grant-IsAudio :
    (conf : Config) (c : Cpvt) (fd : ℕ) (dev : Device)
    → has_channel c.channel ≡ true
    → IsReady conf c.id c dev
    → IsAudio conf (grant c fd dev)
unfolding grant
grant-IsAudio conf c fd dev ch r =
    let f : Cpvt → Cpvt = λ d. record d {
      channel = set_fds (some fd) dev.a_timer d.channel;
      activated = true;
      master = true;
    } in
    let granted : IsCall conf.uac c.id (f c) = record {
      one_master = λ h. refl;
      master_active = λ h. refl;
      active_channel = λ h. ground arith;
      only_master_polls = λ u p. refl;
    } in
    record {
      main = c.id;
      calls = All-set_cpvt (IsCall conf.uac c.id) c.id f dev.chans c r.found granted r.calls;
      no_timer = r.no_timer;
    }

refuse-IsAudio :
    (conf : Config) (c : Cpvt) (dev : Device)
    → IsReady conf c.id c dev
    → IsAudio conf (refuse c dev)
unfolding refuse
refuse-IsAudio conf c dev r =
    let f : Cpvt → Cpvt = λ d. reset_flags (close_fds d) in
    let a =
      change_cpvt-IsAudio conf c.id f dev c r.found
        (λ m h. record {
          one_master = ground arith;
          master_active = ground arith;
          active_channel = ground arith;
          only_master_polls = ground arith;
        })
        (IsReady-IsAudio conf c.id c dev r) in
    elim (Option-cases c.channel) [
      | inl e ↦ rw e a
      | inr (ch, e) ↦ rw e (record { main = a.main; calls = a.calls; no_timer = a.no_timer })
    ]

take_audio-IsAudio :
    (conf : Config) (first second : Start) (replacing : Bool) (c : Cpvt) (audio : Option ℕ)
    (dev : Device)
    → has_channel c.channel ≡ true
    → IsReady conf c.id c dev
    → IsAudio conf (take_audio conf first second replacing c audio dev).0
unfolding take_audio
take_audio-IsAudio conf first second replacing c none dev ch r = IsReady-IsAudio conf c.id c dev r
take_audio-IsAudio conf first second replacing c (some fd) dev ch r =
    let P = λ (x : Device × Bool). IsAudio conf x.0 in
    let stopped : IsReady conf c.id c (if replacing then cpvt_stop_uac dev else dev) =
      if-elim (IsReady conf c.id c) replacing
        (λ p. Same-IsReady conf c.id c dev _ (Same-cpvt_stop_uac dev) r) (λ p. r) in
    if-elim P conf.uac
      (λ u.
        if-elim P (starts first second) (λ s. grant-IsAudio conf c fd _ ch stopped)
          (λ s. refuse-IsAudio conf c _ stopped))
      (λ u. grant-IsAudio conf c fd dev ch r)

activate-IsAudio :
    (conf : Config) (first second : Start) (c : Cpvt) (dev : Device)
    → find_cpvt c.id dev.chans ≡ some c
    → has_channel c.channel ≡ true
    → IsAudio conf dev
    → IsAudio conf (activate conf first second c dev).0
unfolding activate attach_stream
activate-IsAudio conf first second c dev e ch a =
    let dev1 : Device = record dev { chans = map (yield_master conf.uac c.id) dev.chans } in
    let ready : IsReady conf c.id c dev1 = record {
      calls =
          All-map (IsCall conf.uac a.main) (IsCall conf.uac c.id) (yield_master conf.uac c.id)
            dev.chans (λ d. yield_master-IsCall conf.uac a.main c.id d) a.calls;
      no_timer = a.no_timer;
      found =
          find_cpvt-map c.id (yield_master conf.uac c.id) dev.chans c
            (yield_master_same conf.uac c.id) (yield_master_fixed conf.uac c.id) e;
    } in
    let audio = take_audio-IsAudio conf first second (other_master c.id dev.chans) c dev.audio_fd in
    if-elim (λ (r : Device × Bool). IsAudio conf r.0) (c.master || c.local_channel) (λ p. a)
      (λ p.
        if-elim
          (λ (d : Device).
            IsAudio conf
              (take_audio conf first second (other_master c.id dev.chans) c dev.audio_fd d).0)
          (not c.activated && not conf.uac && conf.multiparty)
          (λ q.
            audio _ ch
              (record { calls = ready.calls; no_timer = ready.no_timer; found = ready.found }))
          (λ q. audio dev1 ch ready))

-- `cpvt_call_activate` of a call that has a channel keeps what the audio of the device is, also
-- where the capture does not start.
pub cpvt_call_activate-IsAudio :
    (conf : Config) (first second : Start) (id : ℕ) (c : Cpvt) (dev : Device)
    → find_cpvt id dev.chans ≡ some c
    → has_channel c.channel ≡ true
    → IsAudio conf dev
    → IsAudio conf (cpvt_call_activate conf first second id dev).0
unfolding cpvt_call_activate
cpvt_call_activate-IsAudio conf first second id c dev e ch a =
    rw e (activate-IsAudio conf first second c dev (find_own id dev.chans c e) ch a)
