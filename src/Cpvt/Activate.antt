-- ===== src/Cpvt/Activate.antt =====
-- `cpvt_call_activate` and `cpvt_call_disactivate` of src/cpvt.c: which call the audio of the device
-- belongs to.
use asterisk_chan_quectel.Prelude.{
  ℕ, suc, Bool, true, false, not, ◌&&◌, ◌||◌, Option, none, some, List, [], ◌∷◌, ◌++◌, map, ◌==◌,
  if◌then◌else◌, sub_u32,
}
use asterisk_chan_quectel.MixBuffer.{mixb_attach, mixb_detach}
use asterisk_chan_quectel.Cpvt.{
  Channel, Cpvt, queue_hangup, pcm_drop_capture, pcm_drop_playback, Config, Device, emit, find_cpvt,
  change_cpvt,
}

-- What `pcm_start_capture` returns: 0 or more, -EINTR or -EAGAIN, another error.
pub data Start : Type 0 where
  started again failed : Start

-- Its two calls, the second one made where the first gives `again`.
abbrev pub starts : Start → Start → Bool
starts started second = true
starts again started = true
starts again again = false
starts again failed = false
starts failed second = false

-- AST_CAUSE_REQUESTED_CHAN_UNAVAIL
abbrev pub cause_unavail : ℕ
cause_unavail = 44

unfoldable pub cpvt_stop_uac : Device → Device
cpvt_stop_uac dev =
    let dev' = if dev.icard then emit pcm_drop_capture dev else dev in
    if dev.ocard then emit pcm_drop_playback dev' else dev'

abbrev pub set_fds : Option ℕ → Option ℕ → Option Channel → Option Channel
set_fds fd0 fd1 none = none
set_fds fd0 fd1 (some ch) = some (record ch { fd0 = fd0; fd1 = fd1 })

-- `mixb_attach` of the call's stream.
unfoldable pub attach_stream : ℕ → Device → Device
attach_stream id dev = record dev {
  write_mixb = mixb_attach dev.write_mixb;
  owners = dev.owners ++ (id ∷ []);
}

-- The place of the first stream of the owner.
unfoldable pub place_of : ℕ → List ℕ → Option ℕ
place_of id [] = none
place_of id (o ∷ os) =
    if o == id then some 0 else elim (place_of id os) [ none ↦ none | some i ↦ some (suc i) ]

unfoldable pub remove_owner : ℕ → List ℕ → List ℕ
remove_owner id [] = []
remove_owner id (o ∷ os) = if o == id then os else o ∷ remove_owner id os

-- `mixb_detach` of a stream at its place; one that is in no list is only counted.
unfoldable pub detach_at : ℕ → Option ℕ → Device → Device
detach_at id none dev = record dev {
  write_mixb = record dev.write_mixb { attached = sub_u32 dev.write_mixb.attached 1 };
}
detach_at id (some i) dev = record dev {
  write_mixb = mixb_detach dev.write_mixb i;
  owners = remove_owner id dev.owners;
}

unfoldable pub detach_stream : ℕ → Device → Device
unfolding detach_at place_of
detach_stream id dev = detach_at id (place_of id dev.owners) dev

-- CALL_FLAG_ACTIVATED | CALL_FLAG_MASTER
abbrev pub reset_flags : Cpvt → Cpvt
reset_flags c = record c { activated = false; master = false }

abbrev pub close_fds : Cpvt → Cpvt
close_fds c = record c { channel = set_fds none none c.channel }

unfoldable pub disactivate : Config → Cpvt → Device → Device
unfolding cpvt_stop_uac detach_stream
disactivate conf c dev =
    if not c.activated
    then dev
    else (let dev' =
          if conf.uac
          then (change_cpvt c.id close_fds (if c.master then cpvt_stop_uac dev else dev))
          else (if conf.multiparty then detach_stream c.id dev else dev) in
        change_cpvt c.id reset_flags dev')

abbrev pub disactivate_found : Config → Option Cpvt → Device → Device
disactivate_found conf none dev = dev
disactivate_found conf (some c) dev = disactivate conf c dev

-- A pointer to a call that is not in the list is none of the program's.
unfoldable pub cpvt_call_disactivate : Config → ℕ → Device → Device
unfolding disactivate
cpvt_call_disactivate conf id dev = disactivate_found conf (find_cpvt id dev.chans) dev

-- The descriptors of another call's channel, when a call is made the master.
abbrev pub yield_fds : Bool → Bool → Option ℕ → Option Channel → Option Channel
yield_fds uac activated pipe none = none
yield_fds uac activated pipe (some ch) =
    if uac
    then some (record ch { fd0 = none; fd1 = none })
    else (if not activated
        then some (record ch { fd1 = none })
        else some (record ch { fd0 = pipe; fd1 = none }))

-- The body of the loop over the calls.
unfoldable pub yield_master : Bool → ℕ → Cpvt → Cpvt
yield_master uac id c =
    if c.id == id
    then c
    else record c { master = false; channel = yield_fds uac c.activated c.rd_pipe c.channel }

-- `replacing_master`
unfoldable pub other_master : ℕ → List Cpvt → Bool
other_master id [] = false
other_master id (c ∷ cs) = not (c.id == id) && c.master || other_master id cs

-- The last part of `cpvt_call_activate`.
unfoldable pub grant : Cpvt → ℕ → Device → Device
grant c fd dev =
    change_cpvt c.id
      (λ (d : Cpvt). record d {
        channel = set_fds (some fd) dev.a_timer d.channel;
        activated = true;
        master = true;
      })
      dev

-- Its branch for a capture that does not start.
unfoldable pub refuse : Cpvt → Device → Device
refuse c dev =
    let dev' = change_cpvt c.id (λ (d : Cpvt). reset_flags (close_fds d)) dev in
    elim c.channel [ none ↦ dev' | some ch ↦ emit (queue_hangup ch.name cause_unavail) dev' ]

-- The part under `if (pvt->audio_fd >= 0)`.
unfoldable pub take_audio : Config → Start → Start → Bool → Cpvt → Option ℕ → Device → Device × Bool
unfolding cpvt_stop_uac grant refuse
take_audio conf first second replacing c none dev = (dev, false)
take_audio conf first second replacing c (some fd) dev =
    if conf.uac
    then (let dev' = if replacing then cpvt_stop_uac dev else dev in
        if starts first second then (grant c fd dev', false) else (refuse c dev', true))
    else (grant c fd dev, false)

-- `true` is the result -1.
unfoldable pub activate : Config → Start → Start → Cpvt → Device → Device × Bool
unfolding yield_master other_master attach_stream take_audio
activate conf first second c dev =
    if c.master || c.local_channel
    then (dev, false)
    else (let dev1 : Device = record dev { chans = map (yield_master conf.uac c.id) dev.chans } in
        let dev2 =
          if not c.activated && not conf.uac && conf.multiparty
          then attach_stream c.id dev1
          else dev1 in
        take_audio conf first second (other_master c.id dev.chans) c dev.audio_fd dev2)

abbrev pub activate_found : Config → Start → Start → Option Cpvt → Device → Device × Bool
activate_found conf first second none dev = (dev, false)
activate_found conf first second (some c) dev = activate conf first second c dev

unfoldable pub cpvt_call_activate : Config → Start → Start → ℕ → Device → Device × Bool
unfolding activate
cpvt_call_activate conf first second id dev =
    activate_found conf first second (find_cpvt id dev.chans) dev
