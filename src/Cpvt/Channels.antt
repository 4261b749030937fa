-- ===== src/Cpvt/Channels.antt =====
-- What the rest of the driver does with a call: `channel_new` and `channel_hangup` of src/channel.c,
-- `start_pbx` of src/at_response.c, the loop of `pvt_disconnect` of src/chan_quectel.c, and what takes
-- the audio or the channel from a call in src/channel.c and src/monitor_thread.c. Only what they do to
-- the device's calls is kept.
use asterisk_chan_quectel.Prelude.{
  ℕ, Bool, true, false, not, ◌&&◌, Option, none, some, List, [], ◌∷◌, map, ◌==◌, if◌then◌else◌,
}
use asterisk_chan_quectel.AtCommand.{Hangup, at_enqueue_hangup, at_hangup_immediately}
use asterisk_chan_quectel.Cpvt.{
  CallState, dialing, released, init, same_state, Channel, Cpvt, set_state, state_down,
  drop_tech_pvt, queue_hangup, Config, Device, emit, find_cpvt, change_cpvt, Got, cpvt_alloc,
  cpvt_free,
}
use asterisk_chan_quectel.Cpvt.Activate.{Start, starts, cause_unavail, cpvt_call_disactivate}
use asterisk_chan_quectel.Cpvt.Change.{
  Outside, cause_normal_unspecified, enqueued, hangup_by_sys_chan, cpvt_change_state,
}

-- `channel_new` from the assignment of `cpvt->channel` on.
unfoldable pub open_channel : Config → Outside → ℕ → CallState → ℕ → Device → Device
open_channel conf o id state name dev =
    let channel : Channel = record {
      name = name;
      fd0 = if conf.uac then none else dev.audio_fd;
      fd1 = dev.a_timer;
    } in
    let dev' = change_cpvt id (λ (c : Cpvt). record c { channel = some channel }) dev in
    if not (same_state state init)
    then (cpvt_change_state conf o id state cause_normal_unspecified dev').0
    else dev'

-- What follows `cpvt_alloc`; `channel` is what `ast_channel_alloc` gives.
unfoldable pub with_channel :
    Config → Outside → Option ℕ → CallState → Option ℕ → Device → Option ℕ × Device
unfolding open_channel
with_channel conf o channel state none dev = (none, dev)
with_channel conf o none state (some id) dev = (none, cpvt_free id dev)
with_channel conf o (some name) state (some id) dev =
    (some id, open_channel conf o id state name dev)

-- The new call's address, or `none` for NULL.
unfoldable pub channel_new :
    Config → Outside → Got → Option ℕ → ℕ → Bool → CallState → Bool → Device → Option ℕ × Device
unfolding with_channel
channel_new conf o got channel call_idx dir state local_channel dev =
    let (made, dev') = cpvt_alloc conf got call_idx dir init local_channel dev in
    with_channel conf o channel state made dev'

-- The first part of `channel_hangup`, for a call that has this channel.
unfoldable pub hangup_call : Config → Outside → Cpvt → ℕ → Device → Device
unfolding enqueued
hangup_call conf o c cause dev =
    let h : Hangup = record {
      chansno = dev.chansno;
      is_simcom = conf.is_simcom;
      qhup = conf.qhup;
      sys_or_incoming = c.direction;
      past_dialing = not (same_state c.state init) && not (same_state c.state dialing);
    } in
    let (dev1, failed) =
      enqueued (at_enqueue_hangup o.ast o.format o.env h c.id c.call_idx cause dev.queue) dev in
    let asked =
      if failed
      then dev1
      else change_cpvt c.id (λ (d : Cpvt). record d { need_hangup = false }) dev1 in
    let dev2 = cpvt_call_disactivate conf c.id (if c.need_hangup then asked else dev) in
    change_cpvt c.id (λ (d : Cpvt). record d { channel = none }) dev2

-- `cpvt->channel == channel`, by the name.
abbrev pub is_channel : ℕ → Option Channel → Bool
is_channel name none = false
is_channel name (some ch) = ch.name == name

abbrev pub hangup_found : Config → Outside → ℕ → Option Cpvt → ℕ → Device → Device
hangup_found conf o channel none cause dev = dev
hangup_found conf o channel (some c) cause dev =
    if is_channel channel c.channel then hangup_call conf o c cause dev else dev

-- `channel` is the channel's name, `cpvt` what `ast_channel_tech_pvt` gives.
unfoldable pub channel_hangup : Config → Outside → ℕ → Option ℕ → ℕ → Device → Device
unfolding hangup_call
channel_hangup conf o channel cpvt cause dev =
    let dev' : Device = elim cpvt [
      | none ↦ dev
      | some id ↦ hangup_found conf o channel (find_cpvt id dev.chans) cause dev
    ] in
    emit (set_state channel state_down) (emit (drop_tech_pvt channel) dev')

-- What `start_pbx` does where `ast_pbx_start` fails; `ast_hangup` reaches `channel_hangup` without a
-- call.
unfoldable pub pbx_failed : Config → Outside → Option ℕ → ℕ → Device → Device
unfolding channel_hangup
pbx_failed conf o none id dev = dev
pbx_failed conf o (some name) id dev =
    channel_hangup conf o name none 0 (cpvt_free id (emit (drop_tech_pvt name) dev))

-- What follows `channel_new` there. `pbx` says whether `ast_pbx_start` succeeds.
unfoldable pub run_pbx : Config → Outside → Option ℕ → Bool → ℕ → Option ℕ → Device → Device × Bool
unfolding hangup_by_sys_chan pbx_failed
run_pbx conf o channel pbx call_idx none dev = ((hangup_by_sys_chan conf o call_idx 27 dev).0, true)
run_pbx conf o channel pbx call_idx (some id) dev =
    let dev' = change_cpvt id (λ (c : Cpvt). record c { need_hangup = true }) dev in
    if pbx then (dev', false) else (pbx_failed conf o channel id dev', true)

-- `true` is the result -1.
unfoldable pub start_pbx :
    Config → Outside → Got → Option ℕ → Bool → ℕ → CallState → Device → Device × Bool
unfolding run_pbx
start_pbx conf o got channel pbx call_idx state dev =
    let (made, dev') = channel_new conf o got channel call_idx true state false dev in
    run_pbx conf o channel pbx call_idx made dev'

-- The body of the loop of `pvt_disconnect`.
unfoldable pub release_call : Config → Outside → Cpvt → Device → Device
unfolding enqueued
release_call conf o c dev =
    let asked =
      at_hangup_immediately o.ast o.format o.env conf.is_simcom c.id c.call_idx
        cause_normal_unspecified dev.queue in
    let dev1 =
      change_cpvt c.id (λ (d : Cpvt). record d { need_hangup = false }) (enqueued asked dev).0 in
    (cpvt_change_state conf o c.id released cause_normal_unspecified dev1).0

-- `AST_LIST_TRAVERSE_SAFE_BEGIN` over the calls, as they were at the start; the environment answers for
-- each call by itself.
unfoldable pub release_calls : Config → (ℕ → Outside) → List Cpvt → Device → Device
unfolding release_call
release_calls conf o [] dev = dev
release_calls conf o (c ∷ cs) dev = release_calls conf o cs (release_call conf (o c.id) c dev)

-- The first statement of `pvt_disconnect`.
unfoldable pub pvt_disconnect : Config → (ℕ → Outside) → Device → Device
unfolding release_calls
pvt_disconnect conf o dev =
    if not (dev.chansno == 0) then release_calls conf o dev.chans dev else dev

-- A call whose channel is the old one gets the new one.
unfoldable pub take_channel : ℕ → Channel → Cpvt → Cpvt
take_channel old new c = if is_channel old c.channel then record c { channel = some new } else c

-- `cpvt` is what `ast_channel_tech_pvt` gives; `true` is the result -1.
unfoldable pub channel_fixup : Option ℕ → ℕ → Channel → Device → Device × Bool
unfolding take_channel
channel_fixup none old new dev = (dev, true)
channel_fixup (some id) old new dev = (change_cpvt id (take_channel old new) dev, false)

-- `channel_enqueue_hangup` of a call's channel.
unfoldable pub enqueue_hangup : Option Channel → ℕ → Device → Device
enqueue_hangup none cause dev = dev
enqueue_hangup (some ch) cause dev = emit (queue_hangup ch.name cause) dev

abbrev pub capture_failed : Config → Option Cpvt → Device → Device
capture_failed conf none dev = dev
capture_failed conf (some c) dev =
    enqueue_hangup c.channel cause_unavail (cpvt_call_disactivate conf c.id dev)

-- `true` is a negative result.
unfoldable pub channel_start_capture : Config → Start → Start → ℕ → Device → Device × Bool
unfolding enqueue_hangup
channel_start_capture conf first second id dev =
    if starts first second
    then (dev, false)
    else (capture_failed conf (find_cpvt id dev.chans) dev, true)

abbrev pub set_fd0 : Option ℕ → Option Channel → Option Channel
set_fd0 fd none = none
set_fd0 fd (some ch) = some (record ch { fd0 = fd })

-- `fd` is what `tty_open` gives; the result says whether it is more than 0. A call without a channel
-- is passed over.
unfoldable pub reopen_audio_port : Option ℕ → Device → Device × Bool
reopen_audio_port fd dev =
    let dev' : Device = record dev { audio_fd = fd } in
    (
      if not (dev.chansno == 0)
          then record dev' {
            chans = map (λ (c : Cpvt). record c { channel = set_fd0 fd c.channel }) dev.chans;
          }
          else dev',
      elim fd [ none ↦ false | some n ↦ not (n == 0) ],
    )
