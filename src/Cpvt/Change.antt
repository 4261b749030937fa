-- ===== src/Cpvt/Change.antt =====
-- `cpvt_change_state` of src/cpvt.c and the functions under it: a call in a new state.
use asterisk_chan_quectel.Prelude.{
  ℕ, ◌+◌, Bool, true, false, not, ◌||◌, Option, none, some, if◌then◌else◌, u8, sub_u8,
}
use asterisk_chan_quectel.Queue.Run.{Ast, Env}
use asterisk_chan_quectel.AtCommand.{Format, Enqueued, Hangup, at_enqueue_hangup}
use asterisk_chan_quectel.Cpvt.{
  CallState, active, onhold, dialing, alerting, incoming, waiting, released, init, same_state,
  Channel, Cpvt, Control, ChannelState, progress, ringing, answer, hold, unhold, state_dialing,
  state_ringing, state_up, queue_control, set_state, queue_hangup, drop_tech_pvt, write_line,
  Config, Device, emit, find_cpvt, change_cpvt, set_count, cpvt_free,
}
use asterisk_chan_quectel.Cpvt.Activate.{Start, cpvt_call_activate, cpvt_call_disactivate}

-- What the environment answers during one operation.
pub record Outside : Type 0 where
  pub ast : Ast
  pub format : Format
  pub env : Env
  pub first : Start
  pub second : Start

-- AST_CAUSE_NORMAL_UNSPECIFIED
abbrev pub cause_normal_unspecified : ℕ
cause_normal_unspecified = 31

-- The inner `switch` of `pvt_update_state_flags`.
unfoldable pub clear_flag : CallState → Device → Device
clear_flag init dev = record dev { dialing = false }
clear_flag dialing dev = record dev { dialing = false }
clear_flag alerting dev = record dev { dialing = false }
clear_flag incoming dev = record dev { ring = false }
clear_flag waiting dev = record dev { cwaiting = false }
clear_flag _ dev = dev

unfoldable pub pvt_update_state_flags : CallState → CallState → Device → Device
unfolding clear_flag
pvt_update_state_flags old new dev =
    let counts = set_count dev.chan_count old (sub_u8 (dev.chan_count old) 1) in
    let dev' : Device = record dev { chan_count = set_count counts new (u8 (counts new + 1)) } in
    if same_state new active || same_state new released then clear_flag old dev' else dev'

-- The queue and the line after an insertion, and whether it failed.
unfoldable pub enqueued : Enqueued → Device → Device × Bool
enqueued e dev =
    let dev' : Device = record dev { queue = e.pvt } in
    (
      elim e.sent [ none ↦ dev' | some text ↦ emit (write_line text) dev' ],
      elim e.err [ none ↦ false | some err ↦ true ],
    )

-- `at_enqueue_hangup(&pvt->sys_chan, call_idx, cause)`
unfoldable pub hangup_by_sys_chan : Config → Outside → ℕ → ℕ → Device → Device × Bool
unfolding enqueued
hangup_by_sys_chan conf o call_idx cause dev =
    let h : Hangup = record {
      chansno = dev.chansno;
      is_simcom = conf.is_simcom;
      qhup = conf.qhup;
      sys_or_incoming = true;
      past_dialing = false;
    } in
    enqueued (at_enqueue_hangup o.ast o.format o.env h 0 call_idx cause dev.queue) dev

unfoldable pub change_state_no_channel : Config → Outside → Cpvt → CallState → Device → Device
unfolding hangup_by_sys_chan
change_state_no_channel conf o c state dev =
    let ended = (hangup_by_sys_chan conf o c.call_idx cause_normal_unspecified dev).0 in
    elim state [ released ↦ cpvt_free c.id dev | active ↦ dev | _ ↦ ended ]

-- What follows an activation, unless that failed.
abbrev pub unless_failed : (Device → Device) → Device × Bool → Device
unless_failed f (dev, failed) = if failed then dev else f dev

-- `cpvt_control(cpvt, control); ast_setstate(channel, state);`
unfoldable pub announce : ℕ → Control → ChannelState → Device → Device
announce name control state dev =
    emit (set_state name state) (emit (queue_control name control) dev)

-- What follows the activation of a call that is answered or taken off hold.
unfoldable pub announce_active : CallState → Cpvt → ℕ → Device → Device
announce_active old c name dev =
    if same_state old onhold
    then emit (queue_control name unhold) dev
    else (if not c.direction
        then emit (queue_control name answer) dev
        else emit (set_state name state_up) dev)

unfoldable pub change_state :
    Config → Outside → Cpvt → Channel → CallState → CallState → ℕ → Device → Device
unfolding announce announce_active
change_state conf o c ch old new cause dev =
    let activated = cpvt_call_activate conf o.first o.second c.id dev in
    let name = ch.name in
    let freed = cpvt_free c.id (emit (drop_tech_pvt name) (cpvt_call_disactivate conf c.id dev)) in
    elim new [
      | dialing ↦ unless_failed (announce name progress state_dialing) activated
      | alerting ↦ unless_failed (announce name ringing state_ringing) activated
      | incoming ↦ activated.0
      | active ↦ unless_failed (announce_active old c name) activated
      | onhold ↦ emit (queue_control name hold) (cpvt_call_disactivate conf c.id dev)
      | released ↦ emit (queue_hangup name cause) freed
      | _ ↦ dev
    ]

unfoldable pub enter_state : Config → Outside → Cpvt → CallState → ℕ → Device → Device × Bool
unfolding pvt_update_state_flags change_state change_state_no_channel
enter_state conf o c new cause dev =
    let dev1 = change_cpvt c.id (λ (d : Cpvt). record d { state = new }) dev in
    let dev2 = pvt_update_state_flags c.state new dev1 in
    if same_state new c.state then (dev, false) else (
      elim c.channel [
        | some ch ↦ change_state conf o c ch c.state new cause dev2
        | none ↦ change_state_no_channel conf o c new dev2
      ],
      true,
    )

abbrev pub enter_state_found :
    Config → Outside → Option Cpvt → CallState → ℕ → Device → Device × Bool
enter_state_found conf o none new cause dev = (dev, false)
enter_state_found conf o (some c) new cause dev = enter_state conf o c new cause dev

-- The result says whether the state was another one.
unfoldable pub cpvt_change_state : Config → Outside → ℕ → CallState → ℕ → Device → Device × Bool
unfolding enter_state
cpvt_change_state conf o id new cause dev =
    enter_state_found conf o (find_cpvt id dev.chans) new cause dev
