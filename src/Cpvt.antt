-- ===== src/Cpvt.antt =====
-- src/cpvt.c, src/cpvt.h and the functions of src/chan_quectel.c that cpvt.c calls: the calls of a
-- device, as a list of records in which a pointer to a call is its address, a number. `sys_chan` has
-- the address 0. Only the fields and flags that these functions use are kept. What is told to
-- Asterisk and to ALSA is a list of events.
pub mod Activate
pub mod Change
pub mod Channels
pub mod Find
pub mod Found
pub mod Counts
pub mod Kept
pub mod Changes
pub mod Stable
pub mod Lives
pub mod Counted
pub mod Distinct
pub mod Ports
pub mod Audio
pub mod Master
pub mod Calls
pub mod Sound
pub mod Ending
pub mod Release
pub mod Streams
pub mod System
pub mod Tests
use asterisk_chan_quectel.Prelude.{
  ℕ, zero, suc, ◌+◌, ◌*◌, Bool, true, false, not, ◌&&◌, ◌||◌, Option, none, some, List, [], ◌∷◌,
  ◌++◌, map, ◌==◌, leb, if◌then◌else◌, u8, u32, sub_u8, sub_u32,
}
use asterisk_chan_quectel.MixBuffer.{Mixbuffer, mixb_init}
use asterisk_chan_quectel.Queue.{Task, Pvt}

pub data CallState : Type 0 where
  active onhold dialing alerting incoming waiting released init : CallState

-- The number of a state in `call_state_t`.
abbrev pub state_index : CallState → ℕ
state_index active = 0
state_index onhold = 1
state_index dialing = 2
state_index alerting = 3
state_index incoming = 4
state_index waiting = 5
state_index released = 6
state_index init = 7

abbrev pub same_state : CallState → CallState → Bool
same_state s t = state_index s == state_index t

-- An `ast_channel` with the first two of its descriptors; -1 is `none`.
pub record Channel : Type 0 where
  pub name : ℕ
  pub fd0 : Option ℕ
  pub fd1 : Option ℕ

pub record Cpvt : Type 0 where
  pub id : ℕ  -- the address
  pub channel : Option Channel
  pub call_idx : ℕ
  pub state : CallState
  pub need_hangup : Bool
  pub activated : Bool
  pub master : Bool
  pub direction : Bool  -- incoming
  pub local_channel : Bool
  pub rd_pipe : Option ℕ  -- the end that is read

-- `enum ast_control_frame_type`, as far as it is used
pub data Control : Type 0 where
  progress ringing answer hold unhold : Control

-- `enum ast_channel_state`, as far as it is used
pub data ChannelState : Type 0 where
  state_dialing state_ringing state_up state_down : ChannelState

pub data Event : Type 0 where
  queue_control : ℕ → Control → Event
  set_state : ℕ → ChannelState → Event
  queue_hangup : ℕ → ℕ → Event  -- `channel_enqueue_hangup`, with the cause
  drop_tech_pvt : ℕ → Event
  pcm_drop_capture pcm_drop_playback : Event
  try_restate : Event
  write_line : List ℕ → Event  -- a command written to the modem

-- The settings of the device; `uac` is `CONF_UNIQ(pvt, uac) > TRIBOOL_FALSE`.
pub record Config : Type 0 where
  pub multiparty : Bool
  pub uac : Bool
  pub is_simcom : Bool
  pub qhup : Bool
  pub frame_size : ℕ  -- `pvt_get_audio_frame_size(PTIME_PLAYBACK, fmt)`

pub record Device : Type 0 where
  pub chans : List Cpvt
  pub chansno : ℕ  -- uint32_t
  pub chan_count : CallState → ℕ  -- uint8_t each
  pub queue : Pvt
  pub dialing : Bool
  pub ring : Bool
  pub cwaiting : Bool
  pub audio_fd : Option ℕ
  pub a_timer : Option ℕ  -- its descriptor
  pub icard : Bool
  pub ocard : Bool
  pub write_mixb : Mixbuffer
  pub owners : List ℕ  -- whose stream stands at each place of `write_mixb.streams`
  pub out : List Event

abbrev pub emit : Event → Device → Device
emit e dev = record dev { out = dev.out ++ (e ∷ []) }

-- The first call with the address.
abbrev pub find_cpvt : ℕ → List Cpvt → Option Cpvt
find_cpvt id [] = none
find_cpvt id (c ∷ cs) = if c.id == id then some c else find_cpvt id cs

-- That call, changed.
unfoldable pub set_cpvt : ℕ → (Cpvt → Cpvt) → List Cpvt → List Cpvt
set_cpvt id f [] = []
set_cpvt id f (c ∷ cs) = if c.id == id then f c ∷ cs else c ∷ set_cpvt id f cs

abbrev pub change_cpvt : ℕ → (Cpvt → Cpvt) → Device → Device
change_cpvt id f dev = record dev { chans = set_cpvt id f dev.chans }

-- One entry of an array of counters, put anew.
abbrev pub set_count : (CallState → ℕ) → CallState → ℕ → CallState → ℕ
set_count counts s n t = if same_state s t then n else counts t

unfoldable pub zeros : ℕ → List ℕ
zeros zero = []
zeros (suc n) = 0 ∷ zeros n

-- `timer` is the descriptor of what `ast_timer_open` opens.
unfoldable pub pvt_on_create_1st_channel : Config → Option ℕ → Device → Device
unfolding zeros
pvt_on_create_1st_channel conf timer dev =
    if conf.multiparty && not conf.uac
    then (let size = 5 * conf.frame_size in
        record dev { write_mixb = mixb_init (zeros size) size; owners = []; a_timer = timer })
    else dev

unfoldable pub pvt_on_remove_last_channel : Device → Device
pvt_on_remove_last_channel dev = record dev { a_timer = none }

-- What the environment answers to `cpvt_alloc`: the pipe, the address of the new call, the timer.
pub record Got : Type 0 where
  pub pipe : Option ℕ  -- the end that is read
  pub address : Option ℕ
  pub timer : Option ℕ

-- `cpvt_alloc` after the allocation.
unfoldable pub insert_cpvt :
    Config → Got → Option ℕ → ℕ → ℕ → Bool → CallState → Bool → Device → Device
unfolding pvt_on_create_1st_channel
insert_cpvt conf got pipe id call_idx dir state local_channel dev =
    let cpvt : Cpvt = record {
      id = id;
      channel = none;
      call_idx = call_idx;
      state = state;
      need_hangup = false;
      activated = false;
      master = false;
      direction = dir;
      local_channel = local_channel;
      rd_pipe = pipe;
    } in
    let dev1 : Device = record dev { chans = dev.chans ++ (cpvt ∷ []) } in
    let dev2 = if dev.chansno == 0 then pvt_on_create_1st_channel conf got.timer dev1 else dev1 in
    record dev2 {
      chansno = u32 (dev.chansno + 1);
      chan_count = set_count dev.chan_count state (u8 (dev.chan_count state + 1));
    }

-- `ast_calloc`, and what follows it.
unfoldable pub alloc_at :
    Config → Got → Option ℕ → Option ℕ → ℕ → Bool → CallState → Bool → Device → Option ℕ × Device
unfolding insert_cpvt
alloc_at conf got pipe none call_idx dir state local_channel dev = (none, dev)
alloc_at conf got pipe (some id) call_idx dir state local_channel dev =
    (some id, insert_cpvt conf got pipe id call_idx dir state local_channel dev)

-- Its first part where `multiparty` is set.
unfoldable pub alloc_piped :
    Config → Got → Option ℕ → ℕ → Bool → CallState → Bool → Device → Option ℕ × Device
unfolding alloc_at
alloc_piped conf got none call_idx dir state local_channel dev = (none, dev)
alloc_piped conf got (some fd) call_idx dir state local_channel dev =
    alloc_at conf got (some fd) got.address call_idx dir state local_channel dev

-- The new call's address, or `none` for NULL.
unfoldable pub cpvt_alloc : Config → Got → ℕ → Bool → CallState → Bool → Device → Option ℕ × Device
unfolding alloc_piped alloc_at
cpvt_alloc conf got call_idx dir state local_channel dev =
    if conf.multiparty
    then alloc_piped conf got got.pipe call_idx dir state local_channel dev
    else alloc_at conf got none got.address call_idx dir state local_channel dev

abbrev pub remove_cpvt : ℕ → List Cpvt → List Cpvt
remove_cpvt id [] = []
remove_cpvt id (c ∷ cs) = if c.id == id then cs else c ∷ remove_cpvt id cs

-- The counters are those of the call's state when it is found.
unfoldable pub decrease_chan_counters : ℕ → Option Cpvt → Device → Device
decrease_chan_counters id none dev = dev
decrease_chan_counters id (some c) dev = record dev {
  chans = remove_cpvt id dev.chans;
  chan_count = set_count dev.chan_count c.state (sub_u8 (dev.chan_count c.state) 1);
  chansno = sub_u32 dev.chansno 1;
}

unfoldable pub relink_to_sys_chan : ℕ → Device → Device
relink_to_sys_chan id dev = record dev {
  queue = record dev.queue {
    at_queue =
        map (λ (t : Task). if t.cpvt == id then record t { cpvt = 0 } else t) dev.queue.at_queue;
  };
}

unfoldable pub cpvt_free : ℕ → Device → Device
unfolding decrease_chan_counters relink_to_sys_chan pvt_on_remove_last_channel
cpvt_free id dev =
    let dev1 = decrease_chan_counters id (find_cpvt id dev.chans) dev in
    let dev2 = relink_to_sys_chan id dev1 in
    if dev2.chansno == 0 then emit try_restate (pvt_on_remove_last_channel dev2) else dev2
