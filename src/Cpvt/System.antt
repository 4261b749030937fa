-- ===== src/Cpvt/System.antt =====
-- A device of src/cpvt.c over time: a step is a call of one of the driver's operations, with any
-- arguments and any answers of the environment.
use asterisk_chan_quectel.Prelude.{ℕ, ◌≡◌, Bool, false, Option, none, some, []}
use asterisk_chan_quectel.Cpvt.{
  CallState, Channel, Cpvt, Config, Device, Got, find_cpvt, change_cpvt,
}
use asterisk_chan_quectel.Cpvt.Activate.{Start}
use asterisk_chan_quectel.Cpvt.Change.{Outside, cpvt_change_state}
use asterisk_chan_quectel.Cpvt.Channels.{
  channel_new, channel_hangup, start_pbx, pvt_disconnect, channel_fixup, channel_start_capture,
  reopen_audio_port,
}
use asterisk_chan_quectel.Cpvt.Counts.{IsCounted}
use asterisk_chan_quectel.Cpvt.Stable.{Stable}
use asterisk_chan_quectel.Cpvt.Distinct.{IsDistinct}
use asterisk_chan_quectel.Cpvt.Audio.{IsAudio}
use asterisk_chan_quectel.Cpvt.Ports.{HasDescriptors}

-- No call in the list has the address of a new one.
abbrev pub IsFresh : Got → Device → Type 0
IsFresh got dev = (id : ℕ) → got.address ≡ some id → find_cpvt id dev.chans ≡ none

-- The operations of the driver that change the calls of a device; `elsewhere` is any other. The
-- allocator gives the address of no call that is in the list, and Asterisk gives a channel that takes
-- a call over the descriptors of the one before. The audio port is opened again where the audio is a
-- serial port, as the monitor asks for.
pub data Step (conf : Config) (dev : Device) : Device → Type 0 where
  new_channel :
      (o : Outside) (got : Got) (channel : Option ℕ) (call_idx : ℕ) (dir : Bool) (state : CallState)
      (local_channel : Bool)
      → IsFresh got dev
      → Step conf dev (channel_new conf o got channel call_idx dir state local_channel dev).1
  incoming_call :
      (o : Outside) (got : Got) (channel : Option ℕ) (pbx : Bool) (call_idx : ℕ) (state : CallState)
      → IsFresh got dev
      → Step conf dev (start_pbx conf o got channel pbx call_idx state dev).0
  new_state :
      (o : Outside) (id : ℕ) (state : CallState) (cause : ℕ)
      → Step conf dev (cpvt_change_state conf o id state cause dev).0
  hangup :
      (o : Outside) (channel : ℕ) (cpvt : Option ℕ) (cause : ℕ)
      → Step conf dev (channel_hangup conf o channel cpvt cause dev)
  disconnect : (o : ℕ → Outside) → Step conf dev (pvt_disconnect conf o dev)
  fixup :
      (id old : ℕ) (new : Channel)
      → HasDescriptors id new dev
      → Step conf dev (channel_fixup (some id) old new dev).0
  start_capture :
      (first second : Start) (id : ℕ)
      → Step conf dev (channel_start_capture conf first second id dev).0
  reopen : (fd : Option ℕ) → conf.uac ≡ false → Step conf dev (reopen_audio_port fd dev).0
  mark_hangup :
      (id : ℕ) (b : Bool)
      → Step conf dev (change_cpvt id (λ (c : Cpvt). record c { need_hangup = b }) dev)
  renumber :
      (id call_idx : ℕ)
      → Step conf dev (change_cpvt id (λ (c : Cpvt). record c { call_idx = call_idx }) dev)
  elsewhere :
      (dev' : Device)
      → dev'.chans ≡ dev.chans
      → dev'.chansno ≡ dev.chansno
      → dev'.chan_count ≡ dev.chan_count
      → dev'.a_timer ≡ dev.a_timer
      → Step conf dev dev'

-- Steps from a device without calls, timer and counts.
pub data Reach (conf : Config) : Device → Type 0 where
  idle :
      (dev : Device)
      → dev.chans ≡ []
      → dev.chansno ≡ 0
      → ((s : CallState) → dev.chan_count s ≡ 0)
      → dev.a_timer ≡ none
      → Reach conf dev
  next : {dev dev' : Device} → Reach conf dev → Step conf dev dev' → Reach conf dev'

-- What holds of a device at any time.
pub record IsSound (conf : Config) (dev : Device) : Type 0 where
  pub counted : IsCounted dev
  pub audio : IsAudio conf dev
  pub distinct : IsDistinct dev
