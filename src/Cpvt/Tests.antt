-- ===== src/Cpvt/Tests.antt =====
-- Runs of the calls of src/cpvt.c, and the theorems about them at concrete devices.
use asterisk_chan_quectel.Prelude.{
  ℕ, ◌≡◌, refl, true, false, not, ◌&&◌, ◌||◌, none, some, [], ◌∷◌, arith, u8,
}
use asterisk_chan_quectel.MixBuffer.{mixb_init}
use asterisk_chan_quectel.AtCommand.Tests.{plain, text, calm, empty_queue}
use asterisk_chan_quectel.Cpvt.{
  CallState, active, onhold, dialing, alerting, incoming, waiting, released, init, Cpvt, Config,
  Device, Got, find_cpvt, set_cpvt, remove_cpvt, insert_cpvt, alloc_at, alloc_piped, cpvt_alloc,
  pvt_on_create_1st_channel, zeros,
}
use asterisk_chan_quectel.Cpvt.Activate.{
  started, place_of, attach_stream, yield_master, other_master, grant, take_audio, activate,
  cpvt_call_activate,
}
use asterisk_chan_quectel.Cpvt.Change.{
  Outside, clear_flag, pvt_update_state_flags, change_state, enter_state, cpvt_change_state,
}
use asterisk_chan_quectel.Cpvt.Channels.{
  open_channel, with_channel, channel_new, pbx_failed, pvt_disconnect,
}
use asterisk_chan_quectel.Cpvt.Counts.{IsCounted, count_state}
use asterisk_chan_quectel.Cpvt.Release.{cpvt_change_state_released, pvt_disconnect_empties}
use asterisk_chan_quectel.Cpvt.Streams.{pbx_failed_leaves_stream}
use asterisk_chan_quectel.Cpvt.Find.{
  is_dial_possible2, every, lets_dial, has_state, is_dial_possible2_lem,
}

abbrev conference : Config
conference = record {
  multiparty = true;
  uac = false;
  is_simcom = false;
  qhup = false;
  frame_size = 4;
}

abbrev o : Outside
o = record { ast = plain; format = text; env = calm; first = started; second = started }

abbrev no_call : Device
no_call = record {
  chans = [];
  chansno = 0;
  chan_count = λ s. 0;
  queue = empty_queue;
  dialing = false;
  ring = false;
  cwaiting = false;
  audio_fd = some 9;
  a_timer = none;
  icard = false;
  ocard = false;
  write_mixb = mixb_init [] 0;
  owners = [];
  out = [];
}

abbrev got : ℕ → Got
got id = record { pipe = some 5; address = some id; timer = some 6 }

-- An incoming call that has the address 100.
abbrev rung : Device
rung = (channel_new conference o (got 100) (some 1) 3 true incoming false no_call).1

abbrev Opened : Device → Type 0
Opened dev =
    (place_of 100 dev.owners ≡ some 0)
    × (find_cpvt 100 (remove_cpvt 100 dev.chans) ≡ none)
    × (dev.chansno ≡ 1)

opened : Opened rung
unfolding channel_new cpvt_alloc alloc_piped alloc_at insert_cpvt pvt_on_create_1st_channel zeros
    with_channel open_channel cpvt_change_state enter_state pvt_update_state_flags clear_flag
    change_state cpvt_call_activate activate attach_stream yield_master other_master take_audio
    grant place_of set_cpvt
opened = (refl, refl, refl)

pbx_failed_leaves_stream_example :
    (find_cpvt 100 (pbx_failed conference o (some 1) 100 rung).chans ≡ none)
    × (place_of 100 (pbx_failed conference o (some 1) 100 rung).owners ≡ some 0)
pbx_failed_leaves_stream_example =
    pbx_failed_leaves_stream conference o 1 100 rung 0 (opened.0) (opened.1)

-- The device with two incoming calls, one of them answered.
abbrev both : Device
both = (channel_new conference o (got 200) (some 2) 4 true incoming false rung).1

-- A call with a channel and a state.
abbrev call : ℕ → CallState → Cpvt
call id state = record {
  id = id;
  channel = some (record { name = id; fd0 = none; fd1 = none });
  call_idx = 1;
  state = state;
  need_hangup = true;
  activated = false;
  master = false;
  direction = false;
  local_channel = false;
  rd_pipe = none;
}

abbrev one_each : CallState → ℕ
one_each s = elim s [ active ↦ 1 | onhold ↦ 1 | _ ↦ 0 ]

abbrev busy : Device
busy = record no_call {
  chans = call 100 active ∷ call 200 onhold ∷ [];
  chansno = 2;
  chan_count = one_each;
}

busy-IsCounted : IsCounted busy
unfolding count_state
busy-IsCounted = record {
  number = refl;
  states = λ s. elim s as (λ s. one_each s ≡ u8 (count_state s (active ∷ onhold ∷ []))) [
    | active ↦ refl
    | onhold ↦ refl
    | dialing ↦ refl
    | alerting ↦ refl
    | incoming ↦ refl
    | waiting ↦ refl
    | released ↦ refl
    | init ↦ refl
  ];
}

pvt_disconnect_empties_example :
    ((pvt_disconnect conference (λ id. o) busy).chans ≡ [])
    × ((pvt_disconnect conference (λ id. o) busy).chansno ≡ 0)
    × ((s : CallState) → (pvt_disconnect conference (λ id. o) busy).chan_count s ≡ 0)
pvt_disconnect_empties_example =
    pvt_disconnect_empties conference (λ id. o) busy busy-IsCounted (omega arith) (refl, (refl, tt))

cpvt_change_state_released_example :
    (cpvt_change_state conference o 200 released 16 busy).0.chans ≡ call 100 active ∷ []
cpvt_change_state_released_example =
    cpvt_change_state_released conference o 200 (call 200 onhold) 16 busy refl refl

is_dial_possible2_lem_example :
    is_dial_possible2 busy true none
    ≡ not (busy.ring || busy.cwaiting || busy.dialing)
      && every (lets_dial true none) busy.chans
      && not (has_state active busy.chans && has_state onhold busy.chans)
is_dial_possible2_lem_example = is_dial_possible2_lem busy true none
