-- ===== src/Cpvt/Sound.antt =====
-- The audio of a device through `channel_new` and `channel_hangup` of src/channel.c, `start_pbx` of
-- src/at_response.c and `pvt_disconnect` of src/chan_quectel.c.
use asterisk_chan_quectel.Prelude.{
  ℕ, ◌+◌, ◌≡◌, refl, inl, inr, Bool, true, false, not, ◌&&◌, Option, none, some, [], ◌∷◌, arith,
  ◌==◌, if◌then◌else◌, u8, u32, All-append, Option-cases, if-elim,
}
use asterisk_chan_quectel.Cpvt.{
  CallState, init, same_state, Channel, Cpvt, Config, Device, find_cpvt, change_cpvt, set_count,
  Got, insert_cpvt, alloc_at, alloc_piped, cpvt_alloc, pvt_on_create_1st_channel,
}
use asterisk_chan_quectel.Cpvt.Change.{Outside, cause_normal_unspecified}
use asterisk_chan_quectel.Cpvt.Channels.{open_channel, with_channel, channel_new}
use asterisk_chan_quectel.Cpvt.Found.{set_cpvt_missing}
use asterisk_chan_quectel.Cpvt.Audio.{
  polls, IsCall, IsAudio, Same-IsAudio, change_cpvt-IsAudio, cpvt_free-IsAudio,
}
use asterisk_chan_quectel.Cpvt.Calls.{cpvt_change_state-IsAudio}

insert_cpvt-IsAudio :
    (conf : Config) (got : Got) (pipe : Option ℕ) (id call_idx : ℕ) (dir : Bool) (state : CallState)
    (local_channel : Bool) (dev : Device)
    → IsAudio conf dev
    → IsAudio conf (insert_cpvt conf got pipe id call_idx dir state local_channel dev)
unfolding insert_cpvt pvt_on_create_1st_channel
insert_cpvt-IsAudio conf got pipe id call_idx dir state local_channel dev a =
    let cpvt : Cpvt = record {
      id = id;
      channel = none;
      call_idx = call_idx;
      state = state;
      need_hangup = false;
      activated = false;
      master = false;
      direction = dir;
      local_channel = local_channel;
      rd_pipe = pipe;
    } in
    let new_call : IsCall conf.uac a.main cpvt = record {
      one_master = λ h. cc;
      master_active = λ h. cc;
      active_channel = λ h. cc;
      only_master_polls = λ u h. cc;
    } in
    let calls = All-append (IsCall conf.uac a.main) dev.chans (cpvt ∷ []) a.calls (new_call, tt) in
    let done = λ (d : Device). IsAudio conf (record d {
      chansno = u32 (dev.chansno + 1);
      chan_count = set_count dev.chan_count state (u8 (dev.chan_count state + 1));
    }) in
    if-elim done (dev.chansno == 0)
      (λ p.
        if-elim done (conf.multiparty && not conf.uac)
          (λ q. record { main = a.main; calls = calls; no_timer = λ u. ground arith })
          (λ q. record { main = a.main; calls = calls; no_timer = a.no_timer }))
      (λ p. record { main = a.main; calls = calls; no_timer = a.no_timer })

alloc_at-IsAudio :
    (conf : Config) (got : Got) (pipe address : Option ℕ) (call_idx : ℕ) (dir : Bool)
    (state : CallState) (local_channel : Bool) (dev : Device)
    → IsAudio conf dev
    → IsAudio conf (alloc_at conf got pipe address call_idx dir state local_channel dev).1
unfolding alloc_at
alloc_at-IsAudio conf got pipe none call_idx dir state local_channel dev a = a
alloc_at-IsAudio conf got pipe (some id) call_idx dir state local_channel dev a =
    insert_cpvt-IsAudio conf got pipe id call_idx dir state local_channel dev a

alloc_piped-IsAudio :
    (conf : Config) (got : Got) (pipe : Option ℕ) (call_idx : ℕ) (dir : Bool) (state : CallState)
    (local_channel : Bool) (dev : Device)
    → IsAudio conf dev
    → IsAudio conf (alloc_piped conf got pipe call_idx dir state local_channel dev).1
unfolding alloc_piped
alloc_piped-IsAudio conf got none call_idx dir state local_channel dev a = a
alloc_piped-IsAudio conf got (some fd) call_idx dir state local_channel dev a =
    alloc_at-IsAudio conf got (some fd) got.address call_idx dir state local_channel dev a

cpvt_alloc-IsAudio :
    (conf : Config) (got : Got) (call_idx : ℕ) (dir : Bool) (state : CallState)
    (local_channel : Bool) (dev : Device)
    → IsAudio conf dev
    → IsAudio conf (cpvt_alloc conf got call_idx dir state local_channel dev).1
unfolding cpvt_alloc
cpvt_alloc-IsAudio conf got call_idx dir state local_channel dev a =
    if-elim (λ (r : Option ℕ × Device). IsAudio conf r.1) conf.multiparty
      (λ m. alloc_piped-IsAudio conf got got.pipe call_idx dir state local_channel dev a)
      (λ m. alloc_at-IsAudio conf got none got.address call_idx dir state local_channel dev a)

-- A change of the calls where the one with the address is not found changes nothing.
pub change_missing-IsAudio :
    (conf : Config) (id : ℕ) (f : Cpvt → Cpvt) (dev : Device)
    → ((c : Cpvt)
        → find_cpvt id dev.chans ≡ some c
        → (m : ℕ) → IsCall conf.uac m c
        → IsCall conf.uac m (f c))
    → IsAudio conf dev
    → IsAudio conf (change_cpvt id f dev)
change_missing-IsAudio conf id f dev h a = elim (Option-cases (find_cpvt id dev.chans)) [
  | inl e ↦ Same-IsAudio conf (record { chans = set_cpvt_missing id f dev.chans e; timer = refl }) a
  | inr (c, e) ↦ change_cpvt-IsAudio conf id f dev c e (h c e) a
]

open_channel-IsAudio :
    (conf : Config) (o : Outside) (id : ℕ) (state : CallState) (name : ℕ) (dev : Device)
    → IsAudio conf dev
    → IsAudio conf (open_channel conf o id state name dev)
unfolding open_channel
open_channel-IsAudio conf o id state name dev a =
    let channel : Channel = record {
      name = name;
      fd0 = if conf.uac then none else dev.audio_fd;
      fd1 = dev.a_timer;
    } in
    let silent : conf.uac ≡ true → polls (some channel) ≡ false = λ u. rw (u, a.no_timer u) refl in
    let opened =
      change_missing-IsAudio conf id (λ (c : Cpvt). record c { channel = some channel }) dev
        (λ c e m h. record {
          one_master = h.one_master;
          master_active = h.master_active;
          active_channel = λ on. refl;
          only_master_polls = λ u p. (let no = silent u in cc);
        })
        a in
    if-elim (IsAudio conf) (not (same_state state init))
      (λ p. cpvt_change_state-IsAudio conf o id state cause_normal_unspecified _ opened)
      (λ p. opened)

with_channel-IsAudio :
    (conf : Config) (o : Outside) (channel : Option ℕ) (state : CallState) (made : Option ℕ)
    (dev : Device)
    → IsAudio conf dev
    → IsAudio conf (with_channel conf o channel state made dev).1
unfolding with_channel
with_channel-IsAudio conf o channel state none dev a = a
with_channel-IsAudio conf o none state (some id) dev a = cpvt_free-IsAudio conf id dev a
with_channel-IsAudio conf o (some name) state (some id) dev a =
    open_channel-IsAudio conf o id state name dev a

-- `channel_new` keeps what the audio of the device is.
pub channel_new-IsAudio :
    (conf : Config) (o : Outside) (got : Got) (channel : Option ℕ) (call_idx : ℕ) (dir : Bool)
    (state : CallState) (local_channel : Bool) (dev : Device)
    → IsAudio conf dev
    → IsAudio conf (channel_new conf o got channel call_idx dir state local_channel dev).1
unfolding channel_new
channel_new-IsAudio conf o got channel call_idx dir state local_channel dev a =
    let r = cpvt_alloc conf got call_idx dir init local_channel dev in
    with_channel-IsAudio conf o channel state r.0 r.1
      (cpvt_alloc-IsAudio conf got call_idx dir init local_channel dev a)
