-- ===== src/Cpvt/Lives.antt =====
-- A property of the calls of a device through what src/channel.c, src/at_response.c and src/chan_quectel.c do
-- with a call.
use asterisk_chan_quectel.Prelude.{
  ℕ, ◌≡◌, refl, inl, inr, Bool, true, false, not, ◌&&◌, Option, none, some, List, [], ◌∷◌, ◌==◌,
  if◌then◌else◌, Option-cases, if-elim,
}
use asterisk_chan_quectel.AtCommand.{Hangup, at_enqueue_hangup, at_hangup_immediately}
use asterisk_chan_quectel.Cpvt.{
  CallState, released, dialing, init, same_state, Channel, Cpvt, Config, Device, find_cpvt,
  change_cpvt, Got, insert_cpvt, alloc_at, alloc_piped, cpvt_alloc, drop_tech_pvt,
}
use asterisk_chan_quectel.Cpvt.Change.{Outside, cause_normal_unspecified, enqueued}
use asterisk_chan_quectel.Cpvt.Channels.{
  is_channel, open_channel, with_channel, channel_new, pbx_failed, run_pbx, hangup_call,
  channel_hangup, start_pbx, release_call, release_calls, pvt_disconnect,
}
use asterisk_chan_quectel.Cpvt.Counts.{Keeps}
use asterisk_chan_quectel.Cpvt.Kept.{kept_same, kept_then, kept_change, Keeps-cpvt_call_disactivate}
use asterisk_chan_quectel.Cpvt.Stable.{Stable, cpvt_change_state_stable}
use asterisk_chan_quectel.Cpvt.Changes.{Keeps-enqueued, Keeps-hangup_by_sys_chan, Keeps-emit}

-- The property for a device with the new call that `cpvt_alloc` puts in.
abbrev pub Inserted :
    (Device → Type 0) → Config → Got → ℕ → Bool → CallState → Bool → Device → Type 0
Inserted P conf got call_idx dir state local_channel dev =
    (pipe : Option ℕ) (id : ℕ)
    → got.address ≡ some id
    → P (insert_cpvt conf got pipe id call_idx dir state local_channel dev)

module _ (P : Device → Type 0) (st : Stable P) where
  alloc_at_stable :
      (conf : Config) (got : Got) (pipe address : Option ℕ) (call_idx : ℕ) (dir : Bool)
      (state : CallState) (local_channel : Bool) (dev : Device)
      → P dev
      → ((id : ℕ)
          → address ≡ some id
          → P (insert_cpvt conf got pipe id call_idx dir state local_channel dev))
      → P (alloc_at conf got pipe address call_idx dir state local_channel dev).1
  unfolding alloc_at
  alloc_at_stable conf got pipe none call_idx dir state local_channel dev k new = k
  alloc_at_stable conf got pipe (some id) call_idx dir state local_channel dev k new = new id refl

  alloc_piped_stable :
      (conf : Config) (got : Got) (pipe : Option ℕ) (call_idx : ℕ) (dir : Bool) (state : CallState)
      (local_channel : Bool) (dev : Device)
      → P dev
      → Inserted P conf got call_idx dir state local_channel dev
      → P (alloc_piped conf got pipe call_idx dir state local_channel dev).1
  unfolding alloc_piped
  alloc_piped_stable conf got none call_idx dir state local_channel dev k new = k
  alloc_piped_stable conf got (some fd) call_idx dir state local_channel dev k new =
      alloc_at_stable conf got (some fd) got.address call_idx dir state local_channel dev k
        (new (some fd))

  cpvt_alloc_stable :
      (conf : Config) (got : Got) (call_idx : ℕ) (dir : Bool) (state : CallState)
      (local_channel : Bool) (dev : Device)
      → P dev
      → Inserted P conf got call_idx dir state local_channel dev
      → P (cpvt_alloc conf got call_idx dir state local_channel dev).1
  unfolding cpvt_alloc
  cpvt_alloc_stable conf got call_idx dir state local_channel dev k new =
      if-elim (λ (r : Option ℕ × Device). P r.1) conf.multiparty
        (λ m. alloc_piped_stable conf got got.pipe call_idx dir state local_channel dev k new)
        (λ m.
          alloc_at_stable conf got none got.address call_idx dir state local_channel dev k
            (new none))

  open_channel_stable :
      (conf : Config) (o : Outside) (id : ℕ) (state : CallState) (name : ℕ) (dev : Device)
      → P dev
      → P (open_channel conf o id state name dev)
  unfolding open_channel
  open_channel_stable conf o id state name dev k =
      let channel : Channel = record {
        name = name;
        fd0 = if conf.uac then none else dev.audio_fd;
        fd1 = dev.a_timer;
      } in
      let opened =
        st.kept
          (kept_change id (λ (c : Cpvt). record c { channel = some channel }) dev
            (λ (c : Cpvt). refl))
          k in
      if-elim P (not (same_state state init))
        (λ p. cpvt_change_state_stable P st conf o id state cause_normal_unspecified _ opened)
        (λ p. opened)

  with_channel_stable :
      (conf : Config) (o : Outside) (channel : Option ℕ) (state : CallState) (made : Option ℕ)
      (dev : Device)
      → P dev
      → P (with_channel conf o channel state made dev).1
  unfolding with_channel
  with_channel_stable conf o channel state none dev k = k
  with_channel_stable conf o none state (some id) dev k = st.freed id dev k
  with_channel_stable conf o (some name) state (some id) dev k =
      open_channel_stable conf o id state name dev k

  pub channel_new_stable :
      (conf : Config) (o : Outside) (got : Got) (channel : Option ℕ) (call_idx : ℕ) (dir : Bool)
      (state : CallState) (local_channel : Bool) (dev : Device)
      → P dev
      → Inserted P conf got call_idx dir init local_channel dev
      → P (channel_new conf o got channel call_idx dir state local_channel dev).1
  unfolding channel_new
  channel_new_stable conf o got channel call_idx dir state local_channel dev k new =
      let r = cpvt_alloc conf got call_idx dir init local_channel dev in
      with_channel_stable conf o channel state r.0 r.1
        (cpvt_alloc_stable conf got call_idx dir init local_channel dev k new)

  hangup_call_stable :
      (conf : Config) (o : Outside) (c : Cpvt) (cause : ℕ) (dev : Device)
      → P dev
      → P (hangup_call conf o c cause dev)
  unfolding hangup_call
  hangup_call_stable conf o c cause dev k =
      let h : Hangup = record {
        chansno = dev.chansno;
        is_simcom = conf.is_simcom;
        qhup = conf.qhup;
        sys_or_incoming = c.direction;
        past_dialing = not (same_state c.state init) && not (same_state c.state dialing);
      } in
      let r =
        enqueued (at_enqueue_hangup o.ast o.format o.env h c.id c.call_idx cause dev.queue) dev in
      let kept : Keeps dev r.0 =
        Keeps-enqueued (at_enqueue_hangup o.ast o.format o.env h c.id c.call_idx cause dev.queue)
          dev in
      let done = λ (d : Device).
        kept_then (Keeps-cpvt_call_disactivate conf c.id d)
          (kept_change c.id (λ (x : Cpvt). record x { channel = none }) _ (λ (x : Cpvt). refl)) in
      let asked : Keeps dev (
          if r.1
          then r.0
          else change_cpvt c.id (λ (d : Cpvt). record d { need_hangup = false }) r.0) =
        if-elim (Keeps dev) r.1 (λ p. kept)
          (λ p. kept_then kept (
            kept_change c.id (λ (x : Cpvt). record x { need_hangup = false }) _
              (λ (x : Cpvt). refl))) in
      let all =
        if-elim (Keeps dev) c.need_hangup (λ p. asked) (λ p. kept_same dev dev refl refl refl) in
      st.kept (kept_then all (done _)) k

  pub channel_hangup_stable :
      (conf : Config) (o : Outside) (channel : ℕ) (cpvt : Option ℕ) (cause : ℕ) (dev : Device)
      → P dev
      → P (channel_hangup conf o channel cpvt cause dev)
  unfolding channel_hangup
  channel_hangup_stable conf o channel none cause dev k = st.kept (kept_same dev _ refl refl refl) k
  channel_hangup_stable conf o channel (some id) cause dev k =
      elim (Option-cases (find_cpvt id dev.chans)) [
        | inl e ↦ rw e (st.kept (kept_same dev _ refl refl refl) k)
        | inr (c, e) ↦
            let k' =
              if-elim P (is_channel channel c.channel)
                (λ p. hangup_call_stable conf o c cause dev k) (λ p. k) in
            rw e (st.kept (kept_same _ _ refl refl refl) k')
      ]

  pbx_failed_stable :
      (conf : Config) (o : Outside) (channel : Option ℕ) (id : ℕ) (dev : Device)
      → P dev
      → P (pbx_failed conf o channel id dev)
  unfolding pbx_failed
  pbx_failed_stable conf o none id dev k = k
  pbx_failed_stable conf o (some name) id dev k =
      channel_hangup_stable conf o name none 0 _
        (st.freed id _ (st.kept (Keeps-emit (drop_tech_pvt name) dev) k))

  run_pbx_stable :
      (conf : Config) (o : Outside) (channel : Option ℕ) (pbx : Bool) (call_idx : ℕ)
      (made : Option ℕ) (dev : Device)
      → P dev
      → P (run_pbx conf o channel pbx call_idx made dev).0
  unfolding run_pbx
  run_pbx_stable conf o channel pbx call_idx none dev k =
      st.kept (Keeps-hangup_by_sys_chan conf o call_idx 27 dev) k
  run_pbx_stable conf o channel pbx call_idx (some id) dev k =
      let f : Cpvt → Cpvt = λ c. record c { need_hangup = true } in
      let kept = st.kept (kept_change id f dev (λ (c : Cpvt). refl)) k in
      if-elim (λ (x : Device × Bool). P x.0) pbx (λ p. kept)
        (λ p. pbx_failed_stable conf o channel id _ kept)

  pub start_pbx_stable :
      (conf : Config) (o : Outside) (got : Got) (channel : Option ℕ) (pbx : Bool) (call_idx : ℕ)
      (state : CallState) (dev : Device)
      → P dev
      → Inserted P conf got call_idx true init false dev
      → P (start_pbx conf o got channel pbx call_idx state dev).0
  unfolding start_pbx
  start_pbx_stable conf o got channel pbx call_idx state dev k new =
      let r = channel_new conf o got channel call_idx true state false dev in
      run_pbx_stable conf o channel pbx call_idx r.0 r.1
        (channel_new_stable conf o got channel call_idx true state false dev k new)

  release_calls_stable :
      (conf : Config) (o : ℕ → Outside) (cs : List Cpvt) (dev : Device)
      → P dev
      → P (release_calls conf o cs dev)
  unfolding release_calls release_call
  release_calls_stable conf o [] dev k = k
  release_calls_stable conf o (c ∷ cs) dev k =
      let asked =
        at_hangup_immediately (o c.id).ast (o c.id).format (o c.id).env conf.is_simcom c.id
          c.call_idx cause_normal_unspecified dev.queue in
      let f : Cpvt → Cpvt = λ d. record d { need_hangup = false } in
      let kept =
        kept_then (Keeps-enqueued asked dev)
          (kept_change c.id f (enqueued asked dev).0 (λ (d : Cpvt). refl)) in
      release_calls_stable conf o cs _ (
        cpvt_change_state_stable P st conf (o c.id) c.id released cause_normal_unspecified _
          (st.kept kept k))

  pub pvt_disconnect_stable :
      (conf : Config) (o : ℕ → Outside) (dev : Device) → P dev → P (pvt_disconnect conf o dev)
  unfolding pvt_disconnect
  pvt_disconnect_stable conf o dev k =
      if-elim P (not (dev.chansno == 0)) (λ p. release_calls_stable conf o dev.chans dev k) (λ p. k)
