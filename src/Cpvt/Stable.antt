-- ===== src/Cpvt/Stable.antt =====
-- What a property of a device has to do with a call of src/cpvt.c to hold through its changes of
-- state.
use asterisk_chan_quectel.Prelude.{ℕ, ◌≡◌, inl, inr, Bool, false, none, some, Option-cases, if-elim}
use asterisk_chan_quectel.Cpvt.{
  CallState, active, onhold, dialing, alerting, incoming, waiting, released, init, same_state,
  Channel, Cpvt, progress, ringing, state_dialing, state_ringing, Config, Device, find_cpvt,
  change_cpvt,
}
use asterisk_chan_quectel.Cpvt.Change.{
  Outside, pvt_update_state_flags, change_state_no_channel, change_state, enter_state,
  cpvt_change_state,
}
use asterisk_chan_quectel.Cpvt.Counts.{Keeps}
use asterisk_chan_quectel.Cpvt.Found.{find_own}
use asterisk_chan_quectel.Cpvt.Kept.{
  kept_then, Keeps-cpvt_call_disactivate, Keeps-cpvt_call_activate,
}
use asterisk_chan_quectel.Cpvt.{cpvt_free}
use asterisk_chan_quectel.Cpvt.Changes.{
  Keeps-emit, Keeps-hangup_by_sys_chan, Keeps-unless_failed, Keeps-announce, Keeps-announce_active,
}

-- A property that holds through what keeps the addresses, the states and the counters, through the
-- freeing of a call, and through its change of state.
pub record Stable (P : Device → Type 0) : Type 1 where
  pub kept : {dev dev' : Device} → Keeps dev dev' → P dev → P dev'
  pub freed : (id : ℕ) (dev : Device) → P dev → P (cpvt_free id dev)
  pub entered :
      (c : Cpvt) (new : CallState) (dev : Device)
      → find_cpvt c.id dev.chans ≡ some c
      → same_state new c.state ≡ false
      → P dev
      → P (
          pvt_update_state_flags c.state new
            (change_cpvt c.id (λ (d : Cpvt). record d { state = new }) dev))

module _ (P : Device → Type 0) (st : Stable P) where
  change_state_no_channel_stable :
      (conf : Config) (o : Outside) (c : Cpvt) (new : CallState) (dev : Device)
      → P dev
      → P (change_state_no_channel conf o c new dev)
  unfolding change_state_no_channel
  change_state_no_channel_stable conf o c released dev k = st.freed c.id dev k
  change_state_no_channel_stable conf o c active dev k = k
  change_state_no_channel_stable conf o c onhold dev k =
      st.kept (Keeps-hangup_by_sys_chan conf o c.call_idx 31 dev) k
  change_state_no_channel_stable conf o c dialing dev k =
      st.kept (Keeps-hangup_by_sys_chan conf o c.call_idx 31 dev) k
  change_state_no_channel_stable conf o c alerting dev k =
      st.kept (Keeps-hangup_by_sys_chan conf o c.call_idx 31 dev) k
  change_state_no_channel_stable conf o c incoming dev k =
      st.kept (Keeps-hangup_by_sys_chan conf o c.call_idx 31 dev) k
  change_state_no_channel_stable conf o c waiting dev k =
      st.kept (Keeps-hangup_by_sys_chan conf o c.call_idx 31 dev) k
  change_state_no_channel_stable conf o c init dev k =
      st.kept (Keeps-hangup_by_sys_chan conf o c.call_idx 31 dev) k

  change_state_stable :
      (conf : Config) (o : Outside) (c : Cpvt) (ch : Channel) (old new : CallState) (cause : ℕ)
      (dev : Device)
      → P dev
      → P (change_state conf o c ch old new cause dev)
  unfolding change_state
  change_state_stable conf o c ch old new cause dev k =
      let activated = Keeps-cpvt_call_activate conf o.first o.second c.id dev in
      let disactivated = Keeps-cpvt_call_disactivate conf c.id dev in
      elim new as (λ s. P (change_state conf o c ch old s cause dev)) [
        | dialing ↦
            st.kept
              (Keeps-unless_failed _ dev _ (Keeps-announce ch.name progress state_dialing)
                activated)
              k
        | alerting ↦
            st.kept
              (Keeps-unless_failed _ dev _ (Keeps-announce ch.name ringing state_ringing) activated)
              k
        | incoming ↦ st.kept activated k
        | active ↦
            st.kept (Keeps-unless_failed _ dev _ (Keeps-announce_active old c ch.name) activated) k
        | onhold ↦ st.kept (kept_then disactivated (Keeps-emit _ _)) k
        | released ↦
            st.kept (Keeps-emit _ _)
              (st.freed c.id _ (st.kept (kept_then disactivated (Keeps-emit _ _)) k))
        | waiting ↦ k
        | init ↦ k
      ]

  -- The two kinds of a change, by whether the call has a channel.
  change_by_stable :
      (conf : Config) (o : Outside) (c : Cpvt) (new : CallState) (cause : ℕ) (dev : Device)
      → P dev
      → P (elim c.channel [
        | some ch ↦ change_state conf o c ch c.state new cause dev
        | none ↦ change_state_no_channel conf o c new dev
      ])
  change_by_stable conf o c new cause dev k = elim (Option-cases c.channel) [
    | inl e ↦ rw e (change_state_no_channel_stable conf o c new dev k)
    | inr (ch, e) ↦ rw e (change_state_stable conf o c ch c.state new cause dev k)
  ]

  enter_state_stable :
      (conf : Config) (o : Outside) (c : Cpvt) (new : CallState) (cause : ℕ) (dev : Device)
      → find_cpvt c.id dev.chans ≡ some c
      → P dev
      → P (enter_state conf o c new cause dev).0
  unfolding enter_state
  enter_state_stable conf o c new cause dev e k =
      if-elim (λ (r : Device × Bool). P r.0) (same_state new c.state) (λ p. k)
        (λ q. change_by_stable conf o c new cause _ (st.entered c new dev e q k))

  pub cpvt_change_state_stable :
      (conf : Config) (o : Outside) (id : ℕ) (new : CallState) (cause : ℕ) (dev : Device)
      → P dev
      → P (cpvt_change_state conf o id new cause dev).0
  unfolding cpvt_change_state
  cpvt_change_state_stable conf o id new cause dev k =
      elim (Option-cases (find_cpvt id dev.chans)) [
        | inl e ↦ rw e k
        | inr (c, e) ↦
            let found = find_own id dev.chans c e in
            rw e (enter_state_stable conf o c new cause dev found k)
      ]
