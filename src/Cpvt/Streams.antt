-- ===== src/Cpvt/Streams.antt =====
-- The streams of src/cpvt.c in the mixer, where a call is given up because its dialplan does not
-- start.
use asterisk_chan_quectel.Prelude.{
  ℕ, ◌≡◌, refl, ap, ◌∙◌, inl, inr, none, some, ◌==◌, Option-cases, if-elim,
}
use asterisk_chan_quectel.Cpvt.{
  drop_tech_pvt, Config, Device, emit, find_cpvt, remove_cpvt, decrease_chan_counters,
  relink_to_sys_chan, pvt_on_remove_last_channel, cpvt_free,
}
use asterisk_chan_quectel.Cpvt.Activate.{place_of}
use asterisk_chan_quectel.Cpvt.Change.{Outside}
use asterisk_chan_quectel.Cpvt.Channels.{channel_hangup, pbx_failed}
use asterisk_chan_quectel.Cpvt.Release.{chans-cpvt_free}

owners-cpvt_free : (id : ℕ) (dev : Device) → (cpvt_free id dev).owners ≡ dev.owners
unfolding cpvt_free relink_to_sys_chan decrease_chan_counters pvt_on_remove_last_channel
owners-cpvt_free id dev =
    let kept = λ (d : Device). d.owners ≡ dev.owners in
    elim (Option-cases (find_cpvt id dev.chans)) [
      | inl e ↦ rw e (if-elim kept (dev.chansno == 0) (λ p. refl) (λ p. refl))
      | inr (c, e) ↦
          let d = decrease_chan_counters id (some c) dev in
          rw e (if-elim kept (d.chansno == 0) (λ p. refl) (λ p. refl))
    ]

-- Where `ast_pbx_start` fails for a call whose stream is in the mixer and that is in the list once,
-- the call is gone and its stream is still in the mixer, at the place where it was.
pub pbx_failed_leaves_stream :
    (conf : Config) (o : Outside) (name id : ℕ) (dev : Device) (i : ℕ)
    → place_of id dev.owners ≡ some i
    → find_cpvt id (remove_cpvt id dev.chans) ≡ none
    → (find_cpvt id (pbx_failed conf o (some name) id dev).chans ≡ none)
      × (place_of id (pbx_failed conf o (some name) id dev).owners ≡ some i)
unfolding pbx_failed channel_hangup
pbx_failed_leaves_stream conf o name id dev i at_i once =
    let dropped = emit (drop_tech_pvt name) dev in
    (
      ap (find_cpvt id) (chans-cpvt_free id dropped) ∙ once,
      ap (place_of id) (owners-cpvt_free id dropped) ∙ at_i,
    )
