-- ===== src/Cpvt/Release.antt =====
-- Calls that are released: `cpvt_change_state` to the state RELEASED in src/cpvt.c, and
-- `pvt_disconnect` of src/chan_quectel.c.
use asterisk_chan_quectel.Prelude.{
  ℕ, ◌^◌, ◌<◌, ◌≡◌, refl, sym, ap, ◌∙◌, inl, inr, true, false, not, none, some, List, [], ◌∷◌, map,
  arith, ◌==◌, u8, length, All, Bool-cases, Option-cases, if-elim,
}
use asterisk_chan_quectel.AtCommand.{at_hangup_immediately}
use asterisk_chan_quectel.Cpvt.{
  CallState, released, same_state, Channel, Cpvt, drop_tech_pvt, Config, Device, emit, find_cpvt,
  set_cpvt, change_cpvt, remove_cpvt, decrease_chan_counters, relink_to_sys_chan,
  pvt_on_remove_last_channel, cpvt_free,
}
use asterisk_chan_quectel.Cpvt.Activate.{disactivate, cpvt_call_disactivate}
use asterisk_chan_quectel.Cpvt.Change.{
  Outside, cause_normal_unspecified, pvt_update_state_flags, enqueued, change_state_no_channel,
  change_state, enter_state, cpvt_change_state,
}
use asterisk_chan_quectel.Cpvt.Channels.{release_call, release_calls, pvt_disconnect}
use asterisk_chan_quectel.Cpvt.Found.{find_same}
use asterisk_chan_quectel.Cpvt.Counts.{state_of, count_state, IsCounted}
use asterisk_chan_quectel.Cpvt.Counted.{pvt_disconnect-IsCounted}
use asterisk_chan_quectel.Cpvt.Audio.{disactivated, disactivate_lem}
use asterisk_chan_quectel.Cpvt.Calls.{Same-enqueued, Same-pvt_update_state_flags}

remove_cpvt_missing : (id : ℕ) (cs : List Cpvt) → find_cpvt id cs ≡ none → remove_cpvt id cs ≡ cs
remove_cpvt_missing id [] e = refl
remove_cpvt_missing id (d ∷ ds) e = elim (Bool-cases (d.id == id)) [
  | inl p ↦ let no : some d ≡ none = rw p at e in cc
  | inr q ↦ rw q (ap (λ (l : List Cpvt). d ∷ l) (remove_cpvt_missing id ds (rw q at e)))
]

remove_cpvt-set_cpvt :
    (id : ℕ) (f : Cpvt → Cpvt) (cs : List Cpvt)
    → ((d : Cpvt) → (f d).id ≡ d.id)
    → remove_cpvt id (set_cpvt id f cs) ≡ remove_cpvt id cs
unfolding set_cpvt
remove_cpvt-set_cpvt id f [] same = refl
remove_cpvt-set_cpvt id f (d ∷ ds) same = elim (Bool-cases (d.id == id)) [
  | inl p ↦ let p' : ((f d).id == id) ≡ true = rw (same d) p in rw (p, p') refl
  | inr q ↦ rw (q, q) (ap (λ (l : List Cpvt). d ∷ l) (remove_cpvt-set_cpvt id f ds same))
]

pub chans-cpvt_free : (id : ℕ) (dev : Device) → (cpvt_free id dev).chans ≡ remove_cpvt id dev.chans
unfolding cpvt_free relink_to_sys_chan decrease_chan_counters pvt_on_remove_last_channel
chans-cpvt_free id dev =
    let gone = λ (d : Device). d.chans ≡ remove_cpvt id dev.chans in
    elim (Option-cases (find_cpvt id dev.chans)) [
      | inl e ↦
          let same = sym (remove_cpvt_missing id dev.chans e) in
          rw e (if-elim gone (dev.chansno == 0) (λ p. same) (λ p. same))
      | inr (c, e) ↦
          let d = decrease_chan_counters id (some c) dev in
          rw e (if-elim gone (d.chansno == 0) (λ p. refl) (λ p. refl))
    ]

-- What is left of the calls when one that has been disactivated is removed.
remove-disactivate :
    (conf : Config) (c : Cpvt) (dev : Device)
    → remove_cpvt c.id (disactivate conf c dev).chans ≡ remove_cpvt c.id dev.chans
remove-disactivate conf c dev = elim (Bool-cases c.activated) [
  | inl on ↦
      rw (disactivate_lem conf c dev on).chans
        (remove_cpvt-set_cpvt c.id (disactivated conf) dev.chans (λ d. ground arith))
  | inr off ↦
      let same : disactivate conf c dev ≡ dev = unfold disactivate in (rw off refl) in
      ap (λ (d : Device). remove_cpvt c.id d.chans) same
]

remove-cpvt_call_disactivate :
    (conf : Config) (id : ℕ) (dev : Device)
    → remove_cpvt id (cpvt_call_disactivate conf id dev).chans ≡ remove_cpvt id dev.chans
unfolding cpvt_call_disactivate
remove-cpvt_call_disactivate conf id dev = elim (Option-cases (find_cpvt id dev.chans)) [
  | inl e ↦ rw e refl
  | inr (c, e) ↦ rw e (
      ap (λ (n : ℕ). remove_cpvt n (disactivate conf c dev).chans)
        (sym (find_same id dev.chans c e))
      ∙ remove-disactivate conf c dev
      ∙ ap (λ (n : ℕ). remove_cpvt n dev.chans) (find_same id dev.chans c e))
]

chans-change_state_released :
    (conf : Config) (o : Outside) (c : Cpvt) (ch : Channel) (old : CallState) (cause : ℕ)
    (dev : Device)
    → (change_state conf o c ch old released cause dev).chans ≡ remove_cpvt c.id dev.chans
unfolding change_state
chans-change_state_released conf o c ch old cause dev =
    chans-cpvt_free c.id (emit (drop_tech_pvt ch.name) (cpvt_call_disactivate conf c.id dev))
    ∙ remove-cpvt_call_disactivate conf c.id dev

chans-released_by :
    (conf : Config) (o : Outside) (c : Cpvt) (cause : ℕ) (dev : Device)
    → (elim c.channel as (λ h. Device) [
      | some ch ↦ change_state conf o c ch c.state released cause dev
      | none ↦ change_state_no_channel conf o c released dev
    ]).chans
      ≡ remove_cpvt c.id dev.chans
unfolding change_state_no_channel
chans-released_by conf o c cause dev = elim (Option-cases c.channel) [
  | inl n ↦ rw n (chans-cpvt_free c.id dev)
  | inr (ch, n) ↦ rw n (chans-change_state_released conf o c ch c.state cause dev)
]

chans-enter_state_released :
    (conf : Config) (o : Outside) (c : Cpvt) (cause : ℕ) (dev : Device)
    → same_state released c.state ≡ false
    → (enter_state conf o c released cause dev).0.chans ≡ remove_cpvt c.id dev.chans
unfolding enter_state
chans-enter_state_released conf o c cause dev differ =
    let f : Cpvt → Cpvt = λ d. record d { state = released } in
    let dev1 = change_cpvt c.id f dev in
    let dev2 = pvt_update_state_flags c.state released dev1 in
    let s = Same-pvt_update_state_flags c.state released dev1 in
    rw differ (
      chans-released_by conf o c cause dev2
      ∙ ap (remove_cpvt c.id) s.chans
      ∙ remove_cpvt-set_cpvt c.id f dev.chans (λ d. refl))

-- A call that is in another state than RELEASED is gone after `cpvt_change_state` to that state, with
-- a channel or without; the other calls are as they were.
pub cpvt_change_state_released :
    (conf : Config) (o : Outside) (id : ℕ) (c : Cpvt) (cause : ℕ) (dev : Device)
    → find_cpvt id dev.chans ≡ some c
    → same_state released c.state ≡ false
    → (cpvt_change_state conf o id released cause dev).0.chans ≡ remove_cpvt id dev.chans
unfolding cpvt_change_state
cpvt_change_state_released conf o id c cause dev e differ = rw e (
    chans-enter_state_released conf o c cause dev differ
    ∙ ap (λ (n : ℕ). remove_cpvt n dev.chans) (find_same id dev.chans c e))

-- The loop over the calls meets each of them at the head of what is left.
release_call-head :
    (conf : Config) (o : Outside) (c : Cpvt) (cs : List Cpvt) (dev : Device)
    → dev.chans ≡ c ∷ cs
    → same_state released c.state ≡ false
    → (release_call conf o c dev).chans ≡ cs
unfolding release_call
release_call-head conf o c cs dev e differ =
    let asked =
      at_hangup_immediately o.ast o.format o.env conf.is_simcom c.id c.call_idx
        cause_normal_unspecified dev.queue in
    let f : Cpvt → Cpvt = λ d. record d { need_hangup = false } in
    let own : (c.id == c.id) ≡ true = ground arith in
    let dev1 = change_cpvt c.id f (enqueued asked dev).0 in
    let now : dev1.chans ≡ f c ∷ cs =
      ap (set_cpvt c.id f) ((Same-enqueued asked dev).chans ∙ e)
      ∙ unfold set_cpvt in (rw own refl) in
    let found : find_cpvt c.id dev1.chans ≡ some (f c) = rw (now, own) refl in
    cpvt_change_state_released conf o c.id (f c) cause_normal_unspecified dev1 found differ
    ∙ rw (now, own) refl

release_calls_empties :
    (conf : Config) (o : ℕ → Outside) (cs : List Cpvt) (dev : Device)
    → dev.chans ≡ cs
    → All (λ (c : Cpvt). same_state released c.state ≡ false) cs
    → (release_calls conf o cs dev).chans ≡ []
unfolding release_calls
release_calls_empties conf o [] dev e all = e
release_calls_empties conf o (c ∷ cs) dev e all =
    release_calls_empties conf o cs (release_call conf (o c.id) c dev)
      (release_call-head conf (o c.id) c cs dev e (all.0)) (all.1)

no_calls : (cs : List Cpvt) → length cs ≡ 0 → cs ≡ []
no_calls [] e = refl
no_calls (c ∷ cs) e = absurd (omega (arith, e))

chans-pvt_disconnect :
    (conf : Config) (o : ℕ → Outside) (dev : Device)
    → IsCounted dev
    → length dev.chans < 2 ^ 32
    → All (λ (c : Cpvt). same_state released c.state ≡ false) dev.chans
    → (pvt_disconnect conf o dev).chans ≡ []
unfolding pvt_disconnect
chans-pvt_disconnect conf o dev k few all =
    if-elim (λ (d : Device). d.chans ≡ []) (not (dev.chansno == 0))
      (λ p. release_calls_empties conf o dev.chans dev refl all)
      (λ p.
        let none_counted : dev.chansno ≡ 0 = ground arith in
        no_calls dev.chans (omega (arith, k.number, none_counted)))

-- `pvt_disconnect` leaves a device no calls, none of which was in the state RELEASED, and all its
-- counters at 0, where the counters were right and there were fewer than 2 ^ 32 calls.
pub pvt_disconnect_empties :
    (conf : Config) (o : ℕ → Outside) (dev : Device)
    → IsCounted dev
    → length dev.chans < 2 ^ 32
    → All (λ (c : Cpvt). same_state released c.state ≡ false) dev.chans
    → ((pvt_disconnect conf o dev).chans ≡ [])
      × ((pvt_disconnect conf o dev).chansno ≡ 0)
      × ((s : CallState) → (pvt_disconnect conf o dev).chan_count s ≡ 0)
unfolding count_state
pvt_disconnect_empties conf o dev k few all =
    let empty = chans-pvt_disconnect conf o dev k few all in
    let k' = pvt_disconnect-IsCounted conf o dev k in
    (
      empty,
      rw empty at k'.number,
      λ s. k'.states s ∙ ap (λ (l : List Cpvt). u8 (count_state s (map state_of l))) empty,
    )
