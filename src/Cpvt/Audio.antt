-- ===== src/Cpvt/Audio.antt =====
-- The audio of a device in src/cpvt.c: which calls are activated, which one is the master, and whose
-- channel polls a descriptor.
use asterisk_chan_quectel.Prelude.{
  ℕ, ◌≡◌, refl, ap, inl, inr, Bool, true, false, ◌||◌, Option, none, some, arith, ◌==◌,
  if◌then◌else◌, All, Bool-cases, Option-cases, if-elim,
}
use asterisk_chan_quectel.Cpvt.{
  Channel, Cpvt, Config, Device, find_cpvt, set_cpvt, change_cpvt, decrease_chan_counters,
  relink_to_sys_chan, pvt_on_remove_last_channel, cpvt_free,
}
use asterisk_chan_quectel.Cpvt.Activate.{
  cpvt_stop_uac, detach_at, place_of, detach_stream, reset_flags, close_fds, disactivate,
  cpvt_call_disactivate,
}
use asterisk_chan_quectel.Cpvt.Found.{
  find_own, set_cpvt_twice, All-found, All-set_cpvt, All-remove_cpvt,
}

abbrev pub has_channel : Option Channel → Bool
has_channel none = false
has_channel (some ch) = true

abbrev is_open : Option ℕ → Bool
is_open none = false
is_open (some fd) = true

-- Whether Asterisk polls a descriptor of the channel.
abbrev pub polls : Option Channel → Bool
polls none = false
polls (some ch) = is_open ch.fd0 || is_open ch.fd1

-- A call of a device whose master has the address `m`, if it has one.
pub record IsCall (uac : Bool) (m : ℕ) (c : Cpvt) : Type 0 where
  pub one_master : c.master ≡ true → c.id ≡ m
  pub master_active : c.master ≡ true → c.activated ≡ true
  pub active_channel : c.activated ≡ true → has_channel c.channel ≡ true
  pub only_master_polls : uac ≡ true → polls c.channel ≡ true → c.master ≡ true

-- All masters have one address; a master is activated; an activated call has a channel; and where the
-- audio is a sound card of the modem, only the master's channel polls, and there is no timer.
pub record IsAudio (conf : Config) (dev : Device) : Type 0 where
  pub main : ℕ
  pub calls : All (IsCall conf.uac main) dev.chans
  pub no_timer : conf.uac ≡ true → dev.a_timer ≡ none

-- The calls, the sound and the timer of two devices are the same.
pub record Same (dev dev' : Device) : Type 0 where
  pub chans : dev'.chans ≡ dev.chans
  pub timer : dev'.a_timer ≡ dev.a_timer

pub Same-IsAudio :
    (conf : Config) {dev dev' : Device} → Same dev dev' → IsAudio conf dev → IsAudio conf dev'
Same-IsAudio conf s a = record {
  main = a.main;
  calls = rw s.chans a.calls;
  no_timer = λ u. rw s.timer (a.no_timer u);
}

-- A call changed in a way that keeps what is said of it.
pub change_cpvt-IsAudio :
    (conf : Config) (id : ℕ) (f : Cpvt → Cpvt) (dev : Device) (c : Cpvt)
    → find_cpvt id dev.chans ≡ some c
    → ((m : ℕ) → IsCall conf.uac m c → IsCall conf.uac m (f c))
    → IsAudio conf dev
    → IsAudio conf (change_cpvt id f dev)
change_cpvt-IsAudio conf id f dev c e h a = record {
  main = a.main;
  calls =
      let P = IsCall conf.uac a.main in
      All-set_cpvt P id f dev.chans c e (h a.main (All-found P id dev.chans c e a.calls)) a.calls;
  no_timer = a.no_timer;
}

-- `cpvt_free` leaves what is said of the other calls.
pub cpvt_free-IsAudio :
    (conf : Config) (id : ℕ) (dev : Device) → IsAudio conf dev → IsAudio conf (cpvt_free id dev)
unfolding cpvt_free relink_to_sys_chan decrease_chan_counters pvt_on_remove_last_channel
cpvt_free-IsAudio conf id dev a =
    let P = IsCall conf.uac a.main in
    elim (Option-cases (find_cpvt id dev.chans)) [
      | inl e ↦ rw e (
          if-elim (IsAudio conf) (dev.chansno == 0)
            (λ p. record { main = a.main; calls = a.calls; no_timer = λ u. refl })
            (λ p. record { main = a.main; calls = a.calls; no_timer = a.no_timer }))
      | inr (c, e) ↦
          let d = decrease_chan_counters id (some c) dev in
          let rest = All-remove_cpvt P id dev.chans a.calls in
          rw e (
            if-elim (IsAudio conf) (d.chansno == 0)
              (λ p. record { main = a.main; calls = rest; no_timer = λ u. refl })
              (λ p. record { main = a.main; calls = rest; no_timer = a.no_timer }))
    ]

-- What the flags of a call that is disactivated are.
abbrev pub disactivated : Config → Cpvt → Cpvt
disactivated conf c = if conf.uac then reset_flags (close_fds c) else reset_flags c

disactivated-IsCall :
    (conf : Config) (m : ℕ) (c : Cpvt)
    → IsCall conf.uac m c
    → IsCall conf.uac m (disactivated conf c)
disactivated-IsCall conf m c h = record {
  one_master = ground arith;
  master_active = ground arith;
  active_channel = ground arith;
  only_master_polls = ground arith;
}

pub Same-cpvt_stop_uac : (dev : Device) → Same dev (cpvt_stop_uac dev)
unfolding cpvt_stop_uac
Same-cpvt_stop_uac dev = record { chans = ground arith; timer = ground arith }

Same-detach_stream : (id : ℕ) (dev : Device) → Same dev (detach_stream id dev)
unfolding detach_stream detach_at
Same-detach_stream id dev = elim (Option-cases (place_of id dev.owners)) [
  | inl e ↦ rw e (record { chans = refl; timer = refl })
  | inr (i, e) ↦ rw e (record { chans = refl; timer = refl })
]

-- What `cpvt_call_disactivate` does to the calls, for one that is activated.
pub disactivate_lem :
    (conf : Config) (c : Cpvt) (dev : Device)
    → c.activated ≡ true
    → Same (change_cpvt c.id (disactivated conf) dev) (disactivate conf c dev)
unfolding disactivate
disactivate_lem conf c dev on = rw on (elim (Bool-cases conf.uac) [
  | inl u ↦ rw u (elim (Bool-cases c.master) [
    | inl m ↦ rw m (record {
      chans =
          rw (Same-cpvt_stop_uac dev).chans
            (set_cpvt_twice c.id close_fds reset_flags dev.chans (λ d. refl));
      timer = (Same-cpvt_stop_uac dev).timer;
    })
    | inr m ↦ rw m (record {
      chans = set_cpvt_twice c.id close_fds reset_flags dev.chans (λ d. refl);
      timer = refl;
    })
  ])
  | inr u ↦ rw u (elim (Bool-cases conf.multiparty) [
    | inl m ↦ rw m (record {
      chans = ap (set_cpvt c.id reset_flags) (Same-detach_stream c.id dev).chans;
      timer = (Same-detach_stream c.id dev).timer;
    })
    | inr m ↦ rw m (record { chans = refl; timer = refl })
  ])
])

pub disactivate-IsAudio :
    (conf : Config) (c : Cpvt) (dev : Device)
    → find_cpvt c.id dev.chans ≡ some c
    → IsAudio conf dev
    → IsAudio conf (disactivate conf c dev)
disactivate-IsAudio conf c dev e a = elim (Bool-cases c.activated) [
  | inl on ↦ Same-IsAudio conf (disactivate_lem conf c dev on) (
      change_cpvt-IsAudio conf c.id (disactivated conf) dev c e (λ m. disactivated-IsCall conf m c)
        a)
  | inr off ↦
      let same : disactivate conf c dev ≡ dev = unfold disactivate in (rw off refl) in rw same a
]

-- `cpvt_call_disactivate` keeps what the audio of the device is.
pub cpvt_call_disactivate-IsAudio :
    (conf : Config) (id : ℕ) (dev : Device)
    → IsAudio conf dev
    → IsAudio conf (cpvt_call_disactivate conf id dev)
unfolding cpvt_call_disactivate
cpvt_call_disactivate-IsAudio conf id dev a = elim (Option-cases (find_cpvt id dev.chans)) [
  | inl e ↦ rw e a
  | inr (c, e) ↦ rw e (disactivate-IsAudio conf c dev (find_own id dev.chans c e) a)
]
