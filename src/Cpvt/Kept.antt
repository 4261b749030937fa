-- ===== src/Cpvt/Kept.antt =====
-- What the operations of src/cpvt.c that do not change a call's state leave of the states and the
-- counters.
use asterisk_chan_quectel.Prelude.{
  ℕ, ◌≡◌, refl, ap, ◌∙◌, inl, inr, Bool, true, not, ◌&&◌, ◌||◌, Option, none, some, List, [], ◌∷◌,
  map, arith, ◌==◌, if◌then◌else◌, Bool-cases, Option-cases, if-elim,
}
use asterisk_chan_quectel.Cpvt.{CallState, Cpvt, Config, Device, find_cpvt, change_cpvt}
use asterisk_chan_quectel.Cpvt.Activate.{
  Start, starts, cpvt_stop_uac, set_fds, detach_at, place_of, detach_stream, attach_stream,
  reset_flags, close_fds, disactivate, cpvt_call_disactivate, yield_master, other_master, grant,
  refuse, take_audio, activate, cpvt_call_activate,
}
use asterisk_chan_quectel.Cpvt.Counts.{
  state_of, key_of, copies, Keeps, states-set_cpvt, copies-set_cpvt, copies-map,
}

-- The same calls and counters.
pub kept_same :
    (dev dev' : Device)
    → dev'.chans ≡ dev.chans
    → dev'.chansno ≡ dev.chansno
    → dev'.chan_count ≡ dev.chan_count
    → Keeps dev dev'
kept_same dev dev' c n k = record {
  states = ap (map state_of) c;
  number = n;
  counts = k;
  addresses = λ x. ap (copies x) c;
}

pub kept_then : {a b c : Device} → Keeps a b → Keeps b c → Keeps a c
kept_then k l = record {
  states = l.states ∙ k.states;
  number = l.number ∙ k.number;
  counts = l.counts ∙ k.counts;
  addresses = λ x. l.addresses x ∙ k.addresses x;
}

-- A call changed in another part than its address and its state.
pub kept_change :
    (id : ℕ) (f : Cpvt → Cpvt) (dev : Device)
    → ((c : Cpvt) → key_of (f c) ≡ key_of c)
    → Keeps dev (change_cpvt id f dev)
kept_change id f dev same = record {
  states = states-set_cpvt id f dev.chans (λ c. ap (λ (k : ℕ × CallState). k.1) (same c));
  number = refl;
  counts = refl;
  addresses = λ x. copies-set_cpvt x id f dev.chans (λ c. ap (λ (k : ℕ × CallState). k.0) (same c));
}

pub Keeps-cpvt_stop_uac : (dev : Device) → Keeps dev (cpvt_stop_uac dev)
unfolding cpvt_stop_uac
Keeps-cpvt_stop_uac dev = kept_same dev _ (ground arith) (ground arith) (ground arith)

pub Keeps-detach_stream : (id : ℕ) (dev : Device) → Keeps dev (detach_stream id dev)
unfolding detach_stream detach_at
Keeps-detach_stream id dev = elim (Option-cases (place_of id dev.owners)) [
  | inl e ↦ rw e (kept_same dev _ refl refl refl)
  | inr (i, e) ↦ rw e (kept_same dev _ refl refl refl)
]

pub Keeps-disactivate :
    (conf : Config) (c : Cpvt) (dev : Device) → Keeps dev (disactivate conf c dev)
unfolding disactivate
Keeps-disactivate conf c dev =
    let step = λ (d : Device). kept_change c.id reset_flags d (λ (x : Cpvt). refl) in
    let close = λ (d : Device). kept_change c.id close_fds d (λ (x : Cpvt). refl) in
    if-elim (Keeps dev) (not c.activated) (λ p. kept_same dev dev refl refl refl)
      (λ p.
        if-elim (λ (d : Device). Keeps dev (change_cpvt c.id reset_flags d)) conf.uac
          (λ u.
            if-elim
              (λ (d : Device).
                Keeps dev (change_cpvt c.id reset_flags (change_cpvt c.id close_fds d)))
              c.master (λ m. kept_then (Keeps-cpvt_stop_uac dev) (kept_then (close _) (step _)))
              (λ m. kept_then (close _) (step _)))
          (λ u.
            if-elim (λ (d : Device). Keeps dev (change_cpvt c.id reset_flags d)) conf.multiparty
              (λ m. kept_then (Keeps-detach_stream c.id dev) (step _)) (λ m. step dev)))

pub Keeps-cpvt_call_disactivate :
    (conf : Config) (id : ℕ) (dev : Device) → Keeps dev (cpvt_call_disactivate conf id dev)
unfolding cpvt_call_disactivate
Keeps-cpvt_call_disactivate conf id dev = elim (Option-cases (find_cpvt id dev.chans)) [
  | inl e ↦ rw e (kept_same dev dev refl refl refl)
  | inr (c, e) ↦ rw e (Keeps-disactivate conf c dev)
]

yield_master_id : (uac : Bool) (id : ℕ) (c : Cpvt) → (yield_master uac id c).id ≡ c.id
unfolding yield_master
yield_master_id uac id c = if-elim (λ (d : Cpvt). d.id ≡ c.id) (c.id == id) (λ p. refl) (λ q. refl)

states-yield_master :
    (uac : Bool) (id : ℕ) (cs : List Cpvt)
    → map state_of (map (yield_master uac id) cs) ≡ map state_of cs
unfolding yield_master
states-yield_master uac id [] = refl
states-yield_master uac id (c ∷ cs) = elim (Bool-cases (c.id == id)) [
  | inl p ↦ rw p (ap (λ (l : List CallState). c.state ∷ l) (states-yield_master uac id cs))
  | inr q ↦ rw q (ap (λ (l : List CallState). c.state ∷ l) (states-yield_master uac id cs))
]

pub Keeps-refuse : (c : Cpvt) (dev : Device) → Keeps dev (refuse c dev)
unfolding refuse
Keeps-refuse c dev =
    let k = kept_change c.id (λ (d : Cpvt). reset_flags (close_fds d)) dev (λ (x : Cpvt). refl) in
    elim (Option-cases c.channel) [
      | inl e ↦ rw e k
      | inr (ch, e) ↦ rw e (record {
        states = k.states;
        number = k.number;
        counts = k.counts;
        addresses = k.addresses;
      })
    ]

pub Keeps-take_audio :
    (conf : Config) (first second : Start) (replacing : Bool) (c : Cpvt) (audio : Option ℕ)
    (dev : Device)
    → Keeps dev (take_audio conf first second replacing c audio dev).0
unfolding take_audio grant
Keeps-take_audio conf first second replacing c none dev = kept_same dev dev refl refl refl
Keeps-take_audio conf first second replacing c (some fd) dev =
    let P = λ (r : Device × Bool). Keeps dev r.0 in
    let given = λ (d : Device).
      kept_change c.id
        (λ (x : Cpvt). record x {
          channel = set_fds (some fd) d.a_timer x.channel;
          activated = true;
          master = true;
        })
        d (λ (x : Cpvt). refl) in
    let stopped : Keeps dev (if replacing then cpvt_stop_uac dev else dev) =
      if-elim (Keeps dev) replacing (λ r. Keeps-cpvt_stop_uac dev)
        (λ r. kept_same dev dev refl refl refl) in
    if-elim P conf.uac
      (λ u.
        if-elim P (starts first second) (λ s. kept_then stopped (given _))
          (λ s. kept_then stopped (Keeps-refuse c _)))
      (λ u. given dev)

pub Keeps-activate :
    (conf : Config) (first second : Start) (c : Cpvt) (dev : Device)
    → Keeps dev (activate conf first second c dev).0
unfolding activate attach_stream
Keeps-activate conf first second c dev =
    let yielded : Keeps dev (record dev { chans = map (yield_master conf.uac c.id) dev.chans }) =
      record {
        states = states-yield_master conf.uac c.id dev.chans;
        number = refl;
        counts = refl;
        addresses = λ x.
            copies-map x (yield_master conf.uac c.id) dev.chans (yield_master_id conf.uac c.id);
      } in
    if-elim (λ (r : Device × Bool). Keeps dev r.0) (c.master || c.local_channel)
      (λ p. kept_same dev dev refl refl refl)
      (λ p.
        if-elim
          (λ (d : Device).
            Keeps dev
              (take_audio conf first second (other_master c.id dev.chans) c dev.audio_fd d).0)
          (not c.activated && not conf.uac && conf.multiparty)
          (λ q.
            kept_then (kept_then yielded (kept_same _ _ refl refl refl))
              (Keeps-take_audio conf first second _ c dev.audio_fd _))
          (λ q. kept_then yielded (Keeps-take_audio conf first second _ c dev.audio_fd _)))

pub Keeps-cpvt_call_activate :
    (conf : Config) (first second : Start) (id : ℕ) (dev : Device)
    → Keeps dev (cpvt_call_activate conf first second id dev).0
unfolding cpvt_call_activate
Keeps-cpvt_call_activate conf first second id dev = elim (Option-cases (find_cpvt id dev.chans)) [
  | inl e ↦ rw e (kept_same dev dev refl refl refl)
  | inr (c, e) ↦ rw e (Keeps-activate conf first second c dev)
]
