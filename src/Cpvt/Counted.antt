-- ===== src/Cpvt/Counted.antt =====
-- The counters of src/cpvt.c and its addresses through what src/channel.c, src/at_response.c and src/chan_quectel.c do
-- with a call.
use asterisk_chan_quectel.Prelude.{
  ℕ, ◌+◌, ◌≡◌, refl, ap, ◌∙◌, inl, inr, Bool, false, not, ◌&&◌, Option, none, List, [], ◌∷◌, ◌++◌,
  map, arith, ◌==◌, u8, u32, length, length-append, length-map, Bool-cases, if-elim,
}
use asterisk_chan_quectel.Cpvt.{
  CallState, same_state, Cpvt, Config, Device, set_count, Got, insert_cpvt,
  pvt_on_create_1st_channel,
}
use asterisk_chan_quectel.Cpvt.Change.{Outside}
use asterisk_chan_quectel.Cpvt.Channels.{pvt_disconnect}
use asterisk_chan_quectel.Cpvt.Counts.{
  state_of, count_state, one, IsCounted, Keeps, same_state_sound, Keeps-IsCounted,
  cpvt_free-IsCounted,
}
use asterisk_chan_quectel.Cpvt.Kept.{kept_same}
use asterisk_chan_quectel.Cpvt.Stable.{Stable}
use asterisk_chan_quectel.Cpvt.Lives.{pvt_disconnect_stable}
use asterisk_chan_quectel.Cpvt.Changes.{update-IsCounted}

count_state-append :
    (s : CallState) (xs ys : List CallState)
    → count_state s (xs ++ ys) ≡ count_state s xs + count_state s ys
unfolding count_state
count_state-append s [] ys = omega arith
count_state-append s (x ∷ xs) ys = omega (arith, count_state-append s xs ys)

map-append : (cs ds : List Cpvt) → map state_of (cs ++ ds) ≡ map state_of cs ++ map state_of ds
map-append [] ds = refl
map-append (c ∷ cs) ds = ap (λ (l : List CallState). c.state ∷ l) (map-append cs ds)

Keeps-pvt_on_create_1st_channel :
    (conf : Config) (timer : Option ℕ) (dev : Device)
    → Keeps dev (pvt_on_create_1st_channel conf timer dev)
unfolding pvt_on_create_1st_channel
Keeps-pvt_on_create_1st_channel conf timer dev =
    if-elim (Keeps dev) (conf.multiparty && not conf.uac) (λ p. kept_same dev _ refl refl refl)
      (λ p. kept_same dev _ refl refl refl)

-- One more call at the end of the list, and in the counters of its state.
added-IsCounted :
    (dev : Device) (c : Cpvt) (d : Device)
    → map state_of d.chans ≡ map state_of (dev.chans ++ (c ∷ []))
    → IsCounted dev
    → IsCounted (record d {
      chansno = u32 (dev.chansno + 1);
      chan_count = set_count dev.chan_count c.state (u8 (dev.chan_count c.state + 1));
    })
unfolding count_state
added-IsCounted dev c d e k = record {
  number =
      let l = length-map d.chans state_of in
      let l' = length-map (dev.chans ++ (c ∷ [])) state_of in
      omega (arith, k.number, l, l', ap length e, length-append dev.chans (c ∷ []));
  states = λ s.
      let n : count_state s (map state_of d.chans)
          ≡ count_state s (map state_of dev.chans) + one s c.state =
        ap (count_state s) (e ∙ map-append dev.chans (c ∷ []))
        ∙ count_state-append s (map state_of dev.chans) (c.state ∷ [])
        ∙ omega arith in
      elim (Bool-cases (same_state c.state s)) [
        | inl p ↦
            let same = same_state_sound c.state s p in
            let n' = rw p at n in
            let at_s = ap (λ (t : CallState). count_state t (map state_of dev.chans)) same in
            rw p (omega (arith, k.states c.state, n', at_s))
        | inr q ↦ let n' = rw q at n in rw q (omega (arith, k.states s, n'))
      ];
}

-- A list that has the states of the calls with one more at the end.
pub insert_cpvt-IsCounted :
    (conf : Config) (got : Got) (pipe : Option ℕ) (id call_idx : ℕ) (dir : Bool) (state : CallState)
    (local_channel : Bool) (dev : Device)
    → IsCounted dev
    → IsCounted (insert_cpvt conf got pipe id call_idx dir state local_channel dev)
unfolding insert_cpvt
insert_cpvt-IsCounted conf got pipe id call_idx dir state local_channel dev k =
    let cpvt : Cpvt = record {
      id = id;
      channel = none;
      call_idx = call_idx;
      state = state;
      need_hangup = false;
      activated = false;
      master = false;
      direction = dir;
      local_channel = local_channel;
      rd_pipe = pipe;
    } in
    let dev1 : Device = record dev { chans = dev.chans ++ (cpvt ∷ []) } in
    if-elim
      (λ (d : Device). IsCounted (record d {
        chansno = u32 (dev.chansno + 1);
        chan_count = set_count dev.chan_count state (u8 (dev.chan_count state + 1));
      }))
      (dev.chansno == 0)
      (λ p.
        added-IsCounted dev cpvt (pvt_on_create_1st_channel conf got.timer dev1)
          (Keeps-pvt_on_create_1st_channel conf got.timer dev1).states k)
      (λ p. added-IsCounted dev cpvt dev1 refl k)

-- The counters stay right, up to the allocation of a call.
pub IsCounted-Stable : Stable IsCounted
IsCounted-Stable = record {
  kept = Keeps-IsCounted;
  freed = cpvt_free-IsCounted;
  entered = update-IsCounted;
}

-- `pvt_disconnect` keeps the counters right while it releases the calls.
pub pvt_disconnect-IsCounted :
    (conf : Config) (o : ℕ → Outside) (dev : Device)
    → IsCounted dev
    → IsCounted (pvt_disconnect conf o dev)
pvt_disconnect-IsCounted conf o dev k =
    pvt_disconnect_stable IsCounted IsCounted-Stable conf o dev k
