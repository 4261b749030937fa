-- ===== src/Cpvt/Distinct.antt =====
-- The addresses of the calls of src/cpvt.c: no two calls in the list of a device have the same one.
use asterisk_chan_quectel.Prelude.{
  ℕ, ◌+◌, ◌≡◌, ◌≤◌, refl, ap, inl, inr, Bool, true, false, not, ◌&&◌, ◌||◌, Option, none, some,
  List, [], ◌∷◌, ◌++◌, arith, ◌==◌, ==_iff, if◌then◌else◌, All, Bool-cases, Option-cases, if-elim,
}
use asterisk_chan_quectel.Cpvt.{
  CallState, active, released, same_state, Cpvt, Config, Device, find_cpvt, change_cpvt,
  remove_cpvt, Got, insert_cpvt, decrease_chan_counters, relink_to_sys_chan,
  pvt_on_remove_last_channel, cpvt_free, pvt_on_create_1st_channel,
}
use asterisk_chan_quectel.Cpvt.Change.{pvt_update_state_flags}
use asterisk_chan_quectel.Cpvt.Counts.{copies, copies-set_cpvt}
use asterisk_chan_quectel.Cpvt.Changes.{Keeps-clear_flag}
use asterisk_chan_quectel.Cpvt.Stable.{Stable}
use asterisk_chan_quectel.Cpvt.Audio.{IsCall}

abbrev pub IsDistinct : Device → Type 0
IsDistinct dev = (x : ℕ) → copies x dev.chans ≤ 1

copies-remove_cpvt : (x id : ℕ) (cs : List Cpvt) → copies x (remove_cpvt id cs) ≤ copies x cs
unfolding copies
copies-remove_cpvt x id [] = omega arith
copies-remove_cpvt x id (c ∷ cs) = elim (Bool-cases (c.id == id)) [
  | inl p ↦ rw p (omega arith)
  | inr q ↦ rw q (omega (arith, copies-remove_cpvt x id cs))
]

copies-append : (x : ℕ) (cs ds : List Cpvt) → copies x (cs ++ ds) ≡ copies x cs + copies x ds
unfolding copies
copies-append x [] ds = omega arith
copies-append x (c ∷ cs) ds = omega (arith, copies-append x cs ds)

copies_missing : (x : ℕ) (cs : List Cpvt) → find_cpvt x cs ≡ none → copies x cs ≡ 0
unfolding copies
copies_missing x [] e = refl
copies_missing x (c ∷ cs) e = elim (Bool-cases (c.id == x)) [
  | inl p ↦ let no : some c ≡ none = rw p at e in cc
  | inr q ↦ rw q (omega (arith, copies_missing x cs (rw q at e)))
]

cpvt_free-IsDistinct : (id : ℕ) (dev : Device) → IsDistinct dev → IsDistinct (cpvt_free id dev)
unfolding cpvt_free relink_to_sys_chan decrease_chan_counters pvt_on_remove_last_channel
cpvt_free-IsDistinct id dev h = elim (Option-cases (find_cpvt id dev.chans)) [
  | inl e ↦ rw e (if-elim IsDistinct (dev.chansno == 0) (λ p. h) (λ q. h))
  | inr (c, e) ↦
      let d = decrease_chan_counters id (some c) dev in
      let fewer : (x : ℕ) → copies x (remove_cpvt id dev.chans) ≤ 1 =
        λ x. omega (arith, h x, copies-remove_cpvt x id dev.chans) in
      rw e (if-elim IsDistinct (d.chansno == 0) (λ p. fewer) (λ q. fewer))
]

update-IsDistinct :
    (c : Cpvt) (new : CallState) (dev : Device)
    → IsDistinct dev
    → IsDistinct (
        pvt_update_state_flags c.state new
          (change_cpvt c.id (λ (d : Cpvt). record d { state = new }) dev))
unfolding pvt_update_state_flags
update-IsDistinct c new dev h =
    let f : Cpvt → Cpvt = λ d. record d { state = new } in
    let same = λ (x : ℕ). copies-set_cpvt x c.id f dev.chans (λ d. refl) in
    if-elim IsDistinct (same_state new active || same_state new released)
      (λ p x. omega (arith, h x, same x, (Keeps-clear_flag c.state _).addresses x))
      (λ q x. omega (arith, h x, same x))

-- The addresses stay distinct, up to the allocation of a call.
pub IsDistinct-Stable : Stable IsDistinct
IsDistinct-Stable = record {
  kept = λ k h x. omega (arith, k.addresses x, h x);
  freed = cpvt_free-IsDistinct;
  entered = λ c new dev e differ h. update-IsDistinct c new dev h;
}

copies-added :
    (x : ℕ) (cs : List Cpvt) (c : Cpvt)
    → find_cpvt c.id cs ≡ none
    → copies x cs ≤ 1
    → copies x (cs ++ (c ∷ [])) ≤ 1
unfolding copies
copies-added x cs c fresh h = elim (Bool-cases (c.id == x)) [
  | inl p ↦
      let none_yet = copies_missing c.id cs fresh in
      let same = ap (λ (n : ℕ). copies n cs) ((==_iff c.id x).0 p) in
      let last : copies x (c ∷ []) ≤ 1 = rw p (omega arith) in
      omega (arith, copies-append x cs (c ∷ []), none_yet, same, last)
  | inr q ↦
      let last : copies x (c ∷ []) ≡ 0 = rw q refl in
      omega (arith, copies-append x cs (c ∷ []), h, last)
]

-- A new call has an address that no call in the list has.
pub insert_cpvt-IsDistinct :
    (conf : Config) (got : Got) (pipe : Option ℕ) (id call_idx : ℕ) (dir : Bool) (state : CallState)
    (local_channel : Bool) (dev : Device)
    → find_cpvt id dev.chans ≡ none
    → IsDistinct dev
    → IsDistinct (insert_cpvt conf got pipe id call_idx dir state local_channel dev)
unfolding insert_cpvt pvt_on_create_1st_channel copies
insert_cpvt-IsDistinct conf got pipe id call_idx dir state local_channel dev fresh h =
    let cpvt : Cpvt = record {
      id = id;
      channel = none;
      call_idx = call_idx;
      state = state;
      need_hangup = false;
      activated = false;
      master = false;
      direction = dir;
      local_channel = local_channel;
      rd_pipe = pipe;
    } in
    let added = λ (x : ℕ). copies-added x dev.chans cpvt fresh (h x) in
    if-elim (λ (d : Device). (x : ℕ) → copies x d.chans ≤ 1) (dev.chansno == 0)
      (λ p.
        if-elim (λ (d : Device). (x : ℕ) → copies x d.chans ≤ 1) (conf.multiparty && not conf.uac)
          (λ q. added) (λ q. added))
      (λ p. added)

-- How many calls are the master.
unfoldable pub masters : List Cpvt → ℕ
masters [] = 0
masters (c ∷ cs) = (if c.master then 1 else 0) + masters cs

-- Where every master has one address, there are no more masters than calls at it.
pub masters-copies :
    (uac : Bool) (m : ℕ) (cs : List Cpvt) → All (IsCall uac m) cs → masters cs ≤ copies m cs
unfolding masters copies
masters-copies uac m [] h = omega arith
masters-copies uac m (c ∷ cs) (h, hs) =
    let rest = masters-copies uac m cs hs in
    elim (Bool-cases c.master) [
      | inl p ↦
          let own : (c.id == m) ≡ true = (==_iff c.id m).1 (h.one_master p) in
          rw (p, own) (omega (arith, rest))
      | inr q ↦ rw q (omega (arith, rest))
    ]
