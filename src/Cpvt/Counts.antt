-- ===== src/Cpvt/Counts.antt =====
-- The counters of src/cpvt.c, `chansno` and `chan_count`, against the list of calls.
use asterisk_chan_quectel.Prelude.{
  ℕ, zero, suc, ◌+◌, ◌≡◌, refl, sym, ap, ◌∙◌, inl, inr, true, some, List, [], ◌∷◌, map, arith, ◌==◌,
  if◌then◌else◌, u8, u32, length, Bool-cases, Option-cases, if-elim,
}
use asterisk_chan_quectel.Cpvt.Found.{find_head}
use asterisk_chan_quectel.Cpvt.{
  CallState, active, onhold, dialing, alerting, incoming, waiting, released, init, state_index,
  same_state, Cpvt, Device, find_cpvt, set_cpvt, remove_cpvt, decrease_chan_counters,
  relink_to_sys_chan, pvt_on_remove_last_channel, cpvt_free,
}

abbrev pub state_of : Cpvt → CallState
state_of c = c.state

-- How many calls are in a state.
unfoldable pub count_state : CallState → List CallState → ℕ
count_state s [] = 0
count_state s (t ∷ ts) = (if same_state t s then 1 else 0) + count_state s ts

-- The counters say how many calls there are, and how many in each state, up to the wrap of the
-- counters.
pub record IsCounted (dev : Device) : Type 0 where
  pub number : dev.chansno ≡ u32 (length dev.chans)
  pub states : (s : CallState) → dev.chan_count s ≡ u8 (count_state s (map state_of dev.chans))

-- The address and the state of a call.
abbrev pub key_of : Cpvt → ℕ × CallState
key_of c = (c.id, c.state)

-- How many calls have an address.
unfoldable pub copies : ℕ → List Cpvt → ℕ
copies x [] = 0
copies x (c ∷ cs) = (if c.id == x then 1 else 0) + copies x cs

-- Neither the addresses and the states of the calls nor the counters are changed.
pub record Keeps (dev dev' : Device) : Type 0 where
  pub states : map state_of dev'.chans ≡ map state_of dev.chans
  pub number : dev'.chansno ≡ dev.chansno
  pub counts : dev'.chan_count ≡ dev.chan_count
  pub addresses : (x : ℕ) → copies x dev'.chans ≡ copies x dev.chans

length-map_of : (cs : List Cpvt) → length cs ≡ length (map state_of cs)
length-map_of [] = refl
length-map_of (c ∷ cs) = ap suc (length-map_of cs)

same_state_self : (s : CallState) → same_state s s ≡ true
same_state_self s = ground arith

state_with : ℕ → CallState
state_with zero = active
state_with (suc zero) = onhold
state_with (suc (suc zero)) = dialing
state_with (suc (suc (suc zero))) = alerting
state_with (suc (suc (suc (suc zero)))) = incoming
state_with (suc (suc (suc (suc (suc zero))))) = waiting
state_with (suc (suc (suc (suc (suc (suc zero)))))) = released
state_with (suc (suc (suc (suc (suc (suc (suc n))))))) = init

state_with-state_index : (s : CallState) → state_with (state_index s) ≡ s
unfolding state_with
state_with-state_index active = refl
state_with-state_index onhold = refl
state_with-state_index dialing = refl
state_with-state_index alerting = refl
state_with-state_index incoming = refl
state_with-state_index waiting = refl
state_with-state_index released = refl
state_with-state_index init = refl

pub same_state_sound : (s t : CallState) → same_state s t ≡ true → s ≡ t
same_state_sound s t h =
    let e : state_index s ≡ state_index t = ground arith in
    sym (state_with-state_index s) ∙ ap state_with e ∙ state_with-state_index t

-- One call more or less in a state.
abbrev pub one : CallState → CallState → ℕ
one s t = if same_state t s then 1 else 0

pub count_state-set_cpvt :
    (s : CallState) (id : ℕ) (f : Cpvt → Cpvt) (cs : List Cpvt) (c : Cpvt)
    → find_cpvt id cs ≡ some c
    → count_state s (map state_of (set_cpvt id f cs)) + one s c.state
      ≡ count_state s (map state_of cs) + one s (state_of (f c))
unfolding count_state set_cpvt
count_state-set_cpvt s id f [] c e = cc
count_state-set_cpvt s id f (d ∷ ds) c e = elim (Bool-cases (d.id == id)) [
  | inl p ↦ rw p (rw (find_head id c d ds p e) (omega arith))
  | inr q ↦
      let e' : find_cpvt id ds ≡ some c = rw q at e in
      rw q (omega (arith, count_state-set_cpvt s id f ds c e'))
]

count_state-remove_cpvt :
    (s : CallState) (id : ℕ) (cs : List Cpvt) (c : Cpvt)
    → find_cpvt id cs ≡ some c
    → count_state s (map state_of (remove_cpvt id cs)) + one s c.state
      ≡ count_state s (map state_of cs)
unfolding count_state
count_state-remove_cpvt s id [] c e = cc
count_state-remove_cpvt s id (d ∷ ds) c e = elim (Bool-cases (d.id == id)) [
  | inl p ↦ rw p (rw (find_head id c d ds p e) (omega arith))
  | inr q ↦
      let e' : find_cpvt id ds ≡ some c = rw q at e in
      rw q (omega (arith, count_state-remove_cpvt s id ds c e'))
]

length-remove_cpvt :
    (id : ℕ) (cs : List Cpvt) (c : Cpvt)
    → find_cpvt id cs ≡ some c
    → suc (length (remove_cpvt id cs)) ≡ length cs
length-remove_cpvt id [] c e = cc
length-remove_cpvt id (d ∷ ds) c e = elim (Bool-cases (d.id == id)) [
  | inl p ↦ rw p refl
  | inr q ↦
      let e' : find_cpvt id ds ≡ some c = rw q at e in rw q (ap suc (length-remove_cpvt id ds c e'))
]

pub length-set_cpvt :
    (id : ℕ) (f : Cpvt → Cpvt) (cs : List Cpvt) → length (set_cpvt id f cs) ≡ length cs
unfolding set_cpvt
length-set_cpvt id f [] = refl
length-set_cpvt id f (d ∷ ds) =
    if-elim (λ (l : List Cpvt). length l ≡ suc (length ds)) (d.id == id) (λ p. refl)
      (λ q. ap suc (length-set_cpvt id f ds))

pub states-set_cpvt :
    (id : ℕ) (f : Cpvt → Cpvt) (cs : List Cpvt)
    → ((c : Cpvt) → state_of (f c) ≡ state_of c)
    → map state_of (set_cpvt id f cs) ≡ map state_of cs
unfolding set_cpvt
states-set_cpvt id f [] same = refl
states-set_cpvt id f (d ∷ ds) same = elim (Bool-cases (d.id == id)) [
  | inl p ↦ rw (p, same d) refl
  | inr q ↦ rw q (ap (λ (l : List CallState). d.state ∷ l) (states-set_cpvt id f ds same))
]

pub copies-set_cpvt :
    (x id : ℕ) (f : Cpvt → Cpvt) (cs : List Cpvt)
    → ((c : Cpvt) → (f c).id ≡ c.id)
    → copies x (set_cpvt id f cs) ≡ copies x cs
unfolding copies set_cpvt
copies-set_cpvt x id f [] same = refl
copies-set_cpvt x id f (d ∷ ds) same = elim (Bool-cases (d.id == id)) [
  | inl p ↦ rw (p, same d) refl
  | inr q ↦ rw (q, copies-set_cpvt x id f ds same) refl
]

pub copies-map :
    (x : ℕ) (f : Cpvt → Cpvt) (cs : List Cpvt)
    → ((c : Cpvt) → (f c).id ≡ c.id)
    → copies x (map f cs) ≡ copies x cs
unfolding copies
copies-map x f [] same = refl
copies-map x f (d ∷ ds) same = rw (same d, copies-map x f ds same) refl

pub Keeps-IsCounted : {dev dev' : Device} → Keeps dev dev' → IsCounted dev → IsCounted dev'
Keeps-IsCounted {dev} {dev'} k c = record {
  number =
      let l : length dev'.chans ≡ length dev.chans =
        length-map_of dev'.chans ∙ ap length k.states ∙ sym (length-map_of dev.chans) in
      k.number ∙ c.number ∙ ap u32 (sym l);
  states = λ s. rw (k.states, k.counts) (c.states s);
}

decrease_chan_counters-IsCounted :
    (id : ℕ) (dev : Device)
    → IsCounted dev
    → IsCounted (decrease_chan_counters id (find_cpvt id dev.chans) dev)
unfolding decrease_chan_counters
decrease_chan_counters-IsCounted id dev k = elim (Option-cases (find_cpvt id dev.chans)) [
  | inl e ↦ rw e k
  | inr (c, e) ↦ rw e (record {
    number = omega (arith, k.number, length-remove_cpvt id dev.chans c e);
    states = λ s. elim (Bool-cases (same_state c.state s)) [
      | inl p ↦
          let same = same_state_sound c.state s p in
          let n = count_state-remove_cpvt s id dev.chans c e in
          rw p (rw same (omega (arith, k.states s, rw p at n)))
      | inr q ↦
          let n = count_state-remove_cpvt s id dev.chans c e in
          rw q (omega (arith, k.states s, rw q at n))
    ];
  })
]

-- `cpvt_free` keeps the counters right, also for a call that is in no list.
pub cpvt_free-IsCounted : (id : ℕ) (dev : Device) → IsCounted dev → IsCounted (cpvt_free id dev)
unfolding cpvt_free relink_to_sys_chan pvt_on_remove_last_channel
cpvt_free-IsCounted id dev k =
    let d = decrease_chan_counters-IsCounted id dev k in
    if-elim IsCounted ((decrease_chan_counters id (find_cpvt id dev.chans) dev).chansno == 0)
      (λ p. record { number = d.number; states = d.states })
      (λ q. record { number = d.number; states = d.states })
