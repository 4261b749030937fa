-- ===== src/Cpvt/Find.antt =====
-- The questions that src/chan_quectel.c asks of the list of calls: which call has an index, which one
-- makes sound, and whether another call can be dialled.
use asterisk_chan_quectel.Prelude.{
  ℕ, ◌+◌, ◌≡◌, refl, Bool, true, false, not, ◌&&◌, ◌||◌, Option, none, some, List, [], ◌∷◌, arith,
  ltb, leb, ◌==◌, if◌then◌else◌,
}
use asterisk_chan_quectel.Cpvt.{
  CallState, active, onhold, dialing, alerting, incoming, waiting, released, init, state_index,
  same_state, Cpvt, Device,
}

unfoldable pub pvt_channel_find_by_call_idx : ℕ → List Cpvt → Option Cpvt
pvt_channel_find_by_call_idx call_idx [] = none
pvt_channel_find_by_call_idx call_idx (c ∷ cs) =
    if call_idx == c.call_idx then some c else pvt_channel_find_by_call_idx call_idx cs

-- CPVT_IS_SOUND_SOURCE
abbrev pub is_sound_source : Cpvt → Bool
is_sound_source c = leb (state_index c.state) 4 || same_state c.state init

unfoldable pub pvt_channel_find_active : List Cpvt → Option Cpvt
pvt_channel_find_active [] = none
pvt_channel_find_active (c ∷ cs) = if is_sound_source c then some c else pvt_channel_find_active cs

-- The loop, with `res`.
unfoldable pub last_initialized : Option Cpvt → List Cpvt → Option Cpvt
last_initialized res [] = res
last_initialized res (c ∷ cs) =
    last_initialized (if is_sound_source c || same_state c.state init then some c else res) cs

unfoldable pub pvt_channel_find_last_initialized : List Cpvt → Option Cpvt
unfolding last_initialized
pvt_channel_find_last_initialized cs = last_initialized none cs

abbrev is_ignored : Option ℕ → Cpvt → Bool
is_ignored none c = false
is_ignored (some id) c = c.id == id

-- The loop of `is_dial_possible2`, with the counts of calls on hold and of active calls;
-- `use_call_waiting` is `opts & CALL_FLAG_HOLD_OTHER`.
unfoldable pub dial_loop : Bool → Option ℕ → ℕ → ℕ → List Cpvt → Bool
dial_loop use_call_waiting ignore hold act [] = true
dial_loop use_call_waiting ignore hold act (c ∷ cs) = elim c.state as (λ s. Bool) [
  | init ↦ is_ignored ignore c && dial_loop use_call_waiting ignore hold act cs
  | dialing ↦ false
  | alerting ↦ false
  | incoming ↦ false
  | waiting ↦ false
  | active ↦
      not (ltb 0 hold || not use_call_waiting)
      && dial_loop use_call_waiting ignore hold (act + 1) cs
  | onhold ↦
      not (ltb 0 act || not use_call_waiting) && dial_loop use_call_waiting ignore (hold + 1) act cs
  | released ↦ dial_loop use_call_waiting ignore hold act cs
]

unfoldable pub is_dial_possible2 : Device → Bool → Option ℕ → Bool
unfolding dial_loop
is_dial_possible2 dev use_call_waiting ignore =
    if dev.ring || dev.cwaiting || dev.dialing
    then false
    else dial_loop use_call_waiting ignore 0 0 dev.chans

-- A call that is no hindrance by itself.
unfoldable pub lets_dial : Bool → Option ℕ → Cpvt → Bool
lets_dial use_call_waiting ignore c = elim c.state as (λ s. Bool) [
  | init ↦ is_ignored ignore c
  | active ↦ use_call_waiting
  | onhold ↦ use_call_waiting
  | released ↦ true
  | _ ↦ false
]

unfoldable pub every : (Cpvt → Bool) → List Cpvt → Bool
every p [] = true
every p (c ∷ cs) = p c && every p cs

unfoldable pub has_state : CallState → List Cpvt → Bool
has_state s [] = false
has_state s (c ∷ cs) = same_state c.state s || has_state s cs

dial_loop_lem :
    (w : Bool) (ignore : Option ℕ) (hold act : ℕ) (cs : List Cpvt)
    → dial_loop w ignore hold act cs
      ≡ every (lets_dial w ignore) cs
        && not (has_state active cs && (ltb 0 hold || has_state onhold cs))
        && not (has_state onhold cs && ltb 0 act)
unfolding dial_loop lets_dial every has_state
dial_loop_lem w ignore hold act [] = refl
dial_loop_lem w ignore hold act (c ∷ cs) = ground (
  arith,
  dial_loop_lem w ignore hold act cs,
  dial_loop_lem w ignore (hold + 1) act cs,
  dial_loop_lem w ignore hold (act + 1) cs,
)

-- Another call can be dialled exactly when no call is announced or being dialled by the device's
-- flags, every call is RELEASED, or INIT and the one to ignore, or with call waiting ACTIVE or
-- ONHOLD, and no call is on hold beside an active one, in whatever order they stand in the list.
pub is_dial_possible2_lem :
    (dev : Device) (use_call_waiting : Bool) (ignore : Option ℕ)
    → is_dial_possible2 dev use_call_waiting ignore
      ≡ not (dev.ring || dev.cwaiting || dev.dialing)
        && every (lets_dial use_call_waiting ignore) dev.chans
        && not (has_state active dev.chans && has_state onhold dev.chans)
unfolding is_dial_possible2
is_dial_possible2_lem dev w ignore = ground (arith, dial_loop_lem w ignore 0 0 dev.chans)
