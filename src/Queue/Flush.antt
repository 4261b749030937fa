-- ===== src/Queue/Flush.antt =====
-- `at_queue_flush` of src/at_queue.c, and what a flushed queue is.
use asterisk_chan_quectel.Prelude.{
  ℕ, zero, suc, ◌+◌, ◌-◌, ◌<◌, ◌≡◌, refl, ◌∙◌, true, Option, none, some, List, [], ◌∷◌, arith, ◌==◌,
  length, if-elim,
}
use asterisk_chan_quectel.Queue.{
  Task, Pvt, remove_head, at_queue_remove, flush_loop, at_queue_flush,
}
use asterisk_chan_quectel.Queue.Counts.{owed, IsCounted, at_queue_remove-IsCounted}

length-remove_head :
    (pvt : Pvt) (ts : List Task)
    → pvt.at_queue ≡ ts
    → length (remove_head pvt ts).at_queue ≡ length ts - 1
unfolding remove_head
length-remove_head pvt [] e = rw e refl
length-remove_head pvt (t ∷ rest) e = omega arith

-- A flush that ended, with nothing left in the queue and nothing on the counters.
abbrev pub IsFlushed : Option Pvt → Type 0
IsFlushed none = ⊥
IsFlushed (some pvt) = (pvt.at_queue ≡ []) × (pvt.at_tasks ≡ 0) × (pvt.at_cmds ≡ 0)

queue_empty : (ts : List Task) → (length ts == 0) ≡ true → ts ≡ []
queue_empty [] h = refl
queue_empty (t ∷ ts) h = ground arith

flush_loop-IsFlushed :
    (fuel : ℕ) (pvt : Pvt)
    → IsCounted pvt
    → length pvt.at_queue < fuel
    → IsFlushed (flush_loop fuel pvt)
unfolding flush_loop at_queue_remove owed
flush_loop-IsFlushed zero pvt c h = absurd (omega arith)
flush_loop-IsFlushed (suc fuel) pvt c h =
    let shorter = length-remove_head pvt pvt.at_queue refl in
    if-elim IsFlushed (length pvt.at_queue == 0)
      (λ done.
        let empty = queue_empty pvt.at_queue done in
        (empty, c.tasks ∙ rw empty refl, c.cmds ∙ rw empty refl))
      (λ more.
        flush_loop-IsFlushed fuel (at_queue_remove pvt) (at_queue_remove-IsCounted c)
          (ground arith))

-- Where the counters are right, `at_queue_flush` ends, with an empty queue and both counters at 0.
pub at_queue_flush-IsFlushed : {pvt : Pvt} → IsCounted pvt → IsFlushed (at_queue_flush pvt)
unfolding at_queue_flush
at_queue_flush-IsFlushed {pvt} c =
    flush_loop-IsFlushed (length pvt.at_queue + 1) pvt c (omega arith)
