-- ===== src/AtCommand/Ending.antt =====
-- `at_enqueue_hangup` of src/at_command.c.
use asterisk_chan_quectel.Prelude.{
  ℕ, ◌<◌, ◌≡◌, refl, true, ◌&&◌, ◌||◌, some, [], arith, ltb, if-elim,
}
use asterisk_chan_quectel.Queue.{Pvt, insert_task, at_queue_add}
use asterisk_chan_quectel.Queue.Run.{
  Ast, Env, Ran, at_queue_insert_const, insert_and_run, at_queue_run, run_head, run_cmd,
}
use asterisk_chan_quectel.AtCommand.{Format, Hangup, chld1x_text, enqueue_const, at_enqueue_hangup}

-- With several calls, the hangup of one by `sys_chan`, of an incoming one or of one past dialling is
-- the same command whichever call it is for and whatever the cause; and where the queue is empty and
-- the allocation succeeds, what is written is the format with its `%d`.
pub at_enqueue_hangup_any_call :
    (ast : Ast) (format : Format) (env : Env) (h : Hangup) (cpvt : ℕ) (i j cause cause' : ℕ)
    (pvt : Pvt)
    → h.sys_or_incoming || h.past_dialing ≡ true
    → 1 < h.chansno
    → (at_enqueue_hangup ast format env h cpvt i cause pvt
        ≡ at_enqueue_hangup ast format env h cpvt j cause' pvt)
      × (pvt.at_queue ≡ []
          → env.alloc ≡ true
          → (at_enqueue_hangup ast format env h cpvt i cause pvt).sent ≡ some chld1x_text)
unfolding at_enqueue_hangup enqueue_const at_queue_insert_const insert_and_run at_queue_add
    insert_task at_queue_run run_head run_cmd
at_enqueue_hangup_any_call ast format env h cpvt i j cause cause' pvt which many =
    let several : (h.sys_or_incoming || h.past_dialing) && ltb 1 h.chansno ≡ true = ground arith in
    (
      rw several refl,
      λ empty got.
          rw (several, empty, got)
            (if-elim (λ (r : Ran). r.sent ≡ some chld1x_text) env.write_fails (λ p. refl)
              (λ p. refl)),
    )
