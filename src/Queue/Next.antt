-- ===== src/Queue/Next.antt =====
-- What src/at_queue.c sends after a task that was given up.
use asterisk_chan_quectel.Prelude.{
  ℕ, ◌≡◌, ◌≢◌, ◌<◌, refl, ap, ◌∙◌, ◌⊎◌, true, false, some, List, ◌∷◌, All, arith, ◌==◌, length,
  get_elem?, if-elim,
}
use asterisk_chan_quectel.Queue.{Cmd, Task, Pvt, res_timeout, at_queue_handle_result}
use asterisk_chan_quectel.Queue.Run.{
  Ast, Env, Ran, cmd_bytes, total_cmd_len, run_cmd, run_head, at_queue_run,
}
use asterisk_chan_quectel.Queue.Order.{at_queue_handle_result_gives_up}
use asterisk_chan_quectel.Queue.Sending.{HasBytes, at_once_line, at_queue_run_line}

module _ (ast : Ast) where
  -- The line that a task puts out next: all its commands, joined, or the one that it is at.
  pub data NextLine (t : Task) : List ℕ → Type 0 where
    joined :
        t.at_once ≡ true
        → t.cmdsno ≡ length t.cmds
        → 0 < total_cmd_len t.cmds
        → All (HasBytes ast) t.cmds
        → NextLine t (b'A' ∷ b'T' ∷ at_once_line ast t.cmds)
    single :
        (c : Cmd)
        → t.at_once ≡ false
        → get_elem? t.cmds t.cindex ≡ some c
        → 0 < c.len
        → NextLine t (cmd_bytes c)

  run_single :
      (env : Env) (pvt : Pvt) (t : Task) (rest : List Task) (c : Cmd)
      → t.at_once ≡ false
      → get_elem? t.cmds t.cindex ≡ some c
      → 0 < c.len
      → (run_head ast env pvt (t ∷ rest)).sent ≡ some (cmd_bytes c)
  unfolding run_head run_cmd
  run_single env pvt t rest c one at more =
      let some_bytes : (c.len == 0) ≡ false = ground arith in
      rw (one, at, some_bytes)
        (if-elim (λ (r : Ran). r.sent ≡ some (cmd_bytes c)) env.write_fails (λ p. refl) (λ p. refl))

  -- The line of the head of the queue goes out.
  run_next :
      (env : Env) (pvt : Pvt) (t : Task) (rest : List Task) (line : List ℕ)
      → NextLine t line
      → pvt.at_queue ≡ t ∷ rest
      → (at_queue_run ast env pvt).sent ≡ some line
  unfolding at_queue_run
  run_next env pvt t rest line (joined once size more bytes) q =
      at_queue_run_line ast env pvt t rest q once size more bytes
  run_next env pvt t rest line (single c one at more) q =
      ap (λ ts. (run_head ast env pvt ts).sent) q ∙ run_single env pvt t rest c one at more

  -- Where the head of the queue is not sent at once and its waiting command gets a timeout, or a
  -- response that it does not expect and may not ignore, the run of the queue that follows sends
  -- nothing more of that task, whatever commands it had left, but the line of the task behind it, be
  -- that sent at once or not, where it has something to send. Of a task that is sent at once,
  -- `cmdsno` is the number of the commands, and their data hold as many bytes as their lengths say.
  pub at_queue_run-at_queue_handle_result :
      (env : Env) (pvt : Pvt) (t next : Task) (rest : List Task) (c : Cmd) (res : ℕ) (line : List ℕ)
      → pvt.at_queue ≡ t ∷ next ∷ rest
      → t.at_once ≡ false
      → get_elem? t.cmds t.cindex ≡ some c
      → ((res ≢ c.res) × (c.ignore ≡ false)) ⊎ (res ≡ res_timeout)
      → NextLine next line
      → (at_queue_run ast env (at_queue_handle_result pvt res)).sent ≡ some line
  at_queue_run-at_queue_handle_result env pvt t next rest c res line q once at why after =
      run_next env (at_queue_handle_result pvt res) next rest line after
        (at_queue_handle_result_gives_up pvt t (next ∷ rest) c res q once at why)
