-- ===== src/Queue/Sending.antt =====
-- `at_queue_run` of src/at_queue.c: what it writes, and the counters behind it.
use mathlib.Core.Path.{subst}
use asterisk_chan_quectel.Prelude.{
  ℕ, zero, suc, ◌+◌, ◌≤◌, ◌<◌, ◌≡◌, refl, sym, ap, ◌∙◌, ◌⊎◌, inl, inr, Bool, true, false, none,
  some, List, [], ◌∷◌, ◌++◌, All, arith, ◌==◌, if◌then◌else◌, u32, length, length-append,
  length-map, append_assoc, append-nil, get_elem?, Option-cases, if-elim, map,
}
use asterisk_chan_quectel.Queue.{Cmd, Task, Pvt, at_queue_free_data, at_queue_handle_result}
use asterisk_chan_quectel.Queue.Run.{
  Ast, Env, Ran, cmd_bytes, total_cmd_len, join_cmds, start_first, set_cmd, run_head, at_queue_run,
}
use asterisk_chan_quectel.Queue.Counts.{
  IsTask, owed, IsCounted, IsFresh, at_queue_handle_result-IsCounted,
  at_queue_remove_task_at_once-IsCounted,
}

-- A call of `at_queue_run` that writes nothing and changes nothing.
abbrev pub IsIdle : Ran → Pvt → Type 0
IsIdle r pvt = (r.pvt ≡ pvt) × (r.sent ≡ none) × (r.fail ≡ false)

module _ (ast : Ast) where
  total-free : (cs : List Cmd) → total_cmd_len (map at_queue_free_data cs) ≡ 0
  unfolding total_cmd_len at_queue_free_data
  total-free [] = refl
  total-free (c ∷ cs) = omega (arith, total-free cs)

  total-start :
      (now : ℕ) (cs : List Cmd) → total_cmd_len (start_first ast now cs) ≡ total_cmd_len cs
  unfolding total_cmd_len start_first
  total-start now [] = refl
  total-start now (c ∷ cs) = refl

  get-set_cmd :
      (cs : List Cmd) (i : ℕ) (c d : Cmd)
      → get_elem? cs i ≡ some c
      → get_elem? (set_cmd ast cs i d) i ≡ some d
  get-set_cmd [] i c d h = cc
  get-set_cmd (x ∷ cs) zero c d h = refl
  get-set_cmd (x ∷ cs) (suc i) c d h = get-set_cmd cs i c d h

  -- A head that has nothing to send.
  abbrev IsSent : Task → Type 0
  IsSent t =
      ((t.at_once ≡ true) × (total_cmd_len t.cmds ≡ 0))
      ⊎ (t.at_once ≡ false) × (get_elem? t.cmds t.cindex ≡ none)
      ⊎ (t.at_once ≡ false) × ((c : Cmd) × (get_elem? t.cmds t.cindex ≡ some c) × (c.len ≡ 0))

  sent_IsIdle :
      (env : Env) (pvt : Pvt) (t : Task) (rest : List Task)
      → IsSent t
      → IsIdle (run_head ast env pvt (t ∷ rest)) pvt
  unfolding run_head
  sent_IsIdle env pvt t rest (inl (once, empty)) = ground arith
  sent_IsIdle env pvt t rest (inr (inl (once, past))) = ground arith
  sent_IsIdle env pvt t rest (inr (inr (once, (c, cmd, empty)))) = ground arith

  IsIdle-at :
      (env : Env) (pvt : Pvt) (ts : List Task)
      → pvt.at_queue ≡ ts
      → IsIdle (run_head ast env pvt ts) pvt
      → IsIdle (run_head ast env pvt pvt.at_queue) pvt
  IsIdle-at env pvt ts q h = subst (λ z. IsIdle (run_head ast env pvt z) pvt) (sym q) h

  -- What one call leaves at the head has nothing to send, if the write did not fail.
  run_head_sent :
      (env env' : Env) (pvt : Pvt) (ts : List Task)
      → pvt.at_queue ≡ ts
      → env.write_fails ≡ false
      → let r = run_head ast env pvt ts in IsIdle (run_head ast env' r.pvt r.pvt.at_queue) r.pvt
  unfolding run_head
  run_head_sent env env' pvt [] q ok = IsIdle-at env' pvt [] q (refl, refl, refl)
  run_head_sent env env' pvt (t ∷ rest) q ok =
      let Goal = λ (r : Ran). IsIdle (run_head ast env' r.pvt r.pvt.at_queue) r.pvt in
      if-elim Goal t.at_once
        (λ once.
          if-elim Goal (total_cmd_len t.cmds == 0)
            (λ empty.
              IsIdle-at env' pvt (t ∷ rest) q
                (sent_IsIdle env' pvt t rest (inl (once, ground arith))))
            (λ more. rw ok (
              let t' : Task = record t {
                cmds = start_first ast env.now (map at_queue_free_data t.cmds);
              } in
              sent_IsIdle env' (record pvt { at_queue = t' ∷ rest }) t' rest
                (inl (
                  once,
                  total-start env.now (map at_queue_free_data t.cmds) ∙ total-free t.cmds,
                )))))
        (λ several. elim (Option-cases (get_elem? t.cmds t.cindex)) [
          | inl past ↦ rw past (
              IsIdle-at env' pvt (t ∷ rest) q
                (sent_IsIdle env' pvt t rest (inr (inl (several, past)))))
          | inr (c, cmd) ↦ rw cmd (
              if-elim Goal (c.len == 0)
                (λ empty.
                  IsIdle-at env' pvt (t ∷ rest) q
                    (sent_IsIdle env' pvt t rest (inr (inr (several, (c, cmd, ground arith))))))
                (λ more. rw ok (
                  let d = at_queue_free_data (record c { timeout = ast.tvadd env.now c.timeout }) in
                  let t' : Task = record t { cmds = set_cmd ast t.cmds t.cindex d } in
                  sent_IsIdle env' (record pvt { at_queue = t' ∷ rest }) t' rest
                    (inr (
                      inr (
                        several,
                        (d, get-set_cmd t.cmds t.cindex c d cmd, unfold at_queue_free_data in refl),
                      ))))))
        ])

  -- What has been written is not written again: after a call of `at_queue_run` whose write, if it
  -- made one, did not fail, a second call writes nothing, succeeds and changes nothing.
  pub at_queue_run_once :
      (env env' : Env) (pvt : Pvt)
      → env.write_fails ≡ false
      → let r = at_queue_run ast env pvt in IsIdle (at_queue_run ast env' r.pvt) r.pvt
  unfolding at_queue_run
  at_queue_run_once env env' pvt ok = run_head_sent env env' pvt pvt.at_queue refl ok

  -- Every command's data holds as many bytes as its length says.
  abbrev pub HasBytes : Cmd → Type 0
  HasBytes c = length (cmd_bytes c) ≡ c.len

  -- The line that stands for a task sent at once: its commands with `;` between them.
  abbrev pub at_once_line : List Cmd → List ℕ
  at_once_line [] = []
  at_once_line (c ∷ []) = cmd_bytes c ++ (b'\r' ∷ [])
  at_once_line (c ∷ d ∷ cs) = cmd_bytes c ++ (b';' ∷ at_once_line (d ∷ cs))

  join_one :
      (c : Cmd) (limit : ℕ) (buf : List ℕ)
      → length buf + length (cmd_bytes c) + 1 ≤ limit
      → join_cmds ast limit (c ∷ []) buf ≡ buf ++ (cmd_bytes c ++ (b'\r' ∷ []))
  unfolding join_cmds
  join_one c limit buf fit =
      let joined = length-append buf (cmd_bytes c) in
      ap (λ z. ast.append_substr z limit (b'\r' ∷ []))
        (ast.append_within buf limit (cmd_bytes c) (omega arith))
      ∙ ast.append_within (buf ++ cmd_bytes c) limit (b'\r' ∷ []) (omega arith)
      ∙ append_assoc buf (cmd_bytes c) (b'\r' ∷ [])

  join_more :
      (c d : Cmd) (cs : List Cmd) (limit : ℕ) (buf : List ℕ)
      → length buf + length (cmd_bytes c) + 1 ≤ limit
      → join_cmds ast limit (c ∷ d ∷ cs) buf
        ≡ join_cmds ast limit (d ∷ cs) (buf ++ (cmd_bytes c ++ (b';' ∷ [])))
  unfolding join_cmds
  join_more c d cs limit buf fit =
      let joined = length-append buf (cmd_bytes c) in
      let mark : (length (d ∷ cs) == 0) ≡ false = ground arith in
      ap (λ z. join_cmds ast limit (d ∷ cs) z)
        (ap
            (λ (b : Bool).
              ast.append_substr (ast.append_substr buf limit (cmd_bytes c)) limit
                ((if b then b'\r' else b';') ∷ []))
            mark
          ∙ ap (λ z. ast.append_substr z limit (b';' ∷ []))
              (ast.append_within buf limit (cmd_bytes c) (omega arith))
          ∙ ast.append_within (buf ++ cmd_bytes c) limit (b';' ∷ []) (omega arith)
          ∙ append_assoc buf (cmd_bytes c) (b';' ∷ []))

  join_lem :
      (cs : List Cmd) (limit : ℕ) (buf : List ℕ)
      → All HasBytes cs
      → length buf + total_cmd_len cs + length cs ≤ limit
      → join_cmds ast limit cs buf ≡ buf ++ at_once_line cs
  unfolding total_cmd_len
  join_lem [] limit buf h fit = unfold join_cmds in sym (append-nil buf)
  join_lem (c ∷ []) limit buf h fit = join_one c limit buf (omega (arith, h.0))
  join_lem (c ∷ d ∷ cs) limit buf h fit =
      let longer = length-append buf (cmd_bytes c ++ (b';' ∷ [])) in
      let longer' = length-append (cmd_bytes c) (b';' ∷ []) in
      join_more c d cs limit buf (omega (arith, h.0))
      ∙ join_lem (d ∷ cs) limit (buf ++ (cmd_bytes c ++ (b';' ∷ []))) (h.1) (omega (arith, h.0))
      ∙ simp append_assoc

  -- A task that is sent at once and has something to send goes out as one line, where the data of
  -- each command holds as many bytes as its length says: `AT`, its commands in order with `;`
  -- between them, and a carriage return; the limit of the buffer is never met.
  pub at_queue_run_line :
      (env : Env) (pvt : Pvt) (t : Task) (rest : List Task)
      → pvt.at_queue ≡ t ∷ rest
      → t.at_once ≡ true
      → t.cmdsno ≡ length t.cmds
      → 0 < total_cmd_len t.cmds
      → All HasBytes t.cmds
      → (at_queue_run ast env pvt).sent ≡ some (b'A' ∷ b'T' ∷ at_once_line t.cmds)
  unfolding at_queue_run run_head
  at_queue_run_line env pvt t rest q once size more bytes =
      let limit = total_cmd_len t.cmds + 2 + t.cmdsno in
      let start : ast.append_substr [] limit (b'A' ∷ b'T' ∷ []) ≡ b'A' ∷ b'T' ∷ [] =
        ast.append_within [] limit (b'A' ∷ b'T' ∷ []) (omega arith) in
      let line : join_cmds ast limit t.cmds (b'A' ∷ b'T' ∷ []) ≡ b'A' ∷ b'T' ∷ at_once_line t.cmds =
        join_lem t.cmds limit (b'A' ∷ b'T' ∷ []) bytes (omega arith) in
      ap (λ ts. (run_head ast env pvt ts).sent) q
      ∙ if-elim (λ (r : Ran). r.sent ≡ some (b'A' ∷ b'T' ∷ at_once_line t.cmds)) t.at_once
          (λ _.
            if-elim (λ (r : Ran). r.sent ≡ some (b'A' ∷ b'T' ∷ at_once_line t.cmds))
              (total_cmd_len t.cmds == 0) (λ empty. absurd (ground arith))
              (λ _.
                if-elim (λ (r : Ran). r.sent ≡ some (b'A' ∷ b'T' ∷ at_once_line t.cmds))
                  env.write_fails (λ _. ap some (rw start line)) (λ _. ap some (rw start line))))
          (λ several. cc)

  length-set_cmd : (cs : List Cmd) (i : ℕ) (c : Cmd) → length (set_cmd ast cs i c) ≡ length cs
  length-set_cmd [] i c = refl
  length-set_cmd (d ∷ ds) zero c = refl
  length-set_cmd (d ∷ ds) (suc i) c = ap suc (length-set_cmd ds i c)

  length-started :
      (now : ℕ) (cs : List Cmd)
      → length (start_first ast now (map at_queue_free_data cs)) ≡ length cs
  unfolding start_first
  length-started now [] = refl
  length-started now (c ∷ cs) = ap suc (length-map cs at_queue_free_data)

  -- The head with other commands, as many as before.
  same_index :
      (pvt : Pvt) (t : Task) (rest : List Task) (cs : List Cmd)
      → IsCounted pvt
      → pvt.at_queue ≡ t ∷ rest
      → length cs ≡ length t.cmds
      → IsCounted (record pvt { at_queue = record t { cmds = cs } ∷ rest })
  unfolding owed
  same_index pvt t rest cs c q size =
      let all : All IsTask (t ∷ rest) = rw q at c.wf in
      let task = all.0 in
      record {
        tasks = c.tasks ∙ ap (λ ts. u32 (length ts)) q;
        cmds = c.cmds ∙ ap (λ ts. u32 (owed ts)) q;
        wf = ((task.0, task.1, size ∙ task.2, task.3), all.1);
      }

  run_head-IsCounted :
      (env : Env) (pvt : Pvt) (ts : List Task)
      → pvt.at_queue ≡ ts
      → IsCounted pvt
      → IsFresh ts
      → IsCounted (run_head ast env pvt ts).pvt
  unfolding run_head
  run_head-IsCounted env pvt [] q c f = c
  run_head-IsCounted env pvt (t ∷ rest) q c f =
      let Goal = λ (r : Ran). IsCounted r.pvt in
      let fresh : IsFresh pvt.at_queue = subst IsFresh (sym q) f in
      if-elim Goal t.at_once
        (λ once.
          if-elim Goal (total_cmd_len t.cmds == 0) (λ _. c)
            (λ _.
              if-elim Goal env.write_fails (λ _. at_queue_remove_task_at_once-IsCounted c fresh)
                (λ _.
                  same_index pvt t rest (start_first ast env.now (map at_queue_free_data t.cmds)) c
                    q (length-started env.now t.cmds))))
        (λ several. elim (Option-cases (get_elem? t.cmds t.cindex)) [
          | inl past ↦ rw past c
          | inr (d, cmd) ↦ rw cmd (
              if-elim Goal (d.len == 0) (λ _. c)
                (λ _.
                  if-elim Goal env.write_fails
                    (λ _.
                      unfold at_queue_handle_result in
                      at_queue_handle_result-IsCounted (d.res + 1) c fresh)
                    (λ _.
                      let d' =
                        at_queue_free_data (record d { timeout = ast.tvadd env.now d.timeout }) in
                      same_index pvt t rest (set_cmd ast t.cmds t.cindex d') c q
                        (length-set_cmd t.cmds t.cindex d'))))
        ])

  -- Whatever the write does, `at_queue_run` keeps the counters right, unless the head is an
  -- at-once task that has had a response before.
  pub at_queue_run-IsCounted :
      (env : Env) (pvt : Pvt)
      → IsCounted pvt
      → IsFresh pvt.at_queue
      → IsCounted (at_queue_run ast env pvt).pvt
  unfolding at_queue_run
  at_queue_run-IsCounted env pvt c f = run_head-IsCounted env pvt pvt.at_queue refl c f
