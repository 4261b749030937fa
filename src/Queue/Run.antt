-- ===== src/Queue/Run.antt =====
-- `at_queue_run`, `at_queue_run_immediately` and the insertions of src/at_queue.c: what goes out on
-- the serial line, and what a failed or a successful write leaves of the queue.
use asterisk_chan_quectel.Prelude.{
  ℕ, zero, suc, ◌+◌, ◌≤◌, ◌≡◌, Bool, true, false, Option, none, some, List, [], ◌∷◌, ◌++◌, map, ltb,
  ◌==◌, if◌then◌else◌, length, get_elem?, take,
}
use asterisk_chan_quectel.Queue.{
  Cmd, Task, Pvt, at_queue_free_data, at_queue_add, at_queue_remove_cmd,
  at_queue_remove_task_at_once,
}

-- What the queue takes from Asterisk: `ast_str_append_substr`, handed the bytes so far, the limit
-- and the bytes to add, and `ast_tvadd`. An append within the limit adds the bytes.
pub record Ast : Type 0 where
  pub append_substr : List ℕ → ℕ → List ℕ → List ℕ
  pub tvadd : ℕ → ℕ → ℕ
  pub append_within :
      (buf : List ℕ) (limit : ℕ) (src : List ℕ)
      → length buf + length src ≤ limit
      → append_substr buf limit src ≡ buf ++ src

-- What the environment answers during one call.
pub record Env : Type 0 where
  pub alloc : Bool
  pub write_fails : Bool
  pub now : ℕ

-- A call that may write: the queue after it, its result, and the bytes written, if any.
pub record Ran : Type 0 where
  pub pvt : Pvt
  pub fail : Bool
  pub sent : Option (List ℕ)

-- The bytes that `data` and `length` of a command stand for.
abbrev pub cmd_bytes : Cmd → List ℕ
cmd_bytes c = elim c.bytes [ none ↦ [] | some d ↦ take c.len d ]

unfoldable pub total_cmd_len : List Cmd → ℕ
total_cmd_len [] = 0
total_cmd_len (c ∷ cs) = c.len + total_cmd_len cs

module _ (ast : Ast) where
  -- The loop over the commands of a task that is sent at once: `;` between them, `\r` at the end.
  unfoldable pub join_cmds : ℕ → List Cmd → List ℕ → List ℕ
  join_cmds limit [] buf = buf
  join_cmds limit (c ∷ cs) buf =
      let with_cmd = ast.append_substr buf limit (cmd_bytes c) in
      join_cmds limit cs
        (ast.append_substr with_cmd limit ((if length cs == 0 then b'\r' else b';') ∷ []))

  -- The first command of an at-once task counts its timeout from now.
  unfoldable pub start_first : ℕ → List Cmd → List Cmd
  start_first now [] = []
  start_first now (c ∷ cs) = record c { timeout = ast.tvadd now c.timeout } ∷ cs

  unfoldable pub run_at_once : Env → Pvt → Task → List Task → Ran
  unfolding join_cmds start_first total_cmd_len at_queue_free_data at_queue_remove_task_at_once
  run_at_once env pvt t rest =
      let total = total_cmd_len t.cmds in
      if total == 0
      then record { pvt = pvt; fail = false; sent = none }
      else (let limit = total + 2 + t.cmdsno in
          let out = join_cmds limit t.cmds (ast.append_substr [] limit (b'A' ∷ b'T' ∷ [])) in
          if env.write_fails
          then record { pvt = at_queue_remove_task_at_once pvt; fail = true; sent = some out }
          else record {
            pvt = record pvt {
              at_queue =
                  record t { cmds = start_first env.now (map at_queue_free_data t.cmds) } ∷ rest;
            };
            fail = false;
            sent = some out;
          })

  -- `cmds[i]` put anew.
  abbrev pub set_cmd : List Cmd → ℕ → Cmd → List Cmd
  set_cmd [] i c = []
  set_cmd (d ∷ ds) zero c = c ∷ ds
  set_cmd (d ∷ ds) (suc i) c = d ∷ set_cmd ds i c

  unfoldable pub run_cmd : Env → Pvt → Task → List Task → Option Cmd → Ran
  unfolding at_queue_free_data at_queue_remove_cmd
  run_cmd env pvt t rest none = record { pvt = pvt; fail = false; sent = none }
  run_cmd env pvt t rest (some c) =
      if c.len == 0
      then record { pvt = pvt; fail = false; sent = none }
      else (if env.write_fails
          then record {
            pvt = at_queue_remove_cmd pvt (c.res + 1);
            fail = true;
            sent = some (cmd_bytes c);
          }
          else record {
            pvt = record pvt {
              at_queue =
                  record t {
                    cmds =
                        set_cmd t.cmds t.cindex
                          (at_queue_free_data (record c { timeout = ast.tvadd env.now c.timeout }));
                  }
                  ∷ rest;
            };
            fail = false;
            sent = some (cmd_bytes c);
          })

  unfoldable pub run_head : Env → Pvt → List Task → Ran
  unfolding run_at_once run_cmd
  run_head env pvt [] = record { pvt = pvt; fail = false; sent = none }
  run_head env pvt (t ∷ rest) =
      if t.at_once
      then run_at_once env pvt t rest
      else run_cmd env pvt t rest (get_elem? t.cmds t.cindex)

  unfoldable pub at_queue_run : Env → Pvt → Ran
  unfolding run_head
  at_queue_run env pvt = run_head env pvt pvt.at_queue

  -- `at_queue_insert_const` and `at_queue_insert_const_at_once`: the C `||` does not run the queue
  -- where nothing was added.
  unfoldable pub insert_and_run : Env → ℕ → List Cmd → Bool → Bool → Pvt → Ran
  unfolding at_queue_add at_queue_run
  insert_and_run env cpvt cmds athead at_once pvt =
      let (place, pvt') = at_queue_add env.alloc cpvt cmds athead at_once pvt in
      elim place [
        | none ↦ record { pvt = pvt'; fail = true; sent = none }
        | some i ↦ at_queue_run env pvt'
      ]

  unfoldable pub at_queue_insert_const : Env → ℕ → List Cmd → Bool → Pvt → Ran
  unfolding insert_and_run
  at_queue_insert_const env cpvt cmds athead pvt = insert_and_run env cpvt cmds athead false pvt

  unfoldable pub at_queue_insert_const_at_once : Env → ℕ → List Cmd → Bool → Pvt → Ran
  unfolding insert_and_run
  at_queue_insert_const_at_once env cpvt cmds athead pvt =
      insert_and_run env cpvt cmds athead true pvt

  -- `task->uid = uid` at the place of the new task.
  abbrev pub set_uid : List Task → ℕ → ℕ → List Task
  set_uid [] i uid = []
  set_uid (t ∷ ts) zero uid = record t { uid = uid } ∷ ts
  set_uid (t ∷ ts) (suc i) uid = t ∷ set_uid ts i uid

  -- `at_queue_insert_uid` returns 0, 1 where nothing was added, and -1 where the write failed.
  pub data Inserted : Type 0 where
    inserted not_added write_failed : Inserted

  -- The last part of the result is the caller's array, whose data is freed where nothing was added.
  unfoldable pub at_queue_insert_uid :
      Env → ℕ → List Cmd → Bool → ℕ → Pvt → Ran × Inserted × List Cmd
  unfolding at_queue_add at_queue_run at_queue_free_data
  at_queue_insert_uid env cpvt cmds athead uid pvt =
      let (place, pvt') = at_queue_add env.alloc cpvt cmds athead false pvt in
      let pvt'' : Pvt = elim place [
        | none ↦ pvt'
        | some i ↦ record pvt' { at_queue = set_uid pvt'.at_queue i uid }
      ] in
      let ran = at_queue_run env pvt'' in
      (
        ran,
        if ran.fail then write_failed else elim place [ none ↦ not_added | some i ↦ inserted ],
        elim place [ none ↦ map at_queue_free_data cmds | some i ↦ cmds ],
      )

  unfoldable pub at_queue_insert : Env → ℕ → List Cmd → Bool → Pvt → Ran × Inserted × List Cmd
  unfolding at_queue_insert_uid
  at_queue_insert env cpvt cmds athead pvt = at_queue_insert_uid env cpvt cmds athead 0 pvt

  -- The first loop of `at_queue_run_immediately`, over the tasks that are sent at once.
  unfoldable pub at_once_len : List Task → ℕ
  unfolding total_cmd_len
  at_once_len [] = 0
  at_once_len (t ∷ ts) = if t.at_once then total_cmd_len t.cmds + at_once_len ts else at_once_len ts

  unfoldable pub at_once_cmds : List Task → ℕ
  at_once_cmds [] = 0
  at_once_cmds (t ∷ ts) = if t.at_once then t.cmdsno + at_once_cmds ts else at_once_cmds ts

  -- Its inner loop: the commands of one task, with the number `pos` of the next one.
  unfoldable pub join_task : ℕ → ℕ → List Cmd → ℕ → List ℕ → ℕ × List ℕ
  join_task limit cmdsno [] pos buf = (pos, buf)
  join_task limit cmdsno (c ∷ cs) pos buf =
      let end = (if ltb pos cmdsno then b';' else b'\r') ∷ [] in
      let with_cmd = ast.append_substr (ast.append_substr buf limit (cmd_bytes c)) limit end in
      join_task limit cmdsno cs (pos + 1) (if c.len == 0 then buf else with_cmd)

  unfoldable pub join_tasks : ℕ → ℕ → List Task → ℕ → List ℕ → List ℕ
  unfolding join_task
  join_tasks limit cmdsno [] pos buf = buf
  join_tasks limit cmdsno (t ∷ ts) pos buf =
      let joined = join_task limit cmdsno t.cmds pos buf in
      join_tasks limit cmdsno ts (if t.at_once then joined.0 else pos)
        (if t.at_once then joined.1 else buf)

  unfoldable pub at_queue_run_immediately : Env → Pvt → Ran
  unfolding at_once_len at_once_cmds join_tasks
  at_queue_run_immediately env pvt =
      let cmdsno = at_once_cmds pvt.at_queue in
      if cmdsno == 0
      then record { pvt = pvt; fail = false; sent = none }
      else (let limit = at_once_len pvt.at_queue + 2 + cmdsno in
          record {
            pvt = pvt;
            fail = env.write_fails;
            sent = some (
                join_tasks limit cmdsno pvt.at_queue 1
                  (ast.append_substr [] limit (b'A' ∷ b'T' ∷ [])));
          })
