-- ===== src/Queue.antt =====
-- src/at_queue.c and src/at_queue.h: the queue of AT commands on their way to the modem. The
-- parts of `struct pvt` that the queue keeps are a record; a pointer to a task is its position.
-- What the environment answers enters as arguments: whether an allocation succeeds, whether a
-- write to the device fails, and the time. A value of `at_res_t` is one more than in C, where
-- RES_PARSE_ERROR is -1.
pub mod Run
pub mod Counts
pub mod Flush
pub mod Order
pub mod Sending
pub mod Next
pub mod Tests
use asterisk_chan_quectel.Prelude.{
  ℕ, zero, suc, ◌+◌, Bool, true, false, not, ◌&&◌, ◌||◌, Option, none, some, List, [], ◌∷◌, ◌++◌,
  ltb, leb, ◌==◌, if◌then◌else◌, u32, sub_u32, length, get_elem?,
}

pub record Cmd : Type 0 where
  pub cmd : ℕ
  pub res : ℕ
  pub static : Bool  -- ATQ_CMD_FLAG_STATIC
  pub ignore : Bool  -- ATQ_CMD_FLAG_IGNORE
  pub suppress_error : Bool  -- ATQ_CMD_FLAG_SUPPRESS_ERROR
  pub timeout : ℕ
  pub bytes : Option (List ℕ)  -- `data`, with NULL as `none`
  pub len : ℕ

pub record Task : Type 0 where
  pub cmdsno : ℕ
  pub cindex : ℕ
  pub cpvt : ℕ
  pub uid : ℕ
  pub at_once : Bool
  pub cmds : List Cmd

pub record Pvt : Type 0 where
  pub at_queue : List Task
  pub at_tasks : ℕ  -- uint32_t
  pub at_cmds : ℕ  -- uint32_t

-- `enum at_res_t` starts with RES_PARSE_ERROR, RES_UNKNOWN and RES_TIMEOUT.
abbrev pub res_timeout : ℕ
res_timeout = 2

unfoldable pub at_queue_free_data : Cmd → Cmd
at_queue_free_data cmd = record cmd {
  bytes = elim cmd.bytes [ none ↦ none | some d ↦ if cmd.static then some d else none ];
  len = 0;
}

-- `AST_LIST_REMOVE_HEAD` and the two counters.
unfoldable pub remove_head : Pvt → List Task → Pvt
remove_head pvt [] = pvt
remove_head pvt (task ∷ rest) = record {
  at_queue = rest;
  at_tasks = sub_u32 pvt.at_tasks 1;
  at_cmds = sub_u32 pvt.at_cmds (sub_u32 task.cmdsno task.cindex);
}

unfoldable pub at_queue_remove : Pvt → Pvt
unfolding remove_head
at_queue_remove pvt = remove_head pvt pvt.at_queue

-- Where `prio` puts a new task: behind the one at the head, which may be under way.
unfoldable pub insert_task : Bool → Task → List Task → List Task
insert_task prio e [] = e ∷ []
insert_task prio e (first ∷ rest) = if prio then first ∷ e ∷ rest else first ∷ (rest ++ (e ∷ []))

-- The place where `insert_task` puts it.
abbrev pub insert_place : Bool → List Task → ℕ
insert_place prio [] = 0
insert_place prio (first ∷ rest) = if prio then 1 else length (first ∷ rest)

-- What `ast_calloc` and the assignments after it make of a new task.
abbrev pub new_task : ℕ → List Cmd → Bool → Task
new_task cpvt cmds at_once = record {
  cmdsno = length cmds;
  cindex = 0;
  cpvt = cpvt;
  uid = 0;
  at_once = at_once;
  cmds = cmds;
}

-- The pointer that is returned is the place of the new task, NULL is `none`. `alloc` says whether
-- `ast_calloc` succeeds, and `cmdsno` is the length of `cmds`.
unfoldable pub at_queue_add : Bool → ℕ → List Cmd → Bool → Bool → Pvt → Option ℕ × Pvt
unfolding insert_task
at_queue_add alloc cpvt cmds prio at_once pvt =
    if length cmds == 0
    then (none, pvt)
    else (if not alloc then (none, pvt) else (
      some (insert_place prio pvt.at_queue),
      record {
        at_queue = insert_task prio (new_task cpvt cmds at_once) pvt.at_queue;
        at_tasks = u32 (pvt.at_tasks + 1);
        at_cmds = u32 (pvt.at_cmds + length cmds);
      },
    ))

-- `task->cmds[i].res == res` and `task->cmds[i].flags & ATQ_CMD_FLAG_IGNORE`; a command past the
-- end of the array is none of the program's.
abbrev pub cmd_res_is : Option Cmd → ℕ → Bool
cmd_res_is none res = false
cmd_res_is (some c) res = c.res == res

abbrev pub cmd_ignores : Option Cmd → Bool
cmd_ignores none = false
cmd_ignores (some c) = c.ignore

unfoldable pub remove_cmd_from : Pvt → ℕ → List Task → Pvt
unfolding at_queue_remove
remove_cmd_from pvt res [] = pvt
remove_cmd_from pvt res (task ∷ rest) =
    if task.at_once
    then (let pvt' : Pvt = record pvt {
      at_queue = record task { cindex = task.cmdsno } ∷ rest;
      at_cmds = sub_u32 pvt.at_cmds task.cmdsno;
    } in
        let c = get_elem? task.cmds 0 in
        if cmd_res_is c res || cmd_ignores c || res == res_timeout
        then at_queue_remove pvt'
        else pvt')
    else (let pvt' : Pvt = record pvt {
      at_queue = record task { cindex = u32 (task.cindex + 1) } ∷ rest;
      at_cmds = sub_u32 pvt.at_cmds 1;
    } in
        let c = get_elem? task.cmds task.cindex in
        if leb task.cmdsno (u32 (task.cindex + 1))
          || not (cmd_res_is c res) && not (cmd_ignores c)
          || res == res_timeout
        then at_queue_remove pvt'
        else pvt')

unfoldable pub at_queue_remove_cmd : Pvt → ℕ → Pvt
unfolding remove_cmd_from
at_queue_remove_cmd pvt res = remove_cmd_from pvt res pvt.at_queue

unfoldable pub remove_at_once_from : Pvt → List Task → Pvt
unfolding at_queue_remove
remove_at_once_from pvt [] = pvt
remove_at_once_from pvt (task ∷ rest) =
    if task.at_once
    then (let pvt' : Pvt = record pvt {
      at_queue = record task { cindex = task.cmdsno } ∷ rest;
      at_cmds = sub_u32 pvt.at_cmds task.cmdsno;
    } in
        if not (cmd_ignores (get_elem? task.cmds 0)) then at_queue_remove pvt' else pvt')
    else pvt

unfoldable pub at_queue_remove_task_at_once : Pvt → Pvt
unfolding remove_at_once_from
at_queue_remove_task_at_once pvt = remove_at_once_from pvt pvt.at_queue

unfoldable pub at_queue_handle_result : Pvt → ℕ → Pvt
unfolding at_queue_remove_cmd
at_queue_handle_result pvt res = at_queue_remove_cmd pvt res

-- `while (AST_LIST_FIRST(&pvt->at_queue)) at_queue_remove(pvt);`, with fuel. `none` means that the
-- fuel ran out.
unfoldable pub flush_loop : ℕ → Pvt → Option Pvt
flush_loop zero pvt = none
flush_loop (suc fuel) pvt =
    let rest = flush_loop fuel (at_queue_remove pvt) in
    if length pvt.at_queue == 0 then some pvt else rest

unfoldable pub at_queue_flush : Pvt → Option Pvt
unfolding flush_loop
at_queue_flush pvt = flush_loop (length pvt.at_queue + 1) pvt

abbrev pub head_task : List Task → Option Task
head_task [] = none
head_task (task ∷ rest) = some task

unfoldable pub at_queue_head_task : Pvt → Option Task
at_queue_head_task pvt = head_task pvt.at_queue

unfoldable pub at_queue_task_cmd : Option Task → Option Cmd
at_queue_task_cmd none = none
at_queue_task_cmd (some task) = get_elem? task.cmds (if task.at_once then 0 else task.cindex)

unfoldable pub at_queue_head_cmd : Pvt → Option Cmd
unfolding at_queue_head_task at_queue_task_cmd
at_queue_head_cmd pvt = at_queue_task_cmd (at_queue_head_task pvt)
