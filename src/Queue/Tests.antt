-- ===== src/Queue/Tests.antt =====
-- Runs of src/at_queue.c on small queues, and the theorems about it at concrete queues.
use asterisk_chan_quectel.Prelude.{
  ℕ, ◌+◌, ◌≡◌, refl, inl, true, false, some, List, [], ◌∷◌, ◌++◌, arith, length, u32, sub_u32,
}
use asterisk_chan_quectel.Queue.{
  Cmd, Task, Pvt, at_queue_handle_result, at_queue_remove_cmd, remove_cmd_from, at_queue_remove,
  remove_head, at_queue_remove_task_at_once, at_queue_flush,
}
use asterisk_chan_quectel.Queue.Run.{Ast, Env, total_cmd_len, at_queue_run}
use asterisk_chan_quectel.Queue.Counts.{
  IsCounted, owed, at_queue_handle_result-IsCounted, at_queue_remove_task_at_once-IsCounted,
  at_queue_handle_result_counts_twice,
}
use asterisk_chan_quectel.Queue.Flush.{IsFlushed, at_queue_flush-IsFlushed}
use asterisk_chan_quectel.Queue.Order.{handle_all, handle_all_expected}
use asterisk_chan_quectel.Queue.Next.{joined, at_queue_run-at_queue_handle_result}
use asterisk_chan_quectel.Queue.Sending.{
  IsIdle, at_queue_run_once, at_queue_run_line, at_queue_run-IsCounted,
}

-- A string buffer without a limit.
abbrev plain : Ast
plain = record {
  append_substr = λ buf limit src. buf ++ src;
  tvadd = λ a b. a + b;
  append_within = λ buf limit src h. refl;
}

-- The command code, the response and the data of a command that waits for OK (4).
abbrev waits : List ℕ → Cmd
waits d = record {
  cmd = 1;
  res = 4;
  static = true;
  ignore = false;
  suppress_error = false;
  timeout = 5;
  bytes = some d;
  len = length d;
}

abbrev two : Task
two = record {
  cmdsno = 2;
  cindex = 0;
  cpvt = 7;
  uid = 0;
  at_once = false;
  cmds = waits (65 ∷ []) ∷ waits (66 ∷ []) ∷ [];
}

abbrev line : Task
line = record {
  cmdsno = 2;
  cindex = 0;
  cpvt = 7;
  uid = 0;
  at_once = true;
  cmds = waits (65 ∷ []) ∷ waits (66 ∷ []) ∷ [];
}

-- The same after a response.
abbrev answered : Task
answered = record line { cindex = 2 }

abbrev plain_queue : Pvt
plain_queue = record { at_queue = two ∷ line ∷ []; at_tasks = 2; at_cmds = 4 }

abbrev line_queue : Pvt
line_queue = record { at_queue = line ∷ two ∷ []; at_tasks = 2; at_cmds = 4 }

abbrev answered_queue : Pvt
answered_queue = record { at_queue = answered ∷ []; at_tasks = 1; at_cmds = 0 }

plain_queue-IsCounted : IsCounted plain_queue
unfolding owed
plain_queue-IsCounted = record { tasks = omega arith; cmds = omega arith; wf = omega arith }

line_queue-IsCounted : IsCounted line_queue
unfolding owed
line_queue-IsCounted = record { tasks = omega arith; cmds = omega arith; wf = omega arith }

answered_queue-IsCounted : IsCounted answered_queue
unfolding owed
answered_queue-IsCounted = record { tasks = omega arith; cmds = omega arith; wf = omega arith }

abbrev works : Env
works = record { alloc = true; write_fails = false; now = 100 }

handles_one : (at_queue_handle_result plain_queue 4).at_cmds ≡ 3
unfolding at_queue_handle_result at_queue_remove_cmd remove_cmd_from at_queue_remove remove_head
handles_one = refl

at_queue_handle_result-IsCounted_example : IsCounted (at_queue_handle_result plain_queue 4)
at_queue_handle_result-IsCounted_example =
    at_queue_handle_result-IsCounted 4 plain_queue-IsCounted (omega arith)

at_queue_remove_task_at_once-IsCounted_example : IsCounted (at_queue_remove_task_at_once line_queue)
at_queue_remove_task_at_once-IsCounted_example =
    at_queue_remove_task_at_once-IsCounted line_queue-IsCounted (λ _. refl)

at_queue_handle_result_counts_twice_example :
    let pvt' = at_queue_handle_result answered_queue 5 in
    (pvt'.at_queue ≡ answered_queue.at_queue)
    × (pvt'.at_cmds ≡ sub_u32 (u32 (owed pvt'.at_queue)) 2)
    × ¬ IsCounted pvt'
at_queue_handle_result_counts_twice_example =
    at_queue_handle_result_counts_twice 5 answered [] answered_queue-IsCounted refl refl refl refl
      refl (omega arith)

at_queue_flush-IsFlushed_example : IsFlushed (at_queue_flush plain_queue)
at_queue_flush-IsFlushed_example = at_queue_flush-IsFlushed plain_queue-IsCounted

handle_all_expected_example : (handle_all plain_queue (4 ∷ 4 ∷ [])).at_queue ≡ line ∷ []
handle_all_expected_example =
    handle_all_expected plain_queue two (line ∷ []) refl (omega arith) refl (omega arith)

-- The task in front gets ERROR, which it does not expect, and the one behind it goes out.
at_queue_run-at_queue_handle_result_example :
    (at_queue_run plain works (at_queue_handle_result plain_queue 5)).sent
    ≡ some (65 ∷ 84 ∷ 65 ∷ 59 ∷ 66 ∷ 13 ∷ [])
unfolding total_cmd_len
at_queue_run-at_queue_handle_result_example =
    at_queue_run-at_queue_handle_result plain works plain_queue two line [] (waits (65 ∷ [])) 5
      (65 ∷ 84 ∷ 65 ∷ 59 ∷ 66 ∷ 13 ∷ []) refl refl refl (inl (omega arith, refl))
      (joined refl refl (omega arith) (omega arith))

at_queue_run_once_example :
    let r = at_queue_run plain works plain_queue in IsIdle (at_queue_run plain works r.pvt) r.pvt
at_queue_run_once_example = at_queue_run_once plain works works plain_queue refl

at_queue_run_line_example :
    (at_queue_run plain works line_queue).sent ≡ some (65 ∷ 84 ∷ 65 ∷ 59 ∷ 66 ∷ 13 ∷ [])
unfolding total_cmd_len
at_queue_run_line_example =
    at_queue_run_line plain works line_queue line (two ∷ []) refl refl refl (omega arith)
      (omega arith)

at_queue_run-IsCounted_example : IsCounted (at_queue_run plain works plain_queue).pvt
at_queue_run-IsCounted_example =
    at_queue_run-IsCounted plain works plain_queue plain_queue-IsCounted (omega arith)
