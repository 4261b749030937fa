-- ===== src/AtCommand/Tests.antt =====
-- The theorems about src/at_command.c at concrete values.
use asterisk_chan_quectel.Prelude.{◌+◌, ◌≡◌, refl, true, false, some, [], ◌++◌, arith}
use asterisk_chan_quectel.Queue.{Pvt}
use asterisk_chan_quectel.Queue.Run.{Ast, Env}
use asterisk_chan_quectel.AtCommand.{
  Format, Hangup, map_hangup_cause, chld1x_text, at_enqueue_hangup,
}
use asterisk_chan_quectel.AtCommand.Ending.{at_enqueue_hangup_any_call}

abbrev pub plain : Ast
plain = record {
  append_substr = λ buf limit src. buf ++ src;
  tvadd = λ a b. a + b;
  append_within = λ buf limit src h. refl;
}

-- A format with its arguments behind it.
abbrev pub text : Format
text = record { set_va = λ fmt args. fmt ++ args; strndup = λ t. some t }

abbrev pub calm : Env
calm = record { alloc = true; write_fails = false; now = 100 }

abbrev pub empty_queue : Pvt
empty_queue = record { at_queue = []; at_tasks = 0; at_cmds = 0 }

abbrev two_calls : Hangup
two_calls = record {
  chansno = 2;
  is_simcom = false;
  qhup = true;
  sys_or_incoming = true;
  past_dialing = false;
}

no_answer : map_hangup_cause 19 ≡ 18
unfolding map_hangup_cause
no_answer = refl

at_enqueue_hangup_any_call_example :
    (at_enqueue_hangup plain text calm two_calls 0 1 16 empty_queue
      ≡ at_enqueue_hangup plain text calm two_calls 0 2 31 empty_queue)
    × (empty_queue.at_queue ≡ []
        → calm.alloc ≡ true
        → (at_enqueue_hangup plain text calm two_calls 0 1 16 empty_queue).sent ≡ some chld1x_text)
at_enqueue_hangup_any_call_example =
    at_enqueue_hangup_any_call plain text calm two_calls 0 1 2 16 31 empty_queue refl (omega arith)
