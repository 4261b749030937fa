-- ===== src/AtCommand.antt =====
-- src/at_command.c: the commands that end a call. The table of src/at_command.h numbers the
-- commands. What the formatting of a command takes from Asterisk is a parameter. A function that
-- returns 0, or -1 with an error code in `chan_quectel_err`, gives that code or `none`.
pub mod Ending
pub mod Tests
use asterisk_chan_quectel.Prelude.{
  ℕ, Bool, true, false, not, ◌&&◌, ◌||◌, Option, none, some, List, [], ◌∷◌, ltb, ◌==◌,
  if◌then◌else◌, length,
}
use asterisk_chan_quectel.Queue.{Cmd, Pvt, at_queue_add}
use asterisk_chan_quectel.Queue.Run.{Ast, Env, at_queue_insert_const, at_queue_insert, inserted}

-- `ast_str_set_va` of a format and its `int` arguments, and `ast_strndup`, with NULL as `none`.
pub record Format : Type 0 where
  pub set_va : List ℕ → List ℕ → List ℕ
  pub strndup : List ℕ → Option (List ℕ)

abbrev pub cmd_at_chup : ℕ
cmd_at_chup = 11

abbrev pub cmd_at_qhup : ℕ
cmd_at_qhup = 12

abbrev pub cmd_at_chld_1x : ℕ
cmd_at_chld_1x = 51

-- RES_OK
abbrev pub res_ok : ℕ
res_ok = 31

pub data Err : Type 0 where
  e_queue e_cmd_format : Err

-- The queue after a call, what was written, and the error.
pub record Enqueued : Type 0 where
  pub pvt : Pvt
  pub sent : Option (List ℕ)
  pub err : Option Err

-- ATQ_CMD_DECLARE_STFT with RES_OK, ATQ_CMD_FLAG_DEFAULT and ATQ_CMD_TIMEOUT_LONG
abbrev pub static_cmd : ℕ → List ℕ → Cmd
static_cmd code text = record {
  cmd = code;
  res = res_ok;
  static = true;
  ignore = false;
  suppress_error = false;
  timeout = 40;
  bytes = some text;
  len = length text;
}

-- ATQ_CMD_DECLARE_DYNFT with the same
abbrev pub dynamic_cmd : ℕ → Cmd
dynamic_cmd code = record {
  cmd = code;
  res = res_ok;
  static = false;
  ignore = false;
  suppress_error = false;
  timeout = 40;
  bytes = none;
  len = 0;
}

-- `DECLARE_AT_CMD(chup, "+CHUP")`
abbrev pub chup_text : List ℕ
chup_text = b'A' ∷ b'T' ∷ b'+' ∷ b'C' ∷ b'H' ∷ b'U' ∷ b'P' ∷ b'\r' ∷ []

-- `DECLARE_AT_CMDNT(qhup, "+QHUP=%d,%d")`
abbrev pub qhup_format : List ℕ
qhup_format =
    b'A' ∷ b'T' ∷ b'+' ∷ b'Q' ∷ b'H' ∷ b'U' ∷ b'P' ∷ b'=' ∷ b'%' ∷ b'd' ∷ b',' ∷ b'%' ∷ b'd' ∷ b'\r'
    ∷ []

-- `DECLARE_AT_CMD(chld1x, "+CHLD=1%d")`
abbrev pub chld1x_text : List ℕ
chld1x_text =
    b'A' ∷ b'T' ∷ b'+' ∷ b'C' ∷ b'H' ∷ b'L' ∷ b'D' ∷ b'=' ∷ b'1' ∷ b'%' ∷ b'd' ∷ b'\r' ∷ []

-- `DECLARE_NAKED_AT_CMD(chup, "+CHUP")`
abbrev pub naked_chup_text : List ℕ
naked_chup_text = b'+' ∷ b'C' ∷ b'H' ∷ b'U' ∷ b'P' ∷ []

-- `DECLARE_NAKED_AT_CMDNT(qhup, "+QHUP=%d,%d")`
abbrev pub naked_qhup_format : List ℕ
naked_qhup_format = b'+' ∷ b'Q' ∷ b'H' ∷ b'U' ∷ b'P' ∷ b'=' ∷ b'%' ∷ b'd' ∷ b',' ∷ b'%' ∷ b'd' ∷ []

-- The causes of Asterisk's causes.h, by their numbers.
unfoldable pub map_hangup_cause : ℕ → ℕ
map_hangup_cause cause =
    if cause == 1  -- AST_CAUSE_UNALLOCATED
      || cause == 16  -- AST_CAUSE_NORMAL_CLEARING
      || cause == 17  -- AST_CAUSE_USER_BUSY
      || cause == 18  -- AST_CAUSE_NO_USER_RESPONSE
      || cause == 21  -- AST_CAUSE_CALL_REJECTED
      || cause == 27  -- AST_CAUSE_DESTINATION_OUT_OF_ORDER
      || cause == 31  -- AST_CAUSE_NORMAL_UNSPECIFIED
      || cause == 88  -- AST_CAUSE_INCOMPATIBLE_DESTINATION
    then cause
    else (if cause == 19 then 18 else 16)

-- What `at_enqueue_hangup` reads of the device, and of the channel that it is called for: whether
-- that is `sys_chan` or incoming, or in another state than INIT and DIALING.
pub record Hangup : Type 0 where
  pub chansno : ℕ
  pub is_simcom : Bool
  pub qhup : Bool
  pub sys_or_incoming : Bool
  pub past_dialing : Bool

module _ (ast : Ast) (format : Format) where
  -- `none` is the result -1, for an empty text.
  unfoldable pub at_fill_generic_cmd : Cmd → List ℕ → List ℕ → Option Cmd
  at_fill_generic_cmd cmd fmt args =
      let text = format.set_va fmt args in
      if length text == 0
      then none
      else some (record cmd { bytes = format.strndup text; len = length text; static = false })

  -- `at_queue_insert_const` of one command at the head, and E_QUEUE where it fails.
  unfoldable pub enqueue_const : Env → ℕ → Cmd → Pvt → Enqueued
  unfolding at_queue_insert_const
  enqueue_const env cpvt cmd pvt =
      let ran = at_queue_insert_const ast env cpvt (cmd ∷ []) true pvt in
      record { pvt = ran.pvt; sent = ran.sent; err = if ran.fail then some e_queue else none }

  unfoldable pub at_enqueue_chup : Env → ℕ → Pvt → Enqueued
  unfolding enqueue_const
  at_enqueue_chup env cpvt pvt = enqueue_const env cpvt (static_cmd cmd_at_chup chup_text) pvt

  -- The command with its text goes in; without one, it is an error of the format.
  unfoldable pub enqueue_filled : Env → ℕ → Option Cmd → Pvt → Enqueued
  unfolding at_queue_insert
  enqueue_filled env cpvt none pvt = record { pvt = pvt; sent = none; err = some e_cmd_format }
  enqueue_filled env cpvt (some cmd) pvt =
      let (ran, outcome, array) = at_queue_insert ast env cpvt (cmd ∷ []) true pvt in
      record {
        pvt = ran.pvt;
        sent = ran.sent;
        err = elim outcome [ inserted ↦ none | _ ↦ some e_queue ];
      }

  unfoldable pub at_enqueue_qhup : Env → ℕ → ℕ → ℕ → Pvt → Enqueued
  unfolding at_fill_generic_cmd enqueue_filled
  at_enqueue_qhup env cpvt call_idx release_cause pvt =
      enqueue_filled env cpvt
        (at_fill_generic_cmd (dynamic_cmd cmd_at_qhup) qhup_format
          (map_hangup_cause release_cause ∷ call_idx ∷ []))
        pvt

  unfoldable pub at_enqueue_hangup : Env → Hangup → ℕ → ℕ → ℕ → Pvt → Enqueued
  unfolding enqueue_const at_enqueue_chup at_enqueue_qhup
  at_enqueue_hangup env h cpvt call_idx release_cause pvt =
      if (h.sys_or_incoming || h.past_dialing) && ltb 1 h.chansno
      then enqueue_const env cpvt (static_cmd cmd_at_chld_1x chld1x_text) pvt
      else (if not h.is_simcom && h.qhup
          then at_enqueue_qhup env cpvt call_idx release_cause pvt
          else at_enqueue_chup env cpvt pvt)

  -- The queue after `at_queue_add` of one command that is sent at once.
  unfoldable pub add_at_once : Env → ℕ → Option Cmd → Pvt → Enqueued
  unfolding at_queue_add
  add_at_once env cpvt none pvt = record { pvt = pvt; sent = none; err = some e_cmd_format }
  add_at_once env cpvt (some cmd) pvt =
      let (place, pvt') = at_queue_add env.alloc cpvt (cmd ∷ []) false true pvt in
      record { pvt = pvt'; sent = none; err = elim place [ none ↦ some e_queue | some i ↦ none ] }

  unfoldable pub at_hangup_immediately : Env → Bool → ℕ → ℕ → ℕ → Pvt → Enqueued
  unfolding add_at_once at_fill_generic_cmd
  at_hangup_immediately env is_simcom cpvt call_idx release_cause pvt =
      let filled =
        at_fill_generic_cmd (record (dynamic_cmd cmd_at_qhup) { timeout = 5 }) naked_qhup_format
          (map_hangup_cause release_cause ∷ call_idx ∷ []) in
      add_at_once env cpvt
        (if is_simcom
          then some (record (static_cmd cmd_at_chup naked_chup_text) { timeout = 5 })
          else filled)
        pvt
