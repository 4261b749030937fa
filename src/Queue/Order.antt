-- ===== src/Queue/Order.antt =====
-- In which order src/at_queue.c serves its tasks, and which command of a task waits for an answer.
use asterisk_chan_quectel.Prelude.{
  ℕ, zero, suc, ◌+◌, ◌-◌, ◌^◌, ◌<◌, ◌≡◌, ◌≢◌, refl, ap, ◌∙◌, ◌⊎◌, Bool, true, false, some, List, [],
  ◌∷◌, ◌++◌, All, arith, leb, ◌==◌, if◌then◌else◌, u32, length, get_elem?, if-elim, get_elem?-last,
  drop-past, drop-get_elem?, drop, map,
}
use asterisk_chan_quectel.Queue.Counts.{IsTask}
use asterisk_chan_quectel.Queue.{
  Cmd, Task, Pvt, res_timeout, new_task, insert_task, insert_place, at_queue_add,
  at_queue_remove_cmd, at_queue_handle_result, at_queue_head_task, at_queue_task_cmd,
  at_queue_head_cmd, cmd_res_is, head_task,
}

added :
    (cpvt : ℕ) (cmds : List Cmd) (prio at_once : Bool) (pvt : Pvt)
    → 0 < length cmds
    → let (place, pvt') = at_queue_add true cpvt cmds prio at_once pvt in
      (place ≡ some (insert_place prio pvt.at_queue))
      × (pvt'.at_queue ≡ insert_task prio (new_task cpvt cmds at_once) pvt.at_queue)
unfolding at_queue_add
added cpvt cmds prio at_once pvt more =
    let test : (length cmds == 0) ≡ false = ground arith in (rw test refl, rw test refl)

placed :
    (prio : Bool) (e first : Task) (rest : List Task)
    → (insert_task prio e (first ∷ rest)
        ≡ (if prio then first ∷ e ∷ rest else first ∷ rest ++ (e ∷ [])))
      × (get_elem? (insert_task prio e (first ∷ rest)) (insert_place prio (first ∷ rest)) ≡ some e)
unfolding insert_task
placed true e first rest = (refl, refl)
placed false e first rest = (refl, get_elem?-last rest e (length rest) refl)

-- The queue after `at_queue_add` succeeded: a new task never goes before the task at the head, so
-- the command that is sent next is the same. With priority the new task comes second, and without
-- it last; the pointer returned is where it stands.
pub at_queue_add_order :
    (cpvt : ℕ) (cmds : List Cmd) (prio at_once : Bool) (pvt : Pvt) (first : Task) (rest : List Task)
    → pvt.at_queue ≡ first ∷ rest
    → 0 < length cmds
    → let (place, pvt') = at_queue_add true cpvt cmds prio at_once pvt in
      let e = new_task cpvt cmds at_once in
      (pvt'.at_queue ≡ (if prio then first ∷ e ∷ rest else first ∷ rest ++ (e ∷ [])))
      × (at_queue_head_cmd pvt' ≡ at_queue_head_cmd pvt)
      × ((i : ℕ) × (place ≡ some i) × (get_elem? pvt'.at_queue i ≡ some e))
unfolding at_queue_head_cmd
at_queue_add_order cpvt cmds prio at_once pvt first rest q more =
    let pvt' = (at_queue_add true cpvt cmds prio at_once pvt).1 in
    let (place, queue) = added cpvt cmds prio at_once pvt more in
    let e = new_task cpvt cmds at_once in
    let (order, at) = placed prio e first rest in
    let queue' : (at_queue_add true cpvt cmds prio at_once pvt).1.at_queue
        ≡ insert_task prio e (first ∷ rest) =
      queue ∙ ap (insert_task prio e) q in
    let head : head_task (insert_task prio e (first ∷ rest)) ≡ some first =
      rw order (if-elim (λ ts. head_task ts ≡ some first) prio (λ _. refl) (λ _. refl)) in
    (
      queue' ∙ order,
      ap at_queue_task_cmd {x = at_queue_head_task pvt'} {y = at_queue_head_task pvt}
          (unfold at_queue_head_task in rw (queue', q) head),
      (
        insert_place prio (first ∷ rest),
        place ∙ ap (λ ts. some (insert_place prio ts)) q,
        rw queue' at,
      ),
    )

-- The responses in order.
unfoldable pub handle_all : Pvt → List ℕ → Pvt
handle_all pvt [] = pvt
handle_all pvt (res ∷ rs) = handle_all (at_queue_handle_result pvt res) rs

-- One expected response moves a task to its next command, or out of the queue.
expected_step :
    (pvt : Pvt) (t : Task) (rest : List Task) (c : Cmd)
    → pvt.at_queue ≡ t ∷ rest
    → t.at_once ≡ false
    → t.cmdsno < 2 ^ 32
    → t.cindex < t.cmdsno
    → get_elem? t.cmds t.cindex ≡ some c
    → c.res ≢ res_timeout
    → (at_queue_handle_result pvt c.res).at_queue
      ≡ (if leb t.cmdsno (t.cindex + 1) then rest else record t { cindex = t.cindex + 1 } ∷ rest)
unfolding at_queue_handle_result
expected_step pvt t rest c q once small at cmd live =
    let next : u32 (t.cindex + 1) ≡ t.cindex + 1 = omega arith in
    let matches : cmd_res_is (get_elem? t.cmds t.cindex) c.res ≡ true = rw cmd (ground arith) in
    rw (at_queue_remove_cmd, q) (ground arith)

All-expected :
    (k : ℕ) (pvt : Pvt) (t : Task) (rest : List Task)
    → pvt.at_queue ≡ t ∷ rest
    → t.at_once ≡ false
    → t.cmdsno < 2 ^ 32
    → length t.cmds ≡ t.cmdsno
    → t.cindex + suc k ≡ t.cmdsno
    → All (λ c. c.res ≢ res_timeout) (drop t.cindex t.cmds)
    → (handle_all pvt (map (λ (c : Cmd). c.res) (drop t.cindex t.cmds))).at_queue ≡ rest
unfolding handle_all
All-expected zero pvt t rest q once small size left live =
    let (c, cmd, split) = drop-get_elem? t.cmds t.cindex (omega arith) in
    let last : drop (suc t.cindex) t.cmds ≡ [] = drop-past (suc t.cindex) t.cmds (omega arith) in
    let live' : All (λ c. c.res ≢ res_timeout) (c ∷ drop (suc t.cindex) t.cmds) =
      rw split at live in
    let ends : leb t.cmdsno (t.cindex + 1) ≡ true = ground arith in
    rw (split, last)
      (expected_step pvt t rest c q once small (omega arith) cmd (live'.0) ∙ rw ends refl)
All-expected (suc k) pvt t rest q once small size left live =
    let (c, cmd, split) = drop-get_elem? t.cmds t.cindex (omega arith) in
    let live' : All (λ c. c.res ≢ res_timeout) (c ∷ drop (suc t.cindex) t.cmds) =
      rw split at live in
    let more : leb t.cmdsno (t.cindex + 1) ≡ false = ground arith in
    let up : t.cindex + 1 ≡ suc t.cindex = omega arith in
    let t' : Task = record t { cindex = suc t.cindex } in
    let q' : (at_queue_handle_result pvt c.res).at_queue ≡ t' ∷ rest =
      expected_step pvt t rest c q once small (omega arith) cmd (live'.0) ∙ rw (more, up) refl in
    rw split (
      All-expected k (at_queue_handle_result pvt c.res) t' rest q' once small size (omega arith)
        (live'.1))

-- The responses that the commands of the head expect, in order and none of them a timeout, take a
-- well-formed task that is not sent at once through all its commands and then out of the queue,
-- whose other tasks stay as they are.
pub handle_all_expected :
    (pvt : Pvt) (t : Task) (rest : List Task)
    → pvt.at_queue ≡ t ∷ rest
    → IsTask t
    → t.at_once ≡ false
    → All (λ c. c.res ≢ res_timeout) (drop t.cindex t.cmds)
    → (handle_all pvt (map (λ (c : Cmd). c.res) (drop t.cindex t.cmds))).at_queue ≡ rest
handle_all_expected pvt t rest q task once live =
    let small = task.1 in
    let size = task.2 in
    let at : t.cindex < t.cmdsno = rw once at (task.3) in
    All-expected (t.cmdsno - t.cindex - 1) pvt t rest q once small size (omega arith) live

-- For a head that is not sent at once, a response that the waiting command does not expect, and
-- may not ignore, or a timeout, takes the whole task off the queue.
pub at_queue_handle_result_gives_up :
    (pvt : Pvt) (t : Task) (rest : List Task) (c : Cmd) (res : ℕ)
    → pvt.at_queue ≡ t ∷ rest
    → t.at_once ≡ false
    → get_elem? t.cmds t.cindex ≡ some c
    → ((res ≢ c.res) × (c.ignore ≡ false)) ⊎ (res ≡ res_timeout)
    → (at_queue_handle_result pvt res).at_queue ≡ rest
unfolding at_queue_handle_result
at_queue_handle_result_gives_up pvt t rest c res q once cmd why =
    rw (at_queue_remove_cmd, q) (ground arith)
