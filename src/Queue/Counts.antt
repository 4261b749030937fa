-- ===== src/Queue/Counts.antt =====
-- The counters of src/at_queue.c, `at_tasks` and `at_cmds`, against the queue.
use asterisk_chan_quectel.Prelude.{
  ℕ, suc, ◌+◌, ◌-◌, ◌^◌, ◌≤◌, ◌<◌, ◌≡◌, ◌≢◌, refl, sym, ap, ◌∙◌, ◌⊎◌, inl, inr, Bool, true, false,
  not, ◌&&◌, ◌||◌, List, [], ◌∷◌, ◌++◌, All, All-append, arith, leb, ◌==◌, u32, sub_u32, length,
  length-append, get_elem?, Bool-cases, if-elim,
}
use asterisk_chan_quectel.Queue.{
  Cmd, Task, Pvt, res_timeout, remove_head, at_queue_remove, insert_task, at_queue_add,
  remove_cmd_from, at_queue_remove_cmd, remove_at_once_from, at_queue_remove_task_at_once,
  at_queue_handle_result, new_task, cmd_res_is, cmd_ignores,
}

-- A task as it stands in the queue: its index is at a command of its own, or for a task that is
-- sent at once, at the start or at the end.
abbrev pub HasIndex : Bool → ℕ → ℕ → Type 0
HasIndex true cindex cmdsno = (cindex ≡ 0) ⊎ (cindex ≡ cmdsno)
HasIndex false cindex cmdsno = cindex < cmdsno

abbrev pub IsTask : Task → Type 0
IsTask t =
    (0 < t.cmdsno)
    × (t.cmdsno < 2 ^ 32)
    × (length t.cmds ≡ t.cmdsno)
    × HasIndex t.at_once t.cindex t.cmdsno

-- The commands of the queue that have no answer yet.
unfoldable pub owed : List Task → ℕ
owed [] = 0
owed (t ∷ ts) = t.cmdsno - t.cindex + owed ts

-- The counters say how many tasks and how many unanswered commands there are.
pub record IsCounted (pvt : Pvt) : Type 0 where
  pub tasks : pvt.at_tasks ≡ u32 (length pvt.at_queue)
  pub cmds : pvt.at_cmds ≡ u32 (owed pvt.at_queue)
  pub wf : All IsTask pvt.at_queue

owed-append : (ts us : List Task) → owed (ts ++ us) ≡ owed ts + owed us
unfolding owed
owed-append [] us = omega arith
owed-append (t ∷ ts) us = omega (arith, owed-append ts us)

owed-insert_task :
    (prio : Bool) (e : Task) (ts : List Task)
    → owed (insert_task prio e ts) ≡ e.cmdsno - e.cindex + owed ts
unfolding owed insert_task
owed-insert_task prio e [] = omega arith
owed-insert_task true e (t ∷ ts) = omega arith
owed-insert_task false e (t ∷ ts) = omega (arith, owed-append ts (e ∷ []))

pub length-insert_task :
    (prio : Bool) (e : Task) (ts : List Task) → length (insert_task prio e ts) ≡ suc (length ts)
unfolding insert_task
length-insert_task prio e [] = refl
length-insert_task true e (t ∷ ts) = refl
length-insert_task false e (t ∷ ts) = omega (arith, length-append ts (e ∷ []))

All-insert_task :
    (prio : Bool) (e : Task) (ts : List Task)
    → IsTask e
    → All IsTask ts
    → All IsTask (insert_task prio e ts)
unfolding insert_task
All-insert_task prio e [] h k = (h, tt)
All-insert_task true e (t ∷ ts) h k = (k.0, (h, k.1))
All-insert_task false e (t ∷ ts) h k = (k.0, All-append IsTask ts (e ∷ []) (k.1) (h, tt))

added_IsCounted :
    (cpvt : ℕ) (cmds : List Cmd) (prio at_once : Bool) {pvt : Pvt}
    → IsCounted pvt
    → length cmds < 2 ^ 32
    → 0 < length cmds
    → IsCounted (record {
      at_queue = insert_task prio (new_task cpvt cmds at_once) pvt.at_queue;
      at_tasks = u32 (pvt.at_tasks + 1);
      at_cmds = u32 (pvt.at_cmds + length cmds);
    })
added_IsCounted cpvt cmds prio at_once {pvt} c h k =
    let e = new_task cpvt cmds at_once in
    let at_start : HasIndex at_once 0 (length cmds) =
      elim at_once as (λ b. HasIndex b 0 (length cmds)) [ true ↦ inl refl | false ↦ k ] in
    record {
      tasks = omega (arith, length-insert_task prio e pvt.at_queue, c.tasks);
      cmds = omega (arith, owed-insert_task prio e pvt.at_queue, c.cmds);
      wf = All-insert_task prio e pvt.at_queue (k, h, refl, at_start) c.wf;
    }

-- `at_queue_add` of fewer than 2 ^ 32 commands keeps the counters right, also where it adds
-- nothing.
pub at_queue_add-IsCounted :
    (alloc : Bool) (cpvt : ℕ) (cmds : List Cmd) (prio at_once : Bool) {pvt : Pvt}
    → length cmds < 2 ^ 32
    → IsCounted pvt
    → IsCounted (at_queue_add alloc cpvt cmds prio at_once pvt).1
unfolding at_queue_add
at_queue_add-IsCounted alloc cpvt cmds prio at_once {pvt} h c =
    elim (Bool-cases (length cmds == 0)) [
      | inl empty ↦ rw empty c
      | inr more ↦ rw more (elim (Bool-cases alloc) [
        | inl got ↦ rw got (added_IsCounted cpvt cmds prio at_once c h (ground arith))
        | inr failed ↦ rw failed c
      ])
    ]

-- What the counters say of a queue with a head.
record Headed (pvt : Pvt) (t : Task) (rest : List Task) : Type 0 where
  tasks : pvt.at_tasks ≡ u32 (suc (length rest))
  cmds : pvt.at_cmds ≡ u32 (t.cmdsno - t.cindex + owed rest)
  small : t.cmdsno < 2 ^ 32
  wf : All IsTask rest

headed :
    {pvt : Pvt} (t : Task) (rest : List Task)
    → IsCounted pvt
    → pvt.at_queue ≡ t ∷ rest
    → Headed pvt t rest × IsTask t
unfolding owed
headed t rest c e =
    let all : All IsTask (t ∷ rest) = rw e at c.wf in
    (
      record {
        tasks = c.tasks ∙ rw e refl;
        cmds = c.cmds ∙ rw e refl;
        small = all.0.1;
        wf = all.1;
      },
      all.0,
    )

-- Removing the head takes its unanswered commands off the count.
remove_head-IsCounted :
    (pvt : Pvt) (t : Task) (rest : List Task)
    → Headed pvt t rest
    → t.cindex ≤ t.cmdsno
    → IsCounted (remove_head pvt (t ∷ rest))
unfolding remove_head
remove_head-IsCounted pvt t rest h le = record {
  tasks = omega (arith, h.tasks);
  cmds = omega (arith, h.cmds, h.small);
  wf = h.wf;
}

index_le : (t : Task) → IsTask t → t.cindex ≤ t.cmdsno
index_le t h = ground arith

-- `at_queue_remove` keeps the counters right.
pub at_queue_remove-IsCounted : {pvt : Pvt} → IsCounted pvt → IsCounted (at_queue_remove pvt)
unfolding at_queue_remove
at_queue_remove-IsCounted {pvt} c = go pvt.at_queue refl
  where
    go : (ts : List Task) → pvt.at_queue ≡ ts → IsCounted (remove_head pvt ts)
    go [] e = c
    go (t ∷ rest) e =
        let (h, task) = headed t rest c e in remove_head-IsCounted pvt t rest h (index_le t task)

-- The head is no at-once task whose commands have been taken off the count already.
abbrev pub IsFresh : List Task → Type 0
IsFresh [] = Unit
IsFresh (t ∷ rest) = t.at_once ≡ true → t.cindex ≡ 0

-- The head, moved to its end or to its next command, with the count lowered by as much.
moved-Headed :
    (pvt : Pvt) (t : Task) (rest : List Task) (n i : ℕ)
    → Headed pvt t rest
    → t.cindex + n ≡ i
    → i ≤ t.cmdsno
    → Headed
        (record {
          at_queue = record t { cindex = i } ∷ rest;
          at_tasks = pvt.at_tasks;
          at_cmds = sub_u32 pvt.at_cmds n;
        })
        (record t { cindex = i })
        rest
moved-Headed pvt t rest n i h e le = record {
  tasks = h.tasks;
  cmds = omega (arith, h.cmds, h.small);
  small = h.small;
  wf = h.wf;
}

counted :
    {pvt : Pvt} (t : Task) (rest : List Task)
    → pvt.at_queue ≡ t ∷ rest
    → Headed pvt t rest
    → IsTask t
    → IsCounted pvt
unfolding owed
counted {pvt} t rest e h task = record {
  tasks = h.tasks ∙ rw e refl;
  cmds = h.cmds ∙ rw e refl;
  wf = rw e (task, h.wf);
}

remove_cmd_from-IsCounted :
    {pvt : Pvt} (res : ℕ) (ts : List Task)
    → pvt.at_queue ≡ ts
    → IsCounted pvt
    → IsFresh ts
    → IsCounted (remove_cmd_from pvt res ts)
unfolding remove_cmd_from
remove_cmd_from-IsCounted res [] e c f = c
remove_cmd_from-IsCounted {pvt} res (t ∷ rest) e c f =
    let (h, task) = headed t rest c e in
    let k = task.0 in
    let small = task.1 in
    if-elim IsCounted t.at_once
      (λ once.
        let index : t.cindex ≡ 0 = f once in
        let ended : HasIndex t.at_once t.cmdsno t.cmdsno = rw once (inr refl) in
        let t' : Task = record t { cindex = t.cmdsno } in
        let pvt' : Pvt = record pvt {
          at_queue = t' ∷ rest;
          at_cmds = sub_u32 pvt.at_cmds t.cmdsno;
        } in
        let moved : Headed pvt' t' rest =
          moved-Headed pvt t rest t.cmdsno t.cmdsno h (omega arith) (omega arith) in
        if-elim IsCounted
          (cmd_res_is (get_elem? t.cmds 0) res
            || cmd_ignores (get_elem? t.cmds 0)
            || res == res_timeout)
          (λ _. remove_head-IsCounted pvt' t' rest moved (omega arith))
          (λ _. counted t' rest refl moved (task.0, task.1, task.2, ended)))
      (λ more.
        let at : t.cindex < t.cmdsno = rw more at (task.3) in
        let next : t.cindex + 1 ≡ u32 (t.cindex + 1) = omega arith in
        let t' : Task = record t { cindex = u32 (t.cindex + 1) } in
        let pvt' : Pvt = record pvt { at_queue = t' ∷ rest; at_cmds = sub_u32 pvt.at_cmds 1 } in
        let moved : Headed pvt' t' rest =
          moved-Headed pvt t rest 1 (u32 (t.cindex + 1)) h next (omega arith) in
        if-elim IsCounted
          (leb t.cmdsno (u32 (t.cindex + 1))
            || not (cmd_res_is (get_elem? t.cmds t.cindex) res)
              && not (cmd_ignores (get_elem? t.cmds t.cindex))
            || res == res_timeout)
          (λ _. remove_head-IsCounted pvt' t' rest moved (omega arith))
          (λ stays.
            let later : u32 (t.cindex + 1) < t.cmdsno = ground arith in
            let index : HasIndex t.at_once (u32 (t.cindex + 1)) t.cmdsno = rw more later in
            counted t' rest refl moved (task.0, task.1, task.2, index)))

-- `at_queue_handle_result`, with any response, keeps the counters right, unless the head is an
-- at-once task that has had a response before.
pub at_queue_handle_result-IsCounted :
    {pvt : Pvt} (res : ℕ)
    → IsCounted pvt
    → IsFresh pvt.at_queue
    → IsCounted (at_queue_handle_result pvt res)
unfolding at_queue_handle_result
at_queue_handle_result-IsCounted {pvt} res c f = remove_cmd_from-IsCounted res pvt.at_queue refl c f

remove_at_once_from-IsCounted :
    {pvt : Pvt} (ts : List Task)
    → pvt.at_queue ≡ ts
    → IsCounted pvt
    → IsFresh ts
    → IsCounted (remove_at_once_from pvt ts)
unfolding remove_at_once_from
remove_at_once_from-IsCounted [] e c f = c
remove_at_once_from-IsCounted {pvt} (t ∷ rest) e c f =
    let (h, task) = headed t rest c e in
    if-elim IsCounted t.at_once
      (λ once.
        let index : t.cindex ≡ 0 = f once in
        let ended : HasIndex t.at_once t.cmdsno t.cmdsno = rw once (inr refl) in
        let t' : Task = record t { cindex = t.cmdsno } in
        let pvt' : Pvt = record pvt {
          at_queue = t' ∷ rest;
          at_cmds = sub_u32 pvt.at_cmds t.cmdsno;
        } in
        let moved : Headed pvt' t' rest =
          moved-Headed pvt t rest t.cmdsno t.cmdsno h (omega arith) (omega arith) in
        if-elim IsCounted (not (cmd_ignores (get_elem? t.cmds 0)))
          (λ _. remove_head-IsCounted pvt' t' rest moved (omega arith))
          (λ _. counted t' rest refl moved (task.0, task.1, task.2, ended)))
      (λ _. c)

-- `at_queue_remove_task_at_once` keeps the counters right, unless the head is an at-once task that has
-- had a response before.
pub at_queue_remove_task_at_once-IsCounted :
    {pvt : Pvt}
    → IsCounted pvt
    → IsFresh pvt.at_queue
    → IsCounted (at_queue_remove_task_at_once pvt)
unfolding at_queue_remove_task_at_once
at_queue_remove_task_at_once-IsCounted {pvt} c f =
    remove_at_once_from-IsCounted pvt.at_queue refl c f

second_response :
    (pvt : Pvt) (res : ℕ) (t : Task) (rest : List Task)
    → t.at_once ≡ true
    → cmd_res_is (get_elem? t.cmds 0) res ≡ false
    → cmd_ignores (get_elem? t.cmds 0) ≡ false
    → (res == res_timeout) ≡ false
    → remove_cmd_from pvt res (t ∷ rest) ≡ record pvt {
      at_queue = record t { cindex = t.cmdsno } ∷ rest;
      at_cmds = sub_u32 pvt.at_cmds t.cmdsno;
    }
unfolding remove_cmd_from
second_response pvt res t rest once other strict live = ground arith

-- Where the head is an at-once task that has had a response before, one more response that it
-- does not expect leaves the queue as it is and takes its commands off the count a second time.
pub at_queue_handle_result_counts_twice :
    {pvt : Pvt} (res : ℕ) (t : Task) (rest : List Task)
    → IsCounted pvt
    → pvt.at_queue ≡ t ∷ rest
    → t.at_once ≡ true
    → t.cindex ≡ t.cmdsno
    → cmd_res_is (get_elem? t.cmds 0) res ≡ false
    → cmd_ignores (get_elem? t.cmds 0) ≡ false
    → res ≢ res_timeout
    → let pvt' = at_queue_handle_result pvt res in
      (pvt'.at_queue ≡ pvt.at_queue)
      × (pvt'.at_cmds ≡ sub_u32 (u32 (owed pvt'.at_queue)) t.cmdsno)
      × ¬ IsCounted pvt'
unfolding at_queue_handle_result at_queue_remove_cmd
at_queue_handle_result_counts_twice {pvt} res t rest c e once spent other strict live =
    let (h, task) = headed t rest c e in
    let few = task.0 in
    let after = second_response pvt res t rest once other strict (ground arith) in
    let step : at_queue_handle_result pvt res ≡ remove_cmd_from pvt res (t ∷ rest) = rw e refl in
    let same : record t { cindex = t.cmdsno } ∷ rest ≡ pvt.at_queue =
      (λ i. record t { cindex = sym spent i } ∷ rest) ∙ sym e in
    let off : sub_u32 pvt.at_cmds t.cmdsno ≡ sub_u32 (u32 (owed pvt.at_queue)) t.cmdsno =
      omega (arith, c.cmds) in
    rw (step, after) (same, rw same off, λ c'. omega (arith, c'.cmds, ap owed same, c.cmds, task.1))
