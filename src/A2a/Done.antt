-- ===== src/A2a/Done.antt =====
-- The tasks that calls leave behind.
use grokingclawid.Common.{
  Bool, Bool-cases, Entries, Entries-insert, Entries-lookup, List, Option, Option-cases, Result,
  Text, [], false, inl, inr, insert, insert-insert, length, lookup, lookup-insert,
  lookup-insert_other, none, not, or_else, refl, some, text_eq, true, unwrap_or, ℕ, ℤ, ◌&&◌, ◌≡◌,
}
use grokingclawid.A2a.{
  Call, Moment, Reports, RpcPart, SendParams, Task, Tasks, answer_body, cancel_found, completed,
  dispatch, first_of, handle_a2a_rpc, handle_message_send, handle_tasks_cancel, handle_tasks_get,
  is_terminal, message_send, new_task, process_task, rpc_error, send_message, send_task,
  target_known, task_result, tasks_cancel, tasks_get, tasks_list, unknown_method,
}

-- A stored task stands under its own id, is completed, and holds the question and the answer.
abbrev pub IsDone : Text → Task → Type 0
IsDone id t = (t.id ≡ id) × (t.state ≡ completed) × (length t.messages ≡ 2)

module _ (R : Reports) where
  -- One call, with whatever authentication, body and answers of the other parts.
  pub data Step : Tasks → Tasks → Type 0 where
    called :
        {s : Tasks} (require_auth : Bool) (m : Moment) (sig_verified : Result Bool)
        (body : Option Call)
        → Step s (handle_a2a_rpc R require_auth m sig_verified body s).0

  pub data Reachable : Tasks → Type 0 where
    none_yet : Reachable []
    next : {s t : Tasks} → Reachable s → Step s t → Reachable t

  process_task-IsDone :
      (m : Moment) (p : SendParams) (parts : Option (List RpcPart)) (verified : Bool)
      (agent_name : Option Text)
      → IsDone (new_task p parts verified m.new_v4 m.now).id (
          process_task R m.supervisor m.finished
            (new_task p parts verified m.new_v4 m.now)
            agent_name)
  unfolding process_task new_task
  process_task-IsDone m p parts verified agent_name = (refl, refl, refl)

  -- A task that is completed is not canceled.
  cancel_done :
      (now : ℤ) (id : Option Text) (tasks : Tasks)
      → Entries IsDone tasks
      → (code : ℕ) × (handle_tasks_cancel now id tasks ≡ (tasks, rpc_error code))
  unfolding handle_tasks_cancel cancel_found is_terminal
  cancel_done now none tasks h = (32602, refl)
  cancel_done now (some id) tasks h = elim (Option-cases (lookup id tasks)) [
    | inl gone ↦ (32001, rw (handle_tasks_cancel, gone) refl)
    | inr (t, found) ↦
        let (named, done, two) = Entries-lookup IsDone id t tasks h found in
        (32003, rw (handle_tasks_cancel, found, cancel_found, done, is_terminal) refl)
  ]

  send_message-IsDone :
      (m : Moment) (verified : Bool) (p : SendParams) (message : Option (Option (List RpcPart)))
      (tasks : Tasks)
      → Entries IsDone tasks
      → Entries IsDone (send_message R m verified p message tasks).0
  unfolding send_message send_task
  send_message-IsDone m verified p none tasks h = h
  send_message-IsDone m verified p (some parts) tasks h =
      let agent_name = first_of p.agent p.target_agent in
      let task = new_task p parts verified m.new_v4 m.now in
      let done = process_task R m.supervisor m.finished task agent_name in
      elim (Bool-cases (target_known m.supervisor agent_name)) [
        | inl known ↦
            rw (send_message, known, send_task, insert-insert task.id task done tasks)
              (Entries-insert IsDone task.id done tasks h
                (process_task-IsDone m p parts verified agent_name))
        | inr unknown ↦ rw (send_message, unknown) h
      ]

  dispatch-IsDone :
      (m : Moment) (verified : Bool) (call : Call) (tasks : Tasks)
      → Entries IsDone tasks
      → Entries IsDone (dispatch R m verified call tasks).0
  unfolding dispatch handle_message_send
  dispatch-IsDone m verified (message_send p) tasks h =
      send_message-IsDone m verified p p.message tasks h
  dispatch-IsDone m verified (tasks_get id) tasks h = h
  dispatch-IsDone m verified (tasks_list context_id limit) tasks h = h
  dispatch-IsDone m verified (tasks_cancel id) tasks h =
      let (code, same) = cancel_done m.now id tasks h in rw same h
  dispatch-IsDone m verified unknown_method tasks h = h

  Step-IsDone : (s t : Tasks) → Step s t → Entries IsDone s → Entries IsDone t
  unfolding handle_a2a_rpc answer_body
  Step-IsDone s _ (called require_auth m sig_verified none) h =
      elim (Bool-cases (require_auth && not (unwrap_or sig_verified false))) [
        | inl closed ↦ rw (handle_a2a_rpc, closed) h
        | inr open_now ↦ rw (handle_a2a_rpc, open_now) h
      ]
  Step-IsDone s _ (called require_auth m sig_verified (some call)) h =
      elim (Bool-cases (require_auth && not (unwrap_or sig_verified false))) [
        | inl closed ↦ rw (handle_a2a_rpc, closed) h
        | inr open_now ↦
            rw (handle_a2a_rpc, open_now, answer_body)
              (dispatch-IsDone m (unwrap_or sig_verified false) call s h)
      ]

  reached : (s : Tasks) → Reachable s → Entries IsDone s
  reached _ none_yet = tt
  reached t (next {s} r e) = Step-IsDone s t e (reached s r)

  -- In every state that calls reach, each task stands under its id and is completed, with a question
  -- and an answer; so `tasks/cancel`, whatever it names, cancels nothing and answers with an error.
  pub handle_tasks_cancel-error :
      (s : Tasks) (now : ℤ) (id : Option Text)
      → Reachable s
      → Entries IsDone s × (code : ℕ) × (handle_tasks_cancel now id s ≡ (s, rpc_error code))
  handle_tasks_cancel-error s now id r =
      let h = reached s r in let (code, same) = cancel_done now id s h in (h, code, same)

  -- A message to the daemon itself, or to an agent that is there, is answered with its completed task,
  -- which `tasks/get` then gives back for its id, in place of any task that stood there; the tasks
  -- under other ids are as before.
  pub handle_message_send-get :
      (m : Moment) (verified : Bool) (p : SendParams) (parts : Option (List RpcPart)) (other : Text)
      (tasks : Tasks)
      → p.message ≡ some parts
      → target_known m.supervisor (first_of p.agent p.target_agent) ≡ true
      → text_eq (or_else p.id m.new_v4) other ≡ false
      → (t : Task) × ((handle_message_send R m verified p tasks).1 ≡ task_result t)
        × (t.state ≡ completed)
        × (handle_tasks_get
              (some (or_else p.id m.new_v4))
              (handle_message_send R m verified p tasks).0
            ≡ task_result t)
        × (handle_tasks_get (some other) (handle_message_send R m verified p tasks).0
            ≡ handle_tasks_get (some other) tasks)
  unfolding handle_message_send send_message send_task handle_tasks_get new_task process_task
  handle_message_send-get m verified p parts other tasks given known apart =
      let agent_name = first_of p.agent p.target_agent in
      let task = new_task p parts verified m.new_v4 m.now in
      let done = process_task R m.supervisor m.finished task agent_name in
      let sent : handle_message_send R m verified p tasks
          ≡ (insert task.id done (insert task.id task tasks), task_result done) =
        rw (handle_message_send, given, send_message, known, send_task) refl in
      (
        done,
        rw sent refl,
        refl,
        rw (sent, handle_tasks_get, lookup-insert task.id done (insert task.id task tasks)) refl,
        rw
            (
              sent,
              handle_tasks_get,
              lookup-insert_other task.id other done (insert task.id task tasks) apart,
              lookup-insert_other task.id other task tasks apart,
            )
            refl,
      )
