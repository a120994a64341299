-- ===== src/A2a.antt =====
-- crates/grokingclaw-daemon/src/a2a.rs: the endpoint through which agents send tasks to the daemon,
-- and its control channel. What hyper and serde_json read of a request is an argument: its headers,
-- its method and target, and its body as a call. JSON values that are only passed on, logs and audit
-- reports are texts that a record of functions gives. A text is lowercased as ASCII. The agent cards
-- that the endpoint serves and the HTTP responses are left out.
pub mod Answers
pub mod Done
pub mod Signed
pub mod Signer
mod Tests
unfoldable pub use Answers.*
use grokingclawid.Common.{
  Bool, List, Option, Result, Text, [], false, if◌then◌else◌, insert, lookup, ltb_ℤ, map, none, not,
  or_else, retain, some, take, text_eq, true, unwrap_or, ℕ, ℤ, ◌&&◌, ◌*◌, ◌∷◌,
}
use grokingclawid.Supervisor.{Supervisor, get_agent}

-- `a.or_else(b)`
unfoldable pub first_of : Option Text → Option Text → Option Text
first_of none b = b
first_of (some a) b = some a

-- The task that a message opens; `new_v4` is a fresh id.
unfoldable pub new_task : SendParams → Option (List RpcPart) → Bool → Text → ℤ → Task
new_task p parts caller_verified new_v4 now = record {
  id = or_else p.id new_v4;
  context_id = p.context_id;
  state = submitted;
  messages =
      record {
        role = user;
        parts = text_part (text_content parts) ∷ [];
        metadata = some (caller_verified, now);
      }
      ∷ [];
  artifacts = [];
  created_at = now;
  updated_at = now;
}

-- A named agent must be there.
unfoldable pub target_known : Supervisor → Option Text → Bool
target_known s none = true
target_known s (some name) = elim (get_agent name s) [ none ↦ false | some info ↦ true ]

unfoldable pub is_terminal : TaskState → Bool
is_terminal completed = true
is_terminal canceled = true
is_terminal failed = true
is_terminal submitted = false
is_terminal working = false
is_terminal input_required = false
is_terminal rejected = false

unfoldable pub in_context : Option Text → Task → Bool
in_context none t = true
in_context (some ctx) t = elim t.context_id [ none ↦ false | some c ↦ text_eq c ctx ]

-- The newest update first; a stable sort.
unfoldable pub insert_task : Task → List Task → List Task
insert_task t [] = t ∷ []
insert_task t (u ∷ ts) =
    let rest = insert_task t ts in if ltb_ℤ t.updated_at u.updated_at then u ∷ rest else t ∷ u ∷ ts

unfoldable pub newest_tasks : List Task → List Task
newest_tasks [] = []
newest_tasks (t ∷ ts) = insert_task t (newest_tasks ts)

unfoldable pub limit_or : Option ℕ → ℕ
limit_or none = 50
limit_or (some n) = n

unfoldable pub handle_tasks_get : Option Text → Tasks → RpcReply
handle_tasks_get none tasks = rpc_error 32602
handle_tasks_get (some id) tasks = elim (lookup id tasks) [
  | none ↦ rpc_error 32001
  | some t ↦ task_result t
]

unfoldable pub handle_tasks_list : Option Text → Option ℕ → Tasks → RpcReply
handle_tasks_list context_id limit tasks = tasks_result (
    take (limit_or limit)
      (newest_tasks (retain (in_context context_id) (map (λ (id, t). t) tasks))))

unfoldable pub cancel_found : ℤ → Text → Task → Tasks → Tasks × RpcReply
cancel_found now id t tasks =
    let next = record t { state = canceled; updated_at = now } in
    if is_terminal t.state
    then (tasks, rpc_error 32003)
    else (insert id next tasks, task_result next)

unfoldable pub handle_tasks_cancel : ℤ → Option Text → Tasks → Tasks × RpcReply
handle_tasks_cancel now none tasks = (tasks, rpc_error 32602)
handle_tasks_cancel now (some id) tasks = elim (lookup id tasks) [
  | none ↦ (tasks, rpc_error 32001)
  | some t ↦ cancel_found now id t tasks
]

-- What a call meets: the supervisor, a fresh id, the clock, and the clock once a task is processed.
pub record Moment : Type 0 where
  pub supervisor : Supervisor
  pub new_v4 : Text
  pub now : ℤ
  pub finished : ℤ

module _ (R : Reports) where
  -- The lock is held from the first insertion to the second.
  unfoldable pub send_task : Moment → Task → Option Text → Tasks → Tasks × RpcReply
  send_task m task agent_name tasks =
      let response_task = process_task R m.supervisor m.finished task agent_name in
      (insert task.id response_task (insert task.id task tasks), task_result response_task)

  unfoldable pub send_message :
      Moment → Bool → SendParams → Option (Option (List RpcPart)) → Tasks → Tasks × RpcReply
  send_message m caller_verified p none tasks = (tasks, rpc_error 32602)
  send_message m caller_verified p (some parts) tasks =
      let agent_name = first_of p.agent p.target_agent in
      let task = new_task p parts caller_verified m.new_v4 m.now in
      if target_known m.supervisor agent_name
      then send_task m task agent_name tasks
      else (tasks, rpc_error 32001)

  unfoldable pub handle_message_send : Moment → Bool → SendParams → Tasks → Tasks × RpcReply
  handle_message_send m caller_verified p tasks = send_message m caller_verified p p.message tasks

  unfoldable pub dispatch : Moment → Bool → Call → Tasks → Tasks × RpcReply
  dispatch m verified (message_send p) tasks = handle_message_send m verified p tasks
  dispatch m verified (tasks_get id) tasks = (tasks, handle_tasks_get id tasks)
  dispatch m verified (tasks_list context_id limit) tasks =
      (tasks, handle_tasks_list context_id limit tasks)
  dispatch m verified (tasks_cancel id) tasks = handle_tasks_cancel m.now id tasks
  dispatch m verified unknown_method tasks = (tasks, rpc_error 32601)

  unfoldable pub answer_body : Moment → Bool → Option Call → Tasks → Tasks × RpcReply
  answer_body m verified none tasks = (tasks, rpc_error 32700)
  answer_body m verified (some call) tasks = dispatch m verified call tasks

  -- `handle_a2a_rpc`, given what the check of the signature said.
  unfoldable pub handle_a2a_rpc :
      Bool → Moment → Result Bool → Option Call → Tasks → Tasks × RpcReply
  handle_a2a_rpc require_auth m sig_verified body tasks =
      let caller_verified = unwrap_or sig_verified false in
      if require_auth && not caller_verified
      then (tasks, rpc_error 32000)
      else answer_body m caller_verified body tasks
