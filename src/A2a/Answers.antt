-- ===== src/A2a/Answers.antt =====
-- The tasks of crates/grokingclaw-daemon/src/a2a.rs, and what the daemon and its agents answer to the
-- text of one: process_task, process_daemon_task and process_agent_task.
use grokingclawid.Common.{
  Bool, Error, List, Option, Result, String, Text, [], ascii, err, false, if◌then◌else◌, length,
  none, ok, some, strip_prefix, text_eq, true, ℕ, ℤ, ◌&&◌, ◌++◌, ◌||◌, ◌∷◌,
}
use grokingclawid.License.{to_lowercase}
use grokingclawid.Common.Decimal.{show_ℕ}
use grokingclawid.Supervisor.{AgentInfo, AgentStatus, Supervisor, get_agent, list_agents}

pub data TaskState : Type 0 where
  submitted working input_required completed canceled failed rejected : TaskState

pub data MessageRole : Type 0 where
  user agent : MessageRole

-- `A2aPart`: a text, or a JSON value as its text.
pub data Part : Type 0 where
  text_part : Text → Part
  data_part : Text → Part

-- The metadata that the endpoint writes: whether the caller was verified, and when.
pub record Message : Type 0 where
  pub role : MessageRole
  pub parts : List Part
  pub metadata : Option (Bool × ℤ)

pub record Artifact : Type 0 where
  pub name : Option Text
  pub parts : List Part

-- `A2aTask`; the `message` of its status is never set.
pub record Task : Type 0 where
  pub id : Text
  pub context_id : Option Text
  pub state : TaskState
  pub messages : List Message
  pub artifacts : List Artifact
  pub created_at : ℤ
  pub updated_at : ℤ

-- One entry of `parts`, with what is read of it.
pub record RpcPart : Type 0 where
  pub part_type : Option Text
  pub text : Option Text

-- The parameters of `message/send`; `message` has its `parts`, if they are an array.
pub record SendParams : Type 0 where
  pub agent : Option Text
  pub target_agent : Option Text
  pub message : Option (Option (List RpcPart))
  pub id : Option Text
  pub context_id : Option Text

pub data Call : Type 0 where
  message_send : SendParams → Call
  tasks_get : Option Text → Call
  tasks_list : Option Text → Option ℕ → Call
  tasks_cancel : Option Text → Call
  unknown_method : Call

-- A result, or an error by the digits of its negative code.
pub data RpcReply : Type 0 where
  task_result : Task → RpcReply
  tasks_result : List Task → RpcReply
  rpc_error : ℕ → RpcReply

abbrev pub Tasks : Type 0
Tasks = List (Text × Task)

-- What the daemon's other parts answer, as texts.
pub record Reports : Type 0 where
  pub daemon_status : List AgentInfo → Text
  pub agent_list : List AgentInfo → Text
  pub agent_info : AgentInfo → Text
  pub status_text : AgentStatus → Text
  pub read_agent_logs : Text → Result Text
  pub query_audit : Text → Result Text
  pub error_text : Error → Text

unfoldable pub contains_text : Text → Text → Bool
contains_text [] t = text_eq [] t
contains_text (c ∷ s) t = elim (strip_prefix t (c ∷ s)) [
  | none ↦ contains_text s t
  | some rest ↦ true
]

-- The first part that has the type `text` and a text.
unfoldable pub part_text : RpcPart → Option Text
part_text p =
    if elim p.part_type [ none ↦ false | some t ↦ text_eq t (ascii "text") ] then p.text else none

unfoldable pub find_text : List RpcPart → Text
find_text [] = []
find_text (p ∷ ps) = elim (part_text p) [ none ↦ find_text ps | some t ↦ t ]

unfoldable pub text_content : Option (List RpcPart) → Text
text_content none = []
text_content (some parts) = find_text parts

unfoldable pub artifact_of : String → Part → List Artifact
artifact_of name part = record { name = some (ascii name); parts = part ∷ [] } ∷ []

module _ (R : Reports) where
  unfoldable pub process_daemon_task : Supervisor → Text → Text × List Artifact
  process_daemon_task s text =
      let lower = to_lowercase text in
      let agents = list_agents s in
      if contains_text lower (ascii "status")
      then (
        ascii "Daemon status retrieved.",
        artifact_of "daemon-status" (data_part (R.daemon_status agents)),
      )
      else if contains_text lower (ascii "list agents") || contains_text lower (ascii "agents list")
      then (
        show_ℕ (length agents) ++ ascii " agent(s) registered.",
        artifact_of "agent-list" (data_part (R.agent_list agents)),
      )
      else (ascii "Received: \"" ++ (text ++ ascii "\". No handler matched."), [])

  unfoldable pub status_report : Text → Option AgentInfo → Text × List Artifact
  status_report agent_name none = (ascii "Agent '" ++ (agent_name ++ ascii "' not found."), [])
  status_report agent_name (some info) = (
    ascii "Agent '" ++ (agent_name ++ (ascii "' status: " ++ R.status_text info.status)),
    artifact_of "agent-status" (data_part (R.agent_info info)),
  )

  unfoldable pub logs_report : Text → Result Text → Text × List Artifact
  logs_report agent_name (err why) =
      (ascii "Failed to read logs for '" ++ (agent_name ++ (ascii "': " ++ R.error_text why)), [])
  logs_report agent_name (ok logs) = (
    ascii "Logs for agent '" ++ (agent_name ++ ascii "':"),
    artifact_of "agent-logs" (text_part logs),
  )

  unfoldable pub audit_report : Text → Result Text → Text × List Artifact
  audit_report agent_name (err why) =
      (ascii "Failed to query audit for '" ++ (agent_name ++ (ascii "': " ++ R.error_text why)), [])
  audit_report agent_name (ok result) = (
    ascii "Audit trail for agent '" ++ (agent_name ++ ascii "':"),
    artifact_of "agent-audit" (data_part result),
  )

  unfoldable pub process_agent_task : Supervisor → Text → Text → Text × List Artifact
  process_agent_task s agent_name text =
      let lower = to_lowercase text in
      if contains_text lower (ascii "status") || contains_text lower (ascii "health")
      then status_report agent_name (get_agent agent_name s)
      else if contains_text lower (ascii "rotate") && contains_text lower (ascii "key")
      then (
        ascii "Key rotation requested for agent '"
            ++ (agent_name
                ++ (ascii "'. This is a daemon-level operation "
                    ++ 226 ∷ 128 ∷ 148 ∷ ascii " the agent will be restarted with new keys.")),
        [],
      )
      else if contains_text lower (ascii "logs")
      then logs_report agent_name (R.read_agent_logs agent_name)
      else if contains_text lower (ascii "audit")
      then audit_report agent_name (R.query_audit agent_name)
      else (
        ascii "Task received for agent '"
            ++ (agent_name
                ++ (ascii "': \""
                    ++ (text
                        ++ ascii "\". Available commands: status, rotate keys, logs, audit."))),
        [],
      )

  -- The text of the task's first message, if its first part is one.
  unfoldable pub task_text : List Message → Text
  task_text [] = []
  task_text (m ∷ ms) = elim m.parts [
    | [] ↦ []
    | p ∷ ps ↦ elim p [ text_part t ↦ t | data_part d ↦ [] ]
  ]

  unfoldable pub answer_to : Supervisor → Option Text → Text → Text × List Artifact
  answer_to s none text = process_daemon_task s text
  answer_to s (some agent_name) text = process_agent_task s agent_name text

  unfoldable pub process_task : Supervisor → ℤ → Task → Option Text → Task
  process_task s now task target_agent =
      let answer = answer_to s target_agent (task_text task.messages) in
      record task {
        messages =
            task.messages
            ++ record { role = agent; parts = text_part answer.0 ∷ []; metadata = none } ∷ [];
        artifacts = answer.1;
        state = completed;
        updated_at = now;
      }
