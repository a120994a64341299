-- ===== src/A2a/Tests.antt =====
-- A daemon without agents that is asked for its status.
use grokingclawid.License.{to_lowercase}
use grokingclawid.Common.{
  Entries, [], agent_not_found, ascii, err, insert, none, ok, or_else, pos, refl, some,
  strip_prefix, text_eq, true, ℕ, ◌↔◌, ◌∷◌, ◌≡◌,
}
use grokingclawid.Crypto.Toy.{toy}
use grokingclawid.Supervisor.{Supervisor, list_agents}
use grokingclawid.A2a.{
  MessageRole, Moment, Reports, SendParams, Task, answer_body, answer_to, artifact_of, completed,
  contains_text, data_part, dispatch, find_text, first_of, handle_a2a_rpc, handle_message_send,
  handle_tasks_cancel, handle_tasks_get, message_send, new_task, part_text, process_daemon_task,
  process_task, rpc_error, send_message, send_task, target_known, task_result, task_text,
  text_content, text_part,
}
use grokingclawid.A2a.Done.{
  IsDone, Reachable, Step, handle_message_send-get, handle_tasks_cancel-error,
}
use grokingclawid.A2a.Signer.{IsSignedByAgent, verify_request_signature_iff}
use grokingclawid.A2a.Signed.{
  HttpRequest, readable, signature_b64, strip_colon, verify_request_signature,
}

abbrev nobody : Supervisor
nobody = record { agents = []; agents_dir = []; proxies = [] }

abbrev reports : Reports
reports = record {
  daemon_status = λ agents. ascii "running";
  agent_list = λ agents. ascii "none";
  agent_info = λ info. [];
  status_text = λ status. [];
  read_agent_logs = λ name. err agent_not_found;
  query_audit = λ name. err agent_not_found;
  error_text = λ why. ascii "error";
}

abbrev moment : Moment
moment = record { supervisor = nobody; new_v4 = ascii "u"; now = pos 5; finished = pos 6 }

abbrev question : SendParams
question = record {
  agent = none;
  target_agent = none;
  message =
      some (some (record { part_type = some (ascii "text"); text = some (ascii "Status") } ∷ []));
  id = some (ascii "t1");
  context_id = none;
}

abbrev answered : Task
answered = record {
  id = ascii "t1";
  context_id = none;
  state = completed;
  messages =
      record {
        role = MessageRole.user;
        parts = text_part (ascii "Status") ∷ [];
        metadata = some (true, pos 5);
      }
      ∷ record {
        role = MessageRole.agent;
        parts = text_part (ascii "Daemon status retrieved.") ∷ [];
        metadata = none;
      }
      ∷ [];
  artifacts =
      record { name = some (ascii "daemon-status"); parts = data_part (ascii "running") ∷ [] } ∷ [];
  created_at = pos 5;
  updated_at = pos 6;
}

sends :
    (handle_a2a_rpc reports true moment (ok true) (some (message_send question)) []).0
    ≡ (ascii "t1", answered) ∷ []
unfolding handle_a2a_rpc answer_body dispatch handle_message_send send_message send_task
    target_known first_of new_task or_else text_content find_text part_text process_task answer_to
    task_text process_daemon_task contains_text strip_prefix to_lowercase text_eq list_agents
    artifact_of insert
sends = refl

reached_one :
    Reachable reports
      (handle_a2a_rpc reports true moment (ok true) (some (message_send question)) []).0
reached_one =
    Reachable.next Reachable.none_yet
      (Step.called true moment (ok true) (some (message_send question)))

handle_tasks_cancel-error_example :
    Entries IsDone
      (handle_a2a_rpc reports true moment (ok true) (some (message_send question)) []).0
    × (code : ℕ) × (handle_tasks_cancel
          (pos 9)
          (some (ascii "t1"))
          (handle_a2a_rpc reports true moment (ok true) (some (message_send question)) []).0
        ≡ (
          (handle_a2a_rpc reports true moment (ok true) (some (message_send question)) []).0,
          rpc_error code,
        ))
handle_tasks_cancel-error_example =
    handle_tasks_cancel-error reports
      ((handle_a2a_rpc reports true moment (ok true) (some (message_send question)) []).0) (pos 9)
      (some (ascii "t1")) reached_one

handle_message_send-get_example :
    (t : Task) × ((handle_message_send reports moment true question []).1 ≡ task_result t)
    × (t.state ≡ completed)
    × (handle_tasks_get (some (ascii "t1")) (handle_message_send reports moment true question []).0
        ≡ task_result t)
    × (handle_tasks_get (some (ascii "t2")) (handle_message_send reports moment true question []).0
        ≡ handle_tasks_get (some (ascii "t2")) [])
unfolding target_known first_of text_eq or_else
handle_message_send-get_example =
    handle_message_send-get reports moment true question
      (some (record { part_type = some (ascii "text"); text = some (ascii "Status") } ∷ []))
      (ascii "t2") [] refl refl refl

abbrev http : HttpRequest
http = record {
  method = ascii "POST";
  uri = ascii "/a2a";
  authority = none;
  host = some (readable (ascii "localhost"));
  signature = some (readable (ascii "sig1=:c2ln:"));
  signature_input = some (readable (ascii "sig1=()"));
  agent = some (readable (ascii "bot"));
  pq_signature = none;
}

strips : signature_b64 (ascii "sig1=:c2ln:") ≡ some (ascii "c2ln")
unfolding signature_b64 strip_prefix strip_colon
strips = refl

verify_request_signature_iff_example :
    (verify_request_signature toy nobody [] http ≡ ok true) ↔ IsSignedByAgent toy nobody [] http
verify_request_signature_iff_example = verify_request_signature_iff toy nobody [] http
