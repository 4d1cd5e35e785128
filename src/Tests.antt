-- ===== src/Tests.antt =====
-- Concrete runs: an environment in which everything succeeds, a trust ping, and the theorems applied
-- to them.
mod Machines
mod Told
mod Places
mod Types
mod Path
mod Continued
mod Futures
mod Issuing
mod Proving
mod Agencies
use findy_agent.Common.{
  arith, String, ℕ, Bool, true, false, ◌≡◌, refl, Option, none, some, List, [], ◌∷◌,
}
use findy_agent.Common.Table.{get}
use findy_agent.Common.Exec.{Outcome, ok}
use findy_agent.Pltype.{Role, unknown, trust_ping_ping, trust_ping_response, terminate}
use findy_agent.Didcomm.{Msg, Thread}
use findy_agent.Std.{no_body}
use findy_agent.Psm.{StateKey, key_eq, Psm, Task}
use findy_agent.Psm.Sub.{SubState, waiting, ready_ack}
use findy_agent.Prot.World.{World, Env, Fault, panics, Pairwise, Pipe}
use findy_agent.Prot.Processor.{Handler, Transition, Again, Initial}
use findy_agent.Prot.Update.{update_psm}
use findy_agent.Prot.History.{AllHistories}
use findy_agent.Prot.History.Update.{update_psm-AllHistories}

abbrev pub demo_pairwise : Pairwise
demo_pairwise = record { id = "conn"; my_did = "me"; their_did = "they" }

abbrev pub demo_pipe : Pipe
demo_pipe = record { in_did = "me"; out_did = "they" }

abbrev pub demo_env : Env
demo_env = record {
  find_fault = λ w key. none;
  add_fault = λ w m. none;
  rep_find_fault = λ w b key. none;
  rep_add_fault = λ w rep. none;
  elapse = λ w. 1;
  uuid = λ w. "uuid";
  find_pw = λ w conn_id. ok (some demo_pairwise);
  pw_pipe = λ w conn_id. ok demo_pipe;
  assertion = panics;
  catches_panics = true;
  endpoint = λ w p. ok "endpoint";
  send_fault = λ w p t m. none;
  factors = λ t. none;
  creators = λ p. some (λ t. ok t);
}

abbrev pub empty_world : World
empty_world = record { psms = []; clock = 0; reps = []; posted = []; spawned = [] }

abbrev pub demo_task : Task
demo_task = record {
  id = "thread";
  type = trust_ping_ping;
  role = unknown;
  conn_id = "conn";
  user_action_type = "";
  sender = "";
  receiver = "";
}

abbrev pub demo_msg : Msg
demo_msg = record {
  type = trust_ping_ping;
  aid = "message";
  thread = record { id = "thread"; pid = "" };
  sub_level_id = "thread";
  ready = true;
  body = no_body;
}

abbrev pub demo_key : StateKey
demo_key = record { did = "me"; nonce = "thread" }

abbrev pub demo_handler : Handler
demo_handler im om w = (ok (true, om), w)

abbrev pub demo_transition : Transition
demo_transition = record {
  my_did = "me";
  conn_id = "conn";
  payload = demo_msg;
  send_next = trust_ping_response;
  waiting_next = terminate;
  send_on_nack = "";
  in_out = some demo_handler;
  task_header = demo_task;
}

abbrev pub demo_again : Again
demo_again = record {
  worker_did = "me";
  in_msg = demo_msg;
  send_next = trust_ping_response;
  waiting_next = terminate;
  send_on_nack = "";
  transfer = demo_handler;
}

abbrev pub demo_initial : Initial
demo_initial = record {
  send_next = trust_ping_ping;
  waiting_next = trust_ping_response;
  worker_did = "me";
  task = demo_task;
  setup = λ key msg w. (ok msg, w);
}

pub empty_world-AllHistories : AllHistories empty_world
unfolding get
empty_world-AllHistories = record { at = λ key m g. absurd (ground arith) }
