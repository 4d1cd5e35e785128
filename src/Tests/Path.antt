-- ===== src/Tests/Path.antt =====
-- The path of ExecPSM, at a received trust ping that is answered.
use findy_agent.Common.{String, true, ◌≡◌, refl, [], ◌∷◌, arith, split}
use findy_agent.Common.Table.{get}
use findy_agent.Didcomm.{Msg, field_at_ind, field_of, protocol_for_type, protocol_msg_for_type}
use findy_agent.Pltype.{trust_ping_ping, trust_ping_response}
use findy_agent.Psm.{key_eq}
use findy_agent.Prot.Processor.{start_psm, exec_psm, exec_task}
use findy_agent.Prot.Update.Step.{task_key}
use findy_agent.Prot.Ends.{Ends}
use findy_agent.Prot.Path.{IsTyped, IsHealthy, Trace, Answers, exec_in, exec_out, exec_subs}
use findy_agent.Prot.Path.Exec.{HasTypes}
use findy_agent.Prot.Path.Run.{exec_path}
use findy_agent.Prot.Path.Start.{start_path, start_final}
use findy_agent.Psm.Sub.{sending}
use findy_agent.Tests.{
  demo_initial, demo_task, demo_pipe, demo_env, demo_pairwise, demo_handler, demo_transition,
  empty_world,
}

pub demo_env-IsHealthy : IsHealthy demo_env
demo_env-IsHealthy = record {
  finds = λ w key. refl;
  adds = λ w m. refl;
  sends = λ w p t m. refl;
  pairwise = λ w c. demo_pairwise;
  has_pairwise = λ w c. refl;
  address = λ w p. "endpoint";
  has_address = λ w p. refl;
  creator = λ p t. findy_agent.Common.Exec.ok t;
  has_creator = λ p. refl;
  creates = λ p t. refl;
  factory_type = λ t f e d. absurd (ground arith);
}

pub ping-IsTyped : IsTyped trust_ping_ping
unfolding protocol_for_type protocol_msg_for_type field_at_ind field_of split
ping-IsTyped = record { family = "trust_ping"; msg = "ping"; has_family = refl; has_msg = refl }

pub response-IsTyped : IsTyped trust_ping_response
unfolding protocol_for_type protocol_msg_for_type field_at_ind field_of split
response-IsTyped = record {
  family = "trust_ping";
  msg = "ping_response";
  has_family = refl;
  has_msg = refl;
}

pub empty-IsTyped : IsTyped ""
unfolding protocol_for_type protocol_msg_for_type field_at_ind
empty-IsTyped = record { family = ""; msg = ""; has_family = refl; has_msg = refl }

pub demo-HasTypes : HasTypes demo_transition
demo-HasTypes = record {
  payload = ping-IsTyped;
  send_next = response-IsTyped;
  waiting_next = empty-IsTyped;
  send_on_nack = empty-IsTyped;
}

pub demo-Answers : (im om : Msg) → Answers true demo_handler im om []
demo-Answers im om w same = record { value = (true, om); returns = refl; post = (refl, refl) }

exec_path_example : Ends (exec_psm demo_env demo_transition) empty_world (λ _ w'.
    Trace
      (task_key "me" (exec_task demo_env demo_transition))
      (exec_subs demo_transition true)
      trust_ping_ping
      w')
unfolding get
exec_path_example =
    exec_path demo_env demo_transition demo_handler true empty_world demo_env-IsHealthy
      demo-HasTypes refl
      (demo-Answers (exec_in demo_env demo_transition) (exec_out demo_env demo_transition)) refl

start_path_example : Ends (start_psm demo_env demo_initial) empty_world (λ _ w'.
    Trace (task_key "me" demo_task) (sending ∷ start_final demo_initial ∷ []) trust_ping_ping w')
unfolding get
start_path_example =
    start_path demo_env demo_env-IsHealthy demo_initial ping-IsTyped response-IsTyped demo_pipe
      empty_world refl (λ key msg w. record { value = msg; returns = refl; post = refl }) refl
