-- ===== src/Tests/Told.antt =====
-- The theorems on notifications, at a waiting machine and a station with a controller.
use findy_agent.Common.{true, false, ◌≡◌, refl, none, some, [], ◌∷◌, ◌++◌, last?, arith}
use findy_agent.Common.Table.{get, put}
use findy_agent.Common.Exec.{ok}
use findy_agent.Pltype.{unknown, ca_notify_user_action}
use findy_agent.Psm.Sub.{waiting}
use findy_agent.Prot.World.{EndingInfo}
use findy_agent.Prot.Notify.{trigger_end, all_states, info_key}
use findy_agent.Prot.Notify.Told.{told, to_tell, told-trigger_end, trigger_end-last}
use findy_agent.Bus.{
  AgentKey, agent_key_eq, Notify, Station, agent_listen, found_listener, agent_broadcast,
  check_buffered, agent_add_listener, deliveries,
}
use findy_agent.Bus.Delivery.{IsWaiting, unheard, all_deliveries, agent_broadcast_late}

abbrev demo_info : EndingInfo
demo_info = record {
  sub_state = waiting;
  nonce = "thread";
  me_did = "me";
  pw_name = "conn";
  pl_type = "";
  timestamp = 5;
  pending_user_action = true;
  started_by_us = false;
  user_action_type = ca_notify_user_action;
  protocol_family = "issue-credential";
  role = unknown;
}

trigger_end-last_example :
    last? (trigger_end (λ did. true) "uuid" demo_info)
    ≡ some (all_states (info_key demo_info) waiting)
trigger_end-last_example = trigger_end-last (λ did. true) "uuid" demo_info

told-trigger_end_example : told (trigger_end (λ did. true) "uuid" demo_info) ≡ to_tell demo_info
told-trigger_end_example = told-trigger_end (λ did. true) "uuid" demo_info refl (omega arith)

abbrev demo_notify : Notify
demo_notify = record { key = record { agent_did = "agent"; client_id = "" }; id = "uuid" }

abbrev demo_listener : AgentKey
demo_listener = record { agent_did = "agent"; client_id = "client" }

-- A notification waits, and only another agent's controller listens.
abbrev demo_station : Station
demo_station = record {
  listeners = (record { agent_did = "other"; client_id = "client" }, 1) ∷ [];
  buffer = demo_notify ∷ [];
  sent = [];
  closed = [];
}

demo_station-IsWaiting : IsWaiting demo_station
unfolding found_listener
demo_station-IsWaiting = (refl, tt)

-- A notification for the demo listener, which comes late.
abbrev late_notify : Notify
late_notify = record { key = demo_listener; id = "late" }

abbrev joined : Station
joined =
    check_buffered (record demo_station { listeners = put demo_station.listeners demo_listener 2 })

late_unheard : found_listener demo_station.listeners late_notify ≡ false
unfolding found_listener
late_unheard = refl

late_new : get demo_station.listeners demo_listener ≡ none
unfolding get
late_new = refl

late_added : agent_add_listener agent_listen demo_listener 2 demo_station ≡ ok joined
unfolding agent_add_listener get
late_added = refl

agent_broadcast_late_example :
    let late = agent_broadcast agent_listen (λ s. joined) demo_station late_notify in
    (get late.listeners demo_listener ≡ some 2)
    × (found_listener late.listeners late_notify ≡ true)
    × (late.buffer ≡ unheard late.listeners demo_station.buffer ++ late_notify ∷ [])
    × (late.sent ≡ demo_station.sent ++ all_deliveries late.listeners demo_station.buffer)
    × ((check_buffered late).sent ≡ late.sent ++ deliveries late.listeners late_notify)
agent_broadcast_late_example =
    agent_broadcast_late (λ s. joined) demo_station joined late_notify demo_listener 2 late_unheard
      late_new refl late_added refl
