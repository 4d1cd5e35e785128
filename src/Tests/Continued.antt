-- ===== src/Tests/Continued.antt =====
-- The path of ContinuePSM, at a machine that waits for the user.
use findy_agent.Common.{false, ◌≡◌, refl, some, [], ◌∷◌}
use findy_agent.Common.Table.{get}
use findy_agent.Pltype.{addressee, trust_ping_ping}
use findy_agent.Psm.{key_eq, Psm, State}
use findy_agent.Psm.Sub.{received, waiting}
use findy_agent.Prot.World.{World}
use findy_agent.Prot.Ends.{Ends}
use findy_agent.Prot.Path.{Trace}
use findy_agent.Tests.{demo_key, demo_task}

abbrev received_state : State
received_state = record {
  timestamp = 1;
  task = some demo_task;
  pl_type = trust_ping_ping;
  sub = received;
}

abbrev waiting_state : State
waiting_state = record {
  timestamp = 2;
  task = some demo_task;
  pl_type = trust_ping_ping;
  sub = waiting;
}

abbrev waiting_machine : Psm
waiting_machine = record {
  key = demo_key;
  started_by_us = false;
  role = addressee;
  conn_id = "conn";
  states = received_state ∷ waiting_state ∷ [];
}

abbrev asking_world : World
asking_world = record {
  psms = (demo_key, waiting_machine) ∷ [];
  clock = 2;
  reps = [];
  posted = [];
  spawned = [];
}

asking_at : get asking_world.psms demo_key ≡ some waiting_machine
unfolding get
asking_at = refl

abbrev asking_trace : Trace demo_key (received ∷ waiting ∷ []) trust_ping_ping asking_world
asking_trace = record {
  machine = waiting_machine;
  at = asking_at;
  keyed = refl;
  first = received_state;
  is_first = refl;
  typed = refl;
  through = refl;
}
