-- ===== src/Prot/Path/Continue.antt =====
-- The path of a whole run of ContinuePSM on a machine that waits.
use findy_agent.Common.{Bool, not, List, [], ◌∷◌, ◌++◌, if◌then◌else◌, ◌==◌}
use findy_agent.Pltype.{terminate}
use findy_agent.Psm.{key_eq, Psm}
use findy_agent.Psm.Sub.{SubState, ack, sending}
use findy_agent.Prot.World.{World}
use findy_agent.Prot.Processor.{Again, Verdict, judge}
use findy_agent.Prot.Ends.{Ends}
use findy_agent.Prot.Path.Settle.{final_of}

-- What ContinuePSM knows before the user's answer.
abbrev pub again_verdict : Again → Verdict
again_verdict shift = record {
  send_back = not (shift.send_next == terminate);
  pl_type = shift.send_next;
  is_last = shift.waiting_next == terminate;
  ack_flag = ack;
}

-- What it knows after the answer.
abbrev pub answered : Again → Bool → Verdict
answered shift acked = judge acked shift.send_on_nack (again_verdict shift)

-- The sub states that a continued machine goes through.
abbrev pub continued : Again → Bool → List SubState → List SubState
continued shift acked subs =
    let v = answered shift acked in
    if v.send_back then (subs ++ sending ∷ []) ++ final_of v ∷ [] else subs ++ final_of v ∷ []
