-- ===== src/Prot/Path.antt =====
-- The path of a machine through a run in which nothing outside fails (agent/prot/processor.go).
pub mod Steps
pub mod Settle
pub mod Exec
pub mod Run
pub mod Fails
pub mod Start
pub mod Continue
use findy_agent.Common.{
  ℕ, String, ◌≡◌, Option, none, some, List, [], ◌∷◌, ◌++◌, map, Bool, true, false, if◌then◌else◌,
  ◌||◌, not, ◌==◌,
}
use findy_agent.Common.Table.{Table, get}
use findy_agent.Common.Exec.{Outcome, ok}
use findy_agent.Pltype.{terminate}
use findy_agent.Didcomm.{Msg, MsgInit, create, new_msg, protocol_for_type, protocol_msg_for_type}
use findy_agent.Psm.{StateKey, key_eq, Psm, State, Task, first_state, last_state}
use findy_agent.Psm.Rep.{Rep}
use findy_agent.Psm.Sub.{SubState, received, decrypted, sending, waiting, ready_ack, ready_nack}
use findy_agent.Prot.World.{World, Env, Pipe, Pairwise, Posted}
use findy_agent.Prot.Processor.{Handler, Transition, exec_task}
use findy_agent.Prot.Ends.{Ends}

-- A payload type that `FieldAtInd` takes apart.
pub record IsTyped (t : String) : Type 0 where
  pub family : String
  pub msg : String
  pub has_family : protocol_for_type t ≡ ok family
  pub has_msg : protocol_msg_for_type t ≡ ok msg

-- The data base, the wallet and the network answer; a factory makes a message of the type that it is
-- asked for, and a protocol's creator keeps the header.
pub record IsHealthy (env : Env) : Type 0 where
  pub finds : (w : World) (key : StateKey) → env.find_fault w key ≡ none
  pub adds : (w : World) (m : Psm) → env.add_fault w m ≡ none
  pub sends : (w : World) (p : Pipe) (t : Task) (m : Msg) → env.send_fault w p t m ≡ none
  pub pairwise : World → String → Pairwise
  pub has_pairwise : (w : World) (c : String) → env.find_pw w c ≡ ok (some (pairwise w c))
  pub address : World → Pipe → String
  pub has_address : (w : World) (p : Pipe) → env.endpoint w p ≡ ok (address w p)
  pub creator : String → Task → Outcome Task
  pub has_creator : (p : String) → env.creators p ≡ some (creator p)
  pub creates : (p : String) (t : Task) → creator p t ≡ ok t
  pub factory_type :
      (t : String) (f : MsgInit → Msg)
      → env.factors t ≡ some f
      → (d : MsgInit) → (f d).type ≡ d.type

-- The machine at `key` has gone through these sub states, the first with this type.
pub record Trace (key : StateKey) (subs : List SubState) (type : String) (w : World) : Type 0 where
  pub machine : Psm
  pub at : get w.psms key ≡ some machine
  pub keyed : machine.key ≡ key
  pub first : State
  pub is_first : first_state machine ≡ some first
  pub typed : first.pl_type ≡ type
  pub through : map (λ (s : State). s.sub) machine.states ≡ subs

-- The last state of the machine at `key` has a payload of this type: what the machine waits for, if it waits.
pub record Last (key : StateKey) (type : String) (w : World) : Type 0 where
  pub machine : Psm
  pub at : get w.psms key ≡ some machine
  pub state : State
  pub is_last : last_state machine ≡ some state
  pub typed : state.pl_type ≡ type

-- The types of the messages that were sent, and whether each one was delivered.
abbrev pub sent_types : List Posted → List (String × Bool)
sent_types posted = map (λ (p : Posted). (p.payload.type, p.delivered)) posted

-- What is known of the messages that were sent: nothing, or all of them.
abbrev pub Log : Type 0
Log = Option (List (String × Bool))

abbrev pub Logged : Log → World → Type 0
Logged none w = Unit {0}
Logged (some types) w = sent_types w.posted ≡ types

abbrev pub log_sent : Log → String → Log
log_sent none type = none
log_sent (some types) type = some (types ++ (type, true) ∷ [])

-- Where the representatives are these, the handler answers these messages with `acked`, and leaves the
-- machines alone.
abbrev pub Answers : Bool → Handler → Msg → Msg → Table (ℕ × StateKey) Rep → Type 0
Answers acked h im om reps =
    (w : World)
    → w.reps ≡ reps
    → Ends (h im om) w (λ (r : Bool × Msg) w'. (r.0 ≡ acked) × (w'.psms ≡ w.psms))

-- The same of a handler that sends no message by itself.
abbrev pub AnswersQuietly : Log → Bool → Handler → Msg → Msg → Table (ℕ × StateKey) Rep → Type 0
AnswersQuietly log acked h im om reps =
    (w : World)
    → w.reps ≡ reps
    → Logged log w
    → Ends (h im om) w (λ (r : Bool × Msg) w'. (r.0 ≡ acked) × (w'.psms ≡ w.psms) × Logged log w')

-- The messages that ExecPSM makes for its handler.
abbrev pub exec_in : Env → Transition → Msg
exec_in env ts = new_msg (exec_task env ts).id ts.payload.type ts.payload

abbrev pub exec_out : Env → Transition → Msg
exec_out env ts = create env.factors (record {
  type = ts.send_next;
  aid = "";
  nonce = "";
  id = "";
  ready = false;
  thread = some ts.payload.thread;
})

-- Whether a message goes out: on ACK the next one of the transition, on NACK the NACK message if there
-- is one, and the next one otherwise.
abbrev pub exec_sends : Transition → Bool → Bool
exec_sends ts acked =
    if acked
    then not (ts.send_next == terminate)
    else not (ts.send_on_nack == "") || not (ts.send_next == terminate)

abbrev pub exec_final : Transition → Bool → SubState
exec_final ts acked =
    if acked then (if ts.waiting_next == terminate then ready_ack else waiting) else ready_nack

-- The sub states of a thread, from the received message to the end of the run.
abbrev pub exec_after : List SubState → Transition → Bool → List SubState
exec_after before ts acked =
    let so_far = (before ++ received ∷ []) ++ decrypted ∷ [] in
    if exec_sends ts acked
    then (so_far ++ sending ∷ []) ++ exec_final ts acked ∷ []
    else so_far ++ exec_final ts acked ∷ []

-- Those of a new thread.
abbrev pub exec_subs : Transition → Bool → List SubState
exec_subs ts acked = exec_after [] ts acked
