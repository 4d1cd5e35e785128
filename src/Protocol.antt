-- ===== src/Protocol.antt =====
-- protocol/*: what the handlers of the protocols are given. The agent, the wallet and ledger library and
-- the JSON codec are parameters; each call of the library reads the state, so that it may answer otherwise
-- each time.
pub mod Simple
pub mod Issue
pub mod Proof
pub mod Tasks
pub mod Dispatch
pub mod Typed
pub mod Registry
use findy_agent.Common.{String, ℕ, Bool, Option, none, some, List, [], ◌∷◌, if◌then◌else◌}
use findy_agent.Common.Table.{Table, string_eq}
use findy_agent.Common.Exec.{Error, Outcome, Exec, ok, err, panicked}
use findy_agent.Pltype.{Role, unknown}
use findy_agent.Didcomm.{Msg}
use findy_agent.Psm.{Task, StateKey}
use findy_agent.Prot.World.{World, Env, Proc}
use findy_agent.Prot.Processor.{Handler, Transition}
use findy_agent.Std.{Base64, CredAttribute}

-- comm.Receiver: the calls that the handlers make. The worker agent of a cloud agent has its DID and its
-- wallet, and is not told apart from it.
pub record Agent : Type 0 where
  pub auto_permission : Bool
  pub my_did : String
  pub root_did : String
  pub master_secret : World → Outcome String

-- Agent.WDID: in the gRPC interface both DIDs are the same.
abbrev pub w_did : Agent → String
w_did agent = agent.my_did

-- comm.Packet, with the receiver.
pub record Packet : Type 0 where
  pub payload : Msg
  pub conn_id : String
  pub receiver : Agent

-- anoncreds.CredDefAttr
pub record CredDefAttr : Type 0 where
  pub raw : String
  pub encoded : String

-- The calls of findy-wrapper-go for credentials.
pub record Indy : Type 0 where
  -- IssuerCreateCredentialOffer of a credential definition
  pub create_offer : World → String → Outcome String
  -- ProverCreateCredentialReq of a DID, an offer, a credential definition and the master secret: the
  -- request, and what the wallet needs to store the credential.
  pub create_cred_req : World → String → String → String → String → Outcome (String × String)
  -- IssuerCreateCredential of an offer, a request and the values
  pub create_cred : World → String → String → String → Outcome String
  -- ProverStoreCredential of the request's metadata, the credential and its definition
  pub store_cred : World → String → String → String → Option Error
  -- ledger.ReadCredDef of a DID and an identifier
  pub read_cred_def : World → String → String → Outcome String

-- The JSON texts that the handlers write and read, and the encoding of an attribute's value.
pub record Codec : Type 0 where
  pub b64 : Base64
  pub encode_value : String → String
  pub attrs_json : List CredAttribute → String
  pub read_attrs : String → Outcome (List CredAttribute)
  pub values_json : Table String CredDefAttr → String
  pub read_values : String → Outcome (Table String CredDefAttr)
  -- The order in which `range` goes through a map: it may be another one each time.
  pub range_order : World → Table String CredDefAttr → Table String CredDefAttr
  -- The fields `cred_def_id` and `schema_id` of a credential offer.
  pub offer_cred_def_id : String → Outcome (Option String)
  pub offer_schema_id : String → Outcome String

-- `x := m.FieldObj().(*T)`: the wrong type panics.
abbrev pub must : {A : Type 0} → Option A → Outcome A
must none = panicked
must (some a) = ok a

-- The result of a call whose error is ignored: the pointer is nil.
abbrev ignored : {A : Type 0} → Outcome (Option A) → Outcome (Option A)
ignored (ok a) = ok a
ignored (err e) = ok none
ignored panicked = panicked

abbrev pub ignoring : {A : Type 0} → Proc (Option A) → Proc (Option A)
ignoring m w = let (r, w') = m w in (ignored r, w')

-- `defer err2.Catch()` in a function that returns nothing.
abbrev catch_outcome : Bool → Outcome (Unit {0}) → Outcome (Unit {0})
catch_outcome stops (ok tt) = ok tt
catch_outcome stops (err e) = ok tt
catch_outcome stops panicked = if stops then ok tt else panicked

unfoldable pub caught : Env → Proc (Unit {0}) → Proc (Unit {0})
caught env m w = let (r, w') = m w in (catch_outcome env.catches_panics r, w')

-- The same in a function that returns a pointer: the result is nil.
abbrev nil_outcome : {A : Type 0} → Bool → Outcome A → Outcome (Option A)
nil_outcome stops (ok a) = ok (some a)
nil_outcome stops (err e) = ok none
nil_outcome stops panicked = if stops then ok none else panicked

unfoldable pub caught_nil : {A : Type 0} → Env → Proc A → Proc (Option A)
caught_nil env m w = let (r, w') = m w in (nil_outcome env.catches_panics r, w')

-- psm.NewStateKey
unfoldable pub new_state_key : Agent → String → StateKey
new_state_key agent nonce = record { did = agent.my_did; nonce = nonce }

abbrev pub header_for : String → Task
header_for user_action = record {
  id = "";
  type = "";
  role = unknown;
  conn_id = "";
  user_action_type = user_action;
  sender = "";
  receiver = "";
}

-- The transition that a handler gives to ExecPSM; the fields that it leaves out are empty.
abbrev pub transition : Packet → String → String → String → String → Handler → Transition
transition packet send_next waiting_next send_on_nack user_action in_out = record {
  my_did = packet.receiver.my_did;
  conn_id = packet.conn_id;
  payload = packet.payload;
  send_next = send_next;
  waiting_next = waiting_next;
  send_on_nack = send_on_nack;
  in_out = some in_out;
  task_header = header_for user_action;
}
