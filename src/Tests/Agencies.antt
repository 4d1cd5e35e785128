-- ===== src/Tests/Agencies.antt =====
-- A seed that becomes an agent, and a task of a protocol.
use findy_agent.Common.{
  true, String, ◌^◌, ltb, if◌then◌else◌, arith, ◌≡◌, refl, none, some, [], ◌∷◌, inr,
}
use findy_agent.Common.Exec.{ok}
use findy_agent.Pltype.{addressee, issue_type, ca_cred_request}
use findy_agent.Nonce.{nonce_num, nonce_to_str, parse_nonce, nonce_to_str-read}
use findy_agent.Prot.World.{panics}
use findy_agent.Access.{
  ManagedWallet, Access, by_send, by_receive, by_backup, moves, covered, send-covered,
}
use findy_agent.Psm.{Task}
use findy_agent.Endp.{is_in_endpoints, in_names}
use findy_agent.Agency.{
  Agency, Seeding, ca, is_handler_in_this_agency, build_handler_from_seed, build_seed,
  build_prepared, handler, checked_receiver,
}
use findy_agent.Agency.Again.{ca_again}
use findy_agent.Protocol.Registry.{protocol_type, type_id}
use findy_agent.Protocol.Registry.Types.{type_id-protocol_type}
use findy_agent.Common.Table.{string_eq, get, put, remove}

abbrev seeded : Agency String String
seeded = record { handlers = []; seeds = ("did-of-seed", "email") ∷ []; prepared = 0 }

abbrev seeding : Seeding String String String
seeding = record { prepare = λ n email. ok email; as_receiver = λ h. some h }

abbrev grown_up : Agency String String
grown_up = record { handlers = ("did-of-seed", "email") ∷ []; seeds = []; prepared = 1 }

ca-seeded : ca seeding "did-of-seed" seeded ≡ (ok "email", grown_up)
unfolding ca is_handler_in_this_agency build_handler_from_seed build_seed build_prepared handler
    checked_receiver is_in_endpoints in_names get put remove
ca-seeded = refl

no_agent_yet : get seeded.handlers "did-of-seed" ≡ none
unfolding get
no_agent_yet = refl

-- The agent that a seed has become is found again.
ca_again_example : ca seeding "did-of-seed" grown_up ≡ (ok "email", grown_up)
ca_again_example =
    ca_again seeding "did-of-seed" seeded grown_up "email" (inr no_agent_yet) ca-seeded

abbrev request_task : Task
request_task = record {
  id = "1";
  type = ca_cred_request;
  role = addressee;
  conn_id = "";
  user_action_type = "";
  sender = "";
  receiver = "";
}

request_type : type_id addressee issue_type ≡ some ca_cred_request
unfolding type_id
request_type = refl

-- What an addressee of the credential protocol starts is of that protocol.
type_id-protocol_type_example : protocol_type request_task ≡ ok issue_type
type_id-protocol_type_example =
    type_id-protocol_type addressee issue_type request_task (inr refl) request_type

-- A nonce below 2 ^ 63 is read back by both functions.
nonce_to_str-read_example :
    (nonce_num (nonce_to_str 907) ≡ 907)
    × (parse_nonce (nonce_to_str 907) ≡ (if ltb 907 (2 ^ 63) then 907 else 0))
nonce_to_str-read_example = nonce_to_str-read 907 (omega arith)

abbrev demo_wallet : ManagedWallet
demo_wallet = record { unique_id = "w"; id = "wallet"; key = "key"; handle = 1 }

abbrev demo_access : Access
demo_access = record { input = []; accessed = []; enabled = true; started = true; backups = [] }

-- A wallet that is received and then backed up.
send-covered_example :
    covered "w" (moves panics (by_send demo_wallet ∷ by_receive ∷ by_backup ∷ []) demo_access)
    ≡ true
send-covered_example =
    send-covered panics demo_wallet demo_access refl refl (ground arith)
      (by_receive ∷ by_backup ∷ [])
