-- ===== src/Agency.antt =====
-- agent/agency/handlers.go, the active receivers of agent/comm/receiver.go and `ca` of
-- grpc/server/server.go: the agents of the agency, and the seeds that become agents when they are asked
-- for the first time. An operation is one step, since it runs under the maps' locks.
pub mod Again
pub mod Register
use findy_agent.Common.{
  ℕ, ◌+◌, String, Bool, true, false, Option, none, some, if◌then◌else◌, length,
}
use findy_agent.Common.Table.{Table, string_eq, get, put, remove}
use findy_agent.Common.Exec.{
  Error, Outcome, ok, err, panicked, Exec, pure, ◌>>=◌, ◌>>◌, modify, gets,
}
use findy_agent.Endp.{Addr, is_in_endpoints, receiver_did, payload_transport_did}

-- The maps `handlers` and `seedHandlers`, and how often a seed was prepared.
pub record Agency (Handler Seed : Type 0) : Type 0 where
  pub handlers : Table String Handler
  pub seeds : Table String Seed
  pub prepared : ℕ

-- comm.SeedHandler, and the type assertion that a handler is a receiver.
pub record Seeding (Handler Seed Receiver : Type 0) : Type 0 where
  pub prepare : ℕ → Seed → Outcome Handler
  pub as_receiver : Handler → Option Receiver

-- A map has the key.
abbrev pub has_key : {A : Type 0} → Option A → Bool
has_key none = false
has_key (some a) = true

-- A type assertion without `ok`: it panics.
abbrev pub asserted_type : {A : Type 0} → Option A → Outcome A
asserted_type none = panicked
asserted_type (some a) = ok a

-- The active receivers: Add and Get.
unfoldable pub add_receiver : {R : Type 0} → Table String R → String → R → Table String R
add_receiver rs did r = put rs did r

unfoldable pub get_receiver : {R : Type 0} → Table String R → String → Option R
get_receiver rs did = get rs did

module _ {Handler Seed : Type 0} where
  unfoldable pub add_handler : String → Handler → Agency Handler Seed → Agency Handler Seed
  add_handler endpoint h s = record s { handlers = put s.handlers endpoint h }

  unfoldable pub add_seed_handler : String → Seed → Agency Handler Seed → Agency Handler Seed
  add_seed_handler endpoint seed s = record s { seeds = put s.seeds endpoint seed }

  unfoldable pub seed_handler_count : Agency Handler Seed → ℕ
  seed_handler_count s = length s.seeds

  unfoldable pub handler_count : Agency Handler Seed → ℕ
  handler_count s = length s.handlers

  -- Handler: nil for the static endpoints.
  unfoldable pub handler : String → Agency Handler Seed → Option Handler
  handler endpoint s = if is_in_endpoints endpoint then none else get s.handlers endpoint

module _ {Handler Seed Receiver : Type 0} (lib : Seeding Handler Seed Receiver) where
  -- The end of buildHandlerFromSeed: a seed that cannot be prepared stays a seed.
  unfoldable pub build_prepared :
      String → Outcome Handler → Agency Handler Seed → Outcome (Unit {0}) × Agency Handler Seed
  build_prepared did (ok h) s =
      (ok tt, record s { seeds = remove s.seeds did; handlers = put s.handlers did h })
  build_prepared did (err e) s = (ok tt, s)
  build_prepared did panicked s = (panicked, s)

  unfoldable pub build_seed :
      String → Option Seed → Agency Handler Seed → Outcome (Unit {0}) × Agency Handler Seed
  build_seed did none s = (ok tt, s)
  build_seed did (some seed) s =
      build_prepared did (lib.prepare s.prepared seed) (record s { prepared = s.prepared + 1 })

  -- buildHandlerFromSeed
  unfoldable pub build_handler_from_seed : String → Exec (Agency Handler Seed) (Unit {0})
  build_handler_from_seed did s = build_seed did (get s.seeds did) s

  -- IsHandlerInThisAgency
  unfoldable pub is_handler_in_this_agency : String → Exec (Agency Handler Seed) Bool
  is_handler_in_this_agency did = if is_in_endpoints did then pure true else (do
    still_seed ← gets (λ s. has_key (get s.seeds did))
    (if still_seed then build_handler_from_seed did else pure tt)
    gets (λ s. has_key (get s.handlers did)))

  -- agent
  unfoldable pub agent : String → Agency Handler Seed → Outcome Receiver
  agent did s = elim (handler did s) [
    | none ↦ panicked
    | some h ↦ asserted_type (lib.as_receiver h)
  ]

  -- RcvrCA
  unfoldable pub rcvr_ca : Addr → Agency Handler Seed → Outcome Receiver
  rcvr_ca cnx_addr s = agent (receiver_did cnx_addr) s

  -- ReceiverCA; an address that is not encrypted has no transport DID.
  unfoldable pub receiver_ca : Addr → Agency Handler Seed → Outcome Receiver
  receiver_ca cnx_addr s = elim (payload_transport_did cnx_addr) [
    | ok did ↦ agent did s
    | err e ↦ err e
    | panicked ↦ panicked
  ]

  -- The checked type assertion of `ca`; nil is no receiver.
  unfoldable pub checked_receiver : Option Handler → Outcome Receiver
  checked_receiver none = err (Error.external "no ca did")
  checked_receiver (some h) = elim (lib.as_receiver h) [
    | none ↦ err (Error.external "no ca did")
    | some r ↦ ok r
  ]

  -- `ca`, of the user that the token names.
  unfoldable pub ca : String → Exec (Agency Handler Seed) Receiver
  ca did = do
    is ← is_handler_in_this_agency did
    (if is
        then (λ s. (checked_receiver (handler did s), s))
        else (λ s. (err (Error.external "handler is not in this agency"), s)))
