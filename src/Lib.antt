-- ===== src/Lib.antt =====
-- findy-agent: an agency of Aries agents. A message that arrives for an agent is given to the handler
-- of its protocol, which drives a protocol state machine (PSM); every change of a machine is saved in
-- a data base and told to the agent's controllers.
--
-- Common: the shared names, tables for Go's maps, and code that reads and writes a state and that
--   returns, fails with an error or panics (Common/Exec: a deferred error handler is `on_error`).
-- Pltype: the payload types of agent/pltype/pl_types.go that the other parts use, under their names in snake case.
-- Didcomm: the parts of a message type (FieldAtInd of agent/didcomm/payload.go), messages and payloads
--   (agent/aries/msg.go and payload.go).
-- Psm: the sub states, their rules and the history of a machine (agent/psm/psm.go). A sub state is a
--   number whose flags are those of the source; a complement is that of 64 bits.
-- Prot: the processor. Prot/World holds its state: the machines as a table, the clock, the messages that
--   were sent and the goroutines that were started, in order. `Env` holds the calls whose code is not
--   in the repository or that go outside: the wallet, the network, the failures of the data base, the
--   message factories and the creators of tasks; each is a function of the state, so that it may answer
--   otherwise each time. Prot/Update is UpdatePSM, and Prot/Archive is AddAndSetFlagUpdatePSM
--   (agent/prot/update.go); Prot/Processor is StartPSM, ExecPSM and ContinuePSM (agent/prot/processor.go);
--   Prot/Notify is triggerEnd, notifyArchiving and NotifyEdge; Prot/Status is what the gRPC service tells
--   of a machine (grpc/server/psm.go). Prot/Keeps, Prot/Runs and Prot/Ends have the rules for proofs;
--   Prot/History, Prot/Frozen and Prot/Path have the theorems.
-- Bus: the stations that carry notifications to controllers, with their buffer (agent/bus/event.go). Adding
--   and removing a controller are one step under the station's lock. A broadcast that nobody hears lets the
--   lock go before it buffers its notification, and `others` is what runs in between; checkBuffered, which
--   also lets it go, is run with nobody in between. A channel is a name, and what is sent to it is listed.
-- Endp: endpoint addresses (agent/endp/endpoint.go); parsing a URL and a UUID are parameters.
-- Wallet: the manager of open wallets (agent/ssi/walletmgr.go); opening and closing are parameters. A
--   wallet that fails to close stays open outside the manager's table.
-- Cache: the DIDs that an agent keeps in memory (agent/ssi/cache.go).
-- Station: who listens to the states of one machine (agent/bus/station.go).
-- Future: a result that is read from a channel once (agent/async/future.go).
-- Std: the messages of the protocols (std/issuecredential, std/presentproof, std/basicmessage), their
--   factories and their attachments; base64 is a parameter.
-- Psm/Rep, Prot/Reps: what a protocol stores beside its machine (protocol/*/data), in buckets of the data
--   base; Prot/Remove is RmPSM (agent/psm/db.go).
-- Protocol: the protocols on top of the processor. Protocol itself has what their handlers are given: the
--   agent (`Agent`), the wallet and ledger library (`Indy`), the JSON codec (`Codec`), and `defer
--   err2.Catch()` (`caught`). Protocol/Issue is protocol/issuecredential: Issuer and Holder have the
--   handlers and what goes on after the user's answer, Preview the attributes of a credential. Protocol/Proof
--   is protocol/presentproof: Request makes a proof's request, Fetch searches the wallet for credentials,
--   Create builds and verifies a proof, Prover and Verifier have the handlers. Protocol/Simple is
--   protocol/trustping and protocol/basicmessage. Protocol/Tasks makes a protocol's task from what a client
--   asks for; Protocol/Dispatch is agent/comm/proc.go with the tables of handlers and continuators;
--   Protocol/Registry is the registries of agent/prot/processor.go with the service calls that use them
--   (grpc/server/psm.go, grpc/server/server.go): a goroutine that is started is a result.
-- Agency: the agents and the seeds that become agents (agent/agency/handlers.go), and in Agency/Register the
--   register and its file (agent/utils/register.go, agent/agency/register.go).
-- Access: the wallets to back up (agent/accessmgr/accessmgr.go); the manager's goroutine is a step that
--   receives one wallet.
-- Nonce: nonces and their texts (agent/utils/nonce.go); Common/Numbers has the part of strconv.
-- Tests: concrete runs, and the theorems applied to them.
--
-- A loop over a list is a recursion over that list. The search for credentials (Protocol/Proof/Fetch) asks
-- the library for a batch until one is not full. It runs on fuel, and `none` is a loop that ran out of it;
-- for a library that goes through a finite list of credentials twice the fuel has to exceed what is left of
-- the list, since a full batch is of two. The digits of a number are written with the number as fuel. Texts are lists of
-- characters; where the source measures bytes, so does the model (Endp.byte_length). Whether `err2.Catch`
-- stops a panic, and what a failed assertion does, are fields of `Env`, so that each theorem holds for both.
-- Logging is left out.
--
-- Not modelled: the connection protocol, the rest of the gRPC and HTTP servers, the secure pipe, DID methods,
-- storage, the settings, the encryption of the data base, the command line, and what the wallet and ledger
-- libraries compute, which are parameters.
pub mod Common
pub mod Pltype
pub mod Std
pub mod Didcomm
pub mod Psm
pub mod Prot
pub mod Bus
pub mod Endp
pub mod Wallet
pub mod Cache
pub mod Station
pub mod Future
pub mod Protocol
pub mod Agency
pub mod Nonce
pub mod Access
mod Tests
