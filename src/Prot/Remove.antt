-- ===== src/Prot/Remove.antt =====
-- RmPSM of agent/psm/db.go: a machine is removed, and first what its protocol stored beside it.
use findy_agent.Common.{String, Option, none, some, if◌then◌else◌, ◌==◌}
use findy_agent.Common.Table.{remove}
use findy_agent.Common.Exec.{Error, ok, err, pure, lift, ◌>>=◌, ◌>>◌}
use findy_agent.Pltype.{
  protocol_basic_message, protocol_connection, protocol_issue_credential, protocol_present_proof,
}
use findy_agent.Psm.{StateKey, key_eq, Psm, protocol}
use findy_agent.Psm.Rep.{
  Bucket, psm_bucket, basic_message_bucket, pairwise_bucket, issue_cred_bucket,
  present_proof_bucket, rep_place, place_eq,
}
use findy_agent.Prot.World.{World, Proc}

-- What the data base holds of the machines and of the other buckets.
abbrev emptied : World → Bucket → StateKey → World
emptied w psm_bucket key = record w { psms = remove w.psms key }
emptied w bucket key = record w { reps = remove w.reps (rep_place bucket key) }

-- rm; the first argument is the data base's failures.
unfoldable pub rm : (World → Bucket → StateKey → Option Error) → StateKey → Bucket → Proc (Unit {0})
rm fault key bucket w = elim (fault w bucket key) [
  | none ↦ (ok tt, emptied w bucket key)
  | some e ↦ (err e, w)
]

-- The bucket of a protocol, by its name.
unfoldable pub bucket_of : String → Option Bucket
bucket_of family =
    if family == protocol_basic_message
    then some basic_message_bucket
    else if family == protocol_connection
    then some pairwise_bucket
    else if family == protocol_issue_credential
    then some issue_cred_bucket
    else if family == protocol_present_proof
    then some present_proof_bucket
    else none

abbrev rm_rep :
    (World → Bucket → StateKey → Option Error) → StateKey → Option Bucket → Proc (Unit {0})
rm_rep fault key none = pure tt
rm_rep fault key (some bucket) = rm fault key bucket

-- RmPSM
unfoldable pub rm_psm : (World → Bucket → StateKey → Option Error) → Psm → Proc (Unit {0})
rm_psm fault p = do
  family ← lift (protocol p)
  rm_rep fault p.key (bucket_of family)
  rm fault p.key psm_bucket
