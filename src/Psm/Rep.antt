-- ===== src/Psm/Rep.antt =====
-- The representatives of the protocols: what a protocol stores beside its machine, under the key of the
-- machine and in a bucket of its own (protocol/*/data, protocol/basicmessage/basic_message_rep.go).
use findy_agent.Common.{String, ℕ, Bool, List, ◌&&◌, eqb, ◌≡◌, ◌↔◌, true, arith, eqb_iff}
use findy_agent.Common.Table.{Eq}
use findy_agent.Psm.{StateKey, key_beq, key_beq_iff}
use findy_agent.Std.{CredAttribute, ProofAttribute}

pub record IssueCredRep : Type 0 where
  pub key : StateKey
  pub cred_def_id : String
  pub cred_def : String
  pub cred_offer : String
  pub cred_req_meta : String
  pub values : String
  pub attributes : List CredAttribute

pub record PresentProofRep : Type 0 where
  pub key : StateKey
  pub proof_req : String
  pub proof : String
  pub we_proposed : Bool
  pub attributes : List ProofAttribute

pub record BasicMessageRep : Type 0 where
  pub key : StateKey
  pub pw_name : String
  pub message : String
  pub send_timestamp : ℕ
  pub timestamp : ℕ
  pub sent_by_me : Bool
  pub delivered : Bool

pub data Rep : Type 0 where
  issue_rep : IssueCredRep → Rep
  proof_rep : PresentProofRep → Rep
  message_rep : BasicMessageRep → Rep

-- The buckets of agent/psm/db.go.
pub data Bucket : Type 0 where
  psm_bucket raw_pl_bucket pairwise_bucket basic_message_bucket issue_cred_bucket
        present_proof_bucket :
      Bucket

unfoldable pub bucket_id : Bucket → ℕ
bucket_id psm_bucket = 0
bucket_id raw_pl_bucket = 1
bucket_id pairwise_bucket = 2
bucket_id basic_message_bucket = 3
bucket_id issue_cred_bucket = 4
bucket_id present_proof_bucket = 5

-- `Key`
unfoldable pub rep_key : Rep → StateKey
rep_key (issue_rep r) = r.key
rep_key (proof_rep r) = r.key
rep_key (message_rep r) = r.key

-- `Type`
unfoldable pub rep_type : Rep → Bucket
rep_type (issue_rep r) = issue_cred_bucket
rep_type (proof_rep r) = present_proof_bucket
rep_type (message_rep r) = basic_message_bucket

abbrev pub place_beq : ℕ × StateKey → ℕ × StateKey → Bool
place_beq a b = eqb a.0 b.0 && key_beq a.1 b.1

pub place_beq_iff : (a b : ℕ × StateKey) → (place_beq a b ≡ true) ↔ (a ≡ b)
place_beq_iff a b = ground (arith, eqb_iff a.0 b.0, key_beq_iff a.1 b.1)

instance abbrev pub place_eq : Eq (ℕ × StateKey)
place_eq = record { beq = place_beq; beq_iff = place_beq_iff }

-- `buckets[bucketID]` and the key in it.
unfoldable pub rep_place : Bucket → StateKey → ℕ × StateKey
unfolding bucket_id
rep_place bucket key = (bucket_id bucket, key)
