-- ===== src/Protocol/Typed.antt =====
-- The payload types of the credential and proof protocols are well-formed (agent/pltype/pl_types.go).
use findy_agent.Common.{refl, split}
use findy_agent.Pltype.{
  issue_credential_propose, issue_credential_offer, issue_credential_request,
  issue_credential_issue, issue_credential_ack, issue_credential_nack, issue_credential_user_action,
  present_proof_request, present_proof_presentation, present_proof_ack, present_proof_nack,
  present_proof_user_action,
}
use findy_agent.Didcomm.{protocol_for_type, protocol_msg_for_type, field_at_ind, field_of}
use findy_agent.Prot.Path.{IsTyped}

pub none-IsTyped : IsTyped ""
unfolding protocol_for_type protocol_msg_for_type field_at_ind
none-IsTyped = record { family = ""; msg = ""; has_family = refl; has_msg = refl }

pub issue_credential_propose-IsTyped : IsTyped issue_credential_propose
unfolding protocol_for_type protocol_msg_for_type field_at_ind field_of split
issue_credential_propose-IsTyped = record {
  family = "issue-credential";
  msg = "propose-credential";
  has_family = refl;
  has_msg = refl;
}

pub issue_credential_offer-IsTyped : IsTyped issue_credential_offer
unfolding protocol_for_type protocol_msg_for_type field_at_ind field_of split
issue_credential_offer-IsTyped = record {
  family = "issue-credential";
  msg = "offer-credential";
  has_family = refl;
  has_msg = refl;
}

pub issue_credential_request-IsTyped : IsTyped issue_credential_request
unfolding protocol_for_type protocol_msg_for_type field_at_ind field_of split
issue_credential_request-IsTyped = record {
  family = "issue-credential";
  msg = "request-credential";
  has_family = refl;
  has_msg = refl;
}

pub issue_credential_issue-IsTyped : IsTyped issue_credential_issue
unfolding protocol_for_type protocol_msg_for_type field_at_ind field_of split
issue_credential_issue-IsTyped = record {
  family = "issue-credential";
  msg = "issue-credential";
  has_family = refl;
  has_msg = refl;
}

pub issue_credential_ack-IsTyped : IsTyped issue_credential_ack
unfolding protocol_for_type protocol_msg_for_type field_at_ind field_of split
issue_credential_ack-IsTyped = record {
  family = "issue-credential";
  msg = "ack";
  has_family = refl;
  has_msg = refl;
}

pub issue_credential_nack-IsTyped : IsTyped issue_credential_nack
unfolding protocol_for_type protocol_msg_for_type field_at_ind field_of split
issue_credential_nack-IsTyped = record {
  family = "issue-credential";
  msg = "nack";
  has_family = refl;
  has_msg = refl;
}

pub issue_credential_user_action-IsTyped : IsTyped issue_credential_user_action
unfolding protocol_for_type protocol_msg_for_type field_at_ind field_of split
issue_credential_user_action-IsTyped = record {
  family = "issue-credential";
  msg = "user-action";
  has_family = refl;
  has_msg = refl;
}

pub present_proof_request-IsTyped : IsTyped present_proof_request
unfolding protocol_for_type protocol_msg_for_type field_at_ind field_of split
present_proof_request-IsTyped = record {
  family = "present-proof";
  msg = "request-presentation";
  has_family = refl;
  has_msg = refl;
}

pub present_proof_presentation-IsTyped : IsTyped present_proof_presentation
unfolding protocol_for_type protocol_msg_for_type field_at_ind field_of split
present_proof_presentation-IsTyped = record {
  family = "present-proof";
  msg = "presentation";
  has_family = refl;
  has_msg = refl;
}

pub present_proof_ack-IsTyped : IsTyped present_proof_ack
unfolding protocol_for_type protocol_msg_for_type field_at_ind field_of split
present_proof_ack-IsTyped = record {
  family = "present-proof";
  msg = "ack";
  has_family = refl;
  has_msg = refl;
}

pub present_proof_nack-IsTyped : IsTyped present_proof_nack
unfolding protocol_for_type protocol_msg_for_type field_at_ind field_of split
present_proof_nack-IsTyped = record {
  family = "present-proof";
  msg = "nack";
  has_family = refl;
  has_msg = refl;
}

pub present_proof_user_action-IsTyped : IsTyped present_proof_user_action
unfolding protocol_for_type protocol_msg_for_type field_at_ind field_of split
present_proof_user_action-IsTyped = record {
  family = "present-proof";
  msg = "user-action";
  has_family = refl;
  has_msg = refl;
}
