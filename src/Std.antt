-- ===== src/Std.antt =====
-- std/: the Aries messages that the protocols exchange, as the structures that a message carries. The
-- identifier, the type and the thread of a message are fields of the message itself.
pub mod Factories
use findy_agent.Common.{String, ℕ, Bool, List, [], ◌∷◌, Option, none, some}
use findy_agent.Common.Exec.{Outcome, panicked}

-- decorator.Attachment, of which the code sets the identifier, the MIME type and the base64 data.
pub record Attachment : Type 0 where
  pub id : String
  pub mime_type : String
  pub base64 : String

-- encoding/base64
pub record Base64 : Type 0 where
  pub encode : String → String
  pub decode : String → Outcome String

abbrev attachment : Base64 → String → String → List Attachment
attachment b64 id bytes =
    record { id = id; mime_type = "application/json"; base64 = b64.encode bytes } ∷ []

-- NewOfferAttach, NewRequestAttach and NewCredentialsAttach
unfoldable pub new_offer_attach : Base64 → String → List Attachment
new_offer_attach b64 offer = attachment b64 "libindy-cred-offer-0" offer

unfoldable pub new_request_attach : Base64 → String → List Attachment
new_request_attach b64 attach = attachment b64 "libindy-cred-request-0" attach

unfoldable pub new_credentials_attach : Base64 → String → List Attachment
new_credentials_attach b64 attach = attachment b64 "libindy-cred-0" attach

-- NewRequestPresentation
unfoldable pub new_request_presentation : Base64 → String → String → List Attachment
new_request_presentation b64 id proof_req = attachment b64 id proof_req

-- NewPresentationAttach
unfoldable pub new_presentation_attach : Base64 → String → String → List Attachment
new_presentation_attach b64 id proof_req = attachment b64 id proof_req

-- The data of the first attachment: the index 0 of an empty slice panics.
unfoldable pub first_attachment : Base64 → List Attachment → Outcome String
first_attachment b64 [] = panicked
first_attachment b64 (a ∷ attachments) = b64.decode a.base64

-- didcomm.CredentialAttribute; `Attribute` of a preview has the same fields.
pub record CredAttribute : Type 0 where
  pub name : String
  pub value : String
  pub mime_type : String

pub record PreviewCredential : Type 0 where
  pub type : String
  pub attributes : List CredAttribute

pub record CredPropose : Type 0 where
  pub comment : String
  pub credential_proposal : PreviewCredential
  pub cred_def_id : String

pub record CredOffer : Type 0 where
  pub comment : String
  pub credential_preview : PreviewCredential
  pub offers_attach : List Attachment

pub record CredRequest : Type 0 where
  pub comment : String
  pub requests_attach : List Attachment

pub record CredIssue : Type 0 where
  pub comment : String
  pub credentials_attach : List Attachment

-- didcomm.ProofAttribute, without the predicate, which no code sets.
pub record ProofAttribute : Type 0 where
  pub id : String
  pub name : String
  pub cred_def_id : String
  pub value : String

-- presentproof.Predicate
pub record Predicate : Type 0 where
  pub name : String
  pub predicate : String
  pub threshold : String

-- presentproof.Attribute: the fields that the code reads or sets.
pub record PresentAttribute : Type 0 where
  pub name : String
  pub cred_def_id : String

-- presentproof.Preview
pub record Preview : Type 0 where
  pub type : String
  pub attributes : List PresentAttribute
  pub predicates : List Predicate

pub record ProofPropose : Type 0 where
  pub comment : String
  pub presentation_proposal : Option Preview

pub record ProofRequestMsg : Type 0 where
  pub comment : String
  pub request_presentations : List Attachment

pub record Presentation : Type 0 where
  pub comment : String
  pub presentation_attaches : List Attachment

-- basicmessage.Basicmessage; a time is its nanoseconds.
pub record BasicMessage : Type 0 where
  pub content : String
  pub sent_time : ℕ

-- What `FieldObj` gives: the structure that a message is of.
pub data Body : Type 0 where
  no_body : Body
  cred_propose : CredPropose → Body
  cred_offer : CredOffer → Body
  cred_request : CredRequest → Body
  cred_issue : CredIssue → Body
  ack_body problem_report : String → Body
  proof_propose : ProofPropose → Body
  proof_request : ProofRequestMsg → Body
  presentation : Presentation → Body
  basic_message : BasicMessage → Body

-- `x, ok := m.FieldObj().(*T)` for each T.
abbrev pub as_cred_propose : Body → Option CredPropose
as_cred_propose (cred_propose p) = some p
as_cred_propose _ = none

abbrev pub as_cred_offer : Body → Option CredOffer
as_cred_offer (cred_offer p) = some p
as_cred_offer _ = none

abbrev pub as_cred_request : Body → Option CredRequest
as_cred_request (cred_request p) = some p
as_cred_request _ = none

abbrev pub as_cred_issue : Body → Option CredIssue
as_cred_issue (cred_issue p) = some p
as_cred_issue _ = none

abbrev pub as_ack : Body → Option String
as_ack (ack_body p) = some p
as_ack _ = none

abbrev pub as_proof_propose : Body → Option ProofPropose
as_proof_propose (proof_propose p) = some p
as_proof_propose _ = none

abbrev pub as_proof_request : Body → Option ProofRequestMsg
as_proof_request (proof_request p) = some p
as_proof_request _ = none

abbrev pub as_presentation : Body → Option Presentation
as_presentation (presentation p) = some p
as_presentation _ = none

abbrev pub as_basic_message : Body → Option BasicMessage
as_basic_message (basic_message p) = some p
as_basic_message _ = none
