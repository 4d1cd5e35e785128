-- ===== src/Protocol/Issue/Request.antt =====
-- The credential request of the holder: the same whether the agent accepts the offer by itself or its user
-- does (holder/handlers.go and data/issue_cred_rep.go).
use findy_agent.Common.{
  String, Bool, true, ◌≡◌, refl, sym, ap, ◌∙◌, Option, none, some, Option-cases, inl, inr,
}
use findy_agent.Common.Exec.{Error, Outcome, ok, err, pure, ◌>>=◌}
use findy_agent.Didcomm.{Msg}
use findy_agent.Psm.Rep.{IssueCredRep, issue_rep}
use findy_agent.Prot.World.{World, Env, add_rep}
use findy_agent.Std.{
  CredOffer, CredRequest, CredIssue, ack_body, as_ack, as_cred_issue, as_cred_offer,
  as_cred_request, first_attachment,
}
use findy_agent.Protocol.{Agent, Indy, Codec, new_state_key}
use findy_agent.Protocol.Issue.{
  preview_to_values, store_cred_preview, get_issue_cred_rep, build_cred_request, store_cred,
}
use findy_agent.Protocol.Issue.Holder.{
  with_cred_def_id, fill_if_request, fill_request, offer_handler, credential_transfer,
  credential_accepted, issue_handler,
}
use findy_agent.Protocol.Issue.Same.{HasReps, with_rep, add_rep_lem, stored_rep}

-- The ledger and the wallet make a request for this representative, and answer the same in every state.
pub record MakesRequest (indy : Indy) (agent : Agent) (rep : IssueCredRep) : Type 0 where
  pub secret : String
  pub has_secret : (w : World) → agent.master_secret w ≡ ok secret
  pub cred_def : String
  pub has_cred_def : (w : World) → indy.read_cred_def w agent.root_did rep.cred_def_id ≡ ok cred_def
  pub request : String
  pub meta : String
  pub has_request :
      (w : World)
      → indy.create_cred_req w agent.root_did rep.cred_offer cred_def secret ≡ ok (request, meta)

module _ (env : Env) (healthy : HasReps env) (indy : Indy) (codec : Codec) (agent : Agent) where
  abbrev with_made : IssueCredRep → String → String → IssueCredRep
  with_made rep cred_def meta = record rep { cred_def = cred_def; cred_req_meta = meta }

  build_lem :
      (rep : IssueCredRep) (m : MakesRequest indy agent rep) (w : World)
      → build_cred_request env indy agent (some rep) w
        ≡ (ok (m.request, with_made rep m.cred_def m.meta), w)
  unfolding build_cred_request
  build_lem rep m w =
      rw (build_cred_request, m.has_secret w, m.has_cred_def w, m.has_request w) refl

  -- The representative that the handler of an offer keeps, before it makes a request.
  abbrev pub offered_rep : CredOffer → String → Option String → IssueCredRep → IssueCredRep
  unfolding store_cred_preview
  offered_rep offer attach cred_def_id rep =
      store_cred_preview offer.credential_preview
        (record (with_cred_def_id cred_def_id (record rep { cred_offer = attach })) {
          values = preview_to_values codec offer.credential_preview;
        })

  -- What the handler of an offer does once the attachment is read.
  offer_handler_lem :
      (im om : Msg) (offer : CredOffer) (attach : String) (cred_def_id : Option String)
      (rep : IssueCredRep) (w : World)
      → as_cred_offer im.body ≡ some offer
      → get_issue_cred_rep env (new_state_key agent im.thread.id) w ≡ (ok (some rep), w)
      → first_attachment codec.b64 offer.offers_attach ≡ ok attach
      → codec.offer_cred_def_id attach ≡ ok cred_def_id
      → offer_handler env indy codec agent im om w
        ≡ (fill_if_request env indy codec agent
                (offered_rep offer attach cred_def_id rep)
                (as_cred_request om.body)
                om
              >>= λ filled. add_rep env (issue_rep filled.0) >>= λ _. pure (true, filled.1))
            w
  unfolding offer_handler offered_rep store_cred_preview
  offer_handler_lem im om offer attach cred_def_id rep w o g a c =
      rw (offer_handler, o, g, a, c) refl

  offered_key :
      (offer : CredOffer) (attach : String) (cred_def_id : Option String) (rep : IssueCredRep)
      → (offered_rep offer attach cred_def_id rep).key ≡ rep.key
  unfolding offered_rep store_cred_preview with_cred_def_id
  offered_key offer attach none rep = refl
  offered_key offer attach (some c) rep = refl

  -- An offer whose attachment is read, in a thread that has a representative under its own key, when the
  -- ledger and the wallet make a request and answer the same in every state: the request that goes out
  -- when the agent accepts by itself is the one that goes out when its user accepts in the same thread,
  -- after the handler has stored the offer; the answer is the same too.
  pub offer_same_request :
      (im om asked im' : Msg) (offer : CredOffer) (attach : String) (cred_def_id : Option String)
      (rep : IssueCredRep) (req : CredRequest) (w : World)
      → as_cred_offer im.body ≡ some offer
      → get_issue_cred_rep env (new_state_key agent im.thread.id) w ≡ (ok (some rep), w)
      → rep.key ≡ new_state_key agent im.thread.id
      → first_attachment codec.b64 offer.offers_attach ≡ ok attach
      → codec.offer_cred_def_id attach ≡ ok cred_def_id
      → MakesRequest indy agent (offered_rep offer attach cred_def_id rep)
      → as_cred_request om.body ≡ some req
      → as_cred_request asked.body ≡ none
      → im'.ready ≡ true
      → im'.thread.id ≡ im.thread.id
      → (credential_transfer env indy codec agent im' om
          (offer_handler env indy codec agent im asked w).1).0
        ≡ (offer_handler env indy codec agent im om w).0
  unfolding fill_if_request fill_request credential_transfer credential_accepted
  offer_same_request im om asked im' offer attach cred_def_id rep req w o g k a c m r n y t =
      let stored = offered_rep offer attach cred_def_id rep in
      let built = with_made stored m.cred_def m.meta in
      let at : stored.key ≡ new_state_key agent im.thread.id =
        offered_key offer attach cred_def_id rep ∙ k in
      rw
        (
          offer_handler_lem im om offer attach cred_def_id rep w o g a c,
          offer_handler_lem im asked offer attach cred_def_id rep w o g a c,
          r,
          n,
          fill_if_request,
          fill_request,
          build_lem stored m w,
          add_rep_lem env healthy (issue_rep stored) w,
          add_rep_lem env healthy (issue_rep built) w,
          credential_transfer,
          y,
          credential_accepted,
          t,
          sym at,
          stored_rep env healthy w stored,
          build_lem stored m (with_rep (issue_rep stored) w),
          add_rep_lem env healthy (issue_rep built) (with_rep (issue_rep stored) w),
        )
        refl

  -- What the wallet says of a credential, as the answer of the handler.
  abbrev pub stored_answer : Option Error → Msg → Outcome (Bool × Msg)
  stored_answer none om = ok (true, record om { body = ack_body "OK" })
  stored_answer (some e) om = err e

  issue_handler_lem :
      (im om : Msg) (issue : CredIssue) (rep : IssueCredRep) (cred status : String) (w : World)
      → as_cred_issue im.body ≡ some issue
      → get_issue_cred_rep env (new_state_key agent im.thread.id) w ≡ (ok (some rep), w)
      → first_attachment codec.b64 issue.credentials_attach ≡ ok cred
      → as_ack om.body ≡ some status
      → (issue_handler env indy codec agent im om w).0
        ≡ stored_answer (indy.store_cred w rep.cred_req_meta cred rep.cred_def) om
  unfolding issue_handler store_cred
  issue_handler_lem im om issue rep cred status w i g f s =
      elim (Option-cases (indy.store_cred w rep.cred_req_meta cred rep.cred_def)) [
        | inl n ↦ rw (issue_handler, i, g, f, store_cred, n, s) refl
        | inr (e, h) ↦ rw (issue_handler, i, g, f, store_cred, h) refl
      ]

  -- After an offer that the agent has accepted by itself, as above, a credential with a readable
  -- attachment in the same thread is given to the wallet with the definition and the metadata of the
  -- request that was sent: the answer is an ACK with the status OK if the wallet stores it, and its error
  -- if it does not.
  pub issue_stores_requested :
      (im om im' om' : Msg) (offer : CredOffer) (attach : String) (cred_def_id : Option String)
      (rep : IssueCredRep) (req : CredRequest) (issue : CredIssue) (cred status : String)
      (w : World)
      → as_cred_offer im.body ≡ some offer
      → get_issue_cred_rep env (new_state_key agent im.thread.id) w ≡ (ok (some rep), w)
      → rep.key ≡ new_state_key agent im.thread.id
      → first_attachment codec.b64 offer.offers_attach ≡ ok attach
      → codec.offer_cred_def_id attach ≡ ok cred_def_id
      → (m : MakesRequest indy agent (offered_rep offer attach cred_def_id rep))
      → as_cred_request om.body ≡ some req
      → im'.thread.id ≡ im.thread.id
      → as_cred_issue im'.body ≡ some issue
      → first_attachment codec.b64 issue.credentials_attach ≡ ok cred
      → as_ack om'.body ≡ some status
      → let accepted = (offer_handler env indy codec agent im om w).1 in
        (issue_handler env indy codec agent im' om' accepted).0
        ≡ stored_answer (indy.store_cred accepted m.meta cred m.cred_def) om'
  unfolding fill_if_request fill_request
  issue_stores_requested im om im' om' offer attach cred_def_id rep req issue cred status w o g k a
        c m r t i f s =
      let stored = offered_rep offer attach cred_def_id rep in
      let built = with_made stored m.cred_def m.meta in
      let at : stored.key ≡ new_state_key agent im.thread.id =
        offered_key offer attach cred_def_id rep ∙ k in
      rw
        (
          offer_handler_lem im om offer attach cred_def_id rep w o g a c,
          r,
          fill_if_request,
          fill_request,
          build_lem stored m w,
          add_rep_lem env healthy (issue_rep built) w,
        )
        (issue_handler_lem im' om' issue built cred status (with_rep (issue_rep built) w) i
          (ap (λ n. get_issue_cred_rep env (new_state_key agent n) (with_rep (issue_rep built) w)) t
            ∙ ap (λ key. get_issue_cred_rep env key (with_rep (issue_rep built) w)) (sym at)
            ∙ stored_rep env healthy w built)
          f s)
