-- ===== src/Protocol/Issue/Same.antt =====
-- Whether the agent accepts by itself or its user accepts later, the same message goes out
-- (issuer/handlers.go and holder/handlers.go).
use mathlib.Core.List.{Perm}
use mathlib.Core.List.Perm
use findy_agent.Common.{String, true, ◌≡◌, refl, ap, ◌∙◌, none, some, map}
use findy_agent.Common.Table.{Table, get, put, get-put_self}
use findy_agent.Common.Exec.{ok, pure, ◌>>=◌}
use findy_agent.Didcomm.{Msg}
use findy_agent.Psm.{StateKey}
use findy_agent.Psm.Rep.{
  Rep, Bucket, place_eq, rep_place, rep_key, rep_type, IssueCredRep, issue_rep, issue_cred_bucket,
}
use findy_agent.Prot.World.{World, Env, add_rep, get_rep}
use findy_agent.Pltype.{issue_credential_credential_preview}
use findy_agent.Std.{
  CredPropose, CredOffer, as_cred_propose, as_cred_offer, cred_offer, new_offer_attach,
}
use findy_agent.Protocol.{Agent, Indy, Codec, CredDefAttr, new_state_key}
use findy_agent.Protocol.Issue.{
  preview_to_coded_values, new_preview_credential_raw, raw_attribute, the_issue_cred_rep,
  get_issue_cred_rep, issue_rep_of,
}
use findy_agent.Protocol.Issue.Issuer.{
  fill_offer, fill_if_offer, propose_handler, propose_transfer, offer_accepted,
}

-- The buckets of the representatives can be read and written.
pub record HasReps (env : Env) : Type 0 where
  pub finds : (w : World) (b : Bucket) (key : StateKey) → env.rep_find_fault w b key ≡ none
  pub adds : (w : World) (rep : Rep) → env.rep_add_fault w rep ≡ none

abbrev pub with_rep : Rep → World → World
with_rep rep w = record w { reps = put w.reps (rep_place (rep_type rep) (rep_key rep)) rep }

module _ (env : Env) (healthy : HasReps env) where
  pub add_rep_lem : (rep : Rep) (w : World) → add_rep env rep w ≡ (ok tt, with_rep rep w)
  unfolding add_rep rep_type rep_key
  add_rep_lem rep w = rw (add_rep, healthy.adds w rep) refl

  -- A stored representative is found under its key.
  pub stored_rep :
      (w : World) (rep : IssueCredRep)
      → get_issue_cred_rep env rep.key (with_rep (issue_rep rep) w)
        ≡ (ok (some rep), with_rep (issue_rep rep) w)
  unfolding get_issue_cred_rep get_rep rep_type rep_key issue_rep_of
  stored_rep w rep =
      rw
        (
          get_issue_cred_rep,
          get_rep,
          healthy.finds (with_rep (issue_rep rep) w) issue_cred_bucket rep.key,
          get-put_self w.reps (rep_place issue_cred_bucket rep.key) (issue_rep rep),
        )
        refl

  -- A representative is found in every later state that still has it.
  found_rep :
      (w : World) (rep : IssueCredRep)
      → get w.reps (rep_place issue_cred_bucket rep.key) ≡ some (issue_rep rep)
      → get_issue_cred_rep env rep.key w ≡ (ok (some rep), w)
  unfolding get_issue_cred_rep get_rep issue_rep_of
  found_rep w rep e =
      rw (get_issue_cred_rep, get_rep, healthy.finds w issue_cred_bucket rep.key, e) refl

module _ (env : Env) (healthy : HasReps env) (indy : Indy) (codec : Codec) (wa : Agent) where
  abbrev pub kept : Msg → CredPropose → String → IssueCredRep
  kept im prop offered = record {
    key = record { did = wa.my_did; nonce = im.thread.id };
    cred_def_id = prop.cred_def_id;
    cred_def = "";
    cred_offer = offered;
    cred_req_meta = "";
    values = preview_to_coded_values codec prop.credential_proposal;
    attributes = prop.credential_proposal.attributes;
  }

  -- What the handler does with a proposal that the wallet makes an offer for.
  pub propose_handler_lem :
      (im om : Msg) (prop : CredPropose) (offered : String) (w : World)
      → as_cred_propose im.body ≡ some prop
      → indy.create_offer w prop.cred_def_id ≡ ok offered
      → propose_handler env indy codec wa im om w
        ≡ (fill_if_offer codec offered
                (preview_to_coded_values codec prop.credential_proposal)
                (as_cred_offer om.body)
                om
              >>= λ filled. pure (true, filled))
            (with_rep (issue_rep (kept im prop offered)) w)
  unfolding propose_handler
  propose_handler_lem im om prop offered w p c =
      rw (propose_handler, p, c, add_rep_lem env healthy (issue_rep (kept im prop offered)) w) refl

  -- The offer that is made of the values in this state.
  abbrev made_offer :
      World → CredOffer → Table String CredDefAttr → CredPropose → String → CredOffer
  made_offer w offer array prop offered = record offer {
    comment = preview_to_coded_values codec prop.credential_proposal;
    credential_preview = record {
      type = issue_credential_credential_preview;
      attributes = map (raw_attribute codec) (codec.range_order w array);
    };
    offers_attach = new_offer_attach codec.b64 offered;
  }

  fill_offer_lem :
      (prop : CredPropose) (offer : CredOffer) (offered : String) (om : Msg)
      (array : Table String CredDefAttr) (w : World)
      → codec.read_values (preview_to_coded_values codec prop.credential_proposal) ≡ ok array
      → fill_offer codec offered (preview_to_coded_values codec prop.credential_proposal) offer om w
        ≡ (ok (record om { body = cred_offer (made_offer w offer array prop offered) }), w)
  unfolding fill_offer new_preview_credential_raw
  fill_offer_lem prop offer offered om array w r =
      rw (fill_offer, new_preview_credential_raw, r) refl

  asked_reps :
      (im asked : Msg) (prop : CredPropose) (offered : String) (w : World)
      → as_cred_propose im.body ≡ some prop
      → indy.create_offer w prop.cred_def_id ≡ ok offered
      → as_cred_offer asked.body ≡ none
      → (propose_handler env indy codec wa im asked w).1.reps
        ≡ put w.reps
            (rep_place issue_cred_bucket (kept im prop offered).key)
            (issue_rep (kept im prop offered))
  unfolding fill_if_offer rep_type rep_key
  asked_reps im asked prop offered w p c a =
      rw (propose_handler_lem im asked prop offered w p c, a) refl

  -- A proposal for which the wallet makes an offer, whose values are read back as a map that `range` goes
  -- through in some order, perhaps another one each time: when the agent accepts by itself the handler sends
  -- an offer, and when its user accepts in the same thread, in any later state that has the representatives
  -- that the handler left, one goes out with the same comment, attachment and type of preview, and with the
  -- same attributes in the preview, up to their order.
  pub propose_same_offer :
      (im om asked im' : Msg) (prop : CredPropose) (offer : CredOffer) (offered : String)
      (array : Table String CredDefAttr) (w w' : World)
      → as_cred_propose im.body ≡ some prop
      → indy.create_offer w prop.cred_def_id ≡ ok offered
      → codec.read_values (preview_to_coded_values codec prop.credential_proposal) ≡ ok array
      → ((v : World) (m : Table String CredDefAttr) → Perm (codec.range_order v m) m)
      → as_cred_offer om.body ≡ some offer
      → as_cred_offer asked.body ≡ none
      → im'.ready ≡ true
      → im'.thread.id ≡ im.thread.id
      → w'.reps ≡ (propose_handler env indy codec wa im asked w).1.reps
      → (now later : CredOffer) × ((propose_handler env indy codec wa im om w).0
          ≡ ok (true, record om { body = cred_offer now }))
        × ((propose_transfer env indy codec wa im' om w').0
            ≡ ok (true, record om { body = cred_offer later }))
        × (later.comment ≡ now.comment)
        × (later.offers_attach ≡ now.offers_attach)
        × (later.credential_preview.type ≡ now.credential_preview.type)
        × Perm later.credential_preview.attributes now.credential_preview.attributes
  unfolding propose_transfer offer_accepted new_state_key the_issue_cred_rep fill_if_offer
  propose_same_offer im om asked im' prop offer offered array w w' p c v orders o a r t same =
      let stored = with_rep (issue_rep (kept im prop offered)) w in
      let there : get w'.reps (rep_place issue_cred_bucket (kept im prop offered).key)
          ≡ some (issue_rep (kept im prop offered)) =
        ap (λ reps. get reps (rep_place issue_cred_bucket (kept im prop offered).key))
          (same ∙ asked_reps im asked prop offered w p c a)
        ∙ get-put_self w.reps (rep_place issue_cred_bucket (kept im prop offered).key)
            (issue_rep (kept im prop offered)) in
      (
        made_offer stored offer array prop offered,
        made_offer w' offer array prop offered,
        rw
            (
              propose_handler_lem im om prop offered w p c,
              o,
              fill_offer_lem prop offer offered om array stored v,
            )
            refl,
        rw
            (
              propose_transfer,
              r,
              offer_accepted,
              the_issue_cred_rep,
              t,
              found_rep env healthy w' (kept im prop offered) there,
              o,
              fill_offer_lem prop offer offered om array w' v,
            )
            refl,
        refl,
        refl,
        refl,
        Perm.map (raw_attribute codec)
            (Perm.trans (orders w' array) (Perm.symm (orders stored array))),
      )
