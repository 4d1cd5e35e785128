-- ===== src/Protocol/Issue/Flow.antt =====
-- The issuer's machine through a run of its handlers, when nothing outside fails (issuer/handlers.go).
use mathlib.Core.List.{append-nil}
use findy_agent.Common.{
  String, Bool, true, false, ◌≡◌, refl, sym, ◌∙◌, ap, Option, none, some, List, [], ◌∷◌, ◌++◌, map,
  if◌then◌else◌,
}
use findy_agent.Common.Table.{Table, get, string_eq}
use findy_agent.Common.Exec.{ok, pure, ◌>>=◌}
use findy_agent.Pltype.{
  nothing, issue_credential_offer, issue_credential_request, issue_credential_user_action,
  issue_credential_nack, issue_credential_credential_preview, sa_issue_credential_accept_propose,
}
use findy_agent.Didcomm.{Msg, thread_id, new_msg}
use findy_agent.Psm.{StateKey, key_eq}
use findy_agent.Psm.Sub.{SubState, received, decrypted, sending, waiting}
use findy_agent.Psm.Rep.{place_eq, issue_rep}
use findy_agent.Prot.World.{World, Env}
use findy_agent.Prot.Processor.{Transition, judge, exec_verdict, exec_psm, exec_task}
use findy_agent.Prot.Ends.{Ends, Ends-bind, Ends-pure, Ends-weaken}
use findy_agent.Prot.Path.{
  IsTyped, IsHealthy, Trace, Last, sent_types, exec_in, exec_out, exec_subs,
}
use findy_agent.Prot.Path.Steps.{Ends-as}
use findy_agent.Prot.Path.Exec.{HasTypes, Settled}
use findy_agent.Prot.Path.Run.{verdict_of, exec_log, exec_new}
use findy_agent.Std.{
  CredPropose, CredOffer, as_cred_propose, as_cred_offer, cred_offer, new_offer_attach,
}
use findy_agent.Protocol.{Packet, Indy, Codec, CredDefAttr, transition}
use findy_agent.Protocol.Typed.{
  none-IsTyped, issue_credential_offer-IsTyped, issue_credential_request-IsTyped,
  issue_credential_nack-IsTyped, issue_credential_user_action-IsTyped,
}
use findy_agent.Protocol.Issue.{preview_to_coded_values, new_preview_credential_raw, raw_attribute}
use findy_agent.Protocol.Issue.Issuer.{
  fill_offer, fill_if_offer, propose_handler, handle_credential_propose,
}
use findy_agent.Protocol.Issue.Same.{HasReps, with_rep, kept, propose_handler_lem}

-- The sub states of a new thread that starts with a proposal: the issuer that accepts by itself sends its
-- offer, any other waits for its user.
abbrev pub propose_subs : Bool → List SubState
propose_subs true = received ∷ decrypted ∷ sending ∷ waiting ∷ []
propose_subs false = received ∷ decrypted ∷ waiting ∷ []

-- What the machine then waits for.
abbrev pub propose_next : Bool → String
propose_next true = issue_credential_request
propose_next false = issue_credential_user_action

-- The types of the messages that are sent, each of them delivered.
abbrev pub propose_sent : Bool → List (String × Bool)
propose_sent true = (issue_credential_offer, true) ∷ []
propose_sent false = []

module _ (env : Env) (healthy : IsHealthy env) (reps : HasReps env) (indy : Indy) (codec : Codec)
    (packet : Packet) where
  abbrev key : StateKey
  key = record { did = packet.receiver.my_did; nonce = thread_id packet.payload }

  fill-Ends :
      (offered values : String) (array : Table String CredDefAttr) (o : Option CredOffer) (om : Msg)
      (w : World)
      → codec.read_values values ≡ ok array
      → Ends (fill_if_offer codec offered values o om) w (λ _ w'. w' ≡ w)
  unfolding fill_if_offer fill_offer new_preview_credential_raw
  fill-Ends offered values array none om w r = record { value = om; returns = refl; post = refl }
  fill-Ends offered values array (some offer) om w r =
      let filled : Msg = record om {
        body = cred_offer (record offer {
          comment = values;
          credential_preview = record {
            type = issue_credential_credential_preview;
            attributes = map (raw_attribute codec) (codec.range_order w array);
          };
          offers_attach = new_offer_attach codec.b64 offered;
        });
      } in
      record {
        value = filled;
        returns = rw (fill_if_offer, fill_offer, new_preview_credential_raw, r) refl;
        post = rw (fill_if_offer, fill_offer, new_preview_credential_raw, r) refl;
      }

  propose-Answers :
      (im om : Msg) (prop : CredPropose) (offered : World → String)
      (array : Table String CredDefAttr)
      → as_cred_propose im.body ≡ some prop
      → ((w : World) → indy.create_offer w prop.cred_def_id ≡ ok (offered w))
      → codec.read_values (preview_to_coded_values codec prop.credential_proposal) ≡ ok array
      → (w : World)
      → Ends
          (propose_handler env indy codec packet.receiver im om)
          w
          (λ (r : Bool × Msg) w'. (r.0 ≡ true) × (w'.psms ≡ w.psms) × (w'.posted ≡ w.posted))
  propose-Answers im om prop offered array p c r w =
      let rep = kept env reps indy codec packet.receiver im prop (offered w) in
      let stored = with_rep (issue_rep rep) w in
      let fill =
        fill_if_offer codec (offered w) (preview_to_coded_values codec prop.credential_proposal)
          (as_cred_offer om.body) om in
      Ends-as (propose_handler env indy codec packet.receiver im om)
        (fill >>= λ filled. pure (true, filled)) w stored
        (propose_handler_lem env reps indy codec packet.receiver im om prop (offered w) w p (c w))
        (Ends-bind fill (λ filled. pure (true, filled)) stored
          (fill-Ends (offered w) (preview_to_coded_values codec prop.credential_proposal) array
            (as_cred_offer om.body) om stored r)
          (λ filled w' same.
            Ends-pure (true, filled) w'
              (refl, ap (λ (v : World). v.psms) same, ap (λ (v : World). v.posted) same)))

  abbrev propose_ts : Bool → Transition
  propose_ts auto =
      transition packet (if auto then issue_credential_offer else nothing)
        (if auto then issue_credential_request else issue_credential_user_action)
        issue_credential_nack sa_issue_credential_accept_propose
        (propose_handler env indy codec packet.receiver)

  propose-HasTypes : (auto : Bool) → IsTyped packet.payload.type → HasTypes (propose_ts auto)
  propose-HasTypes true t = record {
    payload = t;
    send_next = issue_credential_offer-IsTyped;
    waiting_next = issue_credential_request-IsTyped;
    send_on_nack = issue_credential_nack-IsTyped;
  }
  propose-HasTypes false t = record {
    payload = t;
    send_next = none-IsTyped;
    waiting_next = issue_credential_user_action-IsTyped;
    send_on_nack = issue_credential_nack-IsTyped;
  }

  propose_any :
      (auto : Bool) (prop : CredPropose) (offered : World → String)
      (array : Table String CredDefAttr) (w : World)
      → IsTyped packet.payload.type
      → as_cred_propose packet.payload.body ≡ some prop
      → ((w : World) → indy.create_offer w prop.cred_def_id ≡ ok (offered w))
      → codec.read_values (preview_to_coded_values codec prop.credential_proposal) ≡ ok array
      → get w.psms key ≡ none
      → Ends (exec_psm env (propose_ts auto)) w (λ _ w'.
        Trace key (exec_subs (propose_ts auto) true) packet.payload.type w'
        × Settled key
            (verdict_of (propose_ts auto) true)
            (propose_ts auto).waiting_next
            (exec_log (propose_ts auto) true (some (sent_types w.posted)))
            w')
  unfolding new_msg exec_task
  propose_any auto prop offered array w t p c r new =
      let im = exec_in env (propose_ts auto) in
      let om = exec_out env (propose_ts auto) in
      exec_new env (propose_ts auto) (some (sent_types w.posted))
        (propose_handler env indy codec packet.receiver) true w healthy (propose-HasTypes auto t)
        refl
        (λ w' same log.
          Ends-weaken (propose_handler env indy codec packet.receiver im om) w'
            (propose-Answers im om prop offered array p c r w')
            (λ _ w2 q. (q.0, q.1, ap sent_types q.2 ∙ log)))
        refl new

  propose_run :
      (auto : Bool) (prop : CredPropose) (offered : World → String)
      (array : Table String CredDefAttr) (w : World)
      → IsTyped packet.payload.type
      → as_cred_propose packet.payload.body ≡ some prop
      → ((w : World) → indy.create_offer w prop.cred_def_id ≡ ok (offered w))
      → codec.read_values (preview_to_coded_values codec prop.credential_proposal) ≡ ok array
      → get w.psms key ≡ none
      → Ends (exec_psm env (propose_ts auto)) w (λ _ w'.
        Trace key (propose_subs auto) packet.payload.type w'
        × Last key (propose_next auto) w'
        × (sent_types w'.posted ≡ sent_types w.posted ++ propose_sent auto))
  unfolding judge exec_verdict
  propose_run true prop offered array w t p c r new =
      Ends-weaken (exec_psm env (propose_ts true)) w
        (propose_any true prop offered array w t p c r new) (λ _ _ q. (q.0, q.1.0, q.1.1))
  propose_run false prop offered array w t p c r new =
      Ends-weaken (exec_psm env (propose_ts false)) w
        (propose_any false prop offered array w t p c r new)
        (λ _ _ q. (q.0, q.1.0, q.1.1 ∙ sym (append-nil (sent_types w.posted))))

  -- A proposal that starts a new thread, with a well-formed type, for which the wallet always makes an
  -- offer, and whose values are read back, when nothing outside fails: the handler returns. If the issuer
  -- accepts by itself, the one message that was sent is a credential offer, and the machine waits for the
  -- request of the holder; if it does not, nothing was sent, and the machine waits for its user's action.
  pub propose_path :
      (prop : CredPropose) (offered : World → String) (array : Table String CredDefAttr) (w : World)
      → IsTyped packet.payload.type
      → as_cred_propose packet.payload.body ≡ some prop
      → ((w : World) → indy.create_offer w prop.cred_def_id ≡ ok (offered w))
      → codec.read_values (preview_to_coded_values codec prop.credential_proposal) ≡ ok array
      → get w.psms (record { did = packet.receiver.my_did; nonce = thread_id packet.payload })
        ≡ none
      → Ends (handle_credential_propose env indy codec packet) w (λ _ w'.
        Trace
          (record { did = packet.receiver.my_did; nonce = thread_id packet.payload })
          (propose_subs packet.receiver.auto_permission)
          packet.payload.type
          w'
        × Last
            (record { did = packet.receiver.my_did; nonce = thread_id packet.payload })
            (propose_next packet.receiver.auto_permission)
            w'
        × (sent_types w'.posted
            ≡ sent_types w.posted ++ propose_sent packet.receiver.auto_permission))
  unfolding handle_credential_propose
  propose_path = propose_run packet.receiver.auto_permission
