-- ===== src/Protocol/Simple/Proofs.antt =====
-- protocol/basicmessage: what the status of a message tells after it has arrived.
use findy_agent.Common.{◌+◌, true, false, ◌≡◌, refl, some}
use findy_agent.Common.Table.{get-put_self}
use findy_agent.Common.Exec.{ok}
use findy_agent.Didcomm.{Msg}
use findy_agent.Psm.{StateKey}
use findy_agent.Psm.Rep.{
  BasicMessageRep, message_rep, place_eq, rep_place, rep_key, rep_type, basic_message_bucket,
}
use findy_agent.Prot.World.{World, Env, Pairwise, find_pairwise, read_clock, get_rep}
use findy_agent.Std.{BasicMessage, as_basic_message}
use findy_agent.Protocol.{Packet, caught_nil}
use findy_agent.Protocol.Simple.{
  message_handler, fill_basic_message_status, get_basic_message_rep, message_rep_of,
}
use findy_agent.Protocol.Issue.Same.{HasReps, with_rep, add_rep_lem}

module _ (env : Env) (healthy : HasReps env) where
  abbrev arrived : Packet → Msg → BasicMessage → Pairwise → World → BasicMessageRep
  arrived packet im bm pw w = record {
    key = record { did = packet.receiver.my_did; nonce = im.thread.id };
    pw_name = pw.id;
    message = bm.content;
    send_timestamp = bm.sent_time;
    timestamp = w.clock + env.elapse w;
    sent_by_me = false;
    delivered = true;
  }

  abbrev ticked : World → World
  ticked w = record w { clock = w.clock + env.elapse w }

  handler_lem :
      (packet : Packet) (im om : Msg) (bm : BasicMessage) (pw : Pairwise) (w : World)
      → as_basic_message im.body ≡ some bm
      → env.find_pw w packet.conn_id ≡ ok (some pw)
      → message_handler env packet im om w
        ≡ (ok (true, om), with_rep (message_rep (arrived packet im bm pw w)) (ticked w))
  unfolding message_handler find_pairwise read_clock
  handler_lem packet im om bm pw w b p =
      rw
        (
          message_handler,
          find_pairwise,
          p,
          b,
          read_clock,
          add_rep_lem env healthy (message_rep (arrived packet im bm pw w)) (ticked w),
        )
        refl

  -- A message that arrives from a known pairwise is acknowledged, and the status of its thread then tells
  -- its content and the time at which it was sent, and that it was delivered and is not the agent's own.
  pub message_status :
      (packet : Packet) (im om : Msg) (bm : BasicMessage) (pw : Pairwise) (w : World)
      → as_basic_message im.body ≡ some bm
      → env.find_pw w packet.conn_id ≡ ok (some pw)
      → let after = message_handler env packet im om w in
        (after.0 ≡ ok (true, om))
        × ((fill_basic_message_status env packet.receiver.my_did im.thread.id after.1).0
            ≡ ok (
                some (record {
                  content = bm.content;
                  sent_by_me = false;
                  delivered = true;
                  sent_timestamp = bm.sent_time;
                })))
  unfolding fill_basic_message_status get_basic_message_rep caught_nil get_rep message_rep_of
      rep_type rep_key
  message_status packet im om bm pw w b p =
      let rep = arrived packet im bm pw w in
      let key : StateKey = record { did = packet.receiver.my_did; nonce = im.thread.id } in
      rw (handler_lem packet im om bm pw w b p) (
        refl,
        rw
            (
              fill_basic_message_status,
              caught_nil,
              get_basic_message_rep,
              get_rep,
              healthy.finds (with_rep (message_rep rep) (ticked w)) basic_message_bucket key,
              get-put_self w.reps (rep_place basic_message_bucket key) (message_rep rep),
            )
            refl,
      )
