-- ===== src/Prot/Notify/Told.antt =====
-- Who is told what at the end of a run (agent/prot/update.go).
use findy_agent.Common.{
  ℕ, String, Bool, true, false, not, ◌&&◌, ◌≡◌, refl, ◌∙◌, List, [], ◌∷◌, ◌++◌, last?,
  last?-append_one, some, arith, eqb, ◌||◌, every_below, every_below-test, if◌then◌else◌, ◌==◌,
}
use findy_agent.Pltype.{nothing, ca_notify_status}
use findy_agent.Psm.{StateKey}
use findy_agent.Psm.Sub.{SubState, pure, has, ack, ready, waiting, failure}
use findy_agent.Psm.Rules.{IsFlags}
use findy_agent.Prot.World.{EndingInfo}
use findy_agent.Prot.Notify.{
  NotifyEdge, Broadcast, agent_actions, agency_actions, psm_cleanup, user_actions, all_states,
  notify_edge, edge_of, info_key, waiting_type, trigger_ready, trigger_waiting, trigger_case,
  trigger_end,
}

-- Whoever listens to all states hears of every end of a run, after everyone else.
pub trigger_end-last :
    (is_active : String → Bool) (uuid : String) (info : EndingInfo)
    → last? (trigger_end is_active uuid info) ≡ some (all_states (info_key info) info.sub_state)
unfolding trigger_end
trigger_end-last is_active uuid info =
    last?-append_one (trigger_case is_active uuid info) (all_states (info_key info) info.sub_state)

-- The types of the notifications that the agent's controllers get.
unfoldable pub told : List Broadcast → List String
told [] = []
told (agent_actions n ∷ bs) = n.notification_type ∷ told bs
told (_ ∷ bs) = told bs

-- Who listens to all states is no controller.
told-all_states :
    (xs : List Broadcast) (k : StateKey) (st : SubState)
    → told (xs ++ all_states k st ∷ []) ≡ told xs
unfolding told
told-all_states [] k st = refl
told-all_states (agent_actions n ∷ xs) k st = rw (told-all_states xs k st) refl
told-all_states (agency_actions n ∷ xs) k st = told-all_states xs k st
told-all_states (psm_cleanup n ∷ xs) k st = told-all_states xs k st
told-all_states (user_actions j s ∷ xs) k st = told-all_states xs k st
told-all_states (all_states j s ∷ xs) k st = told-all_states xs k st

told-cases :
    (r w f : Bool) (xs ys : List Broadcast)
    → told (if r then xs else if w then ys else if f then ys else [])
      ≡ (if r then told xs else if w then told ys else if f then told ys else [])
unfolding told
told-cases true w f xs ys = refl
told-cases false true f xs ys = refl
told-cases false false true xs ys = refl
told-cases false false false xs ys = refl

told-notify_edge :
    (is_active : String → Bool) (uuid : String) (ne : NotifyEdge)
    → is_active ne.did ≡ true
    → told (notify_edge is_active uuid ne) ≡ ne.pl_type ∷ []
unfolding told notify_edge
told-notify_edge is_active uuid ne h = rw h refl

-- What an agent is to be told at the end of a run: the status of a machine that is ready with ACK or
-- has failed, and of a waiting one the user action that is pending, if it has a type.
abbrev pub to_tell : EndingInfo → List String
to_tell info =
    if eqb (pure info.sub_state) failure
      || (eqb (pure info.sub_state) ready && has info.sub_state ack)
    then ca_notify_status ∷ []
    else if eqb (pure info.sub_state) waiting
        && info.pending_user_action
        && not (info.user_action_type == nothing)
    then info.user_action_type ∷ []
    else []

failure_table :
    every_below 2048 (λ s.
      (not (eqb (pure s) waiting) || not (has s failure))
      && (not (eqb (pure s) failure) || has s failure))
    ≡ true
unfolding every_below pure
failure_table = refl

failure_of :
    (s : SubState)
    → IsFlags s
    → ((not (eqb (pure s) waiting) || not (has s failure))
        && (not (eqb (pure s) failure) || has s failure))
      ≡ true
failure_of s small =
    every_below-test 2048
      (λ (s : ℕ).
        (not (eqb (pure s) waiting) || not (has s failure))
        && (not (eqb (pure s) failure) || has s failure))
      s failure_table small

-- The type of the notification, and whether there is one, by the tests that the code makes.
abbrev type_of : Bool → Bool → String → String
type_of failed pending type = if failed then ca_notify_status else if pending then type else nothing

abbrev types_of : String → List String
types_of t = if t == nothing then [] else t ∷ []

by_tests :
    (r w f a failed pending : Bool) (type : String)
    → (not w || not failed) ≡ true
    → (not f || failed) ≡ true
    → (not r || not f) ≡ true
    → (not r || not w) ≡ true
    → (if r
        then (if a then ca_notify_status ∷ [] else [])
        else if w
        then types_of (type_of failed pending type)
        else if f
        then types_of (type_of failed pending type)
        else [])
      ≡ (if f || (r && a)
          then ca_notify_status ∷ []
          else if w && pending && not (type == nothing)
          then type ∷ []
          else [])
by_tests true false false true failed p t h1 h2 h3 h4 = refl
by_tests true false false false failed p t h1 h2 h3 h4 = refl
by_tests true false true a failed p t h1 h2 h3 h4 = ground arith
by_tests true true f a failed p t h1 h2 h3 h4 = ground arith
by_tests false true true a true p t h1 h2 h3 h4 = ground arith
by_tests false true true a false p t h1 h2 h3 h4 = ground arith
by_tests false true false a true p t h1 h2 h3 h4 = ground arith
by_tests false true false a false true t h1 h2 h3 h4 = ground arith
by_tests false true false a false false t h1 h2 h3 h4 = refl
by_tests false false true a true p t h1 h2 h3 h4 = refl
by_tests false false true a false p t h1 h2 h3 h4 = ground arith
by_tests false false false a failed p t h1 h2 h3 h4 = refl

module _ (is_active : String → Bool) (uuid : String) (info : EndingInfo)
    (h : is_active info.me_did ≡ true) where
  told-trigger_ready :
      told (trigger_ready is_active uuid info)
      ≡ (if has info.sub_state ack then ca_notify_status ∷ [] else [])
  unfolding trigger_ready told
  told-trigger_ready =
      ground (arith, told-notify_edge is_active uuid (edge_of info ca_notify_status) h)

  told-trigger_waiting :
      told (trigger_waiting is_active uuid info)
      ≡ (if waiting_type info == nothing then [] else waiting_type info ∷ [])
  unfolding trigger_waiting told
  told-trigger_waiting =
      ground (arith, told-notify_edge is_active uuid (edge_of info (waiting_type info)) h)

  told-trigger_case :
      IsFlags info.sub_state → told (trigger_case is_active uuid info) ≡ to_tell info
  unfolding trigger_case waiting_type told
  told-trigger_case small =
      told-cases (eqb (pure info.sub_state) ready) (eqb (pure info.sub_state) waiting)
        (eqb (pure info.sub_state) failure) (trigger_ready is_active uuid info)
        (trigger_waiting is_active uuid info)
      ∙ rw (told-trigger_ready, told-trigger_waiting)
          (by_tests (eqb (pure info.sub_state) ready) (eqb (pure info.sub_state) waiting)
            (eqb (pure info.sub_state) failure) (has info.sub_state ack)
            (has info.sub_state failure) info.pending_user_action info.user_action_type
            (ground (arith, failure_of info.sub_state small))
            (ground (arith, failure_of info.sub_state small)) (ground arith) (ground arith))

-- The controllers of a connected agent are told exactly what they are to be told, where the sub
-- state has the source's flags alone: the status of a machine that is ready with ACK or has
-- failed, or the type of a pending user action of one that waits.
pub told-trigger_end :
    (is_active : String → Bool) (uuid : String) (info : EndingInfo)
    → is_active info.me_did ≡ true
    → IsFlags info.sub_state
    → told (trigger_end is_active uuid info) ≡ to_tell info
unfolding trigger_end told
told-trigger_end is_active uuid info h small =
    told-all_states (trigger_case is_active uuid info) (info_key info) info.sub_state
    ∙ told-trigger_case is_active uuid info h small
