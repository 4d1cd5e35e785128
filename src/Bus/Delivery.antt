-- ===== src/Bus/Delivery.antt =====
-- The delivery and the buffer of notifications (agent/bus/event.go).
use findy_agent.Common.{
  ℕ, true, false, ◌≡◌, refl, sym, ap, ◌∙◌, none, some, List, [], ◌∷◌, ◌++◌, arith, if◌then◌else◌,
  All, Option-cases, Bool-cases, inl, inr,
}
use findy_agent.Common.Table.{Table, get, get-put_self, put, remove}
use findy_agent.Common.Exec.{Outcome, ok}
use findy_agent.Bus.{
  AgentKey, agent_key_eq, Notify, Station, agent_listen, deliveries, found_listener, broadcast,
  agent_broadcast, push_buffered, hit, agent_key_beq, agent_key_beq_iff, check_loop, check_buffered,
  agent_add_listener, agent_rm_listener,
}

append_nil : {A : Type 0} (xs : List A) → xs ++ [] ≡ xs
append_nil [] = refl
append_nil (x ∷ xs) = rw (append_nil xs) refl

append_assoc : {A : Type 0} (xs ys zs : List A) → (xs ++ ys) ++ zs ≡ xs ++ (ys ++ zs)
append_assoc [] ys zs = refl
append_assoc (x ∷ xs) ys zs = rw (append_assoc xs ys zs) refl

-- With no one to listen there is nothing to send.
deliveries_none :
    (ls : Table AgentKey ℕ) (n : Notify) → found_listener ls n ≡ false → deliveries ls n ≡ []
unfolding deliveries found_listener
deliveries_none [] n h = refl
deliveries_none ((k, ch) ∷ ls) n h = ground (arith, deliveries_none ls n)

-- What stays in a buffer, and what is sent from it.
abbrev pub unheard : Table AgentKey ℕ → List Notify → List Notify
unheard ls [] = []
unheard ls (n ∷ ns) = if found_listener ls n then unheard ls ns else n ∷ unheard ls ns

abbrev pub all_deliveries : Table AgentKey ℕ → List Notify → List (ℕ × Notify)
all_deliveries ls [] = []
all_deliveries ls (n ∷ ns) = deliveries ls n ++ all_deliveries ls ns

check_loop_lem :
    (ns : List Notify) (s : Station)
    → check_loop ns s
      ≡ (unheard s.listeners ns, record s { sent = s.sent ++ all_deliveries s.listeners ns })
unfolding check_loop broadcast
check_loop_lem [] s = rw (append_nil s.sent) refl
check_loop_lem (n ∷ ns) s =
    let s' = record s { sent = s.sent ++ deliveries s.listeners n } in
    elim (Bool-cases (found_listener s.listeners n)) [
      | inl e ↦
          rw
            (
              check_loop,
              broadcast,
              e,
              check_loop_lem ns s',
              append_assoc s.sent (deliveries s.listeners n) (all_deliveries s.listeners ns),
            )
            refl
      | inr e ↦
          rw
            (
              check_loop,
              broadcast,
              e,
              check_loop_lem ns s',
              append_assoc s.sent (deliveries s.listeners n) (all_deliveries s.listeners ns),
            )
            refl
    ]

pub check_buffered_lem :
    (s : Station)
    → check_buffered s ≡ record s {
      buffer = unheard s.listeners s.buffer;
      sent = s.sent ++ all_deliveries s.listeners s.buffer;
    }
unfolding check_buffered
check_buffered_lem s = rw (check_buffered, check_loop_lem s.buffer s) refl

-- No one listens to what waits in the buffer.
abbrev pub IsWaiting : Station → Type 0
IsWaiting s = All (λ n. found_listener s.listeners n ≡ false) s.buffer

-- A broadcast of an agent's action reaches all who listen; where no one does, it is put at the end of what
-- the buffer is by then.
pub agent_broadcast_lem :
    (others : Station → Station) (s : Station) (n : Notify)
    → agent_broadcast agent_listen others s n ≡ (
        if found_listener s.listeners n
        then record s { sent = s.sent ++ deliveries s.listeners n }
        else record (others s) { buffer = (others s).buffer ++ n ∷ [] })
unfolding agent_broadcast broadcast push_buffered
agent_broadcast_lem others s n = elim (Bool-cases (found_listener s.listeners n)) [
  | inl e ↦ rw (agent_broadcast, broadcast, e) refl
  | inr e ↦
      rw
        (
          agent_broadcast,
          broadcast,
          e,
          deliveries_none s.listeners n e,
          append_nil s.sent,
          push_buffered,
        )
        refl
]

found_listener-remove :
    (ls : Table AgentKey ℕ) (k : AgentKey) (n : Notify)
    → found_listener ls n ≡ false
    → found_listener (remove ls k) n ≡ false
unfolding found_listener remove
found_listener-remove [] k n h = refl
found_listener-remove ((j, ch) ∷ ls) k n h = ground (arith, found_listener-remove ls k n)

waiting-remove :
    (ls : Table AgentKey ℕ) (k : AgentKey) (ns : List Notify)
    → All (λ n. found_listener ls n ≡ false) ns
    → All (λ n. found_listener (remove ls k) n ≡ false) ns
waiting-remove ls k [] h = tt
waiting-remove ls k (n ∷ ns) h = (found_listener-remove ls k n h.0, waiting-remove ls k ns h.1)

-- Where no one listens to what waits in the buffer, no one does after a controller has left.
pub agent_rm_listener-IsWaiting :
    (key : AgentKey) (s : Station) → IsWaiting s → IsWaiting (agent_rm_listener key s)
unfolding agent_rm_listener
agent_rm_listener-IsWaiting key s h = elim (Option-cases (get s.listeners key)) [
  | inl e ↦ rw (agent_rm_listener, e) h
  | inr (ch, e) ↦ rw (agent_rm_listener, e) (waiting-remove s.listeners key s.buffer h)
]

-- A listener that is in the table is found.
found_listener-get :
    (ls : Table AgentKey ℕ) (k : AgentKey) (c : ℕ) (n : Notify)
    → get ls k ≡ some c
    → hit n k ≡ true
    → found_listener ls n ≡ true
unfolding get found_listener
found_listener-get [] k c n e h = absurd (ground arith)
found_listener-get ((j, ch) ∷ ls) k c n e h = elim (Bool-cases (agent_key_beq j k)) [
  | inl same ↦
      (let at : hit n j ≡ true = ap (λ x. hit n x) ((agent_key_beq_iff j k).0 same) ∙ h in
        rw at refl)
  | inr other ↦ ground (arith, found_listener-get ls k c n (rw other at e) h)
]

-- What still waits is sent to no one.
all_deliveries-unheard :
    (ls : Table AgentKey ℕ) (ns : List Notify) (n : Notify)
    → all_deliveries ls (unheard ls ns ++ n ∷ []) ≡ deliveries ls n
all_deliveries-unheard ls [] n = append_nil (deliveries ls n)
all_deliveries-unheard ls (m ∷ ns) n = elim (Bool-cases (found_listener ls m)) [
  | inl e ↦ rw e (all_deliveries-unheard ls ns n)
  | inr e ↦ rw (e, deliveries_none ls m e) (all_deliveries-unheard ls ns n)
]

-- The station after its buffer was emptied for these listeners.
abbrev emptied : Station → Table AgentKey ℕ → Station
emptied s ls = record s {
  listeners = ls;
  buffer = unheard ls s.buffer;
  sent = s.sent ++ all_deliveries ls s.buffer;
}

add_lem :
    (s : Station) (key : AgentKey) (c : ℕ)
    → get s.listeners key ≡ none
    → agent_add_listener agent_listen key c s ≡ ok (emptied s (put s.listeners key c))
unfolding agent_add_listener
add_lem s key c e =
    rw (agent_add_listener, e)
      (ap (λ x. ok x) (check_buffered_lem (record s { listeners = put s.listeners key c })))

abbrev or_else : Station → Outcome Station → Station
or_else s (ok s') = s'
or_else s _ = s

or_else-ok : (a b : Station) → Path (Outcome Station) (ok a) (ok b) → a ≡ b
or_else-ok a b e = ap (or_else a) e

late_lem :
    (others : Station → Station) (s : Station) (n : Notify) (ls : Table AgentKey ℕ)
    → found_listener s.listeners n ≡ false
    → others s ≡ emptied s ls
    → agent_broadcast agent_listen others s n
      ≡ record (emptied s ls) { buffer = unheard ls s.buffer ++ n ∷ [] }
late_lem others s n ls out ran =
    agent_broadcast_lem others s n
    ∙ rw out (ap (λ (x : Station). record x { buffer = x.buffer ++ n ∷ [] }) ran)

emptied_again :
    (ls : Table AgentKey ℕ) (ns : List Notify) (n : Notify) (late : Station)
    → late.listeners ≡ ls
    → late.buffer ≡ unheard ls ns ++ n ∷ []
    → (check_buffered late).sent ≡ late.sent ++ deliveries late.listeners n
emptied_again ls ns n late l b =
    ap (λ (x : Station). x.sent) (check_buffered_lem late)
    ∙ ap (λ xs. late.sent ++ xs)
        (ap (λ t. all_deliveries t late.buffer) l
          ∙ ap (λ t. all_deliveries ls t) b
          ∙ all_deliveries-unheard ls ns n
          ∙ ap (λ t. deliveries t n) (sym l))

-- The race of a broadcast with a controller that comes late. A notification that no one listens to is
-- broadcast; a controller with a new key that listens to it is added, and empties the buffer, after the
-- broadcast has looked for listeners and before it puts the notification into the buffer: then the
-- notification is left in the buffer although the controller is there and listens to it, and all that has
-- been sent is what was in the buffer before. The next time that the buffer is emptied it is sent.
pub agent_broadcast_late :
    (others : Station → Station) (s s' : Station) (n : Notify) (key : AgentKey) (c : ℕ)
    → found_listener s.listeners n ≡ false
    → get s.listeners key ≡ none
    → hit n key ≡ true
    → agent_add_listener agent_listen key c s ≡ ok s'
    → others s ≡ s'
    → let late = agent_broadcast agent_listen others s n in
      (get late.listeners key ≡ some c)
      × (found_listener late.listeners n ≡ true)
      × (late.buffer ≡ unheard late.listeners s.buffer ++ n ∷ [])
      × (late.sent ≡ s.sent ++ all_deliveries late.listeners s.buffer)
      × ((check_buffered late).sent ≡ late.sent ++ deliveries late.listeners n)
agent_broadcast_late others s s' n key c out new hits added ran =
    let ls = put s.listeners key c in
    let there : get ls key ≡ some c = get-put_self s.listeners key c in
    let at : s' ≡ emptied s ls = or_else-ok s' (emptied s ls) (sym added ∙ add_lem s key c new) in
    let late = record (emptied s ls) { buffer = unheard ls s.buffer ++ n ∷ [] } in
    rw (late_lem others s n ls out (ran ∙ at)) (
      there,
      found_listener-get ls key c n there hits,
      refl,
      refl,
      emptied_again ls s.buffer n late refl refl,
    )
