-- ===== src/Station.antt =====
-- agent/bus/station.go: who listens to one protocol state machine, and who hears of its states.
use findy_agent.Common.{ℕ, ◌≡◌, refl, none, some, List, [], ◌∷◌, ◌++◌, if◌then◌else◌, ◌∙◌}
use findy_agent.Common.Table.{Table, get, put, remove, get-put, get-put_self, get-remove, beq_refl}
use findy_agent.Psm.{StateKey, key_eq, key_beq}
use findy_agent.Psm.Sub.{SubState, system_reboot}

-- The listeners of one map, with a name for each one's channel, and what was sent to which channel.
pub record StationMap : Type 0 where
  pub listeners : Table StateKey ℕ
  pub sent : List (ℕ × SubState)

-- AddListener: the new channel takes the place of an old one.
unfoldable pub add_listener : StateKey → ℕ → StationMap → StationMap
add_listener key c m = record m { listeners = put m.listeners key c }

unfoldable pub rm_listener : StateKey → StationMap → StationMap
rm_listener key m = record m { listeners = remove m.listeners key }

-- Broadcast; the send is outside the lock.
unfoldable pub broadcast : StateKey → SubState → StationMap → StationMap
broadcast key state m = elim (get m.listeners key) [
  | none ↦ m
  | some c ↦ record m { sent = m.sent ++ (c, state) ∷ [] }
]

-- The loop of BroadcastReboot over one map.
unfoldable pub reboot_sends : Table StateKey ℕ → List (ℕ × SubState)
reboot_sends [] = []
reboot_sends ((key, c) ∷ listeners) = (c, system_reboot) ∷ reboot_sends listeners

unfoldable pub broadcast_reboot : StationMap → StationMap
broadcast_reboot m = record m { sent = m.sent ++ reboot_sends m.listeners }

-- A state of a machine reaches the channel that was added last for it, and no other; other machines'
-- listeners are as before.
pub broadcast-add_listener :
    (key other : StateKey) (c : ℕ) (state : SubState) (m : StationMap)
    → let m' = broadcast key state (add_listener key c m) in
      (m'.sent ≡ m.sent ++ (c, state) ∷ [])
      × (get m'.listeners other ≡ (if key_beq key other then some c else get m.listeners other))
unfolding broadcast add_listener
broadcast-add_listener key other c state m = (
  rw (broadcast, add_listener, get-put_self m.listeners key c) refl,
  rw (broadcast, add_listener, get-put_self m.listeners key c) (get-put m.listeners key other c),
)

-- After its listener is removed no one hears of a machine.
pub broadcast-rm_listener :
    (key : StateKey) (state : SubState) (m : StationMap)
    → broadcast key state (rm_listener key m) ≡ rm_listener key m
unfolding broadcast rm_listener
broadcast-rm_listener key state m =
    let gone : get (remove m.listeners key) key ≡ none =
      get-remove m.listeners key key ∙ rw (beq_refl key) refl in
    rw (broadcast, rm_listener, gone) refl
