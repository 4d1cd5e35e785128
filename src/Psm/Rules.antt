-- ===== src/Psm/Rules.antt =====
-- What the transition rules of agent/psm/psm.go allow.
use findy_agent.Common.{
  ℕ, ◌<◌, Bool, true, false, not, ◌||◌, ◌≡◌, refl, [], arith, eqb, bit_or, every_below,
  every_below-test,
}
use findy_agent.Psm.Sub.{
  SubState, waiting, received, decrypted, sending, ready, failure, archiving, archived,
  system_reboot, has, pure, rules, accepts,
}

-- The flags are the eleven of the source.
abbrev pub IsFlags : SubState → Type 0
IsFlags ss = ss < 2048

-- A sub state with one of these flags is not left by any rule.
abbrev pub frozen_mask : SubState
frozen_mask = bit_or ready (bit_or failure (bit_or archiving (bit_or archived system_reboot)))

abbrev is_live : SubState → Bool
is_live ss = eqb ss waiting || eqb ss received || eqb ss sending || eqb ss decrypted

frozen_table : every_below 2048 (λ ss. not (has ss frozen_mask) || not (is_live (pure ss))) ≡ true
unfolding every_below pure
frozen_table = refl

frozen-not_live :
    (ss : SubState) → IsFlags ss → has ss frozen_mask ≡ true → is_live (pure ss) ≡ false
frozen-not_live ss small h = ground (
  arith,
  every_below-test 2048 (λ (ss : ℕ). not (has ss frozen_mask) || not (is_live (pure ss))) ss
      frozen_table small,
)

rules_not_live : (ss : SubState) → is_live ss ≡ false → rules ss ≡ []
unfolding rules
rules_not_live ss h = ground arith

-- From a sub state that is ready, failed, archiving or archived no transition is accepted.
pub accepts_frozen :
    (last state : SubState)
    → IsFlags last
    → has last frozen_mask ≡ true
    → accepts last state ≡ false
unfolding accepts
accepts_frozen last state small h =
    rw (rules_not_live (pure last) (frozen-not_live last small h)) refl

-- Failure can be reached from every sub state from which anything can.
pub accepts-failure :
    (last state : SubState) → accepts last state ≡ true → accepts last failure ≡ true
unfolding accepts
accepts-failure last state h = ground arith
