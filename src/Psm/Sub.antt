-- ===== src/Psm/Sub.antt =====
-- agent/psm/psm.go: the flags of a sub state, and the rules of its transitions.
use findy_agent.Common.{
  ℕ, ◌-◌, ◌^◌, bit_and, bit_or, String, Bool, true, false, not, List, [], ◌∷◌, eqb, if◌then◌else◌,
}

-- The Go type is `uint`, of 64 bits; every flag is below 2048.
abbrev pub SubState : Type 0
SubState = ℕ

abbrev pub max_uint : ℕ
max_uint = 2 ^ 64 - 1

abbrev pub ack : SubState
ack = 0x01

abbrev pub nack : SubState
nack = 0x02

abbrev pub waiting : SubState
waiting = 0x04

abbrev pub received : SubState
received = 0x08

abbrev pub decrypted : SubState
decrypted = 0x10

abbrev pub sending : SubState
sending = 0x20

abbrev pub ready : SubState
ready = 0x40

abbrev pub failure : SubState
failure = 0x80

abbrev pub archiving : SubState
archiving = 0x100

abbrev pub archived : SubState
archived = 0x200

-- For graceful shutdown.
abbrev pub system_reboot : SubState
system_reboot = 0x400

abbrev pub ready_ack : SubState
ready_ack = bit_or ready ack

abbrev pub ready_nack : SubState
ready_nack = bit_or ready nack

-- `a &^ b`
abbrev pub and_not : ℕ → ℕ → ℕ
and_not a b = bit_and a (max_uint - b)

-- `ss&flag != 0`
abbrev pub has : SubState → SubState → Bool
has ss flag = not (eqb (bit_and ss flag) 0)

unfoldable pub is_ready : SubState → Bool
is_ready ss = has ss ready

-- The complement in `ss & ^(NACK | ACK)` is that of 64 bits.
unfoldable pub pure : SubState → SubState
pure ss = bit_and ss (max_uint - bit_or nack ack)

unfoldable pub string : SubState → String
string ss =
    if eqb ss ready_ack
    then "ReadyACK"
    else if eqb ss ack
    then "ACK"
    else if eqb ss ready_nack
    then "ReadyNACK"
    else if eqb ss nack
    then "NACK"
    else if eqb ss ready
    then "Ready"
    else if eqb ss waiting
    then "Waiting"
    else if eqb ss received
    then "Received"
    else if eqb ss decrypted
    then "Decrypted"
    else if eqb ss sending
    then "Sending"
    else if eqb ss failure
    then "Failure"
    else if eqb ss archiving
    then "Archiving"
    else if eqb ss archived
    then "Archived"
    else if eqb ss (bit_or ready_ack archiving)
    then "ReadyACKArchiving"
    else if eqb ss (bit_or ready_ack archived)
    then "ReadyACKArchived"
    else if eqb ss (bit_or ready_nack archiving)
    then "ReadyNACKArchiving"
    else if eqb ss (bit_or ready_nack archived)
    then "ReadyNACKArchived"
    else if eqb ss system_reboot
    then "SystemReboot"
    else "Unknown State"

-- The map `rules`; a missing key gives the nil slice.
unfoldable pub rules : SubState → List SubState
rules from =
    if eqb from waiting
    then received ∷ sending ∷ failure ∷ ready ∷ []
    else if eqb from received
    then sending ∷ decrypted ∷ failure ∷ ready ∷ []
    else if eqb from sending
    then sending ∷ ready ∷ waiting ∷ failure ∷ []
    else if eqb from decrypted
    then waiting ∷ sending ∷ failure ∷ ready ∷ []
    else []

-- The loop of `Accept` over the accepted sub states.
unfoldable pub accepted_in : List SubState → SubState → Bool
accepted_in [] to = false
accepted_in (ss ∷ accepts) to =
    let rest = accepted_in accepts to in if eqb ss to then true else rest

-- `Accept`, of the last state's sub state.
unfoldable pub accepts : SubState → SubState → Bool
unfolding pure rules accepted_in
accepts last state = accepted_in (rules (pure last)) (pure state)
