-- ===== src/Tests/Types.antt =====
-- The theorems on message types, at types of the protocols.
use findy_agent.Common.{◌≡◌, refl, arith}
use findy_agent.Common.Exec.{ok}
use findy_agent.Didcomm.{field_at_ind}
use findy_agent.Didcomm.Fields.{field_at_ind-slashed}

field_at_ind-slashed_example :
    (field_at_ind "did:sov:B;spec/trust_ping/1.0/ping" 0 ≡ ok "did:sov:B;spec")
    × (field_at_ind "did:sov:B;spec/trust_ping/1.0/ping" 1 ≡ ok "trust_ping")
    × (field_at_ind "did:sov:B;spec/trust_ping/1.0/ping" 2 ≡ ok "1.0")
    × (field_at_ind "did:sov:B;spec/trust_ping/1.0/ping" 3 ≡ ok "ping")
field_at_ind-slashed_example =
    field_at_ind-slashed "did:sov:B;spec" "trust_ping" "1.0" "ping" (ground arith) refl
