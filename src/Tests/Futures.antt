-- ===== src/Tests/Futures.antt =====
-- The theorems on futures, at one whose result is pending.
use findy_agent.Common.{false, ◌≡◌, refl, none, [], ◌∷◌}
use findy_agent.Future.{Future, Result, triggered, blocked, set_chan, set_chan_blocks}

abbrev demo_result : Result
demo_result = record { handle = 3; str1 = "one"; str2 = ""; str3 = ""; error = none }

abbrev pending : Future
pending = record { on = triggered; v = none; ch = demo_result ∷ []; locked = false }

set_chan_blocks_example : set_chan [] pending ≡ blocked
set_chan_blocks_example = set_chan_blocks [] pending refl
