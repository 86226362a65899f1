-- ===== src/GoodbyePacket/Tests.antt =====
-- A run of GoodbyePacket.cpp, on a clock with 10 000 000 ticks in a second.
use parlo_plus_plus.Common.{◌≡◌, [], ◌++◌, ok, arith}
use parlo_plus_plus.Common.Int.{pos, to_coarse, to_fine}
use parlo_plus_plus.GoodbyePacket.{GoodbyePacket, goodbye_bytes, goodbye_of_bytes}
use parlo_plus_plus.GoodbyePacket.RoundTrip.{goodbye_of_bytes-goodbye_bytes}

abbrev farewell : GoodbyePacket
farewell = record { timeout = pos 5; sent_time = pos 98765432123456789 }

goodbye_of_bytes-goodbye_bytes_example :
    (g : GoodbyePacket) × (goodbye_of_bytes 10000000 (goodbye_bytes 10000000 farewell ++ []) ≡ ok g)
    × (g.timeout ≡ pos 5)
    × (g.sent_time ≡ to_fine 10000000 (to_coarse 10000000 (pos 98765432123456789)))
    × (goodbye_bytes 10000000 g ≡ goodbye_bytes 10000000 farewell)
goodbye_of_bytes-goodbye_bytes_example =
    goodbye_of_bytes-goodbye_bytes 10000000 farewell [] (omega arith) (omega arith) (omega arith)
