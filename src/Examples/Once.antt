-- ===== src/Examples/Once.antt =====
-- Datagrams received one after another.
use ipk_chat_client.Base.{◌≡◌, refl, [], ◌∷◌, ◌++◌, codes, arith, List, All, some, map}
use ipk_chat_client.Common.{MsgType, Out, type_code}
use ipk_chat_client.CommUdp.State.{Udp}
use ipk_chat_client.CommUdp.Process.{msg_table}
use ipk_chat_client.CommUdp.Known.{Datagram, IsKnown, udp_recv_all}
use ipk_chat_client.CommUdp.Received.{IsReceived, heard}
use ipk_chat_client.CommUdp.Once.{udp_recv_all-IsReceived}
use ipk_chat_client.Examples.Data.{globals, ids-IsValid}

-- A stray CONFIRM with the id 5, an MSG with the id 6 twice, and an MSG with the id 5, which the
-- CONFIRM hides.
abbrev mixed : List Datagram
mixed =
    record { type = 0; high = 0; low = 5; rest = [] }
    ∷ record { type = 4; high = 0; low = 6; rest = codes "Bo" ++ (0 ∷ codes "hi" ++ (0 ∷ [])) }
    ∷ record { type = 4; high = 0; low = 6; rest = codes "Bo" ++ (0 ∷ codes "hi" ++ (0 ∷ [])) }
    ∷ record { type = 4; high = 0; low = 5; rest = codes "Bo" ++ (0 ∷ codes "ho" ++ (0 ∷ [])) }
    ∷ []

mixed-IsKnown : All IsKnown mixed
unfolding msg_table type_code
mixed-IsKnown = (
  record { known = refl; fits = omega arith },
  (
    record { known = refl; fits = omega arith },
    (
      record { known = refl; fits = omega arith },
      (record { known = refl; fits = omega arith }, tt),
    ),
  ),
)

udp_recv_all-IsReceived_example :
    (ts : List MsgType) × (ps : List (MsgType × List Out)) × (s' : Udp) × (udp_recv_all mixed
        globals
      ≡ some (ts, s'))
    × (heard ts ≡ heard (map (λ p. p.0) ps))
    × IsReceived mixed ps globals s'
udp_recv_all-IsReceived_example = udp_recv_all-IsReceived mixed globals mixed-IsKnown ids-IsValid
