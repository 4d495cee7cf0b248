-- ===== src/Caps/Tests.antt =====
-- Masks of capabilities on concrete requests.
use inter_process_communicat.Base.{◌≡◌, ◌↔◌, arith, true, refl, false}
use inter_process_communicat.Base.Int.{pos}
use inter_process_communicat.Protocol.{Payload, math, math_div}
use inter_process_communicat.Caps.{verify_exec_caps, client_has_capability_for}
use inter_process_communicat.Caps.Laws.{Granted, client_has_capability_for_iff}

abbrev a_division : Payload
a_division = math (record { op = math_div; a = pos 7; b = pos 2 })

unknown_bit : verify_exec_caps 65 ≡ false
unfolding verify_exec_caps
unknown_bit = refl

client_has_capability_for_iff_example :
    (client_has_capability_for a_division 8 ≡ true) ↔ Granted a_division 8
client_has_capability_for_iff_example = client_has_capability_for_iff a_division 8 (omega arith)
