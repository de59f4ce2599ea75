-- ===== src/Network/Bounds/Tests.antt =====
-- Runs of src/extension/network/NUClearNetwork.cpp at the bounds of its arrays.
use nuclear.Base.{◌<◌, ◌≤◌, ◌≡◌, refl, [], ◌∷◌, true, some, replicate, arith}
use nuclear.Network.Outcome.{fault}
use nuclear.Network.State.{Parts, PacketTarget, PacketQueue, lookup}
use nuclear.Network.Bits.{bit_room}
use nuclear.Network.Targets.{new_target}
use nuclear.Network.Acks.{apply_nack}
use nuclear.Network.Bounds.{apply_nack_fault}
use nuclear.Network.Samples.{floats, group_address, lone, three, header, room_three}

abbrev waiting : PacketTarget
waiting = record { target = 0; acked = replicate 8 true; last_send = 0 }

abbrev queued : PacketQueue
queued = record { targets = waiting ∷ []; header = header 3; payload = three }

apply_nack_fault_example : apply_nack 0 7 queued waiting (replicate 8 true) 5 lone ≡ fault
apply_nack_fault_example =
    apply_nack_fault 0 7 queued waiting (replicate 8 true) 5 lone (omega arith) room_three

fresh_index : (new_target floats [] group_address 0).recent_packets_index < 255
unfolding new_target
fresh_index = omega arith

abbrev far : Parts
far = (20, 1 ∷ []) ∷ []

far_found : lookup 20 far ≡ some (1 ∷ [])
unfolding lookup
far_found = refl

far_out : bit_room 3 ≤ 20
far_out = omega arith
