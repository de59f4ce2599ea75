-- ===== src/Trace/Tests.antt =====
-- Runs of the encoders of src/extension/trace/protobuf.cpp, and of the packets made with them.
use nuclear.Base.{ℕ, List, [], ◌∷◌}
use nuclear.Trace.Packets.{interned, packet_bytes}
use nuclear.Trace.Framing.{Frames, packet_bytes-Frames}

abbrev content : List ℕ
content = 8 ∷ 1 ∷ []

packet_bytes-Frames_example : Frames (packet_bytes (interned 2 1 (65 ∷ 66 ∷ [])))
packet_bytes-Frames_example = packet_bytes-Frames (interned 2 1 (65 ∷ 66 ∷ []))
