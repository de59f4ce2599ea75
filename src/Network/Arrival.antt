-- ===== src/Network/Arrival.antt =====
-- The fragments of an unreliable packet as `process_packet` of
-- src/extension/network/NUClearNetwork.cpp handles them one after the other, up to the callback for the packet.
mod Stored
pub mod Whole
use mathlib.Core.Option.{some-injective}
use nuclear.Base.{
  ℕ, suc, ◌+◌, ◌*◌, ◌-◌, ◌/◌, ◌^◌, ◌<◌, ◌≤◌, ◌≡◌, ◌≢◌, refl, sym, ap, ◌∙◌, subst, List, [], ◌∷◌,
  ◌++◌, map, Option, none, some, Bool, true, false, not, ltb, leb, ◌==◌, ==_iff, if◌then◌else◌,
  length, keep_if, arith, dec_lt, Bool-cases, inl, inr,
}
use nuclear.Network.Outcome.{Outcome, done, ◌>>=◌}
use nuclear.Network.Wire.{DataHeader}
use nuclear.Network.State
use nuclear.Network.State.{
  Parts, Assembler, Network, lookup, insert, erase, contains, modify, touch, emit,
}
use nuclear.Network.Data.{
  last_no, parts_of, reaches, store_part, acknowledge_parts, complete, remember_reliable, deliver,
  drop_stale, receive_part, receive_fragment, receive_data,
}
use nuclear.Network.Fragment.{packet_count, chunk, join_parts}
use nuclear.Network.Fragment.Assembly.{
  Assembles, length-Assembles, insert-Assembles, length-fill, join_parts-fill, fill, fill-Assembles,
  lookup-insert,
}

-- The numbers of the fragments that arrive, each with its time.
abbrev pub numbers : List (ℕ × ℕ) → List ℕ
numbers arrivals = map (λ a. a.0) arrivals

module _ {F : Type 0} where
  -- The parts that the assembler of a packet holds.
  abbrev pub held_parts : ℕ → ℕ → Network F → Parts
  held_parts id packet_id n = parts_of (lookup packet_id (n.heap id).assemblers)

  -- The fragments of a packet that arrive one after the other, each with its time.
  unfoldable pub receive_all :
      ℕ → DataHeader → (ℕ → List ℕ) → List (ℕ × ℕ) → Network F → Outcome (Network F)
  receive_all id h f [] n = done n
  receive_all id h f ((j, now) ∷ arrivals) n =
      receive_data (some id) false (record h { packet_no = j }) (f j) now n
      >>= receive_all id h f arrivals
