-- ===== src/Network/Controller/Delivery.antt =====
-- src/extension/NetworkController.cpp, src/dsl/word/Network.hpp and emit/Network.hpp: the reactions that a packet
-- reaches, and the way of values from an emission to the reactions of another program.
use nuclear.Base.{
  ℕ, ◌+◌, ◌/◌, ◌^◌, ◌<◌, ◌≡◌, refl, ap, ◌∙◌, List, [], ◌∷◌, ◌++◌, map, Option, none, some, Bool,
  true, false, if◌then◌else◌, length,
}
use nuclear.Serialise.{Layout, serialise, deserialise, deserialise-serialise}
use nuclear.Network.Outcome
use nuclear.Network.Wire.{DataHeader}
use nuclear.Network.State
use nuclear.Network.State.{Network, contains}
use nuclear.Network.Fragment.{packet_count, chunk}
use nuclear.Network.Arrival.{held_parts, numbers, receive_all}
use nuclear.Network.Arrival.Whole.{receive_all-chunk}
use nuclear.Network.Controller.{
  NetworkSource, NetworkListen, Controller, done, raised, Got, got, invalid, equal_range, get,
  got_from, read_or_throw, also, after_get, finish, each_reaction, packet_callback,
}
use nuclear.Network.Controller.Listeners.{listen_all, equal_range-listen_all}

-- What a reaction that accepts the task gets.
asked :
    {V : Type 0} (asks : Bool) (o p : Option V) (source : NetworkSource)
    → asks ≡ true
    → o ≡ p
    → (if asks then read_or_throw o source else invalid) ≡ read_or_throw p source
asked asks o p source y e = rw (y, e) refl

module _ {V W : Type 0} (accepts : ℕ → Controller W → Bool)
    (submit : ℕ → Got V → Controller W → Controller W) (read : List ℕ → Option V) where
  -- All that listen are enabled, and accepted by their other words.
  abbrev pub AcceptsAll : Type 0
  AcceptsAll = (r : ℕ) (s : Controller W) → accepts r s ≡ true

  -- What runs at once leaves the reactions of the controller alone.
  abbrev pub KeepsReactions : Type 0
  KeepsReactions = (r : ℕ) (g : Got V) (s : Controller W) → (submit r g s).reactions ≡ s.reactions

  -- The loop with a payload that can be read.
  each_reaction_delivers :
      AcceptsAll
      → KeepsReactions
      → (source : NetworkSource) (payload : List ℕ) (v : V) (rs : List ℕ) (s : Controller W)
      → read payload ≡ some v
      → (end : Controller W) × (each_reaction accepts submit read source payload rs s
          ≡ done (map (λ r. (r, got source v)) rs, end))
        × (end.reactions ≡ s.reactions)
  unfolding each_reaction get got_from after_get also
  each_reaction_delivers all keeps source payload v [] s h = (s, refl, refl)
  each_reaction_delivers all keeps source payload v (r ∷ rs) s h =
      let set : Controller W = record s { data_store = some payload; source_store = some source } in
      let (end, e, k) =
        each_reaction_delivers all keeps source payload v rs (submit r (got source v) set) h in
      (
        end,
        ap
              (λ g.
                after_get g r set
                  (λ g. each_reaction accepts submit read source payload rs (submit r g set)))
              (asked (accepts r set) (read payload) (some v) source (all r set) h)
            ∙ ap (also (r, got source v)) e,
        k ∙ keeps r (got source v) set,
      )

  -- The first reaction for a payload that cannot be read.
  each_reaction_raises :
      AcceptsAll
      → (source : NetworkSource) (payload : List ℕ) (r : ℕ) (rs : List ℕ) (s : Controller W)
      → read payload ≡ none
      → each_reaction accepts submit read source payload (r ∷ rs) s
        ≡ raised ([], record s { data_store = some payload; source_store = some source })
  unfolding each_reaction get got_from after_get
  each_reaction_raises all source payload r rs s h =
      let set : Controller W = record s { data_store = some payload; source_store = some source } in
      ap
        (λ g.
          after_get g r set
            (λ g. each_reaction accepts submit read source payload rs (submit r g set)))
        (asked (accepts r set) (read payload) none source (all r set) h)

  -- A packet whose payload can be read, when all that listen accept it and what runs at once neither
  -- binds nor unbinds a reaction to the network: every reaction for its hash gets the value with the
  -- source, in the order of the map, and afterwards the mutex is free and the stores are empty.
  pub packet_callback-delivers :
      AcceptsAll
      → KeepsReactions
      → (source : NetworkSource) (hash : ℕ) (payload : List ℕ) (v : V) (s : Controller W)
      → s.locked ≡ false
      → read payload ≡ some v
      → (end : Controller W) × (packet_callback accepts submit read source hash payload s
          ≡ done (map (λ r. (r, got source v)) (equal_range hash s.reactions), end))
        × (end.reactions ≡ s.reactions)
        × (end.locked ≡ false)
        × (end.data_store ≡ none)
        × (end.source_store ≡ none)
  unfolding packet_callback finish
  packet_callback-delivers all keeps source hash payload v s free h =
      let (end, e, k) =
        each_reaction_delivers all keeps source payload v (equal_range hash s.reactions)
          (record s { locked = true }) h in
      (
        record end { locked = false; data_store = none; source_store = none },
        rw free (ap finish e),
        k,
        refl,
        refl,
        refl,
      )

  -- A packet whose payload `deserialise` refuses, where the mutex is free, and reactions listen for its hash
  -- and all accept the packet: the exception leaves the callback with the mutex free again, no reaction
  -- gets anything, and the stores of the thread are left with what the stack held.
  pub packet_callback-raises :
      AcceptsAll
      → (source : NetworkSource) (hash : ℕ) (payload : List ℕ) (r : ℕ) (rs : List ℕ)
        (s : Controller W)
      → s.locked ≡ false
      → equal_range hash s.reactions ≡ r ∷ rs
      → read payload ≡ none
      → packet_callback accepts submit read source hash payload s
        ≡ raised
            ([], record s { locked = false; data_store = some payload; source_store = some source })
  unfolding packet_callback finish
  packet_callback-raises all source hash payload r rs s free listens h =
      rw (free, listens)
        (ap finish (each_reaction_raises all source payload r rs (record s { locked = true }) h))

-- Values of a type are serialised and their fragments come to `process_packet` one after the other, in any
-- order and repeated, as an unreliable packet of several fragments, fewer than 2^16, to a target that
-- holds none of them, where all others have come when the last comes. Then the network calls back
-- just one packet, with the hash of its header and the serialised bytes. When reactions have
-- listened for this and other hashes, all of them accept the packet, and what runs at once neither
-- binds nor unbinds such a reaction: the callback gives the values to the reactions that have
-- listened for the hash, in the order in which they have listened, and nothing to others.
pub received :
    {A W F : Type 0} (l : Layout A) (accepts : ℕ → Controller W → Bool)
    (submit : ℕ → Got (List A) → Controller W → Controller W)
    → AcceptsAll accepts submit (deserialise l)
    → KeepsReactions accepts submit (deserialise l)
    → (source : NetworkSource) (id : ℕ) (h : DataHeader) (mtu : ℕ) (xs : List A)
      (before : List (ℕ × ℕ)) (m now : ℕ) (n : Network F)
    → h.reliable ≡ false
    → h.packet_count ≡ packet_count mtu (serialise l xs)
    → 1 < h.packet_count
    → length (serialise l xs) / mtu + 1 < 2 ^ 16
    → ((i : ℕ) → contains i (numbers before ++ m ∷ []) ≡ true → i < h.packet_count)
    → ((i : ℕ) → i < h.packet_count → contains i (numbers before ++ m ∷ []) ≡ true)
    → contains m (numbers before) ≡ false
    → held_parts id h.packet_id n ≡ []
    → (listens : List NetworkListen) (world : W)
    → (arrived : Network F) × (end : Controller W) × (receive_all id h
          (chunk mtu h.packet_count (serialise l xs))
          (before ++ (m, now) ∷ [])
          n
        ≡ Outcome.done arrived)
      × (arrived.events ≡ n.events ++ State.packet_callback id h.hash false (serialise l xs) ∷ [])
      × (packet_callback accepts submit (deserialise l) source h.hash (serialise l xs) (record {
        reactions = listen_all listens [];
        locked = false;
        data_store = none;
        source_store = none;
        world = world;
      })
          ≡ done (map (λ r. (r, got source xs)) (equal_range h.hash listens), end))
received l accepts submit all keeps source id h mtu xs before m now n r c several small known every
      apart empty listens world =
    let (arrived, taken, called) =
      receive_all-chunk id h mtu (serialise l xs) before m now n r c several small known every apart
        empty in
    let (end, e, reactions, free, data_empty, source_empty) =
      packet_callback-delivers accepts submit (deserialise l) all keeps source h.hash
        (serialise l xs) xs
        (record {
          reactions = listen_all listens [];
          locked = false;
          data_store = none;
          source_store = none;
          world = world;
        })
        refl (deserialise-serialise l xs) in
    (
      arrived,
      end,
      taken,
      called,
      e
          ∙ ap (λ rs. done (map (λ r. (r, got source xs)) rs, end))
              (equal_range-listen_all h.hash listens),
    )
