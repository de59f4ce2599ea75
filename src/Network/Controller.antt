-- ===== src/Network/Controller.antt =====
-- src/extension/NetworkController.cpp and src/dsl/word/Network.hpp: the reactions that listen for a type, and
-- the packets that they get. A type is its hash. The payload and its source are on the stack of the
-- callback, and the stores of the thread point to them.
mod Listeners
pub mod Delivery
mod Tests
use nuclear.Base.{ℕ, List, [], ◌∷◌, Option, none, some, Bool, true, false, ◌==◌, ltb, if◌then◌else◌}

-- `NetworkSource`.
pub record NetworkSource : Type 0 where
  pub name : List ℕ
  pub address : ℕ
  pub reliable : Bool

-- `NetworkListen`.
pub record NetworkListen : Type 0 where
  pub hash : ℕ
  pub reaction : ℕ

-- The members, with the stores of the thread that handles packets. `locked` is whether this thread holds
-- `reaction_mutex`, and all else that a task may change is `world`.
pub record Controller (W : Type 0) : Type 0 where
  pub reactions : List NetworkListen
  pub locked : Bool
  pub data_store : Option (List ℕ)
  pub source_store : Option NetworkSource
  pub world : W

-- How a handler ends: `raised` is an exception, and `stuck` the second lock of a mutex by its thread.
pub data Ended (A : Type 0) : Type 0 where
  done : A → Ended A
  raised : A → Ended A
  stuck : Ended A

-- What `Network<T>::get` comes to, and `invalid` also for a task that is refused before it.
pub data Got (V : Type 0) : Type 0 where
  got : NetworkSource → V → Got V
  invalid : Got V
  thrown : Got V

-- `reactions.insert`: behind the entries of the same hash.
unfoldable pub insert : NetworkListen → List NetworkListen → List NetworkListen
insert l [] = l ∷ []
insert l (m ∷ ms) = let rest = insert l ms in if ltb l.hash m.hash then l ∷ m ∷ ms else m ∷ rest

-- `reactions.equal_range`: the reactions.
unfoldable pub equal_range : ℕ → List NetworkListen → List ℕ
equal_range hash [] = []
equal_range hash (m ∷ ms) =
    let rest = equal_range hash ms in if m.hash == hash then m.reaction ∷ rest else rest

-- The first entry of a reaction is erased.
unfoldable pub erase_reaction : ℕ → List NetworkListen → List NetworkListen
erase_reaction id [] = []
erase_reaction id (m ∷ ms) =
    let rest = erase_reaction id ms in if m.reaction == id then ms else m ∷ rest

-- "Network Bind".
unfoldable pub network_bind : {W : Type 0} → NetworkListen → Controller W → Ended (Controller W)
network_bind l s = if s.locked then stuck else done (record s { reactions = insert l s.reactions })

-- "Network Unbind".
unfoldable pub network_unbind : {W : Type 0} → ℕ → Controller W → Ended (Controller W)
network_unbind id s =
    if s.locked then stuck else done (record s { reactions = erase_reaction id s.reactions })

abbrev pub read_or_throw : {V : Type 0} → Option V → NetworkSource → Got V
read_or_throw none source = thrown
read_or_throw (some v) source = got source v

unfoldable pub got_from :
    {V : Type 0} → (List ℕ → Option V) → Option (List ℕ) → Option NetworkSource → Got V
got_from read (some payload) (some source) = read_or_throw (read payload) source
got_from read (some payload) none = invalid
got_from read none source = invalid

-- `Network<T>::get`, with the `deserialise` of the type.
unfoldable pub get : {V W : Type 0} → (List ℕ → Option V) → Controller W → Got V
get read s = got_from read s.data_store s.source_store

-- What each reaction got, and the state then.
abbrev pub Deliveries : (V W : Type 0) → Type 0
Deliveries V W = List (ℕ × Got V) × Controller W

unfoldable pub also : {V W : Type 0} → ℕ × Got V → Ended (Deliveries V W) → Ended (Deliveries V W)
also g (done (gs, s)) = done (g ∷ gs, s)
also g (raised (gs, s)) = raised (g ∷ gs, s)
also g stuck = stuck

-- What follows `get_task`, unless `get` threw.
unfoldable pub after_get :
    {V W : Type 0}
    → Got V
    → ℕ
    → Controller W
    → (Got V → Ended (Deliveries V W))
    → Ended (Deliveries V W)
after_get thrown r s rest = raised ([], s)
after_get invalid r s rest = also (r, invalid) (rest invalid)
after_get (got source v) r s rest = also (r, got source v) (rest (got source v))

-- The end of the callback: the stores are cleared after the loop, and the lock is given back in any case.
unfoldable pub finish : {V W : Type 0} → Ended (Deliveries V W) → Ended (Deliveries V W)
finish (done (gs, s)) =
    done (gs, record s { locked = false; data_store = none; source_store = none })
finish (raised (gs, s)) = raised (gs, record s { locked = false })
finish stuck = stuck

-- `accepts` is whether `get_task` comes to `get`. `submit` is told what the reaction got, and may run its
-- task at once, with all its effects. All reactions of the loop are for one type, whose `deserialise`
-- is `read`.
module _ {V W : Type 0} (accepts : ℕ → Controller W → Bool)
    (submit : ℕ → Got V → Controller W → Controller W) (read : List ℕ → Option V) where
  -- The loop over the reactions.
  unfoldable pub each_reaction :
      NetworkSource → List ℕ → List ℕ → Controller W → Ended (Deliveries V W)
  each_reaction source payload [] s = done ([], s)
  each_reaction source payload (r ∷ rs) s =
      let set : Controller W = record s { data_store = some payload; source_store = some source } in
      let g : Got V = if accepts r set then get read set else invalid in
      after_get g r set (λ g. each_reaction source payload rs (submit r g set))

  -- The callback for a packet.
  unfoldable pub packet_callback :
      NetworkSource → ℕ → List ℕ → Controller W → Ended (Deliveries V W)
  packet_callback source hash payload s =
      if s.locked
      then stuck
      else finish
          (each_reaction source payload (equal_range hash s.reactions) (record s { locked = true }))
