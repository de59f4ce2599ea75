-- ===== src/Dsl/Emit.antt =====
-- src/dsl/word/emit/Local.hpp, Inline.hpp, src/dsl/operation/TypeBind.hpp, CacheGet.hpp and src/dsl/store:
-- the emission of a value to the reactions that are bound to its type, on one thread.
use nuclear.Base.{
  true, false, ℕ, zero, suc, List, [], ◌∷◌, ◌++◌, Option, none, some, Bool, ◌&&◌, ◌==◌,
  if◌then◌else◌, length, get_elem?,
}

-- `Reaction`, as far as it matters here.
pub record Reaction : Type 0 where
  pub id : ℕ
  pub emit_stats : Bool

unfoldable pub erase_id : ℕ → List Reaction → List Reaction
erase_id id [] = []
erase_id id (r ∷ rs) = if r.id == id then rs else r ∷ erase_id id rs

-- What is stored for one type of data, of values `V`: `TypeCallbackStore`, `ThreadStore` and `DataStore`.
-- All else that a task may change is `world`.
pub record Stores (V W : Type 0) : Type 0 where
  pub callbacks : List Reaction
  pub thread_store : Option V
  pub data_store : Option V
  pub world : W

module _ {V W : Type 0} where
  -- `CacheGet::get`.
  unfoldable pub cache_get : Stores V W → Option V
  cache_get s = elim s.thread_store [ none ↦ s.data_store | some v ↦ some v ]

  -- `TypeBind::bind`; the flag is `EmitStats` of the type.
  unfoldable pub type_bind : Bool → Reaction → Stores V W → Stores V W
  type_bind stats r s = record s {
    callbacks = s.callbacks ++ (record r { emit_stats = r.emit_stats && stats }) ∷ [];
  }

  -- The unbinder of `TypeBind`.
  unfoldable pub type_unbind : ℕ → Stores V W → Stores V W
  type_unbind id s = record s { callbacks = erase_id id s.callbacks }

  unfoldable pub got_first :
      Reaction × Option V
      → Option (List (Reaction × Option V) × Stores V W)
      → Option (List (Reaction × Option V) × Stores V W)
  got_first g none = none
  got_first g (some (got, end)) = some (g ∷ got, end)

  -- The end of an emission: `ThreadStore` is cleared, and `DataStore` set.
  unfoldable pub finish :
      V
      → Option (List (Reaction × Option V) × Stores V W)
      → Option (List (Reaction × Option V) × Stores V W)
  finish value none = none
  finish value (some (got, end)) =
      some (got, record end { thread_store = none; data_store = some value })

  -- What a reaction gets when `get_task` is called: its words ask the cache only if it is enabled and its
  -- precondition holds, which `accepts` says.
  unfoldable pub asked : (Reaction → Stores V W → Bool) → Reaction → Stores V W → Option V
  asked accepts r s = if accepts r s then cache_get s else none

  -- `submit` is told what the reaction got, and may run its task at once, with all its effects; it is told
  -- whether to run inline, as `get_task` is.
  module _ (accepts : Reaction → Stores V W → Bool)
      (submit : Bool → Reaction → Option V → Stores V W → Stores V W) where
    -- The loop over the reactions, `rounds` before the end that it began with. Its iterators are invalid
    -- once the vector changed its size: `none` is what the standard leaves undefined. Beside the stores
    -- it comes to what each reaction got.
    unfoldable pub emit_loop :
        Bool → V → ℕ → ℕ → ℕ → Stores V W → Option (List (Reaction × Option V) × Stores V W)
    emit_loop inline value size zero i s = some ([], s)
    emit_loop inline value size (suc rounds) i s = elim (get_elem? s.callbacks i) [
      | none ↦ none
      | some r ↦
          let set = record s { thread_store = some value } in
          let after = submit inline r (asked accepts r set) set in
          let rest = emit_loop inline value size rounds (suc i) after in
          if length after.callbacks == size then got_first (r, asked accepts r set) rest else none
    ]

    -- The body of both emissions, which differ in what they ask for.
    unfoldable pub emit : Bool → V → Stores V W → Option (List (Reaction × Option V) × Stores V W)
    emit inline value s =
        finish value (emit_loop inline value (length s.callbacks) (length s.callbacks) 0 s)

    unfoldable pub emit_local : V → Stores V W → Option (List (Reaction × Option V) × Stores V W)
    emit_local = emit false

    unfoldable pub emit_inline : V → Stores V W → Option (List (Reaction × Option V) × Stores V W)
    emit_inline = emit true
