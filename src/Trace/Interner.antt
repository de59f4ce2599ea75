-- ===== src/Trace/Interner.antt =====
-- src/extension/trace/StringInterner.hpp: the ids of interned strings. The map is a list of keys with their
-- ids; `same` is the equality of keys, and `make` the name of a key.
use nuclear.Base.{ℕ, suc, List, [], ◌∷◌, Option, none, some, length, Bool, if◌then◌else◌}
use nuclear.Trace.Packets.{Packet, interned}

-- `StringInterner`.
abbrev pub Interner : Type 0 → Type 0
Interner K = List (K × ℕ)

module _ {K : Type 0} (same : K → K → Bool) where
  -- `interned.find`.
  unfoldable pub find : K → Interner K → Option ℕ
  find key [] = none
  find key ((k, iid) ∷ rest) = let later = find key rest in if same k key then some iid else later

  -- `operator[]`: the id, the packets that it writes, and the map after.
  unfoldable pub intern : ℕ → (K → List ℕ) → K → Interner K → ℕ × List Packet × Interner K
  intern field make key m = elim (find key m) [
    | some iid ↦ (iid, [], m)
    | none ↦
        (suc (length m), interned field (suc (length m)) (make key) ∷ [], (key, suc (length m)) ∷ m)
  ]
