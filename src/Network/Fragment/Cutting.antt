-- ===== src/Network/Fragment/Cutting.antt =====
-- The fragments that `send` of src/extension/network/NUClearNetwork.cpp cuts, end to end.
use nuclear.Base.{
  ℕ, zero, suc, ◌+◌, ◌*◌, ◌/◌, ◌%◌, ◌^◌, ◌<◌, ◌≤◌, ◌≡◌, refl, ap, sym, ◌∙◌, List, [], ◌∷◌, ◌++◌,
  length, drop, take-append-drop, take_all, length-drop, lt→ltb, not-ltb, arith, append-nil,
}
use native.Mathlib.Nat.{div-add-mod', zero-add}
use nuclear.Network.Fragment.{packet_count, chunk}

-- The fragments from number `k` on, `n` of them, end to end.
unfoldable pub join_from : (ℕ → List ℕ) → ℕ → ℕ → List ℕ
join_from f k zero = []
join_from f k (suc n) = f k ++ join_from f (suc k) n

drop_nil : (n : ℕ) → drop {A = ℕ} n [] ≡ []
drop_nil zero = refl
drop_nil (suc n) = refl

drop_by : {m n : ℕ} (xs : List ℕ) → m ≡ n → drop m xs ≡ drop n xs
drop_by xs e = ap (λ n. drop n xs) e

drop-drop : (a b : ℕ) (xs : List ℕ) → drop b (drop a xs) ≡ drop (a + b) xs
drop-drop zero b xs = drop_by xs (sym (zero-add b))
drop-drop (suc a) b [] = drop_nil b ∙ sym (drop_nil (suc a + b))
drop-drop (suc a) b (x ∷ xs) = drop-drop a b xs ∙ drop_by {m = suc (a + b)} (x ∷ xs) (omega arith)

drop_all : (n : ℕ) (xs : List ℕ) → length xs ≤ n → drop n xs ≡ []
drop_all zero [] h = refl
drop_all zero (x ∷ xs) h = absurd (omega arith)
drop_all (suc n) [] h = refl
drop_all (suc n) (x ∷ xs) h = drop_all n xs (omega arith)

module _ (mtu : ℕ) (payload : List ℕ) where
  abbrev count : ℕ
  count = suc (length payload / mtu)

  full_chunk :
      (k : ℕ)
      → suc k < count
      → chunk mtu count payload k ++ drop (suc k * mtu) payload ≡ drop (k * mtu) payload
  unfolding chunk
  full_chunk k h =
      rw
        (
          lt→ltb (k + 1) count (omega arith),
          (drop_by {m = suc k * mtu} payload (omega arith) ∙ sym (drop-drop (k * mtu) mtu payload)),
        )
        (take-append-drop mtu (drop (k * mtu) payload))

  last_chunk : (k : ℕ) → suc k ≡ count → chunk mtu count payload k ≡ drop (k * mtu) payload
  unfolding chunk
  last_chunk k e =
      rw (not-ltb (k + 1) count (omega arith))
        (take_all (length payload % mtu) (drop (k * mtu) payload) rest)
    where
      whole : k ≡ length payload / mtu
      whole = omega arith

      rest : length (drop (k * mtu) payload) ≤ length payload % mtu
      rest = rw whole (
          omega (
            arith,
            length-drop (length payload / mtu * mtu) payload,
            div-add-mod' (length payload) mtu,
          ))

  chunks_from :
      (n k : ℕ)
      → k + suc n ≡ count
      → join_from (chunk mtu count payload) k (suc n) ≡ drop (k * mtu) payload
  unfolding join_from
  chunks_from zero k e = append-nil _ ∙ last_chunk k (omega arith)
  chunks_from (suc n) k e = rw (chunks_from n (suc k) (omega arith)) (full_chunk k (omega arith))

-- A payload of fewer than 2^16 fragments is the join of its fragments, in order.
pub join_from-chunk :
    (mtu : ℕ) (payload : List ℕ)
    → length payload / mtu + 1 < 2 ^ 16
    → join_from (chunk mtu (packet_count mtu payload) payload) 0 (packet_count mtu payload)
      ≡ payload
unfolding packet_count
join_from-chunk mtu payload h =
    rw no_wrap (chunks_from mtu payload (length payload / mtu) 0 (omega arith) ∙ start)
  where
    no_wrap : (length payload / mtu + 1) % 2 ^ 16 ≡ suc (length payload / mtu)
    no_wrap = omega arith

    start : drop (0 * mtu) payload ≡ payload
    start = drop_by {n = 0} payload (omega arith)
