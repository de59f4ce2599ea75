-- ===== src/Dsl/Last.antt =====
-- src/dsl/word/Last.hpp, and its merging of transient data in src/util/CallbackGenerator.hpp: the latest
-- values that a reaction is handed, for tasks that are made one after the other.
use nuclear.Base.{
  ℕ, ◌-◌, ◌≡◌, refl, sym, ap, ◌∙◌, Bool, true, false, List, [], ◌∷◌, ◌++◌, append_assoc, length,
  length-append, length-drop, drop, drop_nil, drop-append_le, drop-drop, append-nil, dec_lt, lt→ltb,
  not-ltb, ltb, if◌then◌else◌, arith,
}

module _ {A : Type 0} where
  -- `LastItemStorage` of one value, as `wrap` makes it.
  unfoldable pub wrapped : A → List A
  wrapped x = x ∷ []

  -- `operator bool`.
  unfoldable pub is_present : List A → Bool
  is_present [] = false
  is_present (x ∷ xs) = true

  -- The transient list after the new items were put behind it and it was truncated.
  unfoldable pub stored : ℕ → List A → List A → List A
  stored n t d =
      let both = t ++ d in if ltb n (length both) then drop (length both - n) both else both

  -- `MergeTransients::merge`: the transient list, and what the data list becomes.
  unfoldable pub merge : ℕ → List A → List A → List A × List A
  merge n t d = (stored n t d, stored n t d)

  -- What the tasks made from values, one after the other, are handed, and the list in the end.
  unfoldable pub deliver : ℕ → List A → List A → List (List A) × List A
  deliver n t [] = ([], t)
  deliver n t (x ∷ xs) =
      let (t', d) = merge n t (wrapped x) in let (given, end) = deliver n t' xs in (d ∷ given, end)

  -- The last `n` of a list.
  unfoldable pub latest : ℕ → List A → List A
  latest n xs = drop (length xs - n) xs

  stored-eq-latest : (n : ℕ) (t d : List A) → stored n t d ≡ latest n (t ++ d)
  unfolding stored latest
  stored-eq-latest n t d = elim (dec_lt n (length (t ++ d))) [
    | yes h ↦ rw (lt→ltb n (length (t ++ d)) h) refl
    | no h ↦
        rw (not-ltb n (length (t ++ d)) (omega arith))
          (let e : 0 ≡ length (t ++ d) - n = omega arith in ap (λ k. drop k (t ++ d)) e)
  ]

  latest_nil : (n : ℕ) → latest n [] ≡ []
  unfolding latest
  latest_nil n = drop_nil (0 - n)

  latest-append : (n : ℕ) (xs ys : List A) → latest n (latest n xs ++ ys) ≡ latest n (xs ++ ys)
  unfolding latest
  latest-append n xs ys =
      let k = length xs - n in
      ap (λ zs. drop (length zs - n) zs) (sym (drop-append_le k xs ys (omega arith)))
      ∙ drop-drop (length (drop k (xs ++ ys)) - n) k (xs ++ ys)
      ∙ ap (λ j. drop j (xs ++ ys))
          (omega (arith, length-drop {0} k (xs ++ ys), length-append {0} xs ys))

  -- The last `n` of what came so far, for each value in turn.
  unfoldable pub windows : ℕ → List A → List A → List (List A)
  windows n before [] = []
  windows n before (x ∷ xs) = latest n (before ++ x ∷ []) ∷ windows n (before ++ x ∷ []) xs

  deliver-after :
      (n : ℕ) (before xs : List A)
      → deliver n (latest n before) xs ≡ (windows n before xs, latest n (before ++ xs))
  unfolding deliver merge wrapped windows
  deliver-after n before [] = ap (λ t. ([], t)) (ap (latest n) (sym (append-nil before)))
  deliver-after n before (x ∷ xs) =
      let e : stored n (latest n before) (x ∷ []) ≡ latest n (before ++ x ∷ []) =
        stored-eq-latest n (latest n before) (x ∷ []) ∙ latest-append n before (x ∷ []) in
      ap (λ d. let (given, end) = deliver n d xs in (d ∷ given, end)) e
      ∙ ap (λ r. (latest n (before ++ x ∷ []) ∷ r.0, r.1)) (deliver-after n (before ++ x ∷ []) xs)
      ∙ ap (λ zs. (latest n (before ++ x ∷ []) ∷ windows n (before ++ x ∷ []) xs, latest n zs))
          (append_assoc before (x ∷ []) xs)

  -- Each task is handed the last `n` of the values so far, its own included and in their order, and no
  -- more are kept.
  pub deliver-windows : (n : ℕ) (xs : List A) → deliver n [] xs ≡ (windows n [] xs, latest n xs)
  deliver-windows n xs = ap (λ t. deliver n t xs) (sym (latest_nil n)) ∙ deliver-after n [] xs
