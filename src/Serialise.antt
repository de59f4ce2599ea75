-- ===== src/Serialise.antt =====
-- src/util/serialise/Serialise.hpp: values as bytes. How a trivially copyable value lies in memory is a
-- parameter: copying its bytes and reading them back gives the value.
use nuclear.Base.{
  ℕ, zero, suc, ◌*◌, ◌/◌, ◌%◌, ◌<◌, ◌≡◌, refl, sym, ap, ◌∙◌, List, [], ◌∷◌, ◌++◌, Option, none,
  some, ◌==◌, ==_iff, if◌then◌else◌, length, length-append, take, drop, take-length-append,
  drop-length-append, arith,
}
use native.Mathlib.Nat.{mul-mod_right, mul-div_cancel_left}

pub record Layout (A : Type 0) : Type 0 where
  pub bytes : A → List ℕ
  pub value : List ℕ → A
  pub size : ℕ
  pub size_positive : 0 < size
  pub length-bytes : (x : A) → length (bytes x) ≡ size
  pub value-bytes : (x : A) → value (bytes x) ≡ x

module _ {A : Type 0} (l : Layout A) where
  -- Of one value.
  unfoldable pub serialise_value : A → List ℕ
  serialise_value x = l.bytes x

  unfoldable pub deserialise_value : List ℕ → Option A
  deserialise_value input = if length input == l.size then some (l.value input) else none

  -- Of a container of values; `none` is `std::length_error`.
  unfoldable pub serialise : List A → List ℕ
  serialise [] = []
  serialise (x ∷ xs) = l.bytes x ++ serialise xs

  unfoldable pub read_values : ℕ → List ℕ → List A
  read_values zero input = []
  read_values (suc n) input = l.value (take l.size input) ∷ read_values n (drop l.size input)

  unfoldable pub deserialise : List ℕ → Option (List A)
  deserialise input =
      if length input % l.size == 0 then some (read_values (length input / l.size) input) else none

  pub length-serialise : (xs : List A) → length (serialise xs) ≡ l.size * length xs
  unfolding serialise
  length-serialise [] = omega arith
  length-serialise (x ∷ xs) =
      length-append (l.bytes x) (serialise xs)
      ∙ grind (arith, l.length-bytes x, length-serialise xs)

  read_values-serialise : (xs : List A) → read_values (length xs) (serialise xs) ≡ xs
  unfolding read_values serialise
  read_values-serialise [] = refl
  read_values-serialise (x ∷ xs) =
      ap
        (λ n.
          l.value (take n (l.bytes x ++ serialise xs))
          ∷ read_values (length xs) (drop n (l.bytes x ++ serialise xs)))
        (sym (l.length-bytes x))
      ∙ ap
          (λ b.
            l.value b
            ∷ read_values (length xs) (drop (length (l.bytes x)) (l.bytes x ++ serialise xs)))
          (take-length-append (l.bytes x) (serialise xs))
      ∙ ap (λ d. l.value (l.bytes x) ∷ read_values (length xs) d)
          (drop-length-append (l.bytes x) (serialise xs))
      ∙ ap (λ v. v ∷ read_values (length xs) (serialise xs)) (l.value-bytes x)
      ∙ ap (◌∷◌ x) (read_values-serialise xs)

  pub deserialise-serialise : (xs : List A) → deserialise (serialise xs) ≡ some xs
  unfolding deserialise
  deserialise-serialise xs =
      rw
        (
          length-serialise xs,
          mul-mod_right l.size (length xs),
          mul-div_cancel_left (length xs) l.size_positive,
        )
        (ap some (read_values-serialise xs))

  pub deserialise_value-serialise_value : (x : A) → deserialise_value (serialise_value x) ≡ some x
  unfolding deserialise_value serialise_value
  deserialise_value-serialise_value x =
      rw ((==_iff (length (l.bytes x)) l.size).1 (l.length-bytes x)) (ap some (l.value-bytes x))
