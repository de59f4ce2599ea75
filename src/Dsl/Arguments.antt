-- ===== src/Dsl/Arguments.antt =====
-- src/util/FunctionFusion.hpp: how the arguments of `on` are shared out among the words that bind. The
-- compiler runs this code; which word can be called with which range of arguments is a parameter.
use nuclear.Base.{
  ℕ, zero, suc, ◌+◌, ◌-◌, ◌≤◌, ◌<◌, ◌≡◌, refl, sym, subst, ◌⊎◌, inl, inr, Bool, true, false, ◌&&◌,
  Bool-cases, Option, none, some, List, [], ◌∷◌, ◌==◌, ==_iff, if◌then◌else◌, dec_lt, arith,
}

-- What is found goes on, and the alternative stands in for a failure.
unfoldable pub or_else {ℓ} : {A : Type ℓ} → Option A → Option A → Option A
or_else none other = other
or_else (some a) other = some a

unfoldable pub with_range : ℕ × ℕ → Option (List (ℕ × ℕ)) → Option (List (ℕ × ℕ))
with_range r none = none
with_range r (some rs) = some (r ∷ rs)

-- `callable f start end` is `is_callable`, and `arguments` the number of arguments.
module _ {F : Type 0} (callable : F → ℕ → ℕ → Bool) (arguments : ℕ) where
  -- `FunctionFusion`: the functions left, `Start`, and how many values of `End` are left to try, of
  -- which the largest is `start + width - 1`; none are left when `Start > End`.
  unfoldable pub function_fusion : List F → ℕ → ℕ → Option (List (ℕ × ℕ))
  function_fusion [] start width = if width == 1 && start == arguments then some [] else none
  function_fusion (f ∷ fs) start zero = none
  function_fusion (f ∷ fs) start (suc width) =
      let end = start + width in
      let remainder = function_fusion fs end (arguments + 1 - end) in
      let one_less = function_fusion (f ∷ fs) start width in
      if callable f start end
      then or_else (with_range (start, end) remainder) one_less
      else one_less

  -- The instance that the fusions use: `Start` is `Shared`, and `End` the number of arguments.
  unfoldable pub fused : List F → ℕ → Option (List (ℕ × ℕ))
  fused fs shared = function_fusion fs shared (arguments + 1 - shared)

  -- The ranges follow one another from the first argument to the last, and each function can be called.
  abbrev pub Splits : List F → ℕ → List (ℕ × ℕ) → Type 0
  Splits [] start [] = start ≡ arguments
  Splits [] start (r ∷ rs) = ⊥
  Splits (f ∷ fs) start [] = ⊥
  Splits (f ∷ fs) start ((from, to) ∷ rs) =
      (from ≡ start)
      × (start ≤ to)
      × (to ≤ arguments)
      × (callable f start to ≡ true)
      × Splits fs to rs

  -- In the first range where they differ, the one of the first list is longer.
  abbrev pub Greedy : List (ℕ × ℕ) → List (ℕ × ℕ) → Type 0
  Greedy [] [] = Unit {0}
  Greedy ((a, b) ∷ rs) ((c, d) ∷ qs) = (d < b) ⊎ ((b ≡ d) × Greedy rs qs)
  Greedy [] (q ∷ qs) = ⊥
  Greedy (r ∷ rs) [] = ⊥

  abbrev Sound : List F → ℕ → Option (List (ℕ × ℕ)) → Type 0
  Sound fs start none = Unit {0}
  Sound fs start (some rs) = Splits fs start rs

  Sound-or_else :
      (fs : List F) (start : ℕ) (o p : Option (List (ℕ × ℕ)))
      → Sound fs start o
      → Sound fs start p
      → Sound fs start (or_else o p)
  unfolding or_else
  Sound-or_else fs start none p s t = t
  Sound-or_else fs start (some rs) p s t = s

  Sound-with_range :
      (f : F) (fs : List F) (start end : ℕ) (o : Option (List (ℕ × ℕ)))
      → start ≤ end
      → end ≤ arguments
      → callable f start end ≡ true
      → Sound fs end o
      → Sound (f ∷ fs) start (with_range (start, end) o)
  unfolding with_range
  Sound-with_range f fs start end none p q c s = tt
  Sound-with_range f fs start end (some rs) p q c s = (refl, p, q, c, s)

  Sound-if :
      (fs : List F) (start : ℕ) (b : Bool) (o p : Option (List (ℕ × ℕ)))
      → (b ≡ true → Sound fs start o)
      → Sound fs start p
      → Sound fs start (if b then o else p)
  Sound-if fs start true o p s t = s refl
  Sound-if fs start false o p s t = t

  Sound-end :
      (start : ℕ) (b c : Bool)
      → (c ≡ true → start ≡ arguments)
      → Sound [] start (if b && c then some [] else none)
  Sound-end start true true h = h refl
  Sound-end start true false h = tt
  Sound-end start false c h = tt

  pub function_fusion-Sound :
      (fs : List F) (start width : ℕ)
      → start + width ≤ arguments + 1
      → Sound fs start (function_fusion fs start width)
  unfolding function_fusion
  function_fusion-Sound [] start width h =
      Sound-end start (width == 1) (start == arguments) (==_iff start arguments).0
  function_fusion-Sound (f ∷ fs) start zero h = tt
  function_fusion-Sound (f ∷ fs) start (suc width) h =
      let one_less = function_fusion-Sound (f ∷ fs) start width (omega arith) in
      Sound-if (f ∷ fs) start (callable f start (start + width)) _ _
        (λ c.
          Sound-or_else (f ∷ fs) start _ _
            (Sound-with_range f fs start (start + width) _ (omega arith) (omega arith) c (
              function_fusion-Sound fs (start + width) (arguments + 1 - (start + width))
                (omega arith)))
            one_less)
        one_less

  -- What a search comes to beside a split.
  abbrev pub Best : List (ℕ × ℕ) → Option (List (ℕ × ℕ)) → Type 0
  Best qs none = ⊥
  Best qs (some rs) = Greedy rs qs

  Best-longer :
      (start end a b : ℕ) (qs : List (ℕ × ℕ)) (o p : Option (List (ℕ × ℕ)))
      → b < end
      → Best ((a, b) ∷ qs) p
      → Best ((a, b) ∷ qs) (or_else (with_range (start, end) o) p)
  unfolding or_else with_range
  Best-longer start end a b qs none p h best = best
  Best-longer start end a b qs (some rs) p h best = inl h

  Best-equal :
      (start end a b : ℕ) (qs : List (ℕ × ℕ)) (o p : Option (List (ℕ × ℕ)))
      → end ≡ b
      → Best qs o
      → Best ((a, b) ∷ qs) (or_else (with_range (start, end) o) p)
  unfolding or_else with_range
  Best-equal start end a b qs none p h best = absurd best
  Best-equal start end a b qs (some rs) p h best = inr (h, best)

  -- The first range of the split is one that the search still tries.
  abbrev InReach : ℕ → ℕ → List (ℕ × ℕ) → Type 0
  InReach start width [] = width ≡ 1
  InReach start width ((from, to) ∷ rs) = to < start + width

  InReach-rest :
      (fs : List F) (end : ℕ) (qs : List (ℕ × ℕ))
      → end ≤ arguments
      → Splits fs end qs
      → InReach end (arguments + 1 - end) qs
  InReach-rest [] end [] h s = omega arith
  InReach-rest [] end (q ∷ qs) h s = absurd s
  InReach-rest (f ∷ fs) end [] h s = absurd s
  InReach-rest (f ∷ fs) end ((from, to) ∷ qs) h s = omega arith

  pub function_fusion-Best :
      (fs : List F) (start width : ℕ) (qs : List (ℕ × ℕ))
      → start + width ≤ arguments + 1
      → Splits fs start qs
      → InReach start width qs
      → Best qs (function_fusion fs start width)
  unfolding function_fusion
  function_fusion-Best [] start width [] h s r =
      rw ((==_iff width 1).1 r, (==_iff start arguments).1 s) tt
  function_fusion-Best [] start width (q ∷ qs) h s r = absurd s
  function_fusion-Best (f ∷ fs) start width [] h s r = absurd s
  function_fusion-Best (f ∷ fs) start zero ((from, to) ∷ qs) h s r = absurd (omega (arith, s.1))
  function_fusion-Best (f ∷ fs) start (suc width) ((from, to) ∷ qs) h s r =
      let shorter = function_fusion-Best (f ∷ fs) start width ((from, to) ∷ qs) (omega arith) s in
      let remainder : (e : to ≡ start + width)
          → Best qs (function_fusion fs (start + width) (arguments + 1 - (start + width))) =
        λ e.
          function_fusion-Best fs (start + width) (arguments + 1 - (start + width)) qs (omega arith)
            (subst (λ end. Splits fs end qs) e s.4)
            (InReach-rest fs (start + width) qs (omega arith)
              (subst (λ end. Splits fs end qs) e s.4)) in
      elim (dec_lt to (start + width)) [
        | yes less ↦ elim (Bool-cases (callable f start (start + width))) [
          | inl c ↦ rw c (Best-longer start (start + width) from to qs _ _ less (shorter less))
          | inr c ↦ rw c (shorter less)
        ]
        | no full ↦
            let e : to ≡ start + width = omega arith in
            rw (subst (λ end. callable f start end ≡ true) e s.3)
              (Best-equal start (start + width) from to qs _ _ (sym e) (remainder e))
      ]

  found-Best :
      (fs : List F) (start : ℕ) (qs : List (ℕ × ℕ)) (o : Option (List (ℕ × ℕ)))
      → Sound fs start o
      → Best qs o
      → (rs : List (ℕ × ℕ)) × (o ≡ some rs) × Splits fs start rs × Greedy rs qs
  found-Best fs start qs none s b = absurd b
  found-Best fs start qs (some rs) s b = (rs, refl, s, b)

  -- If the arguments behind the shared ones can be split among the functions at all, the fusion comes to
  -- a split, and to the greedy one: in the first range in which it differs from another split, its own
  -- is longer.
  pub fused-Greedy :
      (fs : List F) (shared : ℕ) (qs : List (ℕ × ℕ))
      → shared ≤ arguments
      → Splits fs shared qs
      → (rs : List (ℕ × ℕ)) × (fused fs shared ≡ some rs) × Splits fs shared rs × Greedy rs qs
  unfolding fused
  fused-Greedy fs shared qs h s =
      found-Best fs shared qs _
        (function_fusion-Sound fs shared (arguments + 1 - shared) (omega arith))
        (function_fusion-Best fs shared (arguments + 1 - shared) qs (omega arith) s
          (InReach-rest fs shared qs h s))
