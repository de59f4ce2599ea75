-- ===== src/Dsl/Calls.antt =====
-- src/util/FunctionFusion.hpp: the calls of the functions with the ranges that the fusion found.
use nuclear.Base.{
  drop_all, drop-drop, ℕ, zero, suc, ◌-◌, ◌≤◌, ◌≡◌, refl, sym, ap, ◌∙◌, Bool, List, [], ◌∷◌, ◌++◌,
  length, take, drop, take-append-drop, arith,
}
use nuclear.Dsl.Arguments.{Splits}

unfoldable pub range {ℓ} : {X : Type ℓ} → ℕ → ℕ → List X → List X
range from to args = take (to - from) (drop from args)

-- `FunctionFusionCaller`: each function is called with the shared arguments and its range, and the
-- results are put behind one another; a function's result is a tuple, `tuplify` makes it one.
unfoldable pub call_all :
    {F X R : Type 0} → (F → List X → List R) → ℕ → List F → List (ℕ × ℕ) → List X → List R
unfolding range
call_all call shared [] ranges args = []
call_all call shared (f ∷ fs) [] args = []
call_all call shared (f ∷ fs) ((from, to) ∷ ranges) args =
    call f (take shared args ++ range from to args) ++ call_all call shared fs ranges args

drop_shared :
    {X : Type 0} (shared : ℕ) (args rest : List X)
    → shared ≤ length args
    → drop shared (take shared args ++ rest) ≡ rest
drop_shared zero args rest h = refl
drop_shared (suc n) [] rest h = absurd (omega arith)
drop_shared (suc n) (x ∷ args) rest h = drop_shared n args rest (omega arith)

range-drop :
    {X : Type 0} (from to : ℕ) (args : List X)
    → from ≤ to
    → range from to args ++ drop to args ≡ drop from args
unfolding range
range-drop from to args h =
    ap (λ k. take (to - from) (drop from args) ++ drop k args) (omega arith)
    ∙ ap (λ x. take (to - from) (drop from args) ++ x) (sym (drop-drop (to - from) from args))
    ∙ take-append-drop (to - from) (drop from args)

-- With the ranges of a split, every argument behind the shared ones reaches just one function, and their
-- order is kept: functions that return their own arguments give all of them back.
pub call_all_echo :
    {F X : Type 0} (callable : F → ℕ → ℕ → Bool) (shared start : ℕ) (args : List X) (fs : List F)
    (ranges : List (ℕ × ℕ))
    → shared ≤ length args
    → Splits callable (length args) fs start ranges
    → call_all (λ f own. drop shared own) shared fs ranges args ≡ drop start args
unfolding call_all
call_all_echo callable shared start args [] [] h s =
    sym (drop_all args) ∙ ap (λ k. drop k args) (sym s)
call_all_echo callable shared start args [] (r ∷ ranges) h s = absurd s
call_all_echo callable shared start args (f ∷ fs) [] h s = absurd s
call_all_echo callable shared start args (f ∷ fs) ((from, to) ∷ ranges) h s =
    ap (λ x. x ++ call_all (λ f own. drop shared own) shared fs ranges args)
      (drop_shared shared args (range from to args) h)
    ∙ ap (λ x. range from to args ++ x) (call_all_echo callable shared to args fs ranges h s.4)
    ∙ range-drop from to args (omega (arith, s.0, s.1))
    ∙ ap (λ k. drop k args) s.0
