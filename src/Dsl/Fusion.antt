-- ===== src/Dsl/Fusion.antt =====
-- src/dsl/fusion: what a reaction's words decide together, from what each of them says for a task. A
-- fusion without words has no method; the lists of words here have a first one.
use nuclear.Base.{◌≡◌, refl, List, [], ◌∷◌, Option, none, some, Bool, true, false, ◌||◌}

-- `util::Inline`.
pub data Inline : Type 0 where
  always : Inline
  neutral : Inline
  never : Inline

-- The two choices of `InlineFuser`; `none` is the exception.
unfoldable pub agree : Inline → Inline → Option Inline
agree always never = none
agree never always = none
agree neutral b = some b
agree always _ = some always
agree never _ = some never

unfoldable pub run_inline : Inline → List Inline → Option Inline
run_inline word [] = some word
run_inline word (next ∷ words) = elim (run_inline next words) [
  | none ↦ none
  | some b ↦ agree word b
]

unfoldable pub wants_always : Inline → Bool
wants_always always = true
wants_always _ = false

unfoldable pub wants_never : Inline → Bool
wants_never never = true
wants_never _ = false

unfoldable pub some_word : (Inline → Bool) → Inline → List Inline → Bool
some_word p word [] = p word
some_word p word (next ∷ words) = p word || some_word p next words

-- What is chosen when some words say `ALWAYS`, and when some say `NEVER`.
unfoldable pub verdict : Bool → Bool → Option Inline
verdict true true = none
verdict true false = some always
verdict false true = some never
verdict false false = some neutral

agree-verdict :
    (word : Inline) (a n : Bool)
    → elim (verdict a n) [ none ↦ none | some b ↦ agree word b ]
      ≡ verdict (wants_always word || a) (wants_never word || n)
unfolding verdict agree wants_always wants_never
agree-verdict always true true = refl
agree-verdict always true false = refl
agree-verdict always false true = refl
agree-verdict always false false = refl
agree-verdict neutral true true = refl
agree-verdict neutral true false = refl
agree-verdict neutral false true = refl
agree-verdict neutral false false = refl
agree-verdict never true true = refl
agree-verdict never true false = refl
agree-verdict never false true = refl
agree-verdict never false false = refl

-- Fused in any order, the words throw just when one says `ALWAYS` and another `NEVER`; else they come to
-- the one choice that is made, or to `NEUTRAL` when none is.
pub run_inline-verdict :
    (word : Inline) (words : List Inline)
    → run_inline word words
      ≡ verdict (some_word wants_always word words) (some_word wants_never word words)
unfolding run_inline some_word
run_inline-verdict always [] = unfold verdict wants_always wants_never in refl
run_inline-verdict neutral [] = unfold verdict wants_always wants_never in refl
run_inline-verdict never [] = unfold verdict wants_always wants_never in refl
run_inline-verdict word (next ∷ words) =
    rw (run_inline-verdict next words)
      (agree-verdict word (some_word wants_always next words) (some_word wants_never next words))
