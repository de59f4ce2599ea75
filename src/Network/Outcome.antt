-- ===== src/Network/Outcome.antt =====
-- What a call of src/extension/network/NUClearNetwork.cpp comes to: a result, an exception, an access
-- outside an array or a datagram, which C++ leaves undefined, or a loop that does not end.
use nuclear.Base.{◌≡◌, refl}

pub data Outcome {ℓ} (A : Type ℓ) : Type ℓ where
  done : A → Outcome A
  raised : Outcome A
  fault : Outcome A
  hangs : Outcome A

infixl 5 ◌>>=◌
abbrev pub ◌>>=◌ {ℓ κ} : {A : Type ℓ} {B : Type κ} → Outcome A → (A → Outcome B) → Outcome B
done a >>= f = f a
raised >>= f = raised
fault >>= f = fault
hangs >>= f = hangs

pub >>=-eq-done {ℓ κ} :
    {A : Type ℓ} {B : Type κ} (m : Outcome A) (f : A → Outcome B) {b : B}
    → (m >>= f) ≡ done b
    → (a : A) × (m ≡ done a) × (f a ≡ done b)
>>=-eq-done (done a) f h = (a, refl, h)
>>=-eq-done raised f h = cc
>>=-eq-done fault f h = cc
>>=-eq-done hangs f h = cc
