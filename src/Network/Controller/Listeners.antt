-- ===== src/Network/Controller/Listeners.antt =====
-- src/extension/NetworkController.cpp: the multimap of the reactions, by the hash of their type.
use nuclear.Base.{
  ℕ, ◌≤◌, ◌<◌, ◌≡◌, refl, sym, ap, ◌∙◌, List, [], ◌∷◌, ◌++◌, append-nil, append_assoc, true, ◌==◌,
  ==_iff, ltb, ltb→lt, arith, Bool-cases, inl, inr,
}
use nuclear.Network.Controller.{NetworkListen, insert, equal_range}

-- The hashes are in order, none below a bound.
unfoldable pub Sorted : ℕ → List NetworkListen → Type 0
Sorted low [] = low ≤ low
Sorted low (m ∷ ms) = (low ≤ m.hash) × Sorted m.hash ms

Sorted-weaken :
    (low high : ℕ) (ms : List NetworkListen) → low ≤ high → Sorted high ms → Sorted low ms
unfolding Sorted
Sorted-weaken low high [] h s = omega arith
Sorted-weaken low high (m ∷ ms) h s = (omega (arith, s.0), s.1)

pub Sorted-insert :
    (low : ℕ) (l : NetworkListen) (ms : List NetworkListen)
    → low ≤ l.hash
    → Sorted low ms
    → Sorted low (insert l ms)
unfolding Sorted insert
Sorted-insert low l [] h s = (h, omega arith)
Sorted-insert low l (m ∷ ms) h s = elim (Bool-cases (ltb l.hash m.hash)) [
  | inl y ↦ rw y (h, (ground arith, s.1))
  | inr n ↦ rw n (s.0, Sorted-insert m.hash l ms (ground arith) s.1)
]

-- A hash below all entries has none.
equal_range-Sorted :
    (hash low : ℕ) (ms : List NetworkListen) → hash < low → Sorted low ms → equal_range hash ms ≡ []
unfolding Sorted equal_range
equal_range-Sorted hash low [] h s = refl
equal_range-Sorted hash low (m ∷ ms) h s =
    let rest = equal_range-Sorted hash m.hash ms (omega (arith, s.0)) s.1 in
    elim (Bool-cases (m.hash == hash)) [
      | inl y ↦ absurd (omega (arith, s.0, (==_iff m.hash hash).0 y))
      | inr n ↦ rw n rest
    ]

-- An entry that goes to the front of a list.
first-appended :
    (hash : ℕ) (l : NetworkListen) (ms : List NetworkListen)
    → ((l.hash == hash) ≡ true → equal_range hash ms ≡ [])
    → equal_range hash (l ∷ ms) ≡ equal_range hash ms ++ equal_range hash (l ∷ [])
unfolding equal_range
first-appended hash l ms h = elim (Bool-cases (l.hash == hash)) [
  | inl y ↦ rw (y, h y) refl
  | inr n ↦ rw n (sym (append-nil (equal_range hash ms)))
]

-- An entry in front of both lists.
in_front :
    (hash : ℕ) (m : NetworkListen) (xs ms : List NetworkListen) (ys : List ℕ)
    → equal_range hash xs ≡ equal_range hash ms ++ ys
    → equal_range hash (m ∷ xs) ≡ equal_range hash (m ∷ ms) ++ ys
unfolding equal_range
in_front hash m xs ms ys e = elim (Bool-cases (m.hash == hash)) [
  | inl y ↦ rw y (ap (λ qs. m.reaction ∷ qs) e)
  | inr n ↦ rw n e
]

-- An entry is found behind those of its hash, and not with another.
pub equal_range-insert :
    (hash low : ℕ) (l : NetworkListen) (ms : List NetworkListen)
    → Sorted low ms
    → equal_range hash (insert l ms) ≡ equal_range hash ms ++ equal_range hash (l ∷ [])
unfolding Sorted insert
equal_range-insert hash low l [] s = unfold equal_range in refl
equal_range-insert hash low l (m ∷ ms) s = elim (Bool-cases (ltb l.hash m.hash)) [
  | inl y ↦ rw y (
      first-appended hash l (m ∷ ms) (λ e.
        equal_range-Sorted hash m.hash (m ∷ ms)
          (omega (arith, (==_iff l.hash hash).0 e, ltb→lt l.hash m.hash y)) (omega arith, s.1)))
  | inr n ↦
      let rest = equal_range-insert hash m.hash l ms s.1 in
      rw n (in_front hash m (insert l ms) ms (equal_range hash (l ∷ [])) rest)
]

-- The reactions that have listened, one after the other.
unfoldable pub listen_all : List NetworkListen → List NetworkListen → List NetworkListen
listen_all [] ms = ms
listen_all (l ∷ ls) ms = listen_all ls (insert l ms)

-- The reactions for a hash are those that have listened for it, in that order.
equal_range-listen_all_from :
    (hash : ℕ) (ls ms : List NetworkListen)
    → Sorted 0 ms
    → equal_range hash (listen_all ls ms) ≡ equal_range hash ms ++ equal_range hash ls
unfolding listen_all
equal_range-listen_all_from hash [] ms s =
    sym (append-nil (equal_range hash ms)) ∙ unfold equal_range in refl
equal_range-listen_all_from hash (l ∷ ls) ms s =
    equal_range-listen_all_from hash ls (insert l ms) (Sorted-insert 0 l ms (omega arith) s)
    ∙ ap (λ qs. qs ++ equal_range hash ls) (equal_range-insert hash 0 l ms s)
    ∙ append_assoc (equal_range hash ms) (equal_range hash (l ∷ [])) (equal_range hash ls)
    ∙ ap (λ qs. equal_range hash ms ++ qs)
        (sym (in_front hash l ls [] (equal_range hash ls) (unfold equal_range in refl)))

pub equal_range-listen_all :
    (hash : ℕ) (ls : List NetworkListen) → equal_range hash (listen_all ls []) ≡ equal_range hash ls
equal_range-listen_all hash ls =
    equal_range-listen_all_from hash ls [] (unfold Sorted in omega arith)
    ∙ unfold equal_range in refl
