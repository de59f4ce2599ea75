-- ===== src/Dsl/Delivery.antt =====
-- src/dsl/word/emit/Local.hpp and Inline.hpp: which reactions an emission reaches, and with what.
use nuclear.Base.{
  ℕ, suc, ◌≡◌, ◌≢◌, refl, sym, ap, ◌∙◌, List, [], ◌∷◌, ◌++◌, map, append_assoc, Option, none, some,
  Bool, Bool-cases, true, ◌⊎◌, inl, inr, ◌==◌, ==_iff, if◌then◌else◌, length, get_elem?,
  length-append, arith,
}
use nuclear.Dsl.Emit.{
  Reaction, Stores, cache_get, erase_id, got_first, finish, asked, emit_loop, emit,
}

get_elem?-append :
    {A : Type 0} (done : List A) (x : A) (todo : List A)
    → get_elem? (done ++ x ∷ todo) (length done) ≡ some x
get_elem?-append [] x todo = refl
get_elem?-append (y ∷ done) x todo = get_elem?-append done x todo

module _ {V W : Type 0} (accepts : Reaction → Stores V W → Bool)
    (submit : Bool → Reaction → Option V → Stores V W → Stores V W) where
  -- The state when the reaction has been submitted, for what it got.
  abbrev pub submitted : Bool → V → Reaction → Stores V W → Stores V W
  submitted inline value r s =
      submit inline r (asked accepts r (record s { thread_store = some value }))
        (record s { thread_store = some value })

  -- A round that finds its reaction and leaves the vector its size.
  emit_loop_round :
      (inline : Bool) (value : V) (size rounds i : ℕ) (s : Stores V W) (r : Reaction)
      → get_elem? s.callbacks i ≡ some r
      → length (submitted inline value r s).callbacks ≡ size
      → emit_loop accepts submit inline value size (suc rounds) i s
        ≡ got_first
            (r, asked accepts r (record s { thread_store = some value }))
            (emit_loop accepts submit inline value size rounds (suc i) (submitted inline value r s))
  unfolding emit_loop
  emit_loop_round inline value size rounds i s r p q =
      rw (p, emit_loop) (rw ((==_iff _ size).1 q) refl)

  -- A round whose task changes the size of the vector.
  emit_loop_fault :
      (inline : Bool) (value : V) (size rounds i : ℕ) (s : Stores V W) (r : Reaction)
      → get_elem? s.callbacks i ≡ some r
      → length (submitted inline value r s).callbacks ≢ size
      → emit_loop accepts submit inline value size (suc rounds) i s ≡ none
  unfolding emit_loop
  emit_loop_fault inline value size rounds i s r p q = rw (p, emit_loop) (ground arith)

  -- Which reactions are enabled and accept the value, whatever ran before.
  abbrev pub Steady : (Reaction → Bool) → Type 0
  Steady takes = (r : Reaction) (s : Stores V W) → accepts r s ≡ takes r

  module _ (inline : Bool) (value : V) (takes : Reaction → Bool) where
    abbrev pub delivery : Reaction → Reaction × Option V
    delivery r = (r, if takes r then some value else none)

    asked_lem :
        Steady takes
        → (r : Reaction) (s : Stores V W)
        → asked accepts r (record s { thread_store = some value })
          ≡ (if takes r then some value else none)
    unfolding asked cache_get
    asked_lem steady r s = rw (steady r (record s { thread_store = some value })) refl

    -- What the loop comes to when no submission changes the vector, with `todo` still to be visited.
    emit_loop_delivers :
        Steady takes
        → ((r : Reaction) (o : Option V) (s : Stores V W)
            → (submit inline r o s).callbacks ≡ s.callbacks)
        → (all done todo : List Reaction) (i : ℕ) (s : Stores V W) → all ≡ done ++ todo
        → i ≡ length done
        → s.callbacks ≡ all
        → (end : Stores V W) × (emit_loop accepts submit inline value (length all) (length todo) i s
            ≡ some (map delivery todo, end))
          × (end.callbacks ≡ all)
    unfolding got_first
    emit_loop_delivers steady keeps all done [] i s p q e = (s, unfold emit_loop in refl, e)
    emit_loop_delivers steady keeps all done (r ∷ todo) i s p q e =
        let set : Stores V W = record s { thread_store = some value } in
        let after = submitted inline value r s in
        let same : after.callbacks ≡ all = keeps r (asked accepts r set) set ∙ e in
        let (end, h, k) =
          emit_loop_delivers steady keeps all (done ++ r ∷ []) todo (suc i) after
            (p ∙ sym (append_assoc done (r ∷ []) todo))
            (omega (arith, length-append {0} done (r ∷ []))) same in
        (
          end,
          emit_loop_round inline value (length all) (length todo) i s r
                (rw (e, p, q) (get_elem?-append done r todo)) (ap length same)
              ∙ ap (got_first (r, asked accepts r set)) h
              ∙ ap (λ o. some ((r, o) ∷ map delivery todo, end)) (asked_lem steady r s),
          k,
        )

    -- Whatever the tasks do that run at once, nested emissions of the same type included, as long as they
    -- neither bind nor unbind a reaction to it, and whether a reaction is enabled and accepts the value
    -- does not change meanwhile: the emission visits every reaction in the order of their binding, each
    -- that accepts it gets the emitted value and no other gets anything, and afterwards the value is
    -- in the `DataStore` and the `ThreadStore` is empty.
    pub emit-delivers :
        Steady takes
        → ((r : Reaction) (o : Option V) (s : Stores V W)
            → (submit inline r o s).callbacks ≡ s.callbacks)
        → (s : Stores V W)
        → (end : Stores V W) × (emit accepts submit inline value s
            ≡ some (map delivery s.callbacks, end))
          × (end.callbacks ≡ s.callbacks)
          × (end.thread_store ≡ none)
          × (end.data_store ≡ some value)
    unfolding emit
    emit-delivers steady keeps s =
        let (end, h, k) =
          emit_loop_delivers steady keeps s.callbacks [] s.callbacks 0 s refl refl refl in
        (
          record end { thread_store = none; data_store = some value },
          ap (finish value) h ∙ unfold finish in refl,
          k,
          refl,
          refl,
        )

erase_id-shorter :
    (id : ℕ) (before : List Reaction) (r : Reaction) (after : List Reaction)
    → r.id ≡ id
    → suc (length (erase_id id (before ++ r ∷ after))) ≡ length (before ++ r ∷ after)
unfolding erase_id
erase_id-shorter id [] r after h = rw ((==_iff r.id id).1 h) refl
erase_id-shorter id (b ∷ before) r after h = ground (arith, erase_id-shorter id before r after h)

-- What a submission does to the bindings when the reaction `once` runs at once and unbinds itself.
abbrev pub unbinds_itself : ℕ → Reaction → List Reaction → List Reaction
unbinds_itself once r callbacks = if r.id == once then erase_id once callbacks else callbacks

module _ {V W : Type 0} (accepts : Reaction → Stores V W → Bool)
    (submit : Bool → Reaction → Option V → Stores V W → Stores V W) (inline : Bool) (value : V)
    (once : ℕ) (accepted : (r : Reaction) (s : Stores V W) → r.id ≡ once → accepts r s ≡ true)
    (unbinds : (r : Reaction) (v : V) (s : Stores V W)
      → (submit inline r (some v) s).callbacks ≡ unbinds_itself once r s.callbacks)
    (refuses : (r : Reaction) (s : Stores V W)
      → (submit inline r none s).callbacks ≡ s.callbacks) where
  -- The bindings when a reaction has got the value, or was refused.
  after_asked :
      (r : Reaction) (o : Option V) (s : Stores V W)
      → (r.id ≡ once → o ≡ some value)
      → ((o ≡ some value) ⊎ (o ≡ none))
      → (submit inline r o s).callbacks ≡ unbinds_itself once r s.callbacks
  after_asked r o s h (inl e) = rw e (unbinds r value s)
  after_asked r o s h (inr e) = elim (Bool-cases (r.id == once)) [
    | inl y ↦ absurd (let contradiction = h ((==_iff r.id once).0 y) in cc)
    | inr n ↦ rw (e, n) (refuses r s)
  ]

  asked_cases :
      (r : Reaction) (s : Stores V W)
      → let o = asked accepts r (record s { thread_store = some value }) in
        (r.id ≡ once → o ≡ some value) × ((o ≡ some value) ⊎ (o ≡ none))
  unfolding asked cache_get
  asked_cases r s =
      let set : Stores V W = record s { thread_store = some value } in
      (
        λ h. rw (accepted r set h) refl,
        elim (Bool-cases (accepts r set)) [ inl y ↦ inl (rw y refl) | inr n ↦ inr (rw n refl) ],
      )

  bindings_after :
      (r : Reaction) (all : List Reaction) (s : Stores V W)
      → s.callbacks ≡ all
      → (submitted accepts submit inline value r s).callbacks ≡ unbinds_itself once r all
  bindings_after r all s e =
      let set : Stores V W = record s { thread_store = some value } in
      let (must, either) = asked_cases r s in
      after_asked r (asked accepts r set) set must either ∙ ap (unbinds_itself once r) e

  -- The round of a reaction that unbinds itself.
  emit_loop_self :
      (all done : List Reaction) (r : Reaction) (after : List Reaction) (rounds i : ℕ)
      (s : Stores V W)
      → r.id ≡ once
      → all ≡ done ++ r ∷ after
      → i ≡ length done
      → s.callbacks ≡ all
      → emit_loop accepts submit inline value (length all) (suc rounds) i s ≡ none
  emit_loop_self all done r after rounds i s h p q e =
      emit_loop_fault accepts submit inline value (length all) rounds i s r
        (rw (e, p, q) (get_elem?-append done r after))
        (λ same.
          let erased : (submitted accepts submit inline value r s).callbacks ≡ erase_id once all =
            bindings_after r all s e
            ∙ ap (λ b. if b then erase_id once all else all) ((==_iff r.id once).1 h) in
          omega (
            arith,
            erase_id-shorter once done r after h,
            ap (λ c. length (erase_id once c)) p,
            ap length p,
            ap length erased,
            same,
          ))

  emit_loop_once :
      (all done before : List Reaction) (r : Reaction) (after : List Reaction) (i : ℕ)
      (s : Stores V W)
      → r.id ≡ once
      → all ≡ done ++ (before ++ r ∷ after)
      → i ≡ length done
      → s.callbacks ≡ all
      → emit_loop accepts submit inline value (length all) (length (before ++ r ∷ after)) i s ≡ none
  unfolding got_first
  emit_loop_once all done [] r after i s h p q e =
      emit_loop_self all done r after (length after) i s h p q e
  emit_loop_once all done (b ∷ before) r after i s h p q e =
      let set : Stores V W = record s { thread_store = some value } in
      let next = submitted accepts submit inline value b s in
      let rest =
        emit_loop_once all (done ++ b ∷ []) before r after (suc i) next h
          (p ∙ sym (append_assoc done (b ∷ []) (before ++ r ∷ after)))
          (omega (arith, length-append {0} done (b ∷ []), q)) in
      elim (Bool-cases (b.id == once)) [
        | inl self ↦
            emit_loop_self all done b (before ++ r ∷ after) (length (before ++ r ∷ after)) i s
              ((==_iff b.id once).0 self) p q e
        | inr other ↦
            let same : next.callbacks ≡ all =
              bindings_after b all s e ∙ ap (λ t. if t then erase_id once all else all) other in
            emit_loop_round accepts submit inline value (length all) (length (before ++ r ∷ after))
              i s b (rw (e, p, q) (get_elem?-append done b (before ++ r ∷ after))) (ap length same)
            ∙ ap (got_first (b, asked accepts b set)) (rest same)
      ]

  -- A reaction that accepts the value, runs at once and unbinds itself, as `Once` does, is erased from the
  -- vector that the emission is running through. When the other tasks leave the vector alone: wherever the reaction stands
  -- in it, the emission runs into undefined behaviour.
  pub emit_once_fault :
      (s : Stores V W) (before : List Reaction) (r : Reaction) (after : List Reaction)
      → r.id ≡ once
      → s.callbacks ≡ before ++ r ∷ after
      → emit accepts submit inline value s ≡ none
  unfolding emit finish
  emit_once_fault s before r after h e = ap (finish value) (
      ap (λ n. emit_loop accepts submit inline value (length s.callbacks) n 0 s) (ap length e)
      ∙ emit_loop_once s.callbacks [] before r after 0 s h e refl refl)
