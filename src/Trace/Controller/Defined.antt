-- ===== src/Trace/Controller/Defined.antt =====
-- src/extension/TraceController.cpp: which packets of a file refer to which earlier ones.
use nuclear.Base.{
  ℕ, suc, ◌==◌, ◌≡◌, refl, sym, subst, ap, ◌∙◌, List, [], ◌∷◌, ◌++◌, append_assoc, some, Bool, true,
  false, ◌&&◌, ◌||◌, arith, length, Option-cases, Bool-cases, inl, inr, if◌then◌else◌,
}
use mathlib.Core.Option.{some-injective}
use nuclear.Trace.Packets.{
  Packet, TrackEvent, process_track, thread_tracks, interned, reaction_event, log_event, reset,
}
use nuclear.Trace.Interner.{Interner, find, intern}
use nuclear.Trace.Controller.{write_packets}

-- The packet of an interned string, by its kind and id, and the packets of tracks, by their ids.
unfoldable pub defines_iid : ℕ → ℕ → Packet → Bool
defines_iid kind iid process_track = false
defines_iid kind iid (thread_tracks uuid parent name) = false
defines_iid kind iid (interned k i name) = (k == kind) && (i == iid)
defines_iid kind iid (reaction_event e flow) = false
defines_iid kind iid (log_event e body prio) = false
defines_iid kind iid reset = false

unfoldable pub defines_track : ℕ → Packet → Bool
defines_track uuid process_track = uuid == 1
defines_track uuid (thread_tracks u parent name) = u == uuid
defines_track uuid (interned k i name) = false
defines_track uuid (reaction_event e flow) = false
defines_track uuid (log_event e body prio) = false
defines_track uuid reset = false

unfoldable pub any : (Packet → Bool) → List Packet → Bool
any test [] = false
any test (p ∷ ps) = test p || any test ps

-- What an event or a log message refers to: the tracks of its thread, and its interned strings.
pub record EventDefined (e : TrackEvent) (file : List Packet) : Type 0 where
  pub on_track : any (defines_track e.track) file ≡ true
  pub counter : e.counter_track ≡ suc e.track
  pub named : any (defines_iid 2 e.name_iid) file ≡ true
  pub in_category : any (defines_iid 1 e.category_iid) file ≡ true
  pub of_kind : any (defines_iid 1 e.kind_iid) file ≡ true

unfoldable pub Uses : Packet → List Packet → Type 0
Uses process_track older = Unit {0}
Uses (thread_tracks uuid parent name) older = any (defines_track parent) older ≡ true
Uses (interned k i name) older = Unit {0}
Uses (reaction_event e flow) older = EventDefined e older
Uses (log_event e body prio) older = EventDefined e older × (any (defines_iid 20 body) older ≡ true)
Uses reset older = Unit {0}

-- Each packet refers only to tracks and strings that packets before it define.
unfoldable pub WellDefined : List Packet → Type 0
WellDefined [] = Unit {0}
WellDefined (p ∷ older) = Uses p older × WellDefined older

-- Every id of a map passes a test of the file.
abbrev pub AllIn : {K : Type 0} → (ℕ → Packet → Bool) → List (K × ℕ) → List Packet → Type 0
AllIn test [] file = Unit {0}
AllIn test (x ∷ rest) file = (any (test x.1) file ≡ true) × AllIn test rest file

abbrev pub Extends : List Packet → List Packet → Type 0
Extends file longer = (ps : List Packet) × (longer ≡ ps ++ file)

pub Extends-trans : (f g h : List Packet) → Extends f g → Extends g h → Extends f h
Extends-trans f g h (ps, e) (qs, d) =
    (qs ++ ps, d ∙ ap (λ x. qs ++ x) e ∙ sym (append_assoc qs ps f))

any-extends :
    (test : Packet → Bool) (ps f : List Packet) → any test f ≡ true → any test (ps ++ f) ≡ true
unfolding any
any-extends test [] f h = h
any-extends test (p ∷ ps) f h = elim (Bool-cases (test p)) [
  | inl e ↦ rw e refl
  | inr e ↦ rw e (any-extends test ps f h)
]

pub any_mono :
    (test : Packet → Bool) (f g : List Packet) → Extends f g → any test f ≡ true → any test g ≡ true
any_mono test f g (ps, e) h = subst (λ x. any test x ≡ true) (sym e) (any-extends test ps f h)

pub AllIn-mono :
    {K : Type 0} (test : ℕ → Packet → Bool) (m : List (K × ℕ)) (f g : List Packet)
    → Extends f g
    → AllIn test m f
    → AllIn test m g
AllIn-mono test [] f g ext all = tt
AllIn-mono test (x ∷ rest) f g ext all =
    (any_mono (test x.1) f g ext all.0, AllIn-mono test rest f g ext all.1)

module _ {K : Type 0} (same : K → K → Bool) where
  pub find-known :
      (test : ℕ → Packet → Bool) (key : K) (m : List (K × ℕ)) (f : List Packet) (iid : ℕ)
      → AllIn test m f
      → find same key m ≡ some iid
      → any (test iid) f ≡ true
  unfolding find
  find-known test key [] f iid all e = absurd (cc)
  find-known test key ((k, i) ∷ rest) f iid all e = elim (Bool-cases (same k key)) [
    | inl c ↦
        let w : (if same k key then some i else find same key rest) ≡ some i = rw c refl in
        subst (λ n. any (test n) f ≡ true) (some-injective i iid (sym w ∙ e)) all.0
    | inr c ↦
        let w : (if same k key then some i else find same key rest) ≡ find same key rest =
          rw c refl in
        find-known test key rest f iid all.1 (sym w ∙ e)
  ]

  -- An interned id is defined in the file once `operator[]` has written what it writes.
  pub intern_lem :
      (field : ℕ) (make : K → List ℕ) (key : K) (m : Interner K) (f : List Packet)
      → WellDefined f
      → AllIn (defines_iid field) m f
      → (g : List Packet) × (write_packets (intern same field make key m).1 (some f) ≡ some g)
        × Extends f g
        × WellDefined g
        × AllIn (defines_iid field) (intern same field make key m).2 g
        × (any (defines_iid field (intern same field make key m).0) g ≡ true)
  unfolding intern write_packets WellDefined Uses any defines_iid
  intern_lem field make key m f well all = elim (Option-cases (find same key m)) [
    | inl e ↦
        let p = interned field (suc (length m)) (make key) in
        let here : any (defines_iid field (suc (length m))) (p ∷ f) ≡ true = ground arith in
        rw (e, intern, write_packets)
          (
            p ∷ f,
            refl,
            (p ∷ [], refl),
            (tt, well),
            (here, AllIn-mono (defines_iid field) m f (p ∷ f) (p ∷ [], refl) all),
            here,
          )
    | inr (iid, e) ↦
        rw (e, intern, write_packets)
          (f, refl, ([], refl), well, all, find-known (defines_iid field) key m f iid all e)
  ]
