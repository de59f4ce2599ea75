-- ===== src/Trace/Controller/Runs.antt =====
-- src/extension/TraceController.cpp: what the ids that the controller holds stand for in the open file.
use nuclear.Base.{
  ℕ, ◌==◌, ◌≡◌, refl, List, [], ◌∷◌, Option, some, Bool, true, arith, Option-cases, Bool-cases, inl,
  inr, ◌⊎◌,
}
use nuclear.Trace.Packets.{Packet, process_track, thread_tracks}
use nuclear.Trace.Interner.{find}
use nuclear.Trace.State.{
  Identifiers, ThreadInfo, TraceController, same_string, same_pointer, same_thread,
}
use nuclear.Trace.Controller.{
  write_packets, write_trace_packet, process, pool_name, new_thread, thread, intern_category,
  intern_body, intern_event_name, name_for_id,
}
use nuclear.Trace.Controller.Defined.{
  defines_iid, defines_track, any, Uses, WellDefined, AllIn, Extends, Extends-trans, any_mono,
  AllIn-mono, find-known, intern_lem,
}

-- A state whose maps hold only ids that the open file `f` defines.
pub record Good (s : TraceController) (f : List Packet) : Type 0 where
  pub is_open : s.file ≡ some f
  pub well : WellDefined f
  pub process_track_known : (s.process_uuid ≡ 0) ⊎ (any (defines_track s.process_uuid) f ≡ true)
  pub threads_known : AllIn defines_track s.thread_uuids f
  pub categories_known : AllIn (defines_iid 1) s.categories f
  pub names_known : AllIn (defines_iid 2) s.event_names f
  pub bodies_known : AllIn (defines_iid 20) s.log_message_bodies f

unfoldable pub Written : TraceController → List Packet → (Packet → Bool) → Type 0
Written s f test = (g : List Packet) × Extends f g × Good s g × (any test g ≡ true)

pub process_kept :
    (uuid : ℕ) (f g : List Packet)
    → Extends f g
    → (uuid ≡ 0) ⊎ (any (defines_track uuid) f ≡ true)
    → (uuid ≡ 0) ⊎ (any (defines_track uuid) g ≡ true)
process_kept uuid f g ext (inl e) = inl e
process_kept uuid f g ext (inr h) = inr (any_mono (defines_track uuid) f g ext h)

pub category-Good :
    (name : List ℕ) (s : TraceController) (f : List Packet)
    → Good s f
    → Written (intern_category name s).1 f (defines_iid 1 (intern_category name s).0)
unfolding intern_category Written
category-Good name s f good =
    let (g, written, ext, well, all, known) =
      intern_lem same_string 1 (λ key. key) name s.categories f good.well good.categories_known in
    (
      g,
      ext,
      record {
        is_open = rw good.is_open written;
        well = well;
        process_track_known = process_kept s.process_uuid f g ext good.process_track_known;
        threads_known = AllIn-mono defines_track s.thread_uuids f g ext good.threads_known;
        categories_known = all;
        names_known = AllIn-mono (defines_iid 2) s.event_names f g ext good.names_known;
        bodies_known = AllIn-mono (defines_iid 20) s.log_message_bodies f g ext good.bodies_known;
      },
      known,
    )

pub body-Good :
    (body : List ℕ) (s : TraceController) (f : List Packet)
    → Good s f
    → Written (intern_body body s).1 f (defines_iid 20 (intern_body body s).0)
unfolding intern_body Written
body-Good body s f good =
    let (g, written, ext, well, all, known) =
      intern_lem same_string 20 (λ key. key) body s.log_message_bodies f good.well
        good.bodies_known in
    (
      g,
      ext,
      record {
        is_open = rw good.is_open written;
        well = well;
        process_track_known = process_kept s.process_uuid f g ext good.process_track_known;
        threads_known = AllIn-mono defines_track s.thread_uuids f g ext good.threads_known;
        categories_known = AllIn-mono (defines_iid 1) s.categories f g ext good.categories_known;
        names_known = AllIn-mono (defines_iid 2) s.event_names f g ext good.names_known;
        bodies_known = all;
      },
      known,
    )

process-Good :
    (s : TraceController) (f : List Packet)
    → Good s f
    → Written (process s).1 f (defines_track (process s).0)
unfolding process write_trace_packet write_packets Written WellDefined Uses any defines_track
process-Good s f good = elim (Bool-cases (s.process_uuid == 0)) [
  | inl e ↦
      let ext : Extends f (process_track ∷ f) = (process_track ∷ [], refl) in
      rw (e, process)
        (
          process_track ∷ f,
          ext,
          record {
            is_open = rw (good.is_open, write_packets) refl;
            well = (tt, good.well);
            process_track_known = inr refl;
            threads_known = AllIn-mono defines_track s.thread_uuids f _ ext good.threads_known;
            categories_known =
                AllIn-mono (defines_iid 1) s.categories f _ ext good.categories_known;
            names_known = AllIn-mono (defines_iid 2) s.event_names f _ ext good.names_known;
            bodies_known =
                AllIn-mono (defines_iid 20) s.log_message_bodies f _ ext good.bodies_known;
          },
          refl,
        )
  | inr e ↦
      rw (e, process)
        (
          f,
          ([], refl),
          good,
          elim good.process_track_known [
            | inl z ↦ absurd (ground (arith, e, z))
            | inr known ↦ known
          ],
        )
]

new_thread-Good :
    (t : ThreadInfo) (parent : ℕ) (s : TraceController) (f : List Packet)
    → Good s f
    → any (defines_track parent) f ≡ true
    → Written (new_thread t (parent, s)).1 f (defines_track (new_thread t (parent, s)).0)
unfolding new_thread write_trace_packet write_packets Written WellDefined Uses any defines_track
new_thread-Good t parent s f good known =
    let p = thread_tracks s.next_uuid parent (pool_name t.pool) in
    let ext : Extends f (p ∷ f) = (p ∷ [], refl) in
    let here : any (defines_track s.next_uuid) (p ∷ f) ≡ true = ground arith in
    (
      p ∷ f,
      ext,
      record {
        is_open = rw (good.is_open, write_packets) refl;
        well = (known, good.well);
        process_track_known = process_kept s.process_uuid f _ ext good.process_track_known;
        threads_known = (here, AllIn-mono defines_track s.thread_uuids f _ ext good.threads_known);
        categories_known = AllIn-mono (defines_iid 1) s.categories f _ ext good.categories_known;
        names_known = AllIn-mono (defines_iid 2) s.event_names f _ ext good.names_known;
        bodies_known = AllIn-mono (defines_iid 20) s.log_message_bodies f _ ext good.bodies_known;
      },
      here,
    )

pub thread-Good :
    (t : ThreadInfo) (s : TraceController) (f : List Packet)
    → Good s f
    → Written (thread t s).1 f (defines_track (thread t s).0)
unfolding thread Written
thread-Good t s f good = elim (Option-cases (find same_thread t.thread_id s.thread_uuids)) [
  | inl e ↦
      let (g, ext, good_process, known) = process-Good s f good in
      let (h, ext_thread, good_thread, known_thread) =
        new_thread-Good t (process s).0 (process s).1 g good_process known in
      rw (e, thread) (h, Extends-trans f g h ext ext_thread, good_thread, known_thread)
  | inr (uuid, e) ↦
      rw (e, thread)
        (
          f,
          ([], refl),
          good,
          find-known same_thread defines_track t.thread_id s.thread_uuids f uuid good.threads_known
              e,
        )
]

pub name-Good :
    (strip : List ℕ → List ℕ) (ids : Option Identifiers) (s : TraceController) (f : List Packet)
    → Good s f
    → Written (intern_event_name strip ids s).1 f (defines_iid 2 (intern_event_name strip ids s).0)
unfolding intern_event_name Written
name-Good strip ids s f good =
    let (g, written, ext, well, all, known) =
      intern_lem same_pointer 2 (name_for_id strip) ids s.event_names f good.well
        good.names_known in
    (
      g,
      ext,
      record {
        is_open = rw good.is_open written;
        well = well;
        process_track_known = process_kept s.process_uuid f g ext good.process_track_known;
        threads_known = AllIn-mono defines_track s.thread_uuids f g ext good.threads_known;
        categories_known = AllIn-mono (defines_iid 1) s.categories f g ext good.categories_known;
        names_known = all;
        bodies_known = AllIn-mono (defines_iid 20) s.log_message_bodies f g ext good.bodies_known;
      },
      known,
    )
