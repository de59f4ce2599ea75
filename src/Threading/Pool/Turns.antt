-- ===== src/Threading/Pool/Turns.antt =====
-- The life of a pool as steps (src/threading/scheduler/Pool.cpp): submissions, idle tasks, external
-- waiters, turns of `get_task` on any thread, and stops up to the wait of a forced stop.
use nuclear.Base.{
  ℕ, suc, ◌-◌, ◌^◌, ◌≡◌, refl, sym, subst, ◌∙◌, ap, Bool, true, false, not, ◌&&◌, ◌||◌, ltb, List,
  [], ◌∷◌, some, length, arith, Bool-cases, inl, inr,
}
use nuclear.Threading.Priority.{priority_index, priority_index_mono}
use nuclear.Threading.Buckets.{dequeue, sum_queue, sum_buckets, sum_buckets-enqueue}
use nuclear.Threading.Pool.{
  Pool, Task, ThreadPoolDescriptor, Shared, StopType, stop_normal, stop_final, stop_force,
  submit_count, submit_enter, submit_wake, notify, start, new_pool, take_pool_idle, Turn,
  dispatch_idle, register_external_waiter, unregister_external_waiter, add_idle_task,
  remove_idle_task,
}
use nuclear.Threading.Pool.Work.{
  try_dequeue_task, emptied, drain_queues, on_consumer, stop, stop_resumed, get_local_idle_task,
  try_task, poll, poll_or_discard, get_task,
}
use nuclear.Threading.Pool.Counts.{
  dequeued, Counted, Keeps, Keeps-Counted, submit_count-Counted, submit_enter-Counted,
  submit_wake-Counted, queued, notify-Counted, register-Counted, unregister-Counted,
  add_idle_task-Counted, remove_idle_task-Counted, get_local_idle_task-Counted, try_task-Counted,
}

queued-emptied : (qs : List (List Task)) → sum_buckets (λ _. 1) (emptied qs) ≡ 0
unfolding sum_buckets sum_queue emptied
queued-emptied [] = refl
queued-emptied (q ∷ qs) = omega (arith, queued-emptied qs)

length-emptied : (qs : List (List Task)) → length (emptied qs) ≡ length qs
unfolding emptied
length-emptied [] = refl
length-emptied (q ∷ qs) = ap suc (length-emptied qs)

drain_queues-Counted : {k : ℕ} (p : Pool) → Counted k p → Counted 0 (drain_queues p).1
unfolding drain_queues
drain_queues-Counted p a = record {
  size = length-emptied p.buckets ∙ a.size;
  pending = omega (arith, queued-emptied p.buckets);
  idle = a.idle;
}

-- The queues are drained when no submission is in between.
drained-Counted :
    {k : ℕ} (p q : Pool) → k ≡ 0 → Keeps (drain_queues p).1 q → Counted k p → Counted k q
drained-Counted p q z kept a =
    subst (λ j. Counted j q) (sym z)
      (Keeps-Counted (drain_queues p).1 q kept (drain_queues-Counted p a))

poll-Counted :
    {k : ℕ} (thread : ℕ) (can_lock : Task → Bool) (p : Pool)
    → Counted k p
    → Counted k (poll thread can_lock p).1
unfolding poll
poll-Counted {k} thread can_lock p a = elim (Bool-cases p.pending_idle) [
  | inr c ↦
      rw (c, poll)
        (try_task-Counted thread can_lock (record p { pending_idle = false })
          (Keeps-Counted p _ (refl, refl, refl, refl) a))
  | inl c ↦
      rw (c, poll)
        (found (get_local_idle_task thread (record p { pending_idle = false })).0
          (get_local_idle_task thread (record p { pending_idle = false })).1
          (get_local_idle_task-Counted thread (record p { pending_idle = false })
            (Keeps-Counted p _ (refl, refl, refl, refl) a)))
]
  where
    found :
        (tasks : List ℕ) (q : Pool)
        → Counted k q
        → Counted k
            (elim tasks as (λ _. Turn × Pool) [
              | [] ↦ try_task thread can_lock q
              | r ∷ rest ↦ (dispatch_idle (r ∷ rest), q)
            ]).1
    found [] q b = try_task-Counted thread can_lock q b
    found (r ∷ rest) q b = b

get_task-Counted :
    {k : ℕ} (thread : ℕ) (can_lock : Task → Bool) (p : Pool)
    → (p.discard_queues_requested ≡ true → k ≡ 0)
    → Counted k p
    → Counted k (get_task thread can_lock p).1
unfolding get_task poll_or_discard
get_task-Counted {k} thread can_lock p settled a =
    elim (Bool-cases (
      p.running
      || ltb 0 p.pending_tasks
      || ltb 0 p.external_waiters
      || p.discard_queues_requested)) [
        | inr c ↦ rw (c, get_task) (Keeps-Counted p _ (refl, refl, refl, refl) a)
        | inl c ↦ rw (c, get_task) (body p.discard_queues_requested refl)
      ]
  where
    body :
        (b : Bool)
        → p.discard_queues_requested ≡ b
        → Counted k (poll_or_discard thread can_lock p).1
    body true e =
        rw (e, poll_or_discard) (drained-Counted p _ (settled e) (refl, refl, refl, refl) a)
    body false e = rw (e, poll_or_discard) (poll-Counted thread can_lock p a)

stop-Counted :
    {k : ℕ} (thread : ℕ) (type : StopType) (p : Pool)
    → (type ≡ stop_force → k ≡ 0)
    → Counted k p
    → Counted k (stop thread type p).1
unfolding stop
stop-Counted thread stop_normal p settled a = Keeps-Counted p _ (refl, refl, refl, refl) a
stop-Counted thread stop_final p settled a = Keeps-Counted p _ (refl, refl, refl, refl) a
stop-Counted thread stop_force p settled a =
    elim (Bool-cases (p.single_consumer && not (on_consumer thread p.consumer_thread_id))) [
      | inl c ↦ rw (c, stop) (Keeps-Counted p _ (refl, refl, refl, refl) a)
      | inr c ↦
          rw (c, stop)
            (drained-Counted (record p { live = true; accept = false; running = false }) _
              (settled refl) (refl, refl, refl, refl)
              (Keeps-Counted p _ (refl, refl, refl, refl) a))
    ]

-- The sections of the calls, of any number of threads, with how many submissions have counted their task
-- and not entered it. Whether `submit` accepts does not matter here. The queues are drained by a
-- forced stop and by a turn that was asked to, when no submission is in between.
pub data Step (k : ℕ) (p : Pool) : ℕ → Pool → Type 0 where
  starts : Step k p k (start p)
  counts : Step k p (suc k) (submit_count p)
  enters : (j : ℕ) (t : Task) → k ≡ suc j → Step k p j (submit_enter t p)
  wakes : (clear_idle : Bool) → Step k p k (submit_wake clear_idle p)
  notifies : (clear_idle : Bool) → Step k p k (notify clear_idle p)
  registers : Step k p k (register_external_waiter p)
  unregisters : Step k p k (unregister_external_waiter p)
  adds : (reaction : ℕ) → Step k p k (add_idle_task reaction p)
  removes : (id : ℕ) → Step k p k (remove_idle_task id p)
  turns :
      (thread : ℕ) (can_lock : Task → Bool)
      → (p.discard_queues_requested ≡ true → k ≡ 0)
      → Step k p k (get_task thread can_lock p).1
  stops :
      (thread : ℕ) (type : StopType)
      → (type ≡ stop_force → k ≡ 0)
      → Step k p k (stop thread type p).1

pub data Reach (descriptor : ThreadPoolDescriptor) (scheduler : Shared) : ℕ → Pool → Type 0 where
  initial : Reach descriptor scheduler 0 (new_pool descriptor scheduler)
  later :
      {j k : ℕ} {p q : Pool}
      → Reach descriptor scheduler j p
      → Step j p k q
      → Reach descriptor scheduler k q

new_pool-Counted : (d : ThreadPoolDescriptor) (s : Shared) → Counted 0 (new_pool d s)
unfolding new_pool take_pool_idle sum_buckets sum_queue
new_pool-Counted d s = elim (Bool-cases d.counts_for_idle) [
  | inl c ↦ rw (c, new_pool) (record { size = refl; pending = refl; idle = refl })
  | inr c ↦ rw (c, new_pool) (record { size = refl; pending = refl; idle = refl })
]

start-Counted : {k : ℕ} (p : Pool) → Counted k p → Counted k (start p)
unfolding start
start-Counted p a = Keeps-Counted p _ (refl, refl, refl, refl) a

Step-Counted : {j k : ℕ} {p q : Pool} → Step j p k q → Counted j p → Counted k q
Step-Counted starts a = start-Counted _ a
Step-Counted counts a = submit_count-Counted _ a
Step-Counted {p = p} (enters j t e) a = submit_enter-Counted t _ (subst (λ n. Counted n p) e a)
Step-Counted (wakes clear_idle) a = submit_wake-Counted clear_idle _ a
Step-Counted (notifies clear_idle) a = notify-Counted clear_idle _ a
Step-Counted registers a = register-Counted _ a
Step-Counted unregisters a = unregister-Counted _ a
Step-Counted (adds reaction) a = add_idle_task-Counted reaction _ a
Step-Counted (removes id) a = remove_idle_task-Counted id _ a
Step-Counted (turns thread can_lock h) a = get_task-Counted thread can_lock _ h a
Step-Counted (stops thread type h) a = stop-Counted thread type _ h a

pub Reach-Counted :
    {descriptor : ThreadPoolDescriptor} {scheduler : Shared} {k : ℕ} {p : Pool}
    → Reach descriptor scheduler k p
    → Counted k p
Reach-Counted initial = new_pool-Counted _ _
Reach-Counted (later r s) = Step-Counted s (Reach-Counted r)

-- A forced stop between the two halves of a submission: the task is queued, and not counted.
pub stop-submit :
    (k thread : ℕ) (t : Task) (p : Pool)
    → Counted k p
    → (p.single_consumer && not (on_consumer thread p.consumer_thread_id)) ≡ false
    → let q = submit_enter t (stop thread stop_force (submit_count p)).1 in
      (q.pending_tasks ≡ 0) × (queued q ≡ 1)
unfolding stop drain_queues submit_count submit_enter
stop-submit k thread t p a c =
    rw (c, stop)
      (
        refl,
        sum_buckets-enqueue (λ _. 1) (priority_index t.task.priority) t (emptied p.buckets)
              (omega (
                arith,
                a.size,
                length-emptied p.buckets,
                (priority_index_mono t.task.priority t.task.priority (omega arith)).1,
              ))
            ∙ omega (arith, queued-emptied p.buckets),
      )

-- When a forced stop that has waited resumes and a task has been queued in the meantime, taking that
-- task makes the count of pending tasks wrap around to its largest value.
pub stop_resumed_wraps :
    (t : Task) (rest : List (List Task)) (p : Pool)
    → dequeue p.buckets ≡ some (t, rest)
    → (q : Pool) × (try_dequeue_task (stop_resumed p) ≡ some (t, q))
      × (q.pending_tasks ≡ 2 ^ 64 - 1)
unfolding try_dequeue_task stop_resumed
stop_resumed_wraps t rest p n =
    (dequeued rest (stop_resumed p), rw (n, try_dequeue_task, stop_resumed) refl, refl)
