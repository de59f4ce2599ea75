-- ===== src/Threading/Pool/Counts.antt =====
-- The counters of a pool against what they count (src/threading/scheduler/Pool.cpp).
use nuclear.Base.{
  ℕ, suc, ◌+◌, ◌≡◌, refl, ◌∙◌, Bool, true, false, not, ◌||◌, ◌==◌, if◌then◌else◌, List, [], ◌∷◌,
  ◌++◌, some, length, length-append, length-keep_if, arith, Bool-cases, Option-cases, inl, inr,
}
use nuclear.Threading.Priority.{priority_buckets, priority_index, priority_index_mono}
use nuclear.Threading.Buckets.{
  dequeue, sum_buckets, sum_buckets-enqueue, length-enqueue, sum_buckets-dequeue,
}
use nuclear.Threading.Pool.{
  Pool, Task, fetch_sub, put, submit_count, submit_enter, submit_wake, notify, clear_pool_idle,
  take_pool_idle, register_external_waiter, unregister_external_waiter, add_idle_task,
  remove_idle_task,
}
use nuclear.Threading.Pool.Work.{
  try_dequeue_task, find_idle, clear_thread_idle, collect_local_idle_reactions, get_local_idle_task,
  collect_global_idle_reactions, get_idle_task, dispatch_or_wait, try_task,
}

-- How many tasks are queued.
abbrev pub queued : Pool → ℕ
queued p = sum_buckets (λ _. 1) p.buckets

-- `k` is how many submissions have counted their task and not entered it.
pub record Counted (k : ℕ) (p : Pool) : Type 0 where
  pub size : length p.buckets ≡ priority_buckets
  pub pending : p.pending_tasks ≡ queued p + k
  pub idle : p.idle_task_count ≡ length p.idle_tasks

clear_pool_idle-Counted : {k : ℕ} (p : Pool) → Counted k p → Counted k (clear_pool_idle p)
unfolding clear_pool_idle
clear_pool_idle-Counted p a = elim (Option-cases p.pool_idle) [
  | inl e ↦ rw (e, clear_pool_idle) a
  | inr (b, e) ↦
      rw (e, clear_pool_idle) record { size = a.size; pending = a.pending; idle = a.idle }
]

-- Changes to the other members of a pool.
abbrev pub Keeps : Pool → Pool → Type 0
Keeps p q =
    (q.buckets ≡ p.buckets)
    × (q.pending_tasks ≡ p.pending_tasks)
    × (q.idle_tasks ≡ p.idle_tasks)
    × (q.idle_task_count ≡ p.idle_task_count)

pub Keeps-Counted : {k : ℕ} (p q : Pool) → Keeps p q → Counted k p → Counted k q
Keeps-Counted p q k a = record {
  size = rw k.0 a.size;
  pending = rw (k.0, k.1) a.pending;
  idle = rw (k.2, k.3) a.idle;
}

-- The same through a change that `f` makes first.
cleared-Counted :
    {k : ℕ} (clear : Bool) (p : Pool)
    → Counted k p
    → Counted k (if clear then clear_pool_idle p else p)
cleared-Counted true p a = clear_pool_idle-Counted p a
cleared-Counted false p a = a

pub submit_count-Counted : {k : ℕ} (p : Pool) → Counted k p → Counted (suc k) (submit_count p)
unfolding submit_count
submit_count-Counted p a = record {
  size = a.size;
  pending = omega (arith, a.pending);
  idle = a.idle;
}

pub submit_enter-Counted :
    {k : ℕ} (t : Task) (p : Pool) → Counted (suc k) p → Counted k (submit_enter t p)
unfolding submit_enter
submit_enter-Counted t p a = record {
  size = length-enqueue (priority_index t.task.priority) t p.buckets ∙ a.size;
  pending = omega (
    arith,
    a.pending,
    sum_buckets-enqueue (λ _. 1) (priority_index t.task.priority) t p.buckets
        (omega
          (arith, a.size, (priority_index_mono t.task.priority t.task.priority (omega arith)).1)),
  );
  idle = a.idle;
}

pub submit_wake-Counted :
    {k : ℕ} (clear_idle : Bool) (p : Pool) → Counted k p → Counted k (submit_wake clear_idle p)
unfolding submit_wake
submit_wake-Counted clear_idle p a =
    Keeps-Counted (if clear_idle then clear_pool_idle p else p) _ (refl, refl, refl, refl)
      (cleared-Counted clear_idle p a)

put-Counted : {k : ℕ} (t : Task) (p : Pool) → Counted k p → Counted k (put t p)
unfolding put
put-Counted t p a = submit_enter-Counted t (submit_count p) (submit_count-Counted p a)

pub notify-Counted :
    {k : ℕ} (clear_idle : Bool) (p : Pool) → Counted k p → Counted k (notify clear_idle p)
unfolding notify
notify-Counted clear_idle p a =
    Keeps-Counted
      (if clear_idle then clear_pool_idle (record p { live = true }) else record p { live = true })
      _ (refl, refl, refl, refl)
      (cleared-Counted clear_idle (record p { live = true })
        (Keeps-Counted p _ (refl, refl, refl, refl) a))

pub register-Counted : {k : ℕ} (p : Pool) → Counted k p → Counted k (register_external_waiter p)
unfolding register_external_waiter
register-Counted p a = Keeps-Counted p _ (ground arith, ground arith, ground arith, ground arith) a

pub unregister-Counted : {k : ℕ} (p : Pool) → Counted k p → Counted k (unregister_external_waiter p)
unfolding unregister_external_waiter
unregister-Counted p a =
    Keeps-Counted p _ (ground arith, ground arith, ground arith, ground arith) a

pub add_idle_task-Counted : {k : ℕ} (r : ℕ) (p : Pool) → Counted k p → Counted k (add_idle_task r p)
unfolding add_idle_task
add_idle_task-Counted r p a = elim (Bool-cases (length (p.idle_tasks ++ r ∷ []) == 1)) [
  | inl c ↦
      rw (c, add_idle_task)
        (record {
          size = a.size;
          pending = a.pending;
          idle = omega (arith, a.idle, length-append p.idle_tasks (r ∷ []));
        })
  | inr c ↦
      rw (c, add_idle_task)
        (record {
          size = a.size;
          pending = a.pending;
          idle = omega (arith, a.idle, length-append p.idle_tasks (r ∷ []));
        })
]

pub remove_idle_task-Counted :
    {k : ℕ} (id : ℕ) (p : Pool) → Counted k p → Counted k (remove_idle_task id p)
unfolding remove_idle_task
remove_idle_task-Counted id p a = record {
  size = a.size;
  pending = a.pending;
  idle = ground (arith, a.idle, length-keep_if (λ r. not (r == id)) p.idle_tasks);
}

-- What `try_dequeue_task` leaves behind.
abbrev pub dequeued : List (List Task) → Pool → Pool
dequeued rest p = record p { pending_tasks = fetch_sub p.pending_tasks 1; buckets = rest }

dequeued-Counted :
    {k : ℕ} (s : Task) (rest : List (List Task)) (p : Pool)
    → dequeue p.buckets ≡ some (s, rest)
    → Counted k p
    → Counted k (dequeued rest p)
dequeued-Counted s rest p n a = record {
  size = (sum_buckets-dequeue (λ _. 1) p.buckets rest s n).1 ∙ a.size;
  pending = ground (arith, a.pending, (sum_buckets-dequeue (λ _. 1) p.buckets rest s n).0);
  idle = a.idle;
}

clear_thread_idle-Counted :
    {k : ℕ} (thread : ℕ) (p : Pool) → Counted k p → Counted k (clear_thread_idle thread p)
unfolding clear_thread_idle
clear_thread_idle-Counted thread p a = elim (Option-cases (find_idle thread p.thread_idle)) [
  | inl e ↦ rw (e, clear_thread_idle) a
  | inr (b, e) ↦
      rw (e, clear_thread_idle) (record { size = a.size; pending = a.pending; idle = a.idle })
]

collect_local-Counted :
    {k : ℕ} (thread : ℕ) (p : Pool)
    → Counted k p
    → Counted k (collect_local_idle_reactions thread p).1
unfolding collect_local_idle_reactions
collect_local-Counted thread p a = elim (Option-cases (find_idle thread p.thread_idle)) [
  | inl e ↦
      rw (e, collect_local_idle_reactions)
        (record { size = a.size; pending = a.pending; idle = a.idle })
  | inr (b, e) ↦ rw (e, collect_local_idle_reactions) a
]

pub get_local_idle_task-Counted :
    {k : ℕ} (thread : ℕ) (p : Pool) → Counted k p → Counted k (get_local_idle_task thread p).1
unfolding get_local_idle_task
get_local_idle_task-Counted thread p a =
    elim (Bool-cases (not p.running || not p.descriptor.counts_for_idle)) [
      | inl c ↦ rw (c, get_local_idle_task) a
      | inr c ↦ rw (c, get_local_idle_task) (collect_local-Counted thread p a)
    ]

collect_global-Counted :
    {k : ℕ} (tasks : List ℕ) (p : Pool)
    → Counted k p
    → Counted k (collect_global_idle_reactions tasks p).1
unfolding collect_global_idle_reactions take_pool_idle
collect_global-Counted tasks p a =
    Keeps-Counted p _ (ground arith, ground arith, ground arith, ground arith) a

get_idle_task-Counted :
    {k : ℕ} (thread : ℕ) (p : Pool) → Counted k p → Counted k (get_idle_task thread p).1
unfolding get_idle_task
get_idle_task-Counted thread p a =
    elim (Bool-cases (not p.running || not p.descriptor.counts_for_idle)) [
      | inl c ↦ rw (c, get_idle_task) a
      | inr c ↦
          rw (c, get_idle_task)
            (collect_global-Counted _ (collect_local_idle_reactions thread p).1
              (collect_local-Counted thread p a))
    ]

dispatch_or_wait-Counted :
    {k : ℕ} (r : List ℕ × Pool) → Counted k r.1 → Counted k (dispatch_or_wait r).1
unfolding dispatch_or_wait
dispatch_or_wait-Counted ([], p) a = a
dispatch_or_wait-Counted (t ∷ tasks, p) a = a

idle_turn-Counted :
    {k : ℕ} (thread : ℕ) (p : Pool)
    → Counted k p
    → Counted k (dispatch_or_wait (get_idle_task thread p)).1
idle_turn-Counted thread p a =
    dispatch_or_wait-Counted (get_idle_task thread p) (get_idle_task-Counted thread p a)

pub try_task-Counted :
    {k : ℕ} (thread : ℕ) (can_lock : Task → Bool) (p : Pool)
    → Counted k p
    → Counted k (try_task thread can_lock p).1
unfolding try_task try_dequeue_task
try_task-Counted thread can_lock p a = elim (Bool-cases p.live) [
  | inr c ↦
      rw (c, try_task)
        (idle_turn-Counted thread (record p { live = false })
          (Keeps-Counted p _ (refl, refl, refl, refl) a))
  | inl c ↦ elim (Option-cases (dequeue p.buckets)) [
    | inl n ↦
        rw (c, n, try_task, try_dequeue_task)
          (idle_turn-Counted thread (record p { live = false })
            (Keeps-Counted p _ (refl, refl, refl, refl) a))
    | inr ((t, rest), n) ↦ elim (Bool-cases (can_lock t)) [
      | inl l ↦
          rw (c, n, l, try_task, try_dequeue_task)
            (clear_pool_idle-Counted (clear_thread_idle thread (dequeued rest p))
              (clear_thread_idle-Counted thread (dequeued rest p) (dequeued-Counted t rest p n a)))
      | inr l ↦
          rw (c, n, l, try_task, try_dequeue_task)
            (Keeps-Counted (put t (dequeued rest p)) _ (refl, refl, refl, refl)
              (put-Counted t (dequeued rest p) (dequeued-Counted t rest p n a)))
    ]
  ]
]
