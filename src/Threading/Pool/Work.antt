-- ===== src/Threading/Pool/Work.antt =====
-- src/threading/scheduler/Pool.cpp, taking work from a pool and stopping it: `try_dequeue_task`,
-- `drain_queues`, `stop`, one turn of the loop of `get_task`, and the idle locks of a thread.
use nuclear.Base.{
  ℕ, Bool, true, false, not, ◌&&◌, ◌||◌, ltb, ◌==◌, if◌then◌else◌, List, [], ◌∷◌, ◌++◌, Option,
  none, some, keep_if,
}
use nuclear.Base.Int.{pos, ◌+ℤ◌}
use nuclear.Threading.Priority.{eq_ℤ}
use nuclear.Threading.Buckets.{dequeue}
use nuclear.Threading.Pool.{
  Pool, Task, StopType, stop_normal, stop_final, stop_force, Turn, dispatch, dispatch_idle, wait,
  again, shut_down, counting_lock, fetch_sub, wake_all, wake, put, clear_pool_idle, take_pool_idle,
}

unfoldable pub try_dequeue_task : Pool → Option (Task × Pool)
try_dequeue_task p = elim (dequeue p.buckets) [
  | none ↦ none
  | some (t, rest) ↦
      some (t, record p { pending_tasks = fetch_sub p.pending_tasks 1; buckets = rest })
]

-- `drain_queues`: the queues after it, and the tasks it takes out.
unfoldable pub emptied : List (List Task) → List (List Task)
emptied [] = []
emptied (q ∷ qs) = [] ∷ emptied qs

unfoldable pub drained : List (List Task) → List Task
drained [] = []
drained (q ∷ qs) = q ++ drained qs

unfoldable pub drain_queues : Pool → List Task × Pool
drain_queues p = (drained p.buckets, record p { buckets = emptied p.buckets; pending_tasks = 0 })

abbrev pub on_consumer : ℕ → Option ℕ → Bool
on_consumer thread none = true
on_consumer thread (some consumer) = consumer == thread

-- `stop`, called by a thread, up to its wait for the consumer of the pool; the tasks are those that it
-- destroys itself.
unfoldable pub stop : ℕ → StopType → Pool → List Task × Pool
stop thread stop_normal p = (
  [],
  wake wake_all
      record p { live = true; accept = p.descriptor.persistent; running = p.descriptor.persistent },
)
stop thread stop_final p =
    ([], wake wake_all record p { live = true; accept = p.descriptor.persistent; running = false })
stop thread stop_force p =
    let q : Pool = record p { live = true; accept = false; running = false } in
    if p.single_consumer && not (on_consumer thread p.consumer_thread_id)
    then ([], wake wake_all record q { discard_queues_requested = true })
    else let (tasks, r) = drain_queues q in (tasks, wake wake_all r)

-- The end of a forced `stop` that waited, once the consumer has discarded the queues.
unfoldable pub stop_resumed : Pool → Pool
stop_resumed p = wake wake_all record p { pending_tasks = 0 }

-- `thread_idle[thread]`.
unfoldable pub find_idle : ℕ → List (ℕ × Bool) → Option Bool
find_idle thread [] = none
find_idle thread ((t, locked) ∷ held) =
    let rest = find_idle thread held in if t == thread then some locked else rest

-- `thread_idle[thread] = nullptr`, which gives the count of a held lock back.
unfoldable pub clear_thread_idle : ℕ → Pool → Pool
clear_thread_idle thread p = elim (find_idle thread p.thread_idle) [
  | none ↦ p
  | some locked ↦ record p {
    active = p.active +ℤ pos 1;
    thread_idle = keep_if (λ (t, held). not (t == thread)) p.thread_idle;
  }
]

-- `collect_local_idle_reactions`: the reactions it appends.
unfoldable pub collect_local_idle_reactions : ℕ → Pool → List ℕ × Pool
collect_local_idle_reactions thread p = elim (find_idle thread p.thread_idle) [
  | some held ↦ ([], p)
  | none ↦
      let (locked, n) = counting_lock p.active in
      (
        if locked then p.idle_tasks else [],
        record p { active = n; thread_idle = (thread, locked) ∷ p.thread_idle },
      )
]

-- `get_local_idle_task` and `get_idle_task`: the reactions that the dispatch task submits, where an
-- empty list is the null task.
unfoldable pub get_local_idle_task : ℕ → Pool → List ℕ × Pool
get_local_idle_task thread p =
    if not p.running || not p.descriptor.counts_for_idle
    then ([], p)
    else collect_local_idle_reactions thread p

abbrev no_lock : Option Bool → Bool
no_lock none = true
no_lock (some locked) = false

unfoldable pub collect_global_idle_reactions : List ℕ → Pool → List ℕ × Pool
collect_global_idle_reactions tasks p =
    if no_lock p.pool_idle && eq_ℤ p.active (pos 0)
    then (
      tasks
          ++ (let (locked, n) = counting_lock p.scheduler.active_pools in
              if locked then p.scheduler.global_idle_tasks else []),
      take_pool_idle p,
    )
    else (tasks, p)

unfoldable pub get_idle_task : ℕ → Pool → List ℕ × Pool
get_idle_task thread p =
    if not p.running || not p.descriptor.counts_for_idle
    then ([], p)
    else let (tasks, q) = collect_local_idle_reactions thread p in
      collect_global_idle_reactions tasks q

unfoldable pub dispatch_or_wait : List ℕ × Pool → Turn × Pool
dispatch_or_wait ([], p) = (wait, p)
dispatch_or_wait (r ∷ tasks, p) = (dispatch_idle (r ∷ tasks), p)

-- The part of the turn that looks at the queues.
unfoldable pub try_task : ℕ → (Task → Bool) → Pool → Turn × Pool
try_task thread can_lock p =
    if p.live
    then elim (try_dequeue_task p) [
      | none ↦ dispatch_or_wait (get_idle_task thread record p { live = false })
      | some (t, q) ↦
          if can_lock t
          then (dispatch t, clear_pool_idle (clear_thread_idle thread q))
          else (wait, record (put t q) { live = false })
    ]
    else dispatch_or_wait (get_idle_task thread p)

-- The part before it: the latch of the external waiters.
unfoldable pub poll : ℕ → (Task → Bool) → Pool → Turn × Pool
poll thread can_lock p =
    if p.pending_idle
    then (let (tasks, q) = get_local_idle_task thread record p { pending_idle = false } in
        elim tasks [ [] ↦ try_task thread can_lock q | r ∷ rest ↦ (dispatch_idle (r ∷ rest), q) ])
    else try_task thread can_lock p

-- The body of the loop: a request to discard the queues comes first.
unfoldable pub poll_or_discard : ℕ → (Task → Bool) → Pool → Turn × Pool
poll_or_discard thread can_lock p = elim p.discard_queues_requested [
  | true ↦
      let (discarded, q) = drain_queues p in
      (again, wake wake_all record q { discard_queues_requested = false })
  | false ↦ poll thread can_lock p
]

-- One turn of the loop of `get_task`.
unfoldable pub get_task : ℕ → (Task → Bool) → Pool → Turn × Pool
get_task thread can_lock p =
    if p.running || ltb 0 p.pending_tasks || ltb 0 p.external_waiters || p.discard_queues_requested
    then poll_or_discard thread can_lock p
    else (shut_down, wake wake_all p)
