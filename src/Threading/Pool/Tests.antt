-- ===== src/Threading/Pool/Tests.antt =====
-- Runs of the model of src/threading/scheduler/Pool.cpp.
use nuclear.Base.{◌≡◌, refl, true, false, [], none, some}
use nuclear.Base.Int.{pos}
use nuclear.Threading.Priority.{priority_level, priority_index}
use nuclear.Threading.Buckets.{empty_buckets, enqueue, dequeue}
use nuclear.Threading.Pool.{
  Pool, Task, ThreadPoolDescriptor, Shared, new_pool, put, submit, submit_count, submit_enter,
  submit_wake, counting_lock, clear_pool_idle, take_pool_idle,
}

abbrev solo : ThreadPoolDescriptor
solo = record {
  concurrency = 1;
  counts_for_idle = true;
  persistent = false;
  is_main_thread = false;
  is_default = false;
}

abbrev nothing_else : Shared
nothing_else = record {
  active_pools = pos 0;
  global_idle_count = 0;
  global_idle_tasks = [];
  default_pool_concurrency = 4;
}

abbrev plain : Task
plain = record { task = record { priority = pos 500; task_id = 3 }; lock = none }

abbrev loaded : Pool
loaded = submit plain true false (new_pool solo nothing_else)

-- A task that is counted and entered while another is only counted, and is taken then.
abbrev two_counted : Pool
two_counted = submit_enter plain (submit_count (submit_count (new_pool solo nothing_else)))

loaded_next : dequeue loaded.buckets ≡ some (plain, empty_buckets)
unfolding submit submit_count submit_enter submit_wake new_pool put enqueue dequeue priority_index
    priority_level clear_pool_idle take_pool_idle counting_lock
loaded_next = refl
