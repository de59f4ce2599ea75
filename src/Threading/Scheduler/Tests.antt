-- ===== src/Threading/Scheduler/Tests.antt =====
-- Runs of the scheduler, over pools that only note whether they were started.
use nuclear.Base.{ℕ, ◌≡◌, refl, [], ◌∷◌, none, Bool, true, false, length}
use nuclear.Threading.Scheduler.{
  PoolOps, Scheduler, Submission, find_pool, get_pool, add_idle_task, change_pool, with_pool,
}
use nuclear.Threading.Scheduler.Counts.{Reach, initial, later, adds, global_idle_count-Reach}

abbrev noting : PoolOps Bool ℕ
noting = record {
  new = λ desc. false;
  start = λ p. true;
  stop = λ force p. false;
  notify = λ clear p. p;
  submit = λ task clear p. p;
  add_idle_task = λ id p. p;
  remove_idle_task = λ id p. p;
}

abbrev fresh : Scheduler Bool
fresh = record {
  running = true;
  started = false;
  pools = (0, false) ∷ [];
  idle_tasks = [];
  global_idle_count = 0;
}

abbrev a_task : Submission ℕ
a_task = record {
  payload = 1;
  pool_descriptor = 5;
  has_parent = true;
  cached = none;
  run_inline = false;
  groups = [];
}

one_idle : Reach noting (record fresh { idle_tasks = 8 ∷ []; global_idle_count = 1 })
unfolding add_idle_task find_pool get_pool change_pool with_pool
one_idle = later fresh _ (initial ((0, false) ∷ [])) (adds 8 none _ refl)

global_idle_count-Reach_example : 1 ≡ length {A = ℕ} (8 ∷ [])
global_idle_count-Reach_example = global_idle_count-Reach noting _ one_idle
