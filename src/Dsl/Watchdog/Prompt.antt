-- ===== src/Dsl/Watchdog/Prompt.antt =====
-- src/dsl/word/Watchdog.hpp: a watchdog among others of its group, over time.
use nuclear.Base.{ℕ, ◌+◌, ◌≤◌, ◌≡◌, some, false, ◌==◌, max}
use nuclear.Dsl.Watchdog.{Times, Watchdog, get, init, service, unbind, check}

module _ (period argument : ℕ) where
  -- What may happen: the controller calls the check when its time has come; any watchdog is bound or
  -- serviced; one with another argument is unbound. The clock does not go back between two services.
  pub data Step : Watchdog → Watchdog → Type 0 where
    check_due :
        (now : ℕ) (w w' : Watchdog)
        → w.time ≤ now
        → check period argument now w ≡ some w'
        → Step w w'
    serviced :
        (k when t : ℕ) (w : Watchdog) (times' : Times)
        → get argument w.times ≡ some t
        → t ≤ when
        → service k when w.times ≡ some times'
        → Step w (record w { times = times' })
    another_bound : (k now : ℕ) (w : Watchdog) → Step w (record w { times = init k now w.times })
    another_unbound :
        (k : ℕ) (w : Watchdog)
        → (k == argument) ≡ false
        → Step w (record w { times = unbind k w.times })

  pub data Reach (w : Watchdog) : Watchdog → Type 0 where
    here : Reach w w
    next : {v u : Watchdog} → Reach w v → Step v u → Reach w u

  -- The check comes in time.
  pub record Prompt (w : Watchdog) : Type 0 where
    pub service_time : ℕ
    pub known : get argument w.times ≡ some service_time
    pub in_time : w.time ≤ max service_time w.submitted + period
