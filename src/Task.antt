-- ===== src/Task.antt =====
-- The view of a job that the specifications of the schedulers take.
use os2016spring.Base.{ℕ}

-- What is left of a job: its pipe, when it may run, and for how long.
pub record Task : Type 0 where
  pub pipe : ℕ
  pub ready : ℕ
  pub burst : ℕ
