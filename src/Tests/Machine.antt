-- ===== src/Tests/Machine.antt =====
-- Operating systems on which no call fails, and one that has no process left.
use os2016spring.Base.{true, false, some, none, length}
use os2016spring.Os.{Os}

abbrev pub reliable : Os
reliable = record {
  fork = λ t. some (length t);
  sched_setscheduler = λ _. true;
  waitpid = λ _. true;
  gettime = λ t. record { tv_sec = length t; tv_nsec = 0 };
}

-- Always the same pid and the same time.
abbrev pub steady : Os
steady = record {
  fork = λ _. some 4211;
  sched_setscheduler = λ _. true;
  waitpid = λ _. true;
  gettime = λ _. record { tv_sec = 1460000000; tv_nsec = 123456789 };
}

abbrev pub exhausted : Os
exhausted = record {
  fork = λ _. none;
  sched_setscheduler = λ _. true;
  waitpid = λ _. false;
  gettime = λ t. record { tv_sec = length t; tv_nsec = 0 };
}
