-- ===== src/Config/Pid/Laws.antt =====
-- The pid file is read back.
use fedbox.Prelude.{ℕ, ◌≤◌, ◌≡◌, true, some, Text, text_eq, arith, ==_refl, text_beq_iff, ◌≢◌}
use fedbox.Go.Decimal.{max_uint32}
use fedbox.Go.Decimal.Laws.{parse_uint32-append_uint}
use fedbox.Config.Options.{Options, Environ, System}
use fedbox.Config.Paths.{pid_path}
use fedbox.Config.Pid.{Files, write_pid, read_pid}

pub read_pid_written :
    (sys : System) (getenv : Environ) (o : Options) (pid : ℕ) (files : Files)
    → pid ≤ max_uint32
    → read_pid sys getenv o (write_pid sys getenv o true pid files).0 ≡ some pid
unfolding read_pid write_pid
read_pid_written sys getenv o pid files h =
    rw (==_refl (pid_path sys getenv o), read_pid, parse_uint32-append_uint pid h)

-- A process number of 32 bits that was written is read back, whatever the file held before, and
-- no file at another path is changed.
read_pid-write_pid :
    (sys : System) (getenv : Environ) (o : Options) (pid : ℕ) (files : Files) (other : Text)
    → pid ≤ max_uint32
    → other ≢ pid_path sys getenv o
    → (read_pid sys getenv o (write_pid sys getenv o true pid files).0 ≡ some pid)
      × ((write_pid sys getenv o true pid files).0 other ≡ files other)
unfolding write_pid
read_pid-write_pid sys getenv o pid files other h apart = (
  read_pid_written sys getenv o pid files h,
  ground (arith, text_beq_iff other (pid_path sys getenv o)),
)
