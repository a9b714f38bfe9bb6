-- ===== src/FifoMutex.antt =====
-- internal/fifo_mutex/fifo_mutex.go: a mutex on a buffered Go channel, which holds a value for each lock.
use sockety_go.Common.{ℕ, ◌+◌, ◌-◌, ltb, ◌==◌, if◌then◌else◌, returned, blocked, M}

pub record FifoMutex : Type 0 where
  pub concurrent : ℕ
  pub held : ℕ

unfoldable pub new_fifo_mutex : ℕ → FifoMutex
new_fifo_mutex concurrent = record { concurrent = concurrent; held = 0 }

unfoldable pub lock : M FifoMutex (Unit {0})
lock f = if ltb f.held f.concurrent then returned tt (record f { held = f.held + 1 }) else blocked

unfoldable pub unlock : M FifoMutex (Unit {0})
unlock f = if f.held == 0 then blocked else returned tt (record f { held = f.held - 1 })
