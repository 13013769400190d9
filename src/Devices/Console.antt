-- ===== src/Devices/Console.antt =====
-- crates/aegishv-devices/src/console.rs: the queue of console bytes, a ring in an array.
pub mod Fifo
use aegis_hv.Common.{
  ℕ, ◌+◌, ◌-◌, ◌%◌, Bool, true, false, Option, none, some, List, [], ◌∷◌, length, get_or, set,
  replicate, ◌==◌, if◌then◌else◌, Result, ok, err, Method,
}
use aegis_hv.Devices.{DeviceErrorKind, capacity_exceeded}

pub record ConsoleQueue : Type 0 where
  pub bytes : List ℕ
  pub read : ℕ
  pub len : ℕ

-- `ConsoleQueue::<N>::new`
abbrev pub new_queue : ℕ → ConsoleQueue
new_queue n = record { bytes = replicate n 0; read = 0; len = 0 }

-- `ConsoleQueue::push`
unfoldable pub push_byte : ℕ → Method ConsoleQueue DeviceErrorKind (Unit {0})
push_byte byte q =
    let write = (q.read + q.len) % length q.bytes in
    if q.len == length q.bytes
    then (err capacity_exceeded, q)
    else (ok tt, record q { bytes = set q.bytes write byte; len = q.len + 1 })

-- `ConsoleQueue::pop`
unfoldable pub pop_byte : ConsoleQueue → Option ℕ × ConsoleQueue
pop_byte q = if q.len == 0 then (none, q) else (
  some (get_or q.bytes q.read 0),
  record q { read = (q.read + 1) % length q.bytes; len = q.len - 1 },
)
