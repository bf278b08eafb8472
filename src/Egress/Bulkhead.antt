-- ===== src/Egress/Bulkhead.antt =====
-- Bulkhead of internal/egress/postgres/bulkhead.go. The two channels are used for their lengths only.
-- Each select of Acquire is one step of its own, and so is the deferred leave of the queue.
pub mod Capacity
use torana_enterprise.Prelude.{
  ℕ, suc, ◌+◌, ◌-◌, Bool, true, false, Option, none, some, ltb, if◌then◌else◌,
}
use torana_enterprise.Prelude.Int.{ℤ, pos, leb_ℤ, pos_part}

pub record Bulkhead : Type 0 where
  pub max_concurrent : ℕ
  pub max_queue : ℕ
  pub active : ℕ
  pub queued : ℕ

unfoldable pub new_bulkhead : ℤ → ℤ → Bulkhead
new_bulkhead max_concurrent max_queue = record {
  max_concurrent = if leb_ℤ max_concurrent (pos 0) then 50 else pos_part max_concurrent;
  max_queue = if leb_ℤ max_queue (pos 0) then 100 else pos_part max_queue;
  active = 0;
  queued = 0;
}

-- a send to activeSlots, if it has room: the first select of Acquire, and a case of the third
unfoldable pub take_slot : Bulkhead → Option Bulkhead
take_slot b =
    if ltb b.active b.max_concurrent then some (record b { active = b.active + 1 }) else none

-- the second select of Acquire: none for ErrBulkheadExhausted
unfoldable pub enter_queue : Bulkhead → Option Bulkhead
enter_queue b = if ltb b.queued b.max_queue then some (record b { queued = b.queued + 1 }) else none

-- the deferred receive from queueCapacity, however the wait ended
unfoldable pub leave_queue : Bulkhead → Bulkhead
leave_queue b = record b { queued = b.queued - 1 }

-- releaseSlot
unfoldable pub release : Bulkhead → Bulkhead
release b = record b { active = b.active - 1 }
