-- ===== src/Authz/Audit.antt =====
-- AuditBuffer of internal/security/authz/audit.go: a bounded queue of decision logs between the
-- requests that emit and the worker that writes to the sink, which here is the list of what it wrote.
-- The worker runs from Start, which is called once, to Stop; the two counters are uint64.
pub mod Accounting
use torana_enterprise.Prelude.{
  ℕ, zero, suc, ◌+◌, ◌%◌, ◌^◌, ◌≤◌, ◌<◌, ◌≡◌, refl, ap, ◌∙◌, Bool, true, false, List, [], ◌∷◌, ◌++◌,
  ltb, length, length-append, if◌then◌else◌, arith,
}
use mathlib.Core.List.{append_assoc}
use torana_enterprise.Authz.Types.{DecisionLog}

pub record AuditBuffer : Type 0 where
  pub capacity : ℕ
  -- the worker runs
  pub started : Bool
  pub queue : List DecisionLog
  pub written : List DecisionLog
  pub emitted_count : ℕ
  pub dropped_count : ℕ

-- NewAuditBuffer of a capacity that is positive, or 0 for one that is not
unfoldable pub new_audit_buffer : ℕ → AuditBuffer
new_audit_buffer capacity = record {
  capacity = if ltb 0 capacity then capacity else 10000;
  started = false;
  queue = [];
  written = [];
  emitted_count = 0;
  dropped_count = 0;
}

unfoldable pub emit : AuditBuffer → DecisionLog → AuditBuffer × Bool
emit b entry =
    if ltb (length b.queue) b.capacity
    then (
      record b { queue = b.queue ++ entry ∷ []; emitted_count = (b.emitted_count + 1) % 2 ^ 64 },
      true,
    )
    else (record b { dropped_count = (b.dropped_count + 1) % 2 ^ 64 }, false)

write_first : AuditBuffer → List DecisionLog → AuditBuffer
write_first b [] = b
write_first b (e ∷ q) = record b { queue = q; written = b.written ++ e ∷ [] }

-- Start
unfoldable pub start : AuditBuffer → AuditBuffer
start b = record b { started = true }

-- one entry taken by the worker, if it runs and there is one
unfoldable pub work : AuditBuffer → AuditBuffer
unfolding write_first
work b = if b.started then write_first b b.queue else b

-- Stop: the worker, if it runs, drains the queue and ends
unfoldable pub stop : AuditBuffer → AuditBuffer
stop b =
    if b.started
    then record b { started = false; queue = []; written = b.written ++ b.queue }
    else b

-- The steps of the requests, of the worker and of the owner, in any order.
pub data Event : Type 0 where
  starts : Event
  emits : DecisionLog → Event
  works : Event
  stops : Event

unfoldable pub handle : AuditBuffer → Event → AuditBuffer
unfolding start emit work stop
handle b starts = start b
handle b (emits e) = (emit b e).0
handle b works = work b
handle b stops = stop b

unfoldable pub run : AuditBuffer → List Event → AuditBuffer
unfolding handle
run b [] = b
run b (e ∷ es) = run (handle b e) es
