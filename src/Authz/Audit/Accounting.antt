-- ===== src/Authz/Audit/Accounting.antt =====
-- No decision log is lost uncounted (internal/security/authz/audit.go, AuditBuffer).
use torana_enterprise.Prelude.{
  ℕ, suc, ◌+◌, ◌^◌, ◌≤◌, ◌<◌, ◌≡◌, refl, List, [], ◌∷◌, length, length-append, arith, Bool-cases,
  inl, inr,
}
use torana_enterprise.Authz.Types.{DecisionLog}
use torana_enterprise.Authz.Audit.{
  AuditBuffer, new_audit_buffer, emit, write_first, start, work, stop, Event, starts, emits, works,
  stops, handle, run,
}

-- how many logs the events emit
abbrev pub emissions : List Event → ℕ
emissions [] = 0
emissions (emits e ∷ es) = suc (emissions es)
emissions (starts ∷ es) = emissions es
emissions (works ∷ es) = emissions es
emissions (stops ∷ es) = emissions es

-- The books of a buffer after `n` calls of Emit.
pub record IsBalanced (b : AuditBuffer) (n : ℕ) : Type 0 where
  pub bounded : length b.queue ≤ b.capacity
  pub stored : length b.written + length b.queue ≡ b.emitted_count
  pub counted : b.emitted_count + b.dropped_count ≡ n

emit-IsBalanced :
    (b : AuditBuffer) (n : ℕ) (e : DecisionLog)
    → suc n < 2 ^ 64
    → IsBalanced b n
    → IsBalanced (emit b e).0 (suc n)
unfolding emit
emit-IsBalanced b n e h v = ground (arith, length-append b.queue (e ∷ []))

write_first-IsBalanced :
    (b : AuditBuffer) (q : List DecisionLog) (n : ℕ)
    → b.queue ≡ q
    → IsBalanced b n
    → IsBalanced (write_first b q) n
unfolding write_first
write_first-IsBalanced b [] n s v = v
write_first-IsBalanced b (e ∷ q) n s v =
    let l : length b.queue ≡ suc (length q) = rw s in
    record {
      bounded = omega (arith, v.bounded);
      stored = omega (arith, v.stored, length-append b.written (e ∷ []));
      counted = v.counted;
    }

work-IsBalanced : (b : AuditBuffer) (n : ℕ) → IsBalanced b n → IsBalanced (work b) n
unfolding work
work-IsBalanced b n v = elim (Bool-cases b.started) [
  | inl t ↦ simp t (write_first-IsBalanced b b.queue n refl v)
  | inr t ↦ simp t v
]

stop-IsBalanced : (b : AuditBuffer) (n : ℕ) → IsBalanced b n → IsBalanced (stop b) n
unfolding stop
stop-IsBalanced b n v = elim (Bool-cases b.started) [
  | inl t ↦ simp t (record {
    bounded = omega arith;
    stored = omega (arith, v.stored, length-append b.written b.queue);
    counted = v.counted;
  })
  | inr t ↦ simp t v
]

run-IsBalanced :
    (es : List Event) (b : AuditBuffer) (n : ℕ)
    → n + emissions es < 2 ^ 64
    → IsBalanced b n
    → IsBalanced (run b es) (n + emissions es)
unfolding run handle start
run-IsBalanced [] b n h v = record {
  bounded = v.bounded;
  stored = v.stored;
  counted = omega (arith, v.counted);
}
run-IsBalanced (emits e ∷ es) b n h v =
    let r =
      run-IsBalanced es (emit b e).0 (suc n) (omega arith)
        (emit-IsBalanced b n e (omega arith) v) in
    record { bounded = r.bounded; stored = r.stored; counted = omega (arith, r.counted) }
run-IsBalanced (works ∷ es) b n h v = run-IsBalanced es (work b) n h (work-IsBalanced b n v)
run-IsBalanced (starts ∷ es) b n h v =
    run-IsBalanced es (start b) n h
      (record { bounded = v.bounded; stored = v.stored; counted = v.counted })
run-IsBalanced (stops ∷ es) b n h v = run-IsBalanced es (stop b) n h (stop-IsBalanced b n v)

-- Whatever the order in which requests emit, the worker starts, writes and stops, fewer than 2^64 logs in all: the
-- queue of a new buffer stays within its capacity, what the sink has and what is queued are as many
-- as the emitted count says, and the emitted and the dropped counts add up to the calls of Emit.
pub new_audit_buffer-IsBalanced :
    (capacity : ℕ) (es : List Event)
    → emissions es < 2 ^ 64
    → IsBalanced (run (new_audit_buffer capacity) es) (emissions es)
unfolding new_audit_buffer
new_audit_buffer-IsBalanced capacity es h =
    let fresh : IsBalanced (new_audit_buffer capacity) 0 = record {
      bounded = omega arith;
      stored = omega arith;
      counted = omega arith;
    } in
    let r = run-IsBalanced es (new_audit_buffer capacity) 0 (omega arith) fresh in
    record { bounded = r.bounded; stored = r.stored; counted = omega (arith, r.counted) }
