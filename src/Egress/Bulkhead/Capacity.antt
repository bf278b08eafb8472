-- ===== src/Egress/Bulkhead/Capacity.antt =====
-- Callers of a bulkhead, in any interleaving (internal/egress/postgres/bulkhead.go).
use torana_enterprise.Prelude.{
  ℕ, ◌+◌, ◌≤◌, ◌≡◌, refl, List, [], ◌∷◌, ◌++◌, none, some, length, length-append, arith,
}
use torana_enterprise.Prelude.Int.{ℤ}
use torana_enterprise.Egress.Bulkhead.{
  Bulkhead, new_bulkhead, take_slot, enter_queue, leave_queue, release,
}

-- Where the callers are: before the second select; in the third; after it with a slot, or with the
-- error of the context, and in both cases still in the queue; returned from Acquire with a slot.
pub record Callers : Type 0 where
  pub missed : List ℕ
  pub waiting : List ℕ
  pub admitted : List ℕ
  pub abandoned : List ℕ
  pub running : List ℕ

pub record System : Type 0 where
  pub bulkhead : Bulkhead
  pub callers : Callers

-- One step of one caller. A caller that runs calls the release function that it was given, once.
pub data Step : System → System → Type 0 where
  starts :
      (c : ℕ) (b b' : Bulkhead) (cs : Callers)
      → take_slot b ≡ some b'
      → Step
          (record { bulkhead = b; callers = cs })
          (record { bulkhead = b'; callers = record cs { running = c ∷ cs.running } })
  misses :
      (c : ℕ) (b : Bulkhead) (cs : Callers)
      → take_slot b ≡ none
      → Step
          (record { bulkhead = b; callers = cs })
          (record { bulkhead = b; callers = record cs { missed = c ∷ cs.missed } })
  queues :
      (c : ℕ) (b b' : Bulkhead) (cs : Callers) (ps qs : List ℕ)
      → cs.missed ≡ ps ++ c ∷ qs
      → enter_queue b ≡ some b'
      → Step
          (record { bulkhead = b; callers = cs })
          (record {
            bulkhead = b';
            callers = record cs { missed = ps ++ qs; waiting = c ∷ cs.waiting };
          })
  rejected :
      (c : ℕ) (b : Bulkhead) (cs : Callers) (ps qs : List ℕ)
      → cs.missed ≡ ps ++ c ∷ qs
      → enter_queue b ≡ none
      → Step
          (record { bulkhead = b; callers = cs })
          (record { bulkhead = b; callers = record cs { missed = ps ++ qs } })
  wakes :
      (c : ℕ) (b b' : Bulkhead) (cs : Callers) (ps qs : List ℕ)
      → cs.waiting ≡ ps ++ c ∷ qs
      → take_slot b ≡ some b'
      → Step
          (record { bulkhead = b; callers = cs })
          (record {
            bulkhead = b';
            callers = record cs { waiting = ps ++ qs; admitted = c ∷ cs.admitted };
          })
  gives_up :
      (c : ℕ) (b : Bulkhead) (cs : Callers) (ps qs : List ℕ)
      → cs.waiting ≡ ps ++ c ∷ qs
      → Step
          (record { bulkhead = b; callers = cs })
          (record {
            bulkhead = b;
            callers = record cs { waiting = ps ++ qs; abandoned = c ∷ cs.abandoned };
          })
  enters :
      (c : ℕ) (b : Bulkhead) (cs : Callers) (ps qs : List ℕ)
      → cs.admitted ≡ ps ++ c ∷ qs
      → Step
          (record { bulkhead = b; callers = cs })
          (record {
            bulkhead = leave_queue b;
            callers = record cs { admitted = ps ++ qs; running = c ∷ cs.running };
          })
  leaves :
      (c : ℕ) (b : Bulkhead) (cs : Callers) (ps qs : List ℕ)
      → cs.abandoned ≡ ps ++ c ∷ qs
      → Step
          (record { bulkhead = b; callers = cs })
          (record { bulkhead = leave_queue b; callers = record cs { abandoned = ps ++ qs } })
  releases :
      (c : ℕ) (b : Bulkhead) (cs : Callers) (ps qs : List ℕ)
      → cs.running ≡ ps ++ c ∷ qs
      → Step
          (record { bulkhead = b; callers = cs })
          (record { bulkhead = release b; callers = record cs { running = ps ++ qs } })

pub data Reaches : System → System → Type 0 where
  stay : (s : System) → Reaches s s
  onward : (s t u : System) → Step s t → Reaches t u → Reaches s u

-- the callers that have a slot, and those that are in the queue
abbrev pub slots : Callers → ℕ
slots cs = length cs.admitted + length cs.running

abbrev pub queue : Callers → ℕ
queue cs = length cs.waiting + length cs.admitted + length cs.abandoned

-- The channels count the callers, and the limits are those of `b`.
pub record IsWithin (b : Bulkhead) (s : System) : Type 0 where
  pub holding : slots s.callers ≡ s.bulkhead.active
  pub queueing : queue s.callers ≡ s.bulkhead.queued
  pub concurrent : slots s.callers ≤ b.max_concurrent
  pub bounded : queue s.callers ≤ b.max_queue
  pub same_slots : s.bulkhead.max_concurrent ≡ b.max_concurrent
  pub same_queue : s.bulkhead.max_queue ≡ b.max_queue

-- one caller fewer
removed : (c : ℕ) (xs ps qs : List ℕ) → xs ≡ ps ++ c ∷ qs → length xs ≡ length (ps ++ qs) + 1
removed c xs ps qs e = ground (arith, length-append ps (c ∷ qs), length-append ps qs)

IsWithin-Step : (b : Bulkhead) (s t : System) → Step s t → IsWithin b s → IsWithin b t
unfolding take_slot enter_queue leave_queue release
IsWithin-Step b s t (starts c x y cs e) h = ground (arith, e, h)
IsWithin-Step b s t (misses c x cs e) h = ground (arith, h)
IsWithin-Step b s t (queues c x y cs ps qs m e) h = ground (arith, e, h)
IsWithin-Step b s t (rejected c x cs ps qs m e) h = ground (arith, h)
IsWithin-Step b s t (wakes c x y cs ps qs m e) h =
    ground (arith, e, h, removed c cs.waiting ps qs m)
IsWithin-Step b s t (gives_up c x cs ps qs m) h = ground (arith, h, removed c cs.waiting ps qs m)
IsWithin-Step b s t (enters c x cs ps qs m) h = ground (arith, h, removed c cs.admitted ps qs m)
IsWithin-Step b s t (leaves c x cs ps qs m) h = ground (arith, h, removed c cs.abandoned ps qs m)
IsWithin-Step b s t (releases c x cs ps qs m) h = ground (arith, h, removed c cs.running ps qs m)

IsWithin-Reaches : (b : Bulkhead) (s t : System) → Reaches s t → IsWithin b s → IsWithin b t
IsWithin-Reaches b s t (stay u) h = h
IsWithin-Reaches b s t (onward u v w x r) h = IsWithin-Reaches b v w r (IsWithin-Step b u v x h)

abbrev pub fresh : Bulkhead → System
fresh b = record {
  bulkhead = b;
  callers = record { missed = []; waiting = []; admitted = []; abandoned = []; running = [] };
}

-- However callers of a new bulkhead arrive, wait, give up and release: no more than max_concurrent
-- hold a slot and no more than max_queue are in the queue, those included whose wait has ended and who
-- are yet to leave it, and the channels hold one element for each.
pub new_bulkhead-IsWithin :
    (m q : ℤ) (s : System) → Reaches (fresh (new_bulkhead m q)) s → IsWithin (new_bulkhead m q) s
unfolding new_bulkhead
new_bulkhead-IsWithin m q s r =
    IsWithin-Reaches (new_bulkhead m q) (fresh (new_bulkhead m q)) s r (record {
      holding = refl;
      queueing = refl;
      concurrent = omega arith;
      bounded = omega arith;
      same_slots = refl;
      same_queue = refl;
    })
