-- ===== src/Requests/Consistent.antt =====
-- When the map of requests and the queue agree, and the changes that keep them so.
use boruta.Common.{
  ℕ, suc, ◌≤◌, ◌<◌, ◌≡◌, subst, false, Option, none, some, arith, if◌then◌else◌, nat_beq, nat_eq,
  ◌==◌, length, count, lookup, insert, lookup-insert, length-insert_new, length-insert_old, Map,
}
use boruta.Types.{ReqId, wait, req_state_eq, Priority, hi_prio, lo_prio, ReqInfo}
use boruta.Queue.{PrioQueue}
use boruta.Queue.Counts.{
  total, removed, pushed, count-removed, count-pushed, size-removed, size-pushed,
}

-- How often a request stands in lane `p`: once if it waits with that priority.
abbrev pub expected : Priority → Option ReqInfo → ℕ
expected p none = 0
expected p (some r) = if r.state == wait then (if nat_beq r.priority p then 1 else 0) else 0

abbrev pub IsEntry : ReqId → Option ReqInfo → Type 0
IsEntry id none = Unit
IsEntry id (some r) = (r.id ≡ id) × (hi_prio ≤ r.priority) × (r.priority ≤ lo_prio)

-- The queue holds exactly the waiting requests, each once and in the lane of its priority; the IDs
-- are those that have been given, and priorities are in range.
pub record IsConsistent (m : Map ReqId ReqInfo) (q : PrioQueue) : Type 0 where
  pub counts : (id : ReqId) (p : Priority) → count id (q.lane p) ≡ expected p (lookup id m)
  pub entries : (id : ReqId) → IsEntry id (lookup id m)
  pub given : (id : ReqId) → length m < id → lookup id m ≡ none
  pub sized : q.size ≡ total lo_prio q.lane

module _ {m : Map ReqId ReqInfo} {q : PrioQueue} (v : IsConsistent m q) where
  -- A change of a request that concerns neither its state nor its priority.
  pub change-IsConsistent :
      (rid : ReqId) (r s : ReqInfo)
      → lookup rid m ≡ some r
      → s.id ≡ r.id
      → s.state ≡ r.state
      → s.priority ≡ r.priority
      → IsConsistent (insert rid s m) q
  change-IsConsistent rid r s e ei es ep = record {
    counts = λ id p. ground (arith, lookup-insert rid id s m, v.counts id p);
    entries = λ id. ground (arith, lookup-insert rid id s m, v.entries id);
    given =
        λ id h. ground (arith, lookup-insert rid id s m, length-insert_old rid s r m e, v.given id);
    sized = v.sized;
  }

  -- A request that does not wait, and does not wait afterwards.
  pub settle-IsConsistent :
      (rid : ReqId) (r s : ReqInfo)
      → lookup rid m ≡ some r
      → s.id ≡ r.id
      → s.priority ≡ r.priority
      → (r.state == wait) ≡ false
      → (s.state == wait) ≡ false
      → IsConsistent (insert rid s m) q
  settle-IsConsistent rid r s e ei ep er es = record {
    counts = λ id p. ground (arith, lookup-insert rid id s m, v.counts id p);
    entries = λ id. ground (arith, lookup-insert rid id s m, v.entries id);
    given =
        λ id h. ground (arith, lookup-insert rid id s m, length-insert_old rid s r m e, v.given id);
    sized = v.sized;
  }

  -- A waiting request stands in the lane of its priority.
  pub waiting-count :
      (rid : ReqId) (r : ReqInfo)
      → lookup rid m ≡ some r
      → r.state ≡ wait
      → count rid (q.lane r.priority) ≡ 1
  waiting-count rid r e es = ground (arith, v.counts rid r.priority)

  leave_sized :
      (rid : ReqId) (r : ReqInfo)
      → lookup rid m ≡ some r
      → r.state ≡ wait
      → (removed r.id r.priority q).size ≡ total lo_prio (removed r.id r.priority q).lane
  leave_sized rid r e ew =
      let entry : IsEntry rid (some r) = subst (IsEntry rid) e (v.entries rid) in
      size-removed r.id r.priority q entry.1 entry.2 (ground (arith, waiting-count rid r e ew))
        v.sized

  -- A waiting request leaves the queue.
  pub leave-IsConsistent :
      (rid : ReqId) (r s : ReqInfo)
      → lookup rid m ≡ some r
      → r.state ≡ wait
      → s.id ≡ r.id
      → s.priority ≡ r.priority
      → (s.state == wait) ≡ false
      → IsConsistent (insert rid s m) (removed r.id r.priority q)
  leave-IsConsistent rid r s e ew ei ep es = record {
    counts = λ id p. ground (
      arith,
      lookup-insert rid id s m,
      v.counts id p,
      v.entries rid,
      count-removed r.id id r.priority p q,
    );
    entries = λ id. ground (arith, lookup-insert rid id s m, v.entries id);
    given =
        λ id h. ground (arith, lookup-insert rid id s m, length-insert_old rid s r m e, v.given id);
    sized = leave_sized rid r e ew;
  }

  -- A new request enters the queue.
  pub enter-IsConsistent :
      (s : ReqInfo)
      → s.id ≡ suc (length m)
      → s.state ≡ wait
      → hi_prio ≤ s.priority
      → s.priority ≤ lo_prio
      → IsConsistent (insert (suc (length m)) s m) (pushed s.id s.priority q)
  enter-IsConsistent s ei es lo hi =
      let new : lookup (suc (length m)) m ≡ none = v.given (suc (length m)) (omega arith) in
      record {
        counts = λ id p. ground (
          arith,
          lookup-insert (suc (length m)) id s m,
          v.counts id p,
          new,
          count-pushed s.id id s.priority p q,
        );
        entries = λ id. ground (arith, lookup-insert (suc (length m)) id s m, v.entries id);
        given = λ id h. ground (
          arith,
          lookup-insert (suc (length m)) id s m,
          length-insert_new (suc (length m)) s m new,
          v.given id,
        );
        sized = size-pushed s.id s.priority q lo hi v.sized;
      }

  -- A waiting request moves to the end of the lane of a new priority.
  pub move-IsConsistent :
      (rid : ReqId) (r s : ReqInfo)
      → lookup rid m ≡ some r
      → r.state ≡ wait
      → s.id ≡ r.id
      → s.state ≡ wait
      → hi_prio ≤ s.priority
      → s.priority ≤ lo_prio
      → IsConsistent (insert rid s m) (pushed r.id s.priority (removed r.id r.priority q))
  move-IsConsistent rid r s e ew ei es lo hi =
      let q' = removed r.id r.priority q in
      record {
        counts = λ id p. ground (
          arith,
          lookup-insert rid id s m,
          v.counts id p,
          v.entries rid,
          count-removed r.id id r.priority p q,
          count-pushed r.id id s.priority p q',
        );
        entries = λ id. ground (arith, lookup-insert rid id s m, v.entries id);
        given = λ id h.
            ground (arith, lookup-insert rid id s m, length-insert_old rid s r m e, v.given id);
        sized = size-pushed r.id s.priority q' lo hi (leave_sized rid r e ew);
      }
