-- ===== src/Times.antt =====
-- requests/times.go, requests/timesheap.go: times with requests, and a timer set for the earliest.
-- The timer is the time that it is set for. `process` is in two parts, since the matcher is notified
-- between them: `take_past` empties the heap of past times, `rearm` sets the timer again. `is_locked`
-- tells whether a call of `process` holds the mutex, which is not re-entrant: an insertion waits then.
pub mod Past
pub mod Armed
use boruta.Common.{
  ℕ, zero, suc, Bool, true, false, List, [], ◌∷◌, if◌then◌else◌, ltb, nat_beq, length, ◌≡◌, refl,
  ◌⊎◌, inl, inr, Bool-cases,
}
use boruta.Types.{Time, ReqId, Result, ok, blocked}
use boruta.Std.{Std, RequestTime}

pub record RequestTimes : Type 0 where
  pub times : List RequestTime
  pub timer : Time
  pub is_locked : Bool

-- newRequestTimes: `far_future` is time.Now().AddDate(100, 0, 0).
unfoldable pub new_request_times : Time → RequestTimes
new_request_times far_future = record { times = []; timer = far_future; is_locked = false }

module _ ⦃std : Std⦄ where
  unfoldable pub insert_time : RequestTime → RequestTimes → Result RequestTimes
  insert_time t rt =
      let (least, rest) = std.heap_push t rt.times in
      if rt.is_locked
      then blocked
      else ok (record rt {
        times = least ∷ rest;
        timer = if nat_beq least.at t.at then least.at else rt.timer;
      })

  -- The loop of `process`: the requests of the times before `t`, and the times left. One round for
  -- each time in the heap is enough.
  unfoldable pub take_past_loop : ℕ → Time → List RequestTime → List ReqId × List RequestTime
  take_past_loop zero t h = ([], h)
  take_past_loop (suc k) t [] = ([], [])
  take_past_loop (suc k) t (x ∷ h) =
      let popped = std.heap_pop x h in
      let rest = take_past_loop k t popped.1 in
      if ltb x.at t then (popped.0.req ∷ rest.0, rest.1) else ([], x ∷ h)

  unfoldable pub take_past : Time → RequestTimes → List ReqId × RequestTimes
  unfolding take_past_loop
  take_past t rt =
      let (past, left) = take_past_loop (length rt.times) t rt.times in
      (past, record rt { times = left; is_locked = true })

unfoldable pub rearm : RequestTimes → RequestTimes
rearm rt = elim rt.times [
  | [] ↦ record rt { is_locked = false }
  | x ∷ h ↦ record rt { timer = x.at; is_locked = false }
]

-- An insertion waits for a process that runs, and returns at any other time.
pub insert_time-cases :
    ⦃std : Std⦄
    → (t : RequestTime) (rt : RequestTimes)
    → (insert_time t rt ≡ blocked)
      ⊎ ((d : RequestTimes) × (insert_time t rt ≡ ok d) × (d.is_locked ≡ rt.is_locked))
unfolding insert_time
insert_time-cases ⦃std⦄ t rt = elim (Bool-cases rt.is_locked) [
  | inl e ↦ inl (rw e)
  | inr e ↦ inr (
    record {
      times = (std.heap_push t rt.times).0 ∷ (std.heap_push t rt.times).1;
      timer =
          if nat_beq (std.heap_push t rt.times).0.at t.at
          then (std.heap_push t rt.times).0.at
          else rt.timer;
      is_locked = rt.is_locked;
    },
    rw e refl,
    refl,
  )
]
