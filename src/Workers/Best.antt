-- ===== src/Workers/Best.antt =====
-- The loop of TakeBestMatchingWorker: the worker of the least score.
use boruta.Common.{ℕ, ◌≤◌, ◌≡◌, ◌⊎◌, inl, inr, List, [], ◌∷◌, arith, ltb, Bool-cases, All}
use boruta.Types.{WorkerInfo, WorkerUuid}
use boruta.Workers.{best_of, score, max_int32}

-- What holds of every worker of the list and its score holds of the best, unless none was found.
pub best_of-holds :
    (Q : ℕ → WorkerUuid → Type 0) (best_score : ℕ) (best : WorkerUuid) (l : List WorkerInfo)
    → (Q best_score best ⊎ (best_score ≡ max_int32))
    → All (λ i. Q (score i) i.worker_uuid) l
    → let found = best_of best_score best l in Q found.0 found.1 ⊎ (found.0 ≡ max_int32)
unfolding best_of
best_of-holds Q b u [] h a = h
best_of-holds Q b u (w ∷ ws) h a = elim (Bool-cases (ltb (score w) b)) [
  | inl e ↦ rw (e, best_of) (best_of-holds Q (score w) w.worker_uuid ws (inl a.0) a.1)
  | inr e ↦ rw (e, best_of) (best_of-holds Q b u ws h a.1)
]

-- No score is less than the best.
pub best_of-least :
    (best_score : ℕ) (best : WorkerUuid) (l : List WorkerInfo) (n : ℕ)
    → (best_of best_score best l).0 ≡ n
    → (n ≤ best_score) × All (λ i. n ≤ score i) l
unfolding best_of
best_of-least b u [] n h = (omega arith, tt)
best_of-least b u (w ∷ ws) n h = elim (Bool-cases (ltb (score w) b)) [
  | inl e ↦
      let (below, least) = best_of-least (score w) w.worker_uuid ws n (rw (e, best_of) at h) in
      (ground arith, (below, least))
  | inr e ↦
      let (below, least) = best_of-least b u ws n (rw (e, best_of) at h) in
      (below, (ground arith, least))
]
