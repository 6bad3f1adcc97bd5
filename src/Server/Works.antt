-- ===== src/Server/Works.antt =====
-- The invariant through the steps of the background goroutines.
use boruta.Common.{
  ℕ, ◌≡◌, refl, subst, Bool, true, false, Option, none, some, List, [], ◌∷◌, arith, nat_eq, text_eq,
  ◌==◌, lookup, inl, lookup-insert, beq_refl,
}
use boruta.Types.{worker_state_eq, WorkerUuid, WorkerState, run, prepare, busy, Time}
use boruta.Std.{Std}
use boruta.Outcome.{Sound, returns, Sound-or_fail, Sound-if}
use boruta.Workers.{MapWorker, check_pending_operation, long_operation, store_worker}
use boruta.Server.{Server}
use boruta.Server.Background.{
  receive, receive_next, keyed_worker, end_with, store_key, end_operation, is_ready,
  operation_result, store_in,
}
use boruta.Server.Invariant.{Inv, IsKeyed, IsPending, IsLong}
use boruta.Server.States.{set_state-Inv}
use boruta.Server.Keeps.{store-Inv, IsSane-at, booked_none}

long_operation-IsLong : (x : WorkerState) → IsLong (long_operation x)
unfolding long_operation
long_operation-IsLong prepare = refl
long_operation-IsLong busy = refl
long_operation-IsLong _ = tt

long_operation-IsPending :
    (x state : WorkerState) → x ≡ state → IsPending none (long_operation x) state
unfolding long_operation
long_operation-IsPending prepare state e = e
long_operation-IsPending busy state e = e
long_operation-IsPending _ state e = tt

check_pending_operation-cons :
    (x : WorkerState) (l : List WorkerState)
    → (z : WorkerState) × (check_pending_operation (x ∷ l) ≡ some z)
unfolding check_pending_operation
check_pending_operation-cons x [] = (x, refl)
check_pending_operation-cons x (y ∷ l) = check_pending_operation-cons y l

-- The first state is taken from the channel: what is pending stays the worker's state.
taken-IsPending :
    (x : WorkerState) (l : List WorkerState) (state : WorkerState)
    → IsPending (check_pending_operation (x ∷ l)) none state
    → IsPending (check_pending_operation l) (long_operation x) state
unfolding check_pending_operation
taken-IsPending x [] state p = long_operation-IsPending x state p
taken-IsPending x (y ∷ l) state p =
    let (z, e) = check_pending_operation-cons y l in rw e (rw e at p)

-- The result of an operation that is ready suits the worker's key.
result-IsKeyed :
    (op : WorkerState) (key : Option ℕ) (failing : Bool)
    → long_operation op ≡ some op
    → is_ready op key failing ≡ true
    → IsKeyed (operation_result op failing) key
unfolding long_operation is_ready operation_result
result-IsKeyed op (some k) failing l r = tt
result-IsKeyed prepare none true l r = (λ e. cc, λ e. cc)
result-IsKeyed prepare none false l r = cc
result-IsKeyed busy none true l r = (λ e. cc, λ e. cc)
result-IsKeyed busy none false l r = (λ e. cc, λ e. cc)
result-IsKeyed _ none failing l r = cc

long_not_run : (op : WorkerState) → long_operation op ≡ some op → (op == run) ≡ false
unfolding long_operation
long_not_run run l = cc
long_not_run _ l = refl

module _ {s : Server} (v : Inv false s) (uuid : WorkerUuid) (w : MapWorker)
    (e : lookup uuid s.workers.workers ≡ some w) where
  receive_next-Inv :
      (op : Option WorkerState) (l : List WorkerState)
      → w.background ≡ op
      → w.background_operation ≡ l
      → Inv false (receive_next op l uuid w s)
  unfolding receive_next store_in
  receive_next-Inv none (x ∷ l) eo el =
      let sane = IsSane-at v uuid w e in
      let before : IsPending (check_pending_operation (x ∷ l)) none w.info.state =
        subst (λ o. IsPending (check_pending_operation (x ∷ l)) o w.info.state) eo
          (subst (λ k. IsPending (check_pending_operation k) w.background w.info.state) el
            sane.pending) in
      store-Inv v uuid w (record w { background_operation = l; background = long_operation x }) e
        refl
        (record {
          named = sane.named;
          pending = taken-IsPending x l w.info.state before;
          keyed = sane.keyed;
          long = long_operation-IsLong x;
        })
  receive_next-Inv _ _ eo el = v

  keyed_worker-Inv :
      (op : Option WorkerState) (key : ℕ) → Inv false (store_in uuid (keyed_worker op key w) s)
  unfolding keyed_worker store_in
  keyed_worker-Inv (some prepare) key =
      let sane = IsSane-at v uuid w e in
      store-Inv v uuid w (record w { key = some key }) e refl
        (record { named = sane.named; pending = sane.pending; keyed = tt; long = sane.long })
  keyed_worker-Inv _ key = store-Inv v uuid w w e refl (IsSane-at v uuid w e)

  end_with-Inv :
      ⦃std : Std⦄
      → (op pending : Option WorkerState) (failing : Bool) (now : Time) → w.background ≡ op
      → check_pending_operation w.background_operation ≡ pending
      → Sound (Inv false) (end_with op pending uuid w failing now s)
  unfolding end_with store_in store_worker
  end_with-Inv none p failing now eo ep = returns v
  end_with-Inv (some op) (some x) failing now eo ep =
      let sane = IsSane-at v uuid w e in
      let last : x ≡ w.info.state =
        subst (λ p. IsPending p w.background w.info.state) ep sane.pending in
      returns (
        store-Inv v uuid w (record w { background_operation = []; background = long_operation x }) e
          refl
          (record {
            named = sane.named;
            pending =
                unfold check_pending_operation in long_operation-IsPending x w.info.state last;
            keyed = sane.keyed;
            long = long_operation-IsLong x;
          }))
  end_with-Inv (some op) none failing now eo ep =
      let sane = IsSane-at v uuid w e in
      let u = record w { background = none } in
      let of_op : IsPending none (some op) w.info.state =
        subst (λ o. IsPending none o w.info.state) eo
          (subst (λ p. IsPending p w.background w.info.state) ep sane.pending) in
      let is_long : IsLong (some op) = subst IsLong eo sane.long in
      let t = record s { workers = store_worker uuid u s.workers } in
      let tv : Inv false t =
        store-Inv v uuid w u e refl
          (record { named = sane.named; pending = rw ep tt; keyed = sane.keyed; long = tt }) in
      Sound-if (is_ready op w.key failing)
        (λ r.
          set_state-Inv tv uuid u (operation_result op failing) now
            (rw (lookup-insert uuid uuid u s.workers.workers, beq_refl uuid) refl)
            (result-IsKeyed op w.key failing is_long r)
            (inl (booked_none v uuid w e (ground (arith, long_not_run op is_long)))))
        (λ _. returns v)

module _ {s : Server} (v : Inv false s) (uuid : WorkerUuid) where
  pub receive-Inv : Sound (Inv false) (receive uuid s)
  unfolding receive
  receive-Inv =
      Sound-or_fail (lookup uuid s.workers.workers) _
        λ w e. returns (receive_next-Inv v uuid w e w.background w.background_operation refl refl)

  pub store_key-Inv : (key : ℕ) → Sound (Inv false) (store_key uuid key s)
  unfolding store_key
  store_key-Inv key =
      Sound-or_fail (lookup uuid s.workers.workers) _
        λ w e. returns (keyed_worker-Inv v uuid w e w.background key)

  pub end_operation-Inv :
      ⦃std : Std⦄
      → (failing : Bool) (now : Time) → Sound (Inv false) (end_operation uuid failing now s)
  unfolding end_operation
  end_operation-Inv failing now = Sound-or_fail (lookup uuid s.workers.workers) _ λ w e.
      end_with-Inv v uuid w e w.background (check_pending_operation w.background_operation) failing
        now refl refl
