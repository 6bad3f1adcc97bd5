-- ===== src/Requests/Leads.antt =====
-- The states that requests come to be in, one after another.
pub mod Calls
use boruta.Common.{
  ◌+◌, ◌≡◌, refl, sym, ap, ◌∙◌, subst, Bool, true, false, not, ◌&&◌, ◌||◌, Option, none, some, Map,
  lookup, insert, lookup-insert, nat_beq, nat_beq_iff, nat_eq, ltb, length, inl, inr, Bool-cases,
  arith, ◌==◌, if◌then◌else◌,
}
use boruta.Types.{
  ReqId, WorkerUuid, Time, Capabilities, Priority, UserInfo, ReqInfo, ReqState, wait, inprogress,
  cancel, timeout, invalid, done, failed, req_state_eq, hi_prio, lo_prio,
}
use boruta.Std.{Std}
use boruta.Outcome.{Every, gives, Every-bind, Every-after, Every-or_fail, Every-fail_if, Every-if}
use boruta.Times.{insert_time}
use boruta.Queue
use boruta.Requests.{
  ReqsCollection, find_request, new_request, add_request, out_of_range, update_request, update_with,
  update_locked, change_request, apply_update, insert_opt, prolong_access, run_request,
  timeout_request, cancel_request, on_worker_idle, modification_possible,
}
use boruta.Requests.Keeps.{IsSettled}

-- The states that a request may come to be in, from one that it is in.
abbrev pub leads : ReqState → ReqState → Bool
leads wait y = true
leads inprogress y = y == inprogress || (y == done || y == failed)
leads x y = x == y

abbrev pub is_led : ReqState → Option ReqInfo → Bool
is_led x none = false
is_led x (some u) = leads x u.state

-- A request that there is stays, in a state that its state leads to.
abbrev pub IsKept : Option ReqInfo → Option ReqInfo → Type 0
IsKept none p = Unit
IsKept (some r) p = is_led r.state p ≡ true

pub record Leads (m n : Map ReqId ReqInfo) : Type 0 where
  pub kept : (id : ReqId) → IsKept (lookup id m) (lookup id n)

leads_refl : (x : ReqState) → leads x x ≡ true
leads_refl wait = refl
leads_refl inprogress = refl
leads_refl cancel = refl
leads_refl timeout = refl
leads_refl invalid = refl
leads_refl done = refl
leads_refl failed = refl

-- An end leads to itself only.
stays_ended : (x y z : ReqState) → (x == y) ≡ true → leads y z ≡ true → leads x z ≡ true
stays_ended x y z h k = subst (λ w. leads w z ≡ true) (sym ((req_state_eq.beq_iff x y).0 h)) k

leads_trans : (x y z : ReqState) → leads x y ≡ true → leads y z ≡ true → leads x z ≡ true
leads_trans wait y z h k = refl
leads_trans inprogress inprogress z h k = k
leads_trans inprogress done z h k = ground (arith, (req_state_eq.beq_iff done z).0 k, k)
leads_trans inprogress failed z h k = ground (arith, (req_state_eq.beq_iff failed z).0 k, k)
leads_trans inprogress wait z h k = cc
leads_trans inprogress cancel z h k = cc
leads_trans inprogress timeout z h k = cc
leads_trans inprogress invalid z h k = cc
leads_trans cancel y z h k = stays_ended cancel y z h k
leads_trans timeout y z h k = stays_ended timeout y z h k
leads_trans invalid y z h k = stays_ended invalid y z h k
leads_trans done y z h k = stays_ended done y z h k
leads_trans failed y z h k = stays_ended failed y z h k

IsKept-refl : (o : Option ReqInfo) → IsKept o o
IsKept-refl none = tt
IsKept-refl (some r) = leads_refl r.state

pub Leads-refl : (m : Map ReqId ReqInfo) → Leads m m
Leads-refl m = record { kept = λ id. IsKept-refl (lookup id m) }

IsKept-trans : (o p q : Option ReqInfo) → IsKept o p → IsKept p q → IsKept o q
IsKept-trans none p q h k = tt
IsKept-trans (some r) none q h k = cc
IsKept-trans (some r) (some u) none h k = k
IsKept-trans (some r) (some u) (some w) h k = leads_trans r.state u.state w.state h k

pub Leads-trans : {m n o : Map ReqId ReqInfo} → Leads m n → Leads n o → Leads m o
Leads-trans {m} {n} {o} h k = record {
  kept = λ id. IsKept-trans (lookup id m) (lookup id n) (lookup id o) (h.kept id) (k.kept id);
}

pub insert-Leads :
    (m : Map ReqId ReqInfo) (rid : ReqId) (u : ReqInfo)
    → IsKept (lookup rid m) (some u)
    → Leads m (insert rid u m)
insert-Leads m rid u h = record {
  kept = λ id. elim (Bool-cases (nat_beq rid id)) [
    | inl e ↦
        rw (lookup-insert rid id u m, e)
          (subst (λ i. IsKept (lookup i m) (some u)) ((nat_beq_iff rid id).0 e) h)
    | inr e ↦ rw (lookup-insert rid id u m, e) (IsKept-refl (lookup id m))
  ];
}

pub fresh-Leads :
    (m : Map ReqId ReqInfo) (rid : ReqId) (u : ReqInfo)
    → lookup rid m ≡ none
    → Leads m (insert rid u m)
fresh-Leads m rid u e = insert-Leads m rid u (subst (λ o. IsKept o (some u)) (sym e) tt)

-- A request comes to be in another state, or stays in its own.
pub open-IsKept :
    (o : Option ReqInfo) (r u : ReqInfo) (x : ReqState)
    → o ≡ some r
    → r.state ≡ x
    → leads x u.state ≡ true
    → IsKept o (some u)
open-IsKept none r u x e s h = tt
open-IsKept (some q) r u x e s h =
    let f : q ≡ r = cc in subst (λ y. leads y u.state ≡ true) (sym (ap (λ i. i.state) f ∙ s)) h

pub same-IsKept :
    (o : Option ReqInfo) (r u : ReqInfo) → o ≡ some r → u.state ≡ r.state → IsKept o (some u)
same-IsKept o r u e h =
    open-IsKept o r u r.state e refl
      (subst (λ y. leads r.state y ≡ true) (sym h) (leads_refl r.state))

pub is_waiting : (r : ReqInfo) → (r.state == wait) ≡ true → r.state ≡ wait
is_waiting r h = (req_state_eq.beq_iff r.state wait).0 h

pub is_running : (r : ReqInfo) → (r.state == inprogress) ≡ true → r.state ≡ inprogress
is_running r h = (req_state_eq.beq_iff r.state inprogress).0 h

-- What a call makes of the collection.
abbrev pub Keeps : ReqsCollection → ReqsCollection → Type 0
Keeps c d = Leads c.requests d.requests
