-- ===== src/Paging/Numbers.antt =====
-- The numbers that ListRequests and ListWorkers say of their lists.
use boruta.Common.{
  ℕ, ◌≤◌, ◌≡◌, false, Bool, Option, List, [], ◌∷◌, arith, length, select, length-Perm, ◌∙◌, text_eq,
  ◌==◌, codes, Perm, none, some, not, ◌&&◌, ◌||◌, nat_beq, nat_eq, is_none, lookup, map, values,
  Map,
}
use boruta.Types.{ReqInfo, WorkerInfo, WorkerUuid, ok, err, Error, req_state_eq}
use boruta.Std.{Std, SortLaws}
use boruta.Outcome.{Sound, returns, fails, Sound-bind, Sound-fail_if}
use boruta.Lists.{
  ListDirection, forward, backward, max_page_limit, SortInfo, ListInfo, RequestsPaginator,
  WorkersPaginator,
}
use boruta.Sorter.{new_req_sorter, less_request, new_worker_sorter, less_worker}
use boruta.Paging.{page, list_requests, or_default, default_paginator, passes}
use boruta.Paging.Pages.{length-page}
use boruta.Requests.{ReqsCollection}
use boruta.Workers.{WorkerList, list_workers, matching_workers, infos, is_listed, MapWorker}

length-select {ℓ} : {A : Type ℓ} (p : A → Bool) (l : List A) → length (select p l) ≤ length l
unfolding select
length-select p [] = omega arith
length-select p (x ∷ l) = ground (arith, length-select p l)

length-map {ℓ κ} : {A : Type ℓ} {B : Type κ} (f : A → B) (l : List A) → length (map f l) ≡ length l
length-map f [] = omega arith
length-map f (x ∷ l) = omega (arith, length-map f l)

-- The numbers are at most the length of the list that is cut.
page-numbers {ℓ} :
    {A : Type ℓ} (at : A → Bool) (has_id hidden : Bool) (direction : ListDirection) (limit : ℕ)
    (res : List A)
    → let (shown, info) = page at has_id hidden direction limit res in
      (info.total_items ≤ length res) × (info.remaining_items ≤ length res)
unfolding page
page-numbers at has_id hidden direction limit [] = (omega arith, omega arith)
page-numbers at has_id hidden forward limit (x ∷ xs) = (ground arith, ground arith)
page-numbers at has_id hidden backward limit (x ∷ xs) =
    (ground arith, ground (arith, length-page at has_id hidden backward limit (x ∷ xs)))

-- A list that is sound says numbers up to `n`.
abbrev pub Upto {ℓ} : {A : Type ℓ} → ℕ → List A × ListInfo → Type 0
Upto n (l, info) = (info.total_items ≤ n) × (info.remaining_items ≤ n)

Upto-page {ℓ} :
    {A : Type ℓ} (at : A → Bool) (has_id hidden : Bool) (direction : ListDirection) (limit : ℕ)
    (res : List A) (n : ℕ)
    → length res ≤ n
    → Upto n (page at has_id hidden direction limit res)
Upto-page at has_id hidden direction limit res n h =
    let (a, b) = page-numbers at has_id hidden direction limit res in (omega arith, omega arith)

-- What a filter keeps of a list, sorted, is no longer than the list.
kept-length {ℓ} :
    {A : Type ℓ} (keeps : A → Bool) (l sorted : List A)
    → Perm sorted (select keeps l)
    → length sorted ≤ length l
kept-length keeps l sorted perm = omega (arith, length-Perm perm, length-select keeps l)

found-Sound {ℓ κ} :
    {A : Type ℓ} {B : Type κ} (o : Option A) (e : Error) (k : A → B)
    → Sound (λ _. Unit) (elim o [ none ↦ err e | some a ↦ ok (k a) ])
found-Sound none e k = fails
found-Sound (some a) e k = returns tt

pub new_req_sorter-Sound :
    ⦃std : Std⦄ (si : Option SortInfo) → Sound (λ _. Unit) (new_req_sorter si)
unfolding new_req_sorter
new_req_sorter-Sound none = returns tt
new_req_sorter-Sound (some info) = found-Sound _ _ _

pub new_worker_sorter-Sound :
    ⦃std : Std⦄ (si : Option SortInfo) → Sound (λ _. Unit) (new_worker_sorter si)
unfolding new_worker_sorter
new_worker_sorter-Sound none = returns tt
new_worker_sorter-Sound (some info) = found-Sound _ _ _

-- The listings do not panic, and the numbers they say are at most those of what is listed.
pub list_requests-Upto :
    ⦃std : Std⦄ (f : Option (ReqInfo → Bool)) (si : Option SortInfo) (p : Option RequestsPaginator)
    (c : ReqsCollection)
    → ((less : ReqInfo → ReqInfo → Bool) (l : List ReqInfo) → Perm (std.sort_requests less l) l)
    → Sound (Upto (length c.requests)) (list_requests f si p c)
unfolding list_requests
list_requests-Upto ⦃std⦄ f si p c perm = Sound-bind (new_req_sorter-Sound si) λ sorter _ _.
    let paginator = or_default p default_paginator in
    let has_id = not (nat_beq paginator.id 0) in
    let keeps : ReqInfo → Bool = λ r. passes f r || nat_beq r.id paginator.id in
    let res =
      std.sort_requests (less_request sorter.item sorter.order)
        (select keeps (values c.requests)) in
    Sound-fail_if (has_id && is_none (lookup paginator.id c.requests)) _ λ _. returns (
      Upto-page (λ r. nat_beq r.id paginator.id) has_id _ paginator.direction _ res
        (length c.requests)
        (rw (← length-map (λ e. e.1) c.requests)
          (kept-length keeps (values c.requests) res (perm _ _))))

length-infos : (m : Map WorkerUuid MapWorker) → length (infos m) ≡ length m
length-infos m = length-map (λ w. w.info) (values m) ∙ length-map (λ e. e.1) m

module _ ⦃std : Std⦄ (laws : SortLaws std) (f : Option (WorkerInfo → Bool))
    (si : Option SortInfo) where
  matching_workers-Sound :
      (pid : WorkerUuid) (wl : WorkerList)
      → Sound (λ res. length res ≤ length wl.workers) (matching_workers f si pid false wl)
  unfolding matching_workers
  matching_workers-Sound pid wl =
      let keeps = is_listed f pid false in
      Sound-bind (new_worker_sorter-Sound si) λ sorter _ _.
        let res =
          std.sort_workers (less_worker sorter.item sorter.order)
            (select keeps (infos wl.workers)) in
        returns (
          rw (← length-infos wl.workers)
            (kept-length keeps (infos wl.workers) res (laws.sort_workers_perm _ _)))

  pub list_workers-Upto :
      (p : Option WorkersPaginator) (wl : WorkerList)
      → Sound (Upto (length wl.workers)) (list_workers f si p wl)
  unfolding list_workers
  list_workers-Upto p wl =
      let paginator =
        or_default p (record { id = []; direction = forward; limit = max_page_limit }) in
      let has_id = not (paginator.id == codes "") in
      Sound-fail_if (has_id && is_none (lookup paginator.id wl.workers)) _ λ _.
        Sound-bind (matching_workers-Sound paginator.id wl) λ res _ h. returns (
          Upto-page (λ w. w.worker_uuid == paginator.id) has_id _ paginator.direction _ res
            (length wl.workers) h)

module _ ⦃std : Std⦄ where
  pub list_requests-Sound :
      (f : Option (ReqInfo → Bool)) (si : Option SortInfo) (p : Option RequestsPaginator)
      (c : ReqsCollection)
      → Sound (λ _. Unit) (list_requests f si p c)
  unfolding list_requests
  list_requests-Sound f si p c =
      let paginator = or_default p default_paginator in
      let has_id = not (nat_beq paginator.id 0) in
      Sound-bind (new_req_sorter-Sound si) λ _ _ _.
        Sound-fail_if (has_id && is_none (lookup paginator.id c.requests)) _ λ _. returns tt

  pub list_workers-Sound :
      (f : Option (WorkerInfo → Bool)) (si : Option SortInfo) (p : Option WorkersPaginator)
      (wl : WorkerList)
      → Sound (λ _. Unit) (list_workers f si p wl)
  unfolding list_workers matching_workers
  list_workers-Sound f si p wl =
      let paginator =
        or_default p (record { id = []; direction = forward; limit = max_page_limit }) in
      let has_id = not (paginator.id == codes "") in
      let matched : Sound (λ _. Unit) (matching_workers f si paginator.id false wl) =
        Sound-bind (new_worker_sorter-Sound si) (λ _ _ _. returns tt) in
      Sound-fail_if (has_id && is_none (lookup paginator.id wl.workers)) _
        λ _. Sound-bind matched λ _ _ _. returns tt
