-- ===== src/Dryad/Blinking.antt =====
-- The LEDs that blink after PutInMaintenance, and what Prepare stops.
use mathlib.Core.List.{mem-cons_self}
use boruta.Common.{
  ℕ, suc, ◌≡◌, refl, sym, ap, Option, none, some, arith, List, [], ◌∷◌, Text, select, Mem,
}
use boruta.Dryad.{Machine, Reply, gives, fails_with, panics, and_then, perform}
use boruta.Dryad.Rusalka.{
  Rusalka, prepare, stop_maintenance, put_in_maintenance, print_message, cancelled, start_blinking,
}

module _ (machine : Machine) where
  abbrev pub blinking_after : {A : Type 0} → Reply A × Rusalka machine → List ℕ
  blinking_after (reply, r) = r.blinking

  cancelled-nil : (o : Option ℕ) (l : List ℕ) → l ≡ [] → cancelled machine o l ≡ []
  unfolding cancelled select
  cancelled-nil none l e = e
  cancelled-nil (some c) l e = rw e refl

  cancelled-calm : (c : ℕ) (l : List ℕ) → l ≡ [] → cancelled machine (some c) (c ∷ l) ≡ []
  unfolding cancelled select
  cancelled-calm c l e = rw e (ground arith)

  cancelled-second :
      (c : ℕ) (l : List ℕ)
      → cancelled machine (some (suc c)) (suc c ∷ c ∷ l) ≡ c ∷ cancelled machine (some (suc c)) l
  unfolding cancelled select
  cancelled-second c l = ground arith

  -- A PutInMaintenance that returns no error leaves a new blinker, which alone it can cancel.
  record Started (q s : Rusalka machine) : Type 0 where
    cancels : s.cancel_maintenance ≡ some q.contexts
    next : s.contexts ≡ suc q.contexts
    blinks : s.blinking ≡ q.contexts ∷ q.blinking

  start-Started :
      (reply : Reply (Unit {0})) (q s : Rusalka machine)
      → ((and_then (reply, q) λ _. start_blinking machine) ≡ (gives tt, s))
      → Started q s
  start-Started (gives u) q s e = record {
    cancels = sym (ap (λ x. x.1.cancel_maintenance) e);
    next = sym (ap (λ x. x.1.contexts) e);
    blinks = sym (ap (λ x. x.1.blinking) e);
  }
  start-Started (fails_with t) q s e = cc
  start-Started panics q s e = cc

  -- After the attempt to print, whatever came of it.
  start-calm :
      (reply : Reply (Unit {0})) (q : Rusalka machine)
      → q.blinking ≡ []
      → (let t = (and_then (reply, q) λ _. start_blinking machine).1 in
          cancelled machine t.cancel_maintenance t.blinking)
        ≡ []
  start-calm (gives u) q calm = cancelled-calm q.contexts q.blinking calm
  start-calm (fails_with e) q calm = cancelled-nil q.cancel_maintenance q.blinking calm
  start-calm panics q calm = cancelled-nil q.cancel_maintenance q.blinking calm

  second-Mem :
      (q s p t : Rusalka machine)
      → Started q s
      → Started p t
      → p.contexts ≡ s.contexts
      → p.blinking ≡ s.blinking
      → Mem q.contexts (cancelled machine t.cancel_maintenance t.blinking)
  second-Mem q s p t a b same_contexts same_blinking =
      rw (b.cancels, b.blinks, same_contexts, same_blinking, a.next, a.blinks, cancelled-second)
        (mem-cons_self)

  -- After PutInMaintenance on an agent for which no LED blinks, and then Prepare, no LED blinks,
  -- whether the two calls return errors or not.
  pub prepare-put_in_maintenance :
      (msg : Text) (key : Option ℕ) (r : Rusalka machine)
      → r.blinking ≡ []
      → blinking_after (prepare machine key (put_in_maintenance machine msg r).1) ≡ []
  unfolding prepare stop_maintenance put_in_maintenance
  prepare-put_in_maintenance msg key r calm =
      start-calm (perform machine (print_message machine msg) r.host).0 _ calm

  -- After two calls of PutInMaintenance that return no error, the LED that the first set blinking
  -- still blinks after Prepare, whether Prepare returns an error or not.
  pub put_in_maintenance-put_in_maintenance :
      (first second : Text) (key : Option ℕ) (r s t : Rusalka machine)
      → put_in_maintenance machine first r ≡ (gives tt, s)
      → put_in_maintenance machine second s ≡ (gives tt, t)
      → Mem r.contexts (blinking_after (prepare machine key t))
  unfolding prepare stop_maintenance put_in_maintenance
  put_in_maintenance-put_in_maintenance first second key r s t e f =
      let a = start-Started (perform machine (print_message machine first) r.host).0 _ s e in
      let b = start-Started (perform machine (print_message machine second) s.host).0 _ t f in
      second-Mem _ s _ t a b refl refl
