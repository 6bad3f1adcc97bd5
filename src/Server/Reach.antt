-- ===== src/Server/Reach.antt =====
-- The servers that calls lead to.
use boruta.Common.{◌≡◌, ◌≢◌, false}
use boruta.Types.{Time, ok, panic}
use boruta.Std.{Std, SortLaws}
use boruta.Outcome.{Sound-ok, Sound-panic}
use boruta.Server.{Server}
use boruta.Server.Calls.{Call, new_server, step}
use boruta.Server.Invariant.{Inv}
use boruta.Server.Safety.{step-Inv, new_server-Inv}

pub data Reachable ⦃std : Std⦄ : Server → Type 0 where
  starts : (far_future : Time) → Reachable (new_server far_future)
  follows : {s t : Server} (c : Call) → Reachable s → step c s ≡ ok t → Reachable t

module _ ⦃std : Std⦄ (laws : SortLaws std) where
  -- If sort.Sort permutes the workers it is given, each server that calls have led to from the
  -- start has the invariant.
  pub Reachable-Inv : (s : Server) → Reachable s → Inv false s
  Reachable-Inv s (starts far) = new_server-Inv far
  Reachable-Inv t (follows c r e) = Sound-ok t (step-Inv laws c _ (Reachable-Inv _ r)) e

  -- If sort.Sort permutes the workers it is given, no call panics, made on a server that calls
  -- have led to from the start.
  pub step_no_panic : (c : Call) (s : Server) → Reachable s → step c s ≢ panic
  step_no_panic c s r = Sound-panic (step-Inv laws c s (Reachable-Inv s r))
