-- ===== src/Tests/Operations.antt =====
-- The theorems on the operations of a worker's goroutine at a concrete run.
use boruta.Common.{refl, false, some, []}
use boruta.Types.{worker_state_eq}
use boruta.Std.{Std}
use boruta.Workers.Goroutine.{Run, prepare_key, prepare_key_and_set_state}
use boruta.Workers.Endings.{InPlace, prepare_key_and_set_state-InPlace}
use boruta.Samples.{sample_std, sample_addr}

instance abbrev go_std : Std
go_std = sample_std

-- Nothing is pending and nothing fails.
abbrev calm : Run
calm = record {
  channel = λ n. record { waiting = []; is_closed = false };
  addr = some sample_addr;
  create_fails = λ a. false;
  generated = some 7;
  public_key = λ k. some 8;
  prepare_fails = λ k. false;
  maintenance_fails = λ t. false;
  store_fails = λ k. false;
}

prepare_key_and_set_state-InPlace_example : InPlace calm (prepare_key calm).actions
unfolding prepare_key_and_set_state
prepare_key_and_set_state-InPlace_example = prepare_key_and_set_state-InPlace calm refl
