-- ===== src/Vm/TestHost.antt =====
-- A host with functions that are easy to compute, for the examples.
use neo_python.Prelude.{bytes_eq, false, none, some, true, ◌==◌}
use neo_python.Vm.Engine.Monad.{pure}
use neo_python.Vm.State.{Host}

abbrev pub test_host : Host
test_host = record {
  hash160 = λ bs. bs;
  hash256 = λ bs. bs;
  sha1 = λ bs. bs;
  sha256 = λ bs. bs;
  verify_signature = λ unhex m s p. some (bytes_eq s p);
  message = none;
  table = none;
  service_invoke = λ bs. pure false;
  pre_execute_instruction = pure true;
  post_execute_instruction = pure true;
  object_eq = λ a b. a == b;
  recursion_limit = 20;
  exit_on_error = true;
}
