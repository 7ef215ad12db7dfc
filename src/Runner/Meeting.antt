-- ===== src/Runner/Meeting.antt =====
-- What one call of `SubprocessWorkerRunner.run` of packages/pipeline/runner.py meets, and how it ends.
use gaussian_os.Prelude.{ℕ, String, Bool, Option, List, string_eq, ℕ_eq, ℤ}
use gaussian_os.Contracts.Kinds.{DateTime}
use gaussian_os.Contracts.Violations.{Violation}
use gaussian_os.Contracts.Outcome.{StageResult}
use gaussian_os.Licensing.Registry.{ProfilePolicyRegistry, RegistryError}
use gaussian_os.Store.Tree.{Entries}
use gaussian_os.Store.World.{Exc, Key, Host}
use gaussian_os.Store.Commit.{CommitRecord}
use gaussian_os.Runner.Wait.{Reading, Process}
use gaussian_os.Runner.Contract.{ResultFile}

-- The runner, and the texts that the standard library makes: paths, messages of exceptions, lower case.
pub record Runner : Type 0 where
  pub host : Host
  pub registry : ProfilePolicyRegistry
  pub grace : ℕ
  pub path : Key → String → String
  pub describe : Exc → String
  pub describe_policy : RegistryError → String
  pub lower : List ℕ → List ℕ

-- `subprocess.Popen`: an OSError, another exception while the worker is supervised, or a process and
-- what the loop that waits for it reads.
pub data Spawn : Type 0 where
  start_fails breaks : Spawn
  starts : List Reading → Spawn

-- What one call meets: the caller's token and timeout, the clocks, the worker and what it leaves.
-- Times are in microseconds.
pub record Meeting : Type 0 where
  pub cancelled : Option String
  pub timeout : ℤ
  pub started_at : DateTime
  pub now : DateTime
  pub monotonic : ℕ
  pub spawn : Spawn
  pub process : Process
  pub outputs : Entries
  pub result_file : ResultFile
  pub stderr_tail : String

pub record ExecutionOutcome : Type 0 where
  pub result : StageResult
  pub committed_artifacts : List CommitRecord
  pub archived : Option Bool  -- none: there was no attempt; false: its directory could not be moved
  pub return_code : Option ℤ

pub data RunError : Type 0 where
  store_exception : Exc → RunError
  invalid_contract : List Violation → RunError

-- How a call ends: it returns, it raises, or it still waits when the readings are used up.
pub data Ran : Type 0 where
  returned : ExecutionOutcome → Ran
  raised : RunError → Ran
  running : Ran
