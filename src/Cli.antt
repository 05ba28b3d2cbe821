-- ===== src/Cli.antt =====
-- cmd/main.go: the command line of the agent. The library that parses it is a parameter; the texts
-- of its help are left out.
pub mod Laws
use kubeip.Base.{
  ℕ, ◌*◌, String, Bool, true, false, List, [], ◌∷◌, ◌==◌, ◌||◌, Result, ok, err, panic, unfinished,
  Action, return, no_fuel, attempt, ◌>>=◌, if◌then◌else◌,
}
use kubeip.Config.{CliContext, new_config}
use kubeip.Agent.{AgentEnv, default_lease_duration, default_retry_attempts, run}

-- The type of a flag with its default.
pub data FlagValue : Type 0 where
  string_flag path_flag : String → FlagValue
  bool_flag : Bool → FlagValue
  duration_flag int_flag : ℕ → FlagValue
  string_slice_flag : List String → FlagValue

pub record Flag : Type 0 where
  pub name : String
  pub env_vars : List String
  pub value : FlagValue

abbrev flag : String → String → FlagValue → Flag
flag name variable value = record { name = name; env_vars = variable ∷ []; value = value }

-- One minute, in nanoseconds.
abbrev pub default_retry_interval : ℕ
default_retry_interval = 60 * 1000000000

abbrev pub run_flags : List Flag
run_flags =
    flag "node-name" "NODE_NAME" (string_flag "")
    ∷ flag "project" "PROJECT" (string_flag "")
    ∷ flag "region" "REGION" (string_flag "")
    ∷ flag "ipv6" "IPV6" (bool_flag false)
    ∷ flag "kubeconfig" "KUBECONFIG" (path_flag "")
    ∷ flag "retry-interval" "RETRY_INTERVAL" (duration_flag default_retry_interval)
    ∷ flag "filter" "FILTER" (string_slice_flag [])
    ∷ flag "order-by" "ORDER_BY" (string_flag "")
    ∷ flag "retry-attempts" "RETRY_ATTEMPTS" (int_flag default_retry_attempts)
    ∷ flag "lease-duration" "LEASE_DURATION" (int_flag default_lease_duration)
    ∷ flag "lease-namespace" "LEASE_NAMESPACE" (string_flag "default")
    ∷ flag "release-on-exit" "RELEASE_ON_EXIT" (bool_flag true)
    ∷ flag "taint-key" "TAINT_KEY" (string_flag "")
    ∷ flag "log-level" "LOG_LEVEL" (string_flag "info")
    ∷ flag "json" "LOG_JSON" (bool_flag false)
    ∷ flag "develop-mode" "DEV_MODE" (bool_flag false)
    ∷ []

pub data Level : Type 0 where
  debug_level info_level warn_level error_level fatal_level panic_level : Level

-- The logger that is set up: its level, and whether it writes JSON.
pub record Logger : Type 0 where
  pub level : Level
  pub json : Bool

-- The `switch` of `prepareLogger`: a name in small or in capital letters, else warnings.
unfoldable pub level_of : String → Level
level_of name =
    if (name == "debug") || (name == "DEBUG")
    then debug_level
    else if (name == "info") || (name == "INFO")
    then info_level
    else if (name == "warning") || (name == "WARNING")
    then warn_level
    else if (name == "error") || (name == "ERROR")
    then error_level
    else if (name == "fatal") || (name == "FATAL")
    then fatal_level
    else if (name == "panic") || (name == "PANIC")
    then panic_level
    else warn_level

unfoldable pub prepare_logger : String → Bool → Logger
prepare_logger level json = record { level = level_of level; json = json }

-- `cli.App`, less names and help: the separator of slices, and the one command with its flags and
-- its action.
pub record App (W : Type 0) : Type 0 where
  pub slice_flag_separator : String
  pub command : String
  pub flags : List Flag
  pub action : CliContext → Action W (Unit {0})

module _ {W Ip RestConfig Client : Type 0} (env : AgentEnv W Ip RestConfig Client) where
  -- The logger is what `run` writes to, which is left out.
  unfoldable pub run_cmd : CliContext → Action W (Unit {0})
  run_cmd c = run env (new_config c)

  abbrev pub app : App W
  app = record { slice_flag_separator = ";"; command = "run"; flags = run_flags; action = run_cmd }

  -- `main` over `app.Run`: the exit code, which `logrus.Fatal` makes one and a panic two.
  unfoldable pub main : (App W → Action W (Unit {0})) → Action W ℕ
  main app_run w = let (r, w') = app_run app w in exit_of r w'
    where
      exit_of : Result (Unit {0}) → Action W ℕ
      exit_of (ok t) = return 0
      exit_of (err e) = return 1
      exit_of panic = return 2
      exit_of unfinished = no_fuel
