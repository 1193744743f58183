-- ===== src/Multihost/Exec.antt =====
-- internal/multihost/exec.go: commands on the hosts. The processes that they start are a parameter.
pub mod Quoting
use Prim.Native.Char.{code}
use Prim.Native.String.{◌∷◌ as cons, ◌++◌ as concat}
use quorum_log.Prelude.{
  ℕ, String, Bool, true, false, Option, none, some, List, [], ◌∷◌, ◌++◌, if◌then◌else◌, ◌==◌,
  nat_eq, string_eq, Except, ok, err,
}
use quorum_log.Multihost.{Host, mode_multi_host, mode_local_dry_run}

-- Executor: its state is that of the hosts.
pub record Executor : Type 1 where
  pub State : Type 0
  pub Error : Type 0
  pub kind : String
  pub run : State → Host → String → State × Except Error String
  pub copy : State → Host → String → String → State × Except Error (Unit {0})

-- exec.Cmd.CombinedOutput for a program and its arguments, and the copy of a local file.
pub record Processes : Type 1 where
  pub State : Type 0
  pub Error : Type 0
  pub command : State → String → List String → State × Except Error String
  pub copy_file : State → String → String → State × Except Error (Unit {0})

-- strings.ReplaceAll of the single quote
unfoldable pub escape_quotes : String → String
escape_quotes String.[] = ""
escape_quotes (String.◌∷◌ c s) =
    let rest = escape_quotes s in if code c == b'\'' then concat "'\\''" rest else cons c rest

-- ShellQuote
unfoldable pub shell_quote : String → String
unfolding escape_quotes
shell_quote s = concat "'" (concat (escape_quotes s) "'")

-- NewSSHExec
abbrev pub ssh_options : List String
ssh_options =
    "-o" ∷ "BatchMode=yes" ∷ "-o" ∷ "ConnectTimeout=10" ∷ "-o" ∷ "StrictHostKeyChecking=accept-new"
    ∷ []

-- SSHExec.RunArgs
unfoldable pub run_args : Host → String → List String
run_args h script = ssh_options ++ h.ssh ∷ "/bin/sh" ∷ "-c" ∷ shell_quote script ∷ []

-- SSHExec.CopyArgs
unfoldable pub copy_args : Host → String → String → List String
copy_args h local_path remote_path =
    ssh_options ++ local_path ∷ concat h.ssh (concat ":" remote_path) ∷ []

-- The errors of the executors.
pub data ExecError (Error : Type 0) : Type 0 where
  no_target : ExecError Error
  failed : Error → ExecError Error

module _ {Error A : Type 0} where
  abbrev wrapped : Except Error A → Except (ExecError Error) A
  wrapped (ok a) = ok a
  wrapped (err e) = err (failed e)

  abbrev ignored : Except Error A → Except Error (Unit {0})
  ignored (ok a) = ok tt
  ignored (err e) = err e

module _ (p : Processes) where
  -- SSHExec.Run
  unfoldable pub ssh_run : p.State → Host → String → p.State × Except (ExecError p.Error) String
  unfolding run_args
  ssh_run st h script =
      if h.ssh == ""
      then (st, err no_target)
      else (let (st', out) = p.command st "ssh" (run_args h script) in (st', wrapped out))

  -- SSHExec.Copy
  unfoldable pub ssh_copy :
      p.State → Host → String → String → p.State × Except (ExecError p.Error) (Unit {0})
  unfolding copy_args
  ssh_copy st h local_path remote_path =
      if h.ssh == ""
      then (st, err no_target)
      else (let (st', out) = p.command st "scp" (copy_args h local_path remote_path) in
          (st', wrapped (ignored out)))

  -- LocalExec.Run
  unfoldable pub local_run : p.State → Host → String → p.State × Except (ExecError p.Error) String
  local_run st h script =
      let (st', out) = p.command st "/bin/sh" ("-c" ∷ script ∷ []) in (st', wrapped out)

  -- LocalExec.Copy
  unfoldable pub local_copy :
      p.State → Host → String → String → p.State × Except (ExecError p.Error) (Unit {0})
  local_copy st h local_path remote_path =
      if local_path == remote_path
      then (st, ok tt)
      else (let (st', out) = p.copy_file st local_path remote_path in (st', wrapped out))

  -- SSHExec and LocalExec
  abbrev pub ssh_exec : Executor
  ssh_exec = record {
    State = p.State;
    Error = ExecError p.Error;
    kind = "ssh";
    run = ssh_run;
    copy = ssh_copy;
  }

  abbrev pub local_exec : Executor
  local_exec = record {
    State = p.State;
    Error = ExecError p.Error;
    kind = "local";
    run = local_run;
    copy = local_copy;
  }

  -- NewExecutor; an unknown mode has none.
  unfoldable pub new_executor : String → Option Executor
  new_executor mode =
      if mode == mode_multi_host
      then some ssh_exec
      else if mode == mode_local_dry_run
      then some local_exec
      else none
