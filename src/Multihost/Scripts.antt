-- ===== src/Multihost/Scripts.antt =====
-- The scripts of internal/multihost/deploy.go that run on a host, and how the pid is read from what the
-- start script prints.
use Prim.Native.Char.{code}
use Prim.Native.String.{◌++◌ as concat}
use quorum_log.Prelude.{
  ℕ, ◌^◌, ℤ, pos, sub_ℕ, String, Bool, true, false, ◌||◌, Option, none, some, List, [], ◌∷◌, ltb,
  leb, if◌then◌else◌, ◌==◌, nat_eq, string_eq,
}
use quorum_log.Prelude.Decimal.{decimal}
use quorum_log.Prelude.Text.{trim_space, fields, read_digits}
use quorum_log.Multihost.{Host}
use quorum_log.Multihost.Hosts.{listen_addr, chaos_listen_addr, pid_path}
use quorum_log.Multihost.Exec.{shell_quote}

-- signalScript
unfoldable pub signal_script : Host → String → String
signal_script h signal = concat "set -eu\n" (
    concat "PIDFILE=" (
      concat (pid_path h) (
        concat "\n" (
          concat "[ -f \"$PIDFILE\" ] || { echo \"no pid file\" >&2; exit 1; }\n" (
            concat "PID=$(cat \"$PIDFILE\")\n" (
              concat "CMD=$(ps -p \"$PID\" -o command= 2>/dev/null || true)\n" (
                concat "case \"$CMD\" in\n" (
                  concat "  *quorumlogd*)\n" (
                    concat "    kill -" (
                      concat signal (
                        concat " \"$PID\"\n" (
                          concat "    echo \"signalled $PID\"\n" (
                            concat "    ;;\n" (
                              concat "  \"\")\n" (
                                concat "    echo \"pid $PID already gone\"\n" (
                                  concat "    ;;\n" (
                                    concat "  *)\n" (
                                      concat
                                        "    echo \"pid $PID is not a quorumlogd process; refusing to signal\" >&2\n"
                                        (concat "    exit 1\n"
                                          (concat "    ;;\n" "esac\n"))))))))))))))))))))

-- startScript, with the value of the -peers flag
unfoldable pub start_script : Host → String → String
start_script h peers = concat "#!/bin/sh\n" (
    concat "# Generated by qlmultihost. Starts one quorum-log node on this host.\n" (
      concat "set -eu\n" (
        concat "DATA_DIR=" (
          concat h.data_dir (
            concat "\n" (
              concat "mkdir -p \"$DATA_DIR\"\n" (
                concat "cd \"$DATA_DIR\"\n" (
                  concat "rm -f node.pid\n" (
                    concat "nohup ./quorumlogd -id " (
                      concat (decimal h.id) (
                        concat " -listen " (
                          concat (listen_addr h) (
                            concat " -data \"$DATA_DIR\" -peers " (
                              concat (shell_quote peers) (
                                concat " -chaos-listen " (
                                  concat (chaos_listen_addr h) (
                                    concat " >>node.log 2>&1 &\n" (
                                      concat "echo $! >node.pid\n" (
                                        concat "sleep 1\n" (
                                          concat "PID=$(cat node.pid)\n" (
                                            concat
                                              "kill -0 \"$PID\" 2>/dev/null || { echo \"node exited during startup; see $DATA_DIR/node.log\" >&2; tail -5 node.log >&2; exit 1; }\n"
                                              "echo \"$PID\"\n")))))))))))))))))))))

-- strconv.Atoi
abbrev signed : Bool → Option ℕ → Option ℤ
signed minus none = none
signed true (some n) = if leb n (2 ^ 63) then some (sub_ℕ 0 n) else none
signed false (some n) = if ltb n (2 ^ 63) then some (pos n) else none

unfoldable pub atoi : String → Option ℤ
atoi String.[] = none
atoi (String.◌∷◌ c s) =
    if code c == b'-' || code c == b'+'
    then (if s == "" then none else signed (code c == b'-') (read_digits 0 s))
    else signed false (read_digits 0 (String.◌∷◌ c s))

-- The loop of lastIntLine, which tries the last field first.
unfoldable pub last_int : List String → Option ℤ
last_int [] = none
last_int (f ∷ more) = elim (last_int more) [ some n ↦ some n | none ↦ atoi (trim_space f) ]

-- lastIntLine
unfoldable pub last_int_line : String → Option ℤ
unfolding last_int
last_int_line out = last_int (fields out)
