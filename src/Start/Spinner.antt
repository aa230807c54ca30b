-- ===== src/Start/Spinner.antt =====
-- `create_spinner_task` and `usage` of src/routing/router_app_vt.c. `fork` returns in two processes;
-- its answer says in which one the function goes on.
use vt_mechanisms.Prelude.{ℕ, List, ◌++◌, codes, if◌then◌else◌, ◌==ℤ◌, ℤ, pos, negsuc}

-- What comes of the call: the exit of the process with a status, the program that `execvp` puts in
-- its place, or the child's number and the result 0.
pub data Forked : Type 0 where
  exited : (status : ℤ) → Forked
  became : (path : List ℕ) → Forked
  returned : (child_pid : ℤ) → (result : ℕ) → Forked

abbrev pub synchronizer : List ℕ
synchronizer = codes "/bin/x64_synchronizer"

-- `child` is the answer of `fork`, `execs` the result of `execvp`, which returns only if it fails.
unfoldable pub create_spinner_task : (child execs : ℤ) → Forked
create_spinner_task child execs =
    if child ==ℤ negsuc 0
    then exited (negsuc 0)
    else if child ==ℤ pos 0
    then (if execs ==ℤ negsuc 0 then exited (pos 2) else became synchronizer)
    else returned child 0

-- the text of `usage`, before the process exits with 1
unfoldable pub usage : (progname : List ℕ) → List ℕ × ℤ
usage progname = (
  codes "Usage:\n"
      ++ progname
      ++ codes " -i <name> -n <number of interfaces> -f <routing table file>\n"
      ++ progname
      ++ codes " -h\n"
      ++ codes "\n"
      ++ codes "-i <name>: Name assigned to router (mandatory)\n"
      ++ codes "-n <number of interfaces in router> (mandatory)\n"
      ++ codes "-f <file path containing static routing table entries>\n"
      ++ codes "-h: prints this help text\n",
  pos 1,
)
