-- ===== src/Tests/Prepared.antt =====
-- The start of the virtual-time router with two interfaces and a file of two routes.
use vt_mechanisms.Prelude.{◌+◌, ◌≡◌, refl, true, List, some, arith, pos, negsuc, codes}
use vt_mechanisms.Routes.{Line}
use vt_mechanisms.Routes.Populate.{Fresh, Parsed}
use vt_mechanisms.Router.{Settings}
use vt_mechanisms.Router.Setup.{settings_of}
use vt_mechanisms.Start.Prepare.{Machine, prepare}
use vt_mechanisms.Start.Ready.{Ready, Prepares, prepare-Ready}
use vt_mechanisms.Tests.Routing.{lines, entries, no_memory, options, read}
use vt_mechanisms.Tests.Routing
use vt_mechanisms.Tests.Times.{address, empty, unused, addressed, no_call, no_ints}
use vt_mechanisms.Tests.Times

abbrev machine : Machine
machine = record {
  mallocs = λ i. 1000 + i;
  file = λ path. some lines;
  to_thread = pos 0;
  to_main = pos 0;
  child = pos 77;
  execs = negsuc 0;
  opened = true;
  address = address;
  fresh = Times.fresh;
  call = no_call;
  ints = no_ints;
}

file-lines :
    (read_lines : List Line)
    → machine.file (codes "routes") ≡ some read_lines
    → Fresh no_memory read_lines × Parsed read_lines entries
file-lines read_lines e = let same : lines ≡ read_lines = cc in rw (← same) (Routing.fresh, read)

abbrev asked : Settings
asked = record {
  switch_name = codes "s1";
  n_intfs = pos 2;
  routing_file_path = some (codes "routes");
}

asked_lem : settings_of options 0 ≡ some asked
unfolding settings_of
asked_lem = refl

prepare-Ready_example :
    Prepares machine 2
      (codes "routes")
      (Ready machine entries asked)
      (prepare machine no_memory empty options 0)
prepare-Ready_example =
    prepare-Ready machine no_memory empty entries options 0 asked (codes "routes") asked_lem
      (omega arith) refl file-lines unused addressed
