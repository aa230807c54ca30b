-- ===== src/Tests/Together.antt =====
-- `main` and the thread run together: a round of 120 microseconds that the thread exceeds by 30, and
-- the order to exit.
use vt_mechanisms.Prelude.{
  ℕ, ◌≡◌, refl, true, false, List, [], ◌∷◌, Option, none, some, arith, ℤ, pos, codes,
}
use vt_mechanisms.Decimal.{print_int}
use vt_mechanisms.Command.{ack_and_get_next_command, parse_commands}
use vt_mechanisms.Stub.{Cost, pipe_send}
use vt_mechanisms.Router.{interrupted}
use vt_mechanisms.Rounds.{world, joining, exited, Reach}
use vt_mechanisms.MainLoop.{MainTurn, MainEvent, main_loop, loop_entry, saw, sent, got, ordered}
use vt_mechanisms.MainLoop.Follows.{AllAnswer}
use vt_mechanisms.RouterThread.{Turn, Round, ThreadEvent, run_thread, began, looked, said, heard}
use vt_mechanisms.RouterThread.Play.{Replied}
use vt_mechanisms.Joint.{
  shared, at_start, Joint, pause, main_acts, thread_acts, sees, sends, gets, orders, begins, looks,
  says, hears,
}
use vt_mechanisms.Joint.Reaches.{main_log, thread_log, thread_entry, Joint-Reach}
use vt_mechanisms.Joint.Pipes.{OneShared, Joint-OneShared}
use vt_mechanisms.Tests.Loops.{answered, stopped, answered-Answers, stopped-Answers}

abbrev exchanges : List MainTurn
exchanges = answered ∷ stopped ∷ []

-- `poll` is interrupted by a signal
abbrev one_round : List Round
one_round = (record { stop = false; ready = interrupted; later = none }) ∷ []

-- the advance, and the order to exit with the flag set
abbrev advance_then_exit : List Turn
advance_then_exit =
    (record { reply = codes "120"; stop = false; garbage = pos 1 })
    ∷ (record { reply = codes "-2"; stop = true; garbage = pos 1 })
    ∷ []

abbrev long_call : Cost → Option ℤ
long_call c = some (pos 150)

abbrev no_route : List ℕ → ℤ
no_route p = pos 0

replied : Replied advance_then_exit
replied = ((b'1', codes "20", refl), ((b'-', codes "2", refl), tt))

exchanges-AllAnswer : AllAnswer exchanges
exchanges-AllAnswer = (answered-Answers, (stopped-Answers, tt))

abbrev main_does : List MainEvent
main_does = saw false ∷ sent (codes "120") ∷ got (codes "30") ∷ ordered ∷ sent (codes "-2") ∷ []

abbrev thread_does : List ThreadEvent
thread_does = began (codes "120") ∷ looked false ∷ said (codes "30") ∷ heard (codes "-2") true ∷ []

main_log_test : main_log (main_loop exchanges loop_entry) ≡ main_does
unfolding main_loop ack_and_get_next_command parse_commands
main_log_test = refl

thread_log_test :
    thread_log (run_thread long_call no_route one_round (thread_entry advance_then_exit))
    ≡ thread_does
unfolding run_thread pipe_send print_int
thread_log_test = refl

-- with the exchange on its way, and to its end
abbrev first_half :
    Joint at_start main_does thread_does
      (shared [] (codes "30") false false)
      (got (codes "30") ∷ ordered ∷ sent (codes "-2") ∷ [])
      (heard (codes "-2") true ∷ [])
first_half =
    main_acts sees
      (main_acts sends (thread_acts begins (thread_acts looks (thread_acts says pause))))

abbrev whole : Joint at_start main_does thread_does (shared [] [] false true) [] []
whole = main_acts sees (
    main_acts sends (
      thread_acts begins (
        thread_acts looks (
          thread_acts says
            (main_acts gets (main_acts orders (main_acts sends (thread_acts hears pause))))))))

Joint-Reach_example : Reach (world joining exited [] [] false true (pos 150))
unfolding main_loop ack_and_get_next_command parse_commands run_thread pipe_send print_int
Joint-Reach_example =
    Joint-Reach long_call no_route exchanges one_round advance_then_exit exchanges-AllAnswer replied
      (omega arith) (shared [] [] false true) whole

Joint-OneShared_example : OneShared (shared [] (codes "30") false false)
unfolding main_loop ack_and_get_next_command parse_commands run_thread pipe_send print_int
Joint-OneShared_example =
    Joint-OneShared long_call no_route exchanges one_round advance_then_exit exchanges-AllAnswer
      replied (omega arith) (shared [] (codes "30") false false) _ _ first_half
