-- ===== src/Tests/Loops.antt =====
-- Three rounds of `main`: one that the thread answers, one in which it is blocked, and the stop.
use vt_mechanisms.Prelude.{ℕ, ◌≡◌, refl, true, false, List, [], ◌∷◌, ◌++◌, ℤ, pos, codes}
use vt_mechanisms.Command.{ack_and_get_next_command, parse_commands}
use vt_mechanisms.MainLoop.{saw, sent, got, ordered, MainTurn, left, main_loop, loop_entry}
use vt_mechanisms.MainLoop.Follows.{Answers}
use vt_mechanisms.MainLoop.Play.{Follows}
use vt_mechanisms.MainLoop.Follows.{main_loop-Follows}

abbrev pub run_for : List ℕ → ℤ × List ℕ
run_for results = (pos 0, codes "|7,120000" ++ 0 ∷ 0 ∷ 0 ∷ [])

abbrev pub stop_now : List ℕ → ℤ × List ℕ
stop_now results = (pos 0, codes "STOP" ++ 0 ∷ [])

abbrev pub answered : MainTurn
answered = record { ioctl = run_for; is_blocked = false; message = codes "30" }

abbrev blocked : MainTurn
blocked = record { ioctl = run_for; is_blocked = true; message = codes "-1" }

abbrev pub stopped : MainTurn
stopped = record { ioctl = stop_now; is_blocked = true; message = codes "-1" }

pub answered-Answers : Answers answered
answered-Answers = record {
  nul_at = λ ret. 9;
  nul = λ ret. refl;
  first = b'3';
  rest = codes "0";
  spoken = refl;
}

blocked-Answers : Answers blocked
blocked-Answers = record {
  nul_at = λ ret. 9;
  nul = λ ret. refl;
  first = b'-';
  rest = codes "1";
  spoken = refl;
}

pub stopped-Answers : Answers stopped
stopped-Answers = record {
  nul_at = λ ret. 4;
  nul = λ ret. refl;
  first = b'-';
  rest = codes "1";
  spoken = refl;
}

main_loop-Follows_example :
    Follows
      (answered ∷ blocked ∷ stopped ∷ [])
      loop_entry
      (main_loop (answered ∷ blocked ∷ stopped ∷ []) loop_entry)
main_loop-Follows_example =
    main_loop-Follows (answered ∷ blocked ∷ stopped ∷ []) loop_entry
      (answered-Answers, (blocked-Answers, (stopped-Answers, tt)))

-- 150 microseconds of the first round and 120 of the second
main_loop_runs :
    main_loop (answered ∷ blocked ∷ stopped ∷ []) loop_entry
    ≡ left (record {
      ret = pos 0;
      time_elapsed = pos 270;
      stop = true;
      did =
          saw false
          ∷ sent (codes "120")
          ∷ got (codes "30")
          ∷ saw true
          ∷ ordered
          ∷ sent (codes "-2")
          ∷ [];
    })
unfolding main_loop ack_and_get_next_command parse_commands
main_loop_runs = refl
