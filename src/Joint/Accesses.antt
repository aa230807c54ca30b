-- ===== src/Joint/Accesses.antt =====
-- The runs of both codes, as Play of MainLoop and of RouterThread have them turn by turn, one access
-- at a time.
use vt_mechanisms.Prelude.{ℕ, Bool, false, List, ℤ}
use vt_mechanisms.Rounds.{Main, Thread, fetching, waiting, stopping, world}
use vt_mechanisms.Rounds.Progress.{Steps}
use vt_mechanisms.MainLoop.{MainEvent, MainTurn, saw, sent, got, ordered}
use vt_mechanisms.MainLoop.Play as MainPlay
use vt_mechanisms.RouterThread.{Turn, ThreadEvent, looked, began, said, heard, raised, woke}
use vt_mechanisms.RouterThread.Play as ThreadPlay
use vt_mechanisms.RouterThread.Turns.{
  Alone, Speaks, Hears, Raises, OneTurn, alone, hears, exchange, blocked,
}
use vt_mechanisms.Joint.{shared, sees, sends, gets, orders, looks, begins, says, raises, wakes}
use vt_mechanisms.Joint.{hears as reads}
use vt_mechanisms.Joint.Ways.{
  MainDoes, MainWay, stays, acts, does, ThreadDoes, ThreadWay, Idles, nothing, Idles-then,
  ThreadWay-append,
}

send_access :
    {m m' : Main} {text : List ℕ} {time : ℤ}
    → MainPlay.Writes m text m' time
    → MainDoes m time (sent text) m' time
send_access f t _ _ (sends {i} {o} {b} {s}) = f t i o b s

see_access :
    {m m' : Main} {b : Bool} {time time' : ℤ}
    → ((t : Thread) (i o : List ℕ) (s : Bool)
        → Steps (world m t i o b s time) (world m' t i o b s time'))
    → MainDoes m time (saw b) m' time'
see_access f t _ _ (sees {i} {o} {b} {s}) = f t i o s

get_access :
    {adv : ℕ} {text : List ℕ} {ret time time' : ℤ}
    → MainPlay.Receives adv time text ret time'
    → MainDoes (waiting adv) time (got text) (fetching ret) time'
get_access f t _ _ (gets {i} {text} {b} {s}) = f t i b s

order_access :
    {ret time : ℤ} → MainPlay.Orders ret time → MainDoes (fetching ret) time ordered stopping time
order_access f t _ _ (orders {i} {o} {b} {s}) = f t i o b s

pub main_way :
    {ret time time' : ℤ} {us : List MainTurn} {log : List MainEvent} {m : Main}
    → MainPlay.Play ret time us log m time'
    → MainWay (fetching ret) time log m time'
main_way MainPlay.over = stays
main_way (MainPlay.exchange adv ret' time' h see send get p) =
    acts (see_access see) (acts (send_access send) (acts (get_access get) (main_way p)))
main_way (MainPlay.skip ret' time' h see p) = acts (see_access see) (main_way p)
main_way (MainPlay.halt order send) = acts (order_access order) (acts (send_access send) stays)

say_access : {t t' : Thread} {text : List ℕ} → Speaks t text t' → ThreadDoes t (said text) t'
say_access f m time _ _ (says {i} {o} {b} {s}) = f m i o b s time

raise_access : {t t' : Thread} → Raises t t' → ThreadDoes t raised t'
raise_access f m time _ _ (raises {i} {o} {b} {s}) = f m i o b s time

look_access : {t t' : Thread} {s : Bool} → Alone s t t' → ThreadDoes t (looked s) t'
look_access f m time _ _ (looks {i} {o} {b} {s}) = f m i o b time

hear_access :
    {t t' : Thread} {s : Bool} {text : List ℕ} → Hears s t text t' → ThreadDoes t (heard text s) t'
hear_access f m time _ _ (reads {text} {o} {b} {s}) = f m o b time

begin_access :
    {t t' : Thread} {text : List ℕ}
    → ((stop : Bool) → Hears stop t text t')
    → ThreadDoes t (began text) t'
begin_access f m time _ _ (begins {text} {o} {b} {s}) = f s m o b time

wake_access :
    {t t' : Thread}
    → ((m : Main) (i o : List ℕ) (b s : Bool) (time : ℤ)
        → Steps (world m t i o b s time) (world m t' i o false s time))
    → ThreadDoes t woke t'
wake_access f m time _ _ (wakes {i} {o} {b} {s}) = f m i o b s time

quiet : {t t' : Thread} → ((s : Bool) → Alone s t t') → Idles t t'
quiet f m time (shared i o b s) = f s m i o b time

turn_way :
    {text : List ℕ} {s : Bool} {t t' : Thread} {log : List ThreadEvent}
    → OneTurn text s t log t'
    → ThreadWay t log t'
turn_way (alone f) = does (look_access f) nothing
turn_way (hears f) = does (begin_access f) nothing
turn_way (exchange mid report say hear) = does (say_access say) (does (hear_access hear) nothing)
turn_way (blocked rise say wake hear) =
    does (raise_access rise)
      (does (say_access say) (does (wake_access wake) (does (hear_access hear) nothing)))

pub thread_way :
    {t t' : Thread} {us : List Turn} {log : List ThreadEvent}
    → ThreadPlay.Play t us log t'
    → ThreadWay t log t'
thread_way ThreadPlay.over = nothing
thread_way (ThreadPlay.looks stop f p) = does (look_access f) (thread_way p)
thread_way (ThreadPlay.fails f p) = Idles-then (quiet f) (thread_way p)
thread_way (ThreadPlay.falls rise say p) =
    does (raise_access rise) (does (say_access say) (thread_way p))
thread_way (ThreadPlay.turn f p) = ThreadWay-append (turn_way f) (thread_way p)
