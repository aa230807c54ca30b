-- ===== src/Joint/Ways.antt =====
-- What each side does to the pipes and flags, one access at a time, as steps of src/routing/Rounds.
use vt_mechanisms.Prelude.{List, [], ◌∷◌, ◌++◌, ℤ}
use vt_mechanisms.Rounds.{Main, Thread, World, world}
use vt_mechanisms.Rounds.Progress.{Steps, done, ◌then◌}
use vt_mechanisms.MainLoop.{MainEvent}
use vt_mechanisms.RouterThread.{ThreadEvent}
use vt_mechanisms.Joint.{Shared, shared, MainAccess, ThreadAccess}

abbrev pub at : Main → Thread → Shared → ℤ → World
at m t (shared i o b s) time = world m t i o b s time

pub Steps-append : {w w' w'' : World} → Steps w w' → Steps w' w'' → Steps w w''
Steps-append done q = q
Steps-append (step then p) q = step then Steps-append p q

-- an access that `main` makes
abbrev pub MainDoes : Main → ℤ → MainEvent → Main → ℤ → Type 0
MainDoes m time e m' time' =
    (t : Thread) (sh sh' : Shared)
    → MainAccess e sh sh'
    → Steps (at m t sh time) (at m' t sh' time')

pub data MainWay : Main → ℤ → List MainEvent → Main → ℤ → Type 0 where
  stays : {m : Main} {time : ℤ} → MainWay m time [] m time
  acts :
      {m m' m'' : Main} {time time' time'' : ℤ} {e : MainEvent} {es : List MainEvent}
      → MainDoes m time e m' time'
      → MainWay m' time' es m'' time''
      → MainWay m time (e ∷ es) m'' time''

-- an access that the thread makes
abbrev pub ThreadDoes : Thread → ThreadEvent → Thread → Type 0
ThreadDoes t e t' =
    (m : Main) (time : ℤ) (sh sh' : Shared)
    → ThreadAccess e sh sh'
    → Steps (at m t sh time) (at m t' sh' time)

-- steps of the thread that touch nothing shared
abbrev pub Idles : Thread → Thread → Type 0
Idles t t' = (m : Main) (time : ℤ) (sh : Shared) → Steps (at m t sh time) (at m t' sh time)

pub data ThreadWay : Thread → List ThreadEvent → Thread → Type 0 where
  idles : {t t' : Thread} → Idles t t' → ThreadWay t [] t'
  does :
      {t t' t'' : Thread} {e : ThreadEvent} {es : List ThreadEvent}
      → ThreadDoes t e t'
      → ThreadWay t' es t''
      → ThreadWay t (e ∷ es) t''

pub Idles-then :
    {t t' t'' : Thread} {es : List ThreadEvent}
    → Idles t t'
    → ThreadWay t' es t''
    → ThreadWay t es t''
Idles-then f (idles g) = idles λ m time sh. Steps-append (f m time sh) (g m time sh)
Idles-then f (does g w) = does (λ m time sh sh' a. Steps-append (f m time sh) (g m time sh sh' a)) w

pub ThreadWay-append :
    {t t' t'' : Thread} {es es' : List ThreadEvent}
    → ThreadWay t es t'
    → ThreadWay t' es' t''
    → ThreadWay t (es ++ es') t''
ThreadWay-append (idles f) w = Idles-then f w
ThreadWay-append (does f v) w = does f (ThreadWay-append v w)

pub nothing : {t : Thread} → ThreadWay t [] t
nothing = idles λ m time sh. done
