-- ===== src/RouterThread/Play.antt =====
-- The code of the thread in src/routing/utils.c against the thread of src/routing/Rounds: what it
-- does turn by turn is a sequence of that thread's steps.
use vt_mechanisms.Prelude.{
  ℕ, ◌≡◌, ◌∙◌, sym, ap, subst, Bool, true, false, List, [], ◌∷◌, ◌++◌, if◌then◌else◌, append_assoc,
  append-nil,
}
use vt_mechanisms.Prelude.{Bool}
use vt_mechanisms.Stub.{pipe_send, thread_blocked}
use vt_mechanisms.Rounds.{Thread, running, exited}
use vt_mechanisms.RouterThread.{
  Turn, ThreadState, Outcome, going, finished, repeat, no_turn, Act, ◌>>=◌, ThreadEvent, looked,
  announcement,
}
use vt_mechanisms.RouterThread.Turns.{OneTurn, Alone, Raises, Speaks}

-- the thread's way through some turns, with what it does to the pipes and flags
pub data Play : Thread → List Turn → List ThreadEvent → Thread → Type 0 where
  over : {t : Thread} → Play t [] [] t
  -- a test of `arg->stop` apart from a turn
  looks :
      {t t' t'' : Thread} {us : List Turn} {log : List ThreadEvent}
      → (stop : Bool) → Alone stop t t'
      → Play t' us log t''
      → Play t us (looked stop ∷ log) t''
  -- a call of `poll` fails, at work or when the thread has announced that it blocks
  fails :
      {t t' t'' : Thread} {us : List Turn} {log : List ThreadEvent}
      → ((s : Bool) → Alone s t t')
      → Play t' us log t''
      → Play t us log t''
  -- the thread announces that it blocks, and goes on without a reply
  falls :
      {t mid t' t'' : Thread} {us : List Turn} {log : List ThreadEvent}
      → Raises t mid
      → Speaks mid (pipe_send thread_blocked) t'
      → Play t' us log t''
      → Play t us (announcement ++ log) t''
  turn :
      {t t' t'' : Thread} {u : Turn} {us : List Turn} {texts log : List ThreadEvent}
      → OneTurn u.reply u.stop t texts t'
      → Play t' us log t''
      → Play t (u ∷ us) (texts ++ log) t''

-- every read of the pipe returns a text
abbrev pub Replied : List Turn → Type 0
Replied [] = Unit
Replied (u ∷ us) = ((c : ℕ) × (rest : List ℕ) × (u.reply ≡ c ∷ rest)) × Replied us

-- from one state of the code to another, the thread has played the turns that are used up
abbrev pub Ran : Thread → ThreadState → Thread → ThreadState → Type 0
Ran t s t' s' =
    (us : List Turn) × (log : List ThreadEvent) × (s.turns ≡ us ++ s'.turns)
    × (s'.did ≡ s.did ++ log)
    × Play t us log t'

-- where the thread of Rounds stands after a part of the code
abbrev pub Follows : {A : Type 0} → Thread → ThreadState → Outcome A → Type 0
Follows t s (going a s') = Ran t s (running s'.curr) s'
Follows t s (repeat s') = Ran t s (running s'.curr) s'
Follows t s (finished s') = Ran t s exited s'
Follows t s no_turn = Unit

Play-append :
    {t t' t'' : Thread} {us us' : List Turn} {log log' : List ThreadEvent}
    → Play t us log t'
    → Play t' us' log' t''
    → Play t (us ++ us') (log ++ log') t''
Play-append over q = q
Play-append (looks stop o p) q = looks stop o (Play-append p q)
Play-append (fails o p) q = fails o (Play-append p q)
Play-append (falls r o p) q = falls r o (Play-append p q)
Play-append {t} {t'' = t''} {us' = us'} {log' = log'} (turn {u = u} {us} {texts} {log} o p) q =
    subst (λ l. Play t (u ∷ us ++ us') l t'') (sym (append_assoc texts log log'))
      (turn {u = u} o (Play-append p q))

pub Replied-rest : (us ts : List Turn) → Replied (us ++ ts) → Replied ts
Replied-rest [] ts r = r
Replied-rest (u ∷ us) ts r = Replied-rest us ts r.1

pub Ran-same :
    (t : Thread) (s s' : ThreadState) → s.turns ≡ s'.turns → s'.did ≡ s.did → Ran t s t s'
Ran-same t s s' e f = ([], [], e, f ∙ sym (append-nil s.did), over)

Ran-Ran :
    {t t' t'' : Thread} (s s' s'' : ThreadState)
    → Ran t s t' s'
    → Ran t' s' t'' s''
    → Ran t s t'' s''
Ran-Ran s s' s'' (us, log, e, f, p) (us', log', e', f', p') = (
  us ++ us',
  log ++ log',
  e ∙ ap (λ ts. us ++ ts) e' ∙ sym (append_assoc us us' s''.turns),
  f' ∙ ap (λ l. l ++ log') f ∙ append_assoc s.did log log',
  Play-append p p',
)

pub Ran-Follows :
    {A : Type 0} {t t' : Thread} (s s' : ThreadState) (o : Outcome A)
    → Ran t s t' s'
    → Follows t' s' o
    → Follows t s o
Ran-Follows s s' (going a s'') r f = Ran-Ran s s' s'' r f
Ran-Follows s s' (finished s'') r f = Ran-Ran s s' s'' r f
Ran-Follows s s' (repeat s'') r f = Ran-Ran s s' s'' r f
Ran-Follows s s' no_turn r f = tt

-- what a part of the code does from a state in which the thread is at work
abbrev pub Refines : {A : Type 0} → Act A → Type 0
Refines m = (s : ThreadState) → Replied s.turns → Follows (running s.curr) s (m s)

pub Follows-bind :
    {A B : Type 0} (t : Thread) (s : ThreadState) (o : Outcome A) (f : A → Act B)
    → Replied s.turns
    → Follows t s o
    → ((a : A) → Refines (f a))
    → Follows t s (((λ (_ : ThreadState). o) >>= f) s)
Follows-bind t s (going a s') f r ran rf =
    Ran-Follows s s' (f a s') ran (rf a s' (Replied-rest ran.0 s'.turns (subst Replied ran.2 r)))
Follows-bind t s (finished s') f r ran rf = ran
Follows-bind t s (repeat s') f r ran rf = ran
Follows-bind t s no_turn f r ran rf = tt

pub Refines-bind :
    {A B : Type 0} (m : Act A) (f : A → Act B)
    → Refines m
    → ((a : A) → Refines (f a))
    → Refines (m >>= f)
Refines-bind m f rm rf s r = Follows-bind (running s.curr) s (m s) f r (rm s r) rf

pub Ran-turn :
    (t t' : Thread) (s s' : ThreadState) (u : Turn) (texts : List ThreadEvent)
    → s.turns ≡ u ∷ s'.turns
    → s'.did ≡ s.did ++ texts
    → OneTurn u.reply u.stop t texts t'
    → Ran t s t' s'
Ran-turn t t' s s' u texts e f o = (
  u ∷ [],
  texts,
  e,
  f,
  subst (λ l. Play t (u ∷ []) l t') (append-nil texts) (turn {u = u} o over),
)

-- the test behind a turn, which finishes the thread or not
pub tested :
    (t : Thread) (s s' : ThreadState) (u : Turn) (texts : List ThreadEvent) (b : Bool)
    → s.turns ≡ u ∷ s'.turns
    → s'.did ≡ s.did ++ texts
    → OneTurn u.reply u.stop t texts (if b then exited else running s'.curr)
    → Follows {A = Unit {0}} t s (if b then finished s' else going tt s')
tested t s s' u texts true e f o = Ran-turn t exited s s' u texts e f o
tested t s s' u texts false e f o = Ran-turn t (running s'.curr) s s' u texts e f o
