-- ===== src/Sockets/Balance.antt =====
-- Which descriptors the functions of src/routing/utils.c leave open.
use vt_mechanisms.Prelude.{
  ◌⊎◌, ◌<◌, ap, suc, length, ℕ, ◌+◌, ◌≡◌, refl, ◌∙◌, List, [], ◌∷◌, if◌then◌else◌, ltb_ℤ, ◌==ℤ◌, ℤ,
  pos, arith, inl, inr, false,
}
use vt_mechanisms.Sockets.{
  ◌>>=◌, pure, Call, socket, open_clone_device, close, Event, Trace, SysResult, returned,
  thread_exit, process_exit, Sys, invoke, bind_socket, raw_socket, open_sockets, close_sockets,
  finish_thread, tun_alloc,
}

-- how often a call has opened the descriptor
abbrev pub opened : ℤ → Trace → ℕ
opened fd [] = 0
opened fd (e ∷ tr) = elim e.call [
  | socket ↦ (if e.answer ==ℤ fd then 1 else 0) + opened fd tr
  | open_clone_device ↦ (if e.answer ==ℤ fd then 1 else 0) + opened fd tr
  | _ ↦ opened fd tr
]

-- how often it was closed
abbrev pub closed : ℤ → Trace → ℕ
closed fd [] = 0
closed fd (e ∷ tr) = elim e.call [
  | close fd' ↦ (if fd' ==ℤ fd then 1 else 0) + closed fd tr
  | _ ↦ closed fd tr
]

-- how often a descriptor is among those of a list
abbrev pub times : ℤ → List ℤ → ℕ
times fd [] = 0
times fd (x ∷ xs) = (if x ==ℤ fd then 1 else 0) + times fd xs

-- Between two moments the descriptors `kept` have been opened and not closed, and no others.
abbrev pub Opens : Trace → Trace → List ℤ → Type 0
Opens tr tr' kept =
    (fd : ℤ)
    → ltb_ℤ fd (pos 0) ≡ false
    → opened fd tr' + closed fd tr ≡ closed fd tr' + opened fd tr + times fd kept

-- what a function leaves open when it returns, and when it ends the thread
abbrev pub Leaves : {A : Type 0} → Trace → SysResult A → (A → List ℤ) → Type 0
Leaves tr (returned a tr') kept = Opens tr tr' (kept a)
Leaves tr (thread_exit tr') kept = Opens tr tr' []
Leaves tr (process_exit n tr') kept = ⊥

bind-returned :
    {A B : Type 0} (m : Sys A) (f : A → Sys B) (tr tr' : Trace) (a : A)
    → m tr ≡ returned a tr'
    → (m >>= f) tr ≡ f a tr'
bind-returned m f tr tr' a e = rw (e, ◌>>=◌) refl

bind-thread_exit :
    {A B : Type 0} (m : Sys A) (f : A → Sys B) (tr tr' : Trace)
    → m tr ≡ thread_exit tr'
    → (m >>= f) tr ≡ thread_exit tr'
bind-thread_exit m f tr tr' e = rw (e, ◌>>=◌) refl

Leaves-cases :
    {A : Type 0} (tr : Trace) (o : SysResult A) (kept : A → List ℤ)
    → Leaves tr o kept
    → ((a : A) × (tr' : Trace) × (o ≡ returned a tr') × Opens tr tr' (kept a))
      ⊎ ((tr' : Trace) × (o ≡ thread_exit tr') × Opens tr tr' [])
Leaves-cases tr (returned a tr') kept l = inl (a, tr', refl, l)
Leaves-cases tr (thread_exit tr') kept l = inr (tr', refl, l)
Leaves-cases tr (process_exit n tr') kept l = absurd l

Opens-Opens :
    (tr tr' tr'' : Trace) (socks : List ℤ) (sock : ℤ)
    → Opens tr tr' (sock ∷ [])
    → Opens tr' tr'' socks
    → Opens tr tr'' (sock ∷ socks)
Opens-Opens tr tr' tr'' socks sock o o' fd nn =
    let a = o fd nn in let b = o' fd nn in omega (arith, a, b)

-- The way out of `open_sockets`: all sockets are open, or those of the interfaces before one.
module _ (answer : Trace → Call → ℤ) where
  abbrev AllOpen : List (List ℕ) → Trace → Type 0
  AllOpen names tr =
      (socks : List ℤ) × (tr' : Trace) × (open_sockets answer names tr ≡ returned socks tr')
      × (length socks ≡ length names)
      × Opens tr tr' socks

  abbrev pub SomeOpen : List (List ℕ) → Trace → Type 0
  SomeOpen names tr =
      (kept : List ℤ) × (tr' : Trace) × (open_sockets answer names tr ≡ thread_exit tr')
      × (length kept < length names)
      × Opens tr tr' kept

  raw_socket-Leaves :
      (bind_intf : List ℕ) (tr : Trace)
      → Leaves tr (raw_socket answer bind_intf tr) (λ sock. sock ∷ [])
  unfolding raw_socket bind_socket invoke
  raw_socket-Leaves bind_intf tr = ground arith

  open_sockets-cases : (names : List (List ℕ)) (tr : Trace) → AllOpen names tr ⊎ SomeOpen names tr
  unfolding open_sockets
  open_sockets-cases [] tr = inl ([], tr, refl, refl, λ fd nn. omega arith)
  open_sockets-cases (name ∷ names) tr =
      elim (Leaves-cases tr (raw_socket answer name tr) (λ sock. sock ∷ [])
        (raw_socket-Leaves name tr)) [
          | inr (tr', e, o) ↦
              inr ([], tr', bind-thread_exit (raw_socket answer name) _ tr tr' e, omega arith, o)
          | inl (sock, tr', e, o) ↦
              let first =
                bind-returned (raw_socket answer name)
                  (λ sock. open_sockets answer names >>= λ socks. pure (sock ∷ socks)) tr tr' sock
                  e in
              elim (open_sockets-cases names tr') [
                | inl (socks, tr'', e', len, o') ↦ inl (
                  sock ∷ socks,
                  tr'',
                  first ∙ bind-returned (open_sockets answer names) _ tr' tr'' socks e',
                  ap suc len,
                  Opens-Opens tr tr' tr'' socks sock o o',
                )
                | inr (kept, tr'', e', lt, o') ↦ inr (
                  sock ∷ kept,
                  tr'',
                  first ∙ bind-thread_exit (open_sockets answer names) _ tr' tr'' e',
                  omega (arith, lt),
                  Opens-Opens tr tr' tr'' kept sock o o',
                )
              ]
        ]

  close_sockets-closes :
      (socks : List ℤ) (tr : Trace)
      → (tr' : Trace) × (close_sockets answer socks tr ≡ returned tt tr')
        × ((fd : ℤ)
            → (opened fd tr' ≡ opened fd tr) × (closed fd tr' ≡ closed fd tr + times fd socks))
  unfolding close_sockets invoke
  close_sockets-closes [] tr = (tr, refl, λ fd. (refl, omega arith))
  close_sockets-closes (sock ∷ socks) tr =
      let e : Event = record { call = close sock; answer = answer tr (close sock) } in
      let (tr', run, counts) = close_sockets-closes socks (e ∷ tr) in
      (tr', run, λ fd. (let (a, b) = counts fd in (a, omega (arith, b))))

  -- The thread opens a socket for each interface and closes them all when it finishes; if one
  -- cannot be opened or bound it ends at once, and leaves those of the interfaces before open.
  pub open_sockets-finish_thread :
      (names : List (List ℕ)) (tr : Trace)
      → ((socks : List ℤ) × (tr' tr'' : Trace) × (open_sockets answer names tr ≡ returned socks tr')
          × (length socks ≡ length names)
          × Opens tr tr' socks
          × (finish_thread answer {A = Unit {0}} socks tr' ≡ thread_exit tr'')
          × Opens tr tr'' [])
        ⊎ SomeOpen names tr
  unfolding finish_thread
  open_sockets-finish_thread names tr = elim (open_sockets-cases names tr) [
    | inr some_open ↦ inr some_open
    | inl (socks, tr', e, len, o) ↦
        let (tr'', run, counts) = close_sockets-closes socks tr' in
        inl (
          socks,
          tr',
          tr'',
          e,
          len,
          o,
          bind-returned (close_sockets answer socks) _ tr' tr'' tt run,
          λ fd nn. (let a = o fd nn in let (b, c) = counts fd in omega (arith, a, b, c)),
        )
  ]

  module _ (tun_name : Trace → List ℕ) where
    abbrev pub kept_of : ℤ × List ℕ → List ℤ
    kept_of (fd, dev) = if ltb_ℤ fd (pos 0) then [] else fd ∷ []

    -- `tun_alloc` returns a descriptor that it leaves open, or a negative number and has closed what
    -- it opened.
    pub tun_alloc-Leaves :
        (dev : List ℕ) (flags : ℤ) (tr : Trace)
        → Leaves tr (tun_alloc answer tun_name dev flags tr) kept_of
    unfolding tun_alloc invoke
    tun_alloc-Leaves dev flags tr = ground arith
