-- ===== src/Routes/Lookup.antt =====
-- The lookups of src/routing/utils.c: a packet's route in the table, and a name's position.
use vt_mechanisms.Prelude.{
  ℕ, zero, suc, ◌+◌, ◌<◌, ◌≡◌, refl, sym, subst, ◌≢◌, ◌⊎◌, inl, inr, true, false, List, [], ◌∷◌,
  Option, none, some, arith, ◌==◌, if◌then◌else◌, length, get_elem?, ℤ, pos, negsuc, Bool-cases,
  ==→eq, ap, ◌∙◌, Option-cases,
}
use vt_mechanisms.Heap.{Ptr, null, Heap, ok}
use vt_mechanisms.Heap.Access.{load-ok, load_item-ok}
use vt_mechanisms.LinkedList.{Llist}
use vt_mechanisms.LinkedList.Linked.{Cells, first, Linked, IsList}
use vt_mechanisms.Routes.{
  RoutingEntry, str_eq, find_route, dst_ip, index_of_name, intf_name_to_sock_idx, get_dst_sock_idx,
}

-- the items of the cells are the live entries `es`, in order
abbrev pub Entries : (Ptr → Option RoutingEntry) → Cells → List RoutingEntry → Type 0
Entries f [] [] = Unit
Entries f [] (e ∷ es) = ⊥
Entries f (c ∷ xs) [] = ⊥
Entries f ((p, v) ∷ xs) (e ∷ es) = (f v ≡ some e) × (v ≢ null) × Entries f xs es

-- the interface of the last entry for an address
abbrev pub last_route : List ℕ → List RoutingEntry → Option (List ℕ)
last_route ip [] = none
last_route ip (e ∷ es) = elim (last_route ip es) [
  | some intf ↦ some intf
  | none ↦ if str_eq e.ip_address ip then some e.output_if else none
]

abbrev or_else : Option (List ℕ) → Option (List ℕ) → Option (List ℕ)
or_else none b = b
or_else (some x) b = some x

find_route-last :
    (h : Heap RoutingEntry) (k : ℕ) (ip : List ℕ) (old : Option (List ℕ)) (before : Ptr)
    (xs : Cells) (es : List RoutingEntry)
    → Linked h.nodes before xs null
    → Entries h.items xs es
    → length xs < k
    → find_route k ip old (first xs null) h ≡ ok (or_else (last_route ip es) old) h
unfolding find_route
find_route-last h zero ip old before xs es l en fuel = absurd (omega arith)
find_route-last h (suc k) ip old before [] [] l en fuel = refl
find_route-last h (suc k) ip old before [] (e ∷ es) l en fuel = absurd en
find_route-last h (suc k) ip old before (c ∷ xs) [] l en fuel = absurd en
find_route-last h (suc k) ip old before ((p, v) ∷ xs) (e ∷ es) l en fuel =
    let here : (p == null) ≡ false = ground (arith, l.1) in
    rw
      (
        here,
        load-ok h p _ l.0 l.1,
        load_item-ok h v en.0 en.1,
        find_route-last h k ip (if str_eq e.ip_address ip then some e.output_if else old) p xs es
            l.3 en.2 (omega arith),
      )
      (ground arith)

-- equal C strings are the same string
pub str_eq→eq : (a b : List ℕ) → str_eq a b ≡ true → a ≡ b
unfolding str_eq
str_eq→eq [] [] e = refl
str_eq→eq [] (d ∷ b) e = cc
str_eq→eq (c ∷ a) [] e = cc
str_eq→eq (c ∷ a) (d ∷ b) e =
    let parts : ((c == d) ≡ true) × (str_eq a b ≡ true) = ground arith in
    let heads = ==→eq c d parts.0 in let tails = str_eq→eq a b parts.1 in cc

str_eq_refl : (a : List ℕ) → str_eq a a ≡ true
unfolding str_eq
str_eq_refl [] = refl
str_eq_refl (c ∷ a) = ground (arith, str_eq_refl a)

-- no name is `intf`
abbrev pub Unnamed : List ℕ → List (List ℕ) → Type 0
Unnamed intf names = (j : ℕ) → get_elem? names j ≢ some intf

-- a position of `intf` among the names
abbrev pub Named : List ℕ → List (List ℕ) → ℕ → Type 0
Named intf names j = (get_elem? names j ≡ some intf) × (j < length names)

Unnamed-cons :
    (intf name : List ℕ) (names : List (List ℕ))
    → str_eq intf name ≡ false
    → Unnamed intf names
    → Unnamed intf (name ∷ names)
Unnamed-cons intf name names other rest zero e =
    let same : name ≡ intf = cc in let t = rw same at other in let r = str_eq_refl intf in cc
Unnamed-cons intf name names other rest (suc j) e = rest j e

index_of_name_lem :
    (missing : ℤ) (intf : List ℕ) (names : List (List ℕ)) (i : ℕ)
    → ((index_of_name missing intf names i ≡ missing) × Unnamed intf names)
      ⊎ ((j : ℕ) × (index_of_name missing intf names i ≡ pos (i + j)) × Named intf names j)
unfolding index_of_name
index_of_name_lem missing intf [] i = inl (refl, λ j e. cc)
index_of_name_lem missing intf (name ∷ names) i = elim (Bool-cases (str_eq intf name)) [
  | inl same ↦
      inr
        (0, rw same (ap pos (omega arith)), (ap some (sym (str_eq→eq intf name same)), omega arith))
  | inr other ↦ elim (index_of_name_lem missing intf names (i + 1)) [
    | inl (e, none_such) ↦ inl (rw other e, Unnamed-cons intf name names other none_such)
    | inr (j, e, (at, lt)) ↦ inr (suc j, rw (other, e) (ap pos (omega arith)), (at, omega arith))
  ]
]

-- `intf_name_to_sock_idx` gives a position of the name, or -1 when there is none.
pub intf_name_to_sock_idx_lem :
    (intf : List ℕ) (names : List (List ℕ))
    → ((intf_name_to_sock_idx intf names ≡ negsuc 0) × Unnamed intf names)
      ⊎ ((j : ℕ) × (intf_name_to_sock_idx intf names ≡ pos j) × Named intf names j)
unfolding intf_name_to_sock_idx
intf_name_to_sock_idx_lem intf names = elim (index_of_name_lem (negsuc 0) intf names 0) [
  | inl r ↦ inl r
  | inr (j, e, at) ↦ inr (j, e ∙ ap pos (omega arith), at)
]

-- what `get_dst_sock_idx` returns for the interface of a route, if there is one
abbrev pub Routed : List (List ℕ) → Option (List ℕ) → ℤ → Type 0
Routed names none r = r ≡ negsuc 0
Routed names (some intf) r =
    ((r ≡ pos 0) × Unnamed intf names) ⊎ ((j : ℕ) × (r ≡ pos j) × Named intf names j)

module _ (h : Heap RoutingEntry) (routes : Llist RoutingEntry) (xs : Cells) (es : List RoutingEntry)
    (is : IsList h.nodes routes xs) (en : Entries h.items xs es) (pkt : List ℕ)
    (names : List (List ℕ)) where
  found :
      (find_route (routes.size + 1) (dst_ip pkt) none routes.head h)
      ≡ ok (or_else (last_route (dst_ip pkt) es) none) h
  found =
      subst
        (λ p.
          find_route (routes.size + 1) (dst_ip pkt) none p h
          ≡ ok (or_else (last_route (dst_ip pkt) es) none) h)
        (sym is.head)
        (find_route-last h (routes.size + 1) (dst_ip pkt) none null xs es is.linked en
          (omega (arith, is.size)))

  -- `get_dst_sock_idx` reads the last entry for the packet's destination address. Without one it
  -- returns -1; otherwise a position of the entry's interface among the names, or 0 where no name
  -- is that interface. The heap stays as it is.
  pub get_dst_sock_idx_lem :
      (r : ℤ) × (get_dst_sock_idx pkt names routes h ≡ ok r h)
      × Routed names (last_route (dst_ip pkt) es) r
  unfolding get_dst_sock_idx
  get_dst_sock_idx_lem = elim (Option-cases (last_route (dst_ip pkt) es)) [
    | inl e ↦ (negsuc 0, rw (found, e), rw e refl)
    | inr (intf, e) ↦ elim (index_of_name_lem (pos 0) intf names 0) [
      | inl (first_one, none_such) ↦
          (pos 0, rw (found, e) (ap (λ r. ok r h) first_one), rw e (inl (refl, none_such)))
      | inr (j, at, named) ↦ (
        pos j,
        rw (found, e) (ap (λ r. ok r h) (at ∙ ap pos (omega arith))),
        rw e (inr (j, refl, named)),
      )
    ]
  ]
