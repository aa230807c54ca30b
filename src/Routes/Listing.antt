-- ===== src/Routes/Listing.antt =====
-- `print_routing_list` of src/routing/utils.c, as the text that it writes where `do_debug` is
-- compiled to write.
use vt_mechanisms.Prelude.{
  ℕ, zero, suc, ◌+◌, ◌<◌, ◌≡◌, refl, false, List, [], ◌∷◌, ◌++◌, codes, length, arith, ◌==◌,
  if◌then◌else◌,
}
use vt_mechanisms.Heap.{Ptr, null, Heap, Cmd, ok, out_of_fuel, pure, ◌>>=◌, load, load_item}
use vt_mechanisms.Heap.Access.{load-ok, load_item-ok}
use vt_mechanisms.LinkedList.{Llist}
use vt_mechanisms.LinkedList.Linked.{Cells, first, Linked, IsList}
use vt_mechanisms.Routes.{RoutingEntry}
use vt_mechanisms.Routes.Lookup.{Entries}

abbrev pub entry_line : RoutingEntry → List ℕ
entry_line e = codes "-> IP:" ++ e.ip_address ++ codes ", IFACE:" ++ e.output_if ++ codes "\n"

unfoldable pub print_entries : ℕ → Ptr → Cmd RoutingEntry (List ℕ)
print_entries zero head = λ _. out_of_fuel
print_entries (suc k) head = if head == null then pure [] else do
  n ← load head
  entry ← load_item n.item
  rest ← print_entries k n.next
  pure (entry_line entry ++ rest)

unfoldable pub print_routing_list : Llist RoutingEntry → Cmd RoutingEntry (List ℕ)
unfolding print_entries
print_routing_list routing_list = do
  entries ← print_entries (routing_list.size + 1) routing_list.head
  pure (codes "Active routing table:\n" ++ entries ++ codes "\n")

-- the lines of the entries
abbrev pub entry_lines : List RoutingEntry → List ℕ
entry_lines [] = []
entry_lines (e ∷ es) = entry_line e ++ entry_lines es

print_entries_lem :
    (h : Heap RoutingEntry) (k : ℕ) (before : Ptr) (xs : Cells) (es : List RoutingEntry)
    → Linked h.nodes before xs null
    → Entries h.items xs es
    → length xs < k
    → print_entries k (first xs null) h ≡ ok (entry_lines es) h
unfolding print_entries
print_entries_lem h zero before xs es l en fuel = absurd (omega arith)
print_entries_lem h (suc k) before [] [] l en fuel = refl
print_entries_lem h (suc k) before [] (e ∷ es) l en fuel = absurd en
print_entries_lem h (suc k) before (c ∷ xs) [] l en fuel = absurd en
print_entries_lem h (suc k) before ((p, v) ∷ xs) (e ∷ es) l en fuel =
    let here : (p == null) ≡ false = ground (arith, l.1) in
    rw
      (
        here,
        load-ok h p _ l.0 l.1,
        load_item-ok h v en.0 en.1,
        print_entries_lem h k p xs es l.3 en.2 (omega arith),
      )
      refl

-- On a table, the text has a line for each entry, in order; the heap stays as it is.
pub print_routing_list_lem :
    (h : Heap RoutingEntry) (l : Llist RoutingEntry) (xs : Cells) (es : List RoutingEntry)
    → IsList h.nodes l xs
    → Entries h.items xs es
    → print_routing_list l h
      ≡ ok (codes "Active routing table:\n" ++ entry_lines es ++ codes "\n") h
unfolding print_routing_list
print_routing_list_lem h l xs es is en =
    rw (is.head, print_entries_lem h (l.size + 1) null xs es is.linked en (omega (arith, is.size)))
      refl
