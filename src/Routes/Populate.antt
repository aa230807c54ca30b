-- ===== src/Routes/Populate.antt =====
-- The table that `populate_routing_list` of src/routing/utils.c builds from the lines of a file.
use vt_mechanisms.Prelude.{
  ℤ, ◌<◌, ◌≡◌, refl, subst, ◌∙◌, ◌≢◌, true, false, List, [], ◌∷◌, ◌++◌, Option, none, some, arith,
  ◌==◌, ltb, append_assoc, append-nil,
}
use vt_mechanisms.Heap.{Ptr, null, Heap, write, malloc_item}
use vt_mechanisms.Heap.Access.{Ends, Ends-and_then, Ends-mono}
use vt_mechanisms.LinkedList.{Llist, llist_append}
use vt_mechanisms.LinkedList.Linked
use vt_mechanisms.LinkedList.Linked.{Cells, has, IsList, SameOutside}
use vt_mechanisms.LinkedList.Append.{IsAppended, llist_append_lem}
use vt_mechanisms.Routes.{RoutingEntry, Line, parse_line, populate_routing_list}
use vt_mechanisms.Routes.Lookup.{Entries}

-- the nodes and entries that the lines become
abbrev pub cells_of : List Line → Cells
cells_of [] = []
cells_of (line ∷ lines) = (line.node, line.new_entry) ∷ cells_of lines

-- `malloc` gives the later lines other addresses
abbrev pub Unshared : Line → List Line → Type 0
Unshared line [] = Unit
Unshared line (other ∷ lines) =
    (other.new_entry ≢ line.new_entry) × (other.node ≢ line.node) × Unshared line lines

-- `malloc` gives each line addresses that are not in use
abbrev pub Fresh : Heap RoutingEntry → List Line → Type 0
Fresh h [] = Unit
Fresh h (line ∷ lines) =
    ((line.new_entry ≢ null) × (h.items line.new_entry ≡ none))
    × ((line.node ≢ null) × (h.nodes line.node ≡ none))
    × Unshared line lines
    × Fresh h lines

-- each line is read as an entry
abbrev pub Parsed : List Line → List RoutingEntry → Type 0
Parsed [] [] = Unit
Parsed [] (e ∷ es) = ⊥
Parsed (line ∷ lines) [] = ⊥
Parsed (line ∷ lines) (e ∷ es) =
    (1 < line.len) × (parse_line line.text line.len ≡ some e) × Parsed lines es

-- the table holds the entries `es` in the cells `xs`
abbrev pub IsTable : Heap RoutingEntry → Llist RoutingEntry → Cells → List RoutingEntry → Type 0
IsTable h l xs es = IsList h.nodes l xs × Entries h.items xs es

pub Entries-append :
    (f : Ptr → Option RoutingEntry) (xs ys : Cells) (es fs : List RoutingEntry)
    → Entries f xs es
    → Entries f ys fs
    → Entries f (xs ++ ys) (es ++ fs)
Entries-append f [] ys [] fs a b = b
Entries-append f [] ys (e ∷ es) fs a b = absurd a
Entries-append f (c ∷ xs) ys [] fs a b = absurd a
Entries-append f (c ∷ xs) ys (e ∷ es) fs a b = (a.0, a.1, Entries-append f xs ys es fs a.2 b)

-- a write at an unused address leaves the entries
Entries-write :
    (f : Ptr → Option RoutingEntry) (v : Ptr) (e : RoutingEntry) (xs : Cells)
    (es : List RoutingEntry)
    → f v ≡ none
    → Entries f xs es
    → Entries (write f v (some e)) xs es
Entries-write f v e [] [] unused en = tt
Entries-write f v e [] (x ∷ es) unused en = absurd en
Entries-write f v e (c ∷ xs) [] unused en = absurd en
Entries-write f v e ((p, w) ∷ xs) (x ∷ es) unused en =
    (ground (arith, unused, en.0), en.1, Entries-write f v e xs es unused en.2)

Fresh-kept :
    (h g : Heap RoutingEntry) (l : Llist RoutingEntry) (line : Line) (e : RoutingEntry) (xs : Cells)
    (lines : List Line)
    → IsList h.nodes l xs
    → g.items ≡ write h.items line.new_entry (some e)
    → SameOutside ((line.node, line.new_entry) ∷ xs) h.nodes g.nodes
    → Unshared line lines
    → Fresh h lines
    → Fresh g lines
Fresh-kept h g l line e xs [] is items same apart fresh = tt
Fresh-kept h g l line e xs (other ∷ lines) is items same apart fresh =
    let out = Linked.not-mem_of_none h.nodes other.node null xs null is.linked fresh.1.1 in
    let out' : has other.node ((line.node, line.new_entry) ∷ xs) ≡ false =
      ground (arith, out, apart.1) in
    (
      (fresh.0.0, rw items (ground (arith, apart.0, fresh.0.1))),
      (fresh.1.0, same other.node out' ∙ fresh.1.1),
      fresh.2,
      Fresh-kept h g l line e xs lines is items same apart.2 fresh.3,
    )

-- the table with one entry more
abbrev Longer :
    Cells
    → List RoutingEntry
    → Line
    → RoutingEntry
    → List Line
    → ℤ × Llist RoutingEntry
    → Heap RoutingEntry
    → Type 0
Longer xs es line e lines r g =
    IsTable g r.1 (xs ++ (line.node, line.new_entry) ∷ []) (es ++ e ∷ []) × Fresh g lines

-- the table that holds these entries in these cells
abbrev pub Built :
    Cells → List RoutingEntry → Option (Llist RoutingEntry) → Heap RoutingEntry → Type 0
Built xs es r g = (l : Llist RoutingEntry) × (r ≡ some l) × IsTable g l xs es

-- One line more: the entry is stored and appended.
append_entry :
    (h : Heap RoutingEntry) (l : Llist RoutingEntry) (xs : Cells) (es : List RoutingEntry)
    (line : Line) (e : RoutingEntry) (lines : List Line)
    → IsTable h l xs es
    → Fresh h (line ∷ lines)
    → let h' : Heap RoutingEntry = record h { items = write h.items line.new_entry (some e) } in
      Ends (llist_append line.node line.old_node l line.new_entry h') (Longer xs es line e lines)
append_entry h l xs es line e lines (is, en) fresh =
    let h' : Heap RoutingEntry = record h { items = write h.items line.new_entry (some e) } in
    Ends-mono _ (IsAppended h' l xs line.node line.new_entry) _
      (llist_append_lem h' l line.node line.old_node line.new_entry xs is fresh.1.0 fresh.1.1)
      λ r g a. (
        (
          a.list,
          rw a.items (
              Entries-append (write h.items line.new_entry (some e)) xs _ es (e ∷ [])
                (Entries-write h.items line.new_entry e xs es fresh.0.1 en)
                (ground arith, fresh.0.0, tt)),
        ),
        Fresh-kept h g l line e xs lines is a.items a.same fresh.2 fresh.3,
      )

-- A file whose lines are all read as entries, with memory for each, extends the table by these
-- entries, in order.
pub populate_routing_list_lem :
    (lines : List Line) (h : Heap RoutingEntry) (l : Llist RoutingEntry) (xs : Cells)
    (es new : List RoutingEntry)
    → IsTable h l xs es
    → Fresh h lines
    → Parsed lines new
    → Ends (populate_routing_list lines l h) (Built (xs ++ cells_of lines) (es ++ new))
unfolding populate_routing_list malloc_item
populate_routing_list_lem [] h l xs es [] (is, en) fresh parsed =
    (l, refl, rw (append-nil xs, append-nil es) (is, en))
populate_routing_list_lem [] h l xs es (e ∷ new) t fresh parsed = absurd parsed
populate_routing_list_lem (line ∷ lines) h l xs es [] t fresh parsed = absurd parsed
populate_routing_list_lem (line ∷ lines) h l xs es (e ∷ new) t fresh parsed =
    let long : ltb 1 line.len ≡ true = ground (arith, parsed.0) in
    let there : (line.new_entry == null) ≡ false = ground (arith, fresh.0.0) in
    let h' : Heap RoutingEntry = record h { items = write h.items line.new_entry (some e) } in
    let grown = Built (xs ++ cells_of (line ∷ lines)) (es ++ e ∷ new) in
    rw (long, there, parsed.1)
      (Ends-and_then (llist_append line.node line.old_node l line.new_entry h')
        (λ r. populate_routing_list lines r.1) (Longer xs es line e lines) grown
        (append_entry h l xs es line e lines t fresh)
        λ r g a.
          subst (λ zs. Ends (populate_routing_list lines r.1 g) (Built zs (es ++ e ∷ new)))
            (append_assoc xs ((line.node, line.new_entry) ∷ []) (cells_of lines))
            (subst
              (λ fs.
                Ends (populate_routing_list lines r.1 g)
                  (Built (xs ++ (line.node, line.new_entry) ∷ [] ++ cells_of lines) fs))
              (append_assoc es (e ∷ []) new)
              (populate_routing_list_lem lines g r.1 (xs ++ (line.node, line.new_entry) ∷ [])
                (es ++ e ∷ []) new a.0 a.1 parsed.2)))
