-- ===== src/Routes/RoundTrip.antt =====
-- A line of a route file, as `populate_routing_list` of src/routing/utils.c reads it back.
use vt_mechanisms.Prelude.{
  ℕ, suc, ◌+◌, ◌<◌, ◌≤◌, ◌≡◌, refl, sym, ap, ◌∙◌, true, false, ◌&&◌, not, List, [], ◌∷◌, ◌++◌, some,
  arith, ◌==◌, append_assoc, if◌then◌else◌, drop, length, length-append,
}
use vt_mechanisms.Routes.{
  is_separator, c_string, cut, parse_line, bufsize, ip_addr_size, if_name_size,
}

-- no NUL and no separator
abbrev pub Plain : List ℕ → Type 0
Plain [] = Unit
Plain (c ∷ s) = ((c == 0) ≡ false) × (is_separator c ≡ false) × Plain s

-- no NUL
abbrev pub NoNul : List ℕ → Type 0
NoNul [] = Unit
NoNul (c ∷ s) = ((c == 0) ≡ false) × NoNul s

-- nothing, or a separator and on
abbrev pub Gap : List ℕ → Type 0
Gap [] = Unit
Gap (c ∷ s) = is_separator c ≡ true

-- a blank or a tab
abbrev pub IsBlank : ℕ → Type 0
IsBlank c = (is_separator c && not (c == 10)) ≡ true

-- what the loop leaves in `tmp`
abbrev zeroed : List ℕ → List ℕ
zeroed [] = []
zeroed (c ∷ s) = (if is_separator c then 0 else c) ∷ zeroed s

cut-zeroed : (s : List ℕ) (i x : ℕ) → (cut s i x).0 ≡ zeroed s
unfolding cut
cut-zeroed [] i x = refl
cut-zeroed (c ∷ s) i x = ap (λ t. (if is_separator c then 0 else c) ∷ t) (cut-zeroed s _ _)

cut-append :
    (a t : List ℕ) (i x : ℕ) → (cut (a ++ t) i x).1 ≡ (cut t (i + length a) (cut a i x).1).1
unfolding cut
cut-append [] t i x = ap (λ j. (cut t j x).1) (omega arith)
cut-append (c ∷ a) t i x =
    cut-append a t (i + 1) _ ∙ ap (λ j. (cut t j (cut (c ∷ a) i x).1).1) (omega arith)

cut-Plain : (a : List ℕ) (i x : ℕ) → Plain a → (cut a i x).1 ≡ x
unfolding cut
cut-Plain [] i x p = refl
cut-Plain (c ∷ a) i x p = rw p.1 (cut-Plain a (i + 1) x p.2)

-- behind a blank the index is that of the next byte
cut-blank :
    (b : ℕ) (t : List ℕ) (i x : ℕ) → IsBlank b → (cut (b ∷ t) i x).1 ≡ (cut t (i + 1) (i + 1)).1
unfolding cut
cut-blank b t i x e = rw e refl

zeroed-append : (a t : List ℕ) → zeroed (a ++ t) ≡ zeroed a ++ zeroed t
zeroed-append [] t = refl
zeroed-append (c ∷ a) t = ap (λ s. (if is_separator c then 0 else c) ∷ s) (zeroed-append a t)

zeroed-length : (a : List ℕ) → length (zeroed a) ≡ length a
zeroed-length [] = refl
zeroed-length (c ∷ a) = ap suc (zeroed-length a)

zeroed-Plain : (a : List ℕ) → Plain a → zeroed a ≡ a
zeroed-Plain [] p = refl
zeroed-Plain (c ∷ a) p = rw (p.1, zeroed-Plain a p.2) refl

drop-append : (a t : List ℕ) → drop (length a) (a ++ t) ≡ t
drop-append [] t = refl
drop-append (c ∷ a) t = drop-append a t

c_string-stop : (a : List ℕ) (t : List ℕ) → NoNul a → c_string (a ++ 0 ∷ t) ≡ a
unfolding c_string
c_string-stop [] t p = refl
c_string-stop (c ∷ a) t p = rw p.0 (ap (λ s. c ∷ s) (c_string-stop a t p.1))

Plain-NoNul : (a : List ℕ) → Plain a → NoNul a
Plain-NoNul [] p = tt
Plain-NoNul (c ∷ a) p = (p.0, Plain-NoNul a p.2)

NoNul-append : (a t : List ℕ) → NoNul a → NoNul t → NoNul (a ++ t)
NoNul-append [] t p q = q
NoNul-append (c ∷ a) t p q = (p.0, NoNul-append a t p.1 q)

-- a gap and a blank become a text that begins with a NUL
Gap-begins :
    (mid : List ℕ) (b : ℕ) (t : List ℕ)
    → Gap mid
    → IsBlank b
    → (s : List ℕ) × (zeroed (mid ++ b ∷ t) ≡ 0 ∷ s)
Gap-begins [] b t g e = (zeroed t, ground (arith, e))
Gap-begins (c ∷ mid) b t g e = (zeroed (mid ++ b ∷ t), rw g refl)

-- `ip`, a gap that a blank ends, `intf`, and a newline
abbrev pub route_line : (ip mid : List ℕ) (b : ℕ) (intf : List ℕ) → List ℕ
route_line ip mid b intf = ip ++ (mid ++ b ∷ (intf ++ 10 ∷ []))

module _ (ip mid : List ℕ) (b : ℕ) (intf : List ℕ) (plain : Plain ip) (gap : Gap mid)
    (blank : IsBlank b) (plain' : Plain intf) where
  abbrev behind : ℕ
  behind = length ip + length mid + 1

  index_behind : (cut (route_line ip mid b intf) 0 0).1 ≡ behind
  unfolding cut
  index_behind =
      let k = 0 + length ip + length mid in
      let u = intf ++ 10 ∷ [] in
      cut-append ip (mid ++ b ∷ u) 0 0
      ∙ cut-append mid (b ∷ u) (0 + length ip) _
      ∙ cut-blank b u k _ blank
      ∙ cut-append intf (10 ∷ []) (k + 1) (k + 1)
      ∙ cut-Plain intf (k + 1) (k + 1) plain'
      ∙ omega arith

  first_field : c_string (cut (route_line ip mid b intf) 0 0).0 ≡ ip
  first_field =
      let (s, e) = Gap-begins mid b (intf ++ 10 ∷ []) gap blank in
      ap c_string (
        cut-zeroed (route_line ip mid b intf) 0 0
        ∙ zeroed-append ip _
        ∙ ap (λ t. t ++ zeroed (mid ++ b ∷ (intf ++ 10 ∷ []))) (zeroed-Plain ip plain)
        ∙ ap (λ t. ip ++ t) e)
      ∙ c_string-stop ip s (Plain-NoNul ip plain)

  second_field : c_string (drop behind (cut (route_line ip mid b intf) 0 0).0) ≡ intf
  second_field =
      let u = intf ++ 10 ∷ [] in
      let front = ip ++ mid ++ b ∷ [] in
      let split : route_line ip mid b intf ≡ front ++ u =
        sym (append_assoc (ip ++ mid) (b ∷ []) u ∙ append_assoc ip mid (b ∷ u)) in
      let long : behind ≡ length (zeroed front) =
        omega
          (arith, zeroed-length front, length-append (ip ++ mid) (b ∷ []), length-append ip mid) in
      let tail : zeroed u ≡ intf ++ 0 ∷ [] =
        zeroed-append intf (10 ∷ []) ∙ ap (λ t. t ++ 0 ∷ []) (zeroed-Plain intf plain') in
      ap c_string (
        ap (drop behind)
          (cut-zeroed (route_line ip mid b intf) 0 0 ∙ ap zeroed split ∙ zeroed-append front u)
        ∙ ap (λ k. drop k (zeroed front ++ zeroed u)) long
        ∙ drop-append (zeroed front) (zeroed u)
        ∙ tail)
      ∙ c_string-stop intf [] (Plain-NoNul intf plain')

-- A line of an address, a gap that begins with a separator and ends with a blank or a tab, and the
-- name of an interface, each short enough for its field, is read as the entry of the two.
pub parse_line-route_line :
    (ip mid : List ℕ) (b : ℕ) (intf rest : List ℕ) (len : ℕ)
    → Plain ip
    → NoNul mid × Gap mid
    → IsBlank b
    → Plain intf
    → length ip < ip_addr_size
    → length intf < if_name_size
    → len ≤ bufsize
    → parse_line (route_line ip mid b intf ++ 0 ∷ rest) len
      ≡ some (record { ip_address = ip; output_if = intf })
unfolding parse_line
parse_line-route_line ip mid b intf rest len plain (letters, gap) blank plain' lt lt' le =
    let whole : NoNul (route_line ip mid b intf) = NoNul-append ip _ (Plain-NoNul ip plain) (
      NoNul-append mid _ letters
        (ground (arith, blank), NoNul-append intf _ (Plain-NoNul intf plain') (refl, tt))) in
    rw
      (
        c_string-stop (route_line ip mid b intf) rest whole,
        index_behind ip mid b intf plain gap blank plain',
        first_field ip mid b intf plain gap blank plain',
        second_field ip mid b intf plain gap blank plain',
      )
      (ground (arith, lt, lt', le))
