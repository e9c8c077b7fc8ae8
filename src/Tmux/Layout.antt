-- ===== src/Tmux/Layout.antt =====
-- internal/tmuxcc/layout.go: the panes of a window from tmux's layout string. The recursion of `parseNode`
-- is on fuel: a node is shorter than what holds it.
pub mod Fuel
use claude_master_go.Base.{
  ℕ, zero, suc, ◌-◌, Bool, true, false, ◌&&◌, ◌||◌, Option, none, some, List, [], ◌∷◌, ◌++◌, ◌==◌,
  leb, if◌then◌else◌, ◌>>=◌, Bytes, is_empty, length, take, drop, get_elem?, ℤ, up, down,
}
use claude_master_go.Config.Number.{atoi}

mutual
  -- A node: its box, the id of a pane, whether it is split vertically, and its children.
  pub data Layout : Type 0 where
    node : (w h x y : ℤ) → Bytes → Bool → Layouts → Layout

  pub data Layouts : Type 0 where
    no_more : Layouts
    child : Layout → Layouts → Layouts

-- `strings.IndexByte` and `strings.IndexAny`: what stands before the byte, and from it on.
unfoldable pub split_at_first : (ℕ → Bool) → Bytes → Option (Bytes × Bytes)
split_at_first f [] = none
split_at_first f (c ∷ s) =
    let rest = split_at_first f s in
    if f c then some ([], c ∷ s) else rest >>= (λ r. some (c ∷ r.0, r.1))

-- A number up to a byte, and what follows the byte; none is any error of `parseNode`.
unfoldable pub field_to : ℕ → Bytes → Option (ℤ × Bytes)
field_to b s =
    split_at_first (λ c. c == b) s >>= (λ r. atoi (r.0) >>= (λ n. some (n, drop 1 (r.1))))

unfoldable pub or_all : Bytes → Option (Bytes × Bytes) → Bytes × Bytes
or_all s none = (s, [])
or_all s (some r) = r

abbrev is_y_end : ℕ → Bool
is_y_end c = c == b',' || c == b'{' || c == b'['

-- The digits of a pane's id.
unfoldable pub id_digits : Bytes → Bytes
id_digits [] = []
id_digits (c ∷ s) = let rest = id_digits s in if leb 48 c && leb c 57 then c ∷ rest else []

-- `matchBracket`: the index of the bracket that closes the first one, by the depth so far. A depth below
-- 0 does not come up, since the text starts with the opening bracket.
unfoldable pub match_from : ℕ → ℕ → ℕ → ℕ → Bytes → Option ℕ
match_from opening closing depth i [] = none
match_from opening closing depth i (c ∷ s) =
    let deeper = match_from opening closing (suc depth) (suc i) s in
    let same = match_from opening closing depth (suc i) s in
    let higher = match_from opening closing (depth - 1) (suc i) s in
    if c == opening
    then deeper
    else if c == closing
    then (if depth == 1 then some i else higher)
    else same

abbrev pub match_bracket : Bytes → ℕ → ℕ → Option ℕ
match_bracket s opening closing = match_from opening closing 0 0 s

-- `isChildBoundary`: digits, then an x.
unfoldable pub boundary_from : Bool → Bytes → Bool
boundary_from some_digit [] = false
boundary_from some_digit (c ∷ s) =
    let rest = boundary_from true s in
    if leb 48 c && leb c 57 then rest else some_digit && c == b'x'

abbrev pub is_child_boundary : Bytes → Bool
is_child_boundary s = boundary_from false s

-- The loop of `parseChildren`, which cuts the text into those of the children: the bytes of the child so
-- far, and the depth, which a closing bracket without an opening one makes negative.
unfoldable pub is_top : ℤ → Bool
is_top (ℤ.pos zero) = true
is_top _ = false

unfoldable pub last_child : Bytes → List Bytes
last_child [] = []
last_child (c ∷ s) = (c ∷ s) ∷ []

unfoldable pub cut_children : ℤ → Bytes → Bytes → List Bytes
cut_children depth sofar [] = last_child sofar
cut_children depth sofar (c ∷ s) =
    let opened = cut_children (up depth) (sofar ++ c ∷ []) s in
    let closed = cut_children (down depth) (sofar ++ c ∷ []) s in
    let inside = cut_children depth (sofar ++ c ∷ []) s in
    let next = cut_children depth [] s in
    if c == b'{' || c == b'['
    then opened
    else if c == b'}' || c == b']'
    then closed
    else if c == b',' && (is_top depth && is_child_boundary s)
    then sofar ∷ next
    else inside

unfoldable pub cons_layout : Option Layout → Option Layouts → Option Layouts
cons_layout none rest = none
cons_layout (some l) rest = rest >>= (λ ls. some (child l ls))

-- `parseChildren`, by the parser of one child.
unfoldable pub parse_all : (Bytes → Option Layout) → List Bytes → Option Layouts
parse_all parse [] = some no_more
parse_all parse (s ∷ ss) = cons_layout (parse s) (parse_all parse ss)

abbrev pub parse_children : (Bytes → Option Layout) → Bytes → Option Layouts
parse_children parse s = parse_all parse (cut_children (ℤ.pos 0) [] s)

-- A split: the text between the brackets, which starts with the opening one.
unfoldable pub parse_split :
    (Bytes → Option Layout) → (Layouts → Layout) → ℕ → ℕ → Bytes → Option Layout
parse_split parse make opening closing s =
    match_bracket s opening closing
    >>= (λ i. parse_children parse (take (i - 1) (drop 1 s)) >>= (λ ls. some (make ls)))

-- The switch on what follows the box.
unfoldable pub parse_rest :
    (Bytes → Option Layout) → (Bytes → Bool → Layouts → Layout) → Bytes → Option Layout
parse_rest parse make [] = some (make [] false no_more)
parse_rest parse make (c ∷ s) =
    if c == b','
    then some (make (b'%' ∷ id_digits s) false no_more)
    else if c == b'{'
    then parse_split parse (make [] false) b'{' b'}' (c ∷ s)
    else parse_split parse (make [] true) b'[' b']' (c ∷ s)

-- The fields of `parseNode` from its last one on, up to all of them.
unfoldable pub parse_y : (Bytes → Option Layout) → ℤ → ℤ → ℤ → Bytes → Option Layout
parse_y parse w h x s =
    let r = or_all s (split_at_first is_y_end s) in
    atoi (r.0) >>= (λ y. parse_rest parse (node w h x y) (r.1))

unfoldable pub parse_x : (Bytes → Option Layout) → ℤ → ℤ → Bytes → Option Layout
parse_x parse w h s = field_to b',' s >>= (λ x. parse_y parse w h (x.0) (x.1))

unfoldable pub parse_h : (Bytes → Option Layout) → ℤ → Bytes → Option Layout
parse_h parse w s = field_to b',' s >>= (λ h. parse_x parse w (h.0) (h.1))

unfoldable pub parse_box : (Bytes → Option Layout) → Bytes → Option Layout
parse_box parse s = field_to b'x' s >>= (λ w. parse_h parse (w.0) (w.1))

-- `parseNode`.
unfoldable pub parse_node : ℕ → Bytes → Option Layout
parse_node zero s = none
parse_node (suc fuel) s = parse_box (parse_node fuel) s

-- `ParseLayout`: the cookie is passed over.
unfoldable pub has_cookie : Option ℕ → Bool
has_cookie none = false
has_cookie (some c) = c == b','

unfoldable pub parse_layout : Bytes → Option Layout
parse_layout s = if has_cookie (get_elem? s 4) then parse_node (suc (length s)) (drop 5 s) else none

-- `LeafPanes`.
unfoldable mutual
  pub leaf_panes : Layout → List Bytes
  leaf_panes (node w h x y id vertical no_more) = if is_empty id then [] else id ∷ []
  leaf_panes (node w h x y id vertical (child l ls)) = leaf_panes l ++ leaves_of ls

  pub leaves_of : Layouts → List Bytes
  leaves_of no_more = []
  leaves_of (child l ls) = leaf_panes l ++ leaves_of ls
