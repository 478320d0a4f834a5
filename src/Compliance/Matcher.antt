-- ===== src/Compliance/Matcher.antt =====
-- `matcher` of internal/compliance/aho.go, the Aho-Corasick automaton. `order n` is the order in which
-- a walk of the map `next` of the node `n` meets the bytes.
pub mod Pre
pub mod Trie
pub mod Insert
pub mod Outputs
pub mod Follow
pub mod Links
pub mod Visit
pub mod Roots
pub mod Fuel
pub mod Queue
pub mod Drain
pub mod Build
pub mod Scan
pub mod Parts
pub mod Correct
use yzapi.Base.{
  ℕ, zero, suc, ◌+◌, Bool, true, false, Option, none, some, List, [], ◌∷◌, ◌++◌, ◌==◌, leb,
  if◌then◌else◌, update,
}
use yzapi.Health.Truncate.{Bytes}

-- `matcher`: the fields of its nodes, each by the index of the node
pub record Matcher : Type 0 where
  pub size : ℕ
  pub next : ℕ → ℕ → Option ℕ
  pub fail : ℕ → ℕ
  pub out : ℕ → List ℕ

abbrev pub empty_matcher : Matcher
empty_matcher = record { size = 1; next = λ n b. none; fail = λ n. 0; out = λ n. [] }

-- m.nodes = append(m.nodes, acNode{...}); m.nodes[cur].next[b] = nxt
abbrev pub new_child : ℕ → ℕ → Matcher → Matcher
new_child b cur m = record {
  size = suc m.size;
  next = update (update m.next m.size (λ c. none)) cur (update (m.next cur) b (some m.size));
  fail = update m.fail m.size 0;
  out = update m.out m.size [];
}

-- One byte of a pattern: the node it leads to, added where there is none
abbrev pub grow_to : Option ℕ → ℕ → ℕ → Matcher → Matcher × ℕ
grow_to (some nxt) b cur m = (m, nxt)
grow_to none b cur m = (new_child b cur m, m.size)

unfoldable pub grow : ℕ → ℕ → Matcher → Matcher × ℕ
grow b cur m = grow_to (m.next cur b) b cur m

-- the loop over the bytes of a pattern
unfoldable pub insert : Bytes → Matcher × ℕ → Matcher × ℕ
insert [] s = s
insert (b ∷ p) (m, cur) = insert p (grow b cur m)

abbrev pub mark : ℕ → Matcher × ℕ → Matcher
mark i (m, cur) = record m { out = update m.out cur (m.out cur ++ (i ∷ [])) }

unfoldable pub add_pattern : ℕ → Bytes → Matcher → Matcher
add_pattern i [] m = m
add_pattern i (b ∷ p) m = mark i (insert (b ∷ p) (m, 0))

unfoldable pub add_patterns : ℕ → List Bytes → Matcher → Matcher
add_patterns i [] m = m
add_patterns i (p ∷ ps) m = add_patterns (suc i) ps (add_pattern i p m)

-- the inner loop of the search for a link and of `Match`, on fuel
unfoldable pub follow : (ℕ → Option ℕ) → (ℕ → ℕ) → ℕ → ℕ → ℕ
follow child fail zero f = f
follow child fail (suc fuel) f = elim (child f) [
  | some n ↦ n
  | none ↦ let deeper = follow child fail fuel (fail f) in if f == 0 then 0 else deeper
]

-- n, ok := m.nodes[f].next[b]; ok && n != child
abbrev pub other_than : ℕ → Option ℕ → Option ℕ
other_than child none = none
other_than child (some n) = if n == child then none else some n

abbrev pub candidate : Matcher → ℕ → ℕ → ℕ → Option ℕ
candidate m b child f = other_than child (m.next f b)

-- `m.nodes[child].fail = f`, and the outputs of `f` after those of the child
abbrev pub link : ℕ → ℕ → Matcher → Matcher
link child f m = record m {
  fail = update m.fail child f;
  out = update m.out child (m.out child ++ m.out f);
}

-- the entries of a node's map, in the order of the walk
unfoldable pub edges : (ℕ → Option ℕ) → List ℕ → List (ℕ × ℕ)
edges next [] = []
edges next (b ∷ bs) =
    let rest = edges next bs in elim (next b) [ none ↦ rest | some c ↦ (b, c) ∷ rest ]

-- the children of the root
unfoldable pub root_links : List (ℕ × ℕ) → Matcher → List ℕ → Matcher × List ℕ
root_links [] m queue = (m, queue)
root_links ((b, child) ∷ es) m queue =
    root_links es (record m { fail = update m.fail child 0 }) (queue ++ (child ∷ []))

-- the children of a node that has left the queue
unfoldable pub visit : ℕ → List (ℕ × ℕ) → Matcher → List ℕ → Matcher × List ℕ
visit cur [] m queue = (m, queue)
visit cur ((b, child) ∷ es) m queue =
    visit cur es (link child (follow (candidate m b child) m.fail m.size (m.fail cur)) m)
      (queue ++ (child ∷ []))

abbrev pub sum_children : (ℕ → ℕ) → List (ℕ × ℕ) → ℕ
sum_children f [] = 0
sum_children f ((b, c) ∷ es) = f c + sum_children f es

module _ (order : ℕ → List ℕ) where
  -- the loop over the queue, on fuel
  unfoldable pub links : ℕ → Matcher → List ℕ → Matcher
  links zero m queue = m
  links (suc fuel) m [] = m
  links (suc fuel) m (cur ∷ queue) =
      let after = visit cur (edges (m.next cur) (order cur)) m queue in links fuel after.0 after.1

  -- The number of nodes under `n`, itself included, down to a depth: the fuel of the loop
  unfoldable pub under : (ℕ → ℕ → Option ℕ) → ℕ → ℕ → ℕ
  under next zero n = 0
  under next (suc depth) n = suc (sum_children (under next depth) (edges (next n) (order n)))

  abbrev pub build_links : Matcher → Matcher
  build_links m =
      let roots = root_links (edges (m.next 0) (order 0)) m [] in
      links (under m.next m.size 0) roots.0 roots.1

  -- `newMatcher`
  unfoldable pub new_matcher : List Bytes → Matcher
  unfolding links
  new_matcher patterns = build_links (add_patterns 0 patterns empty_matcher)

-- `found` and `seen`
pub record Found : Type 0 where
  pub found : List ℕ
  pub seen : ℕ → Bool

abbrev pub collect_one : ℕ → Found → Found
collect_one p s =
    if s.seen p then s else record { found = s.found ++ (p ∷ []); seen = update s.seen p true }

unfoldable pub collect : List ℕ → Found → Found
collect [] s = s
collect (p ∷ ps) s = collect ps (collect_one p s)

-- the loop over the text
unfoldable pub scan : Matcher → Bytes → ℕ → Found → Found
unfolding follow collect
scan m [] cur s = s
scan m (b ∷ text) cur s =
    let at = follow (λ f. m.next f b) m.fail m.size cur in scan m text at (collect (m.out at) s)

-- `Match`
unfoldable pub match_all : Matcher → Bytes → List ℕ
unfolding scan
match_all m text =
    if leb m.size 1 then [] else (scan m text 0 (record { found = []; seen = λ p. false })).found
