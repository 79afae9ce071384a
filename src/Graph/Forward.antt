-- ===== src/Graph/Forward.antt =====
-- Graphs whose nodes lead on to later nodes, as the built-in ones of src/brain/graph/graph.types.ts.
use zxql_ai.Prelude.{
  ℕ, suc, ◌≤◌, ◌<◌, String, Bool, true, false, not, ◌&&◌, ◌||◌, some, List, [], ◌∷◌, ◌≡◌, refl, sym,
  subst, inl, inr, arith, if◌then◌else◌, ◌==◌, string_eq, str_eq_iff, Bool-cases, any, length,
}
use zxql_ai.Graph.{GraphNodeType, agent, tool, condition, end, GraphNode}
use zxql_ai.Graph.Agent.{or_else}
use zxql_ai.Graph.Nodes.{find_node}

abbrev pub has_node : String → List GraphNode → Bool
has_node id nodes = any (λ (n : GraphNode). n.id == id) nodes

abbrev pub target : GraphNode → String
target node = or_else node.next "end"

abbrev pub is_end : GraphNodeType → Bool
is_end end = true
is_end agent = false
is_end tool = false
is_end condition = false

abbrev pub is_condition : GraphNodeType → Bool
is_condition condition = true
is_condition end = false
is_condition agent = false
is_condition tool = false

-- Each node but an `end` leads to a node after it, none computes its next node, and ids differ.
abbrev pub is_forward : List GraphNode → Bool
is_forward [] = true
is_forward (n ∷ ns) =
    not (has_node n.id ns)
    && ((is_end n.node_type || (not (is_condition n.node_type) && has_node (target n) ns))
        && is_forward ns)

-- The number of nodes from that with the id on.
abbrev pub rank : String → List GraphNode → ℕ
rank id [] = 0
rank id (n ∷ ns) = if n.id == id then suc (length ns) else rank id ns

pub rank-length : (id : String) (ns : List GraphNode) → rank id ns ≤ length ns
rank-length id [] = omega arith
rank-length id (n ∷ ns) = let ih = rank-length id ns in ground (arith, ih)

pub rank-has_node : (id : String) (ns : List GraphNode) → has_node id ns ≡ true → 0 < rank id ns
rank-has_node id [] h = ground (arith, h)
rank-has_node id (n ∷ ns) h = elim (Bool-cases (n.id == id)) [
  | inl e ↦ ground (arith, e)
  | inr e ↦ let ih = rank-has_node id ns (ground (arith, h, e)) in ground (arith, e, ih)
]

has_node-rank : (id : String) (ns : List GraphNode) → has_node id ns ≡ false → rank id ns ≡ 0
has_node-rank id [] h = refl
has_node-rank id (n ∷ ns) h = elim (Bool-cases (n.id == id)) [
  | inl e ↦ ground (arith, h, e)
  | inr e ↦ let ih = has_node-rank id ns (ground (arith, h, e)) in ground (arith, e, ih)
]

pub find_node-rank :
    (id : String) (ns : List GraphNode)
    → 0 < rank id ns
    → (node : GraphNode) × (find_node id ns ≡ some node)
find_node-rank id [] h = ground (arith, h)
find_node-rank id (n ∷ ns) h = elim (Bool-cases (n.id == id)) [
  | inl e ↦ (n, rw e refl)
  | inr e ↦ rw e (find_node-rank id ns (ground (arith, h, e)))
]

-- A node before an id that is there.
rank-later :
    (n : GraphNode) (ns : List GraphNode) (id : String)
    → has_node n.id ns ≡ false
    → 0 < rank id ns
    → rank id (n ∷ ns) ≡ rank id ns
rank-later n ns id h p = elim (Bool-cases (n.id == id)) [
  | inl e ↦
      let same : n.id ≡ id = (str_eq_iff n.id id).0 e in
      let gone : rank id ns ≡ 0 =
        has_node-rank id ns (subst (λ (i : String). has_node i ns ≡ false) same h) in
      ground (arith, gone, p)
  | inr e ↦ ground (arith, e)
]

rank-target_head :
    (n : GraphNode) (ns : List GraphNode)
    → is_forward (n ∷ ns) ≡ true
    → is_end n.node_type ≡ false
    → (0 < rank (target n) (n ∷ ns))
      × (rank (target n) (n ∷ ns) < suc (length ns))
      × (is_condition n.node_type ≡ false)
rank-target_head n ns f k =
    let unique : has_node n.id ns ≡ false = ground (arith, f) in
    let there : has_node (target n) ns ≡ true = ground (arith, f, k) in
    let plain : is_condition n.node_type ≡ false = ground (arith, f, k) in
    let positive : 0 < rank (target n) ns = rank-has_node (target n) ns there in
    let bound : rank (target n) ns ≤ length ns = rank-length (target n) ns in
    let e : rank (target n) (n ∷ ns) ≡ rank (target n) ns =
      rank-later n ns (target n) unique positive in
    (rw e positive, rw e (omega (arith, bound)), plain)

-- In a forward graph the next node is there and is nearer to the last one.
pub rank-target :
    (ns : List GraphNode) (id : String) (node : GraphNode)
    → is_forward ns ≡ true
    → find_node id ns ≡ some node
    → is_end node.node_type ≡ false
    → (0 < rank (target node) ns)
      × (rank (target node) ns < rank id ns)
      × (is_condition node.node_type ≡ false)
rank-target [] id node f h k = ground (arith, h)
rank-target (n ∷ ns) id node f h k = elim (Bool-cases (n.id == id)) [
  | inl e ↦
      let same : n ≡ node = ground (arith, h, e) in
      let top : rank id (n ∷ ns) ≡ suc (length ns) = ground (arith, e) in
      let all =
        rank-target_head n ns f
          (subst (λ (m : GraphNode). is_end m.node_type ≡ false) (sym same) k) in
      subst
        (λ (m : GraphNode).
          (0 < rank (target m) (n ∷ ns))
          × (rank (target m) (n ∷ ns) < rank id (n ∷ ns))
          × (is_condition m.node_type ≡ false))
        same (rw top all)
  | inr e ↦
      let unique : has_node n.id ns ≡ false = ground (arith, f) in
      let (p, q, c) = rank-target ns id node (ground (arith, f)) (ground (arith, h, e)) k in
      let here : rank (target node) (n ∷ ns) ≡ rank (target node) ns =
        rank-later n ns (target node) unique p in
      let there : rank id (n ∷ ns) ≡ rank id ns = ground (arith, e) in
      (rw here p, rw (here, there) q, c)
]
