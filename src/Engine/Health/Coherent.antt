-- ===== src/Engine/Health/Coherent.antt =====
-- internal/engine/manager.go and internal/rpc/client.go: the instance and rpc.Mgr agree on the nodes.
use pokemon_simulator_server.Base.{
  ℕ, ◌≡◌, refl, sym, ◌∙◌, ap, ap₂, subst, String, true, false, Option, none, some, ℤ, int_eq,
  int_eq_iff, integer_eq, Map, lookup, insert, erase, lookup-insert, lookup-erase, All, All-insert,
  All-erase, All-lookup, Bool-cases, Option-cases, inl, inr, if◌then◌else◌,
}
use pokemon_simulator_server.Engine.Node.{EngineNode, is_connected}
use pokemon_simulator_server.Rpc.Ring.{
  CppNode, NodeManager, register_node, remove_node, removed, rebuild_ring,
}
use pokemon_simulator_server.Rpc.Ring.Laws.{IsRing, register_node-IsRing, remove_node-IsRing}

-- What rpc.Mgr holds for a node of the instance: its address and its client, under its index.
unfoldable pub entry_at : ℤ → String → Option ℕ → Option CppNode
entry_at i addr none = none
entry_at i addr (some client) = some (record { id = i; addr = addr; client = client })

unfoldable pub entry_of : ℤ → Option EngineNode → Option CppNode
unfolding entry_at
entry_of i none = none
entry_of i (some n) = entry_at i n.addr n.client

-- Every node of the instance stands under its own index and is connected; the ring is whole; and
-- rpc.Mgr holds exactly the nodes of the instance, each with the instance's address and client.
pub record IsCoherent (nodes : Map ℤ EngineNode) (mgr : NodeManager) : Type 0 where
  pub named : All (λ (p : ℤ × EngineNode). p.1.pod_index ≡ p.0) nodes
  pub connected : All (λ (p : ℤ × EngineNode). is_connected p.1 ≡ true) nodes
  pub ring : IsRing mgr
  pub agrees : (i : ℤ) → lookup i mgr.nodes ≡ entry_of i (lookup i nodes)

-- A node that has changed in nothing that rpc.Mgr knows of.
pub record SameLink (n m : EngineNode) : Type 0 where
  pub same_index : m.pod_index ≡ n.pod_index
  pub same_addr : m.addr ≡ n.addr
  pub same_client : m.client ≡ n.client
  pub same_conn : m.conn ≡ n.conn

entry_of-SameLink :
    (i : ℤ) (n m : EngineNode) → SameLink n m → entry_of i (some m) ≡ entry_of i (some n)
unfolding entry_of
entry_of-SameLink i n m l = ap₂ (entry_at i) l.same_addr l.same_client

is_connected-SameLink : (n m : EngineNode) → SameLink n m → is_connected m ≡ is_connected n
unfolding is_connected
is_connected-SameLink n m l = rw (l.same_client, l.same_conn) refl

lookup-insert_hit :
    (i j : ℤ) (n : EngineNode) (nodes : Map ℤ EngineNode)
    → int_eq i j ≡ true
    → lookup j (insert i n nodes) ≡ some n
lookup-insert_hit i j n nodes hit = lookup-insert i j n nodes ∙ rw hit refl

lookup-insert_miss :
    (i j : ℤ) (n : EngineNode) (nodes : Map ℤ EngineNode)
    → int_eq i j ≡ false
    → lookup j (insert i n nodes) ≡ lookup j nodes
lookup-insert_miss i j n nodes miss = lookup-insert i j n nodes ∙ rw miss refl

lookup-erase_hit :
    (i j : ℤ) (nodes : Map ℤ EngineNode) → int_eq i j ≡ true → lookup j (erase i nodes) ≡ none
lookup-erase_hit i j nodes hit = lookup-erase i j nodes ∙ rw hit refl

lookup-erase_miss :
    (i j : ℤ) (nodes : Map ℤ EngineNode)
    → int_eq i j ≡ false
    → lookup j (erase i nodes) ≡ lookup j nodes
lookup-erase_miss i j nodes miss = lookup-erase i j nodes ∙ rw miss refl

entry-insert :
    (i j : ℤ) (n : EngineNode) (nodes : Map ℤ EngineNode)
    → entry_of j (lookup j (insert i n nodes))
      ≡ (if int_eq i j then entry_of i (some n) else entry_of j (lookup j nodes))
entry-insert i j n nodes = elim (Bool-cases (int_eq i j)) [
  | inl hit ↦ rw hit (
      ap (entry_of j) (lookup-insert_hit i j n nodes hit)
      ∙ ap (λ k. entry_of k (some n)) (sym ((int_eq_iff i j).0 hit)))
  | inr miss ↦ rw miss (ap (entry_of j) (lookup-insert_miss i j n nodes miss))
]

-- Writing such a node under its index.
pub put-IsCoherent :
    (i : ℤ) (n m : EngineNode) (nodes : Map ℤ EngineNode) (mgr : NodeManager)
    → lookup i nodes ≡ some n
    → SameLink n m
    → IsCoherent nodes mgr
    → IsCoherent (insert i m nodes) mgr
put-IsCoherent i n m nodes mgr q l w = record {
  named =
      All-insert _ i m nodes (λ j e. l.same_index ∙ All-lookup _ i nodes w.named q ∙ sym e) w.named;
  connected =
      All-insert _ i m nodes
        (λ j e. is_connected-SameLink n m l ∙ All-lookup _ i nodes w.connected q) w.connected;
  ring = w.ring;
  agrees = λ j. elim (Bool-cases (int_eq i j)) [
    | inr miss ↦ w.agrees j ∙ sym (entry-insert i j m nodes ∙ rw miss refl)
    | inl hit ↦
        ap (λ k. lookup k mgr.nodes) (sym ((int_eq_iff i j).0 hit))
        ∙ w.agrees i
        ∙ ap (entry_of i) q
        ∙ sym (entry_of-SameLink i n m l)
        ∙ sym (entry-insert i j m nodes ∙ rw hit refl)
  ];
}

-- Registering a connected node with rpc.Mgr and storing it.
pub register-IsCoherent :
    (crc32 : String → ℕ) (i : ℤ) (m : EngineNode) (addr : String) (client : ℕ)
    (nodes : Map ℤ EngineNode) (mgr : NodeManager)
    → m.pod_index ≡ i
    → is_connected m ≡ true
    → entry_of i (some m) ≡ some (record { id = i; addr = addr; client = client })
    → IsCoherent nodes mgr
    → IsCoherent (insert i m nodes) (register_node crc32 mgr i addr client)
unfolding register_node rebuild_ring
register-IsCoherent crc32 i m addr client nodes mgr own linked entry w = record {
  named = All-insert _ i m nodes (λ j e. own ∙ sym e) w.named;
  connected = All-insert _ i m nodes (λ j e. linked) w.connected;
  ring = register_node-IsRing crc32 mgr i addr client w.ring;
  agrees = λ j. lookup-insert i j _ mgr.nodes ∙ elim (Bool-cases (int_eq i j)) [
    | inr miss ↦ rw miss (w.agrees j ∙ sym (entry-insert i j m nodes ∙ rw miss refl))
    | inl hit ↦ rw hit (sym entry ∙ sym (entry-insert i j m nodes ∙ rw hit refl))
  ];
}

-- RemoveNode takes away this node, known or not, and no other.
pub lookup-remove_node :
    (crc32 : String → ℕ) (m : NodeManager) (i j : ℤ)
    → lookup j (remove_node crc32 m i).nodes ≡ (if int_eq i j then none else lookup j m.nodes)
unfolding remove_node removed rebuild_ring
lookup-remove_node crc32 m i j = elim (Option-cases (lookup i m.nodes)) [
  | inr (n, q) ↦ rw (q, removed) (lookup-erase i j m.nodes)
  | inl q ↦
      rw (q, removed)
        (elim (Bool-cases (int_eq i j)) [
          | inl hit ↦ rw hit (subst (λ k. lookup k m.nodes ≡ none) ((int_eq_iff i j).0 hit) q)
          | inr miss ↦ rw miss refl
        ])
]

-- Removing a node from both.
pub remove-IsCoherent :
    (crc32 : String → ℕ) (i : ℤ) (nodes : Map ℤ EngineNode) (mgr : NodeManager)
    → IsCoherent nodes mgr
    → IsCoherent (erase i nodes) (remove_node crc32 mgr i)
unfolding entry_of
remove-IsCoherent crc32 i nodes mgr w = record {
  named = All-erase _ i nodes w.named;
  connected = All-erase _ i nodes w.connected;
  ring = remove_node-IsRing crc32 mgr i w.ring;
  agrees = λ j. lookup-remove_node crc32 mgr i j ∙ elim (Bool-cases (int_eq i j)) [
    | inl hit ↦ rw hit (sym (ap (entry_of j) (lookup-erase_hit i j nodes hit)))
    | inr miss ↦ rw miss (w.agrees j ∙ sym (ap (entry_of j) (lookup-erase_miss i j nodes miss)))
  ];
}
