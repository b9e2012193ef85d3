-- ===== src/Graph/Traversal.antt =====
-- testkit/mod.rs, TestMemoryStore::graph_memory_ids: the memories that the graph ties to a query.
use Prim.Native.String.{compare}
use Prim.Native.Nat.{Ordering}
use nextral.Base.{
  ℕ, zero, suc, Bool, not, ◌&&◌, ◌||◌, String, List, [], ◌∷◌, ◌++◌, map, retain, contains, is_empty,
  leb, ◌==◌, string_eq, is_empty_text, trim, contains_text, if◌then◌else◌,
}
use nextral.Kinds.{PrivacyLevel, active, privacy_eq, status_eq}
use nextral.Contracts.{CoreResult, ok, err, invalid_input}
use nextral.Memories.Records.{MemoryRecord}
use nextral.Memories.Store.{MemoryTables, protect_record}
use nextral.Graph.Records.{GraphNode, GraphEdge}
use nextral.Graph.{Unicode}

-- `HashSet::insert` on the items as a list.
abbrev pub insert_key : List String → String → List String
insert_key keys key = if contains keys key then keys else key ∷ keys

unfoldable pub extend_keys : List String → List String → List String
extend_keys keys [] = keys
extend_keys keys (key ∷ rest) = extend_keys (insert_key keys key) rest

-- `sort` and `dedup` of texts.
unfoldable pub insert_text : String → List String → List String
insert_text x [] = x ∷ []
insert_text x (y ∷ ys) =
    let rest = insert_text x ys in elim (compare x y) [ Ordering.gt ↦ y ∷ rest | _ ↦ x ∷ y ∷ ys ]

unfoldable pub sort_texts : List String → List String
unfolding insert_text
sort_texts [] = []
sort_texts (x ∷ xs) = insert_text x (sort_texts xs)

unfoldable pub dedup_after : String → List String → List String
dedup_after last [] = []
dedup_after last (x ∷ xs) =
    let same = dedup_after last xs in
    let new = dedup_after x xs in if last == x then same else x ∷ new

unfoldable pub dedup_texts : List String → List String
unfolding dedup_after
dedup_texts [] = []
dedup_texts (x ∷ xs) = x ∷ dedup_after x xs

-- What one round has found: the keys that are new and the memories of the edges.
pub record Round : Type 0 where
  pub next_keys : List String
  pub ids : List String

abbrev pub in_scope : String → String → GraphEdge → Bool
in_scope tenant user edge = edge.tenant_id == tenant && edge.user_id == user

abbrev pub touches : List String → GraphEdge → Bool
touches current edge = contains current edge.from_key || contains current edge.to_key

abbrev pub offer : List String → Bool → String → List String → List String
offer visited matched key next =
    if matched && not (contains visited key) then insert_key next key else next

module _ (tenant user : String) (allowed : List String) where
  module _ (current visited : List String) where
    abbrev pub explore : Round → GraphEdge → Round
    explore found edge =
        if in_scope tenant user edge && touches current edge
        then record {
          next_keys =
              offer visited (contains current edge.to_key) edge.from_key
                (offer visited (contains current edge.from_key) edge.to_key found.next_keys);
          ids = found.ids ++ retain (contains allowed) edge.source_memory_ids;
        }
        else found

    unfoldable pub scan : Round → List GraphEdge → Round
    scan found [] = found
    scan found (edge ∷ rest) = scan (explore found edge) rest

  -- `for _ in 0..max_hops`
  unfoldable pub hops : List GraphEdge → ℕ → List String → List String → List String → List String
  unfolding scan extend_keys
  hops edges zero current visited ids = ids
  hops edges (suc n) current visited ids =
      let found = scan current visited (record { next_keys = []; ids = ids }) edges in
      let rest = hops edges n found.next_keys (extend_keys visited found.next_keys) found.ids in
      if is_empty found.next_keys then found.ids else rest

abbrev pub is_visible_memory :
    MemoryTables → String → String → List PrivacyLevel → MemoryRecord → Bool
is_visible_memory s tenant user privacy_scope m =
    m.tenant_id == tenant
    && m.user_id == user
    && contains privacy_scope m.privacy_level
    && (protect_record s m).status == active

abbrev pub allowed_memory_ids : MemoryTables → String → String → List PrivacyLevel → List String
allowed_memory_ids s tenant user privacy_scope =
    map (λ m. m.id) (retain (is_visible_memory s tenant user privacy_scope) s.memories)

module _ (u : Unicode) where
  abbrev pub is_seed : String → String → String → GraphNode → Bool
  is_seed tenant user normalized node =
      node.tenant_id == tenant
      && node.user_id == user
      && (contains_text (u.to_lowercase node.name) normalized
          || contains_text normalized (u.to_lowercase node.name)
          || contains_text (u.to_lowercase node.key) normalized
          || contains_text normalized (u.to_lowercase node.key))

  abbrev pub seed_keys : List GraphNode → String → String → String → List String
  seed_keys nodes tenant user normalized =
      map (λ node. node.key) (retain (is_seed tenant user normalized) nodes)

  unfoldable pub graph_memory_ids :
      MemoryTables
      → List GraphNode
      → String
      → String
      → String
      → ℕ
      → List PrivacyLevel
      → CoreResult (List String)
  unfolding hops sort_texts dedup_texts
  graph_memory_ids s nodes tenant user query max_hops privacy_scope =
      let normalized = u.to_lowercase (trim query) in
      let seeds = seed_keys nodes tenant user normalized in
      if not (leb max_hops 10)
      then err (invalid_input "graph traversal exceeds 10 hops")
      else if is_empty_text normalized
      then ok []
      else ok (
          dedup_texts (
            sort_texts (
              hops tenant user (allowed_memory_ids s tenant user privacy_scope) s.graph_edges
                max_hops seeds seeds [])))
