-- ===== src/Graph/Answers.antt =====
-- What a traversal answers.
use nextral.Base.{
  ℕ, ◌≡◌, refl, arith, ◌↔◌, inl, inr, true, false, ◌||◌, String, List, [], ◌∷◌, contains, leb,
  is_empty_text, trim, ◌==◌, string_eq, str_iff,
}
use nextral.Kinds.{PrivacyLevel}
use nextral.Contracts.{ok}
use nextral.Memories.Store.{MemoryTables}
use nextral.Graph.Records.{GraphNode}
use nextral.Graph.{Unicode}
use nextral.Graph.Traversal.{
  insert_text, sort_texts, dedup_after, dedup_texts, allowed_memory_ids, seed_keys, hops,
  graph_memory_ids,
}
use nextral.Graph.Reach.{seed}
use nextral.Graph.Walks.{Found, hops_sound}
use nextral.Graph.Following.{Progress, hops_complete}

contains-insert_text :
    (x : String) (ys : List String) (k : String)
    → contains (insert_text x ys) k ≡ (x == k || contains ys k)
unfolding insert_text
contains-insert_text x [] k = refl
contains-insert_text x (y ∷ ys) k = ground (arith, contains-insert_text x ys k)

contains-sort_texts : (xs : List String) (k : String) → contains (sort_texts xs) k ≡ contains xs k
unfolding sort_texts
contains-sort_texts [] k = refl
contains-sort_texts (x ∷ xs) k =
    ground (arith, contains-insert_text x (sort_texts xs) k, contains-sort_texts xs k)

contains-dedup_after :
    (last : String) (xs : List String) (k : String)
    → (last == k || contains (dedup_after last xs) k) ≡ (last == k || contains xs k)
unfolding dedup_after
contains-dedup_after last [] k = refl
contains-dedup_after last (x ∷ xs) k = ground (
  arith,
  str_iff last x,
  str_iff last k,
  str_iff x k,
  contains-dedup_after last xs k,
  contains-dedup_after x xs k,
)

contains-dedup_texts : (xs : List String) (k : String) → contains (dedup_texts xs) k ≡ contains xs k
unfolding dedup_texts
contains-dedup_texts [] k = refl
contains-dedup_texts (x ∷ xs) k = contains-dedup_after x xs k

-- A traversal of at most ten hops for a query that is not blank succeeds, and its answer has exactly
-- the identifiers of visible memories that some edge of the scope cites at a key which a walk of fewer
-- edges than the hops reaches from a seed, a node of the scope whose name or key matches the query.
pub graph_memory_ids_lem :
    (u : Unicode) (s : MemoryTables) (nodes : List GraphNode) (tenant user query : String)
    (max_hops : ℕ) (privacy_scope : List PrivacyLevel)
    → leb max_hops 10 ≡ true
    → is_empty_text (u.to_lowercase (trim query)) ≡ false
    → (ids : List String) × (graph_memory_ids u s nodes tenant user query max_hops privacy_scope
        ≡ ok ids)
      × ((id : String)
          → (contains ids id ≡ true)
            ↔ Found tenant user
                (allowed_memory_ids s tenant user privacy_scope)
                s.graph_edges
                (seed_keys u nodes tenant user (u.to_lowercase (trim query)))
                max_hops
                id)
unfolding graph_memory_ids
graph_memory_ids_lem u s nodes tenant user query max_hops privacy_scope few asked =
    let seeds = seed_keys u nodes tenant user (u.to_lowercase (trim query)) in
    let allowed = allowed_memory_ids s tenant user privacy_scope in
    let found = hops tenant user allowed s.graph_edges max_hops seeds seeds [] in
    let start : Progress tenant user allowed s.graph_edges seeds 0 seeds seeds [] = record {
      begun = λ k there. there;
      open_or_followed = λ k there. inl there;
      nearer = λ m k below walk. absurd (omega arith);
    } in
    (
      dedup_texts (sort_texts found),
      rw (few, asked) refl,
      λ id. (
        λ there.
            elim (hops_sound tenant user allowed s.graph_edges seeds max_hops 0 seeds seeds [] id
              (λ k mine. seed mine)
              (ground (
                arith,
                contains-dedup_texts (sort_texts found) id,
                contains-sort_texts found id,
              ))) [
                | inl none_yet ↦ cc
                | inr (seen, m, k, below, walk, cited) ↦ (seen, m, k, omega arith, walk, cited)
              ],
        λ (seen, m, k, below, walk, cited). ground (
          arith,
          contains-dedup_texts (sort_texts found) id,
          contains-sort_texts found id,
          hops_complete tenant user allowed s.graph_edges seeds max_hops 0 seeds seeds [] m k id
              start (omega arith) walk seen cited,
        ),
      ),
    )
