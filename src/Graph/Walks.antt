-- ===== src/Graph/Walks.antt =====
-- The traversal finds the memories of the edges at the keys that its rounds reach, and no other.
use nextral.Base.{
  ℕ, zero, suc, ◌≡◌, arith, ◌⊎◌, inl, inr, true, ◌<◌, ◌+◌, String, List, [], contains, is_empty,
  Bool-cases, string_eq,
}
use nextral.Graph.Records.{GraphEdge}
use nextral.Graph.Traversal.{extend_keys, Round, scan, hops}
use nextral.Graph.Reach.{cites, Near, hop, scan-next_keys, scan-ids, leads→linked, evidence→cites}

module _ (tenant user : String) (allowed : List String) (edges : List GraphEdge)
    (seeds : List String) where
  abbrev pub Found : ℕ → String → Type 0
  Found limit id =
      (contains allowed id ≡ true)
      × (m : ℕ) × (k : String) × (m < limit)
      × Near tenant user edges seeds m k
      × (cites tenant user edges k id ≡ true)

  -- What the round before the next ones finds.
  abbrev pub round : List String → List String → List String → Round
  round current visited ids =
      scan tenant user allowed current visited (record { next_keys = []; ids = ids }) edges

  round-ids :
      (d n : ℕ) (current visited ids : List String) (id : String)
      → ((k : String) → contains current k ≡ true → Near tenant user edges seeds d k)
      → contains (round current visited ids).ids id ≡ true
      → (contains ids id ≡ true) ⊎ Found (d + suc n) id
  round-ids d n current visited ids id near h = elim (Bool-cases (contains ids id)) [
    | inl before ↦ inl before
    | inr new ↦
        let found =
          scan-ids tenant user allowed current visited (record { next_keys = []; ids = ids }) edges
            id in
        let (k, mine, cited) =
          evidence→cites tenant user allowed current visited edges id (ground (arith, found)) in
        inr (ground (arith, found), d, k, omega arith, near k mine, cited)
  ]

  round-Near :
      (d : ℕ) (current visited ids : List String) (k : String)
      → ((j : String) → contains current j ≡ true → Near tenant user edges seeds d j)
      → contains (round current visited ids).next_keys k ≡ true
      → Near tenant user edges seeds (suc d) k
  round-Near d current visited ids k near h =
      let found =
        scan-next_keys tenant user allowed current visited (record { next_keys = []; ids = ids })
          edges k in
      let (j, mine, joined) =
        leads→linked tenant user allowed current visited edges k (ground (arith, found)) in
      hop (near j mine) joined

  -- What the rounds find comes from an edge at a key in reach.
  pub hops_sound :
      (n d : ℕ) (current visited ids : List String) (id : String)
      → ((k : String) → contains current k ≡ true → Near tenant user edges seeds d k)
      → contains (hops tenant user allowed edges n current visited ids) id ≡ true
      → (contains ids id ≡ true) ⊎ Found (d + n) id
  unfolding hops
  hops_sound zero d current visited ids id near h = inl h
  hops_sound (suc n) d current visited ids id near h =
      let found = round current visited ids in
      elim (Bool-cases (is_empty found.next_keys)) [
        | inl last ↦ round-ids d n current visited ids id near (ground arith)
        | inr more ↦
            let later =
              hops_sound n (suc d) found.next_keys (extend_keys visited found.next_keys) found.ids
                id (λ k. round-Near d current visited ids k near) (ground arith) in
            elim later [
              | inl here ↦ round-ids d n current visited ids id near here
              | inr (seen, m, k, below, walk, cited) ↦ inr (seen, m, k, omega arith, walk, cited)
            ]
      ]
