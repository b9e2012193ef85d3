-- ===== src/Graph/Reach.antt =====
-- The rounds of the traversal reach what a walk from the seeds reaches.
use nextral.Base.{
  ℕ, suc, ◌≡◌, arith, inl, inr, Bool, true, not, ◌&&◌, ◌||◌, String, List, [], ◌∷◌, any,
  any_witness, retain, contains, contains-append, contains-retain, Bool-cases, ◌==◌, string_eq,
  str_iff,
}
use nextral.Graph.Records.{GraphEdge}
use nextral.Graph.Traversal.{
  insert_key, extend_keys, Round, in_scope, touches, offer, explore, scan,
}

pub contains-insert_key :
    (keys : List String) (key k : String)
    → contains (insert_key keys key) k ≡ (contains keys k || key == k)
contains-insert_key keys key k = ground (arith, str_iff key k)

pub contains-extend_keys :
    (keys more : List String) (k : String)
    → contains (extend_keys keys more) k ≡ (contains keys k || contains more k)
unfolding extend_keys
contains-extend_keys keys [] k = ground arith
contains-extend_keys keys (m ∷ more) k =
    ground (arith, contains-extend_keys (insert_key keys m) more k, contains-insert_key keys m k)

module _ (tenant user : String) where
  abbrev pub joins : String → String → GraphEdge → Bool
  joins a b edge =
      in_scope tenant user edge
      && (edge.from_key == a && edge.to_key == b || edge.to_key == a && edge.from_key == b)

  abbrev pub cites_at : String → String → GraphEdge → Bool
  cites_at key id edge =
      in_scope tenant user edge
      && (edge.from_key == key || edge.to_key == key)
      && contains edge.source_memory_ids id

  module _ (edges : List GraphEdge) where
    -- An edge of the scope joins the two keys, in whichever direction.
    abbrev pub linked : String → String → Bool
    linked a b = any (joins a b) edges

    -- An edge of the scope at the key comes from the memory.
    abbrev pub cites : String → String → Bool
    cites key id = any (cites_at key id) edges

    -- The keys that a walk of at most so many edges reaches from a seed.
    pub data Near (seeds : List String) : ℕ → String → Type 0 where
      seed : {n : ℕ} {k : String} → contains seeds k ≡ true → Near seeds n k
      hop : {n : ℕ} {a b : String} → Near seeds n a → linked a b ≡ true → Near seeds (suc n) b

module _ (tenant user : String) (allowed : List String) (current visited : List String) where
  abbrev pub leads : String → GraphEdge → Bool
  leads b edge =
      in_scope tenant user edge
      && (contains current edge.from_key && edge.to_key == b
          || contains current edge.to_key && edge.from_key == b)

  abbrev pub evidence : String → GraphEdge → Bool
  evidence id edge =
      in_scope tenant user edge && touches current edge && contains edge.source_memory_ids id

  contains-offer :
      (matched : Bool) (key : String) (next : List String) (b : String)
      → contains (offer visited matched key next) b
        ≡ (contains next b || matched && not (contains visited b) && key == b)
  contains-offer matched key next b = ground (arith, contains-insert_key next key b, str_iff key b)

  contains-explore :
      (found : Round) (edge : GraphEdge) (b : String)
      → contains (explore tenant user allowed current visited found edge).next_keys b
        ≡ (contains found.next_keys b || not (contains visited b) && leads b edge)
  contains-explore found edge b = ground (
    arith,
    contains-offer (contains current edge.from_key) edge.to_key found.next_keys b,
    contains-offer (contains current edge.to_key) edge.from_key
        (offer visited (contains current edge.from_key) edge.to_key found.next_keys) b,
  )

  -- A round finds the keys that were not visited and are joined to one of the present keys.
  pub scan-next_keys :
      (found : Round) (es : List GraphEdge) (b : String)
      → contains (scan tenant user allowed current visited found es).next_keys b
        ≡ (contains found.next_keys b || not (contains visited b) && any (leads b) es)
  unfolding scan
  scan-next_keys found [] b = ground arith
  scan-next_keys found (edge ∷ es) b = ground (
    arith,
    contains-explore found edge b,
    scan-next_keys (explore tenant user allowed current visited found edge) es b,
  )

  explore-ids :
      (found : Round) (edge : GraphEdge) (id : String)
      → contains (explore tenant user allowed current visited found edge).ids id
        ≡ (contains found.ids id || contains allowed id && evidence id edge)
  explore-ids found edge id = ground (
    arith,
    contains-append found.ids (retain (contains allowed) edge.source_memory_ids) id,
    contains-retain (contains allowed) edge.source_memory_ids id,
  )

  -- A round finds the visible memories of the edges at the present keys.
  pub scan-ids :
      (found : Round) (es : List GraphEdge) (id : String)
      → contains (scan tenant user allowed current visited found es).ids id
        ≡ (contains found.ids id || contains allowed id && any (evidence id) es)
  unfolding scan
  scan-ids found [] id = ground arith
  scan-ids found (edge ∷ es) id = ground (
    arith,
    explore-ids found edge id,
    scan-ids (explore tenant user allowed current visited found edge) es id,
  )

  module _ (edges : List GraphEdge) where
    pub leads→linked :
        (b : String)
        → any (leads b) edges ≡ true
        → (a : String) × (contains current a ≡ true) × (linked tenant user edges a b ≡ true)
    leads→linked b h =
        let (edge, meets, there) = any_witness (leads b) edges h in
        elim (Bool-cases (contains current edge.from_key && edge.to_key == b)) [
          | inl forward ↦ (
            edge.from_key,
            ground arith,
            there (joins tenant user edge.from_key b)
                (ground (arith, str_iff edge.from_key edge.from_key)),
          )
          | inr other ↦ (
            edge.to_key,
            ground arith,
            there (joins tenant user edge.to_key b)
                (ground (arith, str_iff edge.to_key edge.to_key)),
          )
        ]

    pub linked→leads :
        (a b : String)
        → contains current a ≡ true
        → linked tenant user edges a b ≡ true
        → any (leads b) edges ≡ true
    linked→leads a b mine h =
        let (edge, meets, there) = any_witness (joins tenant user a b) edges h in
        there (leads b) (ground (arith, str_iff edge.from_key a, str_iff edge.to_key a))

    pub evidence→cites :
        (id : String)
        → any (evidence id) edges ≡ true
        → (a : String) × (contains current a ≡ true) × (cites tenant user edges a id ≡ true)
    evidence→cites id h =
        let (edge, meets, there) = any_witness (evidence id) edges h in
        elim (Bool-cases (contains current edge.from_key)) [
          | inl forward ↦ (
            edge.from_key,
            forward,
            there (cites_at tenant user edge.from_key id)
                (ground (arith, str_iff edge.from_key edge.from_key)),
          )
          | inr other ↦ (
            edge.to_key,
            ground arith,
            there (cites_at tenant user edge.to_key id)
                (ground (arith, str_iff edge.to_key edge.to_key)),
          )
        ]

    pub cites→evidence :
        (a id : String)
        → contains current a ≡ true
        → cites tenant user edges a id ≡ true
        → any (evidence id) edges ≡ true
    cites→evidence a id mine h =
        let (edge, meets, there) = any_witness (cites_at tenant user a id) edges h in
        there (evidence id) (ground (arith, str_iff edge.from_key a, str_iff edge.to_key a))
