-- ===== src/Graph/Following.antt =====
-- The rounds follow every edge at a key in reach.
use nextral.Base.{
  ℕ, zero, suc, ◌≡◌, refl, arith, ◌⊎◌, inl, inr, true, false, ◌&&◌, ◌||◌, ◌<◌, ◌≤◌, ◌+◌, String,
  List, [], ◌∷◌, any, contains, is_empty, Bool-cases, string_eq,
}
use nextral.Graph.Records.{GraphEdge}
use nextral.Graph.Traversal.{extend_keys, hops}
use nextral.Graph.Reach.{
  contains-extend_keys, linked, cites, Near, seed, hop, leads, evidence, scan-next_keys, scan-ids,
  linked→leads, cites→evidence,
}
use nextral.Graph.Walks.{round}

contains-empty : (keys : List String) (k : String) → is_empty keys ≡ true → contains keys k ≡ false
contains-empty [] k h = refl
contains-empty (x ∷ keys) k h = cc

module _ (tenant user : String) (allowed : List String) (edges : List GraphEdge)
    (seeds : List String) where
  -- The edges at the key have been followed: their memories are found and their other ends visited.
  pub record Followed (visited ids : List String) (k : String) : Type 0 where
    pub cited :
        (id : String)
        → contains allowed id ≡ true
        → cites tenant user edges k id ≡ true
        → contains ids id ≡ true
    pub ends : (b : String) → linked tenant user edges k b ≡ true → contains visited b ≡ true

  -- Before the round `d`, what was visited is being followed or was, as was all that is nearer.
  pub record Progress (d : ℕ) (current visited ids : List String) : Type 0 where
    pub begun : (k : String) → contains seeds k ≡ true → contains visited k ≡ true
    pub open_or_followed :
        (k : String)
        → contains visited k ≡ true
        → (contains current k ≡ true) ⊎ Followed visited ids k
    pub nearer :
        (m : ℕ) (k : String) → m < d → Near tenant user edges seeds m k → Followed visited ids k

  visited-Near :
      (d : ℕ) (current visited ids : List String) (m : ℕ) (k : String)
      → Progress d current visited ids
      → m ≤ d
      → Near tenant user edges seeds m k
      → contains visited k ≡ true
  visited-Near d current visited ids m k progress small (seed start) = progress.begun k start
  visited-Near d current visited ids (suc m) k progress small (hop {a} walk joined) =
      (progress.nearer m a (omega arith) walk).ends k joined

  module _ (current visited ids : List String) where
    abbrev next_visited : List String
    next_visited =
        extend_keys visited (round tenant user allowed edges seeds current visited ids).next_keys

    visited-round :
        (b : String)
        → contains next_visited b
          ≡ (contains visited b || any (leads tenant user allowed current visited b) edges)
    visited-round b = ground (
      arith,
      contains-extend_keys visited
          (round tenant user allowed edges seeds current visited ids).next_keys b,
      scan-next_keys tenant user allowed current visited (record { next_keys = []; ids = ids })
          edges b,
    )

    ids-round :
        (id : String)
        → contains (round tenant user allowed edges seeds current visited ids).ids id ≡ (
            contains ids id
            || contains allowed id && any (evidence tenant user allowed current visited id) edges)
    ids-round id =
        scan-ids tenant user allowed current visited (record { next_keys = []; ids = ids }) edges id

    -- A round follows the present keys and keeps followed what was.
    Followed-round :
        (k : String)
        → (contains current k ≡ true) ⊎ Followed visited ids k
        → Followed next_visited (round tenant user allowed edges seeds current visited ids).ids k
    Followed-round k (inl mine) = record {
      cited = λ id seen there. ground (
        arith,
        ids-round id,
        cites→evidence tenant user allowed current visited edges k id mine there,
      );
      ends = λ b joined. ground (
        arith,
        visited-round b,
        linked→leads tenant user allowed current visited edges k b mine joined,
      );
    }
    Followed-round k (inr before) = record {
      cited = λ id seen there. ground (arith, ids-round id, before.cited id seen there);
      ends = λ b joined. ground (arith, visited-round b, before.ends b joined);
    }

    Progress-round :
        (d : ℕ)
        → Progress d current visited ids
        → Progress
            (suc d)
            (round tenant user allowed edges seeds current visited ids).next_keys
            next_visited
            (round tenant user allowed edges seeds current visited ids).ids
    Progress-round d progress = record {
      begun = λ k start. ground (arith, visited-round k, progress.begun k start);
      open_or_followed = λ k there. elim (Bool-cases (contains visited k)) [
        | inl before ↦ inr (Followed-round k (progress.open_or_followed k before))
        | inr new ↦ inl (
            ground (
              arith,
              contains-extend_keys visited
                  (round tenant user allowed edges seeds current visited ids).next_keys k,
            ))
      ];
      nearer = λ m k small walk. Followed-round k (
          progress.open_or_followed k
            (visited-Near d current visited ids m k progress (omega arith) walk));
    }

    -- Where a round finds no key, all that is in reach was followed.
    visited-last :
        (d : ℕ)
        → Progress d current visited ids
        → is_empty (round tenant user allowed edges seeds current visited ids).next_keys ≡ true
        → (m : ℕ) (k : String) → Near tenant user edges seeds m k
        → contains visited k ≡ true
    visited-last d progress last m k (seed start) = progress.begun k start
    visited-last d progress last (suc m) k (hop {a} walk joined) =
        let there = visited-last d progress last m a walk in
        let followed = Followed-round a (progress.open_or_followed a there) in
        ground (
          arith,
          followed.ends k joined,
          contains-extend_keys visited
              (round tenant user allowed edges seeds current visited ids).next_keys k,
          contains-empty (round tenant user allowed edges seeds current visited ids).next_keys k,
        )

  -- The rounds find every visible memory of an edge at a key in reach.
  pub hops_complete :
      (n d : ℕ) (current visited ids : List String) (m : ℕ) (k id : String)
      → Progress d current visited ids
      → m < d + n
      → Near tenant user edges seeds m k
      → contains allowed id ≡ true
      → cites tenant user edges k id ≡ true
      → contains (hops tenant user allowed edges n current visited ids) id ≡ true
  unfolding hops
  hops_complete zero d current visited ids m k id progress below walk seen there =
      (progress.nearer m k (omega arith) walk).cited id seen there
  hops_complete (suc n) d current visited ids m k id progress below walk seen there =
      let found = round tenant user allowed edges seeds current visited ids in
      elim (Bool-cases (is_empty found.next_keys)) [
        | inl last ↦
            let kept = visited-last current visited ids d progress last m k walk in
            let followed =
              Followed-round current visited ids k (progress.open_or_followed k kept) in
            ground (arith, followed.cited id seen there)
        | inr more ↦
            let later =
              hops_complete n (suc d) found.next_keys (next_visited current visited ids) found.ids m
                k id (Progress-round current visited ids d progress) (omega arith) walk seen
                there in
            ground arith
      ]
