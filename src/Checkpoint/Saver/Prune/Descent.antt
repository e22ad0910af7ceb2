-- ===== src/Checkpoint/Saver/Prune/Descent.antt =====
-- The loop over the parents ends: where a parent's identifier is below its child's, as many rounds as
-- there are checkpoints are enough.
use langgraph_runtime_inmem.Prelude.{
  ℕ, zero, suc, ◌≤◌, ◌<◌, Option, none, some, List, [], ◌∷◌, ◌≡◌, refl, Eq, nat_eq, String, leb,
  keep, length, length-keep-le, arith, Option-cases, inl, inr,
}
use langgraph_runtime_inmem.Dict.{Dict, get}
use langgraph_runtime_inmem.Checkpoint.Saver.{Payload, Entry, Checkpoints, BlobKey, Serde}
use langgraph_runtime_inmem.Checkpoint.Saver.Chain.{still_needed, parent_chain}

-- Parents are older, and identifiers grow.
abbrev pub IsDescending : Checkpoints → Type 0
IsDescending cs =
    (id parent : ℕ) (entry : Entry)
    → get id cs ≡ some entry
    → entry.parent_id ≡ some parent
    → parent < id

-- The checkpoints up to an identifier.
below : ℕ → Checkpoints → ℕ
below id cs = length (keep (λ p. leb p.0 id) cs)

below-le : (j k : ℕ) (cs : Checkpoints) → j ≤ k → below j cs ≤ below k cs
unfolding below keep
below-le j k [] h = omega arith
below-le j k ((id, w) ∷ cs) h = ground (arith, below-le j k cs)

below-lt :
    (j k : ℕ) (cs : Checkpoints) (entry : Entry)
    → get k cs ≡ some entry
    → j < k
    → below j cs < below k cs
unfolding below keep get
below-lt j k [] entry g h = cc
below-lt j k ((id, w) ∷ cs) entry g h = ground (arith, below-lt j k cs entry, below-le j k cs)

below-length : (k : ℕ) (cs : Checkpoints) → below k cs ≤ length cs
unfolding below
below-length k cs = length-keep-le _ cs

below-suc : (k : ℕ) (cs : Checkpoints) (entry : Entry) → get k cs ≡ some entry → 1 ≤ below k cs
unfolding below keep get
below-suc k [] entry g = cc
below-suc k ((id, w) ∷ cs) entry g = ground (arith, below-suc k cs entry)

-- The rounds that are left to do.
bound : Option ℕ → Checkpoints → ℕ
bound none cs = 0
bound (some id) cs = below id cs

module _ {R : Type 0} ⦃e : Eq R⦄ (blobs : Dict (BlobKey R) Payload) (thread_id : ℕ) (ns : String)
    (serde : Serde R) (cs : Checkpoints) where
  -- The loop without a limit on its rounds, from the channels that are needed and the next parent: the
  -- identifiers that it adds until it ends.
  pub data Loop : List String → Option ℕ → List ℕ → Type 0 where
    no_parent : (needed : List String) → Loop needed none []
    none_needed : (parent_id : Option ℕ) → Loop [] parent_id []
    unknown_parent : (needed : List String) (id : ℕ) → get id cs ≡ none → Loop needed (some id) []
    follows :
        (c : String) (more : List String) (id : ℕ) (entry : Entry) (ids : List ℕ)
        → get id cs ≡ some entry
        → Loop
            (still_needed blobs thread_id ns (serde.channel_versions entry.checkpoint) (c ∷ more))
            entry.parent_id
            ids
        → Loop (c ∷ more) (some id) (id ∷ ids)

  -- A step to a parent leaves fewer rounds to do.
  bound-parent :
      (id rounds : ℕ) (entry : Entry) (parent_id : Option ℕ)
      → IsDescending cs
      → get id cs ≡ some entry
      → entry.parent_id ≡ parent_id
      → below id cs ≤ suc rounds
      → bound parent_id cs ≤ rounds
  unfolding bound
  bound-parent id rounds entry none d g same h = omega arith
  bound-parent id rounds entry (some q) d g same h =
      omega (arith, h, below-lt q id cs entry g (d id q entry g same))

  chain-Loop :
      (rounds : ℕ) (needed : List String) (parent_id : Option ℕ)
      → IsDescending cs
      → bound parent_id cs ≤ rounds
      → Loop needed parent_id (parent_chain blobs thread_id ns serde cs rounds needed parent_id)
  unfolding parent_chain bound
  chain-Loop zero needed none d h = no_parent needed
  chain-Loop zero needed (some id) d h = elim (Option-cases (get id cs)) [
    | inl missing ↦ unknown_parent needed id missing
    | inr (entry, g) ↦ ground (arith, below-suc id cs entry g)
  ]
  chain-Loop (suc rounds) [] parent_id d h = none_needed parent_id
  chain-Loop (suc rounds) (c ∷ more) none d h = no_parent (c ∷ more)
  chain-Loop (suc rounds) (c ∷ more) (some id) d h = elim (Option-cases (get id cs)) [
    | inl missing ↦ rw (parent_chain, missing) (unknown_parent (c ∷ more) id missing)
    | inr (entry, g) ↦
        rw (parent_chain, g)
          (follows c more id entry _ g (
            chain-Loop rounds _ entry.parent_id d
              (bound-parent id rounds entry entry.parent_id d g refl h)))
  ]

  bound-length : (parent_id : Option ℕ) → bound parent_id cs ≤ length cs
  unfolding bound
  bound-length none = omega arith
  bound-length (some id) = below-length id cs

  -- Where the identifier of each checkpoint's parent is below its own, the loop over the parents ends,
  -- whatever channels are needed and wherever it starts, and what it then has added is what the model
  -- computes with as many rounds as there are checkpoints.
  pub parent_chain-Loop :
      (needed : List String) (parent_id : Option ℕ)
      → IsDescending cs
      → Loop needed parent_id
          (parent_chain blobs thread_id ns serde cs (length cs) needed parent_id)
  parent_chain-Loop needed parent_id d =
      chain-Loop (length cs) needed parent_id d (bound-length parent_id)
