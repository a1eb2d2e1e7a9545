-- ===== src/Router/PoolGraph/Edges.antt =====
-- The edges of the graph are the pools that it was built from.
use mathlib.Core.List.{Memᴰ}
use mathlib.Core.List.Memᴰ
use solana_dex_v.Prelude.{
  ◌≡◌, refl, ◌⊎◌, inl, inr, Text, TextMap, get_key, put_key, get_key-put_key, text_eq, text_eq_iff,
  Bool-cases, List, [], ◌∷◌, ◌++◌, any_of, Option-cases, if◌then◌else◌, arith,
}
use solana_dex_v.Router.PoolGraph.{
  PoolTokenPair, PoolGraphEdge, AdjacencyListPoolGraph, or_empty, edges_of, inserted_for, add_token,
  start_entry, push_edge, add_pool, add_pools, empty_graph, build_pool_graph,
}

abbrev pub edge : Text → Text → PoolGraphEdge
edge addr other = record { address = addr; other_token = other }

-- A pool trades the two tokens.
abbrev pub Joins : PoolTokenPair → Text → Text → Type 0
Joins pool s t =
    (s ≡ pool.token_mint_a) × (t ≡ pool.token_mint_b)
    ⊎ (s ≡ pool.token_mint_b) × (t ≡ pool.token_mint_a)

or_empty-put_key :
    {V : Type 0} (m : TextMap (List V)) (key j : Text) (vs : List V)
    → or_empty (get_key (put_key m key vs) j)
      ≡ (if text_eq key j then vs else or_empty (get_key m j))
unfolding or_empty
or_empty-put_key m key j vs = ground (arith, get_key-put_key m key j vs)

pub edges_of-start_entry :
    (g : AdjacencyListPoolGraph) (token t : Text) → edges_of (start_entry g token) t ≡ edges_of g t
unfolding start_entry or_empty
edges_of-start_entry g token t =
    ground (arith, get_key-put_key g.graph token t [], text_eq_iff token t)

pub inserted_for-start_entry :
    (g : AdjacencyListPoolGraph) (token t a : Text)
    → Memᴰ a (inserted_for (start_entry g token) t)
    → Memᴰ a (inserted_for g t)
unfolding start_entry
inserted_for-start_entry g token t a m = elim (Option-cases (get_key g.graph token)) [
  | inl e ↦ elim (Bool-cases (text_eq token t)) [
    | inl same ↦ absurd (
        Memᴰ.not-nil
          (rw (e, start_entry, or_empty-put_key g.inserted_pool_cache token t [], same) at m))
    | inr other ↦ rw (e, start_entry, or_empty-put_key g.inserted_pool_cache token t [], other) at m
  ]
  | inr (edges, e) ↦ rw (e, start_entry) at m
]

pub edges_of-push_edge :
    (g : AdjacencyListPoolGraph) (token addr other t : Text)
    → edges_of (push_edge g token addr other) t ≡ (
        if any_of (text_eq addr) (inserted_for g token)
        then edges_of g t
        else if text_eq token t
        then edges_of g t ++ edge addr other ∷ []
        else edges_of g t)
unfolding push_edge
edges_of-push_edge g token addr other t =
    let put = or_empty-put_key g.graph token t (edges_of g token ++ edge addr other ∷ []) in
    ground (arith, put, text_eq_iff token t)

pub inserted_for-push_edge :
    (g : AdjacencyListPoolGraph) (token addr other t : Text)
    → inserted_for (push_edge g token addr other) t ≡ (
        if any_of (text_eq addr) (inserted_for g token)
        then inserted_for g t
        else if text_eq token t
        then inserted_for g t ++ addr ∷ []
        else inserted_for g t)
unfolding push_edge
inserted_for-push_edge g token addr other t =
    let put = or_empty-put_key g.inserted_pool_cache token t (inserted_for g token ++ addr ∷ []) in
    ground (arith, put, text_eq_iff token t)

-- Every edge at a token is one that S allows there.
module _ (S : Text → PoolGraphEdge → Type 0) where
  abbrev AllEdges : AdjacencyListPoolGraph → Type 0
  AllEdges g = (t : Text) (e : PoolGraphEdge) → Memᴰ e (edges_of g t) → S t e

  push_edge-AllEdges :
      (g : AdjacencyListPoolGraph) (token addr other : Text)
      → AllEdges g
      → S token (edge addr other)
      → AllEdges (push_edge g token addr other)
  push_edge-AllEdges g token addr other h new t e m =
      elim (Bool-cases (any_of (text_eq addr) (inserted_for g token))) [
        | inl old ↦ h t e (rw (edges_of-push_edge g token addr other t, old) at m)
        | inr fresh ↦ elim (Bool-cases (text_eq token t)) [
          | inl same ↦
              elim (Memᴰ.append_cases (edges_of g t)
                (rw (edges_of-push_edge g token addr other t, fresh, same) at m)) [
                  | inl before ↦ h t e before
                  | inr last ↦
                      let here = Memᴰ.eq_of_singleton last in
                      rw (here, ← (text_eq_iff token t).0 same) new
                ]
          | inr apart ↦ h t e (rw (edges_of-push_edge g token addr other t, fresh, apart) at m)
        ]
      ]

  add_pool-AllEdges :
      (g : AdjacencyListPoolGraph) (pool : PoolTokenPair)
      → AllEdges g
      → S pool.token_mint_a (edge pool.address pool.token_mint_b)
      → S pool.token_mint_b (edge pool.address pool.token_mint_a)
      → AllEdges (add_pool g pool)
  unfolding add_pool add_token
  add_pool-AllEdges g pool h at_a at_b =
      push_edge-AllEdges _ _ _ _
        (push_edge-AllEdges _ _ _ _
          (λ t e m. h t e (rw (edges_of-start_entry, edges_of-start_entry) at m)) at_a)
        at_b

  add_pools-AllEdges :
      (g : AdjacencyListPoolGraph) (pools : List PoolTokenPair)
      → AllEdges g
      → ((pool : PoolTokenPair)
          → Memᴰ pool pools
          → S pool.token_mint_a (edge pool.address pool.token_mint_b)
            × S pool.token_mint_b (edge pool.address pool.token_mint_a))
      → AllEdges (add_pools g pools)
  unfolding add_pools
  add_pools-AllEdges g [] h ends = h
  add_pools-AllEdges g (pool ∷ pools) h ends =
      let (at_a, at_b) = ends pool (Memᴰ.head refl) in
      add_pools-AllEdges (add_pool g pool) pools (add_pool-AllEdges g pool h at_a at_b)
        (λ p m. ends p (Memᴰ.tail m))

-- Every edge is a pool between its token and the other.
pub edges_of-Joins :
    (pools : List PoolTokenPair) (t : Text) (e : PoolGraphEdge)
    → Memᴰ e (edges_of (build_pool_graph pools) t)
    → (pool : PoolTokenPair) × Memᴰ pool pools
      × (pool.address ≡ e.address)
      × Joins pool t e.other_token
unfolding build_pool_graph or_empty get_key
edges_of-Joins pools =
    add_pools-AllEdges
      (λ t e.
        (pool : PoolTokenPair) × Memᴰ pool pools
        × (pool.address ≡ e.address)
        × Joins pool t e.other_token)
      empty_graph pools (λ t e m. absurd (Memᴰ.not-nil m))
      (λ pool m. ((pool, m, refl, inl (refl, refl)), (pool, m, refl, inr (refl, refl))))
