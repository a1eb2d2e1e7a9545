-- ===== src/Router/PoolGraph/Pools.antt =====
-- The graph has every pool at both its tokens.
use mathlib.Core.List.{Memᴰ}
use mathlib.Core.List.Memᴰ
use solana_dex_v.Prelude.{
  ◌≡◌, refl, sym, ◌∙◌, inl, inr, Text, get_key, text_eq, text_eq_iff, Bool-cases, List, [], ◌∷◌,
  any_of, any_of-true,
}
use solana_dex_v.Router.PoolGraph.{
  PoolTokenPair, PoolGraphEdge, AdjacencyListPoolGraph, or_empty, edges_of, inserted_for, add_token,
  start_entry, push_edge, add_pool, add_pools, empty_graph, build_pool_graph,
}
use solana_dex_v.Router.PoolGraph.Edges.{
  edge, edges_of-start_entry, inserted_for-start_entry, edges_of-push_edge, inserted_for-push_edge,
}

-- A token has an edge for the pool of an address.
abbrev pub HasPool : AdjacencyListPoolGraph → Text → Text → Type 0
HasPool g t addr = (e : PoolGraphEdge) × Memᴰ e (edges_of g t) × (e.address ≡ addr)

-- The cache names pools that the token has.
abbrev IsCached : AdjacencyListPoolGraph → Type 0
IsCached g = (t addr : Text) → Memᴰ addr (inserted_for g t) → HasPool g t addr

start_entry-HasPool :
    (g : AdjacencyListPoolGraph) (token t addr : Text)
    → HasPool g t addr
    → HasPool (start_entry g token) t addr
start_entry-HasPool g token t addr (e, m, same) = (e, rw edges_of-start_entry m, same)

start_entry-IsCached :
    (g : AdjacencyListPoolGraph) (token : Text) → IsCached g → IsCached (start_entry g token)
start_entry-IsCached g token h t addr m =
    start_entry-HasPool g token t addr (h t addr (inserted_for-start_entry g token t addr m))

-- An edge stays.
push_edge-keeps :
    (g : AdjacencyListPoolGraph) (token addr other t : Text) (e : PoolGraphEdge)
    → Memᴰ e (edges_of g t)
    → Memᴰ e (edges_of (push_edge g token addr other) t)
push_edge-keeps g token addr other t e m =
    rw (edges_of-push_edge g token addr other t)
      (elim (Bool-cases (any_of (text_eq addr) (inserted_for g token))) [
        | inl old ↦ rw old m
        | inr fresh ↦ elim (Bool-cases (text_eq token t)) [
          | inl same ↦ rw (fresh, same) (Memᴰ.append_left _ m)
          | inr apart ↦ rw (fresh, apart) m
        ]
      ])

push_edge-HasPool :
    (g : AdjacencyListPoolGraph) (token addr other : Text)
    → IsCached g
    → HasPool (push_edge g token addr other) token addr
push_edge-HasPool g token addr other h =
    elim (Bool-cases (any_of (text_eq addr) (inserted_for g token))) [
      | inl old ↦
          let (a, m, e) = any_of-true _ _ old in
          let (found, k, same) = h token a m in
          (
            found,
            push_edge-keeps g token addr other token found k,
            same ∙ sym ((text_eq_iff addr a).0 e),
          )
      | inr fresh ↦ (
        edge addr other,
        rw (edges_of-push_edge g token addr other token, fresh, (text_eq_iff token token).1 refl)
            (Memᴰ.append_right (edges_of g token) (Memᴰ.head refl)),
        refl,
      )
    ]

push_edge-IsCached :
    (g : AdjacencyListPoolGraph) (token addr other : Text)
    → IsCached g
    → IsCached (push_edge g token addr other)
push_edge-IsCached g token addr other h t a m =
    elim (Bool-cases (any_of (text_eq addr) (inserted_for g token))) [
      | inl old ↦ kept (rw (inserted_for-push_edge g token addr other t, old) at m)
      | inr fresh ↦ elim (Bool-cases (text_eq token t)) [
        | inl same ↦
            elim (Memᴰ.append_cases (inserted_for g t)
              (rw (inserted_for-push_edge g token addr other t, fresh, same) at m)) [
                | inl before ↦ kept before
                | inr last ↦
                    let here = Memᴰ.eq_of_singleton last in
                    rw (here, ← (text_eq_iff token t).0 same)
                      (push_edge-HasPool g token addr other h)
              ]
        | inr apart ↦ kept (rw (inserted_for-push_edge g token addr other t, fresh, apart) at m)
      ]
    ]
  where
    kept : Memᴰ a (inserted_for g t) → HasPool (push_edge g token addr other) t a
    kept old = let (e, k, same) = h t a old in (e, push_edge-keeps g token addr other t e k, same)

push_edge-keeps_pool :
    (g : AdjacencyListPoolGraph) (token addr other t a : Text)
    → HasPool g t a
    → HasPool (push_edge g token addr other) t a
push_edge-keeps_pool g token addr other t a (e, m, same) =
    (e, push_edge-keeps g token addr other t e m, same)

add_pool-IsCached :
    (g : AdjacencyListPoolGraph) (pool : PoolTokenPair)
    → IsCached g
    → IsCached (add_pool g pool)
      × HasPool (add_pool g pool) pool.token_mint_a pool.address
      × HasPool (add_pool g pool) pool.token_mint_b pool.address
unfolding add_pool add_token
add_pool-IsCached g pool h =
    let known = start_entry-IsCached _ _ (start_entry-IsCached _ _ (λ t a m. h t a m)) in
    let one = push_edge-IsCached _ _ _ _ known in
    (
      push_edge-IsCached _ _ _ _ one,
      push_edge-keeps_pool _ _ _ _ _ _ (push_edge-HasPool _ _ _ _ known),
      push_edge-HasPool _ _ _ _ one,
    )

add_pool-keeps :
    (g : AdjacencyListPoolGraph) (pool : PoolTokenPair) (t a : Text)
    → HasPool g t a
    → HasPool (add_pool g pool) t a
unfolding add_pool add_token
add_pool-keeps g pool t a h =
    push_edge-keeps_pool _ _ _ _ _ _ (
      push_edge-keeps_pool _ _ _ _ _ _
        (start_entry-HasPool _ _ _ _ (start_entry-HasPool _ _ _ _ h)))

add_pools-keeps :
    (g : AdjacencyListPoolGraph) (pools : List PoolTokenPair) (t a : Text)
    → HasPool g t a
    → HasPool (add_pools g pools) t a
unfolding add_pools
add_pools-keeps g [] t a h = h
add_pools-keeps g (pool ∷ pools) t a h =
    add_pools-keeps (add_pool g pool) pools t a (add_pool-keeps g pool t a h)

add_pools-HasPool :
    (g : AdjacencyListPoolGraph) (pools : List PoolTokenPair)
    → IsCached g
    → (pool : PoolTokenPair) → Memᴰ pool pools
    → HasPool (add_pools g pools) pool.token_mint_a pool.address
      × HasPool (add_pools g pools) pool.token_mint_b pool.address
unfolding add_pools
add_pools-HasPool g [] h pool m = absurd (Memᴰ.not-nil m)
add_pools-HasPool g (p ∷ pools) h pool m =
    let (cached, at_a, at_b) = add_pool-IsCached g p h in
    elim (Memᴰ.cases_cons m) [
      | inl same ↦ rw same (add_pools-keeps _ pools _ _ at_a, add_pools-keeps _ pools _ _ at_b)
      | inr later ↦ add_pools-HasPool (add_pool g p) pools cached pool later
    ]

-- Both tokens of every pool have an edge for it.
pub build_pool_graph-HasPool :
    (pools : List PoolTokenPair) (pool : PoolTokenPair)
    → Memᴰ pool pools
    → HasPool (build_pool_graph pools) pool.token_mint_a pool.address
      × HasPool (build_pool_graph pools) pool.token_mint_b pool.address
unfolding build_pool_graph or_empty get_key
build_pool_graph-HasPool pools =
    add_pools-HasPool empty_graph pools (λ t a m. absurd (Memᴰ.not-nil m))
