-- ===== src/Router/PoolGraph.antt =====
-- sdk/src/utils/graphs/adjacency-list-pool-graph.ts: the pools as edges between tokens, and the
-- paths of one or two pools between two tokens.
pub mod Edges
pub mod Pools
pub mod Walks
pub mod Paths
pub mod Search
use mathlib.Core.List.{reverse}
use solana_dex_v.Prelude.{
  Text, TextMap, get_key, put_key, text_eq, text_ltb, Bool, true, false, not, ◌&&◌, Option, none,
  some, List, [], ◌∷◌, ◌++◌, map, any_of, filter_by, if◌then◌else◌,
}
use solana_dex_v.Router.Trades.{Edge, TradePath}

pub record PoolTokenPair : Type 0 where
  pub address : Text
  pub token_mint_a : Text
  pub token_mint_b : Text

pub record PoolGraphEdge : Type 0 where
  pub address : Text
  pub other_token : Text

-- The graph, the addresses that each token has, and the tokens.
pub record AdjacencyListPoolGraph : Type 0 where
  pub graph : TextMap (List PoolGraphEdge)
  pub inserted_pool_cache : TextMap (List Text)
  pub tokens : List Text

-- `record[key] || []`.
unfoldable pub or_empty : {A : Type 0} → Option (List A) → List A
or_empty none = []
or_empty (some xs) = xs

abbrev pub edges_of : AdjacencyListPoolGraph → Text → List PoolGraphEdge
edges_of g token = or_empty (get_key g.graph token)

abbrev pub inserted_for : AdjacencyListPoolGraph → Text → List Text
inserted_for g token = or_empty (get_key g.inserted_pool_cache token)

-- `set.add(x)`.
unfoldable pub add_text : List Text → Text → List Text
add_text xs x = if any_of (text_eq x) xs then xs else xs ++ x ∷ []

unfoldable pub add_token : AdjacencyListPoolGraph → Text → AdjacencyListPoolGraph
add_token g token = record {
  graph = g.graph;
  inserted_pool_cache = g.inserted_pool_cache;
  tokens = add_text g.tokens token;
}

-- Empty entries for a token that has none.
unfoldable pub start_entry : AdjacencyListPoolGraph → Text → AdjacencyListPoolGraph
start_entry g token = elim (get_key g.graph token) [
  | none ↦ record {
    graph = put_key g.graph token [];
    inserted_pool_cache = put_key g.inserted_pool_cache token [];
    tokens = g.tokens;
  }
  | some edges ↦ g
]

-- The edge to the other token of a pool, unless the token has the pool.
unfoldable pub push_edge : AdjacencyListPoolGraph → Text → Text → Text → AdjacencyListPoolGraph
push_edge g token addr other = if any_of (text_eq addr) (inserted_for g token) then g else record {
  graph =
      put_key g.graph token
        (edges_of g token ++ record { address = addr; other_token = other } ∷ []);
  inserted_pool_cache = put_key g.inserted_pool_cache token (inserted_for g token ++ addr ∷ []);
  tokens = g.tokens;
}

unfoldable pub add_pool : AdjacencyListPoolGraph → PoolTokenPair → AdjacencyListPoolGraph
add_pool g pool =
    let a = pool.token_mint_a in
    let b = pool.token_mint_b in
    let known = start_entry (start_entry (add_token (add_token g a) b) a) b in
    push_edge (push_edge known a pool.address b) b pool.address a

unfoldable pub add_pools : AdjacencyListPoolGraph → List PoolTokenPair → AdjacencyListPoolGraph
add_pools g [] = g
add_pools g (pool ∷ pools) = add_pools (add_pool g pool) pools

abbrev pub empty_graph : AdjacencyListPoolGraph
empty_graph = record { graph = []; inserted_pool_cache = []; tokens = [] }

unfoldable pub build_pool_graph : List PoolTokenPair → AdjacencyListPoolGraph
build_pool_graph = add_pools empty_graph

-- `[a, b].sort()`.
unfoldable pub sort_pair : Text → Text → Text × Text
sort_pair a b = if text_ltb b a then (b, a) else (a, b)

-- The code unit of "-".
abbrev pub path_id_delimiter : Text
path_id_delimiter = 45 ∷ []

-- `getInternalRouteId(a, b, false)`, and `PoolGraphUtils.getSearchPathId(a, b)`.
unfoldable pub get_search_path_id : Text → Text → Text
get_search_path_id a b = a ++ (path_id_delimiter ++ b)

-- `!intermediateTokens || intermediateTokens.indexOf(token) > -1`.
unfoldable pub is_intermediate : Option (List Text) → Text → Bool
is_intermediate none token = true
is_intermediate (some tokens) token = any_of (text_eq token) tokens

unfoldable pub has_pool : List PoolGraphEdge → PoolGraphEdge → Bool
has_pool edges edge = any_of (λ p. text_eq p.address edge.address) edges

-- The paths of two pools that start with one.
unfoldable pub hops_after :
    Option (List Text) → List PoolGraphEdge → PoolGraphEdge → List (List Text)
hops_after intermediates pools_to first =
    if is_intermediate intermediates first.other_token
    then map (λ second. first.address ∷ second.address ∷ [])
        (filter_by (λ second. text_eq second.other_token first.other_token) pools_to)
    else []

unfoldable pub second_hops :
    Option (List Text) → List PoolGraphEdge → List PoolGraphEdge → List (List Text)
second_hops intermediates [] pools_to = []
second_hops intermediates (first ∷ rest) pools_to =
    hops_after intermediates pools_to first ++ second_hops intermediates rest pools_to

unfoldable pub single_hops : List PoolGraphEdge → List PoolGraphEdge → List (List Text)
single_hops pools_from pools_to =
    map (λ op. op.address ∷ []) (filter_by (has_pool pools_to) pools_from)

-- The paths between two tokens: those of one pool, and those of two.
unfoldable pub find_paths :
    AdjacencyListPoolGraph → Option (List Text) → Text → Text → List (List Text)
find_paths g intermediates from to =
    let pools_from = edges_of g from in
    let pools_to = edges_of g to in
    single_hops pools_from pools_to
    ++ second_hops intermediates (filter_by (λ op. not (has_pool pools_to op)) pools_from) pools_to

-- The search for one pair; a pair that was searched in either order is not searched again.
unfoldable pub find_walk :
    AdjacencyListPoolGraph
    → Option (List Text)
    → TextMap (List (List Text))
    → Text × Text
    → TextMap (List (List Text))
find_walk g intermediates walks (from, to) =
    let ends = sort_pair from to in
    let id = get_search_path_id ends.0 ends.1 in
    elim (get_key walks id) [
      | some paths ↦ walks
      | none ↦ elim (find_paths g intermediates ends.0 ends.1) [
        | [] ↦ walks
        | path ∷ paths ↦ put_key walks id (path ∷ paths)
      ]
    ]

unfoldable pub find_walks :
    AdjacencyListPoolGraph
    → Option (List Text)
    → TextMap (List (List Text))
    → List (Text × Text)
    → TextMap (List (List Text))
find_walks g intermediates walks [] = walks
find_walks g intermediates walks (pair ∷ pairs) =
    find_walks g intermediates (find_walk g intermediates walks pair) pairs

unfoldable pub get_hops_from_route : List Text → Bool → List Edge
get_hops_from_route path reversed =
    map (λ hop. record { pool_address = hop }) (if reversed then reverse path else path)

unfoldable pub paths_for_pair : TextMap (List (List Text)) → Text × Text → Text × List TradePath
paths_for_pair walks (start_mint, end_mint) =
    let ends = sort_pair start_mint end_mint in
    let reversed = not (text_eq ends.0 start_mint) in
    (
      get_search_path_id start_mint end_mint,
      map
          (λ path. record {
            start_token_mint = start_mint;
            end_token_mint = end_mint;
            edges = get_hops_from_route path reversed;
          })
          (or_empty (get_key walks (get_search_path_id ends.0 ends.1))),
    )

unfoldable pub get_paths_for_pairs :
    AdjacencyListPoolGraph → List (Text × Text) → Option (List Text) → List (Text × List TradePath)
get_paths_for_pairs g pairs intermediates =
    let to_find = filter_by (λ pair. not (text_eq pair.0 pair.1)) pairs in
    map (paths_for_pair (find_walks g intermediates [] to_find)) pairs

-- `results[0][1]`; there is one result.
unfoldable pub get_path : AdjacencyListPoolGraph → Text → Text → Option (List Text) → List TradePath
get_path g start_mint end_mint intermediates =
    elim (get_paths_for_pairs g ((start_mint, end_mint) ∷ []) intermediates) [
      | [] ↦ []
      | result ∷ results ↦ result.1
    ]

-- The pairs of an earlier and a later element.
unfoldable pub combinations2 : List Text → List (Text × Text)
combinations2 [] = []
combinations2 (x ∷ xs) = map (λ y. (x, y)) xs ++ combinations2 xs

-- The results of both directions of a pair; the paths of the second are the first's reversed.
unfoldable pub all_paths_for_pair :
    TextMap (List (List Text)) → Text × Text → List (Text × List TradePath)
all_paths_for_pair walks (start_mint, end_mint) =
    if text_eq start_mint end_mint
    then (get_search_path_id start_mint end_mint, []) ∷ []
    else let ends = sort_pair start_mint end_mint in
      let reversed = not (text_eq ends.0 start_mint) in
      let found = or_empty (get_key walks (get_search_path_id ends.0 ends.1)) in
      (
        get_search_path_id start_mint end_mint,
        map
            (λ path. record {
              start_token_mint = start_mint;
              end_token_mint = end_mint;
              edges = get_hops_from_route path reversed;
            })
            found,
      )
      ∷ (
        get_search_path_id end_mint start_mint,
        map
            (λ path. record {
              start_token_mint = end_mint;
              end_token_mint = start_mint;
              edges = get_hops_from_route path (not reversed);
            })
            found,
      )
      ∷ []

unfoldable pub collect_paths :
    TextMap (List (List Text)) → List (Text × Text) → List (Text × List TradePath)
collect_paths walks [] = []
collect_paths walks (pair ∷ pairs) = all_paths_for_pair walks pair ++ collect_paths walks pairs

unfoldable pub get_all_paths :
    AdjacencyListPoolGraph → Option (List Text) → List (Text × List TradePath)
get_all_paths g intermediates =
    let pairs = combinations2 g.tokens in
    let to_find = filter_by (λ pair. not (text_eq pair.0 pair.1)) pairs in
    collect_paths (find_walks g intermediates [] to_find) pairs
