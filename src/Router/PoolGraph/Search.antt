-- ===== src/Router/PoolGraph/Search.antt =====
-- The result of a search between two tokens.
use mathlib.Core.List.{reverse, reverse-reverse, Memᴰ}
use mathlib.Core.List.Memᴰ
use solana_dex_v.Prelude.{
  ◌≡◌, ◌≢◌, refl, sym, ap, inl, inr, Text, get_key, get_key-put_key, text_eq, text_eq_iff, text_ltb,
  false, not, Bool-cases, Option, List, [], map, if◌then◌else◌, arith,
}
use solana_dex_v.Router.Trades.{Edge, TradePath}
use solana_dex_v.Router.PoolGraph.{
  PoolTokenPair, AdjacencyListPoolGraph, or_empty, build_pool_graph, find_paths, find_walk,
  find_walks, get_hops_from_route, paths_for_pair, get_paths_for_pairs, get_path, sort_pair,
  get_search_path_id,
}
use solana_dex_v.Router.PoolGraph.Walks.{ArePools, IsWalk, reverse-IsWalk}
use solana_dex_v.Router.PoolGraph.Paths.{find_paths-IsWalk, IsWalk-find_paths}

abbrev hop : Text → Edge
hop pool = record { pool_address = pool }

abbrev pub path_of : Text → Text → List Text → TradePath
path_of s t route = record { start_token_mint = s; end_token_mint = t; edges = map hop route }

-- The order in which a pair is searched does not change its paths but for their direction.
abbrev directed : Text → Text → List Text → List Text
directed s t route = if text_ltb t s then reverse route else route

-- What one search finds is what its walks hold.
found_paths :
    (g : AdjacencyListPoolGraph) (i : Option (List Text)) (s t : Text)
    → or_empty
        (get_key (find_walk g i [] (s, t)) (get_search_path_id (sort_pair s t).0 (sort_pair s t).1))
      ≡ find_paths g i (sort_pair s t).0 (sort_pair s t).1
unfolding find_walk or_empty get_key
found_paths g i s t = ground (
  arith,
  get_key-put_key {V = List (List Text)} [] (get_search_path_id (sort_pair s t).0 (sort_pair s t).1)
      (get_search_path_id (sort_pair s t).0 (sort_pair s t).1)
      (find_paths g i (sort_pair s t).0 (sort_pair s t).1),
  text_eq_iff (get_search_path_id (sort_pair s t).0 (sort_pair s t).1)
      (get_search_path_id (sort_pair s t).0 (sort_pair s t).1),
)

ne→text_eq_false : (a b : Text) → a ≢ b → text_eq a b ≡ false
ne→text_eq_false a b h = ground (arith, text_eq_iff a b)

is_reversed : (s t : Text) → s ≢ t → not (text_eq (sort_pair s t).0 s) ≡ text_ltb t s
unfolding sort_pair
is_reversed s t h = ground (arith, text_eq_iff t s, text_eq_iff s s)

get_path-find_paths :
    (g : AdjacencyListPoolGraph) (i : Option (List Text)) (s t : Text)
    → s ≢ t
    → get_path g s t i
      ≡ map
          (λ route. path_of s t (directed s t route))
          (find_paths g i (sort_pair s t).0 (sort_pair s t).1)
unfolding get_path get_paths_for_pairs paths_for_pair find_walks get_hops_from_route
get_path-find_paths g i s t apart =
    rw (ne→text_eq_false s t apart, found_paths g i s t, is_reversed s t apart) refl

-- Both directions of a walk.
module _ (pools : List PoolTokenPair) (are_pools : ArePools pools) (i : Option (List Text))
    (s t : Text) (apart : s ≢ t) where
  directed-IsWalk :
      (route : List Text)
      → Memᴰ route (find_paths (build_pool_graph pools) i (sort_pair s t).0 (sort_pair s t).1)
      → IsWalk pools i s t (directed s t route)
  unfolding sort_pair
  directed-IsWalk route m = elim (Bool-cases (text_ltb t s)) [
    | inl e ↦ rw e (
        reverse-IsWalk pools i t s route
          (find_paths-IsWalk pools are_pools i t s (λ same. apart (sym same)) route (rw e at m)))
    | inr e ↦ rw e (find_paths-IsWalk pools are_pools i s t apart route (rw e at m))
  ]

  IsWalk-directed :
      (route : List Text)
      → IsWalk pools i s t route
      → Memᴰ
          (directed s t route)
          (find_paths (build_pool_graph pools) i (sort_pair s t).0 (sort_pair s t).1)
  unfolding sort_pair
  IsWalk-directed route w = elim (Bool-cases (text_ltb t s)) [
    | inl e ↦ rw e (
        IsWalk-find_paths pools are_pools i t s (λ same. apart (sym same)) (reverse route)
          (reverse-IsWalk pools i s t route w))
    | inr e ↦ rw e (IsWalk-find_paths pools are_pools i s t apart route w)
  ]

  directed_twice : (route : List Text) → directed s t (directed s t route) ≡ route
  directed_twice route = elim (Bool-cases (text_ltb t s)) [
    | inl e ↦ rw (e, reverse-reverse) refl
    | inr e ↦ rw e refl
  ]

  -- On a graph of pools with different addresses, each of which trades two different tokens, the
  -- search between two different tokens returns a path exactly for each walk of one or two pools
  -- between them whose middle token, if there is one, is allowed; the path has the ends of the search.
  pub get_path-IsWalk :
      ((path : TradePath)
        → Memᴰ path (get_path (build_pool_graph pools) s t i)
        → (route : List Text) × (path ≡ path_of s t route) × IsWalk pools i s t route)
      × ((route : List Text)
          → IsWalk pools i s t route
          → Memᴰ (path_of s t route) (get_path (build_pool_graph pools) s t i))
  get_path-IsWalk = (
    λ path m.
        let (found, mf, e) =
          Memᴰ.of_map (λ (route : List Text). path_of s t (directed s t route)) _
            (rw (get_path-find_paths (build_pool_graph pools) i s t apart) at m) in
        (directed s t found, sym e, directed-IsWalk found mf),
    λ route w. rw (get_path-find_paths (build_pool_graph pools) i s t apart) (
        Memᴰ.cast (ap (path_of s t) (sym (directed_twice route))) (
          Memᴰ.map (λ (found : List Text). path_of s t (directed s t found))
            (IsWalk-directed route w))),
  )
