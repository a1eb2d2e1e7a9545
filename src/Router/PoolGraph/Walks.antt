-- ===== src/Router/PoolGraph/Walks.antt =====
-- The paths found between two tokens are the walks of one or two pools between them.
use mathlib.Core.List.{reverse, Memᴰ}
use solana_dex_v.Prelude.{◌≡◌, ◌≢◌, sym, ◌∙◌, ap, inl, inr, Text, true, Option, List, [], ◌∷◌}
use solana_dex_v.Router.PoolGraph.{
  PoolTokenPair, PoolGraphEdge, edges_of, build_pool_graph, is_intermediate,
}
use solana_dex_v.Router.PoolGraph.Edges.{Joins, edges_of-Joins}
use solana_dex_v.Router.PoolGraph.Pools.{HasPool, build_pool_graph-HasPool}

-- An address is that of one pool, and a pool trades two different tokens.
pub record ArePools (pools : List PoolTokenPair) : Type 0 where
  pub one_pool : (p q : PoolTokenPair) → Memᴰ p pools → Memᴰ q pools → p.address ≡ q.address → p ≡ q
  pub two_tokens : (p : PoolTokenPair) → Memᴰ p pools → p.token_mint_a ≢ p.token_mint_b

-- The walks between two tokens: a pool that trades both, or two pools with a token between them that
-- the search may go through.
pub data IsWalk (pools : List PoolTokenPair) (intermediates : Option (List Text)) (s t : Text)
    (route : List Text) : Type 0 where
  direct :
      (p : PoolTokenPair)
      → Memᴰ p pools
      → Joins p s t
      → route ≡ p.address ∷ []
      → IsWalk pools intermediates s t route
  through :
      (p q : PoolTokenPair) (x : Text)
      → Memᴰ p pools
      → Memᴰ q pools
      → Joins p s x
      → Joins q x t
      → is_intermediate intermediates x ≡ true
      → route ≡ p.address ∷ q.address ∷ []
      → IsWalk pools intermediates s t route

pub swapped_ends : (p : PoolTokenPair) (s t : Text) → Joins p s t → Joins p t s
swapped_ends p s t (inl (a, b)) = inr (b, a)
swapped_ends p s t (inr (a, b)) = inl (b, a)

-- A pool at two different tokens joins them.
pub ends_of_pool :
    (p : PoolTokenPair) (s t x y : Text) → s ≢ t → Joins p s x → Joins p t y → Joins p s t
ends_of_pool p s t x y h (inl j) (inl k) = absurd (h (j.0 ∙ sym k.0))
ends_of_pool p s t x y h (inl j) (inr k) = inl (j.0, k.0)
ends_of_pool p s t x y h (inr j) (inl k) = inr (j.0, k.0)
ends_of_pool p s t x y h (inr j) (inr k) = absurd (h (j.0 ∙ sym k.0))

-- The other token of a pool.
pub other_end :
    (p : PoolTokenPair) (s x y : Text)
    → p.token_mint_a ≢ p.token_mint_b
    → Joins p s x
    → Joins p s y
    → x ≡ y
other_end p s x y h (inl j) (inl k) = j.1 ∙ sym k.1
other_end p s x y h (inl j) (inr k) = absurd (h (sym j.0 ∙ k.0))
other_end p s x y h (inr j) (inl k) = absurd (h (sym k.0 ∙ j.0))
other_end p s x y h (inr j) (inr k) = j.1 ∙ sym k.1

pub ends_differ :
    (p : PoolTokenPair) (s t : Text) → p.token_mint_a ≢ p.token_mint_b → Joins p s t → s ≢ t
ends_differ p s t h (inl j) e = h (sym j.0 ∙ e ∙ j.1)
ends_differ p s t h (inr j) e = h (sym j.1 ∙ sym e ∙ j.0)

pub reverse-IsWalk :
    (pools : List PoolTokenPair) (intermediates : Option (List Text)) (s t : Text)
    (route : List Text)
    → IsWalk pools intermediates s t route
    → IsWalk pools intermediates t s (reverse route)
reverse-IsWalk pools i s t route (IsWalk.direct p m j e) =
    IsWalk.direct p m (swapped_ends p s t j) (ap reverse e)
reverse-IsWalk pools i s t route (IsWalk.through p q x mp mq jp jq ok e) =
    IsWalk.through q p x mq mp (swapped_ends q x t jq) (swapped_ends p s x jp) ok (ap reverse e)

module _ (pools : List PoolTokenPair) (are_pools : ArePools pools) where
  -- The pool of an edge.
  pub pool_at :
      (t : Text) (e : PoolGraphEdge) (p : PoolTokenPair)
      → Memᴰ e (edges_of (build_pool_graph pools) t)
      → Memᴰ p pools
      → e.address ≡ p.address
      → Joins p t e.other_token
  pool_at t e p me mp same =
      let (q, mq, named, joins) = edges_of-Joins pools t e me in
      rw (are_pools.one_pool p q mp mq (sym same ∙ sym named)) joins

  -- The edge of a pool at one of its tokens.
  pub edge_of :
      (p : PoolTokenPair) (s t : Text)
      → Memᴰ p pools
      → Joins p s t
      → (e : PoolGraphEdge) × Memᴰ e (edges_of (build_pool_graph pools) s)
        × (e.address ≡ p.address)
        × (e.other_token ≡ t)
  edge_of p s t m joins =
      let (e, me, named) = at_token joins in
      (
        e,
        me,
        named,
        other_end p s e.other_token t (are_pools.two_tokens p m) (pool_at s e p me m named) joins,
      )
    where
      at_token : Joins p s t → HasPool (build_pool_graph pools) s p.address
      at_token (inl j) = rw (j.0) (build_pool_graph-HasPool pools p m).0
      at_token (inr j) = rw (j.0) (build_pool_graph-HasPool pools p m).1
