-- ===== src/Router/PoolGraph/Paths.antt =====
-- The paths of a search are exactly the walks.
use mathlib.Core.List.{Memᴰ}
use mathlib.Core.List.Memᴰ
use solana_dex_v.Prelude.{
  ◌≡◌, ◌≢◌, refl, sym, ◌∙◌, ap, inl, inr, Text, text_eq, text_eq_iff, true, not, Bool-cases, Option,
  List, [], ◌∷◌, any_of-true, any_of_mem, filter_by, filter_by_mem, mem_filter_by,
}
use solana_dex_v.Router.PoolGraph.{
  PoolTokenPair, PoolGraphEdge, AdjacencyListPoolGraph, edges_of, build_pool_graph, is_intermediate,
  has_pool, hops_after, second_hops, single_hops, find_paths,
}
use solana_dex_v.Router.PoolGraph.Edges.{edges_of-Joins}
use solana_dex_v.Router.PoolGraph.Walks.{
  ArePools, IsWalk, swapped_ends, ends_of_pool, other_end, ends_differ, pool_at, edge_of,
}

-- The two hops that make a path.
abbrev Hops : Option (List Text) → List PoolGraphEdge → List PoolGraphEdge → List Text → Type 0
Hops intermediates firsts pools_to route =
    (first : PoolGraphEdge) × (second : PoolGraphEdge) × Memᴰ first firsts
    × Memᴰ second pools_to
    × (is_intermediate intermediates first.other_token ≡ true)
    × (second.other_token ≡ first.other_token)
    × (route ≡ first.address ∷ second.address ∷ [])

second_hops-Hops :
    (i : Option (List Text)) (firsts pools_to : List PoolGraphEdge) (route : List Text)
    → Memᴰ route (second_hops i firsts pools_to)
    → Hops i firsts pools_to route
unfolding second_hops hops_after
second_hops-Hops i [] pools_to route m = absurd (Memᴰ.not-nil m)
second_hops-Hops i (first ∷ rest) pools_to route m =
    elim (Memᴰ.append_cases (hops_after i pools_to first) m) [
      | inl here ↦ elim (Bool-cases (is_intermediate i first.other_token)) [
        | inl allowed ↦
            let (second, ms, e) =
              Memᴰ.of_map (λ (second : PoolGraphEdge). first.address ∷ second.address ∷ []) _
                (rw (hops_after, allowed) at here) in
            let (mt, same) = filter_by_mem _ pools_to second ms in
            (
              first,
              second,
              Memᴰ.head refl,
              mt,
              allowed,
              (text_eq_iff second.other_token first.other_token).0 same,
              sym e,
            )
        | inr barred ↦ absurd (Memᴰ.not-nil (rw (hops_after, barred) at here))
      ]
      | inr later ↦
          let (f, s, mf, ms, ok, same, e) = second_hops-Hops i rest pools_to route later in
          (f, s, Memᴰ.tail mf, ms, ok, same, e)
    ]

Hops-second_hops :
    (i : Option (List Text)) (firsts pools_to : List PoolGraphEdge) (f s : PoolGraphEdge)
    → Memᴰ f firsts
    → Memᴰ s pools_to
    → is_intermediate i f.other_token ≡ true
    → s.other_token ≡ f.other_token
    → Memᴰ (f.address ∷ s.address ∷ []) (second_hops i firsts pools_to)
unfolding second_hops hops_after
Hops-second_hops i [] pools_to f s mf ms ok same = absurd (Memᴰ.not-nil mf)
Hops-second_hops i (g ∷ rest) pools_to f s mf ms ok same = elim (Memᴰ.cases_cons mf) [
  | inl e ↦
      let found =
        mem_filter_by (λ second. text_eq second.other_token f.other_token) pools_to s ms
          ((text_eq_iff s.other_token f.other_token).1 same) in
      rw (← e, hops_after, ok)
        (Memᴰ.append_left _
          (Memᴰ.map (λ (second : PoolGraphEdge). f.address ∷ second.address ∷ []) found))
  | inr later ↦ Memᴰ.append_right _ (Hops-second_hops i rest pools_to f s later ms ok same)
]

module _ (pools : List PoolTokenPair) (are_pools : ArePools pools) (i : Option (List Text))
    (s t : Text) (apart : s ≢ t) where
  abbrev g : AdjacencyListPoolGraph
  g = build_pool_graph pools

  pub find_paths-IsWalk :
      (route : List Text) → Memᴰ route (find_paths g i s t) → IsWalk pools i s t route
  unfolding find_paths single_hops has_pool
  find_paths-IsWalk route m =
      elim (Memᴰ.append_cases (single_hops (edges_of g s) (edges_of g t)) m) [
        | inl one ↦
            let (op, mo, e) =
              Memᴰ.of_map (λ (op : PoolGraphEdge). op.address ∷ [])
                (filter_by (has_pool (edges_of g t)) (edges_of g s)) one in
            let (ms, shared) = filter_by_mem (has_pool (edges_of g t)) (edges_of g s) op mo in
            let (at_t, mt, same) =
              any_of-true (λ r. text_eq r.address op.address) (edges_of g t) shared in
            let (p, mp, named, joins) = edges_of-Joins pools s op ms in
            let addr = (text_eq_iff at_t.address op.address).0 same in
            IsWalk.direct p mp
              (ends_of_pool p s t _ _ apart joins
                (pool_at pools are_pools t at_t p mt mp (addr ∙ sym named)))
              (rw named (sym e))
        | inr two ↦
            let (f, h, mf, mh, ok, same, e) = second_hops-Hops i _ _ route two in
            let (ms, _) =
              filter_by_mem (λ op. not (has_pool (edges_of g t) op)) (edges_of g s) f mf in
            let (p, mp, named_p, at_s) = edges_of-Joins pools s f ms in
            let (q, mq, named_q, at_t) = edges_of-Joins pools t h mh in
            IsWalk.through p q f.other_token mp mq at_s (swapped_ends q t _ (rw same at at_t)) ok
              (rw (named_p, named_q) e)
      ]

  pub IsWalk-find_paths :
      (route : List Text) → IsWalk pools i s t route → Memᴰ route (find_paths g i s t)
  unfolding find_paths single_hops has_pool
  IsWalk-find_paths route (IsWalk.direct p mp joins e) =
      let (a, ma, named_a, _) = edge_of pools are_pools p s t mp joins in
      let (b, mb, named_b, _) = edge_of pools are_pools p t s mp (swapped_ends p s t joins) in
      let shared =
        any_of_mem (λ r. text_eq r.address a.address) (edges_of g t) b mb
          ((text_eq_iff b.address a.address).1 (named_b ∙ sym named_a)) in
      Memᴰ.append_left _ (
        Memᴰ.cast (e ∙ ap (λ r. r ∷ []) (sym named_a)) (
          Memᴰ.map (λ (op : PoolGraphEdge). op.address ∷ [])
            (mem_filter_by (has_pool (edges_of g t)) (edges_of g s) a ma shared)))
  IsWalk-find_paths route (IsWalk.through p q x mp mq at_s at_t ok e) =
      let (a, ma, named_a, to_x) = edge_of pools are_pools p s x mp at_s in
      let (b, mb, named_b, from_x) = edge_of pools are_pools q t x mq (swapped_ends q x t at_t) in
      Memᴰ.append_right (single_hops (edges_of g s) (edges_of g t)) (
        rw (e, ← named_a, ← named_b)
          (Hops-second_hops i _ (edges_of g t) a b
            (mem_filter_by (λ op. not (has_pool (edges_of g t) op)) (edges_of g s) a ma
              (not_direct a named_a))
            mb (rw to_x ok) (from_x ∙ sym to_x)))
    where
      not_direct :
          (a : PoolGraphEdge) → a.address ≡ p.address → not (has_pool (edges_of g t) a) ≡ true
      not_direct a named = elim (Bool-cases (has_pool (edges_of g t) a)) [
        | inl shared ↦
            let (r, mr, same) =
              any_of-true (λ r. text_eq r.address a.address) (edges_of g t) shared in
            let at =
              pool_at pools are_pools t r p mr mp
                ((text_eq_iff r.address a.address).0 same ∙ named) in
            let both = ends_of_pool p s t x r.other_token apart at_s at in
            let ends = other_end p s x t (are_pools.two_tokens p mp) at_s both in
            absurd (ends_differ q x t (are_pools.two_tokens q mq) at_t ends)
        | inr none_shared ↦ rw none_shared refl
      ]
