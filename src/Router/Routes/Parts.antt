-- ===== src/Router/Routes/Parts.antt =====
-- What a route of the search is, and the steps that keep it one.
use mathlib.Core.List.{Memᴰ}
use solana_dex_v.Prelude.{
  ℕ, ◌+◌, ◌≤◌, ◌==◌, ◌≡◌, refl, ℤ, pos, ◌+ℤ◌, Text, includes_self, false, List, [], ◌∷◌, ◌++◌,
  length, length-append, any_of-false, All, AllPairs, All-append, AllPairs-concat, int_laws,
  eq_of_parts, if◌then◌else◌, arith,
}
use solana_dex_v.Router.Trades.{PathQuote}
use solana_dex_v.Router.Routes.{
  SanitizedQuoteMap, InternalRoute, quotes_of, put_quotes, has_reused_pools, exceeds_last,
  add_quote, num_quotes,
}

-- What the parts of a route add up to.
abbrev pub sum_percents : List PathQuote → ℕ
sum_percents [] = 0
sum_percents (q ∷ qs) = q.split_percent + sum_percents qs

abbrev pub sum_in : List PathQuote → ℤ
sum_in [] = pos 0
sum_in (q ∷ qs) = q.amount_in +ℤ sum_in qs

abbrev pub sum_out : List PathQuote → ℤ
sum_out [] = pos 0
sum_out (q ∷ qs) = q.amount_out +ℤ sum_out qs

abbrev pub SharesNoPool : PathQuote → PathQuote → Type 0
SharesNoPool q r = (pool : Text) → Memᴰ pool q.edges_pool_addrs → Memᴰ pool r.edges_pool_addrs → ⊥

-- An earlier quote of a route and a later one.
abbrev pub Follows : PathQuote → PathQuote → Type 0
Follows q r = (r.split_percent ≤ q.split_percent) × SharesNoPool q r

-- A route of quotes with the property P, that may still be short of the whole trade.
pub record IsPartial (P : PathQuote → Type 0) (max_splits : ℕ) (r : InternalRoute) : Type 0 where
  pub from_map : All P r.quotes
  pub follows : AllPairs Follows r.quotes
  pub percents : r.split_percent ≡ sum_percents r.quotes
  pub amounts_in : r.total_in ≡ sum_in r.quotes
  pub amounts_out : r.total_out ≡ sum_out r.quotes
  pub size : length r.quotes ≤ max_splits

abbrev pub IsRoute : (PathQuote → Type 0) → ℕ → InternalRoute → Type 0
IsRoute P max_splits r = IsPartial P max_splits r × (r.split_percent ≡ 100)

pub sum_percents-concat :
    (qs : List PathQuote) (q : PathQuote)
    → sum_percents (qs ++ q ∷ []) ≡ sum_percents qs + q.split_percent
sum_percents-concat [] q = omega arith
sum_percents-concat (x ∷ qs) q = omega (arith, sum_percents-concat qs q)

+ℤ_assoc : (a b c : ℤ) → (a +ℤ b) +ℤ c ≡ a +ℤ (b +ℤ c)
+ℤ_assoc a b c = eq_of_parts _ _ (omega int_laws)

zero-+ℤ_zero : (a : ℤ) → a +ℤ pos 0 ≡ pos 0 +ℤ a
zero-+ℤ_zero a = eq_of_parts _ _ (omega int_laws)

pub sum_in-concat :
    (qs : List PathQuote) (q : PathQuote) → sum_in (qs ++ q ∷ []) ≡ sum_in qs +ℤ q.amount_in
sum_in-concat [] q = zero-+ℤ_zero q.amount_in
sum_in-concat (x ∷ qs) q = rw (sum_in-concat qs q, +ℤ_assoc) refl

pub sum_out-concat :
    (qs : List PathQuote) (q : PathQuote) → sum_out (qs ++ q ∷ []) ≡ sum_out qs +ℤ q.amount_out
sum_out-concat [] q = zero-+ℤ_zero q.amount_out
sum_out-concat (x ∷ qs) q = rw (sum_out-concat qs q, +ℤ_assoc) refl

-- A pool of the new quote is none of the quotes that the test looked through.
pub not_reused :
    (next : PathQuote) (qs : List PathQuote)
    → has_reused_pools next qs ≡ false
    → (q : PathQuote) → Memᴰ q qs
    → SharesNoPool q next
unfolding has_reused_pools
not_reused next qs e q m pool in_q in_next =
    let none_in_next = any_of-false _ next.edges_pool_addrs e pool in_next in
    let none_in_q = any_of-false _ qs none_in_next q m in
    let itself = any_of-false _ q.edges_pool_addrs none_in_q pool in_q in
    cc (includes_self pool, itself)

-- The last percent of a route is its smallest.
pub last-le :
    (qs : List PathQuote) (percent : ℕ)
    → AllPairs Follows qs
    → exceeds_last qs percent ≡ false
    → All (λ q. percent ≤ q.split_percent) qs
unfolding exceeds_last
last-le [] percent h e = tt
last-le (q ∷ []) percent h e = ground arith
last-le (q ∷ r ∷ qs) percent h e =
    let below = last-le (r ∷ qs) percent h.1 e in (omega (arith, below.0, h.0.0.0), below)

pub All-and {κ μ} :
    {A : Type 0} (P : A → Type κ) (Q : A → Type μ) (xs : List A)
    → All P xs
    → ((x : A) → Memᴰ x xs → Q x)
    → All (λ x. P x × Q x) xs
All-and P Q [] h f = tt
All-and P Q (x ∷ xs) h f =
    ((h.0, f x (Memᴰ.head refl)), All-and P Q xs h.1 (λ y m. f y (Memᴰ.tail m)))

pub quotes_of-put_quotes :
    (m : SanitizedQuoteMap) (p r : ℕ) (qs : List PathQuote)
    → quotes_of (put_quotes m p qs) r ≡ (if p == r then qs else quotes_of m r)
unfolding quotes_of put_quotes
quotes_of-put_quotes [] p r qs = refl
quotes_of-put_quotes ((key, old) ∷ m) p r qs = ground (arith, quotes_of-put_quotes m p r qs)

pub num_quotes-put_quotes :
    (m : SanitizedQuoteMap) (p : ℕ) (qs : List PathQuote)
    → num_quotes (put_quotes m p qs) + length (quotes_of m p) ≡ num_quotes m + length qs
unfolding quotes_of put_quotes num_quotes
num_quotes-put_quotes [] p qs = omega arith
num_quotes-put_quotes ((key, old) ∷ m) p qs = ground (arith, num_quotes-put_quotes m p qs)

pub add_quote-IsPartial :
    (P : PathQuote → Type 0) (max_splits : ℕ) (r : InternalRoute) (q : PathQuote) (percent : ℕ)
    → IsPartial P max_splits r
    → q.split_percent ≡ percent
    → P q
    → has_reused_pools q r.quotes ≡ false
    → exceeds_last r.quotes percent ≡ false
    → length r.quotes + 1 ≤ max_splits
    → IsPartial P max_splits (add_quote r (r.split_percent + percent) q)
unfolding add_quote
add_quote-IsPartial P max_splits r q percent part same holds fresh below room = record {
  from_map = All-append P r.quotes (q ∷ []) part.from_map (holds, tt);
  follows = AllPairs-concat Follows r.quotes q part.follows (
      All-and _ _ r.quotes (rw same (last-le r.quotes percent part.follows below))
        (not_reused q r.quotes fresh));
  percents = omega (arith, part.percents, same, sum_percents-concat r.quotes q);
  amounts_in = rw (part.amounts_in, sum_in-concat r.quotes q) refl;
  amounts_out = rw (part.amounts_out, sum_out-concat r.quotes q) refl;
  size = omega (arith, length-append r.quotes (q ∷ []));
}
