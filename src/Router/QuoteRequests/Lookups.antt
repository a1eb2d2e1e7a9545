-- ===== src/Router/QuoteRequests/Lookups.antt =====
-- What is read from a map of quotes after a write.
use mathlib.Core.Path.{◌∙◌, sym, ap}
use solana_dex_v.Prelude.{
  get_elem?-set, has_elem-set, ℕ, zero, suc, ◌==◌, ◌≡◌, ◌⊎◌, refl, Bool-cases, inl, inr, Option,
  none, some, List, [], ◌∷◌, get_elem?, set, ok, >>=-eq-ok, if◌then◌else◌, arith,
}
use solana_dex_v.Ticks.TickArraySequence.{or_type_error}
use solana_dex_v.Router.QuoteMap.{TradeHopQuoteResult, InternalPathQuote, InternalQuoteMap}
use solana_dex_v.Router.QuoteRequests.{PathQuotes, entry_of, put_entry, quote_at, put_quote, hop_at}

pub entry_of-put_entry :
    (m : InternalQuoteMap) (p r : ℕ) (qs : PathQuotes)
    → entry_of (put_entry m p qs) r ≡ (if p == r then some qs else entry_of m r)
unfolding entry_of put_entry
entry_of-put_entry [] p r qs = refl
entry_of-put_entry ((key, old) ∷ m) p r qs = ground (arith, entry_of-put_entry m p r qs)

-- A write that is not at an index of the list changes nothing else.
pub hop_at-set :
    (hops : List (Option TradeHopQuoteResult)) (i j : ℕ) (v : Option TradeHopQuoteResult)
    → ((i ≡ j) × (hop_at (set hops i v) j ≡ v)) ⊎ (hop_at (set hops i v) j ≡ hop_at hops j)
hop_at-set [] i j v = inr refl
hop_at-set (x ∷ hops) zero zero v = inl (refl, refl)
hop_at-set (x ∷ hops) zero (suc j) v = inr refl
hop_at-set (x ∷ hops) (suc i) zero v = inr refl
hop_at-set (x ∷ hops) (suc i) (suc j) v = elim (hop_at-set hops i j v) [
  | inl (same, e) ↦ inl (ap suc same, e)
  | inr e ↦ inr e
]

pub or_type_error-ok {ℓ} : {A : Type ℓ} (m : Option A) (a : A) → or_type_error m ≡ ok a → m ≡ some a
or_type_error-ok none a e = cc
or_type_error-ok (some b) a e = ground arith

-- What a place holds.
Holds : InternalQuoteMap → ℕ → ℕ → InternalPathQuote → Type 0
Holds m r j found =
    (qs : PathQuotes) × (entry_of m r ≡ some qs) × (get_elem? qs j ≡ some (some found))

quote_at-Holds :
    (m : InternalQuoteMap) (r j : ℕ) (found : InternalPathQuote)
    → quote_at m r j ≡ ok found
    → Holds m r j found
unfolding quote_at Holds
quote_at-Holds m r j found read =
    let (qs, e, rest) = >>=-eq-ok (or_type_error (entry_of m r)) _ read in
    let (place, f, last) = >>=-eq-ok (or_type_error (get_elem? qs j)) _ rest in
    (
      qs,
      or_type_error-ok (entry_of m r) qs e,
      or_type_error-ok (get_elem? qs j) place f ∙ ap some (or_type_error-ok place found last),
    )

Holds-quote_at :
    (m : InternalQuoteMap) (r j : ℕ) (found : InternalPathQuote)
    → Holds m r j found
    → quote_at m r j ≡ ok found
unfolding quote_at Holds
Holds-quote_at m r j found (qs, e, f) = rw (e, f) refl

-- After a write, a place holds what was written there, or what it held before.
pub quote_at-put_quote :
    (m next : InternalQuoteMap) (p i r j : ℕ) (q found : InternalPathQuote)
    → put_quote m p i q ≡ ok next
    → quote_at next r j ≡ ok found
    → ((p ≡ r) × (i ≡ j) × (q ≡ found)) ⊎ (quote_at m r j ≡ ok found)
unfolding put_quote Holds
quote_at-put_quote m next p i r j q found written read =
    let (qs, e, put) = >>=-eq-ok (or_type_error (entry_of m p)) _ written in
    let here = or_type_error-ok (entry_of m p) qs e in
    let is_next : put_entry m p (set qs i (some q)) ≡ next = ground arith in
    let (rs, f, g) = quote_at-Holds next r j found read in
    let looked : (if p == r then some (set qs i (some q)) else entry_of m r) ≡ some rs =
      sym (entry_of-put_entry m p r (set qs i (some q))) ∙ rw is_next f in
    elim (Bool-cases (p == r)) [
      | inl e' ↦
          let same : p ≡ r = ground arith in
          let is_rs : set qs i (some q) ≡ rs = ground (arith, rw e' at looked) in
          let place : get_elem? (set qs i (some q)) j ≡ some (some found) = rw is_rs g in
          elim (get_elem?-set qs i j (some q) (some found) place) [
            | inl (at, is_q) ↦ let e'' : q ≡ found = ground arith in inl (same, at, e'')
            | inr old ↦ inr (Holds-quote_at m r j found (qs, (rw same at here), old))
          ]
      | inr e' ↦ inr (Holds-quote_at m r j found (rs, (rw e' at looked), g))
    ]

abbrev pub IsPlace : InternalQuoteMap → ℕ → ℕ → Type 0
IsPlace m r j = (q : InternalPathQuote) × (quote_at m r j ≡ ok q)

-- A write to a place succeeds, and every place stays one.
pub put_quote-IsPlace :
    (m : InternalQuoteMap) (p i : ℕ) (q : InternalPathQuote)
    → IsPlace m p i
    → (next : InternalQuoteMap) × (put_quote m p i q ≡ ok next)
      × ((r j : ℕ) → IsPlace m r j → IsPlace next r j)
unfolding put_quote Holds
put_quote-IsPlace m p i q (old, here) =
    let (qs, e, f) = quote_at-Holds m p i old here in
    (
      put_entry m p (set qs i (some q)),
      rw e refl,
      λ r j place.
          let (held, there) = place in
          let (rs, g, k) = quote_at-Holds m r j held there in
          elim (Bool-cases (p == r)) [
            | inl same ↦
                let p_r : p ≡ r = ground arith in
                let rs_qs : rs ≡ qs = ground (arith, sym g ∙ (rw p_r at e)) in
                let found = has_elem-set qs i j (some q) (some held) (rw (← rs_qs) k) in
                elim found [
                  | inl new ↦ (
                    q,
                    Holds-quote_at _ r j q (
                      set qs i (some q),
                      rw (entry_of-put_entry m p r (set qs i (some q)), same) refl,
                      new,
                    ),
                  )
                  | inr kept ↦ (
                    held,
                    Holds-quote_at _ r j held (
                      set qs i (some q),
                      rw (entry_of-put_entry m p r (set qs i (some q)), same) refl,
                      kept,
                    ),
                  )
                ]
            | inr other ↦ (
              held,
              Holds-quote_at _ r j held
                  (rs, rw (entry_of-put_entry m p r (set qs i (some q)), other) g, k),
            )
          ],
    )
