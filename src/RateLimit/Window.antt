-- ===== src/RateLimit/Window.antt =====
-- internal/server/rate_limit.go: the limiter is a sliding window over the requests passed on.
use code_co_driver.Prelude.{
  ltb, leb, nat_eq, Bool-cases, if◌then◌else◌, length, count, All, All-append, All-map_weaken,
  count-append, ℕ, ◌+◌, ◌-◌, ◌≤◌, ◌<◌, String, ◌≡◌, refl, sym, ap, ◌∙◌, inl, inr, Bool, false, ◌&&◌,
  List, [], ◌∷◌, ◌++◌, arith, ◌==◌, eq_iff, eq_refl,
}
use code_co_driver.Prelude.Dict.{get_or, put, get_or-put}
use code_co_driver.RateLimit.{RateLimiter, new_rate_limiter, drop_before, admit}
use code_co_driver.RateLimit.Times.{
  Ordered, Ordered-append, All-drop_before, drop_before-Ordered, count-drop_before,
  length-drop_before,
}

pub record Request : Type 0 where
  pub at : ℕ
  pub client : String

-- The requests of a row that are passed on, the last first, and the limiter behind the row.
pub run : RateLimiter → List Request → List Request → List Request × RateLimiter
run l passed [] = (passed, l)
run l passed (q ∷ qs) =
    let (served, l') = admit l q.at q.client in run l' (if served then q ∷ passed else passed) qs

-- The times do not fall.
abbrev pub Rising : ℕ → List Request → Type 0
Rising t [] = Unit
Rising t (q ∷ qs) = (t ≤ q.at) × Rising q.at qs

abbrev pub is_recent : String → ℕ → Request → Bool
is_recent key cutoff q = q.client == key && leb cutoff q.at

-- A request is passed on where fewer than the limit of the requests of its client that were passed
-- on lie in the window that ends at it.
abbrev pub slide : ℕ → ℕ → List Request → List Request → List Request
slide limit window passed [] = passed
slide limit window passed (q ∷ qs) =
    slide limit window
      (if ltb (count (is_recent q.client (q.at - window)) passed) limit then q ∷ passed else passed)
      qs

-- The times kept for a client, from a cutoff on, are those of its requests that were passed on; they
-- are ordered and not later than now.
record Inv (limit window t : ℕ) (passed : List Request) (l : RateLimiter) : Type 0 where
  same_limit : l.limit ≡ limit
  same_window : l.window ≡ window
  ordered : (key : String) → Ordered (get_or l.clients key [])
  past : (key : String) → All (λ s. s ≤ t) (get_or l.clients key [])
  exact :
      (key : String) (c : ℕ)
      → t - window ≤ c
      → count (is_recent key c) passed ≡ count (leb c) (get_or l.clients key [])

module _ (limit window t : ℕ) (passed : List Request) (l : RateLimiter) (q : Request)
    (positive : 0 < limit) (later : t ≤ q.at) (inv : Inv limit window t passed l) where
  abbrev kept : List ℕ
  kept = drop_before (q.at - l.window) (get_or l.clients q.client [])

  count-kept :
      (key : String) (c : ℕ)
      → q.at - window ≤ c
      → q.client ≡ key
      → count (is_recent key c) passed ≡ count (leb c) kept
  count-kept key c h same =
      inv.exact key c (omega arith)
      ∙ ap (λ k. count (leb c) (get_or l.clients k [])) (sym same)
      ∙ sym (
          count-drop_before (q.at - l.window) c (get_or l.clients q.client [])
            (omega (arith, inv.same_window)))

  length-kept : length kept ≡ count (is_recent q.client (q.at - window)) passed
  length-kept =
      length-drop_before (q.at - l.window) (get_or l.clients q.client []) (inv.ordered q.client)
      ∙ ap (λ w. count (leb (q.at - w)) (get_or l.clients q.client [])) inv.same_window
      ∙ sym (inv.exact q.client (q.at - window) (omega arith))

  kept-past : All (λ s. s ≤ q.at) kept
  kept-past =
      All-drop_before (λ s. s ≤ q.at) (q.at - l.window) (get_or l.clients q.client [])
        (All-map_weaken (get_or l.clients q.client []) (λ s k. omega arith) (inv.past q.client))

  kept-Ordered : Ordered kept
  kept-Ordered =
      drop_before-Ordered (q.at - l.window) (get_or l.clients q.client []) (inv.ordered q.client)

  still-past : (key : String) → All (λ s. s ≤ q.at) (get_or l.clients key [])
  still-past key = All-map_weaken (get_or l.clients key []) (λ s k. omega arith) (inv.past key)

  -- The limiter with other times for the client.
  put-Inv :
      (passed' : List Request) (times : List ℕ)
      → Ordered times
      → All (λ s. s ≤ q.at) times
      → ((c : ℕ) → q.at - window ≤ c → count (is_recent q.client c) passed' ≡ count (leb c) times)
      → ((key : String) (c : ℕ)
          → q.client == key ≡ false
          → count (is_recent key c) passed' ≡ count (is_recent key c) passed)
      → Inv limit window q.at passed' (record l { clients = put l.clients q.client times })
  put-Inv passed' times o p here elsewhere = record {
    same_limit = inv.same_limit;
    same_window = inv.same_window;
    ordered = λ key.
        rw (get_or-put l.clients q.client key times [])
          (elim (Bool-cases (q.client == key)) [ inl e ↦ rw e o | inr e ↦ rw e (inv.ordered key) ]);
    past = λ key.
        rw (get_or-put l.clients q.client key times [])
          (elim (Bool-cases (q.client == key)) [ inl e ↦ rw e p | inr e ↦ rw e (still-past key) ]);
    exact = λ key c h.
        rw (get_or-put l.clients q.client key times []) (elim (Bool-cases (q.client == key)) [
          | inl e ↦
              rw e (
                ap (λ k. count (is_recent k c) passed') (sym ((eq_iff q.client key).0 e))
                ∙ here c h)
          | inr e ↦ rw e (elsewhere key c e ∙ inv.exact key c (omega arith))
        ]);
  }

  one_more :
      (c : ℕ)
      → count (is_recent q.client c) (q ∷ []) + count (leb c) kept
        ≡ count (leb c) (kept ++ q.at ∷ [])
  one_more c = rw (eq_refl q.client, count-append (leb c) kept (q.at ∷ [])) (omega arith)

  admit-Inv :
      let (served, l') = admit l q.at q.client in
      Inv limit window q.at (if served then q ∷ passed else passed) l'
  unfolding admit
  admit-Inv =
      let on : nat_eq l.limit 0 ≡ false = ground (arith, inv.same_limit) in
      rw on (elim (Bool-cases (leb l.limit (length kept))) [
        | inl full ↦ rw full (
            put-Inv passed kept kept-Ordered kept-past (λ c h. count-kept q.client c h refl)
              (λ key c other. refl))
        | inr free ↦ rw free (
            put-Inv (q ∷ passed) (kept ++ q.at ∷ [])
              (Ordered-append q.at kept kept-Ordered kept-past)
              (All-append (λ s. s ≤ q.at) kept (q.at ∷ []) kept-past (omega arith, tt))
              (λ c h. omega (arith, one_more c, count-kept q.client c h refl))
              (λ key c other. rw other (omega arith)))
      ])

  admit-slides :
      (admit l q.at q.client).0 ≡ ltb (count (is_recent q.client (q.at - window)) passed) limit
  unfolding admit
  admit-slides =
      let on : nat_eq l.limit 0 ≡ false = ground (arith, inv.same_limit) in
      rw on (elim (Bool-cases (leb l.limit (length kept))) [
        | inl full ↦ rw full (ground (arith, length-kept, inv.same_limit, full))
        | inr free ↦ rw free (ground (arith, length-kept, inv.same_limit, free))
      ])

run-slides :
    (limit window t : ℕ) (passed : List Request) (l : RateLimiter) (qs : List Request)
    → 0 < limit
    → Rising t qs
    → Inv limit window t passed l
    → (run l passed qs).0 ≡ slide limit window passed qs
unfolding run
run-slides limit window t passed l [] positive rising inv = refl
run-slides limit window t passed l (q ∷ qs) positive rising inv =
    let (served, l') = admit l q.at q.client in
    run-slides limit window q.at (if served then q ∷ passed else passed) l' qs positive rising.1
      (admit-Inv limit window t passed l q positive rising.0 inv)
    ∙ ap (λ b. slide limit window (if b then q ∷ passed else passed) qs)
        (admit-slides limit window t passed l q positive rising.0 inv)

-- A new limiter with a positive limit passes on, of requests at times that do not fall, exactly those
-- that the sliding window passes on: those where fewer than the limit of the requests of the same
-- client that were passed on before lie in the window that ends at the request.
pub new_rate_limiter-slides :
    (limit window : ℕ) (qs : List Request)
    → 0 < limit
    → Rising 0 qs
    → (run (new_rate_limiter limit window) [] qs).0 ≡ slide limit window [] qs
new_rate_limiter-slides limit window qs positive rising =
    run-slides limit window 0 [] (new_rate_limiter limit window) qs positive rising start
  where
    start : Inv limit window 0 [] (new_rate_limiter limit window)
    start =
        unfold new_rate_limiter get_or in
        record {
          same_limit = refl;
          same_window = refl;
          ordered = λ key. tt;
          past = λ key. tt;
          exact = λ key c h. refl;
        }
