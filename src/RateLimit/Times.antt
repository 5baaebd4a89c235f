-- ===== src/RateLimit/Times.antt =====
-- internal/server/rate_limit.go: the times that are kept for a client.
use code_co_driver.Prelude.{
  ltb, leb, Bool-cases, length, count, All, All-append, All-map_weaken, ℕ, ◌≤◌, ◌≡◌, refl, sym, ◌∙◌,
  inl, inr, false, List, [], ◌∷◌, ◌++◌, arith,
}
use code_co_driver.RateLimit.{drop_before}

-- The times do not fall.
abbrev pub Ordered : List ℕ → Type 0
Ordered [] = Unit
Ordered (t ∷ ts) = All (λ s. t ≤ s) ts × Ordered ts

pub Ordered-append :
    (t : ℕ) (ts : List ℕ) → Ordered ts → All (λ s. s ≤ t) ts → Ordered (ts ++ t ∷ [])
Ordered-append t [] o h = (tt, tt)
Ordered-append t (s ∷ ts) o h =
    (All-append (λ r. s ≤ r) ts (t ∷ []) o.0 (h.0, tt), Ordered-append t ts o.1 h.1)

pub All-drop_before {κ} :
    (P : ℕ → Type κ) (c : ℕ) (ts : List ℕ) → All P ts → All P (drop_before c ts)
unfolding drop_before
All-drop_before P c [] h = h
All-drop_before P c (t ∷ ts) h = elim (Bool-cases (ltb t c)) [
  | inl old ↦ rw old (All-drop_before P c ts h.1)
  | inr young ↦ rw young h
]

pub drop_before-Ordered : (c : ℕ) (ts : List ℕ) → Ordered ts → Ordered (drop_before c ts)
unfolding drop_before
drop_before-Ordered c [] o = o
drop_before-Ordered c (t ∷ ts) o = elim (Bool-cases (ltb t c)) [
  | inl old ↦ rw old (drop_before-Ordered c ts o.1)
  | inr young ↦ rw young o
]

-- What is left of ordered times is not before the cutoff.
drop_before-All : (c : ℕ) (ts : List ℕ) → Ordered ts → All (λ t. c ≤ t) (drop_before c ts)
unfolding drop_before
drop_before-All c [] o = tt
drop_before-All c (t ∷ ts) o = elim (Bool-cases (ltb t c)) [
  | inl old ↦ rw old (drop_before-All c ts o.1)
  | inr young ↦
      let here : c ≤ t = ground arith in rw young (here, All-map_weaken ts (λ s k. omega arith) o.0)
]

count-All : (c : ℕ) (ts : List ℕ) → All (λ t. c ≤ t) ts → count (leb c) ts ≡ length ts
count-All c [] h = refl
count-All c (t ∷ ts) h = ground (arith, count-All c ts h.1, h.0)

pub count-drop_before :
    (c d : ℕ) (ts : List ℕ) → c ≤ d → count (leb d) (drop_before c ts) ≡ count (leb d) ts
unfolding drop_before
count-drop_before c d [] h = refl
count-drop_before c d (t ∷ ts) h = elim (Bool-cases (ltb t c)) [
  | inl old ↦
      let out : leb d t ≡ false = ground arith in
      rw (old, out) (omega (arith, count-drop_before c d ts h))
  | inr young ↦ rw young
]

-- As many times are left as are not before the cutoff.
pub length-drop_before :
    (c : ℕ) (ts : List ℕ) → Ordered ts → length (drop_before c ts) ≡ count (leb c) ts
length-drop_before c ts o =
    sym (count-All c (drop_before c ts) (drop_before-All c ts o))
    ∙ count-drop_before c c ts (omega arith)
