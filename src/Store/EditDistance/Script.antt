-- ===== src/Store/EditDistance/Script.antt =====
-- Edit scripts between two rows of characters, which say what `editDistance` of
-- internal/store/memory.go measures: characters are kept, changed, dropped or added.
use Prim.Native.Char.{Char}
use code_co_driver.Prelude.{ℕ, zero, suc, ◌+◌, ◌≡◌, List, [], ◌∷◌, ◌++◌, arith}
use mathlib.Core.Path.{subst}
use mathlib.Core.List.{reverse, reverse-cons, append-nil}

-- A script that turns the first row into the second with so many edits.
pub data Script : List Char → List Char → ℕ → Type 0 where
  done : Script [] [] zero
  keep : {c : Char} {xs ys : List Char} {n : ℕ} → Script xs ys n → Script (c ∷ xs) (c ∷ ys) n
  change :
      {c d : Char} {xs ys : List Char} {n : ℕ} → Script xs ys n → Script (c ∷ xs) (d ∷ ys) (suc n)
  remove : {c : Char} {xs ys : List Char} {n : ℕ} → Script xs ys n → Script (c ∷ xs) ys (suc n)
  add : {d : Char} {xs ys : List Char} {n : ℕ} → Script xs ys n → Script xs (d ∷ ys) (suc n)

pub Script-symm : {xs ys : List Char} {n : ℕ} → Script xs ys n → Script ys xs n
Script-symm done = done
Script-symm (keep s) = keep (Script-symm s)
Script-symm (change s) = change (Script-symm s)
Script-symm (remove s) = add (Script-symm s)
Script-symm (add s) = remove (Script-symm s)

recount : {xs ys : List Char} {n k : ℕ} → n ≡ k → Script xs ys n → Script xs ys k
recount {xs} {ys} e s = subst (Script xs ys) e s

Script-append :
    {xs ys zs ws : List Char} {n k : ℕ}
    → Script xs ys n
    → Script zs ws k
    → Script (xs ++ zs) (ys ++ ws) (n + k)
Script-append done t = recount (omega arith) t
Script-append (keep s) t = keep (Script-append s t)
Script-append (change s) t = recount (omega arith) (change (Script-append s t))
Script-append (remove s) t = recount (omega arith) (remove (Script-append s t))
Script-append (add s) t = recount (omega arith) (add (Script-append s t))

-- A script can be run from the other end.
pub Script-reverse :
    {xs ys : List Char} {n : ℕ} → Script xs ys n → Script (reverse xs) (reverse ys) n
Script-reverse done = done
Script-reverse (keep {c} {xs} {ys} s) =
    rw (reverse-cons c xs, reverse-cons c ys)
      (recount (omega arith) (Script-append (Script-reverse s) (keep done)))
Script-reverse (change {c} {d} {xs} {ys} s) =
    rw (reverse-cons c xs, reverse-cons d ys)
      (recount (omega arith) (Script-append (Script-reverse s) (change done)))
Script-reverse (remove {c} {xs} {ys} {n} s) = rw (reverse-cons c xs) (
    subst (λ ws. Script (reverse xs ++ c ∷ []) ws (suc n)) (append-nil (reverse ys))
      (recount (omega arith) (Script-append (Script-reverse s) (remove done))))
Script-reverse (add {d} {xs} {ys} {n} s) = rw (reverse-cons d ys) (
    subst (λ ws. Script ws (reverse ys ++ d ∷ []) (suc n)) (append-nil (reverse xs))
      (recount (omega arith) (Script-append (Script-reverse s) (add done))))
