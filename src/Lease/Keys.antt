-- ===== src/Lease/Keys.antt =====
-- internal/lease/redis.go: the keys of different tasks and the values of different leases differ.
use Prim.Native.Char.{Char, code}
use Prim.Native.String.{◌++◌ as append}
use code_co_driver.Prelude.{ℕ, String, ◌≡◌, ap, ◌≢◌, arith}
use text.Mathlib.TextLemmas.{nil-append, cons-append, append_cancel_right, append_cancel_left}
use code_co_driver.Prelude.Decimal.Injective.{numbered_injective}
use code_co_driver.Lease.{lease_key, fencing_key, lease_value}

-- The code of the last character.
last_code : ℕ → String → ℕ
last_code z String.[] = z
last_code z (String.◌∷◌ c s) = last_code (code c) s

last_code-append :
    (z : ℕ) (s : String) (c : Char) (t : String)
    → last_code z (append s (String.◌∷◌ c t)) ≡ last_code (code c) t
unfolding last_code
last_code-append z String.[] c t = rw nil-append
last_code-append z (String.◌∷◌ d s) c t = rw cons-append (last_code-append (code d) s c t)

pub lease_key_injective : (t t' : String) → lease_key t ≡ lease_key t' → t ≡ t'
unfolding lease_key
lease_key_injective t t' e =
    append_cancel_right t t' ":lease"
      (append_cancel_left "codecodriver:task:" (append t ":lease") (append t' ":lease") e)

pub fencing_key_injective : (t t' : String) → fencing_key t ≡ fencing_key t' → t ≡ t'
unfolding fencing_key
fencing_key_injective t t' e =
    append_cancel_right t t' ":fencing"
      (append_cancel_left "codecodriver:task:" (append t ":fencing") (append t' ":fencing") e)

pub lease_key-ne-fencing_key : (t t' : String) → lease_key t ≢ fencing_key t'
unfolding lease_key fencing_key last_code
lease_key-ne-fencing_key t t' e =
    let same =
      append_cancel_left "codecodriver:task:" (append t ":lease") (append t' ":fencing") e in
    absurd (
      omega (
        arith,
        ap (last_code 0) same,
        last_code-append 0 t ":" "lease",
        last_code-append 0 t' ":" "fencing",
      ))

pub lease_value_injective :
    (w w' : String) (n n' : ℕ) → lease_value w n ≡ lease_value w' n' → (w ≡ w') × (n ≡ n')
unfolding lease_value
lease_value_injective w w' n n' e = numbered_injective ":" (omega arith) w w' n n' e
