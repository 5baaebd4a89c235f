-- ===== src/RateLimit.antt =====
-- internal/server/rate_limit.go: the limit on the requests of a client within a window of time.
-- Times and the window are in nanoseconds; a limit of 0 stands for every one that is not positive.
pub mod Times
pub mod Window
use Prim.Native.Char.{code}
use code_co_driver.Prelude.{
  ltb, leb, nat_eq, if◌then◌else◌, length, ℕ, ◌+◌, ◌-◌, String, Bool, true, false, Option, none,
  some, List, [], ◌∷◌, ◌++◌,
}
use code_co_driver.Prelude.Text.{trim_space, is_empty}
use code_co_driver.Prelude.Dict.{Dict, get_or, put}

pub record RateLimiter : Type 0 where
  pub limit : ℕ
  pub window : ℕ
  pub clients : Dict (List ℕ)

-- `newRateLimiter`
unfoldable pub new_rate_limiter : ℕ → ℕ → RateLimiter
new_rate_limiter limit window = record { limit = limit; window = window; clients = [] }

-- `strings.Split(s, ",")[0]`
unfoldable pub before_comma : String → String
before_comma String.[] = String.[]
before_comma (String.◌∷◌ c s) =
    if nat_eq (code c) b',' then String.[] else String.◌∷◌ c (before_comma s)

-- `clientIP`, from the header `X-Forwarded-For` and the remote address; `net.SplitHostPort` is a
-- parameter, which is `none` on an error.
unfoldable pub client_ip : (String → Option String) → String → String → String
unfolding before_comma
client_ip split_host_port forwarded_for remote_addr =
    let forwarded = trim_space (before_comma forwarded_for) in
    if is_empty forwarded
    then elim (split_host_port (trim_space remote_addr)) [ none ↦ remote_addr | some host ↦ host ]
    else forwarded

-- `requests[first:]`, behind those before the cutoff.
unfoldable pub drop_before : ℕ → List ℕ → List ℕ
drop_before cutoff [] = []
drop_before cutoff (t ∷ ts) = if ltb t cutoff then drop_before cutoff ts else t ∷ ts

-- The middleware: whether the request is passed on, and the limiter behind it.
unfoldable pub admit : RateLimiter → ℕ → String → Bool × RateLimiter
unfolding drop_before
admit l now key =
    let requests = drop_before (now - l.window) (get_or l.clients key []) in
    if nat_eq l.limit 0
    then (true, l)
    else if leb l.limit (length requests)
    then (false, record l { clients = put l.clients key requests })
    else (true, record l { clients = put l.clients key (requests ++ now ∷ []) })
