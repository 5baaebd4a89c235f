-- ===== src/Lease.antt =====
-- internal/lease: leases on tasks, kept in Redis. The Redis client is a parameter: its commands,
-- as functions on the server's state, with what their documentation says of them.
pub mod Keys
pub mod Exclusion
pub mod Fencing
pub mod Tokens
pub mod Spec
pub mod Stored
pub mod Refines
use Prim.Native.String.{◌++◌ as append}
use code_co_driver.Prelude.{
  ltb, leb, nat_eq, nat_eq_iff, ltb→lt, leb→le, Bool-cases, Option-cases, List-cases, is_some,
  if◌then◌else◌, length, take, select, any, find_first, count, get_last?, All, IsDistinct,
  All-append, All-if, All-map_weaken, All-take, length-append, length-take, count-append,
  length-map, Outcome, ok, err, ◌>>=◌, or_error, first_error, ℕ, zero, suc, ◌+◌, ◌-◌, ◌*◌, ◌/◌, ◌%◌,
  ◌≤◌, ◌<◌, String, ◌≡◌, refl, sym, ap, ◌∙◌, ◌≢◌, ◌↔◌, ◌⊎◌, inl, inr, Bool, true, false, ◌&&◌, ◌||◌,
  not, Option, none, some, List, [], ◌∷◌, ◌++◌, map, arith, ◌==◌, eq_iff, eq_refl,
}
use code_co_driver.Prelude.Decimal.{numbered}

-- lease.go, `Lease`.
pub record Lease : Type 0 where
  pub task_id : String
  pub worker_id : String
  pub token : ℕ

-- What becomes of a script that the client sends: it is run and its answer comes back, it is run
-- and the answer is lost, or it does not get to the server.
pub data Fate : Type 0 where
  replied unheard unsent : Fate

-- The commands, as the client carries them out: it may send one again whose answer it did not hear,
-- so a command may be run more than once, and with `none`, an error, it may have been run or not.
-- A script is run on the server, and `fate` says what becomes of it.
pub record Redis (S : Type 0) : Type 0 where
  pub value : S → String → Option String
  pub counter : S → String → ℕ
  pub incr : S → String → Option ℕ × S
  pub set_nx : S → String → String → ℕ → Option Bool × S
  pub pexpire : S → String → ℕ → ℕ × S
  pub del : S → String → ℕ × S
  pub fate : S → Fate

-- All but the key is as it was.
pub record KeepsOthers {S : Type 0} (r : Redis S) (k : String) (s s' : S) : Type 0 where
  pub values_kept : (j : String) → (k ≡ j) ⊎ (r.value s' j ≡ r.value s j)
  pub counters_kept : (j : String) → (k ≡ j) ⊎ (r.counter s' j ≡ r.counter s j)

-- What Redis documents of INCR, SET with NX, PEXPIRE and DEL, where a command may be run more than
-- once and its answer may be lost.
pub record RedisLaws {S : Type 0} (r : Redis S) : Type 0 where
  pub incr_counts :
      (s : S) (k : String) (n : ℕ) (s' : S)
      → r.incr s k ≡ (some n, s')
      → (r.counter s k < n) × (r.counter s' k ≡ n)
  pub incr_keeps :
      (s : S) (k : String) (o : Option ℕ) (s' : S)
      → r.incr s k ≡ (o, s')
      → (r.counter s k ≤ r.counter s' k) × KeepsOthers r k s s'
  pub set_nx_sets :
      (s : S) (k v : String) (ttl : ℕ) (s' : S)
      → r.set_nx s k v ttl ≡ (some true, s')
      → (r.value s k ≡ none) × (r.value s' k ≡ some v)
  pub set_nx_finds :
      (s : S) (k v : String) (ttl : ℕ) (s' : S)
      → r.set_nx s k v ttl ≡ (some false, s')
      → r.value s' k ≢ none
  pub set_nx_keeps :
      (s : S) (k v : String) (ttl : ℕ) (o : Option Bool) (s' : S)
      → r.set_nx s k v ttl ≡ (o, s')
      → ((r.value s' k ≡ r.value s k) ⊎ ((r.value s k ≡ none) × (r.value s' k ≡ some v)))
        × KeepsOthers r k s s'
  pub pexpire_counts :
      (s : S) (k v : String) (ttl : ℕ)
      → 0 < ttl
      → r.value s k ≡ some v
      → ((r.pexpire s k ttl).0 ≡ 1) × (r.value (r.pexpire s k ttl).1 k ≡ some v)
  pub pexpire_keeps : (s : S) (k : String) (ttl : ℕ) → KeepsOthers r k s (r.pexpire s k ttl).1
  pub del_removes :
      (s : S) (k : String) → (r.value (r.del s k).1 k ≡ none) × KeepsOthers r k s (r.del s k).1

-- The results of `TryClaim`.
pub data Claim : Type 0 where
  granted : Lease → Claim
  taken : Claim
  failed : Claim

-- The errors of `Renew`: `ErrStaleLease`, or one of the client.
pub data LeaseError : Type 0 where
  stale_lease client_error : LeaseError

unfoldable pub lease_key : String → String
lease_key task_id = append "codecodriver:task:" (append task_id ":lease")

unfoldable pub fencing_key : String → String
fencing_key task_id = append "codecodriver:task:" (append task_id ":fencing")

-- `fmt.Sprintf("%s:%d", …)`
unfoldable pub lease_value : String → ℕ → String
lease_value worker_id token = numbered ":" worker_id token

-- 45 seconds, in milliseconds.
abbrev pub redis_default_ttl : ℕ
redis_default_ttl = 45000

abbrev pub ttl_or_default : ℕ → ℕ
ttl_or_default ttl = if nat_eq ttl 0 then redis_default_ttl else ttl

abbrev pub is_value : Option String → String → Bool
is_value none v = false
is_value (some w) v = w == v

module _ {S : Type 0} (r : Redis S) where
  -- What `TryClaim` makes of the answer of SETNX.
  unfoldable pub after_set : Lease → Option Bool × S → Claim × S
  after_set l (none, s) = (failed, s)
  after_set l (some true, s) = (granted l, s)
  after_set l (some false, s) = (taken, s)

  -- What `TryClaim` makes of the answer of INCR.
  unfoldable pub after_incr : String → String → ℕ → Option ℕ × S → Claim × S
  unfolding after_set
  after_incr worker_id task_id ttl (none, s) = (failed, s)
  after_incr worker_id task_id ttl (some token, s) =
      after_set (record { task_id = task_id; worker_id = worker_id; token = token })
        (r.set_nx s (lease_key task_id) (lease_value worker_id token) (ttl_or_default ttl))

  -- `TryClaim`
  unfoldable pub try_claim : String → S → String → ℕ → Claim × S
  unfolding after_incr
  try_claim worker_id s task_id ttl =
      after_incr worker_id task_id ttl (r.incr s (fencing_key task_id))

  -- The test of both scripts: `redis.call("GET", KEYS[1]) == ARGV[1]`.
  unfoldable pub is_current : S → Lease → Bool
  is_current s l = is_value (r.value s (lease_key l.task_id)) (lease_value l.worker_id l.token)

  -- What a call answers, and leaves, if its script comes to the answer and the state: an error of
  -- the client comes first.
  abbrev pub reported : Fate → S → Option LeaseError × S → Option LeaseError × S
  reported replied s (e, s') = (e, s')
  reported unheard s (e, s') = (some client_error, s')
  reported unsent s (e, s') = (some client_error, s)

  -- `Renew`
  unfoldable pub renew : S → Lease → ℕ → Option LeaseError × S
  unfolding is_current
  renew s l ttl =
      let (result, s') = r.pexpire s (lease_key l.task_id) (ttl_or_default ttl) in
      reported (r.fate s) s (
        if is_current s l
        then ((if nat_eq result 0 then some stale_lease else none), s')
        else (some stale_lease, s))

  -- `Release`
  unfoldable pub release : S → Lease → Option LeaseError × S
  unfolding is_current
  release s l =
      reported (r.fate s) s
        (none, (if is_current s l then (r.del s (lease_key l.task_id)).1 else s))
