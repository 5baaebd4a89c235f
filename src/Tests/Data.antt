-- ===== src/Tests/Data.antt =====
-- The data that the tests share: floats that are numbers, ASCII letters, a store, a Redis server.
use code_co_driver.Prelude.{
  ltb, leb, nat_eq, Bool-cases, Option-cases, is_some, if◌then◌else◌, ok, ℕ, ◌+◌, ◌*◌, ◌/◌, ◌≤◌,
  ◌<◌, String, ◌≡◌, refl, sym, ap, ◌∙◌, ◌⊎◌, inl, inr, Bool, true, false, ◌&&◌, Option, none, some,
  List, [], ◌∷◌, arith, ◌==◌, eq_iff, eq_refl,
}
use Prim.Native.Char.{code}
use mathlib.Core.Path.{subst}
use mathlib.Core.Option.{some-injective}
use mathlib.Core.Bool.{true≢false}
use code_co_driver.Prelude.Dict.{Dict, get, put, delete, get_or, get-put, get_or-put, get-delete}
use code_co_driver.Prelude.Text.{Unicode}
use code_co_driver.Prelude.Float.{Float}
use code_co_driver.Domain.{Task, TaskRun, TaskStatus, MemoryEntry, created, planning}
use code_co_driver.Store.{Memory, EmbeddingProvider, new_memory_with_embedding, add_task, add_run}
use code_co_driver.Agents.Values.{Codec}
use code_co_driver.Lease.{replied, Lease, Redis, RedisLaws, KeepsOthers}

abbrev pub floats : Float ℕ
floats = record {
  lit = λ m k. m;
  of_nat = λ n. n;
  add = λ a b. a + b;
  mul = λ a b. a * b;
  div = λ a b. a / b;
  sqrt = λ a. a;
  lt = ltb;
  eq = nat_eq;
}

abbrev pub ascii : Unicode
ascii = record {
  to_lower = λ c. c;
  to_upper = λ c. c;
  is_letter = λ c. leb 97 (code c) && leb (code c) 122;
  is_number = λ c. leb 48 (code c) && leb (code c) 57;
  is_han = λ c. leb 0x4E00 (code c);
}

-- An encoder of nothing.
abbrev pub codec : Codec ℕ
codec = record {
  encode = λ v. ok "{}";
  encode_indent = λ v. ok "{}";
  encode_notes = λ v. ok "{}";
  decode = λ s. none;
  decode_decision = λ s. none;
  decode_feedback = λ s. none;
  decode_verdict = λ s. none;
  decode_notes = λ s. none;
  quote = λ s. s;
  two_digits = λ n. "0.00";
}

abbrev pub local_embedding : EmbeddingProvider ℕ
local_embedding = record { name = "local"; embed = λ values. none }

abbrev pub empty_store : Memory ℕ String
empty_store = new_memory_with_embedding String local_embedding none

abbrev pub task_in : String → TaskStatus → ℕ → Task
task_in id status created_at = record {
  id = id;
  repository_id = "repo-1";
  title = "fix";
  description = "fix the parser";
  skill_name = "";
  status = status;
  error = "";
  memory_mode = "with_memory";
  created_at = created_at;
  updated_at = created_at;
}

abbrev pub run_of : String → String → ℕ → TaskRun
run_of id task_id token = record {
  id = id;
  task_id = task_id;
  status = planning;
  fencing_token = token;
  started_at = 3;
  ended_at = 0;
}

-- Two tasks, of which the first has two runs.
abbrev pub busy_store : Memory ℕ String
busy_store =
    add_run
      (add_run
        (add_task (add_task empty_store (task_in "task-1" planning 1)) (task_in "task-2" created 2))
        (run_of "run-1" "task-1" 1))
      (run_of "run-2" "task-1" 2)

abbrev pub entry_of : String → String → MemoryEntry ℕ
entry_of id title = record {
  id = id;
  repository_id = "repo-1";
  task_id = "task-1";
  kind = "execution_success";
  content = title;
  title = title;
  summary = title;
  symptom = "";
  root_cause = "";
  changed_files = "parser.go" ∷ [];
  symbols = [];
  test_command = "";
  verification_evidence = "";
  success_score = 1;
  source_run_id = "run-1";
  duplicate_of = "";
  conflict_group_id = "";
  condition = "";
  refined_at = none;
  source = "";
  score = 0;
  metadata = [];
  embedding = 1 ∷ 2 ∷ [];
  links = [];
  last_accessed_at = 0;
  access_count = 0;
  created_at = 1;
}

abbrev pub two_entries : List (MemoryEntry ℕ)
two_entries = entry_of "memory-1" "parser fix" ∷ entry_of "memory-2" "parser fix again" ∷ []

abbrev pub knowing_store : Memory ℕ String
knowing_store = record busy_store { memories = two_entries }

-- A server that is always reached and heard.
pub record Server : Type 0 where
  pub values : Dict String
  pub counters : Dict ℕ

abbrev pub server : Redis Server
server = record {
  value = λ s k. get s.values k;
  counter = λ s k. get_or s.counters k 0;
  incr = λ s k.
      let n = get_or s.counters k 0 + 1 in (some n, record s { counters = put s.counters k n });
  set_nx = λ s k v ttl.
      if is_some (get s.values k)
      then (some false, s)
      else (some true, record s { values = put s.values k v });
  pexpire = λ s k ttl. ((if is_some (get s.values k) then 1 else 0), s);
  del =
      λ s k. ((if is_some (get s.values k) then 1 else 0), record s { values = delete s.values k });
  fate = λ s. replied;
}

keeps_all : (k : String) (s : Server) → KeepsOthers server k s s
keeps_all k s = record { values_kept = λ j. inr refl; counters_kept = λ j. inr refl }

put_keeps :
    {A : Type 0} (m : Dict A) (k j : String) (v : A) → (k ≡ j) ⊎ (get (put m k v) j ≡ get m j)
put_keeps m k j v = elim (Bool-cases (k == j)) [
  | inl e ↦ inl ((eq_iff k j).0 e)
  | inr e ↦ inr (get-put m k j v ∙ ap (λ b. if b then some v else get m j) e)
]

incr_keeps :
    (s : Server) (k : String) (n : ℕ)
    → KeepsOthers server k s (record s { counters = put s.counters k n })
incr_keeps s k n = record {
  values_kept = λ j. inr refl;
  counters_kept = λ j. elim (Bool-cases (k == j)) [
    | inl e ↦ inl ((eq_iff k j).0 e)
    | inr e ↦
        inr (get_or-put s.counters k j n 0 ∙ ap (λ b. if b then n else get_or s.counters j 0) e)
  ];
}

-- The count after an INCR.
incr_count :
    (s : Server) (k : String)
    → let c = get_or s.counters k 0 + 1 in get_or (put s.counters k c) k 0 ≡ c
incr_count s k =
    let c = get_or s.counters k 0 + 1 in
    get_or-put s.counters k k c 0 ∙ ap (λ b. if b then c else get_or s.counters k 0) (eq_refl k)

set_value : (s : Server) (k v : String) → get (put s.values k v) k ≡ some v
set_value s k v =
    get-put s.values k k v ∙ ap (λ b. if b then some v else get s.values k) (eq_refl k)

pub true-not-false :
    {s s' : Server} → ¬ (◌≡◌ {A = Option Bool × Server} (some true, s) (some false, s'))
true-not-false e = true≢false (some-injective true false (ap (λ (p : Option Bool × Server). p.0) e))

pub server_laws : RedisLaws server
server_laws = record {
  incr_counts = λ s k n s' e.
      let c = get_or s.counters k 0 + 1 in
      let same : c ≡ n = some-injective c n (ap (λ (p : Option ℕ × Server). p.0) e) in
      (
        subst (λ x. get_or s.counters k 0 < x) same (omega arith),
        subst (λ (x : Server). get_or x.counters k 0 ≡ n) (ap (λ (p : Option ℕ × Server). p.1) e)
            (incr_count s k ∙ same),
      );
  incr_keeps = λ s k o s' e.
      subst
        (λ (x : Server). (get_or s.counters k 0 ≤ get_or x.counters k 0) × KeepsOthers server k s x)
        (ap (λ (p : Option ℕ × Server). p.1) e)
        (omega (arith, incr_count s k), incr_keeps s k (get_or s.counters k 0 + 1));
  set_nx_sets = λ s k v ttl s' e. elim (Option-cases (get s.values k)) [
    | inl n ↦
        let e' : ◌≡◌ {A = Option Bool × Server} (some true, record s { values = put s.values k v })
            (some true, s') =
          rw n at e in
        (
          n,
          subst (λ (x : Server). get x.values k ≡ some v)
              (ap (λ (p : Option Bool × Server). p.1) e') (set_value s k v),
        )
    | inr (w, h) ↦
        let e' : ◌≡◌ {A = Option Bool × Server} (some false, s) (some true, s') = rw h at e in
        absurd (true-not-false (sym e'))
  ];
  set_nx_finds = λ s k v ttl s' e free. elim (Option-cases (get s.values k)) [
    | inl n ↦
        let e' : ◌≡◌ {A = Option Bool × Server} (some true, record s { values = put s.values k v })
            (some false, s') =
          rw n at e in
        true-not-false e'
    | inr (w, h) ↦
        let e' : ◌≡◌ {A = Option Bool × Server} (some false, s) (some false, s') = rw h at e in
        cc (sym h ∙ ap (λ (p : Option Bool × Server). get p.1.values k) e' ∙ free)
  ];
  set_nx_keeps = λ s k v ttl o s' e. elim (Option-cases (get s.values k)) [
    | inl n ↦
        let e' : ◌≡◌ {A = Option Bool × Server} (some true, record s { values = put s.values k v })
            (o, s') =
          rw n at e in
        subst
          (λ (x : Server).
            ((get x.values k ≡ get s.values k)
              ⊎ ((get s.values k ≡ none) × (get x.values k ≡ some v)))
            × KeepsOthers server k s x)
          (ap (λ (p : Option Bool × Server). p.1) e')
          (
            inr (n, set_value s k v),
            record { values_kept = λ j. put_keeps s.values k j v; counters_kept = λ j. inr refl },
          )
    | inr (w, h) ↦
        let e' : ◌≡◌ {A = Option Bool × Server} (some false, s) (o, s') = rw h at e in
        subst
          (λ (x : Server).
            ((get x.values k ≡ get s.values k)
              ⊎ ((get s.values k ≡ none) × (get x.values k ≡ some v)))
            × KeepsOthers server k s x)
          (ap (λ (p : Option Bool × Server). p.1) e') (inl refl, keeps_all k s)
  ];
  pexpire_counts = λ s k v ttl h e. (rw e refl, e);
  pexpire_keeps = λ s k ttl. keeps_all k s;
  del_removes = λ s k. (
    get-delete s.values k k ∙ ap (λ b. if b then none else get s.values k) (eq_refl k),
    record {
      values_kept = λ j. elim (Bool-cases (k == j)) [
        | inl e ↦ inl ((eq_iff k j).0 e)
        | inr e ↦ inr (get-delete s.values k j ∙ ap (λ b. if b then none else get s.values j) e)
      ];
      counters_kept = λ j. inr refl;
    },
  );
}

abbrev pub lease_1 : Lease
lease_1 = record { task_id = "task-1"; worker_id = "worker-a"; token = 1 }

abbrev pub idle_server : Server
idle_server = record { values = []; counters = [] }
