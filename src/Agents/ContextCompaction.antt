-- ===== src/Agents/ContextCompaction.antt =====
-- internal/runtime/compaction.go: the values of a context that are shortened.
use code_co_driver.Prelude.{
  ltb, leb, if◌then◌else◌, ℕ, zero, suc, ◌-◌, String, Option, none, some, List, [], ◌∷◌,
}
use code_co_driver.Prelude.Text.{join}
use Prim.Native.Nat.{min}
use code_co_driver.Prelude.Decimal.{decimal}
use code_co_driver.Agents.Values.{
  Value, Fields, Objects, Report, text, number, names, object, test_report, history, no_fields,
  field, no_objects, entry, lookup, assign, as_text, as_report, as_history, count_entries,
}
use code_co_driver.Agents.Compaction.{CompactConfig, compact_string}

module _ {F : Type 0} where
  -- Texts of an object, cut; the keys and the other values stay.
  unfoldable pub compact_fields : CompactConfig → Fields F → Fields F
  unfolding compact_string
  compact_fields cfg no_fields = no_fields
  compact_fields cfg (field k (text s) rest) =
      field k (text (compact_string s cfg.max_context_bytes)) (compact_fields cfg rest)
  compact_fields cfg (field k v rest) = field k v (compact_fields cfg rest)

  -- The loops of `compactHeavyContext` over the keys of texts and of objects.
  unfoldable pub compact_text_keys : CompactConfig → List String → Fields F → Fields F
  unfolding compact_string
  compact_text_keys cfg [] context = context
  compact_text_keys cfg (key ∷ keys) context =
      compact_text_keys cfg keys (elim (as_text (lookup context key)) [
        | none ↦ context
        | some value ↦ assign context key (text (compact_string value cfg.max_context_bytes))
      ])

  unfoldable pub compact_value : CompactConfig → Fields F → String → Option (Value F) → Fields F
  unfolding compact_fields
  compact_value cfg context key (some (object raw)) =
      assign context key (object (compact_fields cfg raw))
  compact_value cfg context key _ = context

  unfoldable pub compact_object_keys : CompactConfig → List String → Fields F → Fields F
  unfolding compact_value
  compact_object_keys cfg [] context = context
  compact_object_keys cfg (key ∷ keys) context =
      compact_object_keys cfg keys (compact_value cfg context key (lookup context key))

  -- The report of the tests.
  unfoldable pub compact_report : CompactConfig → Fields F → Option Report → Fields F
  unfolding compact_string
  compact_report cfg context none = context
  compact_report cfg context (some r) = assign context "test" (
      test_report (record r {
        output = compact_string r.output cfg.max_context_bytes;
        error = compact_string r.error cfg.max_context_bytes;
      }))

  -- The entries behind the first `n`, and the first `n`.
  unfoldable pub drop_entries : ℕ → Objects F → Objects F
  drop_entries zero h = h
  drop_entries (suc n) no_objects = no_objects
  drop_entries (suc n) (entry x h) = drop_entries n h

  unfoldable pub take_entries : ℕ → Objects F → Objects F
  take_entries zero h = no_objects
  take_entries (suc n) no_objects = no_objects
  take_entries (suc n) (entry x h) = entry x (take_entries n h)

  -- The lines of the summary.
  unfoldable pub summarise_attempts : (Option (Value F) → String) → Objects F → String
  summarise_attempts shown no_objects = ""
  summarise_attempts shown (entry x h) =
      join
        ("- attempt="
          ∷ shown (lookup x "attempt")
          ∷ " status="
          ∷ shown (lookup x "status")
          ∷ " error="
          ∷ shown (lookup x "error_kind")
          ∷ " files="
          ∷ shown (lookup x "changed_files")
          ∷ "\n"
          ∷ summarise_attempts shown h
          ∷ [])
        ""

  -- `compactAttemptHistory`
  unfoldable pub compact_attempt_history :
      (Option (Value F) → String) → Objects F → CompactConfig → Objects F
  unfolding drop_entries take_entries summarise_attempts
  compact_attempt_history shown h cfg =
      let older = count_entries h - cfg.keep_recent_turns in
      let limit = min older 20 in
      let lines = summarise_attempts shown (drop_entries (older - limit) (take_entries older h)) in
      let omitted =
        if ltb limit older
        then join ("... " ∷ decimal (older - limit) ∷ " earlier attempts omitted\n" ∷ []) ""
        else "" in
      let summary : Fields F = field "attempt" (number 0) (
        field "status" (text "compacted_history") (
          field "error_kind" (text "compacted_history") (
            field "changed_files" (names []) (
              field "compacted_text" (text (join ("Earlier attempts:\n" ∷ lines ∷ omitted ∷ []) ""))
                no_fields)))) in
      if leb (count_entries h) cfg.keep_recent_turns
      then h
      else entry summary (drop_entries older h)

  -- `compactHeavyContext`
  unfoldable pub compact_heavy_context :
      (Option (Value F) → String) → Fields F → CompactConfig → Fields F
  unfolding compact_text_keys compact_object_keys compact_report compact_attempt_history
  compact_heavy_context shown context cfg =
      let texts =
        compact_text_keys cfg
          ("previous_patch" ∷ "previous_review" ∷ "previous_test_report" ∷ "initial_plan" ∷ [])
          context in
      let reported = compact_report cfg texts (as_report (lookup texts "test")) in
      let objects =
        compact_object_keys cfg
          ("patch" ∷ "reviewer" ∷ "repair_feedback" ∷ "planner" ∷ "initial_plan" ∷ []) reported in
      elim (as_history (lookup objects "attempt_history")) [
        | none ↦ objects
        | some h ↦ assign objects "attempt_history" (history (compact_attempt_history shown h cfg))
      ]
