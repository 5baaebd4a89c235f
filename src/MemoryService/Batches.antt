-- ===== src/MemoryService/Batches.antt =====
-- internal/memory/service.go, `refineAll`: which memories go to which batch.
use code_co_driver.Prelude.{
  leb, Bool-cases, length, select, All, length-append, ◌≤◌, ◌<◌, ◌≡◌, refl, ap, ◌∙◌, inl, inr, List,
  [], ◌∷◌, ◌++◌, arith,
}
use code_co_driver.Domain.{MemoryEntry}
use code_co_driver.MemoryService.Refine.{refinable, memory_refine_batch_size, batches}

module _ {F : Type 0} where
  abbrev pub joined : List (List (MemoryEntry F)) → List (MemoryEntry F)
  joined [] = []
  joined (b ∷ bs) = b ++ joined bs

  -- A batch that is handed over: neither empty nor larger than allowed.
  abbrev pub IsBatch : List (MemoryEntry F) → Type 0
  IsBatch b = (0 < length b) × (length b ≤ memory_refine_batch_size)

  -- What the batches from a batch that is being filled are.
  abbrev Cuts : List (MemoryEntry F) → List (MemoryEntry F) → List (List (MemoryEntry F)) → Type 0
  Cuts batch entries out = (joined out ≡ batch ++ select refinable entries) × All IsBatch out

  append_one :
      (xs : List (MemoryEntry F)) (y : MemoryEntry F) (ys : List (MemoryEntry F))
      → (xs ++ y ∷ []) ++ ys ≡ xs ++ y ∷ ys
  append_one [] y ys = refl
  append_one (x ∷ xs) y ys = ap (λ l. x ∷ l) (append_one xs y ys)

  append_none : (xs : List (MemoryEntry F)) → xs ++ [] ≡ xs
  append_none [] = refl
  append_none (x ∷ xs) = ap (λ l. x ∷ l) (append_none xs)

  batches-Cuts :
      (entries batch : List (MemoryEntry F))
      → length batch < memory_refine_batch_size
      → Cuts batch entries (batches batch entries)
  unfolding batches
  batches-Cuts [] [] h = (refl, tt)
  batches-Cuts [] (b ∷ bs) h = (refl, ((omega arith, omega arith), tt))
  batches-Cuts (e ∷ es) batch h =
      let n = length-append batch (e ∷ []) in
      elim (Bool-cases (refinable e)) [
        | inr skip ↦ rw (batches, skip) (batches-Cuts es batch h)
        | inl chosen ↦ elim (Bool-cases (leb memory_refine_batch_size (length (batch ++ e ∷ [])))) [
          | inl full ↦
              let (same, parts) = batches-Cuts es [] (omega arith) in
              rw (batches, chosen, full)
                (
                  ap (λ l. (batch ++ e ∷ []) ++ l) same ∙ append_one batch e (select refinable es),
                  ((omega (arith, n), omega (arith, n, h)), parts),
                )
          | inr room ↦
              let (same, parts) = batches-Cuts es (batch ++ e ∷ []) (ground arith) in
              rw (batches, chosen, room) (same ∙ append_one batch e (select refinable es), parts)
        ]
      ]

  -- `refineAll` hands to `refineBatch` each memory that can be refined, in order and once, and no
  -- other one, in batches that are not empty and hold five memories at most.
  pub batches_cut :
      (entries : List (MemoryEntry F))
      → (joined (batches [] entries) ≡ select refinable entries) × All IsBatch (batches [] entries)
  batches_cut entries = batches-Cuts entries [] (omega arith)
