-- ===== src/Store/Links.antt =====
-- internal/store/memory.go, `AddMemoryLink`: a memory links to a target at most once.
use code_co_driver.Prelude.{
  Bool-cases, if◌then◌else◌, any, All, All-append, String, ◌≡◌, inl, inr, true, false, List, [],
  ◌∷◌, ◌++◌, arith, ◌==◌, eq_refl,
}
use code_co_driver.Prelude.Dict.{get_or-put}
use code_co_driver.Domain.{MemoryLink}
use code_co_driver.Store.State.{Memory}
use code_co_driver.Store.Memories.{same_target, add_memory_link, memory_links}

-- No two links of the list have one target.
abbrev pub DistinctTargets : List MemoryLink → Type 0
DistinctTargets [] = Unit
DistinctTargets (x ∷ xs) = All (λ y. same_target y x ≡ false) xs × DistinctTargets xs

DistinctTargets-append :
    (xs : List MemoryLink) (link : MemoryLink)
    → DistinctTargets xs
    → any (same_target link) xs ≡ false
    → DistinctTargets (xs ++ link ∷ [])
DistinctTargets-append [] link d h = (tt, tt)
DistinctTargets-append (x ∷ xs) link d h =
    let first : same_target link x ≡ false = ground arith in
    let others : any (same_target link) xs ≡ false = ground arith in
    (
      All-append (λ y. same_target y x ≡ false) xs (link ∷ []) d.0 (first, tt),
      DistinctTargets-append xs link d.1 others,
    )

same_target_self : (link : MemoryLink) → same_target link link ≡ true
same_target_self link = rw (eq_refl link.target_type, eq_refl link.target_id)

any-append_last :
    (xs : List MemoryLink) (link : MemoryLink) → any (same_target link) (xs ++ link ∷ []) ≡ true
any-append_last [] link = rw (same_target_self link)
any-append_last (x ∷ xs) link = ground (arith, any-append_last xs link)

module _ {F V : Type 0} where
  -- Every memory links to each target at most once.
  abbrev pub HasDistinctLinks : Memory F V → Type 0
  HasDistinctLinks m = (id : String) → DistinctTargets (memory_links m id)

  memory_links-new :
      (m : Memory F V) (link : MemoryLink) (id : String)
      → any (same_target link) (memory_links m link.memory_id) ≡ false
      → memory_links (add_memory_link m link) id ≡ (
          if link.memory_id == id
          then memory_links m link.memory_id ++ link ∷ []
          else memory_links m id)
  unfolding memory_links add_memory_link
  memory_links-new m link id h = rw h (get_or-put m.links link.memory_id id _ [])

  add_memory_link-old :
      (m : Memory F V) (link : MemoryLink)
      → any (same_target link) (memory_links m link.memory_id) ≡ true
      → add_memory_link m link ≡ m
  unfolding memory_links add_memory_link
  add_memory_link-old m link h = rw h

  -- `AddMemoryLink` keeps the targets of every memory distinct, and afterwards the memory links to
  -- the target of the link.
  pub add_memory_link-HasDistinctLinks :
      (m : Memory F V) (link : MemoryLink)
      → HasDistinctLinks m
      → HasDistinctLinks (add_memory_link m link)
        × (any (same_target link) (memory_links (add_memory_link m link) link.memory_id) ≡ true)
  add_memory_link-HasDistinctLinks m link d =
      elim (Bool-cases (any (same_target link) (memory_links m link.memory_id))) [
        | inl old ↦ rw (add_memory_link-old m link old) (d, old)
        | inr new ↦ (
          (λ id. rw (memory_links-new m link id new) (elim (Bool-cases (link.memory_id == id)) [
            | inl e ↦ rw e (DistinctTargets-append _ link (d link.memory_id) new)
            | inr e ↦ rw e (d id)
          ])),
          rw (memory_links-new m link link.memory_id new, eq_refl link.memory_id)
              (any-append_last (memory_links m link.memory_id) link),
        )
      ]
