-- ===== src/Authz/Engine/Sorting.antt =====
-- The order of the rules of an engine (internal/security/authz/engine.go, NewPolicyEngine).
use torana_enterprise.Prelude.{◌↔◌, ◌⊎◌, inl, inr, List, [], ◌∷◌, All, Any, Bool-cases}
use torana_enterprise.Prelude.Int.{ltb_ℤ}
use torana_enterprise.Authz.Types.{CompiledRule}
use torana_enterprise.Authz.Engine.{place, sort_rules}

on_tail : {A B C : Type 0} → (B → C) → A ⊎ B → A ⊎ C
on_tail f (inl a) = inl a
on_tail f (inr b) = inr (f b)

-- Sorting the rules changes neither what all of them nor what one of them satisfies.
module _ (P : CompiledRule → Type 0) where
  All-place : (r : CompiledRule) (rs : List CompiledRule) → All P (place r rs) ↔ (P r × All P rs)
  unfolding place
  All-place r [] = ((λ h. h), λ h. h)
  All-place r (s ∷ rs) =
      let ih = All-place r rs in
      elim (Bool-cases (ltb_ℤ r.rule.priority s.rule.priority)) [
        | inl t ↦ rw t ((λ h. ((ih.0 h.1).0, (h.0, (ih.0 h.1).1))), λ h. (h.1.0, ih.1 (h.0, h.1.1)))
        | inr t ↦ rw t ((λ h. h), λ h. h)
      ]

  pub All-sort_rules : (rs : List CompiledRule) → All P (sort_rules rs) ↔ All P rs
  unfolding sort_rules
  All-sort_rules [] = ((λ h. h), λ h. h)
  All-sort_rules (r ∷ rs) =
      let ih = All-sort_rules rs in
      let step = All-place r (sort_rules rs) in
      ((λ h. ((step.0 h).0, ih.0 (step.0 h).1)), λ h. step.1 (h.0, ih.1 h.1))

  Any-place : (r : CompiledRule) (rs : List CompiledRule) → Any P (place r rs) ↔ (P r ⊎ Any P rs)
  unfolding place
  Any-place r [] = ((λ h. h), λ h. h)
  Any-place r (s ∷ rs) =
      let ih = Any-place r rs in
      elim (Bool-cases (ltb_ℤ r.rule.priority s.rule.priority)) [
        | inl t ↦ rw t (later (ih.0), earlier (ih.1))
        | inr t ↦ rw t ((λ h. h), λ h. h)
      ]
    where
      later :
          (Any P (place r rs) → P r ⊎ Any P rs) → P s ⊎ Any P (place r rs) → P r ⊎ (P s ⊎ Any P rs)
      later f (inl h) = inr (inl h)
      later f (inr h) = elim (f h) [ inl x ↦ inl x | inr x ↦ inr (inr x) ]

      earlier :
          (P r ⊎ Any P rs → Any P (place r rs)) → P r ⊎ (P s ⊎ Any P rs) → P s ⊎ Any P (place r rs)
      earlier f (inl h) = inr (f (inl h))
      earlier f (inr (inl h)) = inl h
      earlier f (inr (inr h)) = inr (f (inr h))

  pub Any-sort_rules : (rs : List CompiledRule) → Any P (sort_rules rs) ↔ Any P rs
  unfolding sort_rules
  Any-sort_rules [] = ((λ h. h), λ h. h)
  Any-sort_rules (r ∷ rs) =
      let ih = Any-sort_rules rs in
      let step = Any-place r (sort_rules rs) in
      ((λ h. on_tail ih.0 (step.0 h)), λ h. step.1 (on_tail ih.1 h))
