-- ===== src/Redis/Parts.antt =====
-- Facts on splitting a key at a separator.
use dbtabase_workbench.Common.{
  ℕ, ◌≡◌, refl, ap, sym, ◌∙◌, List, [], ◌∷◌, Text, join, ◌==◌, ==_iff, inl, inr, Bool-cases,
}
use dbtabase_workbench.Redis.Split.{onto_first, split}

pub split-cons : (sep : ℕ) (s : Text) → (p : Text) × (ps : List Text) × (split sep s ≡ p ∷ ps)
unfolding split
split-cons sep [] = ([], [], refl)
split-cons sep (c ∷ s) =
    let (p, ps, e) = split-cons sep s in
    elim (Bool-cases (c == sep)) [
      | inl h ↦ ([], split sep s, rw h)
      | inr h ↦ (c ∷ p, ps, rw (h, e))
    ]

join-onto_first :
    (sep : Text) (c : ℕ) (p : Text) (ps : List Text)
    → join sep (onto_first c (p ∷ ps)) ≡ c ∷ join sep (p ∷ ps)
unfolding join
join-onto_first sep c p [] = refl
join-onto_first sep c p (q ∷ qs) = refl

join-nil_first :
    (sep : ℕ) (p : Text) (ps : List Text)
    → join (sep ∷ []) ([] ∷ p ∷ ps) ≡ sep ∷ join (sep ∷ []) (p ∷ ps)
unfolding join
join-nil_first sep p ps = refl

-- Joining the parts of a key gives the key.
pub join-split : (sep : ℕ) (s : Text) → join (sep ∷ []) (split sep s) ≡ s
unfolding split
join-split sep [] = unfold join in refl
join-split sep (c ∷ s) =
    let (p, ps, e) = split-cons sep s in
    let ih : join (sep ∷ []) (p ∷ ps) ≡ s = rw (← e) (join-split sep s) in
    elim (Bool-cases (c == sep)) [
      | inl h ↦
          rw (h, e) (join-nil_first sep p ps ∙ rw ih (ap (λ d. d ∷ s) (sym ((==_iff c sep).0 h))))
      | inr h ↦ rw (h, e) (join-onto_first (sep ∷ []) c p ps ∙ ap (c ∷◌) ih)
    ]
