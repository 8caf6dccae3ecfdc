-- ===== src/Deduplicate/Groups.antt =====
-- How the instructions are grouped into stages.
use mathlib.Core.List.{flatten}
use dockerfile_x.Common.{
  true, false, List, [], ◌∷◌, ◌++◌, append_assoc, append-nil, ◌⊎◌, ◌≡◌, refl, sym, All, All-append,
  Bool-cases, inl, inr,
}
use dockerfile_x.Instruction.{Instruction, is_from}
use dockerfile_x.Deduplicate.{push_stage, group_from, group_stages}

abbrev pub IsNotFrom : Instruction → Type 0
IsNotFrom i = is_from i ≡ false

-- A stage has an instruction, and a FROM only at its head.
abbrev pub IsStage : List Instruction → Type 0
IsStage [] = ⊥
IsStage (i ∷ is) = All IsNotFrom is

-- A stage that a FROM opens.
abbrev pub IsOpened : List Instruction → Type 0
IsOpened [] = ⊥
IsOpened (i ∷ is) = is_from i ≡ true

abbrev pub AreStages : List (List Instruction) → Type 0
AreStages [] = Unit
AreStages (s ∷ stages) = IsStage s × All (λ t. IsStage t × IsOpened t) stages

flatten-concat :
    (stages : List (List Instruction)) (s : List Instruction)
    → flatten (stages ++ s ∷ []) ≡ flatten stages ++ s
unfolding flatten
flatten-concat [] s = append-nil s
flatten-concat (t ∷ stages) s =
    rw (flatten-concat stages s) (sym (append_assoc t (flatten stages) s))

flatten-push_stage :
    (stages : List (List Instruction)) (s : List Instruction)
    → flatten (push_stage stages s) ≡ flatten stages ++ s
flatten-push_stage stages [] = sym (append-nil _)
flatten-push_stage stages (i ∷ s) = flatten-concat stages (i ∷ s)

flatten-group_from :
    (is current : List Instruction) (stages : List (List Instruction))
    → flatten (group_from stages current is) ≡ flatten stages ++ (current ++ is)
unfolding group_from
flatten-group_from [] current stages = rw append-nil (flatten-push_stage stages current)
flatten-group_from (i ∷ is) current stages = elim (Bool-cases (is_from i)) [
  | inl e ↦ rw e (
      rw (flatten-group_from is (i ∷ []) (push_stage stages current))
        (rw (flatten-push_stage stages current) (append_assoc (flatten stages) current (i ∷ is))))
  | inr e ↦ rw e (rw (flatten-group_from is (current ++ i ∷ []) stages) (rw append_assoc refl))
]

AreStages-concat :
    (stages : List (List Instruction)) (s : List Instruction)
    → AreStages stages
    → IsStage s
    → (stages ≡ []) ⊎ IsOpened s
    → AreStages (stages ++ s ∷ [])
AreStages-concat [] s h k o = (k, tt)
AreStages-concat (t ∷ stages) s (ht, h) k (inl e) = cc
AreStages-concat (t ∷ stages) s (ht, h) k (inr o) =
    (ht, All-append _ stages (s ∷ []) h ((k, o), tt))

-- What holds of `stages` and `currentStage` in the loop.
abbrev Grouping : List (List Instruction) → List Instruction → Type 0
Grouping stages [] = stages ≡ []
Grouping stages (i ∷ is) = AreStages stages × IsStage (i ∷ is) × ((stages ≡ []) ⊎ IsOpened (i ∷ is))

AreStages-push_stage :
    (stages : List (List Instruction)) (s : List Instruction)
    → Grouping stages s
    → AreStages (push_stage stages s)
AreStages-push_stage stages [] g = rw g tt
AreStages-push_stage stages (i ∷ s) g = AreStages-concat stages (i ∷ s) g.0 g.1 g.2

Grouping-keep :
    (stages : List (List Instruction)) (s : List Instruction) (i : Instruction)
    → Grouping stages s
    → is_from i ≡ false
    → Grouping stages (s ++ i ∷ [])
Grouping-keep stages [] i g e = (rw g tt, tt, inl g)
Grouping-keep stages (j ∷ s) i g e = (g.0, All-append IsNotFrom s (i ∷ []) g.1 (e, tt), g.2)

AreStages-group_from :
    (is current : List Instruction) (stages : List (List Instruction))
    → Grouping stages current
    → AreStages (group_from stages current is)
unfolding group_from
AreStages-group_from [] current stages g = AreStages-push_stage stages current g
AreStages-group_from (i ∷ is) current stages g = elim (Bool-cases (is_from i)) [
  | inl e ↦ rw e (
      AreStages-group_from is (i ∷ []) (push_stage stages current)
        (AreStages-push_stage stages current g, tt, inr e))
  | inr e ↦
      rw e (AreStages-group_from is (current ++ i ∷ []) stages (Grouping-keep stages current i g e))
]

-- The stages of a file, joined, are its instructions in order; no stage is empty, a FROM stands only at
-- the head of a stage, and every stage but the first has one there.
pub group_stages_cut :
    (is : List Instruction) → (flatten (group_stages is) ≡ is) × AreStages (group_stages is)
unfolding group_stages flatten
group_stages_cut is = (flatten-group_from is [] [], AreStages-group_from is [] [] refl)
