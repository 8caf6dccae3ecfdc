-- ===== src/PostProcess/Alias.antt =====
-- Which stage of an included file gets the alias where no target is given.
use dockerfile_x.Common.{
  ℕ, suc, ◌+◌, ◌≤◌, ◌≡◌, refl, sym, ◌∙◌, Bool, true, false, Option, none, some, List, [], ◌∷◌, ◌++◌,
  append_assoc, Text, codes, ◌⊎◌, ◌==◌, newline, arith, Bool-cases, inl, inr,
}
use dockerfile_x.Regex.{as_match}
use dockerfile_x.Instruction.{Instruction, is_from}
use dockerfile_x.PostProcess.{or_undefined, count_from, matches_target, alias_line, emit, emit_all}

-- The lines of the instructions as they stand.
unfoldable pub raw_lines : List Instruction → Text
raw_lines [] = []
raw_lines (i ∷ is) = i.raw ++ (newline ++ raw_lines is)

count_from_of_from :
    (i : Instruction) (is : List Instruction)
    → is_from i ≡ true
    → count_from (i ∷ is) ≡ suc (count_from is)
unfolding count_from
count_from_of_from i is e = rw e refl

count_from_of_other :
    (i : Instruction) (is : List Instruction)
    → is_from i ≡ false
    → count_from (i ∷ is) ≡ count_from is
unfolding count_from
count_from_of_other i is e = rw e refl

sum_of_from :
    (k : ℕ) (i : Instruction) (is : List Instruction)
    → is_from i ≡ true
    → k + count_from (i ∷ is) ≡ suc k + count_from is
sum_of_from k i is e = omega (arith, count_from_of_from i is e)

alias_line-not_wanted : (stage_alias name : Option Text) → alias_line stage_alias name false ≡ []
unfolding alias_line
alias_line-not_wanted none name = refl
alias_line-not_wanted (some a) name = refl

push_line : (a b c d : Text) → a ++ (b ++ (c ++ d)) ≡ a ++ (b ++ c) ++ d
push_line a b c d = rw (append_assoc a (b ++ c) d, append_assoc b c d) refl

count_from_nil : (k : ℕ) → k + count_from [] ≡ k
unfolding count_from
count_from_nil k = omega arith

module _ (stage_alias target : Option Text) (is_root_include : Bool) (n : ℕ) where
  emit_all_of_other :
      (i : Instruction) (is : List Instruction) (k : ℕ)
      → is_from i ≡ false
      → (emit_all stage_alias target is_root_include n (i ∷ is) k).0
        ≡ i.raw ++ (newline ++ (emit_all stage_alias target is_root_include n is k).0)
  unfolding emit_all emit
  emit_all_of_other i is k e = rw e (append_assoc i.raw newline _)

  emit_all_of_from :
      (i : Instruction) (is : List Instruction) (k : ℕ)
      → is_from i ≡ true
      → (emit_all stage_alias target is_root_include n (i ∷ is) k).0
        ≡ emit stage_alias target is_root_include n i (suc k)
          ++ (emit_all stage_alias target is_root_include n is (suc k)).0
  unfolding emit_all
  emit_all_of_from i is k e = rw e refl

-- With no target, an instruction gets an alias behind it where it is the last FROM.
module _ (stage_alias : Option Text) (n : ℕ) where
  emit_early :
      (i : Instruction) (k : ℕ)
      → is_from i ≡ true
      → (k == n) ≡ false
      → emit stage_alias none false n i k ≡ i.raw ++ newline
  unfolding emit matches_target
  emit_early i k f e = rw (f, e, alias_line-not_wanted stage_alias (as_match i.raw)) refl

  emit_last :
      (i : Instruction)
      → is_from i ≡ true
      → (n == n) ≡ true
      → emit stage_alias none false n i n
        ≡ i.raw ++ (newline ++ alias_line stage_alias (as_match i.raw) true)
  unfolding emit matches_target
  emit_last i e h = rw (e, h) refl

  -- No alias comes before the last FROM, and none behind it.
  emit_all-before :
      (is js : List Instruction) (k : ℕ)
      → suc (k + count_from is) ≤ n
      → (emit_all stage_alias none false n (is ++ js) k).0
        ≡ raw_lines is ++ (emit_all stage_alias none false n js (k + count_from is)).0
  unfolding raw_lines
  emit_all-before [] js k h = rw (count_from_nil k) refl
  emit_all-before (i ∷ is) js k h = elim (Bool-cases (is_from i)) [
    | inl e ↦
        rw
          (
            emit_all_of_from stage_alias none false n i (is ++ js) k e,
            emit_early i (suc k) e (ground (arith, count_from_of_from i is e)),
            emit_all-before is js (suc k) (omega (arith, count_from_of_from i is e)),
            append_assoc i.raw newline
                (raw_lines is ++ (emit_all stage_alias none false n js (suc k + count_from is)).0),
            sum_of_from k i is e,
          )
          (push_line i.raw newline (raw_lines is) _)
    | inr e ↦
        rw
          (
            emit_all_of_other stage_alias none false n i (is ++ js) k e,
            emit_all-before is js k (omega (arith, count_from_of_other i is e)),
            count_from_of_other i is e,
          )
          (push_line i.raw newline (raw_lines is) _)
  ]

  emit_all-behind :
      (is : List Instruction) (k : ℕ)
      → count_from is ≡ 0
      → (emit_all stage_alias none false n is k).0 ≡ raw_lines is
  unfolding raw_lines
  emit_all-behind [] k h = unfold emit_all in refl
  emit_all-behind (i ∷ is) k h = elim (Bool-cases (is_from i)) [
    | inl e ↦ absurd (omega (arith, count_from_of_from i is e))
    | inr e ↦
        rw
          (
            emit_all_of_other stage_alias none false n i is k e,
            emit_all-behind is k (sym (count_from_of_other i is e) ∙ h),
          )
          refl
  ]

count_from-append :
    (is js : List Instruction) → count_from (is ++ js) ≡ count_from is + count_from js
count_from-append [] js = omega (arith, count_from_nil 0)
count_from-append (i ∷ is) js = elim (Bool-cases (is_from i)) [
  | inl e ↦
      omega (
        arith,
        count_from-append is js,
        count_from_of_from i is e,
        count_from_of_from i (is ++ js) e,
      )
  | inr e ↦ omega (
    arith,
    count_from-append is js,
    count_from_of_other i is e,
    count_from_of_other i (is ++ js) e,
  )
]

emit_all-final :
    (stage_alias : Option Text) (n : ℕ) (is : List Instruction) (f : Instruction)
    (js : List Instruction)
    → n ≡ suc (count_from is)
    → is_from f ≡ true
    → count_from js ≡ 0
    → (emit_all stage_alias none false n (is ++ f ∷ js) 0).0
      ≡ raw_lines is
        ++ (f.raw ++ (newline ++ alias_line stage_alias (as_match f.raw) true) ++ raw_lines js)
emit_all-final stage_alias n is f js c e h =
    rw
      (
        emit_all-before stage_alias n is (f ∷ js) 0 (omega arith),
        emit_all_of_from stage_alias none false n f js (0 + count_from is) e,
        emit_all-behind stage_alias n js (suc (0 + count_from is)) h,
        at_last,
        emit_last stage_alias n f e (ground arith),
      )
      refl
  where
    at_last : suc (0 + count_from is) ≡ n
    at_last = omega arith

-- No alias is written where there is none, and none in a file that is pasted at the root.
emit_plain :
    (stage_alias : Option Text) (is_root_include : Bool) (n k : ℕ) (i : Instruction)
    → (stage_alias ≡ none) ⊎ (is_root_include ≡ true)
    → emit stage_alias none is_root_include n i k ≡ i.raw ++ newline
unfolding emit matches_target alias_line
emit_plain stage_alias is_root_include n k i (inl h) = elim (Bool-cases (is_from i)) [
  | inl e ↦ rw (h, e) refl
  | inr e ↦ rw e refl
]
emit_plain stage_alias is_root_include n k i (inr h) = elim (Bool-cases (is_from i)) [
  | inl e ↦ rw (h, e, alias_line-not_wanted stage_alias (as_match i.raw)) refl
  | inr e ↦ rw e refl
]

emit_all-plain :
    (stage_alias : Option Text) (is_root_include : Bool) (n k : ℕ) (is : List Instruction)
    → (stage_alias ≡ none) ⊎ (is_root_include ≡ true)
    → (emit_all stage_alias none is_root_include n is k).0 ≡ raw_lines is
unfolding raw_lines
emit_all-plain stage_alias is_root_include n k [] h = unfold emit_all in refl
emit_all-plain stage_alias is_root_include n k (i ∷ is) h = elim (Bool-cases (is_from i)) [
  | inl e ↦
      rw
        (
          emit_all_of_from stage_alias none is_root_include n i is k e,
          emit_plain stage_alias is_root_include n (suc k) i h,
          emit_all-plain stage_alias is_root_include n (suc k) is h,
        )
        (append_assoc i.raw newline (raw_lines is))
  | inr e ↦
      rw
        (
          emit_all_of_other stage_alias none is_root_include n i is k e,
          emit_all-plain stage_alias is_root_include n k is h,
        )
        refl
]

-- `FROM ${stageName} AS ${stageAlias}` and a line feed, for the stage name of a FROM.
unfoldable pub line_for : Text → Instruction → Text
unfolding as_match
line_for stage_alias f =
    codes "FROM " ++ (or_undefined (as_match f.raw) ++ (codes " AS " ++ (stage_alias ++ newline)))

-- In a file that is included with an alias, without a target and not by an INCLUDE of the root file, one line gives
-- the alias to the stage of the last FROM, by its stage name, and stands right behind this FROM; all other lines
-- are those of the file. Without a target, no line is added by an INCLUDE of the root file, nor without an alias.
pub emit_all-final_alias :
    (stage_alias : Text) (is : List Instruction) (f : Instruction) (js : List Instruction)
    → is_from f ≡ true
    → count_from js ≡ 0
    → ((emit_all (some stage_alias) none false (count_from (is ++ f ∷ js)) (is ++ f ∷ js) 0).0
        ≡ raw_lines is ++ (f.raw ++ (newline ++ line_for stage_alias f) ++ raw_lines js))
      × ((emit_all (some stage_alias) none true (count_from (is ++ f ∷ js)) (is ++ f ∷ js) 0).0
          ≡ raw_lines (is ++ f ∷ js))
      × ((b : Bool)
          → (emit_all none none b (count_from (is ++ f ∷ js)) (is ++ f ∷ js) 0).0
            ≡ raw_lines (is ++ f ∷ js))
unfolding alias_line line_for
emit_all-final_alias stage_alias is f js e h = (
  emit_all-final (some stage_alias) (count_from (is ++ f ∷ js)) is f js
      (omega (arith, count_from-append is (f ∷ js), count_from_of_from f js e)) e h,
  emit_all-plain (some stage_alias) true (count_from (is ++ f ∷ js)) 0 (is ++ f ∷ js) (inr refl),
  λ b. emit_all-plain none b (count_from (is ++ f ∷ js)) 0 (is ++ f ∷ js) (inl refl),
)
