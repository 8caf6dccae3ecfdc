-- ===== src/Parse/Reading.antt =====
-- The loop of parseDockerfile.js over the commands does what `AreRead` says.
use native.Mathlib.Decide.{dec_lt}
use dockerfile_x.Common.{
  ℕ, zero, suc, ◌+◌, ◌-◌, ◌≤◌, ◌≡◌, refl, subst, ◌⊎◌, inl, inr, arith, Bool, true, false,
  Bool-cases, Option, none, some, List, [], ◌∷◌, Text, codes, drop, get_elem?, same, All, to_upper,
}
use dockerfile_x.Common.Split.{split_lines}
use dockerfile_x.Errors.{Result, ok, err, >>=-eq-ok, ok_inj}
use dockerfile_x.Packages.{Packages, Command}
use dockerfile_x.Instruction.{Instruction}
use dockerfile_x.Regex.{here_doc_match}
use dockerfile_x.Parse.{
  start_line_index, get_raw, starts_with_instruction, find_start, closes, find_here_doc_close,
  one_more, here_doc_close, close_line, merged, is_removed, args_to_string, normalize_args,
  check_from, read_command, read_commands, cons_result, parse_dockerfile_with,
}
use dockerfile_x.Parse.Ranges.{IsStart, FirstCloses, HasNoBody, HasBody, IsInstruction, AreRead}

le_cases : (j i : ℕ) → j ≤ suc i → (j ≤ i) ⊎ (j ≡ suc i)
le_cases j i h = elim (dec_lt i j) [ yes p ↦ inr (omega arith) | no p ↦ inl (omega arith) ]

extended-IsStart :
    (lines : List Text) (name : Text) (i s : ℕ)
    → starts_with_instruction (get_elem? lines (suc i)) name ≡ false
    → IsStart lines name i s
    → IsStart lines name (suc i) s
extended-IsStart lines name i s e h = record {
  le = omega (arith, h.le);
  begins = h.begins;
  nearest = λ j above k. elim (le_cases j i k) [
    | inl below ↦ h.nearest j above below
    | inr last ↦ rw last e
  ];
}

find_start-IsStart :
    (lines : List Text) (name : Text) (i : ℕ) → IsStart lines name i (find_start lines name i)
unfolding find_start
find_start-IsStart lines name zero = record {
  le = omega arith;
  begins = inl refl;
  nearest = λ j h k. absurd (omega arith);
}
find_start-IsStart lines name (suc i) =
    elim (Bool-cases (starts_with_instruction (get_elem? lines (suc i)) name)) [
      | inl e ↦
          rw e
            (record { le = omega arith; begins = inr e; nearest = λ j h k. absurd (omega arith) })
      | inr e ↦ rw e (
          extended-IsStart lines name i (find_start lines name i) e
            (find_start-IsStart lines name i))
    ]

-- What the search for the close finds.
Found : Text → List Command → Option (ℕ × ℕ) → Type 0
Found delimiter cs none = All (λ d. closes delimiter d ≡ false) cs
Found delimiter cs (some (line, count)) =
    (d : Command) × (FirstCloses delimiter cs d (drop count cs)) × (line ≡ start_line_index d)

one_more-Found :
    (delimiter : Text) (c : Command) (cs : List Command) (r : Option (ℕ × ℕ))
    → closes delimiter c ≡ false
    → Found delimiter cs r
    → Found delimiter (c ∷ cs) (one_more r)
unfolding Found
one_more-Found delimiter c cs none e h = (e, h)
one_more-Found delimiter c cs (some (line, count)) e (d, first, at) =
    (d, FirstCloses.later c cs d (drop count cs) e first, at)

find_here_doc_close-Found :
    (delimiter : Text) (cs : List Command) → Found delimiter cs (find_here_doc_close delimiter cs)
unfolding find_here_doc_close Found
find_here_doc_close-Found delimiter [] = tt
find_here_doc_close-Found delimiter (c ∷ cs) = elim (Bool-cases (closes delimiter c)) [
  | inl e ↦ rw e (c, FirstCloses.here c cs e, refl)
  | inr e ↦ rw e (
      one_more-Found delimiter c cs (find_here_doc_close delimiter cs) e
        (find_here_doc_close-Found delimiter cs))
]

-- What is known of a command and those behind it, by where its here-document is closed.
ClosedAt : Command → List Command → Option (ℕ × ℕ) → Type 0
ClosedAt c cs none = HasNoBody c cs
ClosedAt c cs (some (line, count)) =
    (d : Command) × (HasBody c cs d (drop count cs)) × (line ≡ start_line_index d)

Found-ClosedAt :
    (c : Command) (cs : List Command) (delimiter : Text) (r : Option (ℕ × ℕ))
    → same (to_upper c.name) (codes "RUN") ≡ true
    → here_doc_match (args_to_string c.args) ≡ some delimiter
    → Found delimiter cs r
    → ClosedAt c cs r
unfolding ClosedAt Found HasNoBody
Found-ClosedAt c cs delimiter none run begun h =
    λ delimiter' _ begun'. subst (λ (e : Text). All (λ d. closes e d ≡ false) cs) (cc) h
Found-ClosedAt c cs delimiter (some (line, count)) run begun (d, first, at) =
    (d, record { delimiter = delimiter; is_run = run; begun = begun; closed = first }, at)

match_cases : (m : Option Text) → (m ≡ none) ⊎ ((t : Text) × (m ≡ some t))
match_cases none = inl refl
match_cases (some t) = inr (t, refl)

here_doc_close-ClosedAt :
    (c : Command) (cs : List Command) → ClosedAt c cs (here_doc_close (to_upper c.name) c cs)
unfolding ClosedAt HasNoBody
here_doc_close-ClosedAt c cs = elim (Bool-cases (same (to_upper c.name) (codes "RUN"))) [
  | inr other ↦ rw other (λ delimiter run begun. cc)
  | inl run ↦ elim (match_cases (here_doc_match (args_to_string c.args))) [
    | inl nothing ↦ rw (run, nothing) (λ delimiter _ begun. cc)
    | inr (delimiter, begun) ↦
        rw (run, begun)
          (Found-ClosedAt c cs delimiter (find_here_doc_close delimiter cs) run begun
            (find_here_doc_close-Found delimiter cs))
  ]
]

made-IsInstruction :
    (lines : List Text) (c : Command) (last first : ℕ)
    → (same (to_upper c.name) (codes "COMMENT") ≡ true → first ≡ start_line_index c)
    → (same (to_upper c.name) (codes "COMMENT") ≡ false
        → IsStart lines (to_upper c.name) (start_line_index c) first)
    → IsInstruction lines c last (record {
      name = c.name;
      args = normalize_args (to_upper c.name) c.args;
      lineno = first + 1;
      raw = get_raw lines first last;
    })
made-IsInstruction lines c last first comment start =
    let back : first ≡ first + 1 - 1 = omega arith in
    record {
      same_name = refl;
      same_args = refl;
      counted = omega arith;
      comment_line = λ h. omega (arith, comment h);
      start_line = λ h. subst (IsStart lines (to_upper c.name) (start_line_index c)) back (start h);
      text = subst (λ (n : ℕ). get_raw lines first last ≡ get_raw lines n last) back refl;
    }

module _ (p : Packages) where
  read_command-IsInstruction :
      (lines : List Text) (c : Command) (cs : List Command) (i : Instruction)
      → read_command p lines c cs ≡ ok i
      → IsInstruction lines c
          (close_line (start_line_index c) (here_doc_close (to_upper c.name) c cs))
          i
  unfolding read_command
  read_command-IsInstruction lines c cs i h =
      let (_, _, e) =
        >>=-eq-ok (check_from p (to_upper c.name) (normalize_args (to_upper c.name) c.args) []) _
          h in
      subst (IsInstruction lines c _) (ok_inj e) (
        made-IsInstruction lines c _ _ (λ comment. rw comment)
          (λ other. rw other (find_start-IsStart lines (to_upper c.name) (start_line_index c))))

  kept-AreRead :
      (remove : Bool) (lines : List Text) (c : Command) (cs : List Command) (i : Instruction)
      (is : List Instruction) (r : Option (ℕ × ℕ))
      → is_removed remove (to_upper c.name) c ≡ false
      → ClosedAt c cs r
      → IsInstruction lines c (close_line (start_line_index c) r) i
      → AreRead remove lines (drop (merged r) cs) is
      → AreRead remove lines (c ∷ cs) (i ∷ is)
  unfolding ClosedAt
  kept-AreRead remove lines c cs i is none kept h made rest =
      AreRead.alone c cs i is kept h made rest
  kept-AreRead remove lines c cs i is (some (line, count)) kept (d, body, at) made rest =
      AreRead.with_body c cs d (drop count cs) i is kept body
        (subst (λ (n : ℕ). IsInstruction lines c n i) at made) rest

  cons_result-ok :
      (r : Result Instruction) (rs : Result (List Instruction)) (l : List Instruction)
      → cons_result p r rs ≡ ok l
      → (i : Instruction) × (is : List Instruction) × (r ≡ ok i) × (rs ≡ ok is) × (i ∷ is ≡ l)
  cons_result-ok (ok i) (ok is) l h = (i, is, refl, refl, ok_inj h)
  cons_result-ok (ok i) (err e) l h = cc
  cons_result-ok (err e) rs l h = cc

  read_commands-AreRead :
      (remove : Bool) (lines : List Text) (cs : List Command) (skip : ℕ) (is : List Instruction)
      → read_commands p remove lines cs skip ≡ ok is
      → AreRead remove lines (drop skip cs) is
  unfolding read_commands
  read_commands-AreRead remove lines [] zero is h =
      subst (AreRead remove lines []) (ok_inj h) AreRead.done
  read_commands-AreRead remove lines [] (suc skip) is h =
      subst (AreRead remove lines []) (ok_inj h) AreRead.done
  read_commands-AreRead remove lines (c ∷ cs) (suc skip) is h =
      read_commands-AreRead remove lines cs skip is h
  read_commands-AreRead remove lines (c ∷ cs) zero l h =
      elim (Bool-cases (is_removed remove (to_upper c.name) c)) [
        | inl e ↦
            AreRead.removed c cs l e
              (read_commands-AreRead remove lines cs zero l (rw (e, read_commands) at h))
        | inr e ↦
            let (i, is, first, behind, same_list) =
              cons_result-ok _ _ l (rw (e, read_commands) at h) in
            subst (AreRead remove lines (c ∷ cs)) same_list (
              kept-AreRead remove lines c cs i is (here_doc_close (to_upper c.name) c cs) e
                (here_doc_close-ClosedAt c cs) (read_command-IsInstruction lines c cs i first)
                (read_commands-AreRead remove lines cs _ is behind))
      ]

  -- Where a file is parsed without an error, its instructions are those of the commands of the parser, in
  -- order: each but the syntax comments that are removed, and those up to the one that closes the
  -- here-document of a RUN, gives one with its name; a comment stands on its line, and any other begins on
  -- the nearest line at or above its own that starts with its name, or else the first; its text is that of
  -- the lines from there to its own, or to the one that closes its here-document.
  pub parse_dockerfile_with-AreRead :
      (remove : Bool) (content : Text) (is : List Instruction)
      → parse_dockerfile_with p remove content ≡ ok is
      → (cs : List Command) × (p.parse content ≡ ok cs) × AreRead remove (split_lines content) cs is
  unfolding parse_dockerfile_with
  parse_dockerfile_with-AreRead remove content is h =
      let (cs, parsed, e) = >>=-eq-ok (p.parse content) _ h in
      (cs, parsed, read_commands-AreRead remove (split_lines content) cs 0 is e)
