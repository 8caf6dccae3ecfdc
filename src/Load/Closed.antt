-- ===== src/Load/Closed.antt =====
-- What holds of the two errors of the loader, where its guards throw them, of the calls of the sources and of
-- the loads of children holds of the loader, if the ways to build actions keep it.
use dockerfile_x.Common.{
  ◌+◌, ◌≤◌, ◌≡◌, Bool, true, false, inl, inr, Option, List, [], ◌∷◌, Text, ltb, if◌then◌else◌,
  Bool-cases, arith, le_of_not-ltb, lt_of_ltb, includes,
}
use dockerfile_x.Errors.{include_cycle_error, include_depth_exceeded}
use dockerfile_x.Exec.{Exec, throw, call}
use dockerfile_x.Exec.Closed.{IsClosed}
use dockerfile_x.Packages.{Packages}
use dockerfile_x.Instruction.{Instruction}
use dockerfile_x.Source.{SourceApi}
use dockerfile_x.Processors.{Context, Processing, child_context}
use dockerfile_x.Processors.Closed.{process_closed}
use dockerfile_x.Load.{
  process_all, processing, compile, read_and_compile, load_body, append_returned,
}

module _ (api : SourceApi) (C : (A : Type 0) → Exec (SourceApi.World api) A → Type 0)
    (load : SourceApi.Source api → Context → Exec (SourceApi.World api) Text) where
  -- It holds of every load of a child of `c`.
  abbrev pub Below : Processing (SourceApi.Source api) → Type 0
  Below c =
      (s : SourceApi.Source api) (target : Option Text) (alias : Text) (root : Bool)
      → C Text (load s (child_context c target alias root))

module _ (api : SourceApi) (C : (A : Type 0) → Exec (SourceApi.World api) A → Type 0)
    (rules : IsClosed C)
    (resolves : (s : SourceApi.Source api)
      → C (SourceApi.Source api) (call (SourceApi.resolve api s)))
    (reads : (s : SourceApi.Source api)
      → C (Text × SourceApi.Source api) (call (SourceApi.read api s)))
    (p : Packages) (load : SourceApi.Source api → Context → Exec (SourceApi.World api) Text) where
  open rules use {closed_pure, closed_lift, closed_bind}
  open api use {World, Source, key, read, resolve}

  process_all_closed :
      (c : Processing Source) (is : List Instruction) (lines : List Text)
      → Below api C load c
      → C (List Text) (process_all api p load c is lines)
  unfolding process_all
  process_all_closed c [] lines h = closed_pure _ lines
  process_all_closed c (i ∷ is) lines h =
      closed_bind _ _ _ _ (process_closed api C rules reads p load c h i lines)
        (λ r. process_all_closed c is (append_returned r) h)

  compile_closed :
      (c : Context) (pc : Processing Source) (content : Text)
      → Below api C load pc
      → C Text (compile api p load c pc content)
  unfolding compile
  compile_closed c pc content h =
      closed_bind _ _ _ _ (closed_lift _ _)
        (λ is. closed_bind _ _ _ _ (process_all_closed pc is [] h) (λ lines. closed_lift _ _))

  read_and_compile_closed :
      (c : Context) (s : Source)
      → ((s' : Source) → Below api C load (processing api p c (key s) s'))
      → C Text (read_and_compile api p load c s)
  unfolding read_and_compile
  read_and_compile_closed c s h =
      closed_bind _ _ _ _ (reads s)
        (λ r. compile_closed c (processing api p c (key s) r.1) r.0 (h r.1))

  -- It holds of `load_body` where it holds of both of its errors, and of every load behind its guards.
  pub load_body_closed :
      (c : Context) (s : Source)
      → (c.max_include_depth + 1 ≤ c.nesting_level
          → C Text
              (throw (include_depth_exceeded c.nesting_level c.max_include_depth c.include_chain)))
      → ((k : Text)
          → c.nesting_level ≤ c.max_include_depth
          → includes k c.include_chain ≡ true
          → C Text (throw (include_cycle_error k c.include_chain)))
      → ((k : Text) (s' : Source)
          → c.nesting_level ≤ c.max_include_depth
          → includes k c.include_chain ≡ false
          → Below api C load (processing api p c k s'))
      → C Text (load_body api p load s c)
  unfolding load_body
  load_body_closed c s deep cycle below =
      elim (Bool-cases (ltb c.max_include_depth c.nesting_level)) [
        | inl e ↦ rw e (deep (omega (arith, lt_of_ltb _ _ e)))
        | inr e ↦ rw e (closed_bind _ _ _ _ (resolves s) (guarded (le_of_not-ltb _ _ e)))
      ]
    where
      guarded :
          c.nesting_level ≤ c.max_include_depth
          → (s' : Source)
          → C Text (
              if includes (key s') c.include_chain
              then throw (include_cycle_error (key s') c.include_chain)
              else read_and_compile api p load c s')
      guarded le s' = elim (Bool-cases (includes (key s') c.include_chain)) [
        | inl e ↦ rw e (cycle (key s') le e)
        | inr e ↦ rw e (read_and_compile_closed c s' (λ s''. below (key s') s'' le e))
      ]
