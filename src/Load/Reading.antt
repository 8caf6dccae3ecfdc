-- ===== src/Load/Reading.antt =====
-- Which reads the loader makes, of a source of a kind that includes do not leave.
use dockerfile_x.Common.{ℕ, zero, suc, refl, List, [], ◌∷◌, Text}
use dockerfile_x.Exec.{Exec, cut_short}
use dockerfile_x.Exec.Agrees.{
  Agrees, Any, Agrees-pure-Any, Agrees-throw, Agrees-if, Agrees-lift-Any, Agrees-call, Agrees-bind,
  Agrees-bind-Any,
}
use dockerfile_x.Packages.{Packages}
use dockerfile_x.Instruction.{Instruction}
use dockerfile_x.Source.{SourceApi}
use dockerfile_x.Processors.{Context, Processing, child_context}
use dockerfile_x.Processors.Reading.{Reader, reading, IsConfined, process-Agrees}
use dockerfile_x.Load.{
  process_all, processing, compile, read_and_compile, load_body, load_dockerfile, append_returned,
}

module _ (api : SourceApi) (read' : Reader api) (P : SourceApi.Source api → Type 0)
    (confined : IsConfined api read' P) (p : Packages) where
  open api use {World, Source, key, read, resolve}

  abbrev api' : SourceApi
  api' = reading api read'

  abbrev Loader : Type 0
  Loader = Source → Context → Exec World Text

  -- The two loaders load children of the kind alike.
  abbrev pub Alike : Loader → Loader → Type 0
  Alike load load' = (s : Source) (c : Context) → P s → Agrees Any (load s c) (load' s c)

  module _ (load load' : Loader) (below : Alike load load') where
    process_all-Agrees :
        (c : Processing Source) (is : List Instruction) (lines : List Text)
        → P c.parent_source
        → Agrees Any (process_all api p load c is lines) (process_all api' p load' c is lines)
    unfolding process_all
    process_all-Agrees c [] lines h = Agrees-pure-Any lines
    process_all-Agrees c (i ∷ is) lines h =
        Agrees-bind-Any _ _ _ _
          (process-Agrees api read' P confined p load load' c h
            (λ s target alias root k. below s (child_context c target alias root) k) i lines)
          (λ r. process_all-Agrees c is (append_returned r) h)

    compile-Agrees :
        (c : Context) (pc : Processing Source) (content : Text)
        → P pc.parent_source
        → Agrees Any (compile api p load c pc content) (compile api' p load' c pc content)
    unfolding compile
    compile-Agrees c pc content h =
        Agrees-bind-Any _ _ _ _ (Agrees-lift-Any _) (λ is.
          Agrees-bind-Any _ _ _ _ (process_all-Agrees pc is [] h) (λ lines. Agrees-lift-Any _))

    read_and_compile-Agrees :
        (c : Context) (s : Source)
        → P s
        → Agrees Any (read_and_compile api p load c s) (read_and_compile api' p load' c s)
    unfolding read_and_compile
    read_and_compile-Agrees c s h =
        Agrees-bind {P = λ r. P r.1} _ _ _ _
          (Agrees-call _ _ (λ w. confined.alike s w h) (λ w r e. confined.been_read s r w h e))
          (λ r k. compile-Agrees c (processing api p c (key s) r.1) r.0 k)

    load_body-Agrees :
        (s : Source) (c : Context)
        → P s
        → Agrees Any (load_body api p load s c) (load_body api' p load' s c)
    unfolding load_body
    load_body-Agrees s c h = Agrees-if _ _ _ _ _ (Agrees-throw _) (
        Agrees-bind {P = P} _ _ _ _
          (Agrees-call (resolve s) (resolve s) (λ w. refl) (λ w s' e. confined.resolved s s' w h e))
          (λ s' k. Agrees-if _ _ _ _ _ (Agrees-throw _) (read_and_compile-Agrees c s' k)))

  pub load_dockerfile-Agrees :
      (fuel : ℕ) → Alike (load_dockerfile api p fuel) (load_dockerfile api' p fuel)
  unfolding load_dockerfile cut_short
  load_dockerfile-Agrees zero s c h = record { same = λ w. refl; at = λ w. tt }
  load_dockerfile-Agrees (suc fuel) s c h = load_body-Agrees _ _ (load_dockerfile-Agrees fuel) s c h
