-- ===== src/Source/Git/RoundTrip.antt =====
-- The display path of a git source is a reference to it.
use dockerfile_x.Common.{
  ◌≡◌, refl, sym, subst, ◌∙◌, false, Option, none, some, ◌∷◌, ◌++◌, Text, codes, starts_with,
  strip_prefix_i, arith,
}
use dockerfile_x.Common.Cut.{cut, Lacks, cut-append, cut-Lacks}
use dockerfile_x.Errors.{ok_inj, ok, >>=-eq-ok}
use dockerfile_x.Source.RelativePath.{sanitize_relative_path}
use dockerfile_x.Source.RelativePath.Safe.{sanitize_relative_path_safe, sanitize_relative_path_at}
use dockerfile_x.Source.Git.{
  GitSource, reject_option_like_arg, git_reference, new_git, with_repo, with_fragment,
  without_scheme, parse_reference, git_display_path,
}

not_option_like :
    (value kind : Text) {u : Unit {0}}
    → reject_option_like_arg value kind ≡ ok u
    → starts_with (codes "-") value ≡ false
unfolding reject_option_like_arg
not_option_like value kind h = ground arith

-- What a reference is made of.
record IsParsed (extension : Option Text) (s : GitSource) : Type 0 where
  repo : Text
  ref : Text
  file_path : Text
  repo_Lacks : Lacks b'#' repo
  ref_Lacks : Lacks b':' ref
  made : new_git repo ref file_path extension ≡ ok s

with_fragment-IsParsed :
    (reference repo fragment : Text) (o : Option (Text × Text)) (extension : Option Text)
    {s : GitSource}
    → Lacks b'#' repo
    → cut b':' fragment ≡ o
    → with_fragment reference repo o extension ≡ ok s
    → IsParsed extension s
unfolding with_fragment
with_fragment-IsParsed reference repo fragment none extension n e h = cc
with_fragment-IsParsed reference repo fragment (some (ref, file_path)) extension n e h = record {
  repo = repo;
  ref = ref;
  file_path = file_path;
  repo_Lacks = n;
  ref_Lacks = cut-Lacks b':' fragment ref file_path e;
  made = h;
}

with_repo-IsParsed :
    (reference stripped : Text) (o : Option (Text × Text)) (extension : Option Text) {s : GitSource}
    → cut b'#' stripped ≡ o
    → with_repo reference o extension ≡ ok s
    → IsParsed extension s
unfolding with_repo
with_repo-IsParsed reference stripped none extension e h = cc
with_repo-IsParsed reference stripped (some (repo, fragment)) extension e h =
    with_fragment-IsParsed reference repo fragment (cut b':' fragment) extension
      (cut-Lacks b'#' stripped repo fragment e) refl h

parse_reference-reference :
    (repo ref file_path : Text) (extension : Option Text)
    → Lacks b'#' repo
    → Lacks b':' ref
    → parse_reference (git_reference repo ref file_path) extension
      ≡ new_git repo ref file_path extension
unfolding parse_reference with_repo with_fragment strip_prefix_i
parse_reference-reference repo ref file_path extension n m =
    rw (cut-append b'#' repo (ref ++ b':' ∷ file_path) n, cut-append b':' ref file_path m) refl

-- A source that was made: its fields, and that its path makes it again.
pub record IsMade (repo ref : Text) (extension : Option Text) (s : GitSource) : Type 0 where
  pub same_repo : s.repo ≡ repo
  pub same_ref : s.ref ≡ ref
  pub repo_plain : starts_with (codes "-") s.repo ≡ false
  pub ref_plain : starts_with (codes "-") s.ref ≡ false
  pub again : new_git s.repo s.ref s.file_path extension ≡ ok s

pub new_git-IsMade :
    (repo ref file_path : Text) (extension : Option Text) {s : GitSource}
    → new_git repo ref file_path extension ≡ ok s
    → IsMade repo ref extension s
unfolding new_git
new_git-IsMade repo ref file_path extension {s} h =
    let (u, h0, k0) = >>=-eq-ok (reject_option_like_arg repo (codes "repo URL")) _ h in
    let (v, h1, k1) = >>=-eq-ok (reject_option_like_arg ref (codes "ref")) _ k0 in
    let (cleaned, h2, k2) = >>=-eq-ok (sanitize_relative_path file_path _) _ k1 in
    let again : sanitize_relative_path cleaned (git_reference repo ref cleaned) ≡ ok cleaned =
      sanitize_relative_path_at cleaned _ _ (sanitize_relative_path_safe file_path _ h2).2 in
    subst (IsMade repo ref extension) (ok_inj k2) (record {
      same_repo = refl;
      same_ref = refl;
      repo_plain = not_option_like repo (codes "repo URL") h0;
      ref_plain = not_option_like ref (codes "ref") h1;
      again = rw (h0, h1, again) refl;
    })

parse_reference-IsParsed :
    (reference : Text) (extension : Option Text) {s : GitSource}
    → parse_reference reference extension ≡ ok s
    → IsParsed extension s
unfolding parse_reference
parse_reference-IsParsed reference extension h =
    let stripped = without_scheme reference (strip_prefix_i (codes "git+") reference) in
    with_repo-IsParsed reference stripped (cut b'#' stripped) extension refl h

-- A git reference that is accepted names a source whose display path is a reference to the same source,
-- with the same repository, ref and cleaned path; and neither its repository nor its ref begins with `-`,
-- so that git cannot read them as options.
pub parse_reference-display_path :
    (reference : Text) (extension : Option Text) (s : GitSource)
    → parse_reference reference extension ≡ ok s
    → (parse_reference (git_display_path s) extension ≡ ok s)
      × (starts_with (codes "-") s.repo ≡ false)
      × (starts_with (codes "-") s.ref ≡ false)
unfolding git_display_path
parse_reference-display_path reference extension s h =
    let r = parse_reference-IsParsed reference extension h in
    let m = new_git-IsMade r.repo r.ref r.file_path extension r.made in
    (
      parse_reference-reference s.repo s.ref s.file_path extension
            (subst (Lacks b'#') (sym m.same_repo) r.repo_Lacks)
            (subst (Lacks b':') (sym m.same_ref) r.ref_Lacks)
          ∙ m.again,
      m.repo_plain,
      m.ref_plain,
    )
