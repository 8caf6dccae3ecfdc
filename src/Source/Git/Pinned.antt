-- ===== src/Source/Git/Pinned.antt =====
-- The objects that identify git sources.
use dockerfile_x.Spawn.{spawn_cmd}
use dockerfile_x.Common.{
  ℕ, ◌≡◌, ◌⊎◌, refl, subst, Bool, true, ◌&&◌, ◌||◌, Option, none, some, List, [], ◌∷◌, Text, leb,
  All, all, codes, length, Bool-cases, inl, inr, arith, is_digit, same, to_lower, lower_unit,
}
use dockerfile_x.Common.Lookup.{find}
use dockerfile_x.Io.{Io}
use dockerfile_x.Io.Ensures.{
  Any, Returned-Any, Ensures, Returned, Ensures-returns, Ensures-of_result, Ensures-bind,
}
use dockerfile_x.PostProcess.{truthy}
use dockerfile_x.Source.Git.{GitSource}
use dockerfile_x.Source.Git.Fetch.{
  GitHost, GitMemo, GitState, is_oid, is_sha_ref, clone_key, beyond, change_memo, get_memo,
  ls_remote_args,
}
use dockerfile_x.Source.Git.Read.{
  with_oid, checked_oid, listed_oid, with_oid_of, listed_or, resolve_ref, resolve_unless_known,
  resolve_git,
}

abbrev is_hex_lower : ℕ → Bool
is_hex_lower c = is_digit c || leb b'a' c && leb c b'f'

abbrev is_hex_any : ℕ → Bool
is_hex_any c = is_digit c || leb b'a' c && leb c b'f' || leb b'A' c && leb c b'F'

lowered :
    (s : Text)
    → all is_hex_any s ≡ true
    → (all is_hex_lower (to_lower s) ≡ true) × (length (to_lower s) ≡ length s)
unfolding to_lower lower_unit
lowered [] h = (refl, refl)
lowered (c ∷ s) h = let (a, b) = lowered s (ground arith) in (ground arith, ground arith)

-- A full name of an object: 40 or 64 hexadecimal digits in lower case.
pub IsOid : Text → Type 0
IsOid s = is_oid s ≡ true

IsOid-to_lower : (s : Text) → is_sha_ref s ≡ true → IsOid (to_lower s)
unfolding IsOid is_oid is_sha_ref
IsOid-to_lower s h = let (a, b) = lowered s (ground arith) in rw (a, b) (ground arith)

-- The objects that are remembered for references, in `refResolveCache`, have full names; those that are remembered
-- with the clones are not among them.
abbrev pub AreOids : GitMemo → Type 0
AreOids memo = All (λ (key, oid). IsOid oid) memo.oids

oid_not_empty : (s : Text) → IsOid s → truthy (some s) ≡ some s
unfolding IsOid is_oid truthy
oid_not_empty [] h = cc
oid_not_empty (c ∷ s) h = refl

checked_oid-IsOid : (repo ref oid : Text) → Returned IsOid (checked_oid repo ref oid)
unfolding checked_oid IsOid
checked_oid-IsOid repo ref oid = elim (Bool-cases (is_oid oid)) [ inl e ↦ rw e e | inr e ↦ rw e tt ]

find-IsOid :
    (k : Text) (l : List (Text × Text)) (oid : Text)
    → All (λ (key, x). IsOid x) l
    → find k l ≡ some oid
    → IsOid oid
unfolding find
find-IsOid k [] oid p h = cc
find-IsOid k ((j, a) ∷ l) oid (q, p) h = elim (Bool-cases (same k j)) [
  | inl e ↦ let same_oid : a ≡ oid = cc (rw e at h) in subst IsOid same_oid q
  | inr e ↦ find-IsOid k l oid p (rw e at h)
]

module _ {W : Type 0} (host : GitHost W) where
  abbrev pub KeepsOids : {A : Type 0} → (A → Type 0) → Io (GitState host) A → Type 0
  KeepsOids = Ensures (λ s. AreOids s.0)

  pub KeepsOids-beyond : {A : Type 0} (m : Io W A) → KeepsOids Any (beyond host m)
  unfolding beyond
  KeepsOids-beyond m = record { at = λ (memo, w) p. (p, Returned-Any _) }

  KeepsOids-change :
      (key oid : Text) → IsOid oid → KeepsOids Any (change_memo host (with_oid_of host key oid))
  unfolding change_memo
  KeepsOids-change key oid q = record { at = λ (memo, w) p. ((q, p), tt) }

  pub KeepsOids-get : KeepsOids AreOids (get_memo host)
  unfolding get_memo
  KeepsOids-get = record { at = λ (memo, w) p. (p, p) }

  KeepsOids-listed :
      (repo ref : Text) (o : Option Text)
      → ((oid : Text) → o ≡ some oid → IsOid oid)
      → KeepsOids IsOid (listed_or host repo ref o)
  unfolding listed_or
  KeepsOids-listed repo ref (some oid) h = Ensures-returns oid (h oid refl)
  KeepsOids-listed repo ref none h =
      Ensures-bind _ _
        (KeepsOids-beyond
          (spawn_cmd host.child_process (codes "git") none (ls_remote_args repo ref)))
        (λ stdout a.
          Ensures-bind _ _ (Ensures-of_result _ (checked_oid-IsOid repo ref (listed_oid stdout)))
            (λ oid q.
              Ensures-bind _ _ (KeepsOids-change (clone_key repo ref) oid q)
                (λ u b. Ensures-returns oid q)))

  -- A source with an object that it had already, or one with a full name.
  pub IsPinnedTo : GitSource → GitSource → Type 0
  IsPinnedTo s s' =
      (oid : Text) × (truthy s'.oid ≡ some oid) × ((truthy s.oid ≡ some oid) ⊎ IsOid oid)

  pinned_to : (s : GitSource) (oid : Text) → IsOid oid → IsPinnedTo s (with_oid oid s)
  unfolding IsPinnedTo
  pinned_to s oid q = (oid, oid_not_empty oid q, inr q)

  KeepsOids-resolve_ref : (s : GitSource) → KeepsOids (IsPinnedTo s) (resolve_ref host s)
  unfolding resolve_ref
  KeepsOids-resolve_ref s = elim (Bool-cases (is_sha_ref s.ref)) [
    | inl e ↦ rw e (
        Ensures-returns (with_oid (to_lower s.ref) s)
          (pinned_to s (to_lower s.ref) (IsOid-to_lower s.ref e)))
    | inr e ↦ rw e (
        Ensures-bind _ _ KeepsOids-get (λ memo known.
          Ensures-bind _ _
            (KeepsOids-listed s.repo s.ref (find (clone_key s.repo s.ref) memo.oids)
              (λ oid h. find-IsOid (clone_key s.repo s.ref) memo.oids oid known h))
            (λ oid q. Ensures-returns (with_oid oid s) (pinned_to s oid q))))
  ]

  KeepsOids-unless :
      (s : GitSource) (o : Option Text)
      → truthy s.oid ≡ o
      → KeepsOids (IsPinnedTo s) (resolve_unless_known host s o)
  unfolding resolve_unless_known IsPinnedTo
  KeepsOids-unless s (some oid) e = Ensures-returns s (oid, e, inl e)
  KeepsOids-unless s none e = KeepsOids-resolve_ref s

  -- Where the objects that are remembered all have full names, `resolve` leaves it so, also if it throws; and a
  -- source that it returns has an object, which it had before or which has a full name in lower case.
  pub resolve_git-IsPinnedTo : (s : GitSource) → KeepsOids (IsPinnedTo s) (resolve_git host s)
  unfolding resolve_git
  resolve_git-IsPinnedTo s = KeepsOids-unless s (truthy s.oid) refl
