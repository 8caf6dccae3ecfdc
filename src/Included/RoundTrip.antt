-- ===== src/Included/RoundTrip.antt =====
-- The type of an inclusion, written into the comment and read back.
use mathlib.Core.List.{reverse-append, reverse-reverse}
use dockerfile_x.Common.{
  ℕ, zero, suc, ◌≤◌, ◌≡◌, refl, sym, ◌∙◌, ap, Bool, false, some, List, [], ◌∷◌, ◌++◌, append_assoc,
  append-nil, Text, codes, ◌==◌, any, is_space, Bool-cases, inl, inr, arith, join, same,
  strip_prefix,
}
use dockerfile_x.Common.Split.{
  split_from, split_from_keep_at, split_from_cut_at, split_from_whole, split, split_at,
  space_length, space_length_of_space, space_length_of_other, split_spaces,
}
use dockerfile_x.Included.{
  attribute, attributes, start_prefix, unquote, assign, read_pairs, field, parse_start_comment,
}

-- A text without white space.
abbrev pub IsToken : Text → Type 0
IsToken s = any is_space s ≡ false

-- A list that ends with `u`.
abbrev EndsWith : Text → List Text → Type 0
EndsWith u l = (before : List Text) × (l ≡ before ++ u ∷ [])

module _ (u : Text) (h : IsToken u) where
  space_length_of_token : space_length u ≡ 0
  space_length_of_token = go u h
    where
      go : (s : Text) → IsToken s → space_length s ≡ 0
      go [] k = unfold space_length in refl
      go (c ∷ s) k = space_length_of_other c s (ground arith)

split_from-token : (u cur : Text) → IsToken u → split_from space_length u cur 0 ≡ (cur ++ u) ∷ []
split_from-token [] cur h = unfold split_from in ap (λ x. x ∷ []) (sym (append-nil cur))
split_from-token (c ∷ u) cur h =
    rw
      (
        split_from_keep_at space_length c u cur (space_length_of_token (c ∷ u) h),
        split_from-token u (cur ++ c ∷ []) (ground arith),
        append_assoc cur (c ∷ []) u,
      )
      refl

EndsWith-cons : (u a : Text) (l : List Text) → EndsWith u l → EndsWith u (a ∷ l)
EndsWith-cons u a l (before, e) = (a ∷ before, ap (◌∷◌ a) e)

-- From `s` and a space on, the last part is `u`.
record Splits (u s : Text) : Type 0 where
  plain : (cur : Text) → EndsWith u (split_from space_length (s ++ 32 ∷ u) cur 0)
  skipping :
      (n : ℕ)
      → n ≤ space_length (s ++ 32 ∷ u)
      → EndsWith u (split_from space_length (s ++ 32 ∷ u) [] n)

module _ (u : Text) (h : IsToken u) where
  space_length-space : space_length (32 ∷ u) ≡ 1
  space_length-space =
      space_length_of_space 32 u (unfold is_space in refl) ∙ ap suc (space_length_of_token u h)

  last : EndsWith u (split_from space_length u [] 0)
  last = ([], split_from-token u [] h)

  plain-nil : (cur : Text) → EndsWith u (split_from space_length (32 ∷ u) cur 0)
  plain-nil cur =
      rw (split_from_cut_at space_length 32 u cur 0 space_length-space) (EndsWith-cons u cur _ last)

  skipping-nil :
      (n : ℕ) → n ≤ space_length (32 ∷ u) → EndsWith u (split_from space_length (32 ∷ u) [] n)
  unfolding split_from
  skipping-nil zero k = plain-nil []
  skipping-nil (suc zero) k = last
  skipping-nil (suc (suc n)) k = absurd (omega (arith, space_length-space))

  plain-cons :
      (c : ℕ) (s cur : Text)
      → Splits u s
      → EndsWith u (split_from space_length (c ∷ s ++ 32 ∷ u) cur 0)
  plain-cons c s cur r = elim (Bool-cases (is_space c)) [
    | inl e ↦
        rw
          (split_from_cut_at space_length c (s ++ 32 ∷ u) cur (space_length (s ++ 32 ∷ u))
            (space_length_of_space c _ e))
          (EndsWith-cons u cur _ (r.skipping (space_length (s ++ 32 ∷ u)) (omega arith)))
    | inr e ↦
        rw (split_from_keep_at space_length c (s ++ 32 ∷ u) cur (space_length_of_other c _ e))
          (r.plain (cur ++ c ∷ []))
  ]

  skipping-cons :
      (c : ℕ) (s : Text) (n : ℕ)
      → Splits u s
      → n ≤ space_length (c ∷ s ++ 32 ∷ u)
      → EndsWith u (split_from space_length (c ∷ s ++ 32 ∷ u) [] n)
  unfolding split_from
  skipping-cons c s zero r k = plain-cons c s [] r
  skipping-cons c s (suc n) r k = elim (Bool-cases (is_space c)) [
    | inl e ↦ r.skipping n (omega (arith, space_length_of_space c (s ++ 32 ∷ u) e))
    | inr e ↦ absurd (omega (arith, space_length_of_other c (s ++ 32 ∷ u) e))
  ]

  splits : (s : Text) → Splits u s
  splits [] = record { plain = plain-nil; skipping = skipping-nil }
  splits (c ∷ s) =
      let r = splits s in
      record { plain = λ cur. plain-cons c s cur r; skipping = λ n k. skipping-cons c s n r k }

  split_spaces-last : (s : Text) → EndsWith u (split_spaces (s ++ 32 ∷ u))
  unfolding split_spaces split
  split_spaces-last s = (splits s).plain []

read_pairs-append :
    (l k : List Text) (m : List (Text × Text))
    → read_pairs (l ++ k) m ≡ read_pairs k (read_pairs l m)
unfolding read_pairs
read_pairs-append [] k m = refl
read_pairs-append (pair ∷ l) k m = read_pairs-append l k (assign (split_at b'=' pair) m)

unquote-quoted : (t : Text) → unquote (b'"' ∷ t ++ b'"' ∷ []) ≡ t
unfolding unquote
unquote-quoted t = rw (reverse-append t (b'"' ∷ [])) (reverse-reverse t)

any-concat :
    (f : ℕ → Bool) (s : Text) (c : ℕ) → any f s ≡ false → f c ≡ false → any f (s ++ c ∷ []) ≡ false
any-concat f [] c h k = ground arith
any-concat f (d ∷ s) c h k = ground (arith, any-concat f s c)

abbrev include_type : Text → Text
include_type t = attribute (codes "includeType") t

include_type-IsToken : (t : Text) → IsToken t → IsToken (include_type t)
unfolding is_space
include_type-IsToken t h = any-concat is_space t b'"' h refl

split_at-include_type :
    (t : Text)
    → any (λ c. c == b'=') t ≡ false
    → split_at b'=' (include_type t) ≡ codes "includeType" ∷ (b'"' ∷ t ++ b'"' ∷ []) ∷ []
unfolding split_at split split_from
split_at-include_type t h =
    rw (split_from_whole (λ c. c == b'=') (t ++ b'"' ∷ []) (b'"' ∷ []) (any-concat _ t b'"' h refl))
      refl

attributes-split : (a b c : Text) → a ++ 32 ∷ [] ++ (b ++ 32 ∷ [] ++ c) ≡ a ++ 32 ∷ b ++ 32 ∷ c
attributes-split a b c =
    rw
      (
        append_assoc a (32 ∷ []) (b ++ 32 ∷ [] ++ c),
        append_assoc b (32 ∷ []) c,
        append_assoc a (32 ∷ b) (32 ∷ c),
      )
      refl

attributes-last :
    (file included_by t : Text)
    → attributes file included_by t
      ≡ attribute (codes "file") file
        ++ 32 ∷ attribute (codes "includedBy") included_by
        ++ 32 ∷ include_type t
unfolding attributes join
attributes-last file included_by t =
    attributes-split (attribute (codes "file") file) (attribute (codes "includedBy") included_by)
      (include_type t)

field-read_pairs :
    (t : Text) (l : List Text)
    → any (λ c. c == b'=') t ≡ false
    → EndsWith (include_type t) l
    → field (codes "includeType") (read_pairs l []) ≡ some t
unfolding read_pairs field same
field-read_pairs t l k (before, e) =
    rw
      (
        e,
        read_pairs-append before (include_type t ∷ []) [],
        split_at-include_type t k,
        unquote-quoted t,
      )
      refl

-- The comment that opens an included text is read back with the type of the inclusion that was written
-- into it, whatever the paths in front of it are, where the type has no white space and no `=`.
pub parse_start_comment-include_type :
    (file included_by t : Text)
    → IsToken t
    → any (λ c. c == b'=') t ≡ false
    → (m : List (Text × Text)) × (parse_start_comment
          (start_prefix ++ attributes file included_by t)
        ≡ some m)
      × (field (codes "includeType") m ≡ some t)
unfolding parse_start_comment strip_prefix
parse_start_comment-include_type file included_by t h k = (
  read_pairs (split_spaces (attributes file included_by t)) [],
  refl,
  rw (attributes-last file included_by t) (
      field-read_pairs t _ k (
        split_spaces-last (include_type t) (include_type-IsToken t h)
          (attribute (codes "file") file ++ 32 ∷ attribute (codes "includedBy") included_by))),
)
