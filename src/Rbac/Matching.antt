-- ===== src/Rbac/Matching.antt =====
-- What normalizing the permissions changes in a decision.
use backend_core_kit.Prelude.{
  ℕ, ◌≡◌, refl, sym, ap, fun_ext, ◌∙◌, arith, Bool, true, false, not, ◌&&◌, ◌||◌, List, [], ◌∷◌,
  any, all, Bool-cases, inl, inr,
}
use backend_core_kit.Rbac.{
  Text, is_empty, same_text, trim_start, trim_end, trim, split_permission, normalize_from,
  normalize_permissions, parts_match, permission_matches, has_all_permissions,
}

same_text-eq : (a b : Text) → same_text a b ≡ true → a ≡ b
same_text-eq [] [] h = refl
same_text-eq [] (y ∷ ys) h = absurd (ground arith)
same_text-eq (x ∷ xs) [] h = absurd (ground arith)
same_text-eq (x ∷ xs) (y ∷ ys) h = ground (arith, same_text-eq xs ys)

any-same_text :
    (p : Text → Bool) (t : Text) (seen : List Text)
    → any (same_text t) seen ≡ true
    → p t ≡ true
    → any p seen ≡ true
any-same_text p t [] h k = absurd (ground arith)
any-same_text p t (s ∷ seen) h k = elim (Bool-cases (same_text t s)) [
  | inl same ↦ ground (arith, ap p (same_text-eq t s same))
  | inr other ↦ ground (arith, any-same_text p t seen)
]

module _ (blank : ℕ → Bool) where
  trim_end_twice : (xs : Text) → trim_end blank (trim_end blank xs) ≡ trim_end blank xs
  unfolding trim_end
  trim_end_twice [] = refl
  trim_end_twice (x ∷ xs) = elim (Bool-cases (is_empty (trim_end blank xs) && blank x)) [
    | inl gone ↦ rw gone refl
    | inr kept ↦ rw kept (rw (trim_end_twice xs) (rw kept refl))
  ]

  trim_twice : (xs : Text) → trim blank (trim blank xs) ≡ trim blank xs
  unfolding trim trim_start trim_end
  trim_twice [] = refl
  trim_twice (x ∷ xs) = elim (Bool-cases (blank x)) [
    | inl skipped ↦ rw skipped (trim_twice xs)
    | inr first ↦ ground (arith, trim_end_twice xs, trim_end_twice (x ∷ xs))
  ]

  -- A test that does not see the white space around a text, and that no blank text passes.
  module _ (p : Text → Bool) (trimmed : (x : Text) → p (trim blank x) ≡ p x)
      (fails : (x : Text) → is_empty (trim blank x) ≡ true → p x ≡ false) where
    any-normalize_from :
        (seen xs : List Text)
        → (any p seen || any p (normalize_from blank seen xs)) ≡ (any p seen || any p xs)
    unfolding normalize_from
    any-normalize_from seen [] = refl
    any-normalize_from seen (x ∷ xs) =
        let t = trim blank x in
        let skip = any-normalize_from seen xs in
        let keep = any-normalize_from (t ∷ seen) xs in
        elim (Bool-cases (is_empty t)) [
          | inl empty ↦ ground (arith, fails x empty, skip)
          | inr full ↦ elim (Bool-cases (any (same_text t) seen)) [
            | inl known ↦ ground (arith, skip, trimmed x, any-same_text p t seen known)
            | inr new ↦ ground (arith, keep, trimmed x)
          ]
        ]

  all-not : (p : Text → Bool) (xs : List Text) → all p xs ≡ not (any (λ x. not (p x)) xs)
  all-not p [] = refl
  all-not p (x ∷ xs) = ground (arith, all-not p xs)

  -- Two tests that agree on the texts that are not blank.
  all-normalize_from :
      (p p' : Text → Bool)
      → ((x : Text) → is_empty (trim blank x) ≡ false → p x ≡ p' x)
      → (seen xs : List Text)
      → all p (normalize_from blank seen xs) ≡ all p' (normalize_from blank seen xs)
  unfolding normalize_from
  all-normalize_from p p' agree seen [] = refl
  all-normalize_from p p' agree seen (x ∷ xs) =
      let t = trim blank x in
      ground (
        arith,
        all-normalize_from p p' agree seen xs,
        all-normalize_from p p' agree (t ∷ seen) xs,
        trim_twice x,
        agree t,
      )

  split_permission-trim :
      (v : Text) → split_permission blank (trim blank v) ≡ split_permission blank v
  unfolding split_permission
  split_permission-trim v = rw (trim_twice v) refl

  permission_matches-trim :
      (g r : Text) → permission_matches blank (trim blank g) r ≡ permission_matches blank g r
  unfolding permission_matches
  permission_matches-trim g r =
      ap (λ x. parts_match blank x (split_permission blank r)) (split_permission-trim g)

  required-trim :
      (g r : Text) → permission_matches blank g (trim blank r) ≡ permission_matches blank g r
  unfolding permission_matches
  required-trim g r = ap (parts_match blank (split_permission blank g)) (split_permission-trim r)

  permission_matches-is_empty :
      (g r : Text) → is_empty (trim blank g) ≡ true → permission_matches blank g r ≡ false
  unfolding permission_matches split_permission parts_match
  permission_matches-is_empty g r h = rw h refl

  -- Some permission, as it was granted, matches.
  abbrev pub granted_by : List Text → Text → Bool
  granted_by granted r = any (λ g. permission_matches blank g r) granted

  abbrev pub is_met : List Text → Text → Bool
  is_met granted r = is_empty (trim blank r) || granted_by granted r

  granted_by-normalize :
      (granted : List Text) (r : Text)
      → granted_by (normalize_from blank [] granted) r ≡ granted_by granted r
  granted_by-normalize granted r =
      any-normalize_from (λ g. permission_matches blank g r) (λ g. permission_matches-trim g r)
        (λ g. permission_matches-is_empty g r) [] granted

  granted_by-trim :
      (granted : List Text) (r : Text) → granted_by granted (trim blank r) ≡ granted_by granted r
  granted_by-trim [] r = refl
  granted_by-trim (g ∷ granted) r = ground (arith, required-trim g r, granted_by-trim granted r)

  is_met-normalize :
      (granted required : List Text)
      → all (is_met granted) (normalize_from blank [] required) ≡ all (is_met granted) required
  is_met-normalize granted required =
      let p = λ (r : Text). not (is_met granted r) in
      all-not (is_met granted) (normalize_from blank [] required)
      ∙ ap not (
          any-normalize_from p (λ r. ground (arith, trim_twice r, granted_by-trim granted r))
            (λ r h. ground arith) [] required)
      ∙ sym (all-not (is_met granted) required)

-- All permissions are there just if every required one that is not blank is matched by a granted
-- one, each taken as it was written: trimming them and leaving out repeated and blank ones does not
-- change the decision.
pub has_all_permissions-normalize_permissions :
    (blank : ℕ → Bool) (granted required : List Text)
    → has_all_permissions blank granted required ≡ all (is_met blank granted) required
unfolding has_all_permissions normalize_permissions
has_all_permissions-normalize_permissions blank granted required =
    ap (λ f. all f (normalize_from blank [] required))
      (fun_ext (granted_by-normalize blank granted))
    ∙ all-normalize_from blank (granted_by blank granted) (is_met blank granted)
        (λ r h. ground arith) [] required
    ∙ is_met-normalize blank granted required
