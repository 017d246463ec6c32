-- ===== src/Rbac.antt =====
-- libs/platform/rbac/permissions.ts. A text is the list of its UTF-16 code units; which of them are
-- white space is a parameter.
pub mod Matching
pub mod Tests
use backend_core_kit.Prelude.{
  ℕ, zero, suc, ◌==◌, Bool, true, false, not, ◌&&◌, ◌||◌, Option, none, some, List, [], ◌∷◌, take,
  length, any, all, if◌then◌else◌,
}

abbrev pub Text : Type 0
Text = List ℕ

abbrev pub is_empty : Text → Bool
is_empty [] = true
is_empty (x ∷ xs) = false

abbrev pub same_text : Text → Text → Bool
same_text [] [] = true
same_text (x ∷ xs) (y ∷ ys) = x == y && same_text xs ys
same_text _ _ = false

abbrev drop : ℕ → Text → Text
drop zero xs = xs
drop (suc n) [] = []
drop (suc n) (x ∷ xs) = drop n xs

abbrev index_of : ℕ → Text → Option ℕ
index_of c [] = none
index_of c (x ∷ xs) =
    if x == c then some 0 else (elim (index_of c xs) [ none ↦ none | some i ↦ some (suc i) ])

-- ':' and '*'
abbrev colon : ℕ
colon = 58

abbrev star : Text
star = 42 ∷ []

pub record PermissionParts : Type 0 where
  pub resource : Text
  pub action : Text

module _ (blank : ℕ → Bool) where
  pub trim_start : Text → Text
  trim_start [] = []
  trim_start (x ∷ xs) = if blank x then trim_start xs else x ∷ xs

  pub trim_end : Text → Text
  trim_end [] = []
  trim_end (x ∷ xs) = let rest = trim_end xs in if is_empty rest && blank x then [] else x ∷ rest

  pub trim : Text → Text
  trim xs = trim_end (trim_start xs)

  pub parts_of : Text → Text → Option PermissionParts
  parts_of resource action =
      if is_empty resource || is_empty action
      then none
      else some (record { resource = resource; action = action })

  pub split_at : Text → Option ℕ → Option PermissionParts
  split_at t none = none
  split_at t (some zero) = none
  split_at t (some (suc i)) =
      if suc (suc i) == length t
      then none
      else parts_of (trim (take (suc i) t)) (trim (drop (suc (suc i)) t))

  pub split_permission : Text → Option PermissionParts
  split_permission value =
      let t = trim value in if is_empty t then none else split_at t (index_of colon t)

  pub normalize_from : List Text → List Text → List Text
  normalize_from seen [] = []
  normalize_from seen (raw ∷ input) =
      let t = trim raw in
      let rest = normalize_from seen input in
      let rest' = normalize_from (t ∷ seen) input in
      if is_empty t || any (same_text t) seen then rest else t ∷ rest'

  pub normalize_permissions : List Text → List Text
  normalize_permissions input = normalize_from [] input

  pub parts_match : Option PermissionParts → Option PermissionParts → Bool
  parts_match none required = false
  parts_match (some g) none = false
  parts_match (some g) (some r) =
      if same_text g.resource star && same_text g.action star
      then true
      else (same_text g.resource star || same_text g.resource r.resource)
        && (same_text g.action star || same_text g.action r.action)

  unfoldable pub permission_matches : Text → Text → Bool
  permission_matches granted required =
      parts_match (split_permission granted) (split_permission required)

  unfoldable pub has_all_permissions : List Text → List Text → Bool
  has_all_permissions granted required =
      let granted_norm = normalize_permissions granted in
      all (λ req. any (λ g. permission_matches g req) granted_norm) (normalize_permissions required)
