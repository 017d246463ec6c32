-- ===== src/Rbac/Tests.antt =====
-- Wildcards, white space and repetitions among permissions.
use backend_core_kit.Prelude.{ℕ, ◌==◌, ◌≡◌, Bool, List, [], ◌∷◌, all}
use backend_core_kit.Rbac.{Text, has_all_permissions}
use backend_core_kit.Rbac.Matching.{is_met, has_all_permissions-normalize_permissions}

abbrev is_space : ℕ → Bool
is_space c = c == 32

-- " u:*" and "u:*"
abbrev granted : List Text
granted = (32 ∷ 117 ∷ 58 ∷ 42 ∷ []) ∷ (117 ∷ 58 ∷ 42 ∷ []) ∷ []

-- "u:r" and " "
abbrev required : List Text
required = (117 ∷ 58 ∷ 114 ∷ []) ∷ (32 ∷ []) ∷ []

has_all_permissions-normalize_permissions_example :
    has_all_permissions is_space granted required ≡ all (is_met is_space granted) required
has_all_permissions-normalize_permissions_example =
    has_all_permissions-normalize_permissions is_space granted required
