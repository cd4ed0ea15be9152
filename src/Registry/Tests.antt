-- ===== src/Registry/Tests.antt =====
-- The registry with numbers for names.
use orpc_prototype.Prelude.{ℕ, ◌≡◌, Bool, some, [], ◌==◌, ==-refl, ==_iff}
use orpc_prototype.Registry.{register, lookup, lookup-register}

abbrev same : ℕ → ℕ → Bool
same n m = n == m

lookup-register_example : lookup same (register same (register same [] 1 8 40) 2 8 41) 2 8 ≡ some 41
lookup-register_example =
    lookup-register same ==-refl (λ n m e. (==_iff n m).0 e) (register same [] 1 8 40) 2 2 8 8 41
