-- ===== src/Auth/Workload.antt =====
-- The operators that the infrastructure identity policy keeps out.
use safe4_arc_demo.Prelude.{
  ℕ, ◌≡◌, refl, ◌⊎◌, inl, inr, Option, none, some, true, List, [], ◌∷◌, arith, Bool-cases, contains,
}
use safe4_arc_demo.Auth.{
  AgentIdentity, InfrastructureIdentity, InfrastructureIdentityPolicy, passed, trusted?,
  infrastructure, is_trusted_workload, meets, workload, assess_infrastructure_identity_posture,
  require_trusted_infrastructure_identity_for_admin,
}

-- The list names nothing, or names the value.
abbrev Listed : List ℕ → Option ℕ → Type 0
Listed xs value = (xs ≡ []) ⊎ ((a : ℕ) × (value ≡ some a) × (contains xs a ≡ true))

pub record IsTrusted (p : InfrastructureIdentityPolicy) (i : InfrastructureIdentity) : Type 0 where
  pub provider : Listed p.trusted_provider_names (some i.provider_name)
  pub environment : Listed p.trusted_environments i.environment
  pub namespace : Listed p.trusted_namespaces i.namespace
  pub service_account : Listed p.trusted_service_accounts i.service_account
  pub trust_tier : Listed p.trusted_trust_tiers i.trust_tier

meets-Listed : (xs : List ℕ) (value : Option ℕ) → meets xs value ≡ true → Listed xs value
meets-Listed [] value h = inl refl
meets-Listed (x ∷ xs) none h = ground (arith, h)
meets-Listed (x ∷ xs) (some a) h = inr (a, refl, h)

is_trusted_workload-IsTrusted :
    (p : InfrastructureIdentityPolicy) (i : InfrastructureIdentity)
    → is_trusted_workload p i ≡ true
    → IsTrusted p i
unfolding is_trusted_workload
is_trusted_workload-IsTrusted p i h = record {
  provider = meets-Listed p.trusted_provider_names (some i.provider_name) (ground (arith, h));
  environment = meets-Listed p.trusted_environments i.environment (ground (arith, h));
  namespace = meets-Listed p.trusted_namespaces i.namespace (ground (arith, h));
  service_account = meets-Listed p.trusted_service_accounts i.service_account (ground (arith, h));
  trust_tier = meets-Listed p.trusted_trust_tiers i.trust_tier (ground (arith, h));
}

abbrev OnTrusted : InfrastructureIdentityPolicy → Option InfrastructureIdentity → Type 0
OnTrusted p infra = (i : InfrastructureIdentity) × (infra ≡ some i) × IsTrusted p i

workload-OnTrusted :
    (p : InfrastructureIdentityPolicy) (infra : Option InfrastructureIdentity)
    → trusted? (workload p infra) ≡ true
    → OnTrusted p infra
workload-OnTrusted p none h = ground (arith, h)
workload-OnTrusted p (some i) h = (i, refl, is_trusted_workload-IsTrusted p i (ground (arith, h)))

-- Where the policy is enabled and asks operators for a trusted workload, whoever it lets change
-- something has an infrastructure identity, and each list of the policy that names anything names
-- the provider, environment, namespace, service account or trust tier of this identity.
pub admin-OnTrusted :
    (p : InfrastructureIdentityPolicy) (identity : Option AgentIdentity)
    → p.enabled ≡ true
    → p.require_trusted_workload_for_admin_mutations ≡ true
    → (require_trusted_infrastructure_identity_for_admin p identity ≡ passed identity)
    → OnTrusted p (infrastructure identity)
unfolding require_trusted_infrastructure_identity_for_admin assess_infrastructure_identity_posture
admin-OnTrusted p identity on strict let_in =
    elim (Bool-cases (trusted? (workload p (infrastructure identity)))) [
      | inl y ↦ workload-OnTrusted p (infrastructure identity) y
      | inr n ↦ ground (arith, let_in, on, strict, n)
    ]
