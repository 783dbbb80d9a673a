-- ===== src/Services/Registry/Distinct.antt =====
-- The registry holds no two services of one name or one unit.
use meta_monutchee.Base.{
  false, ◌≡◌, ◌≢◌, ◌↔◌, All-append, refl, [], ◌∷◌, ◌++◌, All, any, string_eq, Bool-cases, inl, inr,
  arith, eq_iff,
}
use meta_monutchee.Services.Registry.{
  ManagedService, Registry, Outcome, returned, threw, exhausted, clashes, register_service, find,
}

abbrev pub AreDifferent : ManagedService → ManagedService → Type 0
AreDifferent s t = (s.name ≢ t.name) × (s.unit ≢ t.unit)

abbrev pub IsDistinct : Registry → Type 0
IsDistinct [] = Unit
IsDistinct (s ∷ rest) = All (AreDifferent s) rest × IsDistinct rest

All-skip :
    (s : ManagedService) (rest ts : Registry)
    → All (AreDifferent s) ts
    → All (λ t. find rest t.name ≡ returned t) ts
    → All (λ t. find (s ∷ rest) t.name ≡ returned t) ts
unfolding find
All-skip s rest [] d h = tt
All-skip s rest (t ∷ ts) d h =
    ((ground (arith, h.0, d.0, eq_iff s.name t.name)), All-skip s rest ts d.1 h.1)

-- every service is found by its name
pub find-own :
    (services : Registry)
    → IsDistinct services
    → All (λ s. find services s.name ≡ returned s) services
unfolding find
find-own [] d = tt
find-own (s ∷ rest) d =
    ((ground (arith, eq_iff s.name s.name)), All-skip s rest rest d.0 (find-own rest d.1))

-- no clash with a service: it differs from all
no_clash :
    (new : ManagedService) (services : Registry)
    → (any (clashes new) services ≡ false) ↔ All (λ s. AreDifferent s new) services
no_clash new [] = ((λ _. tt), λ _. refl)
no_clash new (s ∷ rest) =
    ground (arith, eq_iff s.name new.name, eq_iff s.unit new.unit, no_clash new rest)

All-snoc :
    (P : ManagedService → Type 0) (xs : Registry) (x : ManagedService)
    → All P xs
    → P x
    → All P (xs ++ (x ∷ []))
All-snoc P xs x hs h = All-append P xs (x ∷ []) hs (h, tt)

snoc-IsDistinct :
    (new : ManagedService) (services : Registry)
    → All (λ s. AreDifferent s new) services
    → IsDistinct services
    → IsDistinct (services ++ (new ∷ []))
snoc-IsDistinct new [] clash d = (tt, tt)
snoc-IsDistinct new (s ∷ rest) clash d =
    (All-snoc (AreDifferent s) rest new d.0 clash.0, snoc-IsDistinct new rest clash.1 d.1)

-- what a registration does
abbrev pub Registers : ManagedService → Registry → Outcome Registry → Type 0
Registers new services (returned services') =
    (services' ≡ services ++ (new ∷ [])) × IsDistinct services'
Registers new services (threw e) = ¬ All (λ s. AreDifferent s new) services
Registers new services exhausted = ⊥

-- In a registry of distinct names and units, a registration appends the service and keeps them
-- distinct, or it throws, and then the name or the unit of a registered service is the new one's.
pub register_service-Registers :
    (new : ManagedService) (services : Registry)
    → IsDistinct services
    → Registers new services (register_service new services)
unfolding register_service
register_service-Registers new services d = elim (Bool-cases (any (clashes new) services)) [
  | inl clash ↦ rw clash (λ different. absurd (grind (arith, (no_clash new services).1 different)))
  | inr clear ↦ rw clear ((refl, snoc-IsDistinct new services ((no_clash new services).0 clear) d))
]
