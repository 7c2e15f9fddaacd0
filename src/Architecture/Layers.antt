-- ===== src/Architecture/Layers.antt =====
-- What a layered source tree is, and that the check of scripts/check-architecture.ts decides it.
use pulse_ledger.Base.{
  ◌≡◌, refl, ap, Bool, true, false, not, ◌&&◌, ◌||◌, ◌↔◌, ◌⊎◌, inl, inr, Option, none, some, List,
  [], ◌∷◌, ◌++◌, arith, Bool-cases,
}
use Prim.Native.String.{String}
use pulse_ledger.Base.Decimal.{Text}
use pulse_ledger.Auth.Store.{same_text}
use pulse_ledger.Auth.Keys.{same_text_refl, same_text_eq}
use pulse_ledger.Architecture.Paths.{is_some, starts_with, ends_with}
use pulse_ledger.Architecture.Rules.{
  Violation, domain_ending, routes_ending, repository_ending, service_ending, infrastructure_folder,
  ports_folder, differs, both_differ, when, check_names,
}

pub data Layer : Type 0 where
  domain : Layer
  routes : Layer
  repository : Layer
  service : Layer
  infrastructure : Layer
  ports : Layer

-- A file's layers, by its relative name; it may have two, by its ending and by its folder.
unfoldable pub in_layer : Layer → Text → Bool
in_layer domain name = ends_with domain_ending name
in_layer routes name = ends_with routes_ending name
in_layer repository name = ends_with repository_ending name
in_layer service name = ends_with service_ending name
in_layer infrastructure name = starts_with infrastructure_folder name
in_layer ports name = starts_with ports_folder name

-- The layers whose files a layer's files may not import.
pub data Forbidden : Layer → Layer → Type 0 where
  domain_routes : Forbidden domain routes
  domain_repository : Forbidden domain repository
  domain_service : Forbidden domain service
  ports_infrastructure : Forbidden ports infrastructure
  routes_infrastructure : Forbidden routes infrastructure
  routes_repository : Forbidden routes repository
  routes_service : Forbidden routes service
  service_infrastructure : Forbidden service infrastructure
  service_repository : Forbidden service repository
  service_routes : Forbidden service routes
  repository_routes : Forbidden repository routes
  repository_service : Forbidden repository service

-- A file may import another, by the names and the features of the two: no forbidden layer, no
-- feature for what is shared, and of another feature the domain only.
abbrev pub MayImport : Text → Text → Option Text → Option Text → Type 0
MayImport name target feature target_feature =
    ((l m : Layer) → Forbidden l m → in_layer l name ≡ true → in_layer m target ≡ false)
    × (in_layer infrastructure name ≡ true → target_feature ≡ none)
    × (in_layer ports name ≡ true → target_feature ≡ none)
    × ((f g : Text)
        → feature ≡ some f
        → target_feature ≡ some g
        → (f ≡ g) ⊎ (in_layer domain target ≡ true))

pub ++-empty {ℓ} : {A : Type ℓ} (xs ys : List A) → (xs ++ ys ≡ []) ↔ ((xs ≡ []) × (ys ≡ []))
++-empty [] ys = (λ h. (refl, h), λ h. h.1)
++-empty (x ∷ xs) ys = (λ h. cc, λ h. cc)

pub when-empty : (b : Bool) (v : Violation) → (when b v ≡ []) ↔ (b ≡ false)
when-empty true v = (λ h. cc, λ h. cc)
when-empty false v = (λ h. refl, λ h. refl)

when-last :
    (xs : List Violation) (b : Bool) (v : Violation) → xs ++ when b v ≡ [] → (xs ≡ []) × (b ≡ false)
when-last xs b v h = let both = (++-empty xs (when b v)).0 h in (both.0, (when-empty b v).0 both.1)

same_text-false : (f g : Text) → f ≡ g → same_text f g ≡ true
same_text-false f g h = rw h (same_text_refl g)

both_differ-same :
    (a b : Option Text) (f g : Text) → both_differ a b ≡ false → a ≡ some f → b ≡ some g → f ≡ g
both_differ-same a b f g h p q = elim (Bool-cases (same_text f g)) [
  | inl y ↦ same_text_eq f g y
  | inr n ↦ ground (arith, h, p, q, n)
]

both_differ-false :
    (a b : Option Text) → ((f g : Text) → a ≡ some f → b ≡ some g → f ≡ g) → both_differ a b ≡ false
both_differ-false none b h = refl
both_differ-false (some f) none h = refl
both_differ-false (some f) (some g) h = rw (same_text-false f g (h f g refl refl)) refl

pub differs-eq : (a b : Option Text) → (differs a b ≡ false) ↔ (a ≡ b)
differs-eq none none = (λ h. refl, λ h. refl)
differs-eq none (some g) = (λ h. cc, λ h. cc)
differs-eq (some f) none = (λ h. cc, λ h. cc)
differs-eq (some f) (some g) =
    (λ h. ap some (same_text_eq f g (ground arith)), λ h. rw (same_text-false f g (cc)) refl)

-- The tests of `check_names`, none of which holds.
abbrev pub IsQuiet : Text → Text → Option Text → Option Text → Type 0
IsQuiet name target feature target_feature =
    ((in_layer domain name
        && (in_layer routes target || in_layer repository target || in_layer service target))
      ≡ false)
    × ((in_layer infrastructure name && is_some target_feature) ≡ false)
    × ((both_differ feature target_feature && not (in_layer domain target)) ≡ false)
    × ((in_layer ports name && (is_some target_feature || in_layer infrastructure target)) ≡ false)
    × ((in_layer routes name
          && (in_layer infrastructure target
              || in_layer repository target
              || in_layer service target))
        ≡ false)
    × ((in_layer service name
          && (in_layer infrastructure target
              || in_layer repository target
              || in_layer routes target))
        ≡ false)
    × ((in_layer repository name && (in_layer routes target || in_layer service target)) ≡ false)

whens-empty :
    (a b c d e f g : Bool) (s t u v w x y : Violation)
    → (when a s ++ when b t ++ when c u ++ when d v ++ when e w ++ when f x ++ when g y ≡ []) ↔ (
        (a ≡ false)
        × (b ≡ false)
        × (c ≡ false)
        × (d ≡ false)
        × (e ≡ false)
        × (f ≡ false)
        × (g ≡ false))
whens-empty a b c d e f g s t u v w x y = (
  λ h.
      let n = when-last _ g y h in
      let m = when-last _ f x n.0 in
      let l = when-last _ e w m.0 in
      let k = when-last _ d v l.0 in
      let j = when-last _ c u k.0 in
      let i = when-last _ b t j.0 in ((when-empty a s).0 i.0, i.1, j.1, k.1, l.1, m.1, n.1),
  λ (a, b, c, d, e, f, g). rw (a, b, c, d, e, f, g) refl,
)

pub check_names-IsQuiet :
    (note : String → Violation) (name target : Text) (feature target_feature : Option Text)
    → (check_names note name target feature target_feature ≡ [])
      ↔ IsQuiet name target feature target_feature
unfolding check_names in_layer
check_names-IsQuiet note name target feature target_feature =
    whens-empty _ _ _ _ _ _ _ _ _ _ _ _ _ _

and_or-left : (a b c : Bool) → (a && (b || c)) ≡ false → a ≡ true → (b ≡ false) × (c ≡ false)
and_or-left a b c h p = ground arith

pub and-intro : (a b : Bool) → (a ≡ true → b ≡ false) → (a && b) ≡ false
and-intro true b h = h refl
and-intro false b h = refl

or3-false : (a b c : Bool) → a ≡ false → b ≡ false → c ≡ false → (a || b || c) ≡ false
or3-false a b c p q r = ground arith

or-false : (a b : Bool) → a ≡ false → b ≡ false → (a || b) ≡ false
or-false a b p q = ground arith

is_some-false : (o : Option Text) → (is_some o ≡ false) ↔ (o ≡ none)
is_some-false none = (λ h. refl, λ h. refl)
is_some-false (some t) = (λ h. cc, λ h. cc)

module _ (name target : Text) (feature target_feature : Option Text) where
  IsQuiet-Forbidden :
      IsQuiet name target feature target_feature
      → (l m : Layer) → Forbidden l m
      → in_layer l name ≡ true
      → in_layer m target ≡ false
  IsQuiet-Forbidden q _ _ domain_routes p = ground (arith, q.0, p)
  IsQuiet-Forbidden q _ _ domain_repository p = ground (arith, q.0, p)
  IsQuiet-Forbidden q _ _ domain_service p = ground (arith, q.0, p)
  IsQuiet-Forbidden q _ _ ports_infrastructure p = (and_or-left _ _ _ q.3 p).1
  IsQuiet-Forbidden q _ _ routes_infrastructure p = ground (arith, q.4, p)
  IsQuiet-Forbidden q _ _ routes_repository p = ground (arith, q.4, p)
  IsQuiet-Forbidden q _ _ routes_service p = ground (arith, q.4, p)
  IsQuiet-Forbidden q _ _ service_infrastructure p = ground (arith, q.5, p)
  IsQuiet-Forbidden q _ _ service_repository p = ground (arith, q.5, p)
  IsQuiet-Forbidden q _ _ service_routes p = ground (arith, q.5, p)
  IsQuiet-Forbidden q _ _ repository_routes p = (and_or-left _ _ _ q.6 p).0
  IsQuiet-Forbidden q _ _ repository_service p = (and_or-left _ _ _ q.6 p).1

  pub IsQuiet-MayImport :
      IsQuiet name target feature target_feature → MayImport name target feature target_feature
  unfolding in_layer
  IsQuiet-MayImport q = (
    IsQuiet-Forbidden q,
    λ h. (is_some-false _).0 (ground (arith, h, q.1)),
    λ h. (is_some-false _).0 (and_or-left _ _ _ q.3 h).0,
    λ f g p r. elim (Bool-cases (in_layer domain target)) [
      | inl d ↦ inr d
      | inr d ↦ inl (both_differ-same feature target_feature f g (ground (arith, d, q.2)) p r)
    ],
  )

  pub MayImport-IsQuiet :
      MayImport name target feature target_feature → IsQuiet name target feature target_feature
  MayImport-IsQuiet (apart, shared, port, contract) = (
    and-intro _ _ (λ h.
        or3-false _ _ _ (apart domain routes domain_routes h)
          (apart domain repository domain_repository h) (apart domain service domain_service h)),
    and-intro _ _ (λ h. (is_some-false _).1 (shared h)),
    elim (Bool-cases (in_layer domain target)) [
      | inl d ↦ ground (arith, d)
      | inr d ↦
          let same =
            both_differ-false feature target_feature
              (λ f g p r. elim (contract f g p r) [ inl y ↦ y | inr z ↦ ground (arith, d, z) ]) in
          ground (arith, same)
    ],
    and-intro _ _ (λ h.
        or-false _ _ ((is_some-false _).1 (port h))
          (apart ports infrastructure ports_infrastructure h)),
    and-intro _ _ (λ h.
        or3-false _ _ _ (apart routes infrastructure routes_infrastructure h)
          (apart routes repository routes_repository h) (apart routes service routes_service h)),
    and-intro _ _ (λ h.
        or3-false _ _ _ (apart service infrastructure service_infrastructure h)
          (apart service repository service_repository h) (apart service routes service_routes h)),
    and-intro _ _ (λ h.
        or-false _ _ (apart repository routes repository_routes h)
          (apart repository service repository_service h)),
  )
