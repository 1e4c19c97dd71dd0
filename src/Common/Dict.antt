-- ===== src/Common/Dict.antt =====
-- JavaScript's `Map`: an association list in insertion order, generic in its keys.
use Prim.Native.Nat.{◌+◌, ◌≤◌}
use mathlib.Core.Path.{◌≡◌, refl, ap, sym, subst}
use mathlib.Core.Bool.{Bool, true, false}
use mathlib.Core.Logic.{inl, inr}
use mathlib.Core.List.{List, [], ◌∷◌}
use mathlib.Core.Option.{Option, none, some}
use native.Mathlib.Omega.{arith}
use misaka_network.Common.Tests.{Eq, ◌==◌, if◌then◌else◌, beq_self, beq→eq, Bool-cases}
use misaka_network.Common.Lists.{length}

abbrev pub Dict {ℓ κ} : Type ℓ → Type κ → Type (ℓ ⊔ κ)
Dict K V = List (K × V)

abbrev pub apply_some {κ} : {V : Type κ} → (V → V) → Option V → Option V
apply_some f none = none
apply_some f (some v) = some (f v)

module _ {ℓ κ} {K : Type ℓ} {V : Type κ} ⦃e : Eq K⦄ where
  -- m.get(k)
  unfoldable pub get : Dict K V → K → Option V
  get [] k = none
  get ((j, v) ∷ m) k = let rest = get m k in if j == k then some v else rest

  -- m.set(k, v): an old key keeps its place, a new one goes to the end.
  unfoldable pub put : Dict K V → K → V → Dict K V
  put [] k v = (k, v) ∷ []
  put ((j, w) ∷ m) k v = let rest = put m k v in if j == k then (j, v) ∷ m else (j, w) ∷ rest

  -- m.delete(k)
  unfoldable pub remove : Dict K V → K → Dict K V
  remove [] k = []
  remove ((j, w) ∷ m) k = let rest = remove m k in if j == k then rest else (j, w) ∷ rest

  -- for (const [k, v] of m) if (drop(k, v)) m.delete(k)
  unfoldable pub prune : (K → V → Bool) → Dict K V → Dict K V
  prune drop [] = []
  prune drop ((j, w) ∷ m) = let rest = prune drop m in if drop j w then rest else (j, w) ∷ rest

  -- An object held by the map is written through its reference.
  unfoldable pub modify : Dict K V → K → (V → V) → Dict K V
  modify [] k f = []
  modify ((j, w) ∷ m) k f =
      let rest = modify m k f in if j == k then (j, f w) ∷ m else (j, w) ∷ rest

  -- m.has(k)
  unfoldable pub has : Dict K V → K → Bool
  unfolding get
  has m k = elim (get m k) [ none ↦ false | some _ ↦ true ]

  pub get-put :
      (m : Dict K V) (k j : K) (v : V) → get (put m k v) j ≡ (if k == j then some v else get m j)
  unfolding get put
  get-put [] k j v = refl
  get-put ((i, w) ∷ m) k j v =
      ground (arith, e.beq_iff k j, e.beq_iff i k, e.beq_iff i j, get-put m k j v)

  pub get-remove :
      (m : Dict K V) (k j : K) → get (remove m k) j ≡ (if k == j then none else get m j)
  unfolding get remove
  get-remove [] k j = ground arith
  get-remove ((i, w) ∷ m) k j =
      ground (arith, e.beq_iff k j, e.beq_iff i k, e.beq_iff i j, get-remove m k j)

  pub get-modify :
      (m : Dict K V) (k j : K) (f : V → V)
      → get (modify m k f) j ≡ (if k == j then apply_some f (get m j) else get m j)
  unfolding get modify
  get-modify [] k j f = ground arith
  get-modify ((i, w) ∷ m) k j f =
      ground (arith, e.beq_iff k j, e.beq_iff i k, e.beq_iff i j, get-modify m k j f)

  pub length-modify : (m : Dict K V) (k : K) (f : V → V) → length (modify m k f) ≡ length m
  unfolding modify
  length-modify [] k f = refl
  length-modify ((j, w) ∷ m) k f = ground (arith, length-modify m k f)

  pub get-put_self : (m : Dict K V) (k : K) (v : V) → get (put m k v) k ≡ some v
  get-put_self m k v = rw (get-put m k k v, beq_self k)

  pub get-remove_self : (m : Dict K V) (k : K) → get (remove m k) k ≡ none
  get-remove_self m k = rw (get-remove m k k, beq_self k)

  pub length-put-le : (m : Dict K V) (k : K) (v : V) → length (put m k v) ≤ length m + 1
  unfolding put
  length-put-le [] k v = omega arith
  length-put-le ((j, w) ∷ m) k v = ground (arith, length-put-le m k v)

  pub length-remove-le : (m : Dict K V) (k : K) → length (remove m k) ≤ length m
  unfolding remove
  length-remove-le [] k = omega arith
  length-remove-le ((j, w) ∷ m) k = ground (arith, length-remove-le m k)

  pub length-remove-lt :
      (m : Dict K V) (k : K) (v : V) → get m k ≡ some v → length (remove m k) + 1 ≤ length m
  unfolding get remove
  length-remove-lt [] k v h = absurd (ground arith)
  length-remove-lt ((j, w) ∷ m) k v h = ground (arith, length-remove-lt m k v, length-remove-le m k)

module _ {ℓ κ} {K : Type ℓ} {V : Type κ} ⦃e : Eq K⦄ where
  -- Every key stands once, as in a `Map`.
  abbrev pub Distinct : Dict K V → Type (ℓ ⊔ κ)
  Distinct [] = Unit
  Distinct ((k, v) ∷ m) = (get m k ≡ none) × Distinct m

  -- What `prune` leaves of an entry.
  abbrev pub unless : (K → V → Bool) → K → Option V → Option V
  unless drop k none = none
  unless drop k (some v) = if drop k v then none else some v

  pub put-Distinct : (m : Dict K V) (k : K) (v : V) → Distinct m → Distinct (put m k v)
  unfolding put get
  put-Distinct [] k v d = (refl, tt)
  put-Distinct ((j, w) ∷ m) k v d =
      ground (arith, e.beq_iff j k, e.beq_iff k j, get-put m k j v, put-Distinct m k v d.1)

  pub get-prune :
      (drop : K → V → Bool) (m : Dict K V) (k : K)
      → Distinct m
      → get (prune drop m) k ≡ unless drop k (get m k)
  unfolding prune get
  get-prune drop [] k d = refl
  get-prune drop ((j, w) ∷ m) k d = elim (Bool-cases (j == k)) [
    | inl same ↦
        ground (arith, e.beq_iff j k, get-prune drop m j d.1, ap (λ x. get m x) (beq→eq j k same))
    | inr differ ↦ ground (arith, get-prune drop m k d.1)
  ]

  -- A sweep that would not drop what stands under a key leaves it.
  pub get-prune_kept :
      (drop : K → V → Bool) (m : Dict K V) (k : K)
      → ((v : V) → get m k ≡ some v → drop k v ≡ false)
      → get (prune drop m) k ≡ get m k
  unfolding prune get
  get-prune_kept drop [] k keeps = refl
  get-prune_kept drop ((j, w) ∷ m) k keeps = elim (Bool-cases (j == k)) [
    | inl same ↦
        let kept : drop j w ≡ false =
          subst (λ x. drop x w ≡ false) (sym (beq→eq j k same)) (keeps w (rw same refl)) in
        rw kept (ground (arith, same))
    | inr differ ↦
        let rest : get (prune drop m) k ≡ get m k =
          get-prune_kept drop m k (λ v h. keeps v (rw differ h)) in
        ground (arith, differ, rest)
  ]

  pub prune-Distinct : (drop : K → V → Bool) (m : Dict K V) → Distinct m → Distinct (prune drop m)
  unfolding prune get
  prune-Distinct drop [] d = tt
  prune-Distinct drop ((j, w) ∷ m) d =
      ground (arith, get-prune drop m j d.1, prune-Distinct drop m d.1)

  pub remove-Distinct : (m : Dict K V) (k : K) → Distinct m → Distinct (remove m k)
  unfolding remove get
  remove-Distinct [] k d = tt
  remove-Distinct ((j, w) ∷ m) k d =
      ground (arith, e.beq_iff j k, e.beq_iff k j, get-remove m k j, remove-Distinct m k d.1)

pub ruleset dict_laws = (get-put, get-remove, get-modify, get-put_self, get-remove_self)
