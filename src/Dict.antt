-- ===== src/Dict.antt =====
-- A Python dict in insertion order, keyed by values with an equality test.
use mathlib.Core.List.{append-nil, append_assoc}
use aistock.Common.{
  ◌≡◌, refl, ap, ◌∙◌, sym, subst, any, ◌++◌, Bool-cases, inl, inr, Bool, true, false, Option, none,
  some, List, [], ◌∷◌, arith, Eq, ◌==◌, if◌then◌else◌, All,
}

abbrev pub Dict {ℓ κ} : Type ℓ → Type κ → Type (ℓ ⊔ κ)
Dict K V = List (K × V)

module _ {ℓ κ} {K : Type ℓ} {V : Type κ} ⦃e : Eq K⦄ where
  -- `d.get(k)`
  abbrev pub lookup : K → Dict K V → Option V
  lookup k [] = none
  lookup k ((j, v) ∷ d) = if k == j then some v else lookup k d

  -- `k in d`
  abbrev pub contains : K → Dict K V → Bool
  contains k d = elim (lookup k d) [ none ↦ false | some _ ↦ true ]

  -- `d.get(k, default)`
  abbrev pub get_or : K → V → Dict K V → V
  get_or k v d = elim (lookup k d) [ none ↦ v | some w ↦ w ]

  -- `d[k] = v`: an old key keeps its place.
  abbrev pub insert : K → V → Dict K V → Dict K V
  insert k v [] = (k, v) ∷ []
  insert k v ((j, w) ∷ d) = if k == j then (j, v) ∷ d else (j, w) ∷ insert k v d

  -- `d.values()`
  abbrev pub values : Dict K V → List V
  values [] = []
  values ((j, v) ∷ d) = v ∷ values d

  pub lookup-insert :
      (j k : K) (v : V) (d : Dict K V)
      → lookup j (insert k v d) ≡ (if j == k then some v else lookup j d)
  lookup-insert j k v [] = refl
  lookup-insert j k v ((i, w) ∷ d) =
      ground (arith, e.beq_iff j k, e.beq_iff k i, e.beq_iff j i, lookup-insert j k v d)

  pub get_or-insert : (k : K) (v w : V) (d : Dict K V) → get_or k v (insert k w d) ≡ w
  get_or-insert k v w [] = ground (arith, e.beq_iff k k)
  get_or-insert k v w ((j, u) ∷ d) =
      ground (arith, e.beq_iff k j, e.beq_iff j j, e.beq_iff k k, get_or-insert k v w d)

  pub All-insert {μ} :
      (P : V → Type μ) (k : K) (v : V) (d : Dict K V)
      → P v
      → All P (values d)
      → All P (values (insert k v d))
  All-insert P k v [] p h = (p, tt)
  All-insert P k v ((j, w) ∷ d) p h = ground (arith, All-insert P k v d p h.1)

module _ {ℓ κ} {K : Type ℓ} {V : Type κ} ⦃e : Eq K⦄ (key : V → K) where
  abbrev pub index_from : Dict K V → List V → Dict K V
  index_from d [] = d
  index_from d (v ∷ vs) = index_from (insert (key v) v d) vs

  -- `{key(v): v for v in vs}.values()`: the last value of each key, in the order of the first.
  abbrev pub unique_by : List V → List V
  unique_by vs = values (index_from [] vs)

  pub index_from-All {μ} :
      (P : V → Type μ) (d : Dict K V) (vs : List V)
      → All P (values d)
      → All P vs
      → All P (values (index_from d vs))
  index_from-All P d [] h k = h
  index_from-All P d (v ∷ vs) h k =
      index_from-All P (insert (key v) v d) vs (All-insert P (key v) v d k.0 h) k.1

  pub unique_by-All {μ} : (P : V → Type μ) (vs : List V) → All P vs → All P (unique_by vs)
  unique_by-All P vs h = index_from-All P [] vs tt h

module _ {ℓ κ} {K : Type ℓ} {V : Type κ} ⦃e : Eq K⦄ where
  pub All-lookup {μ} :
      (P : V → Type μ) (k : K) (v : V) (d : Dict K V) → All P (values d) → lookup k d ≡ some v → P v
  All-lookup P k v [] h e = cc
  All-lookup P k v ((j, w) ∷ d) h e = ground (arith, All-lookup P k v d h.1)

  pub All-get_or {μ} :
      (P : V → Type μ) (k : K) (v : V) (d : Dict K V) → P v → All P (values d) → P (get_or k v d)
  All-get_or P k v [] p h = p
  All-get_or P k v ((j, w) ∷ d) p h = ground (arith, All-get_or P k v d p h.1)

  -- What holds of every entry.
  pub All-insert_entry {μ} :
      (Q : K × V → Type μ) (k : K) (v : V) (d : Dict K V)
      → Q (k, v)
      → All Q d
      → All Q (insert k v d)
  All-insert_entry Q k v [] q h = (q, tt)
  All-insert_entry Q k v ((j, w) ∷ d) q h = elim (Bool-cases (k == j)) [
    | inl same ↦
        subst (λ (b : Bool). All Q (if b then (j, v) ∷ d else (j, w) ∷ insert k v d)) (sym same)
          (subst (λ (i : K). Q (i, v)) ((e.beq_iff k j).0 same) q, h.1)
    | inr other ↦
        subst (λ (b : Bool). All Q (if b then (j, v) ∷ d else (j, w) ∷ insert k v d)) (sym other)
          (h.0, All-insert_entry Q k v d q h.1)
  ]

module _ {ℓ κ} {K : Type ℓ} {V : Type κ} ⦃e : Eq K⦄ (key : V → K) where
  pub any-insert :
      (p : V → Bool) (k : K) (v : V) (d : Dict K V)
      → p v ≡ true
      → any p (values (insert k v d)) ≡ true
  any-insert p k v [] h = ground arith
  any-insert p k v ((j, w) ∷ d) h = ground (arith, any-insert p k v d h)

  pub any-index_from :
      (p : V → Bool) (d : Dict K V) (vs : List V)
      → any p (values d) ≡ true
      → All (λ v. p v ≡ true) vs
      → any p (values (index_from key d vs)) ≡ true
  any-index_from p d [] h k = h
  any-index_from p d (v ∷ vs) h k =
      any-index_from p (insert (key v) v d) vs (any-insert p (key v) v d k.0) k.1

  index_from-append :
      (d : Dict K V) (xs ys : List V)
      → index_from key d (xs ++ ys) ≡ index_from key (index_from key d xs) ys
  index_from-append d [] ys = refl
  index_from-append d (x ∷ xs) ys = index_from-append (insert (key x) x d) xs ys

  -- Values that pass a test and stand last are not lost with their keys.
  pub any-unique_by :
      (p : V → Bool) (xs : List V) (y : V) (ys : List V)
      → All (λ v. p v ≡ true) (y ∷ ys)
      → any p (unique_by key (xs ++ y ∷ ys)) ≡ true
  any-unique_by p xs y ys h = rw (index_from-append [] xs (y ∷ ys)) (
      any-index_from p (insert (key y) y (index_from key [] xs)) ys
        (any-insert p (key y) y (index_from key [] xs) h.0) h.1)

  -- Each value stands under its key, and no key stands twice.
  abbrev pub IsIndex : Dict K V → Type (ℓ ⊔ κ)
  IsIndex [] = Unit
  IsIndex ((k, v) ∷ d) = (key v ≡ k) × (lookup k d ≡ none) × IsIndex d

  lookup-insert_ne :
      (j k : K) (v : V) (d : Dict K V) → (j == k) ≡ false → lookup j (insert k v d) ≡ lookup j d
  lookup-insert_ne j k v d h = rw (lookup-insert j k v d) (rw h)

  ne_comm : (a b : K) → (a == b) ≡ false → (b == a) ≡ false
  ne_comm a b h = ground (arith, e.beq_iff a b, e.beq_iff b a)

  pub insert-IsIndex : (v : V) (d : Dict K V) → IsIndex d → IsIndex (insert (key v) v d)
  insert-IsIndex v [] h = (refl, refl, tt)
  insert-IsIndex v ((j, w) ∷ d) h = elim (Bool-cases (key v == j)) [
    | inl same ↦
        subst (λ (b : Bool). IsIndex (if b then (j, v) ∷ d else (j, w) ∷ insert (key v) v d))
          (sym same) ((e.beq_iff (key v) j).0 same, h.1, h.2)
    | inr other ↦
        subst (λ (b : Bool). IsIndex (if b then (j, v) ∷ d else (j, w) ∷ insert (key v) v d))
          (sym other)
          (
            h.0,
            lookup-insert_ne j (key v) v d (ne_comm (key v) j other) ∙ h.1,
            insert-IsIndex v d h.2,
          )
  ]

  pub index_from-IsIndex : (d : Dict K V) (vs : List V) → IsIndex d → IsIndex (index_from key d vs)
  index_from-IsIndex d [] h = h
  index_from-IsIndex d (v ∷ vs) h =
      index_from-IsIndex (insert (key v) v d) vs (insert-IsIndex v d h)

  insert_new : (k : K) (v : V) (d : Dict K V) → lookup k d ≡ none → insert k v d ≡ d ++ (k, v) ∷ []
  insert_new k v [] h = refl
  insert_new k v ((j, w) ∷ d) h = ground (arith, insert_new k v d)

  -- The keys of the second dict do not stand in the first.
  abbrev IsApart : Dict K V → Dict K V → Type (ℓ ⊔ κ)
  IsApart d [] = Unit
  IsApart d ((k, v) ∷ r) = (lookup k d ≡ none) × IsApart d r

  lookup-snoc :
      (j k : K) (v : V) (d : Dict K V)
      → lookup j d ≡ none
      → (j == k) ≡ false
      → lookup j (d ++ (k, v) ∷ []) ≡ none
  lookup-snoc j k v [] h g = rw g
  lookup-snoc j k v ((i, w) ∷ d) h g = ground (arith, lookup-snoc j k v d)

  apart_cons :
      (k j : K) (w : V) (r : Dict K V)
      → lookup k ((j, w) ∷ r) ≡ none
      → ((k == j) ≡ false) × (lookup k r ≡ none)
  apart_cons k j w r h = ground arith

  IsApart-snoc :
      (k : K) (v : V) (d r : Dict K V)
      → lookup k r ≡ none
      → IsApart d r
      → IsApart (d ++ (k, v) ∷ []) r
  IsApart-snoc k v d [] h g = tt
  IsApart-snoc k v d ((j, w) ∷ r) h g =
      let (other, rest) = apart_cons k j w r h in
      (lookup-snoc j k v d g.0 (ne_comm k j other), IsApart-snoc k v d r rest g.1)

  index_from-values :
      (d r : Dict K V) → IsIndex r → IsApart d r → index_from key d (values r) ≡ d ++ r
  index_from-values d [] h g = sym (append-nil d)
  index_from-values d ((k, v) ∷ r) h g =
      subst (λ (j : K). index_from key (insert j v d) (values r) ≡ d ++ (k, v) ∷ r) (sym h.0)
        (ap (λ (x : Dict K V). index_from key x (values r)) (insert_new k v d g.0)
          ∙ index_from-values (d ++ (k, v) ∷ []) r h.2 (IsApart-snoc k v d r h.1 g.1)
          ∙ append_assoc d ((k, v) ∷ []) r)

  IsApart-nil : (r : Dict K V) → IsApart [] r
  IsApart-nil [] = tt
  IsApart-nil ((k, v) ∷ r) = (refl, IsApart-nil r)

  -- Dropping the repeated keys twice is dropping them once.
  pub unique_by_idem : (vs : List V) → unique_by key (unique_by key vs) ≡ unique_by key vs
  unique_by_idem vs = ap values (
      index_from-values [] (index_from key [] vs) (index_from-IsIndex [] vs tt)
        (IsApart-nil (index_from key [] vs)))

  lookup-index_from-none :
      (v : V) (d : Dict K V) (vs : List V)
      → lookup (key v) d ≡ none
      → All (λ w. (key w == key v) ≡ false) vs
      → lookup (key v) (index_from key d vs) ≡ none
  lookup-index_from-none v d [] h n = h
  lookup-index_from-none v d (w ∷ vs) h n =
      lookup-index_from-none v (insert (key w) w d) vs
        (lookup-insert_ne (key v) (key w) w d (ne_comm (key w) (key v) n.0) ∙ h) n.1

  values-snoc : (k : K) (v : V) (d : Dict K V) → values (d ++ (k, v) ∷ []) ≡ values d ++ v ∷ []
  values-snoc k v [] = refl
  values-snoc k v ((j, w) ∷ d) = ap (λ (x : List V). w ∷ x) (values-snoc k v d)

  -- A value under a new key comes last.
  pub unique_by-snoc :
      (vs : List V) (v : V)
      → All (λ w. (key w == key v) ≡ false) vs
      → unique_by key (vs ++ v ∷ []) ≡ unique_by key vs ++ v ∷ []
  unique_by-snoc vs v n =
      let d = index_from key [] vs in
      ap values (index_from-append [] vs (v ∷ []))
      ∙ ap values (insert_new (key v) v d (lookup-index_from-none v [] vs refl n))
      ∙ values-snoc (key v) v d
