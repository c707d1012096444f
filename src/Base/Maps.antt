-- ===== src/Base/Maps.antt =====
-- Go maps with string keys, as association lists.
use Prim.Native.Nat.{ℕ, ◌+◌, ◌≤◌}
use mathlib.Core.Path.{◌≡◌, refl, sym, ap, subst, ◌∙◌}
use mathlib.Core.Bool.{true, false}
use mathlib.Core.Logic.{◌⊎◌, inl, inr}
use mathlib.Core.List.{List, [], ◌∷◌}
use mathlib.Core.Option.{Option, none, some}
use native.Mathlib.Omega.{arith}
use spice_agent.Base.Tests.{if◌then◌else◌, if_intro, if_false, Bool-cases}
use spice_agent.Base.Strings.{Bytes, bytes_eq, bytes_eq_refl, bytes_eq_iff}

module _ {ℓ} {A : Type ℓ} where
  unfoldable pub find_key : Bytes → List (Bytes × A) → Option A
  find_key k [] = none
  find_key k ((j, a) ∷ rest) = let later = find_key k rest in if bytes_eq j k then some a else later

  -- The value of a key that is there, or a new key at the end.
  unfoldable pub put_key : Bytes → A → List (Bytes × A) → List (Bytes × A)
  put_key k a [] = (k, a) ∷ []
  put_key k a ((j, b) ∷ rest) =
      let later = put_key k a rest in if bytes_eq j k then (j, a) ∷ rest else (j, b) ∷ later

  unfoldable pub delete_key : Bytes → List (Bytes × A) → List (Bytes × A)
  delete_key k [] = []
  delete_key k ((j, b) ∷ rest) =
      let later = delete_key k rest in if bytes_eq j k then rest else (j, b) ∷ later

  pub find-put_key :
      (k : Bytes) (a : A) (m : List (Bytes × A)) → find_key k (put_key k a m) ≡ some a
  unfolding find_key put_key
  find-put_key k a [] = ground (arith, bytes_eq_refl k)
  find-put_key k a ((j, b) ∷ rest) = ground (arith, bytes_eq_refl k, find-put_key k a rest)

  pub find-put_key_if :
      (k j : Bytes) (a : A) (m : List (Bytes × A))
      → find_key k (put_key j a m) ≡ (if bytes_eq j k then some a else find_key k m)
  unfolding find_key put_key
  find-put_key_if k j a [] = refl
  find-put_key_if k j a ((i, b) ∷ rest) =
      let later = find-put_key_if k j a rest in
      let join : bytes_eq i k ≡ true → bytes_eq j k ≡ true → bytes_eq i j ≡ true =
        λ p q. subst (λ x. bytes_eq i x ≡ true) (sym ((bytes_eq_iff j k).0 q)) p in
      let pass : bytes_eq i j ≡ true → bytes_eq i k ≡ bytes_eq j k =
        λ p. ap (λ x. bytes_eq x k) ((bytes_eq_iff i j).0 p) in
      ground (arith, later, join, pass)

  -- A sum over the values.
  unfoldable pub sum_over : (A → ℕ) → List (Bytes × A) → ℕ
  sum_over f [] = 0
  sum_over f ((j, a) ∷ rest) = f a + sum_over f rest

  pub sum_over-put_key :
      (f : A → ℕ) (k : Bytes) (a old : A) (m : List (Bytes × A))
      → find_key k m ≡ some old
      → sum_over f (put_key k a m) + f old ≡ sum_over f m + f a
  unfolding find_key put_key sum_over
  sum_over-put_key f k a old [] h = absurd (grind arith)
  sum_over-put_key f k a old ((j, b) ∷ rest) h = ground (arith, sum_over-put_key f k a old rest)

  -- No key stands twice, as in a Go map.
  abbrev pub HasDistinctKeys : List (Bytes × A) → Type ℓ
  HasDistinctKeys [] = Unit
  HasDistinctKeys ((j, a) ∷ rest) = (find_key j rest ≡ none) × HasDistinctKeys rest

  pub sum_over-put_fresh :
      (f : A → ℕ) (k : Bytes) (a : A) (m : List (Bytes × A))
      → find_key k m ≡ none
      → sum_over f (put_key k a m) ≡ sum_over f m + f a
  unfolding find_key put_key sum_over
  sum_over-put_fresh f k a [] h = omega arith
  sum_over-put_fresh f k a ((j, b) ∷ rest) h = ground (arith, sum_over-put_fresh f k a rest)

  pub sum_over-delete_key :
      (f : A → ℕ) (k : Bytes) (old : A) (m : List (Bytes × A))
      → find_key k m ≡ some old
      → sum_over f (delete_key k m) + f old ≡ sum_over f m
  unfolding find_key delete_key sum_over
  sum_over-delete_key f k old [] h = absurd (grind arith)
  sum_over-delete_key f k old ((j, b) ∷ rest) h = ground (arith, sum_over-delete_key f k old rest)

  -- The value of a key is part of the sum.
  pub find-le-sum_over :
      (f : A → ℕ) (k : Bytes) (old : A) (m : List (Bytes × A))
      → find_key k m ≡ some old
      → f old ≤ sum_over f m
  find-le-sum_over f k old m h = omega (arith, sum_over-delete_key f k old m h)

  find-delete_none :
      (k j : Bytes) (m : List (Bytes × A))
      → find_key k m ≡ none
      → find_key k (delete_key j m) ≡ none
  unfolding find_key delete_key
  find-delete_none k j [] h = refl
  find-delete_none k j ((i, b) ∷ rest) h = ground (arith, find-delete_none k j rest)

  pub find-delete_key_if :
      (k j : Bytes) (m : List (Bytes × A))
      → HasDistinctKeys m
      → find_key k (delete_key j m) ≡ (if bytes_eq j k then none else find_key k m)
  unfolding find_key delete_key
  find-delete_key_if k j [] h = ground arith
  find-delete_key_if k j ((i, b) ∷ rest) h =
      let later = find-delete_key_if k j rest h.1 in
      let same : bytes_eq i j ≡ true → bytes_eq i k ≡ bytes_eq j k =
        λ p. ap (λ x. bytes_eq x k) ((bytes_eq_iff i j).0 p) in
      let gone : bytes_eq i k ≡ true → find_key k rest ≡ none =
        λ p. subst (λ x. find_key x rest ≡ none) ((bytes_eq_iff i k).0 p) h.0 in
      if_intro
        (λ x.
          find_key k x
          ≡ (if bytes_eq j k then none else if bytes_eq i k then some b else find_key k rest))
        (bytes_eq i j)
        (λ here. elim (Bool-cases (bytes_eq i k)) [
          | inl e ↦ ground (arith, same here, gone e)
          | inr e ↦ ground (arith, same here)
        ])
        (λ there.
          let apart : bytes_eq i k ≡ true → bytes_eq j k ≡ false = λ p.
            elim (Bool-cases (bytes_eq j k)) [
              | inl e ↦ absurd (
                  grind (
                    arith,
                    there,
                    (bytes_eq_iff i j).1 ((bytes_eq_iff i k).0 p ∙ sym ((bytes_eq_iff j k).0 e)),
                  ))
              | inr e ↦ e
            ] in
          elim (Bool-cases (bytes_eq i k)) [
            | inl e ↦ ground (arith, apart e)
            | inr e ↦ ground (arith, later)
          ])

  pub delete_key-HasDistinctKeys :
      (j : Bytes) (m : List (Bytes × A)) → HasDistinctKeys m → HasDistinctKeys (delete_key j m)
  unfolding delete_key
  delete_key-HasDistinctKeys j [] h = tt
  delete_key-HasDistinctKeys j ((i, b) ∷ rest) h =
      if_intro HasDistinctKeys (bytes_eq i j) (λ _. h.1)
        (λ _. (find-delete_none i j rest h.0, delete_key-HasDistinctKeys j rest h.1))

  pub put_key-HasDistinctKeys :
      (k : Bytes) (a : A) (m : List (Bytes × A))
      → HasDistinctKeys m
      → HasDistinctKeys (put_key k a m)
  unfolding put_key find_key
  put_key-HasDistinctKeys k a [] h = (refl, tt)
  put_key-HasDistinctKeys k a ((j, b) ∷ rest) h =
      if_intro HasDistinctKeys (bytes_eq j k) (λ _. h)
        (λ other. (
          find-put_key_if j k a rest
              ∙ if_false (bytes_eq k j) _ _
                  (ground (arith, bytes_eq_iff k j, bytes_eq_iff j k, other, bytes_eq_refl k))
              ∙ h.0,
          put_key-HasDistinctKeys k a rest h.1,
        ))

  -- What is found after a put was put, or was there.
  pub find-put_cases :
      (j k : Bytes) (a b : A) (m : List (Bytes × A))
      → find_key j (put_key k a m) ≡ some b
      → ((j ≡ k) × (b ≡ a)) ⊎ (find_key j m ≡ some b)
  find-put_cases j k a b m h = elim (Bool-cases (bytes_eq k j)) [
    | inl e ↦ inl (sym ((bytes_eq_iff k j).0 e), grind (arith, find-put_key_if j k a m))
    | inr e ↦ inr (ground (arith, find-put_key_if j k a m))
  ]

  -- What is found after a deletion was there, under another key.
  pub find-delete_some :
      (j k : Bytes) (b : A) (m : List (Bytes × A))
      → HasDistinctKeys m
      → find_key j (delete_key k m) ≡ some b
      → (bytes_eq k j ≡ false) × (find_key j m ≡ some b)
  find-delete_some j k b m d h = ground (arith, find-delete_key_if j k m d)
