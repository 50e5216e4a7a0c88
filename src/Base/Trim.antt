-- ===== src/Base/Trim.antt =====
-- `strings.TrimSpace`: what is trimmed stays trimmed, and the bytes are bytes of the text.
use Prim.Native.Nat.{ℕ}
use mathlib.Core.Path.{◌≡◌, refl, sym, ap, ◌∙◌}
use mathlib.Core.Bool.{false}
use mathlib.Core.Logic.{inl, inr}
use mathlib.Core.List.{[], ◌∷◌, ◌++◌, reverse, reverse-cons, reverse-append, reverse-reverse}
use hash256_miner.Base.Tests.{Bool-cases}
use hash256_miner.Base.Lists.{All, All-append}
use hash256_miner.Base.Text.{Bytes, is_space, trim_left, trim_space}

-- The text does not start with white space.
StartsSolid : Bytes → Type 0
StartsSolid [] = Unit
StartsSolid (c ∷ s) = is_space c ≡ false

trim_left-StartsSolid : (s : Bytes) → StartsSolid (trim_left s)
unfolding trim_left StartsSolid
trim_left-StartsSolid [] = tt
trim_left-StartsSolid (c ∷ s) = elim (Bool-cases (is_space c)) [
  | inl space ↦ rw space (trim_left-StartsSolid s)
  | inr solid ↦ rw solid solid
]

trim_left_of_StartsSolid : (s : Bytes) → StartsSolid s → trim_left s ≡ s
unfolding trim_left StartsSolid
trim_left_of_StartsSolid [] h = refl
trim_left_of_StartsSolid (c ∷ s) h = rw h

StartsSolid-append : (u v : Bytes) → StartsSolid (u ++ v) → StartsSolid u
unfolding StartsSolid
StartsSolid-append [] v h = tt
StartsSolid-append (c ∷ u) v h = h

trim_left-append : (s : Bytes) → (p : Bytes) × (s ≡ p ++ trim_left s)
unfolding trim_left
trim_left-append [] = ([], refl)
trim_left-append (c ∷ s) = elim (Bool-cases (is_space c)) [
  | inl space ↦ let (p, e) = trim_left-append s in rw space (c ∷ p, ap (λ l. c ∷ l) e)
  | inr solid ↦ rw solid ([], refl)
]

-- The trimmed text stands in front of the white space that the second pass took.
trim_space-append : (s : Bytes) → (q : Bytes) × (trim_left s ≡ trim_space s ++ q)
unfolding trim_space
trim_space-append s =
    let (p, e) = trim_left-append (reverse (trim_left s)) in
    (
      reverse p,
      sym (reverse-reverse (trim_left s))
          ∙ ap reverse e
          ∙ reverse-append p (trim_left (reverse (trim_left s))),
    )

trim_space-StartsSolid : (s : Bytes) → StartsSolid (trim_space s)
trim_space-StartsSolid s =
    let (q, e) = trim_space-append s in
    StartsSolid-append (trim_space s) q (rw (← e) (trim_left-StartsSolid s))

pub trim_space_idem : (s : Bytes) → trim_space (trim_space s) ≡ trim_space s
unfolding trim_space
trim_space_idem s =
    let t = trim_left (reverse (trim_left s)) in
    let front : trim_left (reverse t) ≡ reverse t =
      trim_left_of_StartsSolid (reverse t) (trim_space-StartsSolid s) in
    let back : trim_left t ≡ t =
      trim_left_of_StartsSolid t (trim_left-StartsSolid (reverse (trim_left s))) in
    rw (front, reverse-reverse t, back)

module _ {ℓ} (P : ℕ → Type ℓ) where
  All-trim_left : (s : Bytes) → All P s → All P (trim_left s)
  unfolding trim_left
  All-trim_left [] h = h
  All-trim_left (c ∷ s) h = elim (Bool-cases (is_space c)) [
    | inl space ↦ rw space (All-trim_left s h.1)
    | inr solid ↦ rw solid h
  ]

  All-reverse : (s : Bytes) → All P s → All P (reverse s)
  All-reverse [] h = h
  All-reverse (c ∷ s) h =
      rw (reverse-cons c s) (All-append P (reverse s) (c ∷ []) (All-reverse s h.1) (h.0, tt))

  pub All-trim_space : (s : Bytes) → All P s → All P (trim_space s)
  unfolding trim_space
  All-trim_space s h = All-reverse _ (All-trim_left _ (All-reverse _ (All-trim_left s h)))
