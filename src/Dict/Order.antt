-- ===== src/Dict/Order.antt =====
-- The comparison that a dictionary holds, `dict->cmp`: what the tree needs of `strcmp` and of
-- `strcasecmp`. Two keys may be equal to it and differ, as `strcasecmp` reads them.
use Prim.Native.Nat.{Ordering}
use Prim.Native.Nat.Ordering.{lt, eq, gt}
use onion.Prelude.{◌≡◌, refl, ◌≢◌, ◌⊎◌, inl, inr, arith}

abbrev pub opposite : Ordering → Ordering
opposite lt = gt
opposite eq = eq
opposite gt = lt

pub Ordering-cases : (c : Ordering) → (c ≡ lt) ⊎ ((c ≡ eq) ⊎ (c ≡ gt))
Ordering-cases lt = inl refl
Ordering-cases eq = inr (inl refl)
Ordering-cases gt = inr (inr refl)

pub record KeyOrder {ℓ} (K : Type ℓ) : Type ℓ where
  pub cmp : K → K → Ordering
  pub cmp_refl : (a : K) → cmp a a ≡ eq
  pub cmp_flip : (a b : K) → cmp b a ≡ opposite (cmp a b)
  pub lt_trans : (a b c : K) → cmp a b ≡ lt → cmp b c ≡ lt → cmp a c ≡ lt
  pub eq_trans : (a b c : K) → cmp a b ≡ eq → cmp b c ≡ cmp a c

module _ {ℓ} {K : Type ℓ} ⦃o : KeyOrder K⦄ where
  -- `a` stands before `b`, or is equal to it.
  infix 50 ◌≼◌
  abbrev pub ◌≼◌ : K → K → Type 0
  a ≼ b = o.cmp a b ≢ gt

  infix 50 ◌≺◌
  abbrev pub ◌≺◌ : K → K → Type 0
  a ≺ b = o.cmp a b ≡ lt

  pub ≼-trans : (a b c : K) → a ≼ b → b ≼ c → a ≼ c
  ≼-trans a b c h k = ground (
    arith,
    o.lt_trans a b c,
    o.eq_trans a b c,
    o.eq_trans c b a,
    o.cmp_flip b c,
    o.cmp_flip a b,
    o.cmp_flip a c,
  )

  pub ≺-≼-trans : (a b c : K) → a ≺ b → b ≼ c → a ≺ c
  ≺-≼-trans a b c h k =
      ground
        (arith, o.lt_trans a b c, o.eq_trans c b a, o.cmp_flip b c, o.cmp_flip a b, o.cmp_flip a c)

  pub ≼-≺-trans : (a b c : K) → a ≼ b → b ≺ c → a ≺ c
  ≼-≺-trans a b c h k = ground (arith, o.lt_trans a b c, o.eq_trans a b c)

  pub ≼_of_gt : (a b : K) → o.cmp a b ≡ gt → b ≺ a
  ≼_of_gt a b h = ground (arith, o.cmp_flip a b)

  pub ≼_of_not_lt : (a b : K) → o.cmp a b ≢ lt → b ≼ a
  ≼_of_not_lt a b h = ground (arith, o.cmp_flip a b)
