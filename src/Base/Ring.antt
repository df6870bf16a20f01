-- ===== src/Base/Ring.antt =====
-- Rings in a list: a head, a count, and the place behind the last element.
use Prim.Native.Nat.{ℕ, zero, suc, ◌+◌, ◌-◌, ◌%◌, ◌<◌}
use mathlib.Core.Path.{◌≡◌, refl, ap, ◌∙◌}
use mathlib.Core.Logic.{◌⊎◌, inl, inr}
use mathlib.Core.List.{List, [], ◌∷◌, ◌++◌}
use c_trpc.Base.Lists.{length, get_or, set, get_or-set_self, get_or-set_ne}
use c_trpc.Base.Tests.{leb, if◌then◌else◌}
use native.Mathlib.Nat.{mod-eq_of_lt, mod_self}
use native.Mathlib.Omega.{arith}

-- The place `n` steps after a head, for `n` up to the capacity.
abbrev pub place : ℕ → ℕ → ℕ → ℕ
place cap head n = if leb cap (head + n) then head + n - cap else head + n

pub step-place :
    (cap head n : ℕ) → head < cap → n < cap → (place cap head n + 1) % cap ≡ place cap head (n + 1)
step-place cap head n h k = elim (cases (place cap head n) (ground arith)) [
  | inl (short, e) ↦ ground (arith, e)
  | inr (full, e) ↦ ground (arith, e)
]
  where
    cases :
        (i : ℕ)
        → i < cap
        → ((i + 1 < cap) × ((i + 1) % cap ≡ i + 1)) ⊎ ((i + 1 ≡ cap) × ((i + 1) % cap ≡ 0))
    cases i l = elim (split i l) [
      | inl lt ↦ inl (lt, mod-eq_of_lt lt)
      | inr eq ↦ inr (eq, ap (λ k. k % cap) eq ∙ mod_self cap)
    ]
      where
        split : (i : ℕ) → i < cap → (i + 1 < cap) ⊎ (i + 1 ≡ cap)
        split i l = ground arith

pub step_head : (cap head : ℕ) → head < cap → (head + 1) % cap ≡ place cap head 1
step_head cap head h =
    ap (λ k. (k + 1) % cap) (let e : head ≡ place cap head 0 = ground arith in e)
    ∙ step-place cap head 0 h (omega arith)

module _ {ℓ} {A : Type ℓ} (d : A) (cap : ℕ) where
  -- The elements from the head on.
  abbrev pub window : List A → ℕ → ℕ → List A
  window items head zero = []
  window items head (suc n) = get_or items head d ∷ window items (place cap head 1) n

  window-set_out :
      (items : List A) (head n m : ℕ) (v : A)
      → head < cap
      → n + m < cap
      → window (set items (place cap head (n + m)) v) head n ≡ window items head n
  window-set_out items head zero m v h k = refl
  window-set_out items head (suc n) m v h k =
      ap (λ x. x ∷ window (set items (place cap head (suc n + m)) v) (place cap head 1) n)
        (get_or-set_ne items (place cap head (suc n + m)) head v d (ground arith))
      ∙ ap (◌∷◌ (get_or items head d)) (
          ap (λ j. window (set items j v) (place cap head 1) n) (ground arith)
          ∙ window-set_out items (place cap head 1) n m v (ground arith) (omega arith))

  window-snoc :
      (items : List A) (head n : ℕ)
      → head < cap
      → n < cap
      → window items head (suc n) ≡ window items head n ++ (get_or items (place cap head n) d ∷ [])
  window-snoc items head zero h k = ap (λ j. get_or items j d ∷ []) (ground arith)
  window-snoc items head (suc n) h k = ap (◌∷◌ (get_or items head d)) (
      window-snoc items (place cap head 1) n (ground arith) (omega arith)
      ∙ ap (λ j. window items (place cap head 1) n ++ (get_or items j d ∷ [])) (ground arith))

  -- Writing behind the last element appends.
  pub window-push :
      (items : List A) (head n : ℕ) (v : A)
      → head < cap
      → n < cap
      → length items ≡ cap
      → window (set items (place cap head n) v) head (suc n) ≡ window items head n ++ (v ∷ [])
  window-push items head n v h k l =
      window-snoc (set items (place cap head n) v) head n h k
      ∙ ap (λ x. window (set items (place cap head n) v) head n ++ (x ∷ []))
          (get_or-set_self items (place cap head n) v d (ground arith))
      ∙ ap (λ w. w ++ (v ∷ []))
          (ap (λ j. window (set items (place cap head j) v) head n) (omega arith)
            ∙ window-set_out items head n 0 v h (omega arith))

  pub length-window : (items : List A) (head n : ℕ) → length (window items head n) ≡ n
  length-window items head zero = refl
  length-window items head (suc n) = ap suc (length-window items (place cap head 1) n)
