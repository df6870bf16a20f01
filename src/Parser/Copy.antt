-- ===== src/Parser/Copy.antt =====
-- Bytes that are stored one chunk behind the other spell the concatenation.
use c_trpc.Base.{
  ℕ, zero, suc, ◌+◌, ◌≤◌, ◌≡◌, refl, ap, ◌∙◌, List, [], ◌∷◌, ◌++◌, length, length-set, take, drop,
  set, arith,
}
use c_trpc.Wire.{copy_at}

pub length-copy_at :
    (p : List ℕ) (off : ℕ) (bytes : List ℕ) → length (copy_at p off bytes) ≡ length p
length-copy_at p off [] = refl
length-copy_at p off (b ∷ bs) = length-copy_at (set p off b) (suc off) bs ∙ length-set p off b

copy_at-cons :
    (x : ℕ) (p : List ℕ) (off : ℕ) (bytes : List ℕ)
    → copy_at (x ∷ p) (suc off) bytes ≡ x ∷ copy_at p off bytes
copy_at-cons x p off [] = refl
copy_at-cons x p off (b ∷ bs) = copy_at-cons x (set p off b) (suc off) bs

-- Bytes copied to the front are the front.
copy_at-front :
    (p bytes : List ℕ)
    → length bytes ≤ length p
    → copy_at p 0 bytes ≡ bytes ++ drop (length bytes) p
copy_at-front p [] h = refl
copy_at-front [] (b ∷ bs) h = absurd (omega arith)
copy_at-front (x ∷ p) (b ∷ bs) h =
    copy_at-cons b p 0 bs ∙ ap (◌∷◌ b) (copy_at-front p bs (omega arith))

take-append : (xs ys : List ℕ) → take (length xs) (xs ++ ys) ≡ xs
take-append [] ys = refl
take-append (x ∷ xs) ys = ap (◌∷◌ x) (take-append xs ys)

-- What stands before the place of a copy stays, and the copied bytes follow it.
pub take-copy_at :
    (p : List ℕ) (off : ℕ) (bytes : List ℕ)
    → off + length bytes ≤ length p
    → take (off + length bytes) (copy_at p off bytes) ≡ take off p ++ bytes
take-copy_at p zero bytes h =
    ap (λ k. take k (copy_at p 0 bytes)) (omega arith)
    ∙ ap (take (length bytes)) (copy_at-front p bytes (omega arith))
    ∙ take-append bytes (drop (length bytes) p)
take-copy_at [] (suc off) bytes h = absurd (omega arith)
take-copy_at (x ∷ p) (suc off) bytes h =
    ap (λ k. take k (copy_at (x ∷ p) (suc off) bytes))
      (let e : suc off + length bytes ≡ suc (off + length bytes) = omega arith in e)
    ∙ ap (take (suc (off + length bytes))) (copy_at-cons x p off bytes)
    ∙ ap (◌∷◌ x) (take-copy_at p off bytes (omega arith))

-- The copied bytes are read back at their place.
pub take-drop-copy_at :
    (p : List ℕ) (off : ℕ) (bytes : List ℕ)
    → off + length bytes ≤ length p
    → take (length bytes) (drop off (copy_at p off bytes)) ≡ bytes
take-drop-copy_at p zero bytes h =
    ap (take (length bytes)) (copy_at-front p bytes (omega arith))
    ∙ take-append bytes (drop (length bytes) p)
take-drop-copy_at [] (suc off) bytes h = absurd (omega arith)
take-drop-copy_at (x ∷ p) (suc off) bytes h =
    ap (λ l. take (length bytes) (drop (suc off) l)) (copy_at-cons x p off bytes)
    ∙ take-drop-copy_at p off bytes (omega arith)

pub take-all : (xs : List ℕ) (n : ℕ) → n ≡ length xs → take n xs ≡ xs
take-all xs n e = ap (λ k. take k xs) e ∙ whole xs
  where
    whole : (ys : List ℕ) → take (length ys) ys ≡ ys
    whole [] = refl
    whole (y ∷ ys) = ap (◌∷◌ y) (whole ys)
