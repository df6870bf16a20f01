-- ===== src/Metadata/Ends.antt =====
-- The readers of metadata end on any bytes, also on bytes that no encoder wrote.
use c_trpc.Base.{
  ℕ, zero, suc, ◌+◌, ◌-◌, ◌≤◌, ◌<◌, ◌≡◌, ◌≢◌, refl, List, length, Option, none, some, arith,
}
use c_trpc.Status.{Status, ok}
use c_trpc.Metadata.{Metadata, next, on_next, count_from}

-- An entry that is read takes at least four bytes, and ends within the bytes.
next_advances :
    (bytes : List ℕ) (offset offset' : ℕ) (status : Status) (e : Metadata)
    → next bytes offset ≡ (status, some (e, offset'))
    → (offset + 4 ≤ offset') × (offset' ≤ length bytes)
unfolding next
next_advances bytes offset offset' status e h = ground arith

next_fails :
    (bytes : List ℕ) (offset : ℕ) (status : Status)
    → next bytes offset ≡ (status, none)
    → status ≢ ok
unfolding next
next_fails bytes offset status h = ground arith

-- Whatever `next` answers, a reader that goes on with entries ends with another status than OK.
ends_after :
    (bytes : List ℕ) (offset : ℕ) (rest : ℕ → ℕ × Status) (r : Status × Option (Metadata × ℕ))
    → ((e : Metadata) (o : ℕ) (status : Status)
        → next bytes offset ≡ (status, some (e, o))
        → (rest o).1 ≢ ok)
    → next bytes offset ≡ r
    → (on_next {A = ℕ × Status} r (λ status. (0, status)) (λ e o. ((rest o).0 + 1, (rest o).1))).1
      ≢ ok
ends_after bytes offset rest (status, none) g h = next_fails bytes offset status h
ends_after bytes offset rest (status, some (e, o)) g h = g e o status h

-- With more fuel than there are bytes left, counting ends with a status other than OK: the fuel is
-- never used up.
count_from_ends :
    (fuel : ℕ) (bytes : List ℕ) (offset : ℕ)
    → length bytes - offset < fuel
    → (count_from fuel bytes offset).1 ≢ ok
unfolding count_from
count_from_ends zero bytes offset f = absurd (omega arith)
count_from_ends (suc fuel) bytes offset f =
    ends_after bytes offset (λ o. count_from fuel bytes o) (next bytes offset)
      (λ e o status h.
        count_from_ends fuel bytes o (omega (arith, next_advances bytes offset o status e h)))
      refl
