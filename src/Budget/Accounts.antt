-- ===== src/Budget/Accounts.antt =====
-- The books of a family of budgets: limits hold, and the root's account is the children's sum plus
-- what was taken from the root directly.
use c_trpc.Base.{
  ℕ, zero, suc, ◌+◌, ◌-◌, ◌≤◌, ◌<◌, ◌≡◌, ◌≢◌, ◌⊎◌, refl, List, [], ◌∷◌, ◌++◌, length, get_or,
  get_or-set_self, set, arith, true, false, All,
}
use c_trpc.Status.{is_ok}
use c_trpc.Budget.{
  Budget, Family, Account, root_account, child_account, u64_max, init, reserve_local, release_local,
  child_at, reserve_child, release_child, init_child,
}

-- A budget within its limit, whose peak is at least what is taken.
pub record IsSound (b : Budget) : Type 0 where
  pub limited : b.limit_bytes ≢ 0 → b.current_bytes ≤ b.limit_bytes
  pub fits : b.current_bytes ≤ u64_max
  pub peaked : b.current_bytes ≤ b.peak_bytes

pub reserve_local-IsSound : (b : Budget) (n : ℕ) → IsSound b → IsSound (reserve_local b n).1
unfolding reserve_local
reserve_local-IsSound b n v = ground arith

pub release_local-IsSound : (b : Budget) (n : ℕ) → IsSound b → IsSound (release_local b n).1
unfolding release_local
release_local-IsSound b n v = ground arith

-- What a reservation does to the amount taken, by its outcome.
pub reserve_local_amount :
    (b : Budget) (n : ℕ)
    → let (ret, b') = reserve_local b n in
      (is_ok ret ≡ true) × (b'.current_bytes ≡ b.current_bytes + n)
      ⊎ (is_ok ret ≡ false) × (b'.current_bytes ≡ b.current_bytes)
unfolding reserve_local
reserve_local_amount b n = ground arith

pub release_local_amount :
    (b : Budget) (n : ℕ)
    → let (ret, b') = release_local b n in
      (n ≤ b.current_bytes) × (is_ok ret ≡ true) × (b'.current_bytes ≡ b.current_bytes - n)
      ⊎ (b.current_bytes < n) × (is_ok ret ≡ false) × (b'.current_bytes ≡ b.current_bytes)
unfolding release_local
release_local_amount b n = ground arith

abbrev pub total : List Budget → ℕ
total [] = 0
total (b ∷ bs) = b.current_bytes + total bs

total-set :
    (bs : List Budget) (i : ℕ) (b d : Budget)
    → i < length bs
    → total (set bs i b) + (get_or bs i d).current_bytes ≡ total bs + b.current_bytes
total-set [] i b d h = absurd (omega arith)
total-set (x ∷ xs) zero b d h = omega arith
total-set (x ∷ xs) (suc i) b d h = omega (arith, total-set xs i b d (omega arith))

-- An account is part of the whole.
get_or-le-total :
    (bs : List Budget) (i : ℕ) (d : Budget)
    → i < length bs
    → (get_or bs i d).current_bytes ≤ total bs
get_or-le-total [] i d h = absurd (omega arith)
get_or-le-total (x ∷ xs) zero d h = omega arith
get_or-le-total (x ∷ xs) (suc i) d h = omega (arith, get_or-le-total xs i d (omega arith))

All-get_or :
    (bs : List Budget) (i : ℕ) (d : Budget)
    → All IsSound bs
    → i < length bs
    → IsSound (get_or bs i d)
All-get_or [] i d v h = absurd (omega arith)
All-get_or (x ∷ xs) zero d v h = v.0
All-get_or (x ∷ xs) (suc i) d v h = All-get_or xs i d v.1 (omega arith)

All-set :
    (bs : List Budget) (i : ℕ) (b : Budget) → All IsSound bs → IsSound b → All IsSound (set bs i b)
All-set [] i b v w = tt
All-set (x ∷ xs) zero b v w = (w, v.1)
All-set (x ∷ xs) (suc i) b v w = (v.0, All-set xs i b v.1 w)

-- The value beside the array plays no part at a place in it.
get_or_default :
    (bs : List Budget) (i : ℕ) (d e : Budget) → i < length bs → get_or bs i d ≡ get_or bs i e
get_or_default [] i d e h = absurd (omega arith)
get_or_default (x ∷ xs) zero d e h = refl
get_or_default (x ∷ xs) (suc i) d e h = get_or_default xs i d e (omega arith)

-- Every budget is sound, and beyond the children's amounts the root holds `direct` bytes.
pub record IsFamily (direct : ℕ) (f : Family) : Type 0 where
  pub root_sound : IsSound f.root
  pub children_sound : All IsSound f.children
  pub balanced : f.root.current_bytes ≡ total f.children + direct

module _ (f : Family) (i n : ℕ) {direct : ℕ} (known : i < length f.children)
    (v : IsFamily direct f) where
  abbrev charged : Budget
  charged = (reserve_local f.root n).1

  abbrev member : Budget
  member = child_at f i

  member-IsSound : IsSound member
  member-IsSound = All-get_or f.children i f.root v.children_sound known

  -- A reservation by a known child keeps the books of the family, whatever the outcome: every budget
  -- within its limit and its peak, and the root's amount the sum of the children's and of the rest.
  pub reserve_child-IsFamily : IsFamily direct (reserve_child f i n).1
  unfolding reserve_child
  reserve_child-IsFamily = record {
    root_sound = ground (
      arith,
      reserve_local-IsSound f.root n v.root_sound,
      release_local-IsSound charged n (reserve_local-IsSound f.root n v.root_sound),
    );
    children_sound = ground (
      arith,
      v.children_sound,
      All-set f.children i (reserve_local member n).1 v.children_sound
          (reserve_local-IsSound member n member-IsSound),
    );
    balanced = ground (
      arith,
      v.balanced,
      reserve_local_amount f.root n,
      reserve_local_amount member n,
      release_local_amount charged n,
      total-set f.children i (reserve_local member n).1 f.root known,
    );
  }

  -- A known child of a family with sound books that reserves is charged all it asked for, with the
  -- root and the sum of the children, and is answered OK; or nothing is charged and it is not.
  pub reserve_child_all_or_nothing :
      let (ret, f') = reserve_child f i n in
      (is_ok ret ≡ true)
        × (f'.root.current_bytes ≡ f.root.current_bytes + n)
        × (total f'.children ≡ total f.children + n)
        × ((child_at f' i).current_bytes ≡ member.current_bytes + n)
      ⊎ (is_ok ret ≡ false)
        × (f'.root.current_bytes ≡ f.root.current_bytes)
        × (total f'.children ≡ total f.children)
        × ((child_at f' i).current_bytes ≡ member.current_bytes)
  unfolding reserve_child
  reserve_child_all_or_nothing = ground (
    arith,
    reserve_local_amount f.root n,
    reserve_local_amount member n,
    release_local_amount charged n,
    total-set f.children i (reserve_local member n).1 f.root known,
    get_or-set_self f.children i (reserve_local member n).1 f.root known,
    get_or-set_self f.children i (reserve_local member n).1 charged known,
    get_or-set_self f.children i (reserve_local member n).1 (release_local charged n).1 known,
    get_or_default f.children i f.root charged known,
  )

  -- A known child of a family with sound books gives back at most what it holds: then the root's
  -- amount and the sum of the children's fall by as much; asking to give back more changes neither.
  pub release_child_exact :
      let (ret, f') = release_child f i n in
      (n ≤ member.current_bytes)
        × (is_ok ret ≡ true)
        × (f'.root.current_bytes + n ≡ f.root.current_bytes)
        × (total f'.children + n ≡ total f.children)
      ⊎ (member.current_bytes < n)
        × (is_ok ret ≡ false)
        × (f'.root.current_bytes ≡ f.root.current_bytes)
        × (total f'.children ≡ total f.children)
  unfolding release_child
  release_child_exact = ground (
    arith,
    v.balanced,
    get_or-le-total f.children i f.root known,
    release_local_amount f.root n,
    release_local_amount member n,
    total-set f.children i (release_local member n).1 f.root known,
  )

  pub release_child-IsFamily : IsFamily direct (release_child f i n).1
  unfolding release_child
  release_child-IsFamily = record {
    root_sound = ground (arith, v.root_sound, release_local-IsSound f.root n v.root_sound);
    children_sound = ground (
      arith,
      All-set f.children i (release_local member n).1 v.children_sound
          (release_local-IsSound member n member-IsSound),
    );
    balanced = ground (
      arith,
      v.balanced,
      get_or-le-total f.children i f.root known,
      release_local_amount f.root n,
      release_local_amount member n,
      total-set f.children i (release_local member n).1 f.root known,
    );
  }

total-append : (bs : List Budget) (b : Budget) → total (bs ++ (b ∷ [])) ≡ total bs + b.current_bytes
total-append [] b = omega arith
total-append (c ∷ bs) b = omega (arith, total-append bs b)

All-append_one :
    (bs : List Budget) (b : Budget) → All IsSound bs → IsSound b → All IsSound (bs ++ (b ∷ []))
All-append_one [] b v w = (w, tt)
All-append_one (c ∷ bs) b (v, vs) w = (v, All-append_one bs b vs w)

init-IsSound : (limit : ℕ) → IsSound (init limit) × ((init limit).current_bytes ≡ 0)
unfolding init
init-IsSound limit = ground arith

-- Opening a child of the root, or being refused a child of a child, keeps the books of the family.
pub init_child-IsFamily :
    (f : Family) (parent : Account) (limit direct : ℕ)
    → IsFamily direct f
    → IsFamily direct (init_child f parent limit).1
unfolding init_child
init_child-IsFamily f root_account limit direct v = record {
  root_sound = v.root_sound;
  children_sound = All-append_one f.children (init limit) v.children_sound (init-IsSound limit).0;
  balanced =
      omega (arith, v.balanced, total-append f.children (init limit), (init-IsSound limit).1);
}
init_child-IsFamily f (child_account i) limit direct v = v
