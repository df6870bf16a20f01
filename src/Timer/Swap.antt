-- ===== src/Timer/Swap.antt =====
-- What exchanging two places of the heap does, and the links between heap and entries.
use c_trpc.Base.{
  ℕ, zero, suc, ◌+◌, ◌^◌, ◌≤◌, ◌<◌, ◌≡◌, ◌≢◌, refl, ap, sym, ◌∙◌, List, [], ◌∷◌, length, length-set,
  get_or, set, get_or-set, Bool, true, false, not, ◌==◌, if◌then◌else◌, arith,
}
use c_trpc.Timer.{Entry, zero_entry, TimerQueue, entry, slot_at, set_link, heap_swap, heap_none}

-- An entry that stands in the heap: registered, and with a place.
abbrev pub armed : Entry → Bool
armed e = if e.used then not (e.link == heap_none) else false

abbrev pub weight : Entry → ℕ
weight e = if armed e then 1 else 0

abbrev pub armed_count : List Entry → ℕ
armed_count [] = 0
armed_count (e ∷ es) = weight e + armed_count es

pub armed_count-set :
    (es : List Entry) (i : ℕ) (e : Entry)
    → i < length es
    → armed_count (set es i e) + weight (get_or es i zero_entry) ≡ armed_count es + weight e
armed_count-set [] i e h = absurd (omega arith)
armed_count-set (x ∷ es) zero e h = omega arith
armed_count-set (x ∷ es) (suc i) e h = omega (arith, armed_count-set es i e (omega arith))

-- The places of the heap and the links of the entries are inverse to one another, but for an entry
-- `out` (or none) that is on its way out of the heap.
pub record IsLinked (out extra : ℕ) (q : TimerQueue) : Type 0 where
  pub entries_length : length q.entries ≡ q.capacity
  pub heap_length : length q.heap ≡ q.capacity
  pub capacity_fits : q.capacity < 2 ^ 32
  pub bounded : q.size ≤ q.capacity
  pub counted : armed_count q.entries ≡ q.size + extra
  pub inside : (i : ℕ) → i < q.size → slot_at q i < q.capacity
  pub linked : (i : ℕ) → i < q.size → (entry q (slot_at q i)).link ≡ i
  pub in_use : (i : ℕ) → i < q.size → (entry q (slot_at q i)).used ≡ true
  pub staying : (i : ℕ) → i < q.size → slot_at q i ≢ out
  pub placed :
      (s : ℕ)
      → s < q.capacity
      → s ≢ out
      → armed (entry q s) ≡ true
      → ((entry q s).link < q.size) × (slot_at q (entry q s).link ≡ s)

pub entry-set_link :
    (q : TimerQueue) (slot pos s : ℕ)
    → slot < length q.entries
    → entry (set_link q slot pos) s
      ≡ (if slot == s then record (entry q s) { link = pos } else entry q s)
entry-set_link q slot pos s h =
    get_or-set q.entries slot s (record (entry q slot) { link = pos }) zero_entry h ∙ same
  where
    same :
        (if slot == s then record (entry q slot) { link = pos } else entry q s)
        ≡ (if slot == s then record (entry q s) { link = pos } else entry q s)
    same = ground arith

module _ (out extra : ℕ) (q : TimerQueue) (a b : ℕ) (v : IsLinked out extra q) (ha : a < q.size)
    (hb : b < q.size) (ne : a ≢ b) where
  slots_differ : slot_at q a ≢ slot_at q b
  slots_differ e = ne (sym (v.linked a ha) ∙ ap (λ s. (entry q s).link) e ∙ v.linked b hb)

  pub slot_at-heap_swap :
      (i : ℕ)
      → slot_at (heap_swap q a b) i
        ≡ (if b == i then slot_at q a else if a == i then slot_at q b else slot_at q i)
  unfolding heap_swap
  slot_at-heap_swap i = ground (
    arith,
    v.heap_length,
    v.bounded,
    length-set q.heap a (slot_at q b),
    get_or-set q.heap a i (slot_at q b) 0,
    get_or-set (set q.heap a (slot_at q b)) b i (slot_at q a) 0,
  )

  pub entry-heap_swap :
      (s : ℕ)
      → entry (heap_swap q a b) s ≡ (
          if slot_at q a == s
          then record (entry q s) { link = b }
          else if slot_at q b == s
          then record (entry q s) { link = a }
          else entry q s)
  unfolding heap_swap
  entry-heap_swap s =
      let q1 : TimerQueue = record q { heap = set (set q.heap a (slot_at q b)) b (slot_at q a) } in
      let q2 : TimerQueue = set_link q1 (slot_at q1 a) a in
      ground (
        arith,
        slots_differ,
        at a,
        at b,
        v.inside a ha,
        v.inside b hb,
        v.entries_length,
        entry-set_link q1 (slot_at q1 a) a s,
        entry-set_link q2 (slot_at q1 b) b s,
        length-set q.entries (slot_at q1 a) (record (entry q1 (slot_at q1 a)) { link = a }),
      )
    where
      at :
          (i : ℕ)
          → get_or (set (set q.heap a (slot_at q b)) b (slot_at q a)) i 0
            ≡ (if b == i then slot_at q a else if a == i then slot_at q b else slot_at q i)
      at i = slot_at-heap_swap i

pub armed_count_pointwise :
    (es fs : List Entry)
    → length es ≡ length fs
    → ((s : ℕ) → armed (get_or es s zero_entry) ≡ armed (get_or fs s zero_entry))
    → armed_count es ≡ armed_count fs
armed_count_pointwise [] [] l h = refl
armed_count_pointwise [] (f ∷ fs) l h = absurd (omega arith)
armed_count_pointwise (e ∷ es) [] l h = absurd (omega arith)
armed_count_pointwise (e ∷ es) (f ∷ fs) l h =
    ground (arith, h 0, armed_count_pointwise es fs (omega arith) (λ s. h (suc s)))

-- What moving slots about in the heap leaves as it was.
pub record Moved (q q' : TimerQueue) : Type 0 where
  pub size_kept : q'.size ≡ q.size
  pub capacity_kept : q'.capacity ≡ q.capacity
  pub free_kept : q'.free_head ≡ q.free_head
  pub entry_kept : (s : ℕ) → entry q' s ≡ record (entry q s) { link = (entry q' s).link }
  pub armed_kept : (s : ℕ) → armed (entry q' s) ≡ armed (entry q s)
  pub idle_kept : (s : ℕ) → armed (entry q s) ≡ false → (entry q' s).link ≡ (entry q s).link

pub Moved-refl : (q : TimerQueue) → Moved q q
Moved-refl q = record {
  size_kept = refl;
  capacity_kept = refl;
  free_kept = refl;
  entry_kept = λ s. refl;
  armed_kept = λ s. refl;
  idle_kept = λ s h. refl;
}

pub Moved-trans : (p q r : TimerQueue) → Moved p q → Moved q r → Moved p r
Moved-trans p q r m n = record {
  size_kept = n.size_kept ∙ m.size_kept;
  capacity_kept = n.capacity_kept ∙ m.capacity_kept;
  free_kept = n.free_kept ∙ m.free_kept;
  entry_kept = λ s.
      n.entry_kept s ∙ ap (λ (e : Entry). record e { link = (entry r s).link }) (m.entry_kept s);
  armed_kept = λ s. n.armed_kept s ∙ m.armed_kept s;
  idle_kept = λ s h. n.idle_kept s (m.armed_kept s ∙ h) ∙ m.idle_kept s h;
}

module _ (out extra : ℕ) (q : TimerQueue) (a b : ℕ) (v : IsLinked out extra q) (ha : a < q.size)
    (hb : b < q.size) (ne : a ≢ b) where
  place_armed : (i : ℕ) → i < q.size → armed (entry q (slot_at q i)) ≡ true
  place_armed i h = ground (arith, v.linked i h, v.in_use i h, v.bounded, v.capacity_fits)

  pub heap_swap-Moved : Moved q (heap_swap q a b)
  unfolding heap_swap
  heap_swap-Moved = record {
    size_kept = refl;
    capacity_kept = refl;
    free_kept = refl;
    entry_kept = λ s. ground (arith, entry-heap_swap out extra q a b v ha hb ne s);
    armed_kept = λ s. ground (
      arith,
      entry-heap_swap out extra q a b v ha hb ne s,
      place_armed a ha,
      place_armed b hb,
      v.bounded,
      v.capacity_fits,
    );
    idle_kept = λ s h.
        ground
          (arith, entry-heap_swap out extra q a b v ha hb ne s, place_armed a ha, place_armed b hb);
  }

  length-heap_swap :
      (length (heap_swap q a b).entries ≡ length q.entries)
      × (length (heap_swap q a b).heap ≡ length q.heap)
  unfolding heap_swap
  length-heap_swap =
      (length-set _ _ _ ∙ length-set _ _ _, length-set _ _ _ ∙ length-set q.heap a (slot_at q b))

  pub heap_swap-IsLinked : IsLinked out extra (heap_swap q a b)
  heap_swap-IsLinked =
      let m = heap_swap-Moved in
      let at = slot_at-heap_swap out extra q a b v ha hb ne in
      let en = entry-heap_swap out extra q a b v ha hb ne in
      record {
        entries_length = omega (arith, length-heap_swap, m.capacity_kept, v.entries_length);
        heap_length = omega (arith, length-heap_swap, m.capacity_kept, v.heap_length);
        capacity_fits = omega (arith, m.capacity_kept, v.capacity_fits);
        bounded = omega (arith, m.capacity_kept, m.size_kept, v.bounded);
        counted =
            armed_count_pointwise (heap_swap q a b).entries q.entries length-heap_swap.0
              m.armed_kept
            ∙ v.counted
            ∙ ap (λ n. n + extra) (sym m.size_kept);
        inside = λ i h.
            ground
              (arith, at i, m.capacity_kept, m.size_kept, v.inside i, v.inside a ha, v.inside b hb);
        linked = λ i h. ground (
          arith,
          at i,
          en (slot_at (heap_swap q a b) i),
          m.size_kept,
          v.linked i,
          v.linked a ha,
          v.linked b hb,
        );
        in_use = λ i h. ground (
          arith,
          at i,
          en (slot_at (heap_swap q a b) i),
          m.size_kept,
          v.in_use i,
          v.in_use a ha,
          v.in_use b hb,
        );
        staying =
            λ i h. ground (arith, at i, m.size_kept, v.staying i, v.staying a ha, v.staying b hb);
        placed = λ s h o r. ground (
          arith,
          m.capacity_kept,
          m.size_kept,
          m.armed_kept s,
          v.placed s,
          en s,
          at (entry (heap_swap q a b) s).link,
          ha,
          hb,
        );
      }
