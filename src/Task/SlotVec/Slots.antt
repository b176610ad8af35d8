-- ===== src/Task/SlotVec/Slots.antt =====
-- What each operation of a `SlotVec` does to its slots and to the count.
use domains.Prelude.{
  ℕ, suc, ◌+◌, ◌-◌, ◌<◌, ◌≡◌, ◌≢◌, refl, sym, ap, ◌∙◌, List, [], ◌∷◌, ◌++◌, Option, none, some,
  true, length, set, get_or, position, is_none, leb, ◌==◌, if◌then◌else◌, arith, length-append,
  get_or-set, get_or-append, get_or_beyond, position-some, position_first, inl, inr, Bool-cases,
}
use domains.Task.SlotVec.Defs.{SlotVec, get, put, put_at, remove, grown, somes, iter, len}
use domains.Task.SlotVec.Count.{
  occupied, IsCounted, below_of_leb, counted-clear, counted-fill, full_slot, get-slots,
  get_or-grown, length-grown, occupied-append, occupied-grown, occupied-set, one-none, one-some,
  position-is_none_total,
}

module _ {T : Type 0} where
  -- What `put` promises: the index was free, every lower one is taken, and only that slot changes.
  pub record Put (v : SlotVec T) (entry : T) (idx : ℕ) (v' : SlotVec T) : Type 0 where
    pub placed : put v entry ≡ some (idx, v')
    pub free : get v idx ≡ none
    pub lowest : (j : ℕ) → j < idx → get v j ≢ none
    pub reads : (j : ℕ) → get v' j ≡ (if idx == j then some entry else get v j)
    pub counted : IsCounted v'
    pub one_more : len v' ≡ len v + 1

  Put-end :
      (v : SlotVec T) (entry : T)
      → IsCounted v
      → v.num_occupied ≡ length v.slots
      → Put v entry
          (length v.slots)
          (record { slots = v.slots ++ (some entry ∷ []); num_occupied = v.num_occupied + 1 })
  unfolding put len
  Put-end v entry c e = record {
    placed = ground (arith, length-append v.slots (some entry ∷ []));
    free = get-slots v _ ∙ get_or_beyond v.slots _ none (omega arith);
    lowest = λ j h. rw (get-slots v j) (full_slot v.slots j (omega arith) h);
    reads = λ j. ground (
      arith,
      get-slots v j,
      get-slots (record { slots = v.slots ++ (some entry ∷ []); num_occupied = v.num_occupied + 1 })
          j,
      get_or-append v.slots (some entry ∷ []) j none,
      get_or_beyond v.slots j none,
      get_or_beyond (some entry ∷ []) (j - length v.slots) none,
    );
    counted = omega (arith, occupied-append v.slots (some entry ∷ []));
    one_more = refl;
  }

  Put-hole :
      (v : SlotVec T) (entry : T) (idx : ℕ)
      → IsCounted v
      → v.num_occupied ≢ length v.slots
      → position is_none v.slots ≡ some idx
      → Put v entry idx
          (record { slots = set v.slots idx (some entry); num_occupied = v.num_occupied + 1 })
  unfolding put len
  Put-hole v entry idx c ne found = record {
    placed = ground arith;
    free = ground (arith, get-slots v idx, position-some is_none v.slots idx none found);
    lowest = λ j h.
        rw (get-slots v j) (λ e. ground (arith, position_first is_none v.slots idx j none found h));
    reads = λ j. ground (
      arith,
      get-slots v j,
      get-slots (record { slots = set v.slots idx (some entry); num_occupied = v.num_occupied + 1 })
          j,
      get_or-set v.slots idx j (some entry) none,
      position-some is_none v.slots idx none found,
    );
    counted = omega (
      arith,
      occupied-set v.slots idx (some entry) (position-some is_none v.slots idx none found).0,
      one-none (get_or v.slots idx none) (position-some is_none v.slots idx none found).1,
      one-some entry,
    );
    one_more = refl;
  }

  -- On a slot vector whose count is right, put never panics: it takes the lowest free index,
  -- changes that slot only, keeps the count right and makes it one more.
  pub Put-total :
      (v : SlotVec T) (entry : T) → IsCounted v → (idx : ℕ) × (v' : SlotVec T) × Put v entry idx v'
  Put-total v entry c = elim (Bool-cases (v.num_occupied == length v.slots)) [
    | inl full ↦ (_, _, Put-end v entry c (ground arith))
    | inr room ↦
        let (idx, found) = position-is_none_total v.slots (λ e. ground arith) in
        (_, _, Put-hole v entry idx c (λ e. ground arith) found)
  ]

  -- `put_at` returns what the slot held, writes the item there and nowhere else, and keeps the count.
  pub put_at_lem :
      (v : SlotVec T) (idx : ℕ) (item : T)
      → IsCounted v
      → let (old, v') = put_at v idx item in
        (old ≡ get v idx)
        × ((j : ℕ) → get v' j ≡ (if idx == j then some item else get v j))
        × IsCounted v'
  unfolding put_at
  put_at_lem v idx item c = (
    get_or-grown v.slots idx idx ∙ sym (get-slots v idx),
    (λ j.
        get-slots (put_at v idx item).1 j
        ∙ get_or-set (grown v.slots idx) idx j (some item) none (length-grown v.slots idx)
        ∙ rw (get_or-grown, get-slots)),
    counted-fill (grown v.slots idx) idx item v.num_occupied (length-grown v.slots idx)
        (c ∙ sym (occupied-grown v.slots idx)),
  )

  get-out : (v : SlotVec T) (j : ℕ) → leb (length v.slots) j ≡ true → get v j ≡ none
  unfolding get
  get-out v j h = rw h

  -- `remove` returns what the slot held, empties it and no other, and keeps the count.
  pub remove_lem :
      (v : SlotVec T) (idx : ℕ)
      → IsCounted v
      → let (old, v') = remove v idx in
        (old ≡ get v idx)
        × ((j : ℕ) → get v' j ≡ (if idx == j then none else get v j))
        × IsCounted v'
  unfolding remove
  remove_lem v idx c = elim (Bool-cases (leb (length v.slots) idx)) [
    | inl out ↦ rw out (sym (get-out v idx out), (λ j. ground (arith, get-out v j)), c)
    | inr inside ↦ rw inside (
      sym (get-slots v idx),
      (λ j.
          get-slots _ j
          ∙ get_or-set v.slots idx j none none (below_of_leb _ _ inside)
          ∙ rw get-slots),
      counted-clear v.slots idx v.num_occupied (below_of_leb _ _ inside) c,
    )
  ]

  length-somes : (xs : List (Option T)) → length (somes xs) ≡ occupied xs
  unfolding somes
  length-somes [] = refl
  length-somes (none ∷ xs) = length-somes xs
  length-somes (some x ∷ xs) = ap suc (length-somes xs)

  -- `iter` gives as many items as `len` says.
  pub length-iter : (v : SlotVec T) → IsCounted v → length (iter v) ≡ len v
  unfolding iter len
  length-iter v c = length-somes v.slots ∙ sym c
