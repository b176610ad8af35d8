-- ===== src/Task/SlotVec/Defs.antt =====
-- `SlotVec<T>` of common/task/task/src/utils.rs: a vector whose items keep their index.
use domains.Prelude.{
  ℕ, ◌+◌, ◌-◌, List, [], ◌∷◌, ◌++◌, Option, none, some, Bool, length, set, get_or, replicate,
  position, is_none, is_some, leb, ◌==◌, if◌then◌else◌,
}

pub record SlotVec (T : Type 0) : Type 0 where
  pub slots : List (Option T)
  pub num_occupied : ℕ

module _ {T : Type 0} where
  unfoldable pub new : SlotVec T
  new = record { slots = []; num_occupied = 0 }

  -- The capacity only reserves memory.
  unfoldable pub with_capacity : ℕ → SlotVec T
  with_capacity capacity = record { slots = []; num_occupied = 0 }

  unfoldable pub is_empty : SlotVec T → Bool
  is_empty v = v.num_occupied == 0

  unfoldable pub len : SlotVec T → ℕ
  len v = v.num_occupied

  unfoldable pub slots_len : SlotVec T → ℕ
  slots_len v = length v.slots

  unfoldable pub get : SlotVec T → ℕ → Option T
  get v idx = if leb (length v.slots) idx then none else get_or v.slots idx none

  -- `none` is the panic of `position(..).unwrap()`.
  unfoldable pub put : SlotVec T → T → Option (ℕ × SlotVec T)
  put v entry =
      if v.num_occupied == length v.slots
      then (let pushed = v.slots ++ (some entry ∷ []) in
          some (length pushed - 1, record { slots = pushed; num_occupied = v.num_occupied + 1 }))
      else elim (position is_none v.slots) [
        | none ↦ none
        | some idx ↦ some (
          idx,
          record { slots = set v.slots idx (some entry); num_occupied = v.num_occupied + 1 },
        )
      ]

  -- `resize_with(n, Default::default)` for a length that grows.
  unfoldable pub resize_with : List (Option T) → ℕ → List (Option T)
  resize_with slots n = slots ++ replicate (n - length slots) none

  -- The slots once index `idx` exists.
  unfoldable pub grown : List (Option T) → ℕ → List (Option T)
  unfolding resize_with
  grown slots idx = if leb (length slots) idx then resize_with slots (idx + 1) else slots

  unfoldable pub put_at : SlotVec T → ℕ → T → Option T × SlotVec T
  put_at v idx item =
      let slots = grown v.slots idx in
      let sub_item = get_or slots idx none in
      (
        sub_item,
        record {
          slots = set slots idx (some item);
          num_occupied = if is_none sub_item then v.num_occupied + 1 else v.num_occupied;
        },
      )

  unfoldable pub remove : SlotVec T → ℕ → Option T × SlotVec T
  remove v idx =
      if leb (length v.slots) idx
      then (none, v)
      else (let del_item = get_or v.slots idx none in
          (
            del_item,
            record {
              slots = set v.slots idx none;
              num_occupied = if is_some del_item then v.num_occupied - 1 else v.num_occupied;
            },
          ))

  -- The loop of `idxes_and_items`, `i` being the counter of `enumerate`.
  unfoldable pub items_from : ℕ → List (Option T) → List (ℕ × T)
  items_from i [] = []
  items_from i (none ∷ xs) = items_from (i + 1) xs
  items_from i (some x ∷ xs) = (i, x) ∷ items_from (i + 1) xs

  unfoldable pub idxes_and_items : SlotVec T → List (ℕ × T)
  idxes_and_items v = items_from 0 v.slots

  unfoldable pub somes : List (Option T) → List T
  somes [] = []
  somes (none ∷ xs) = somes xs
  somes (some x ∷ xs) = x ∷ somes xs

  unfoldable pub iter : SlotVec T → List T
  iter v = somes v.slots
