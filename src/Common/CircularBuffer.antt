-- ===== src/Common/CircularBuffer.antt =====
-- src/common/circularbuffer.c. A slot of the model is one item of `size` bytes: `head` and `tail`
-- are the pointers as slot numbers, since they move by `size` only, and `buffer_end` is the slot
-- number `capacity`. Every buffer of the model comes from `cb_init`, so the assertions that
-- `buffer` is not NULL hold.
pub mod Refine
mod Tests
use the_polling_express.Base.{
  ℕ, zero, suc, ◌+◌, ◌-◌, Bool, true, false, Option, none, some, List, [], ◌∷◌, get_elem?, get_or,
  set, replicate, ◌==◌, if◌then◌else◌,
}

pub data Status : Type 0 where
  done cb_full cb_empty : Status

pub record CircularBuffer {ℓ} (A : Type ℓ) : Type ℓ where
  pub buffer : List A
  pub capacity : ℕ
  pub count : ℕ
  pub head : ℕ
  pub tail : ℕ

-- the slot after `p`, round the end of the storage
abbrev pub advance : ℕ → ℕ → ℕ
advance capacity p = if p + 1 == capacity then 0 else p + 1

module _ {ℓ} {A : Type ℓ} where
  -- `blank` is the item of zero bytes that `memset` writes.
  unfoldable pub cb_init : A → ℕ → CircularBuffer A
  cb_init blank capacity = record {
    buffer = replicate capacity blank;
    capacity = capacity;
    count = 0;
    head = 0;
    tail = 0;
  }

  -- The option is what `memcpy` writes to `item`.
  unfoldable pub cb_pop_front : CircularBuffer A → Status × Option A × CircularBuffer A
  cb_pop_front cb = if cb.count == 0 then (cb_empty, none, cb) else (
    done,
    get_elem? cb.buffer cb.tail,
    record cb { tail = advance cb.capacity cb.tail; count = cb.count - 1 },
  )

  -- the statements of `cb_push_back` behind its test for a full buffer
  abbrev pub store : CircularBuffer A → A → CircularBuffer A
  store cb item = record cb {
    buffer = set cb.buffer cb.head item;
    head = advance cb.capacity cb.head;
    count = cb.count + 1;
  }

  unfoldable pub cb_push_back : CircularBuffer A → A → Bool → Status × CircularBuffer A
  unfolding cb_pop_front
  cb_push_back cb item aggressive =
      if cb.count == cb.capacity
      then (if aggressive
          then (let (_, _, popped) = cb_pop_front cb in (done, store popped item))
          else (cb_full, cb))
      else (done, store cb item)

  unfoldable pub cb_is_empty : CircularBuffer A → Bool
  cb_is_empty cb = cb.count == 0

  unfoldable pub cb_is_full : CircularBuffer A → Bool
  cb_is_full cb = cb.count == cb.capacity

  -- the loop of `cb_to_array`, with `cur` and the rounds left; `blank` stands for a read outside
  unfoldable pub copy_items : A → List A → ℕ → ℕ → ℕ → List A
  copy_items blank buffer capacity cur zero = []
  copy_items blank buffer capacity cur (suc rounds) =
      get_or buffer cur blank ∷ copy_items blank buffer capacity (advance capacity cur) rounds

  -- The list is what the loop writes to `arr`; the C function returns its length.
  unfoldable pub cb_to_array : A → CircularBuffer A → List A
  unfolding copy_items
  cb_to_array blank cb = copy_items blank cb.buffer cb.capacity cb.tail cb.count

  unfoldable pub cb_clear : A → CircularBuffer A → CircularBuffer A
  unfolding cb_init
  cb_clear blank cb = cb_init blank cb.capacity
