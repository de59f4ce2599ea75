-- ===== src/Threading/Queue/Blocks.antt =====
-- The blocks that the two queues are made of, and src/threading/scheduler/queue/detail/block_ops.hpp. A call
-- runs without interruption here, so every claimed slot below the block's size is committed, the
-- block list ends at the tail, and a compare and exchange succeeds at the value that was read.
use nuclear.Base.{
  ℕ, zero, suc, ◌<◌, ◌≤◌, ◌≡◌, refl, sym, List, [], ◌∷◌, ◌++◌, Option, none, some, ltb,
  if◌then◌else◌, length, length-append, drop, get_elem?, arith, append_assoc, append-nil, true,
  false, Bool-cases, inl, inr,
}

abbrev pub block_size : ℕ
block_size = 64

-- The number of rounds that is enough for the loop of `enqueue`.
abbrev pub enqueue_fuel : ℕ
enqueue_fuel = 2

-- `Block`; its link to the next block is the place in the list. Only the queue for many consumers has
-- `consumed`, which counts the slots that consumers have finished.
pub record Block (A : Type 0) : Type 0 where
  pub slots : List A
  pub write : ℕ
  pub read : ℕ
  pub consumed : ℕ

-- The blocks from the head up to the tail, the tail, and the graveyard.
pub record Chain (A : Type 0) : Type 0 where
  pub front : List (Block A)
  pub tail : Block A
  pub graveyard : List (Block A)

module _ {A : Type 0} where
  -- `allocate_block`.
  abbrev pub new_block : Block A
  new_block = record { slots = []; write = 0; read = 0; consumed = 0 }

  abbrev pub empty_chain : Chain A
  empty_chain = record { front = []; tail = new_block; graveyard = [] }

  -- `fetch_add` on a block's write index, with the item in the slot if there is one.
  abbrev pub commit : A → Block A → Block A
  commit a b = record b { slots = b.slots ++ a ∷ []; write = suc b.write }

  abbrev pub overflow : Block A → Block A
  overflow b = record b { write = suc b.write }

  -- `link_next_block` and `advance_tail`, on a tail whose write index was moved past its size.
  unfoldable pub link_next_block : Chain A → Chain A
  link_next_block q = record q { front = q.front ++ overflow q.tail ∷ []; tail = new_block }

  -- The loop of `enqueue`, which is the same in both queues.
  unfoldable pub enqueue_loop : ℕ → A → Chain A → Option (Chain A)
  enqueue_loop zero a q = none
  enqueue_loop (suc fuel) a q = elim (ltb q.tail.write block_size) [
    | true ↦ some (record q { tail = commit a q.tail })
    | false ↦ enqueue_loop fuel a (link_next_block q)
  ]

  -- `std::min(block->write, BLOCK_SIZE)`.
  abbrev pub published : Block A → ℕ
  published b = if ltb b.write block_size then b.write else block_size

  abbrev pub head_of : List (Block A) → Block A → Block A
  head_of [] tail = tail
  head_of (b ∷ bs) tail = b

  -- `retire_block`, of the head, once it has been moved to the next block.
  abbrev pub retire_block : Block A → Chain A → Chain A
  retire_block b q = record q { graveyard = b ∷ q.graveyard }

  abbrev pub set_head : List (Block A) → Block A → Chain A → Chain A
  set_head [] b q = record q { tail = b }
  set_head (old ∷ bs) b q = record q { front = b ∷ bs }

  -- What a block, a list of blocks and a queue still hold.
  unfoldable pub remaining : Block A → List A
  remaining b = drop b.read b.slots

  unfoldable pub remaining_all : List (Block A) → List A
  remaining_all [] = []
  remaining_all (b ∷ bs) = remaining b ++ remaining_all bs

  unfoldable pub contents : Chain A → List A
  contents q = remaining_all q.front ++ remaining q.tail

  -- A block that was filled, behind which there is another.
  pub record IsFull (b : Block A) : Type 0 where
    pub filled : length b.slots ≡ block_size
    pub written : block_size < b.write
    pub read_bound : b.read ≤ block_size

  abbrev pub AllFull : List (Block A) → Type 0
  AllFull [] = Unit {0}
  AllFull (b ∷ bs) = IsFull b × AllFull bs

  -- A block that producers still write to.
  pub record IsOpen (b : Block A) : Type 0 where
    pub committed : length b.slots ≡ b.write
    pub within : b.write ≤ block_size
    pub read_bound : b.read ≤ b.write

  abbrev pub Drained : List (Block A) → Type 0
  Drained [] = Unit {0}
  Drained (b ∷ bs) = (remaining b ≡ []) × Drained bs

  drop_snoc :
      (n : ℕ) (xs : List A) (a : A) → n ≤ length xs → drop n (xs ++ a ∷ []) ≡ drop n xs ++ a ∷ []
  drop_snoc zero xs a h = refl
  drop_snoc (suc n) [] a h = absurd (omega arith)
  drop_snoc (suc n) (x ∷ xs) a h = drop_snoc n xs a (omega arith)

  remaining_all-append :
      (xs ys : List (Block A)) → remaining_all (xs ++ ys) ≡ remaining_all xs ++ remaining_all ys
  unfolding remaining_all
  remaining_all-append [] ys = refl
  remaining_all-append (b ∷ xs) ys =
      rw (remaining_all-append xs ys)
        (sym (append_assoc (remaining b) (remaining_all xs) (remaining_all ys)))

  AllFull-snoc :
      (bs : List (Block A)) (b : Block A) → AllFull bs → IsFull b → AllFull (bs ++ b ∷ [])
  AllFull-snoc [] b all f = (f, tt)
  AllFull-snoc (x ∷ bs) b all f = (all.0, AllFull-snoc bs b all.1 f)

  -- The item behind the read index, and the item gone once the index moves.
  pub drop-get_elem? :
      (n : ℕ) (xs : List A)
      → n < length xs
      → (a : A) × (get_elem? xs n ≡ some a) × (drop n xs ≡ a ∷ drop (suc n) xs)
  drop-get_elem? n [] h = absurd (omega arith)
  drop-get_elem? zero (x ∷ xs) h = (x, refl, refl)
  drop-get_elem? (suc n) (x ∷ xs) h = drop-get_elem? n xs (omega arith)

  pub drop_end : (n : ℕ) (xs : List A) → length xs ≤ n → drop n xs ≡ []
  drop_end zero [] h = refl
  drop_end zero (x ∷ xs) h = absurd (omega arith)
  drop_end (suc n) [] h = refl
  drop_end (suc n) (x ∷ xs) h = drop_end n xs (omega arith)

  pub record Valid (q : Chain A) : Type 0 where
    pub full : AllFull q.front
    pub writable : IsOpen q.tail
    pub drained : Drained q.graveyard

  pub Valid-empty : Valid empty_chain
  Valid-empty = record {
    full = tt;
    writable = record { committed = refl; within = omega arith; read_bound = omega arith };
    drained = tt;
  }

  pub enqueue_loop_lem :
      (a : A) (q : Chain A)
      → Valid q
      → (r : Chain A) × (enqueue_loop enqueue_fuel a q ≡ some r)
        × Valid r
        × (contents r ≡ contents q ++ a ∷ [])
  unfolding enqueue_loop link_next_block contents remaining remaining_all
  enqueue_loop_lem a q v = elim (Bool-cases (ltb q.tail.write block_size)) [
    | inl e ↦ (
      record q { tail = commit a q.tail },
      rw (e, enqueue_loop) refl,
      record {
        full = v.full;
        writable = record {
          committed = omega (arith, length-append q.tail.slots (a ∷ []), v.writable.committed);
          within = ground (arith, v.writable.within);
          read_bound = omega (arith, v.writable.read_bound);
        };
        drained = v.drained;
      },
      rw
          (drop_snoc q.tail.read q.tail.slots a
            (omega (arith, v.writable.committed, v.writable.read_bound)))
          (sym (append_assoc (remaining_all q.front) (remaining q.tail) (a ∷ []))),
    )
    | inr e ↦ (
      record (link_next_block q) { tail = commit a new_block },
      rw (e, enqueue_loop) refl,
      record {
        full = AllFull-snoc q.front (overflow q.tail) v.full (record {
          filled = ground (arith, v.writable.committed, v.writable.within);
          written = ground arith;
          read_bound = omega (arith, v.writable.within, v.writable.read_bound);
        });
        writable = record { committed = refl; within = omega arith; read_bound = omega arith };
        drained = v.drained;
      },
      rw
          (
            remaining_all-append q.front (overflow q.tail ∷ []),
            remaining_all,
            append-nil (remaining (overflow q.tail)),
          )
          refl,
    )
  ]
