-- ===== src/Socket/Descriptor.antt =====
-- src/util/FileDescriptor.cpp: objects that own a file descriptor, as a list of what they hold, `none` for
-- INVALID_SOCKET. A destroyed object and one that was moved from hold nothing. The cleanup functions,
-- which leave the descriptors alone, are left out.
mod Counts
pub mod Owners
use nuclear.Base.{
  ℕ, zero, suc, ◌+◌, ◌≤◌, ◌≡◌, refl, sym, ap, ◌∙◌, List, [], ◌∷◌, ◌++◌, Option, none, some, Bool,
  true, false, ◌==◌, ==_iff, if◌then◌else◌, arith, Bool-cases, inl, inr,
}

-- The objects, the descriptors of the process that they were made with and that are open, those that
-- were released, and the calls of `::close`.
pub record Descriptors : Type 0 where
  pub objects : List (Option ℕ)
  pub open_fds : List ℕ
  pub released : List ℕ
  pub closed : List ℕ

abbrev pub is_fd : ℕ → ℕ → ℕ
is_fd fd x = if x == fd then 1 else 0

unfoldable pub count_fd : ℕ → List ℕ → ℕ
count_fd fd [] = 0
count_fd fd (x ∷ xs) = is_fd fd x + count_fd fd xs

unfoldable pub holds : ℕ → Option ℕ → ℕ
holds fd none = 0
holds fd (some x) = is_fd fd x

unfoldable pub count_objects : ℕ → List (Option ℕ) → ℕ
count_objects fd [] = 0
count_objects fd (o ∷ os) = holds fd o + count_objects fd os

-- The member `fd` of an object, read and written.
unfoldable pub held : ℕ → List (Option ℕ) → Option ℕ
held i [] = none
held zero (o ∷ os) = o
held (suc i) (o ∷ os) = held i os

unfoldable pub set_held : ℕ → Option ℕ → List (Option ℕ) → List (Option ℕ)
set_held i x [] = []
set_held zero x (o ∷ os) = x ∷ os
set_held (suc i) x (o ∷ os) = o ∷ set_held i x os

-- `valid`, for a descriptor that is not INVALID_SOCKET.
unfoldable pub valid : ℕ → List ℕ → Bool
valid fd [] = false
valid fd (x ∷ xs) = let later = valid fd xs in if x == fd then true else later

unfoldable pub remove_fd : ℕ → List ℕ → List ℕ
remove_fd fd [] = []
remove_fd fd (x ∷ xs) = let rest = remove_fd fd xs in if x == fd then xs else x ∷ rest

-- `FileDescriptor(fd)`.
unfoldable pub construct : ℕ → Descriptors → Descriptors
construct fd s = record s { objects = some fd ∷ s.objects; open_fds = fd ∷ s.open_fds }

unfoldable pub close_held : ℕ → Option ℕ → Descriptors → Descriptors
close_held i none s = s
close_held i (some fd) s =
    if valid fd s.open_fds
    then record s {
      objects = set_held i none s.objects;
      open_fds = remove_fd fd s.open_fds;
      closed = fd ∷ s.closed;
    }
    else s

-- `close`, and the destructor.
unfoldable pub close : ℕ → Descriptors → Descriptors
close i s = close_held i (held i s.objects) s

-- `release`.
unfoldable pub release : ℕ → Descriptors → Descriptors
release i s = record s {
  objects = set_held i none s.objects;
  released = elim (held i s.objects) [ none ↦ s.released | some fd ↦ fd ∷ s.released ];
}

-- The move constructor.
unfoldable pub move_construct : ℕ → Descriptors → Descriptors
move_construct i s = record s { objects = held i s.objects ∷ set_held i none s.objects }

unfoldable pub take_over : ℕ → ℕ → Descriptors → Descriptors
take_over i j s = record s { objects = set_held i (held j s.objects) (set_held j none s.objects) }

-- The move assignment.
unfoldable pub move_assign : ℕ → ℕ → Descriptors → Descriptors
move_assign i j s = if i == j then s else take_over i j (close i s)
