-- ===== src/Io/Events.antt =====
-- src/dsl/word/IO.hpp and the event masks of `poll`: a set of flags. IO::READ, WRITE and CLOSE are one flag
-- each, and IO::ERROR is two.
use nuclear.Base.{ℕ, ◌+◌, Bool, true, false, not, ◌&&◌, ◌||◌, if◌then◌else◌}

pub data Flag : Type 0 where
  pollin : Flag
  pollout : Flag
  pollhup : Flag
  pollerr : Flag
  pollnval : Flag

abbrev pub Events : Type 0
Events = Flag → Bool

abbrev pub no_events : Events
no_events flag = false

-- `a | b`, `a & b` and `a & ~b`.
unfoldable pub join : Events → Events → Events
join a b flag = a flag || b flag

unfoldable pub meet : Events → Events → Events
meet a b flag = a flag && b flag

unfoldable pub remove : Events → Events → Events
remove a b flag = a flag && not (b flag)

-- `events != 0`.
unfoldable pub has_any : Events → Bool
has_any e = e pollin || (e pollout || (e pollhup || (e pollerr || e pollnval)))

abbrev pub bit : Bool → ℕ → ℕ
bit b weight = if b then weight else 0

-- The number that the flags stand for, by which `operator<` compares.
unfoldable pub to_number : Events → ℕ
to_number e =
    bit (e pollin) 1
    + bit (e pollout) 4
    + bit (e pollerr) 8
    + bit (e pollhup) 16
    + bit (e pollnval) 32

abbrev pub just : Flag → Events
just pollin pollin = true
just pollin pollout = false
just pollin pollhup = false
just pollin pollerr = false
just pollin pollnval = false
just pollout pollin = false
just pollout pollout = true
just pollout pollhup = false
just pollout pollerr = false
just pollout pollnval = false
just pollhup pollin = false
just pollhup pollout = false
just pollhup pollhup = true
just pollhup pollerr = false
just pollhup pollnval = false
just pollerr pollin = false
just pollerr pollout = false
just pollerr pollhup = false
just pollerr pollerr = true
just pollerr pollnval = false
just pollnval pollin = false
just pollnval pollout = false
just pollnval pollhup = false
just pollnval pollerr = false
just pollnval pollnval = true
