-- ===== src/FdTable.antt =====
-- The file descriptors of spdk_filesystem/myfs.c: a bit for each in `fd_table`.
pub mod Lowest
pub mod Reuse
mod Examples
use learn_spdk.Base.{
  ℕ, zero, suc, ◌-◌, ◌/◌, ◌%◌, Bool, true, false, ◌&&◌, if◌then◌else◌, Option, none, some, ◌==◌,
  leb,
}

abbrev pub max_fd_count : ℕ
max_fd_count = 1024

abbrev pub default_fd_num : ℕ
default_fd_num = 3

-- The bits of the bytes of `fd_table`: first the byte, then the bit in it.
abbrev pub Table : Type 0
Table = (byte bit : ℕ) → Bool

-- The test `fd_table[fd/8] & (0x1 << (fd % 8))`.
abbrev pub is_used : Table → ℕ → Bool
is_used table fd = table (fd / 8) (fd % 8)

-- The bit of a descriptor is set or cleared.
abbrev pub put_bit : ℕ → Bool → Table → Table
put_bit fd b table = λ i j. if i == fd / 8 && j == fd % 8 then b else table i j

-- The loop of `get_fd_from_bitmap`, with the rounds that are left. `none` is -1.
unfoldable pub next_fd : (rounds fd : ℕ) → Table → Option ℕ × Table
next_fd zero fd table = (none, table)
next_fd (suc rounds) fd table =
    let later = next_fd rounds (suc fd) table in
    if is_used table fd then later else (some fd, put_bit fd true table)

unfoldable pub get_fd_from_bitmap : Table → Option ℕ × Table
unfolding next_fd
get_fd_from_bitmap table = next_fd (max_fd_count - default_fd_num) default_fd_num table

-- `false` is -1. A descriptor is not negative here.
unfoldable pub set_fd_to_bitmap : ℕ → Table → Bool × Table
set_fd_to_bitmap fd table =
    if leb max_fd_count fd then (false, table) else (true, put_bit fd false table)
