-- ===== src/FileInfo.antt =====
-- advanced_io/link.c: what the program says of a file's mode. A test of one flag is a test of one
-- bit, and the type of a file is the four bits above the others.
pub mod Letters
pub mod Report
mod Tests
use unix_study.Prelude.{ℕ, ◌/◌, ◌%◌, Bool, ◌&&◌, ◌||◌, List, [], ◌∷◌, ◌==◌, if◌then◌else◌}

-- The file types, `S_IFMT` being 0170000.
abbrev pub s_ififo : ℕ
s_ififo = 0x1000

abbrev pub s_ifchr : ℕ
s_ifchr = 0x2000

abbrev pub s_ifdir : ℕ
s_ifdir = 0x4000

abbrev pub s_ifblk : ℕ
s_ifblk = 0x6000

abbrev pub s_ifreg : ℕ
s_ifreg = 0x8000

abbrev pub s_iflnk : ℕ
s_iflnk = 0xa000

abbrev pub s_ifsock : ℕ
s_ifsock = 0xc000

-- `TYPE(b)`, for a `b` with no bit outside `S_IFMT`.
abbrev pub is_type : ℕ → ℕ → Bool
is_type mode b = mode / 0x1000 % 0x10 == b / 0x1000

-- `MODE(b)`, for a `b` with one bit.
abbrev pub has_bit : ℕ → ℕ → Bool
has_bit mode b = mode / b % 2 == 1

unfoldable pub type_letter : ℕ → ℕ
type_letter mode =
    if is_type mode s_ifblk
    then b'b'
    else if is_type mode s_ifchr
    then b'd'
    else if is_type mode s_ififo
    then b'p'
    else if is_type mode s_ifreg
    then b'-'
    else if is_type mode s_iflnk
    then b'l'
    else if is_type mode s_ifsock
    then b's'
    else b'?'

abbrev pub flag_letter : Bool → ℕ → ℕ
flag_letter b letter = if b then letter else b'-'

-- The letter for execution, where `special` is the flag that shares its place.
abbrev pub execute_letter : Bool → Bool → ℕ → ℕ → ℕ
execute_letter special runs lower capital =
    if special then (if runs then lower else capital) else if runs then b'x' else b'-'

-- What `print_mode` writes.
unfoldable pub print_mode : ℕ → List ℕ
unfolding type_letter
print_mode mode =
    type_letter mode
    ∷ flag_letter (has_bit mode 0x100) b'r'
    ∷ flag_letter (has_bit mode 0x80) b'w'
    ∷ execute_letter (has_bit mode 0x800) (has_bit mode 0x40) b's' b'S'
    ∷ flag_letter (has_bit mode 0x20) b'r'
    ∷ flag_letter (has_bit mode 0x10) b'w'
    ∷ execute_letter (has_bit mode 0x400) (has_bit mode 0x8) b's' b'S'
    ∷ flag_letter (has_bit mode 0x4) b'r'
    ∷ flag_letter (has_bit mode 0x2) b'w'
    ∷ execute_letter (has_bit mode s_ifdir && has_bit mode 0x200) (has_bit mode 0x1) b't' b'T'
    ∷ []

-- The line `Mode:` of `main`.
pub data Kind : Type 0 where
  socket character_special directory un_named_pipe symbolic_link block_special regular unknown :
      Kind

unfoldable pub mode_line : ℕ → Kind
mode_line mode =
    if is_type mode s_ifsock
    then socket
    else if is_type mode s_ifchr
    then character_special
    else if is_type mode s_ifdir
    then directory
    else if is_type mode s_ififo
    then un_named_pipe
    else if is_type mode s_iflnk
    then symbolic_link
    else if is_type mode s_ifblk
    then block_special
    else if is_type mode s_ifreg
    then regular
    else unknown

-- The line `Permission:` of `main`, which is about the group; nothing may be printed.
pub data Access : Type 0 where
  read_and_write read_or_write no_line : Access

unfoldable pub permission_line : ℕ → Access
permission_line mode =
    if has_bit mode 0x20 && has_bit mode 0x10
    then read_and_write
    else if has_bit mode 0x20 || has_bit mode 0x10
    then read_or_write
    else no_line
