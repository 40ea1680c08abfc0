-- ===== src/FileInfo/Letters.antt =====
-- What the letters of `print_mode` say.
use unix_study.Prelude.{
  ◌∙◌, ℕ, ◌+◌, ◌*◌, ◌/◌, ◌%◌, ◌≡◌, ◌≢◌, ◌↔◌, Bool, true, false, ◌&&◌, ◌||◌, List, [], ◌∷◌, ◌==◌,
  if◌then◌else◌, refl, arith,
}
use unix_study.FileInfo.{
  has_bit, s_ifdir, flag_letter, execute_letter, type_letter, print_mode, Kind, socket,
  character_special, directory, un_named_pipe, symbolic_link, block_special, regular, unknown,
  mode_line,
}

-- A reader of three letters: the bits for reading, writing and execution, and the special one.
abbrev pub read_flag : ℕ → ℕ → ℕ
read_flag letter value = if letter == b'-' then 0 else value

abbrev pub read_execute : ℕ → ℕ
read_execute c = if c == b'x' || c == b's' || c == b't' then 1 else 0

abbrev pub read_special : ℕ → ℕ
read_special c = if c == b'-' || c == b'x' then 0 else 1

abbrev pub read_three : ℕ → ℕ → ℕ → ℕ
read_three r w x = read_flag r 4 + read_flag w 2 + read_execute x

-- The nine permission bits as a number, and the three special flags.
pub record Permissions : Type 0 where
  pub bits : ℕ
  pub user_id : ℕ
  pub group_id : ℕ
  pub sticky : ℕ

pub read_mode : List ℕ → Permissions
read_mode (_ ∷ a ∷ b ∷ c ∷ d ∷ e ∷ f ∷ g ∷ h ∷ i ∷ []) = record {
  bits = read_three a b c * 64 + read_three d e f * 8 + read_three g h i;
  user_id = read_special c;
  group_id = read_special f;
  sticky = read_special i;
}
read_mode _ = record { bits = 0; user_id = 0; group_id = 0; sticky = 0 }

abbrev worth : Bool → ℕ
worth b = if b then 1 else 0

worth-has_bit : (mode b : ℕ) → worth (has_bit mode b) ≡ mode / b % 2
worth-has_bit mode b = ground arith

worth-and : (a b : Bool) → worth (a && b) ≡ worth a * worth b
worth-and false b = omega arith
worth-and true b = omega arith

read_three-letters :
    (r w special runs : Bool) (lower capital : ℕ)
    → read_execute lower ≡ 1
    → read_execute capital ≡ 0
    → read_three
        (flag_letter r b'r')
        (flag_letter w b'w')
        (execute_letter special runs lower capital)
      ≡ 4 * worth r + 2 * worth w + worth runs
read_three-letters r w false runs lower capital l c = ground arith
read_three-letters false false true runs lower capital l c = ground arith
read_three-letters false true true runs lower capital l c = ground arith
read_three-letters true false true runs lower capital l c = ground arith
read_three-letters true true true runs lower capital l c = ground arith

read_special-letter :
    (special runs : Bool) (lower capital : ℕ)
    → read_special lower ≡ 1
    → read_special capital ≡ 1
    → read_special (execute_letter special runs lower capital) ≡ worth special
read_special-letter false false lower capital l c = refl
read_special-letter false true lower capital l c = refl
read_special-letter true false lower capital l c = c
read_special-letter true true lower capital l c = l

-- The letters of `print_mode` give back all the permissions of a mode: the nine bits, the set-user-ID
-- and set-group-ID flags, and the sticky flag of a directory.
pub print_mode-read_mode :
    (mode : ℕ)
    → read_mode (print_mode mode) ≡ record {
      bits = mode % 512;
      user_id = mode / 0x800 % 2;
      group_id = mode / 0x400 % 2;
      sticky = (mode / s_ifdir % 2) * (mode / 0x200 % 2);
    }
unfolding print_mode read_mode
print_mode-read_mode mode =
    λ k. record { bits = bits k; user_id = user k; group_id = group k; sticky = sticky k }
  where
    three :
        (a b c : ℕ) (special : Bool) (lower capital : ℕ)
        → read_execute lower ≡ 1
        → read_execute capital ≡ 0
        → read_three
            (flag_letter (has_bit mode a) b'r')
            (flag_letter (has_bit mode b) b'w')
            (execute_letter special (has_bit mode c) lower capital)
          ≡ 4 * (mode / a % 2) + 2 * (mode / b % 2) + mode / c % 2
    three a b c special lower capital l h =
        read_three-letters (has_bit mode a) (has_bit mode b) special (has_bit mode c) lower capital
          l h
        ∙ rw (worth-has_bit mode a, worth-has_bit mode b, worth-has_bit mode c)

    bits :
        read_three
              (flag_letter (has_bit mode 0x100) b'r')
              (flag_letter (has_bit mode 0x80) b'w')
              (execute_letter (has_bit mode 0x800) (has_bit mode 0x40) b's' b'S')
            * 64
          + read_three
              (flag_letter (has_bit mode 0x20) b'r')
              (flag_letter (has_bit mode 0x10) b'w')
              (execute_letter (has_bit mode 0x400) (has_bit mode 0x8) b's' b'S')
            * 8
          + read_three (flag_letter (has_bit mode 0x4) b'r') (flag_letter (has_bit mode 0x2) b'w') (
              execute_letter
                (has_bit mode s_ifdir && has_bit mode 0x200)
                (has_bit mode 0x1)
                b't'
                b'T')
        ≡ mode % 512
    bits =
        rw
          (
            three 0x100 0x80 0x40 (has_bit mode 0x800) b's' b'S' refl refl,
            three 0x20 0x10 0x8 (has_bit mode 0x400) b's' b'S' refl refl,
            three 0x4 0x2 0x1 (has_bit mode s_ifdir && has_bit mode 0x200) b't' b'T' refl refl,
          )
          (omega arith)

    user :
        read_special (execute_letter (has_bit mode 0x800) (has_bit mode 0x40) b's' b'S')
        ≡ mode / 0x800 % 2
    user =
        read_special-letter (has_bit mode 0x800) (has_bit mode 0x40) b's' b'S' refl refl
        ∙ worth-has_bit mode 0x800

    group :
        read_special (execute_letter (has_bit mode 0x400) (has_bit mode 0x8) b's' b'S')
        ≡ mode / 0x400 % 2
    group =
        read_special-letter (has_bit mode 0x400) (has_bit mode 0x8) b's' b'S' refl refl
        ∙ worth-has_bit mode 0x400

    sticky :
        read_special
          (execute_letter (has_bit mode s_ifdir && has_bit mode 0x200) (has_bit mode 0x1) b't' b'T')
        ≡ (mode / s_ifdir % 2) * (mode / 0x200 % 2)
    sticky =
        read_special-letter (has_bit mode s_ifdir && has_bit mode 0x200) (has_bit mode 0x1) b't'
          b'T' refl refl
        ∙ worth-and (has_bit mode s_ifdir) (has_bit mode 0x200)
        ∙ rw (worth-has_bit mode s_ifdir, worth-has_bit mode 0x200)

-- The letter of `ls` for a kind of file.
abbrev pub ls_letter : Kind → ℕ
ls_letter socket = b's'
ls_letter character_special = b'c'
ls_letter directory = b'd'
ls_letter un_named_pipe = b'p'
ls_letter symbolic_link = b'l'
ls_letter block_special = b'b'
ls_letter regular = b'-'
ls_letter unknown = b'?'

-- The first letter is that of `ls` for the kind that the line `Mode:` gives, except exactly for
-- character devices, which get the letter of a directory, and directories, which get a question mark.
pub type_letter_iff :
    (mode : ℕ)
    → ((type_letter mode ≡ ls_letter (mode_line mode))
        ↔ ((mode_line mode ≢ character_special) × (mode_line mode ≢ directory)))
      × (mode_line mode ≡ character_special → type_letter mode ≡ ls_letter directory)
      × (mode_line mode ≡ directory → type_letter mode ≡ b'?')
unfolding type_letter mode_line
type_letter_iff mode = (ground arith, λ e. ground arith, λ e. ground arith)
