-- ===== src/FileInfo/Report.antt =====
-- `printName` and `main` of advanced_io/link.c: what the program prints of a file.
use unix_study.Prelude.{
  [], ◌∷◌, ◌++◌, none, some, true, refl, arith, ap, ◌∙◌, ◌≡◌, ◌≢◌, ◌+◌, ◌↔◌, if◌then◌else◌, Bool,
  Option, List, ℕ, Bytes, length, All, c_string, c_string-append,
}
use unix_study.FileInfo.{
  Kind, Access, is_type, s_iflnk, symbolic_link, mode_line, permission_line, print_mode,
}

pub record Stat : Type 0 where
  pub st_dev : ℕ
  pub st_ino : ℕ
  pub st_mode : ℕ
  pub st_nlink : ℕ
  pub st_uid : ℕ
  pub st_gid : ℕ
  pub st_size : ℕ
  pub st_blksize : ℕ
  pub st_blocks : ℕ

-- The system: `none` is -1 or NULL. `readlink` has room for some bytes, and `malloc` may fail.
pub record Os : Type 0 where
  pub stat : Bytes → Option Stat
  pub lstat : Bytes → Option Stat
  pub readlink : Bytes → ℕ → Option Bytes
  pub malloc : ℕ → Bool
  pub getpwuid : ℕ → Option Bytes
  pub getgrgid : ℕ → Option Bytes
  pub getcwd : Option Bytes

-- What `printName` prints.
pub data Name : Type 0 where
  linked : Bytes → Option Bytes → Name
  cannot_read not_linked : Bytes → Name

-- The text of a link is printed as a string, with the NUL that is put behind it.
unfoldable pub print_name : Os → Stat → Bytes → Name
print_name os st name =
    if is_type st.st_mode s_iflnk
    then (if os.malloc (st.st_size + 1)
        then elim (os.readlink name st.st_size) [
          | none ↦ cannot_read name
          | some contents ↦ linked name (c_string (contents ++ 0 ∷ []))
        ]
        else cannot_read name)
    else not_linked name

-- One constructor for each line of the output.
pub data Line : Type 0 where
  require_path lstat_info : Line
  information : Bytes → Line
  file_size links inode device i_number size block_size blocks : ℕ → Line
  mode : Kind → Line
  permission : Access → Line
  user group : Bytes → ℕ → Line
  letters : List ℕ → Line
  current_path : Option Bytes → Line
  named : Name → Line

-- How `main` ends: with a status and what it has printed, or with a NULL that is taken for a record.
pub data Ended : Type 0 where
  returns : ℕ → List Line → Ended
  undefined : Ended

-- The lines in front of `lstat`.
abbrev pub stat_lines : Bytes → Stat → List Line
stat_lines name st =
    information name ∷ file_size st.st_size ∷ links st.st_nlink ∷ inode st.st_ino ∷ []

-- The lines behind it, with the names of the user and the group.
abbrev pub access_lines : Os → Stat → Bytes → Bytes → List Line
access_lines os st owner its_group =
    permission (permission_line st.st_mode)
    ∷ i_number st.st_ino
    ∷ user owner st.st_uid
    ∷ group its_group st.st_gid
    ∷ size st.st_size
    ∷ block_size st.st_blksize
    ∷ blocks st.st_blocks
    ∷ letters (print_mode st.st_mode)
    ∷ current_path os.getcwd
    ∷ []

abbrev pub lstat_lines : Os → Bytes → Stat → Bytes → Bytes → List Line
lstat_lines os name st owner its_group =
    lstat_info
    ∷ device st.st_dev
    ∷ mode (mode_line st.st_mode)
    ∷ (access_lines os st owner its_group ++ named (print_name os st name) ∷ [])

-- `getUsername` and `getGroupname` read the record without a test.
abbrev pub with_names : Os → Bytes → List Line → Stat → Option Bytes → Option Bytes → Ended
with_names os name front st (some owner) (some its_group) =
    returns 0 (front ++ lstat_lines os name st owner its_group)
with_names os name front st _ _ = undefined

abbrev pub with_lstat : Os → Bytes → List Line → Option Stat → Ended
with_lstat os name front none = returns 1 front
with_lstat os name front (some st) =
    with_names os name front st (os.getpwuid st.st_uid) (os.getgrgid st.st_gid)

abbrev pub with_stat : Os → Bytes → Option Stat → Ended
with_stat os name none = returns 1 []
with_stat os name (some st) = with_lstat os name (stat_lines name st) (os.lstat name)

-- `main`, with the arguments behind the program's name.
unfoldable pub main : Os → List Bytes → Ended
main os [] = returns 1 (require_path ∷ [])
main os (name ∷ []) = with_stat os name (os.stat name)
main os (_ ∷ _ ∷ _) = returns 1 (require_path ∷ [])

-- The program prints a whole report for one argument only, which both `stat` and `lstat` know, and
-- whose user and group have names, as a proposition about the arguments.
pub record IsReported (os : Os) (args : List Bytes) : Type 0 where
  pub name : Bytes
  pub args_is : args ≡ name ∷ []
  pub of_target : Stat
  pub of_link : Stat
  pub owner : Bytes
  pub its_group : Bytes
  pub stat_is : os.stat name ≡ some of_target
  pub lstat_is : os.lstat name ≡ some of_link
  pub owner_is : os.getpwuid of_link.st_uid ≡ some owner
  pub group_is : os.getgrgid of_link.st_gid ≡ some its_group

-- From the way the branches end.
module _ (os : Os) (name : Bytes) (st : Stat) (at : os.stat name ≡ some st)
    (lines : List Line) where
  with_names-IsReported :
      (ls : Stat) (u g : Option Bytes)
      → os.lstat name ≡ some ls
      → os.getpwuid ls.st_uid ≡ u
      → os.getgrgid ls.st_gid ≡ g
      → with_names os name (stat_lines name st) ls u g ≡ returns 0 lines
      → IsReported os (name ∷ [])
  with_names-IsReported ls (some owner) (some its_group) l u g e = record {
    name = name;
    args_is = refl;
    of_target = st;
    of_link = ls;
    owner = owner;
    its_group = its_group;
    stat_is = at;
    lstat_is = l;
    owner_is = u;
    group_is = g;
  }
  with_names-IsReported ls none (some its_group) l u g e = cc
  with_names-IsReported ls none none l u g e = cc
  with_names-IsReported ls (some owner) none l u g e = cc

  with_lstat-IsReported :
      (o : Option Stat)
      → os.lstat name ≡ o
      → with_lstat os name (stat_lines name st) o ≡ returns 0 lines
      → IsReported os (name ∷ [])
  with_lstat-IsReported none l e = absurd (one_zero e)
    where
      one_zero : returns 1 (stat_lines name st) ≡ returns 0 lines → ⊥
      one_zero e = cc
  with_lstat-IsReported (some ls) l e =
      with_names-IsReported ls (os.getpwuid ls.st_uid) (os.getgrgid ls.st_gid) l refl refl e

with_stat-IsReported :
    (os : Os) (name : Bytes) (o : Option Stat) (lines : List Line)
    → os.stat name ≡ o
    → with_stat os name o ≡ returns 0 lines
    → IsReported os (name ∷ [])
with_stat-IsReported os name none lines at e = cc
with_stat-IsReported os name (some st) lines at e =
    with_lstat-IsReported os name st at lines (os.lstat name) refl e

forth :
    (os : Os) (args : List Bytes) (lines : List Line)
    → main os args ≡ returns 0 lines
    → IsReported os args
unfolding main
forth os [] lines e = cc
forth os (name ∷ []) lines e = with_stat-IsReported os name (os.stat name) lines refl e
forth os (a ∷ b ∷ cs) lines e = cc

abbrev full_report : (os : Os) (args : List Bytes) → IsReported os args → List Line
full_report os args r =
    stat_lines r.name r.of_target ++ lstat_lines os r.name r.of_link r.owner r.its_group

back :
    (os : Os) (args : List Bytes) (r : IsReported os args)
    → main os args ≡ returns 0 (full_report os args r)
unfolding main
back os args r =
    ap (main os) r.args_is
    ∙ ap (with_stat os r.name) r.stat_is
    ∙ ap (with_lstat os r.name (stat_lines r.name r.of_target)) r.lstat_is
    ∙ λ i.
        with_names os r.name (stat_lines r.name r.of_target) r.of_link (r.owner_is i) (r.group_is i)

-- The program ends with status 0 exactly for one argument that both `stat` and `lstat` know, and
-- whose user and group have names.
pub main_iff :
    (os : Os) (args : List Bytes)
    → ((lines : List Line) × (main os args ≡ returns 0 lines)) ↔ IsReported os args
main_iff os args = (λ r. forth os args r.0 r.1, λ r. (full_report os args r, back os args r))

mode_line-link : (m : ℕ) → is_type m s_iflnk ≡ true → mode_line m ≡ symbolic_link
unfolding mode_line
mode_line-link m h = ground arith

print_name-link :
    (os : Os) (st : Stat) (name text : Bytes)
    → is_type st.st_mode s_iflnk ≡ true
    → st.st_size ≡ length text
    → os.malloc (length text + 1) ≡ true
    → os.readlink name (length text) ≡ some text
    → All (λ c. c ≢ 0) text
    → print_name os st name ≡ linked name (some text)
unfolding print_name
print_name-link os st name text kind len room read string =
    rw (kind, len, room, read, c_string-append text [] string) refl

-- For the name of a symbolic link to a file that is there, whose size is the length of the text in the
-- link, if there is memory for that and the user and the group have names: the report ends
-- with status 0, says that it is a symbolic link, and has the whole text of the link in its last line.
pub main-linked :
    (os : Os) (name text owner its_group : Bytes) (st ls : Stat)
    → os.stat name ≡ some st
    → os.lstat name ≡ some ls
    → is_type ls.st_mode s_iflnk ≡ true
    → ls.st_size ≡ length text
    → os.malloc (length text + 1) ≡ true
    → os.readlink name (length text) ≡ some text
    → All (λ c. c ≢ 0) text
    → os.getpwuid ls.st_uid ≡ some owner
    → os.getgrgid ls.st_gid ≡ some its_group
    → main os (name ∷ [])
      ≡ returns 0 (
          stat_lines name st
          ++ lstat_info
            ∷ device ls.st_dev
            ∷ mode symbolic_link
            ∷ (access_lines os ls owner its_group ++ named (linked name (some text)) ∷ []))
main-linked os name text owner its_group st ls at lat kind len room read string u g =
    let r : IsReported os (name ∷ []) = record {
      name = name;
      args_is = refl;
      of_target = st;
      of_link = ls;
      owner = owner;
      its_group = its_group;
      stat_is = at;
      lstat_is = lat;
      owner_is = u;
      group_is = g;
    } in
    back os (name ∷ []) r ∙ λ i. returns 0 (
      stat_lines name st
      ++ lstat_info
        ∷ device ls.st_dev
        ∷ mode (mode_line-link ls.st_mode kind i)
        ∷ (access_lines os ls owner its_group
            ++ named (print_name-link os ls name text kind len room read string i) ∷ []))
