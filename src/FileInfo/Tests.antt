-- ===== src/FileInfo/Tests.antt =====
-- Modes of files.
use unix_study.Prelude.{[], ◌∷◌, ◌++◌, some, none, codes, true, refl, arith, ◌≡◌, ◌≢◌, ◌↔◌}
use unix_study.FileInfo.{
  symbolic_link, directory, character_special, mode_line, print_mode, type_letter,
}
use unix_study.FileInfo.Report.{
  Os, Stat, main, main-linked, returns, stat_lines, access_lines, lstat_info, device, mode, named,
  linked,
}
use unix_study.FileInfo.Letters.{type_letter_iff, print_mode-read_mode, ls_letter, read_mode}

print_mode-read_mode_example :
    read_mode (print_mode 0x81ed) ≡ record { bits = 0x1ed; user_id = 0; group_id = 0; sticky = 0 }
print_mode-read_mode_example = print_mode-read_mode 0x81ed

type_letter_iff_example :
    ((type_letter 0x41ed ≡ ls_letter (mode_line 0x41ed))
      ↔ ((mode_line 0x41ed ≢ character_special) × (mode_line 0x41ed ≢ directory)))
    × (mode_line 0x41ed ≡ character_special → type_letter 0x41ed ≡ ls_letter directory)
    × (mode_line 0x41ed ≡ directory → type_letter 0x41ed ≡ b'?')
type_letter_iff_example = type_letter_iff 0x41ed

-- A symbolic link to "ab", and a system in which every name is that link.
abbrev a_link : Stat
a_link = record {
  st_dev = 1;
  st_ino = 2;
  st_mode = 0xa1ff;
  st_nlink = 1;
  st_uid = 0;
  st_gid = 0;
  st_size = 2;
  st_blksize = 4096;
  st_blocks = 0;
}

abbrev system : Os
system = record {
  stat = λ _. some (record a_link { st_mode = 0x81ed });
  lstat = λ _. some a_link;
  readlink = λ _ n. some (codes "ab");
  malloc = λ _. true;
  getpwuid = λ _. some (codes "root");
  getgrgid = λ _. some (codes "wheel");
  getcwd = none;
}

main-linked_example :
    main system (codes "l" ∷ [])
    ≡ returns 0 (
        stat_lines (codes "l") (record a_link { st_mode = 0x81ed })
        ++ lstat_info
          ∷ device 1
          ∷ mode symbolic_link
          ∷ (access_lines system a_link (codes "root") (codes "wheel")
              ++ named (linked (codes "l") (some (codes "ab"))) ∷ []))
main-linked_example =
    main-linked system (codes "l") (codes "ab") (codes "root") (codes "wheel")
      (record a_link { st_mode = 0x81ed }) a_link refl refl refl refl refl refl
      (ground arith, (ground arith, tt)) refl refl
