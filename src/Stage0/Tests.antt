-- ===== src/Stage0/Tests.antt =====
-- Instances of the theorems on the boot pointer, on a log of two sectors.
use toob_loader.Common.{arith, All, none}
use toob_loader.Crc32.{compute}
use toob_loader.Journal.Wire.{header_bytes, verify_header_crc}
use toob_loader.Journal.Samples.{memory, two, blank_log, no_crypto}
use toob_loader.Journal.Init.{newest_from}
use toob_loader.Stage0.{no_pointer, scan_wal_highest, valid_header}
use toob_loader.Stage0.Highest.{scan_wal_highest-highest, ComesFrom, NotAbove}
use toob_loader.Stage0.Agrees.{scan_wal_highest-newest, SameHeader, InRange}

scan_wal_highest-highest_example :
    let p = scan_wal_highest memory blank_log two no_pointer in
    ComesFrom memory blank_log two no_pointer p
    × All (λ sec. NotAbove (valid_header memory blank_log sec) p.highest_seq) two
scan_wal_highest-highest_example = scan_wal_highest-highest memory blank_log two

in_range : All (λ sec. InRange (valid_header memory blank_log sec)) two
unfolding valid_header verify_header_crc header_bytes compute
in_range = omega arith

scan_wal_highest-newest_example :
    SameHeader
      (newest_from memory two no_crypto 0 blank_log two 0 none)
      (scan_wal_highest memory blank_log two no_pointer)
scan_wal_highest-newest_example =
    scan_wal_highest-newest memory two no_crypto 0 blank_log two in_range
