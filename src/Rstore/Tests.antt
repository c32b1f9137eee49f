-- ===== src/Rstore/Tests.antt =====
-- Runs of the record store and instances of its theorems.
use toob_loader.Common.{ℕ, ◌≡◌, refl, List, [], ◌∷◌, some, arith, inr}
use toob_loader.Rstore.{Desc, Copy, parse_slot, slot_bytes}
use toob_loader.Rstore.RoundTrip.{parse_slot-slot_bytes}
use toob_loader.Rstore.Torn.{resolve-two}
use toob_loader.Rstore.Vote.{Resolves}

abbrev small_desc : Desc
small_desc = record { slots = []; record_size = 4; record_magic = 0x4B444D31 }

abbrev small_record : List ℕ
small_record = 1 ∷ (2 ∷ (3 ∷ (255 ∷ [])))

abbrev copy : ℕ → Copy
copy seq = record { copy_seq = seq; copy_erases = 9; content = small_record }

abbrev stale : Copy
stale = record { copy_seq = 7; copy_erases = 9; content = 0 ∷ (2 ∷ (3 ∷ (255 ∷ []))) }

parse_slot-slot_bytes_example :
    parse_slot small_desc (slot_bytes small_desc 5 9 small_record) ≡ some (copy 5)
parse_slot-slot_bytes_example =
    parse_slot-slot_bytes small_desc 5 9 small_record (omega arith) (omega arith) (omega arith) refl
      (omega arith)

resolve-two_example : Resolves (some stale ∷ (some (copy 5) ∷ (some (copy 6) ∷ []))) small_record
resolve-two_example =
    resolve-two (some stale) (some (copy 5)) (some (copy 6)) small_record
      (inr (inr ((copy 5, refl, refl), (copy 6, refl, refl))))
