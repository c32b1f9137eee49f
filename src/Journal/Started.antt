-- ===== src/Journal/Started.antt =====
-- What `boot_journal_init` brings up: the payload that two of the three newest sectors hold.
use toob_loader.Common.{ℕ, suc, ◌+◌, ◌-◌, ◌%◌, ◌^◌, ◌≤◌, ◌≡◌, refl, ap, ◌∙◌, ◌⊎◌, inl, inr}
use toob_loader.Common.{Bool, true, false, ◌||◌, Bool-cases, arith}
use toob_loader.Common.{ltb, List, [], ◌∷◌, length, get_or}
use toob_loader.Common.{Option, none, some}
use toob_loader.Status.{ok_status, Result}
use toob_loader.Hal.{FlashHal, CryptoHal}
use toob_loader.Journal.Wire.{magic_current, sector_magic_of, sequence_id_of, erase_count_of}
use toob_loader.Journal.{
  Journal, Sector, no_sector, is_newer_sequence, majority_vote_idx, read_header,
}
use toob_loader.Journal.{find_sector_by_seq, scan_for_frontier}
use toob_loader.Journal.UpdateTmr.{update_tmr, has_legacy_magic}
use toob_loader.Journal.Migrate.{tmr_version, struct_version_of}
use toob_loader.Journal.Vote.{same_bytes_refl, majority_vote_idx-agree}
use toob_loader.Journal.Init.{
  returned, is_layout_ok, candidate, load_newest, newer_header, newest_from,
}
use toob_loader.Journal.Init.{older_candidates, voted_tmr, with_key, start_log, start_from, init}

newer_header-picked :
    (i : ℕ) (o : Option (List ℕ)) (best : Option (ℕ × List ℕ)) (idx : ℕ) (bs : List ℕ)
    → newer_header i o best ≡ some (idx, bs)
    → (best ≡ some (idx, bs)) ⊎ ((o ≡ some bs) × (i ≡ idx))
unfolding newer_header
newer_header-picked i none best idx bs e = inl e
newer_header-picked i (some b) none idx bs e = inr (ground arith, ground arith)
newer_header-picked i (some b) (some (k, old)) idx bs e =
    elim (Bool-cases (is_newer_sequence (sequence_id_of b) (sequence_id_of old))) [
      | inl n ↦ let e' = rw n at e in inr (ground arith, ground arith)
      | inr n ↦ inl (rw n at e)
    ]

module _ {S : Type 0} (hal : FlashHal S) (sectors : List Sector) (crypto : CryptoHal)
    (svn : ℕ) where
  -- The newest header is the one of its sector.
  newest_from-read :
      (s : S) (secs : List Sector) (i : ℕ) (best : Option (ℕ × List ℕ)) (idx : ℕ) (bs : List ℕ)
      → newest_from hal sectors crypto svn s secs i best ≡ some (idx, bs)
      → (best ≡ some (idx, bs))
        ⊎ ((k : ℕ) × (idx ≡ i + k)
            × (read_header hal sectors s (get_or secs k no_sector) ≡ some bs))
  unfolding newest_from
  newest_from-read s [] i best idx bs e = inl e
  newest_from-read s (sec ∷ secs) i best idx bs e =
      elim (newest_from-read s secs (i + 1) (newer_header i (read_header hal sectors s sec) best)
        idx bs e) [
          | inl e' ↦ elim (newer_header-picked i (read_header hal sectors s sec) best idx bs e') [
            | inl b ↦ inl b
            | inr (r, ei) ↦ inr (0, omega arith, r)
          ]
          | inr (k, ek, r) ↦ inr (suc k, omega arith, r)
        ]

  -- A payload that the log already holds is not written again.
  update_tmr-same :
      (first second : Result ℕ) (j : Journal) (s : S)
      → j.initialized ≡ true
      → has_legacy_magic (read_header hal sectors s (get_or sectors j.active_index no_sector))
        ≡ false
      → update_tmr hal sectors crypto.hash first second j s j.tmr ≡ (ok_status, j, s)
  unfolding update_tmr
  update_tmr-same first second j s ready current =
      rw (update_tmr, ready, current, same_bytes_refl j.tmr) refl

  older_candidates-two :
      (s : S) (seq erases : ℕ) (i1 i2 : ℕ) (b1 b2 : List ℕ)
      → (ltb 2 seq || ltb (length sectors) erases) ≡ true
      → find_sector_by_seq hal sectors s ((seq + 2 ^ 32 - 1) % 2 ^ 32) ≡ some (i1, b1)
      → find_sector_by_seq hal sectors s ((seq + 2 ^ 32 - 2) % 2 ^ 32) ≡ some (i2, b2)
      → older_candidates hal sectors crypto svn s seq erases (1 ∷ (2 ∷ []))
        ≡ candidate svn b1 ∷ (candidate svn b2 ∷ [])
  unfolding older_candidates
  older_candidates-two s seq erases i1 i2 b1 b2 used f1 f2 = ground arith

  -- A log that starts on a header of the current format is not written to, whether or not its payload
  -- was upgraded.
  start_log-current :
      (first second : Result ℕ) (j : Journal) (s : S) (migrated : Bool)
      → has_legacy_magic (read_header hal sectors s (get_or sectors j.active_index no_sector))
        ≡ false
      → start_log hal sectors crypto svn first second j s migrated ≡ (
        ok_status,
        with_key hal sectors crypto svn (record j {
          write_offset = scan_for_frontier hal sectors s (get_or sectors j.active_index no_sector);
          initialized = true;
        }),
        s,
      )
  unfolding start_log
  start_log-current first second j s false current = refl
  start_log-current first second j s true current =
      let j1 : Journal = record j {
        write_offset = scan_for_frontier hal sectors s (get_or sectors j.active_index no_sector);
        initialized = true;
      } in
      rw (update_tmr-same first second j1 s refl current) refl

  init-start_from :
      (first second : Result ℕ) (j : Journal) (s : S) (idx : ℕ) (bs : List ℕ)
      → 4 ≤ length sectors
      → length sectors ≤ 8
      → is_layout_ok sectors ≡ true
      → newest_from hal sectors crypto svn s sectors 0 none ≡ some (idx, bs)
      → init hal sectors crypto svn first second j s
        ≡ start_from hal sectors crypto svn first second j s idx bs
  unfolding init
  init-start_from first second j s idx bs many few layout newest = ground arith

  start_from-returned :
      (first second : Result ℕ) (j : Journal) (s : S) (idx : ℕ) (bs : List ℕ)
      → struct_version_of (load_newest svn bs).0 ≤ tmr_version
      → start_from hal sectors crypto svn first second j s idx bs
        ≡ returned (
            start_log hal sectors crypto svn first second
              (record j {
                active_index = idx;
                sequence_id = sequence_id_of bs;
                erase_count = erase_count_of bs;
                tmr = voted_tmr hal sectors crypto svn s bs (load_newest svn bs).0;
              })
              s
              (load_newest svn bs).1)
  unfolding start_from
  start_from-returned first second j s idx bs version = ground arith

  voted_tmr-two :
      (s : S) (bs loaded : List ℕ) (i1 i2 : ℕ) (b1 b2 x : List ℕ)
      → (ltb 2 (sequence_id_of bs) || ltb (length sectors) (erase_count_of bs)) ≡ true
      → find_sector_by_seq hal sectors s ((sequence_id_of bs + 2 ^ 32 - 1) % 2 ^ 32) ≡ some (i1, b1)
      → find_sector_by_seq hal sectors s ((sequence_id_of bs + 2 ^ 32 - 2) % 2 ^ 32) ≡ some (i2, b2)
      → ((loaded ≡ x) × (candidate svn b1 ≡ x))
        ⊎ (((loaded ≡ x) × (candidate svn b2 ≡ x))
            ⊎ ((candidate svn b1 ≡ x) × (candidate svn b2 ≡ x)))
      → voted_tmr hal sectors crypto svn s bs loaded ≡ x
  unfolding voted_tmr
  voted_tmr-two s bs loaded i1 i2 b1 b2 x used f1 f2 two =
      ap
        (λ (older : List (List ℕ)). get_or (loaded ∷ older) (majority_vote_idx (loaded ∷ older)) [])
        (older_candidates-two s (sequence_id_of bs) (erase_count_of bs) i1 i2 b1 b2 used f1 f2)
      ∙ majority_vote_idx-agree loaded (candidate svn b1) (candidate svn b2) x two

  -- The sector of a newest header of the current format is no legacy sector.
  newest-current :
      (s : S) (idx : ℕ) (bs : List ℕ)
      → newest_from hal sectors crypto svn s sectors 0 none ≡ some (idx, bs)
      → sector_magic_of bs ≡ magic_current
      → has_legacy_magic (read_header hal sectors s (get_or sectors idx no_sector)) ≡ false
  unfolding has_legacy_magic
  newest-current s idx bs newest current = elim (newest_from-read s sectors 0 none idx bs newest) [
    | inl e ↦ absurd (cc e)
    | inr (k, ek, r) ↦
        let e : idx ≡ k = omega arith in
        rw (ap (λ n. read_header hal sectors s (get_or sectors n no_sector)) e ∙ r, current) refl
  ]

  -- Started on a header of the current format of which two copies precede it, the log works on the
  -- payload that two of the three copies hold.
  pub init-voted :
      (first second : Result ℕ) (j : Journal) (s : S) (idx i1 i2 : ℕ) (bs b1 b2 x : List ℕ)
      → 4 ≤ length sectors
      → length sectors ≤ 8
      → is_layout_ok sectors ≡ true
      → newest_from hal sectors crypto svn s sectors 0 none ≡ some (idx, bs)
      → sector_magic_of bs ≡ magic_current
      → struct_version_of (load_newest svn bs).0 ≤ tmr_version
      → (ltb 2 (sequence_id_of bs) || ltb (length sectors) (erase_count_of bs)) ≡ true
      → find_sector_by_seq hal sectors s ((sequence_id_of bs + 2 ^ 32 - 1) % 2 ^ 32) ≡ some (i1, b1)
      → find_sector_by_seq hal sectors s ((sequence_id_of bs + 2 ^ 32 - 2) % 2 ^ 32) ≡ some (i2, b2)
      → (((load_newest svn bs).0 ≡ x) × (candidate svn b1 ≡ x))
        ⊎ ((((load_newest svn bs).0 ≡ x) × (candidate svn b2 ≡ x))
            ⊎ ((candidate svn b1 ≡ x) × (candidate svn b2 ≡ x)))
      → init hal sectors crypto svn first second j s
        ≡ returned (
          ok_status,
          with_key hal sectors crypto svn (record j {
            active_index = idx;
            sequence_id = sequence_id_of bs;
            erase_count = erase_count_of bs;
            tmr = x;
            write_offset = scan_for_frontier hal sectors s (get_or sectors idx no_sector);
            initialized = true;
          }),
          s,
        )
  init-voted first second j s idx i1 i2 bs b1 b2 x many few layout newest current version used f1 f2
        two =
      init-start_from first second j s idx bs many few layout newest
      ∙ start_from-returned first second j s idx bs version
      ∙ ap returned (
          start_log-current first second
            (record j {
              active_index = idx;
              sequence_id = sequence_id_of bs;
              erase_count = erase_count_of bs;
              tmr = voted_tmr hal sectors crypto svn s bs (load_newest svn bs).0;
            })
            s (load_newest svn bs).1 (newest-current s idx bs newest current))
      ∙ ap
          (λ (t : List ℕ). returned (
            ok_status,
            with_key hal sectors crypto svn (record j {
              active_index = idx;
              sequence_id = sequence_id_of bs;
              erase_count = erase_count_of bs;
              tmr = t;
              write_offset = scan_for_frontier hal sectors s (get_or sectors idx no_sector);
              initialized = true;
            }),
            s,
          ))
          (voted_tmr-two s bs (load_newest svn bs).0 i1 i2 b1 b2 x used f1 f2 two)
