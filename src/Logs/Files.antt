-- ===== src/Logs/Files.antt =====
-- The bounds of the files of a log, and what they keep.
use datasheet_to_tscircuit.Prelude.{
  ℕ, Bool, ◌+◌, ◌≤◌, ◌<◌, none, List, [], ◌++◌, if◌then◌else◌, ltb, length, drop, length-append,
  append_nil, append_assoc, some, ◌≡◌, ◌⊎◌, inl, inr, refl, sym, ◌∙◌, ap, subst, arith, Bool-cases,
}
use datasheet_to_tscircuit.Logs.Tails.{read_bounded_utf8_tail-IsTailAt}
use datasheet_to_tscircuit.Logs.Bounded.{
  persisted_log_file_byte_limit, persisted_log_event_byte_limit, Utf8, LogFiles, rotate_current_log,
  make_room, append_bounded_log_event_now,
}

module _ {T : Type 0} (utf8 : Utf8 T) where
  -- Bytes that are valid UTF-8: they are what is written of the text that is read of them.
  abbrev pub IsValidUtf8 : List ℕ → Type 0
  IsValidUtf8 bytes = utf8.encode (utf8.decode bytes) ≡ bytes

  -- What the code relies on: what is written of a text is valid, as are no bytes, and valid bytes behind
  -- valid bytes.
  pub record Utf8Laws : Type 0 where
    pub valid_text : (text : T) → IsValidUtf8 (utf8.encode text)
    pub valid_nil : IsValidUtf8 []
    pub valid_append : (xs ys : List ℕ) → IsValidUtf8 xs → IsValidUtf8 ys → IsValidUtf8 (xs ++ ys)

  -- The two files are within their bounds and valid.
  pub record IsBounded (files : LogFiles) : Type 0 where
    pub current_bound : length files.current ≤ persisted_log_file_byte_limit
    pub archive_bound : length files.archive ≤ persisted_log_file_byte_limit
    pub current_valid : IsValidUtf8 files.current
    pub archive_valid : IsValidUtf8 files.archive

  -- The files with room for a line, which end with what the current file was.
  record HasRoom (line : List ℕ) (files left : LogFiles) : Type 0 where
    bounded : IsBounded left
    current_room : length left.current + length line ≤ persisted_log_file_byte_limit
    before : List ℕ
    kept : left.archive ++ left.current ≡ before ++ files.current

  -- A file within the bound is read, and archived, as a whole.
  archived_whole :
      (files : LogFiles) → IsBounded files → (rotate_current_log utf8 files).archive ≡ files.current
  unfolding rotate_current_log
  archived_whole files bounded =
      let (k, read, at) =
        read_bounded_utf8_tail-IsTailAt utf8 files.current persisted_log_file_byte_limit in
      let start : k ≡ 0 = omega (arith, at.least 0 tt (omega (arith, bounded.current_bound))) in
      ap utf8.encode (read ∙ ap (λ m. utf8.decode (drop m files.current)) start)
      ∙ bounded.current_valid

  make_room-HasRoom :
      (line : List ℕ) (files : LogFiles)
      → Utf8Laws
      → IsBounded files
      → length line ≤ persisted_log_event_byte_limit
      → HasRoom line files (make_room utf8 line files)
  unfolding make_room rotate_current_log
  make_room-HasRoom line files laws bounded short =
      let limit = persisted_log_file_byte_limit in
      let chosen =
        λ (b : Bool). HasRoom line files (if b then rotate_current_log utf8 files else files) in
      elim (Bool-cases (ltb limit (length files.current + length line))) [
        | inl full ↦
            let whole = archived_whole files bounded in
            subst chosen (sym full) (record {
              bounded = record {
                current_bound = omega arith;
                archive_bound = subst (λ l. length l ≤ limit) (sym whole) bounded.current_bound;
                current_valid = laws.valid_nil;
                archive_valid = subst IsValidUtf8 (sym whole) bounded.current_valid;
              };
              current_room = omega (arith, short);
              before = [];
              kept = append_nil _ ∙ whole;
            })
        | inr room ↦ subst chosen (sym room) (record {
          bounded = bounded;
          current_room = ground (arith, room);
          before = files.archive;
          kept = refl;
        })
      ]

  -- If the two files are within their bounds and valid UTF-8, then an event is refused exactly if it is
  -- written in more bytes than an event may have; and if it is not, then the files are afterwards within
  -- their bounds and valid UTF-8, and the archive and the current file end with the bytes that were in
  -- the current file and the event.
  pub append_bounded_log_event_now-IsBounded :
      (serialized : T) (files : LogFiles)
      → Utf8Laws
      → IsBounded files
      → let line = utf8.encode serialized in
        ((append_bounded_log_event_now utf8 serialized files ≡ none)
          × (persisted_log_event_byte_limit < length line))
        ⊎ ((length line ≤ persisted_log_event_byte_limit)
            × ((after : LogFiles) × (append_bounded_log_event_now utf8 serialized files
                  ≡ some after)
                × IsBounded after
                × ((before : List ℕ) × (after.archive ++ after.current
                      ≡ before ++ (files.current ++ line)))))
  unfolding append_bounded_log_event_now
  append_bounded_log_event_now-IsBounded serialized files laws bounded =
      let line = utf8.encode serialized in
      elim (Bool-cases (ltb persisted_log_event_byte_limit (length line))) [
        | inl long ↦ inl (rw (long, append_bounded_log_event_now) refl, ground (arith, long))
        | inr short ↦
            let fits : length line ≤ persisted_log_event_byte_limit = ground (arith, short) in
            let left = make_room utf8 line files in
            let room = make_room-HasRoom line files laws bounded fits in
            inr (
              fits,
              (
                record { current = left.current ++ line; archive = left.archive },
                rw (short, append_bounded_log_event_now) refl,
                record {
                  current_bound = omega (arith, length-append left.current line, room.current_room);
                  archive_bound = room.bounded.archive_bound;
                  current_valid =
                      laws.valid_append left.current line room.bounded.current_valid
                        (laws.valid_text serialized);
                  archive_valid = room.bounded.archive_valid;
                },
                (
                  room.before,
                  sym (append_assoc left.archive left.current line)
                      ∙ ap (λ l. l ++ line) room.kept
                      ∙ append_assoc room.before files.current line,
                ),
              ),
            )
      ]
