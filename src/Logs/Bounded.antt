-- ===== src/Logs/Bounded.antt =====
-- bounded-log.ts: the recent logs, the events that are cut to fit, and the tail of a file.
-- A message is a list of UTF-16 units, and a file its list of bytes, which does not change while it is
-- read. The bytes of a serialized event, and UTF-8 as `Buffer` writes and reads it, are parameters.
use datasheet_to_tscircuit.Prelude.{
  ℕ, zero, suc, ◌+◌, ◌-◌, ◌/◌, max, Option, none, some, List, [], ◌∷◌, ◌++◌, if◌then◌else◌, ◌==◌,
  ltb, leb, length, drop, get_or,
}

abbrev pub recent_log_event_limit : ℕ
recent_log_event_limit = 500

abbrev pub persisted_log_file_byte_limit : ℕ
persisted_log_file_byte_limit = 2097152

abbrev pub persisted_log_event_byte_limit : ℕ
persisted_log_event_byte_limit = 262144

-- `items.slice(-n)` for an `n` that is not 0, and nothing for 0.
abbrev pub last {ℓ} : {A : Type ℓ} → ℕ → List A → List A
last n xs = drop (length xs - n) xs

unfoldable pub cap_recent_logs {ℓ} : {A : Type ℓ} → List A → List A
cap_recent_logs logs = last recent_log_event_limit logs

-- `event_bytes` is `byteLength(serializeLog({ ...log, message }))`.
-- The marker, and the end of the message.
abbrev pub candidate : {A : Type 0} → (marker message : List A) → ℕ → List A
candidate marker message retained_characters = marker ++ last retained_characters message

module _ {A : Type 0} (event_bytes : List A → ℕ) (marker : List A) where
  -- The binary search, where `limit` is `maximum + 1`; `none` is a loop that is out of fuel.
  unfoldable pub search_retained :
      ℕ → List A → (minimum limit : ℕ) → (retained : List A) → Option (List A)
  search_retained zero message minimum limit retained = none
  search_retained (suc fuel) message minimum limit retained =
      let middle = (minimum + limit - 1) / 2 in
      let fits =
        leb (event_bytes (candidate marker message middle)) persisted_log_event_byte_limit in
      let rest =
        search_retained fuel message (if fits then suc middle else minimum)
          (if fits then limit else middle)
          (if fits then candidate marker message middle else retained) in
      if ltb minimum limit then rest else some retained

  -- The message of `prepareBoundedLogEvent`; a round leaves fewer lengths to try.
  unfoldable pub prepare_bounded_log_event : (message : List A) → List A
  unfolding search_retained
  prepare_bounded_log_event message =
      if leb (event_bytes message) persisted_log_event_byte_limit
      then message
      else elim (search_retained (suc (suc (length message))) message 0 (suc (length message))
          marker) [ none ↦ message | some retained ↦ retained ]

abbrev pub newline : ℕ
newline = 10

-- What stands behind the first newline.
unfoldable pub after_newline : List ℕ → List ℕ
after_newline [] = []
after_newline (byte ∷ bytes) =
    let rest = after_newline bytes in if byte == newline then bytes else rest

-- The tail of a file that begins at `content_start`, from the start of a line.
unfoldable pub cut_tail : (content_start : ℕ) → List ℕ → List ℕ
unfolding after_newline
cut_tail zero bytes = bytes
cut_tail (suc before) bytes =
    let tail = drop (suc before) bytes in
    if get_or bytes before 0 == newline then tail else after_newline tail

-- The file of a log and its archive.
pub record LogFiles : Type 0 where
  pub current : List ℕ
  pub archive : List ℕ

-- UTF-8 of the texts `T`: `Buffer.from(text, "utf8")` and `bytes.toString("utf8")`, which puts U+FFFD
-- where the bytes are not valid.
pub record Utf8 (T : Type 0) : Type 0 where
  pub encode : T → List ℕ
  pub decode : List ℕ → T

module _ {T : Type 0} (utf8 : Utf8 T) where
  unfoldable pub read_bounded_utf8_tail : List ℕ → (max_bytes : ℕ) → T
  unfolding cut_tail
  read_bounded_utf8_tail bytes max_bytes =
      utf8.decode (cut_tail (length bytes - max 1 max_bytes) bytes)

  -- The text that is read is written to the archive.
  unfoldable pub rotate_current_log : LogFiles → LogFiles
  unfolding read_bounded_utf8_tail
  rotate_current_log files = record {
    current = [];
    archive = utf8.encode (read_bounded_utf8_tail files.current persisted_log_file_byte_limit);
  }

  -- The files when a line of the current one fits.
  unfoldable pub make_room : (line : List ℕ) → LogFiles → LogFiles
  unfolding rotate_current_log
  make_room line files =
      if ltb persisted_log_file_byte_limit (length files.current + length line)
      then rotate_current_log files
      else files

  -- The serialized event is written as UTF-8; `none` is an event that is refused.
  unfoldable pub append_bounded_log_event_now : (serialized : T) → LogFiles → Option LogFiles
  unfolding make_room
  append_bounded_log_event_now serialized files =
      let line = utf8.encode serialized in
      if ltb persisted_log_event_byte_limit (length line)
      then none
      else some (record {
        current = (make_room line files).current ++ line;
        archive = (make_room line files).archive;
      })
