-- ===== src/Logs/Fitting.antt =====
-- An event that is cut fits, and keeps as much of its message as does.
use datasheet_to_tscircuit.Prelude.{ℕ, suc, ◌≤◌, ◌<◌, List, length, ◌≡◌}
use datasheet_to_tscircuit.Logs.Bounded.{persisted_log_event_byte_limit, candidate}

module _ {A : Type 0} (event_bytes : List A → ℕ) (marker : List A) (message : List A) where
  abbrev bytes_at : ℕ → ℕ
  bytes_at k = event_bytes (candidate marker message k)

  -- A longer end of the message has no fewer bytes.
  abbrev pub IsMonotone : Type 0
  IsMonotone = (j k : ℕ) → j ≤ k → bytes_at j ≤ bytes_at k

  -- What is known of a search between two lengths.
  record IsBest (minimum limit : ℕ) (retained : List A) : Type 0 where
    kept : ℕ
    form : retained ≡ candidate marker message kept
    short : kept ≤ length message
    fits : bytes_at kept ≤ persisted_log_event_byte_limit
    last_fit : minimum ≤ suc kept
    too_long :
        IsMonotone
        → (k : ℕ) → limit ≤ k
        → k ≤ length message
        → persisted_log_event_byte_limit < bytes_at k
    ordered : minimum ≤ limit
    inside : limit ≤ suc (length message)

  -- A message that is returned: the marker and an end of the message, which fits, and no longer end
  -- does, if longer ends have no fewer bytes.
  pub record IsCut (retained : List A) : Type 0 where
    pub kept : ℕ
    pub form : retained ≡ candidate marker message kept
    pub short : kept ≤ length message
    pub fits : event_bytes retained ≤ persisted_log_event_byte_limit
    pub longest :
        IsMonotone
        → (k : ℕ) → kept < k
        → k ≤ length message
        → persisted_log_event_byte_limit < bytes_at k
