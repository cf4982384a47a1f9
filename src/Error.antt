-- ===== src/Error.antt =====
-- The errors that the library raises: `io::Error` by its kind and its message, and the `String`
-- errors of `parse_init` and `ReceiveState::new` (lib/recv.rs) by their format and its arguments.
use udpcp.Base.{ℕ, List, Bool, true, false}

-- `io::ErrorKind`, as far as the program tells kinds apart.
pub data ErrorKind : Type 0 where
  timed_out would_block interrupted invalid_input invalid_data other : ErrorKind

-- What the message says. `os` stands for the operating system's own messages.
pub data Reason : Type 0 where
  os : ℕ → Reason
  idle_timeout hash_mismatch handshake_timeout unresolved : Reason
  bad_chunk_size : ℕ → Reason
  file_too_large : ℕ → ℕ → Reason
  gave_up : ℕ → Reason

pub record IoError : Type 0 where
  pub kind : ErrorKind
  pub reason : Reason

-- Why an INIT is refused.
pub data InitError : Type 0 where
  too_short : ℕ → InitError
  version_mismatch : ℕ → InitError
  chunk_size_range : ℕ → InitError
  transfer_too_large : ℕ → ℕ → InitError
  invalid_utf8 invalid_filename control_characters : InitError
  create_failed set_len_failed : List ℕ → IoError → InitError

pub data Result {ℓ κ} (A : Type ℓ) (E : Type κ) : Type (ℓ ⊔ κ) where
  ok : A → Result A E
  err : E → Result A E

-- `is_timeout` of lib/protocol.rs.
unfoldable pub is_timeout : IoError → Bool
is_timeout e = elim e.kind [ timed_out ↦ true | would_block ↦ true | _ ↦ false ]

unfoldable pub is_interrupted : IoError → Bool
is_interrupted e = elim e.kind [ interrupted ↦ true | _ ↦ false ]

unfoldable pub is_would_block : IoError → Bool
is_would_block e = elim e.kind [ would_block ↦ true | _ ↦ false ]
