-- ===== src/Examples/Inits.antt =====
-- An INIT payload, and names that it may carry.
use udpcp.Base.{
  ℕ, ◌≡◌, refl, List, [], ◌∷◌, ◌++◌, none, replicate, from_be_bytes, div_ceil, All, arith, IsByte,
}
use udpcp.Error.{ok}
use udpcp.Protocol.{version2, validate_chunk_size, verifies, version_of}
use udpcp.Recv.Utf8.{from_utf8, any_control, is_control}
use udpcp.Recv.Paths.{file_name}
use udpcp.Recv.Init.{InitHeader, parse_init, choose_path, until_nul, bounded_header}
use udpcp.Recv.Init.Accepts.{Accepted, parse_init-Accepted}
use udpcp.Recv.Init.Names.{IsSafeName, choose_path-IsSafeName}

-- Three bytes in chunks of two, named `a/f`.
abbrev pub payload : List ℕ
payload =
    2
    ∷ 0
    ∷ 0
    ∷ 0
    ∷ 0
    ∷ 0
    ∷ 0
    ∷ 0
    ∷ 3
    ∷ 0
    ∷ 0
    ∷ 0
    ∷ 2
    ∷ (replicate {A = ℕ} 32 7 ++ b'a' ∷ b'/' ∷ b'f' ∷ 0 ∷ [])

abbrev pub accepted : InitHeader
accepted = record {
  version = version2;
  size = 3;
  chunk_size = 2;
  total = 2;
  hash = replicate {A = ℕ} 32 7;
  final_path = b'f' ∷ [];
}

name_chosen : choose_path (b'a' ∷ b'/' ∷ b'f' ∷ 0 ∷ []) none ≡ ok (b'f' ∷ [])
unfolding choose_path from_utf8 file_name any_control is_control until_nul
name_chosen = refl

pub payload_parses : parse_init payload none ≡ ok accepted
unfolding parse_init from_be_bytes div_ceil bounded_header validate_chunk_size verifies version_of
    choose_path from_utf8 file_name any_control is_control until_nul
payload_parses = refl

pub payload_bytes : All IsByte payload
payload_bytes = omega arith

parse_init-Accepted_example : Accepted payload none accepted
parse_init-Accepted_example = parse_init-Accepted payload none accepted payload_bytes payload_parses

choose_path-IsSafeName_example : IsSafeName (b'f' ∷ [])
choose_path-IsSafeName_example =
    choose_path-IsSafeName (b'a' ∷ b'/' ∷ b'f' ∷ 0 ∷ []) (b'f' ∷ []) name_chosen
