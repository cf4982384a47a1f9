-- ===== src/Examples/Files.antt =====
-- Hashing and chunk reads of lib/protocol.rs through short reads.
use udpcp.Base.{◌≡◌, refl, [], ◌∷◌, bytes_eq}
use udpcp.Io.{World}
use udpcp.Io.FileOps.{File, contents}
use udpcp.Protocol.Hashing.{file_hash, read_chunk}
use udpcp.Protocol.Hashing.Laws.{HashCases, file_hash-cases, ChunkCases, read_chunk-cases}
use udpcp.Examples.Toy.{toy_sha, world, one_file}

abbrev disk : World
disk = world (one_file (b'f' ∷ []) (1 ∷ 2 ∷ 3 ∷ [])) []

abbrev handle : File
handle = record { path = b'f' ∷ []; pos = 1 }

disk_content : contents (disk.files (b'f' ∷ [])) ≡ 1 ∷ 2 ∷ 3 ∷ []
unfolding contents bytes_eq
disk_content = refl

file_hash-cases_example :
    HashCases toy_sha (b'f' ∷ []) disk (1 ∷ 2 ∷ 3 ∷ []) (file_hash toy_sha handle disk)
file_hash-cases_example = file_hash-cases toy_sha handle disk (1 ∷ 2 ∷ 3 ∷ []) disk_content

read_chunk-cases_example : ChunkCases handle [] 5 disk (1 ∷ 2 ∷ 3 ∷ []) (read_chunk handle 5 disk)
read_chunk-cases_example = read_chunk-cases handle 5 disk (1 ∷ 2 ∷ 3 ∷ []) disk_content
