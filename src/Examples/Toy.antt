-- ===== src/Examples/Toy.antt =====
-- A stand-in for SHA-256 that has its interface's laws, and small worlds.
use udpcp.Base.{
  ℕ, ◌≡◌, refl, ap, List, [], ◌∷◌, ◌++◌, none, some, false, length, take, replicate, length-take,
  length-append, arith, bytes_eq, if◌then◌else◌,
}
use udpcp.Report.{SocketAddr, v4}
use udpcp.Io.{World, Arrival}
use udpcp.Io.Disk.{FilePath, Files}
use udpcp.Protocol.Hashing.{Sha256}

-- The first 32 bytes, filled up with zeros.
abbrev pub first_bytes : List ℕ → List ℕ
first_bytes bs = take 32 (bs ++ replicate 32 0)

pub length-first_bytes : (bs : List ℕ) → length (first_bytes bs) ≡ 32
length-first_bytes bs =
    omega (arith, length-take 32 (bs ++ replicate 32 0), length-append bs (replicate 32 0))

abbrev pub toy_sha : Sha256
toy_sha = record {
  Hasher = List ℕ;
  new = [];
  update = λ h bs. h ++ bs;
  finalize = first_bytes;
  digest = first_bytes;
  Fed = λ h bs. h ≡ bs;
  fed_new = refl;
  fed_update = λ h bs more e. ap (λ (x : List ℕ). x ++ more) e;
  fed_finalize = λ h bs e. ap first_bytes e;
  length-digest = length-first_bytes;
}

abbrev pub peer : SocketAddr
peer = v4 1 9000

abbrev pub no_files : Files
no_files p = none

abbrev pub one_file : FilePath → List ℕ → Files
one_file p c q = if bytes_eq p q then some c else none

-- A world with the given files and arrivals in which nothing fails and reads are one byte long.
abbrev pub world : Files → List (ℕ × Arrival) → World
world files inbox = record {
  clock = 0;
  ticks = [];
  inbox = inbox;
  faults = [];
  reads = 0 ∷ 0 ∷ [];
  files = files;
  read_timeout = none;
  instant_end = 9_223_372_036_854_775_808_000_000_000;
  nonblocking = false;
  local_addr = v4 0 9000;
  sent = [];
  events = [];
}
