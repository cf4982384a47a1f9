-- ===== src/Recv/State/Naming.antt =====
-- The temporary name of a file is not its final name.
use udpcp.Base.{
  ℕ, ◌≡◌, ◌≢◌, refl, sym, ◌∙◌, ap, List, ◌++◌, Option, none, some, All, arith, length,
  length-append,
}
use udpcp.Io.Disk.{FilePath}
use udpcp.Recv.Paths.{file_name}
use udpcp.Recv.Paths.Plain.{IsNoSlash, file_name-IsPlain}
use udpcp.Recv.Paths.Pushed.{suffix, file_name-with_file_name}
use udpcp.Recv.State.{tmp_path_of, or_empty}

no_slashes : (p : FilePath) (o : Option (List ℕ)) → file_name p ≡ o → All IsNoSlash (or_empty o)
unfolding or_empty
no_slashes p none e = tt
no_slashes p (some n) e = (file_name-IsPlain p n e).no_slash

file_name-tmp_path_of :
    (p : FilePath) → file_name (tmp_path_of p) ≡ some (or_empty (file_name p) ++ suffix)
unfolding tmp_path_of
file_name-tmp_path_of p =
    file_name-with_file_name (or_empty (file_name p)) (no_slashes p (file_name p) refl) p

longer : (n : List ℕ) → (n ++ suffix) ≢ n
longer n e = omega (arith, length-append n suffix, ap length e)

pub tmp_path_of_apart : (p : FilePath) → tmp_path_of p ≢ p
unfolding or_empty
tmp_path_of_apart p same =
    let named : file_name p ≡ some (or_empty (file_name p) ++ suffix) =
      sym (ap file_name same) ∙ file_name-tmp_path_of p in
    longer _ (sym (ap or_empty named))
