-- ===== src/Tests/Artifacts.antt =====
-- Bytes that are put, read and verified again (ledger/artifacts.py).
use Prim.Native.String.{count}
use lean_evolve.Prelude.{String, ◌≡◌, ◌↔◌, ◌≢◌, refl, true, none, some, [], ◌∷◌, ok, err}
use lean_evolve.Derive.Trust.{texts_differ}
use lean_evolve.Artifacts.Error.{corrupt}
use lean_evolve.Artifacts.Files.{
  Bytes, Codec, Files, StoredArtifact, file_at, path_for, shard, stored_as, put_bytes, put_file,
  read, verify,
}
use lean_evolve.Artifacts.Kept.{read-put_bytes, verify-read, put_bytes-again, put_file-read}

-- A digest that tells the empty text and a single byte from the others.
abbrev digest : Bytes → String
digest [] = "e3"
digest (b ∷ []) = "5f"
digest bs = "9a"

abbrev codec : Codec
codec = record {
  digest = digest;
  encode = λ t. [];
  show = λ v. "";
  to_int = λ v. none;
  to_float = λ v. none;
}

abbrev first : StoredArtifact × Files
first = (stored_as "store/" "9a" 2, ("store/9a/9a", 1 ∷ 2 ∷ []) ∷ [])

first-put : put_bytes codec "store/" (1 ∷ 2 ∷ []) [] ≡ ok first
unfolding put_bytes path_for shard file_at
first-put = refl

read-put_bytes_example :
    ((kept : Bytes) × (read codec "store/" "9a" first.1 ≡ ok kept)
      × (digest kept ≡ "9a")
      × (file_at (path_for "store/" "9a") [] ≡ none → kept ≡ 1 ∷ 2 ∷ []))
    × ((sha256 : String)
        → count sha256 ≡ count "9a"
        → sha256 ≢ "9a"
        → read codec "store/" sha256 first.1 ≡ read codec "store/" sha256 [])
read-put_bytes_example = read-put_bytes codec "store/" (1 ∷ 2 ∷ []) [] first.0 first.1 first-put

put_bytes-again_example : put_bytes codec "store/" (1 ∷ 2 ∷ []) first.1 ≡ ok first
put_bytes-again_example = put_bytes-again codec "store/" (1 ∷ 2 ∷ []) [] first.0 first.1 first-put

verify-read_example :
    ((verify codec "store/" "9a" first.1 ≡ true)
      ↔ ((bytes : Bytes) × (read codec "store/" "9a" first.1 ≡ ok bytes)))
    × ((bytes : Bytes)
        → read codec "store/" "9a" first.1 ≡ ok bytes
        → (file_at (path_for "store/" "9a") first.1 ≡ some bytes) × (digest bytes ≡ "9a"))
verify-read_example = verify-read codec "store/" "9a" first.1

-- A file whose bytes were lost.
abbrev damaged : Files
damaged = ("store/9a/9a", []) ∷ []

damaged-file_at : file_at (path_for "store/" "9a") damaged ≡ some []
unfolding file_at path_for shard
damaged-file_at = refl

put_file-read_example :
    (put_file codec "store/" "proof.lean" (some (1 ∷ 2 ∷ [])) (1 ∷ 2 ∷ []) damaged
      ≡ ok (stored_as "store/" "9a" 0, damaged))
    × (read codec "store/" "9a" damaged ≡ err (corrupt "9a"))
put_file-read_example =
    put_file-read codec "store/" "proof.lean" (1 ∷ 2 ∷ []) (1 ∷ 2 ∷ []) [] damaged damaged-file_at
      other
  where
    other : digest [] ≢ digest (1 ∷ 2 ∷ [])
    other = texts_differ "e3" "9a" refl
