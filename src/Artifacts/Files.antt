-- ===== src/Artifacts/Files.antt =====
-- ledger/artifacts.py `ArtifactStore`. The file system is the list of the files under the root of
-- the store and of the locations, the last written first; a write that fails in the operating system
-- is not modelled.
use Prim.Native.String.{◌++◌ as text_append}
use lean_evolve.Prelude.{
  ℕ, String, Bool, false, not, Option, none, some, List, [], ◌∷◌, length, maybe, is_some, ◌==◌,
  Except, ok, err, ◌>>◌, raise_if, if◌then◌else◌,
}
use lean_evolve.Value.{Value}
use lean_evolve.Artifacts.Error.{
  ArtifactError, stored_hash, not_regular, changed_while_copied, no_local_copy, corrupt,
}
use lean_evolve.Store.Artifacts.{artifact_id}

abbrev pub Bytes : Type 0
Bytes = List ℕ

-- The libraries that the store and the queue call, as arguments: the hex digest of `hashlib.sha256`,
-- `str.encode`, `str` of a value that is no text, `int` of a value that is no integer and `float`,
-- which may raise.
pub record Codec : Type 0 where
  pub digest : Bytes → String
  pub encode : String → Bytes
  pub show : Value → String
  pub to_int : Value → Option (Bool × ℕ)
  pub to_float : Value → Option ℕ

abbrev pub Files : Type 0
Files = List (String × Bytes)

-- The bytes of a regular file.
unfoldable pub file_at : String → Files → Option Bytes
file_at path [] = none
file_at path ((name, bytes) ∷ files) = if path == name then some bytes else file_at path files

-- `os.replace` of a complete temporary file
abbrev pub replace_file : String → Bytes → Files → Files
replace_file path bytes files = (path, bytes) ∷ files

pub record StoredArtifact : Type 0 where
  pub object_id : String
  pub sha256 : String
  pub byte_size : ℕ
  pub path : String

-- `sha256[:2]`
unfoldable pub shard : String → String
shard String.[] = ""
shard (String.◌∷◌ c String.[]) = String.◌∷◌ c ""
shard (String.◌∷◌ c (String.◌∷◌ d s)) = String.◌∷◌ c (String.◌∷◌ d "")

-- `ArtifactStore.path_for`; `root` is the directory with its closing slash.
unfoldable pub path_for : String → String → String
unfolding shard
path_for root sha256 = text_append root (text_append (shard sha256) (text_append "/" sha256))

-- `ArtifactStore.contains`
abbrev pub contains : String → String → Files → Bool
contains root sha256 files = is_some (file_at (path_for root sha256) files)

abbrev pub stored_as : String → String → ℕ → StoredArtifact
stored_as root digest size = record {
  object_id = artifact_id digest;
  sha256 = digest;
  byte_size = size;
  path = path_for root digest;
}

module _ (codec : Codec) (root : String) where
  -- The bytes are there, written now or before: whether they are the right ones is checked by digest.
  abbrev pub checked : String → Bytes → Files → Except ArtifactError (StoredArtifact × Files)
  checked digest bytes files =
      maybe (err (no_local_copy digest))
        (λ found. do
          raise_if (not (codec.digest found == digest)) (stored_hash (codec.digest found) digest)
          ok (stored_as root digest (length bytes), files))
        (file_at (path_for root digest) files)

  -- `ArtifactStore.put_bytes`; with `_write_atomic` for a file that is not there
  unfoldable pub put_bytes : Bytes → Files → Except ArtifactError (StoredArtifact × Files)
  unfolding path_for file_at
  put_bytes bytes files =
      let digest = codec.digest bytes in
      let destination = path_for root digest in
      checked digest bytes (
        if is_some (file_at destination files) then files else replace_file destination bytes files)

  -- `ArtifactStore.put_file`: `source` is the file when it is hashed, `copied` its bytes when they
  -- are copied.
  unfoldable pub put_file :
      String → Option Bytes → Bytes → Files → Except ArtifactError (StoredArtifact × Files)
  put_file name none copied files = err (not_regular name)
  put_file name (some source) copied files =
      let digest = codec.digest source in
      let destination = path_for root digest in
      maybe
        (raise_if (not (codec.digest copied == digest)) (changed_while_copied name)
          >> ok (stored_as root digest (length copied), (replace_file destination copied files)))
        (λ there. ok (stored_as root digest (length there), files)) (file_at destination files)

  -- `ArtifactStore.read`
  unfoldable pub read : String → Files → Except ArtifactError Bytes
  read sha256 files =
      maybe (err (no_local_copy sha256))
        (λ bytes. raise_if (not (codec.digest bytes == sha256)) (corrupt sha256) >> ok bytes)
        (file_at (path_for root sha256) files)

  -- `ArtifactStore.verify`
  unfoldable pub verify : String → Files → Bool
  verify sha256 files =
      maybe false (λ bytes. codec.digest bytes == sha256) (file_at (path_for root sha256) files)
