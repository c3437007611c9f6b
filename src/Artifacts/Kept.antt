-- ===== src/Artifacts/Kept.antt =====
-- What the store of bytes keeps (ledger/artifacts.py `put_bytes`, `put_file`, `read`, `verify`).
use Prim.Native.String.{count}
use text.Mathlib.TextLemmas.{length-cons, append_cancel_left, append_inj}
use lean_evolve.Prelude.{
  String, ◌≡◌, ◌≢◌, ◌↔◌, refl, sym, ap, ◌∙◌, inl, inr, true, none, some, length, ◌==◌, ok, err,
  arith, eq_iff, eq_refl, Bool-cases, Option-cases, some_inj, ok-injective,
}
use lean_evolve.Artifacts.Error.{corrupt}
use lean_evolve.Artifacts.Files.{
  Bytes, Codec, Files, StoredArtifact, file_at, replace_file, path_for, shard, stored_as, checked,
  put_bytes, put_file, read, verify,
}

file_at-replace_file :
    (path : String) (bytes : Bytes) (files : Files)
    → file_at path (replace_file path bytes files) ≡ some bytes
unfolding file_at
file_at-replace_file path bytes files = rw (eq_refl path)

file_at-other :
    (path other : String) (bytes : Bytes) (files : Files)
    → other ≢ path
    → file_at other (replace_file path bytes files) ≡ file_at other files
unfolding file_at
file_at-other path other bytes files h = ground (arith, eq_iff other path)

count-shard : (a b : String) → count a ≡ count b → count (shard a) ≡ count (shard b)
unfolding shard
count-shard String.[] String.[] same = refl
count-shard String.[] (String.◌∷◌ d t) same = absurd (omega (arith, same, length-cons d t))
count-shard (String.◌∷◌ c s) String.[] same = absurd (omega (arith, same, length-cons c s))
count-shard (String.◌∷◌ c String.[]) (String.◌∷◌ d String.[]) same =
    omega (arith, length-cons c "", length-cons d "")
count-shard (String.◌∷◌ c String.[]) (String.◌∷◌ d (String.◌∷◌ e t)) same =
    absurd (omega (arith, same, length-cons d (String.◌∷◌ e t), length-cons e t, length-cons c ""))
count-shard (String.◌∷◌ c (String.◌∷◌ e s)) (String.◌∷◌ d String.[]) same =
    absurd (omega (arith, same, length-cons c (String.◌∷◌ e s), length-cons e s, length-cons d ""))
count-shard (String.◌∷◌ c (String.◌∷◌ e s)) (String.◌∷◌ d (String.◌∷◌ f t)) same = omega (
  arith,
  length-cons c (String.◌∷◌ e ""),
  length-cons d (String.◌∷◌ f ""),
  length-cons e "",
  length-cons f "",
)

-- A digest of the same length has a file of its own.
path_for-differs :
    (root a b : String) → count a ≡ count b → a ≢ b → path_for root a ≢ path_for root b
unfolding path_for
path_for-differs root a b same h q =
    let tails = append_cancel_left root _ _ q in
    let (_, rest) = append_inj tails (count-shard a b same) in h (append_cancel_left "/" a b rest)

module _ (codec : Codec) (root : String) where
  -- What `read` returns are the bytes of the file that the digest names, and they have this digest;
  -- and `verify` says yes if and only if `read` returns.
  pub verify-read :
      (sha256 : String) (files : Files)
      → ((verify codec root sha256 files ≡ true)
          ↔ ((bytes : Bytes) × (read codec root sha256 files ≡ ok bytes)))
        × ((bytes : Bytes)
            → read codec root sha256 files ≡ ok bytes
            → (file_at (path_for root sha256) files ≡ some bytes) × (codec.digest bytes ≡ sha256))
  unfolding verify read
  verify-read sha256 files = elim (Option-cases (file_at (path_for root sha256) files)) [
    | inl absent ↦ (
      (
        λ h. absurd (ground (arith, rw absent at h)),
        λ (b, h). absurd (ground (arith, rw absent at h)),
      ),
      λ b h. absurd (ground (arith, rw absent at h)),
    )
    | inr (there, found) ↦ elim (Bool-cases (codec.digest there == sha256)) [
      | inl good ↦ (
        (λ h. (there, rw (found, good) refl), λ _. rw (found, good) refl),
        λ b h.
            let same = ok-injective (rw (found, good) at h) in
            (
              found ∙ ap some same,
              ap codec.digest (sym same) ∙ (eq_iff (codec.digest there) sha256).0 good,
            ),
      )
      | inr bad ↦ (
        (
          λ h. absurd (ground (arith, rw (found, bad) at h)),
          λ (b, h). absurd (ground (arith, rw (found, bad) at h)),
        ),
        λ b h. absurd (ground (arith, rw (found, bad) at h)),
      )
    ]
  ]

  read_back :
      (sha256 : String) (files : Files) (there : Bytes)
      → file_at (path_for root sha256) files ≡ some there
      → codec.digest there ≡ sha256
      → read codec root sha256 files ≡ ok there
  unfolding read
  read_back sha256 files there found good = rw (found, good, eq_refl sha256) refl

  -- What a successful `put_bytes` leaves.
  pub record IsStored (bytes : Bytes) (files : Files) (stored : StoredArtifact) (after : Files)
      : Type 0 where
    pub kept : Bytes
    pub described : stored ≡ stored_as root (codec.digest bytes) (length bytes)
    pub present : file_at (path_for root (codec.digest bytes)) after ≡ some kept
    pub matched : codec.digest kept ≡ codec.digest bytes
    pub unless_there :
        file_at (path_for root (codec.digest bytes)) files ≡ none
        → (kept ≡ bytes) × (after ≡ replace_file (path_for root (codec.digest bytes)) bytes files)
    pub if_there :
        (there : Bytes)
        → file_at (path_for root (codec.digest bytes)) files ≡ some there
        → (kept ≡ there) × (after ≡ files)

  checked-eq-ok :
      (digest : String) (bytes : Bytes) (files : Files) (stored : StoredArtifact) (after : Files)
      → checked codec root digest bytes files ≡ ok (stored, after)
      → (kept : Bytes) × (file_at (path_for root digest) files ≡ some kept)
        × (codec.digest kept ≡ digest)
        × (stored ≡ stored_as root digest (length bytes))
        × (after ≡ files)
  checked-eq-ok digest bytes files stored after h =
      elim (Option-cases (file_at (path_for root digest) files)) [
        | inl absent ↦ absurd (ground (arith, rw absent at h))
        | inr (there, found) ↦ elim (Bool-cases (codec.digest there == digest)) [
          | inr bad ↦ absurd (ground (arith, rw (found, bad) at h))
          | inl good ↦
              let q = ok-injective (rw (found, good) at h) in
              (
                there,
                found,
                (eq_iff (codec.digest there) digest).0 good,
                ap (λ p. p.0) (sym q),
                ap (λ p. p.1) (sym q),
              )
        ]
      ]

  put_bytes-IsStored :
      (bytes : Bytes) (files : Files) (stored : StoredArtifact) (after : Files)
      → put_bytes codec root bytes files ≡ ok (stored, after)
      → IsStored bytes files stored after
  unfolding put_bytes
  put_bytes-IsStored bytes files stored after h =
      let digest = codec.digest bytes in
      let path = path_for root digest in
      elim (Option-cases (file_at path files)) [
        | inl absent ↦
            let new = replace_file path bytes files in
            let (kept, found, good, same, end) =
              checked-eq-ok digest bytes new stored after (rw absent at h) in
            let q = some_inj (sym found ∙ file_at-replace_file path bytes files) in
            record {
              kept = kept;
              described = same;
              present = ap (file_at path) end ∙ found;
              matched = good;
              unless_there = λ _. (q, end);
              if_there = λ there f. absurd (cc (absent, f));
            }
        | inr (old, f) ↦
            let (kept, found, good, same, end) =
              checked-eq-ok digest bytes files stored after (rw f at h) in
            record {
              kept = kept;
              described = same;
              present = ap (file_at path) end ∙ found;
              matched = good;
              unless_there = λ a. absurd (cc (a, f));
              if_there = λ there g. (some_inj (sym found ∙ g), end);
            }
      ]

  other_read :
      (sha256 : String) (bytes : Bytes) (files : Files) (stored : StoredArtifact) (after : Files)
      → IsStored bytes files stored after
      → count sha256 ≡ count (codec.digest bytes)
      → sha256 ≢ codec.digest bytes
      → read codec root sha256 after ≡ read codec root sha256 files
  unfolding read
  other_read sha256 bytes files stored after s same differs =
      let path = path_for root (codec.digest bytes) in
      let at = path_for root sha256 in
      elim (Option-cases (file_at path files)) [
        | inr (there, found) ↦ ap (read codec root sha256) (s.if_there there found).1
        | inl absent ↦
            rw
              (ap (file_at at) (s.unless_there absent).1
                ∙ file_at-other path at bytes files
                    (path_for-differs root sha256 (codec.digest bytes) same differs))
              refl
      ]

  -- What reads return after a successful `put_bytes`: under the returned digest, bytes that have the
  -- digest of the bytes that were put, and these bytes themselves if no file stood at that name; under
  -- any other digest of that length, what they returned before.
  pub read-put_bytes :
      (bytes : Bytes) (files : Files) (stored : StoredArtifact) (after : Files)
      → put_bytes codec root bytes files ≡ ok (stored, after)
      → ((kept : Bytes) × (read codec root stored.sha256 after ≡ ok kept)
          × (codec.digest kept ≡ codec.digest bytes)
          × (file_at stored.path files ≡ none → kept ≡ bytes))
        × ((sha256 : String)
            → count sha256 ≡ count stored.sha256
            → sha256 ≢ stored.sha256
            → read codec root sha256 after ≡ read codec root sha256 files)
  read-put_bytes bytes files stored after h =
      let s = put_bytes-IsStored bytes files stored after h in
      let name = ap (λ (x : StoredArtifact). x.sha256) s.described in
      let place = ap (λ (x : StoredArtifact). x.path) s.described in
      (
        (
          s.kept,
          rw name (read_back (codec.digest bytes) after s.kept s.present s.matched),
          s.matched,
          λ absent. (s.unless_there (sym (ap (λ p. file_at p files) place) ∙ absent)).0,
        ),
        λ sha256 same differs.
            other_read sha256 bytes files stored after s (same ∙ ap count name)
              (λ q. differs (q ∙ sym name)),
      )

  -- `put_bytes` stores the same bytes once: after a success the same call succeeds again, returns the
  -- same record and changes no file.
  pub put_bytes-again :
      (bytes : Bytes) (files : Files) (stored : StoredArtifact) (after : Files)
      → put_bytes codec root bytes files ≡ ok (stored, after)
      → put_bytes codec root bytes after ≡ ok (stored, after)
  unfolding put_bytes
  put_bytes-again bytes files stored after h =
      let s = put_bytes-IsStored bytes files stored after h in
      rw (s.present, s.described, s.present, s.matched, eq_refl (codec.digest bytes)) refl

  -- `put_file` does not look at the bytes of a file that is there already: where they do not have
  -- the digest of the source, the call succeeds and returns this digest, and a read of it raises.
  pub put_file-read :
      (name : String) (source copied there : Bytes) (files : Files)
      → file_at (path_for root (codec.digest source)) files ≡ some there
      → codec.digest there ≢ codec.digest source
      → (put_file codec root name (some source) copied files
          ≡ ok (stored_as root (codec.digest source) (length there), files))
        × (read codec root (codec.digest source) files ≡ err (corrupt (codec.digest source)))
  unfolding put_file read
  put_file-read name source copied there files found bad =
      elim (Bool-cases (codec.digest there == codec.digest source)) [
        | inl good ↦ absurd (bad ((eq_iff _ _).0 good))
        | inr differs ↦ (rw found refl, rw (found, differs) refl)
      ]
