-- ===== src/FileSystem/Creating.antt =====
-- What `createPath` of sw/itc-common/src/itcFileSystem.cc does for a file that does not exist.
use itc_platform.Common.{
  ℕ, suc, ◌+◌, ◌<◌, ◌≡◌, ◌≢◌, refl, ◌∙◌, arith, Bool, true, false, not, ◌&&◌, [], ◌∷◌, ◌++◌, length,
  dec_lt,
}
use mathlib.Core.List.{append_assoc}
use text.Mathlib.Text.{◌==◌ as str_eq}
use itc_platform.FileSystem.{
  Filesystem, FilePath, fs_ok, Call, answers, throws, regular_file, parent_path, exists, grant,
  make_file, make_path, create_path,
}

-- No component is empty, `.` or `..`: each directory above the path is a proper part of it.
abbrev pub is_plain : FilePath → Bool
is_plain [] = true
is_plain (name ∷ path) =
    not (str_eq name "") && not (str_eq name ".") && not (str_eq name "..") && is_plain path

-- What the calls of std::filesystem are documented to do about a path that does not exist: it is no
-- regular file, its mode cannot be set, and the mode of another path does not make it. Nor does the
-- creation of the directories above it, where the path is plain.
pub record IsDocumented {S : Type 0} (fs : Filesystem S) : Type 0 where
  pub no_file :
      (path : FilePath) (s : S)
      → fs.fs_exists path s ≡ answers false
      → fs.is_regular_file path s ≡ answers false
  pub no_mode :
      (path : FilePath) (s : S)
      → fs.fs_exists path s ≡ answers false
      → fs.permissions path s ≡ answers (true, s)
  pub still_missing :
      (path : FilePath) (s s' : S) (err : Bool)
      → is_plain path ≡ true
      → fs.fs_exists path s ≡ answers false
      → fs.create_directories (parent_path path) s ≡ answers (err, s')
      → fs.fs_exists path s' ≡ answers false
  pub mode_makes_nothing :
      (path other : FilePath) (s s' : S) (err : Bool)
      → fs.fs_exists path s ≡ answers false
      → fs.permissions other s ≡ answers (err, s')
      → fs.fs_exists path s' ≡ answers false

module _ {S : Type 0} {fs : Filesystem S} (doc : IsDocumented fs) (at : ℕ) (path : FilePath) where
  -- Setting the modes along a path does not succeed when the path does not exist.
  grant-missing :
      (rest sub_path : FilePath) (i : ℕ) (s : S)
      → sub_path ++ rest ≡ path
      → 0 < length rest
      → at < i + length rest
      → fs.fs_exists path s ≡ answers false
      → (grant fs at i sub_path rest s).0 ≢ fs_ok
  unfolding grant
  grant-missing [] sub_path i s whole some_left reached missing = absurd (omega arith)
  grant-missing (name ∷ []) sub_path i s whole some_left reached missing =
      let last : fs.permissions (sub_path ++ (name ∷ [])) s ≡ answers (true, s) =
        rw whole (doc.no_mode path s missing) in
      λ ok. absurd (ground (arith, last))
  grant-missing (name ∷ next ∷ rest) sub_path i s whole some_left reached missing =
      step
        (λ s' gone.
          grant-missing (next ∷ rest) (sub_path ++ (name ∷ [])) (suc i) s'
            (append_assoc sub_path (name ∷ []) (next ∷ rest) ∙ whole) (omega arith) (omega arith)
            gone)
        (fs.permissions (sub_path ++ (name ∷ [])) s) refl
    where
      step :
          ((s' : S)
            → fs.fs_exists path s' ≡ answers false
            → (grant fs at (suc i) (sub_path ++ (name ∷ [])) (next ∷ rest) s').0 ≢ fs_ok)
          → (answer : Call (Bool × S)) → fs.permissions (sub_path ++ (name ∷ [])) s ≡ answer
          → (grant fs at i sub_path (name ∷ next ∷ rest) s).0 ≢ fs_ok
      step further throws e ok = elim (dec_lt i at) [
        | yes early ↦ absurd (ground (arith, further s missing))
        | no late ↦ absurd (ground arith)
      ]
      step further (answers granted) e ok =
          let gone : fs.fs_exists path granted.1 ≡ answers false =
            doc.mode_makes_nothing path _ s granted.1 granted.0 missing e in
          elim (dec_lt i at) [
            | yes early ↦ absurd (ground (arith, further s missing))
            | no late ↦ absurd (ground (arith, further granted.1 gone))
          ]

  -- On a file system that behaves as documented, the call never answers OK for a regular file
  -- that does not exist, provided the modes are to be set from some component of its path on, and no
  -- component of the path is empty, `.` or `..`.
  pub create_path-missing :
      (s : S)
      → is_plain path ≡ true
      → fs.fs_exists path s ≡ answers false
      → at < length path
      → (create_path fs regular_file at path s).0 ≢ fs_ok
  unfolding create_path make_path make_file exists
  create_path-missing s plain missing reached = go (fs.create_directories (parent_path path) s) refl
    where
      go :
          (answer : Call (Bool × S))
          → fs.create_directories (parent_path path) s ≡ answer
          → (create_path fs regular_file at path s).0 ≢ fs_ok
      go throws e ok = absurd (ground arith)
      go (answers made) e ok =
          let gone : fs.fs_exists path made.1 ≡ answers false =
            doc.still_missing path s made.1 made.0 plain missing e in
          let stuck : (grant fs at 0 [] path made.1).0 ≢ fs_ok =
            grant-missing path [] 0 made.1 refl (omega arith) (omega arith) gone in
          absurd (ground (arith, doc.no_file path made.1 gone))
