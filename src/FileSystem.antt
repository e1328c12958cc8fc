-- ===== src/FileSystem.antt =====
-- sw/itc-common/src/itcFileSystem.cc. The file system itself, and the functions of std::filesystem on
-- it, are a parameter.
pub mod Creating
use Prim.Native.String.{String}
use itc_platform.Common.{
  ℕ, zero, suc, ◌+◌, Bool, true, false, List, [], ◌∷◌, ◌++◌, leb, if◌then◌else◌,
}

pub data FsCode : Type 0 where
  fs_undefined fs_ok fs_syscall_error fs_invalid_arguments fs_exception_thrown : FsCode

pub data PathKind : Type 0 where
  undefined regular_file directory : PathKind

-- The components of a path, the root first.
abbrev pub FilePath : Type 0
FilePath = List String

-- What a call of std::filesystem does: it answers, or it throws an exception.
pub data Call (A : Type 0) : Type 0 where
  answers : A → Call A
  throws : Call A

-- Each call on a file system of type `S`. A Boolean beside a new state is true for an error.
pub record Filesystem (S : Type 0) : Type 0 where
  pub fs_exists : FilePath → S → Call Bool
  pub is_directory : FilePath → S → Call Bool
  pub is_regular_file : FilePath → S → Call Bool
  pub create_directories : FilePath → S → Call (Bool × S)
  pub open_for_write : FilePath → S → Bool × S
  pub permissions : FilePath → S → Call (Bool × S)
  pub remove : FilePath → S → Call S
  pub remove_all : FilePath → S → Call S
  pub access : FilePath → S → ℕ

-- `path.parent_path()`.
abbrev pub parent_path : FilePath → FilePath
parent_path [] = []
parent_path (name ∷ []) = []
parent_path (name ∷ rest) = name ∷ parent_path rest

module _ {S : Type 0} (fs : Filesystem S) where
  -- `exists`: an exception is the answer false.
  unfoldable pub exists : FilePath → S → Bool
  exists path s = elim (fs.fs_exists path s) [ answers found ↦ found | throws ↦ false ]

  unfoldable pub is_accessible : FilePath → S → Bool
  is_accessible path s = elim (fs.access path s) [ zero ↦ true | suc _ ↦ false ]

  -- The loop of `createPath` over the components, from number `i` on, behind `sub_path`. The mode is
  -- part of the parameter.
  unfoldable pub grant : ℕ → ℕ → FilePath → FilePath → S → FsCode × S
  grant at i sub_path [] s = (fs_ok, s)
  grant at i sub_path (name ∷ rest) s =
      let here = sub_path ++ (name ∷ []) in
      if leb at i
      then elim (fs.permissions here s) [
        | throws ↦ (fs_exception_thrown, s)
        | answers granted ↦
            let (err, s') = granted in
            let further = grant at (suc i) here rest s' in
            if err then (fs_syscall_error, s') else further
      ]
      else grant at (suc i) here rest s

  -- The file is opened, and so made, only if it is a regular file already.
  unfoldable pub make_file : ℕ → FilePath → S → FsCode × S
  make_file at path s = elim (fs.is_regular_file path s) [
    | throws ↦ (fs_exception_thrown, s)
    | answers false ↦ grant at 0 [] path s
    | answers true ↦
        let (opened, s') = fs.open_for_write path s in
        if opened then grant at 0 [] path s' else (fs_syscall_error, s')
  ]

  unfoldable pub make_path : ℕ → FilePath → FilePath → S → FsCode × S
  make_path at path dir_path s = elim (fs.create_directories dir_path s) [
    | throws ↦ (fs_exception_thrown, s)
    | answers made ↦
        let (err, s') = made in if err then (fs_syscall_error, s') else make_file at path s'
  ]

  -- `createPath`; `at` is its argument `pos`.
  unfoldable pub create_path : PathKind → ℕ → FilePath → S → FsCode × S
  create_path kind at path s = if exists path s then (fs_ok, s) else elim kind [
    | directory ↦ make_path at path path s
    | regular_file ↦ make_path at path (parent_path path) s
    | undefined ↦ (fs_invalid_arguments, s)
  ]

  -- `removePath`.
  unfoldable pub remove_path : FilePath → S → FsCode × S
  remove_path path s = elim (fs.fs_exists path s) [
    | throws ↦ (fs_exception_thrown, s)
    | answers false ↦ (fs_ok, s)
    | answers true ↦ elim (fs.is_directory path s) [
      | throws ↦ (fs_exception_thrown, s)
      | answers true ↦ elim (fs.remove_all path s) [
        | throws ↦ (fs_exception_thrown, s)
        | answers s' ↦ (fs_ok, s')
      ]
      | answers false ↦ elim (fs.is_regular_file path s) [
        | throws ↦ (fs_exception_thrown, s)
        | answers false ↦ (fs_ok, s)
        | answers true ↦ elim (fs.remove path s) [
          | throws ↦ (fs_exception_thrown, s)
          | answers s' ↦ (fs_ok, s')
        ]
      ]
    ]
  ]
