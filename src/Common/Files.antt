-- ===== src/Common/Files.antt =====
-- The operations on files that the code calls in std::filesystem and the file streams, with what it
-- relies on of them. The file system is the operating system's and is not defined here: the code
-- takes it as an instance argument, and `W` is the state of the disk.
use synthgen_core.Prelude.{
  Text, Bool, true, false, not, ◌&&◌, ◌==◌, leb, length, Option, none, some, List, [], ◌∷◌, ◌++◌,
  All, ◌≡◌, ◌≢◌,
}

-- Writing a whole file: the file is not opened, or is opened and emptied and then not written in
-- full, or is written.
pub data WriteResult : Type 0 where
  not_opened not_written written : WriteResult

-- Reading a whole file. Where what is opened has no size that can be told, as a directory, nothing is
-- read.
pub data ReadResult : Type 0 where
  not_opened : ReadResult
  no_size : ReadResult
  not_read : ReadResult
  loaded : Text → ReadResult

abbrev pub is_some {ℓ} : {A : Type ℓ} → Option A → Bool
is_some none = false
is_some (some a) = true

-- A call that may fail gives the text of its error, or none.
pub record Files (W : Type 0) : Type 1 where
  pub exists : Text → W → Bool
  pub create_directories : Text → W → Option Text × W
  pub write : Text → Text → W → WriteResult × W
  pub read : Text → W → ReadResult
  pub rename : Text → Text → W → Option Text × W
  pub remove : Text → W → Option Text × W
  -- the names of the directories, and of the regular files, in a directory
  pub folders_in : Text → W → List Text
  pub files_in : Text → W → List Text

-- A character of a name: no separator, and not the one that ends a path.
unfoldable pub is_plain : Text → Bool
is_plain [] = true
is_plain (c ∷ s) = let rest = is_plain s in not (c == 47) && not (c == 0) && rest

unfoldable pub only_dots : Text → Bool
only_dots [] = true
only_dots (c ∷ s) = let rest = only_dots s in (c == 46) && rest

-- The name of a file or of a directory: it is not empty, and none of `.` and `..`.
unfoldable pub is_name : Text → Bool
unfolding is_plain only_dots
is_name s = is_plain s && not (only_dots s && leb (length s) 2)

abbrev pub IsName : Text → Type 0
IsName s = is_name s ≡ true

-- The path of a file in a folder of the directory `d`.
pub record IsFileOf (d p : Text) : Type 0 where
  pub folder : Text
  pub name : Text
  pub folder_name : IsName folder
  pub file_name : IsName name
  pub spelled : p ≡ d ++ (47 ∷ (folder ++ (47 ∷ name)))

-- What is in the regular file of a path, if one is there, and how the operations change it, on a disk
-- that only the calls change while they run. A directory has no content: where one is, `exists` may
-- hold. Two different paths of files in the folders of one directory are taken to name different
-- files, so no folder and no file there is a link, and the files are those of an ordinary disk, not
-- devices.
pub record FileLaws {W : Type 0} (fs : Files W) : Type 1 where
  pub content : W → Text → Option Text
  pub content_exists : (p v : Text) (w : W) → content w p ≡ some v → fs.exists p w ≡ true
  pub read_content :
      (d p : Text) (w : W) (v : Text) → IsFileOf d p → fs.read p w ≡ loaded v → content w p ≡ some v
  pub no_size_content :
      (d p : Text) (w : W) → IsFileOf d p → fs.read p w ≡ no_size → content w p ≡ none
  pub folder_content : (p q : Text) (w : W) → content (fs.create_directories p w).1 q ≡ content w q
  pub written_content :
      (d p v : Text) (w : W)
      → IsFileOf d p
      → (fs.write p v w).0 ≡ written
      → content (fs.write p v w).1 p ≡ some v
  pub closed_content :
      (d p v : Text) (w : W)
      → IsFileOf d p
      → (fs.write p v w).0 ≡ WriteResult.not_opened
      → content (fs.write p v w).1 p ≡ content w p
  pub write_other :
      (d p q v : Text) (w : W)
      → IsFileOf d p
      → IsFileOf d q
      → q ≢ p
      → content (fs.write p v w).1 q ≡ content w q
  pub renamed_content :
      (d p q : Text) (w : W)
      → IsFileOf d p
      → IsFileOf d q
      → (fs.rename p q w).0 ≡ none
      → content (fs.rename p q w).1 q ≡ content w p
  pub kept_content :
      (d p q : Text) (w : W) (message : Text)
      → IsFileOf d p
      → IsFileOf d q
      → (fs.rename p q w).0 ≡ some message
      → content (fs.rename p q w).1 q ≡ content w q
  pub rename_other :
      (d p q r : Text) (w : W)
      → IsFileOf d p
      → IsFileOf d q
      → IsFileOf d r
      → r ≢ p
      → r ≢ q
      → content (fs.rename p q w).1 r ≡ content w r
  pub remove_other :
      (d p q : Text) (w : W)
      → IsFileOf d p
      → IsFileOf d q
      → q ≢ p
      → content (fs.remove p w).1 q ≡ content w q
  pub folder_names : (d : Text) (w : W) → All IsName (fs.folders_in d w)
  pub file_names : (d : Text) (w : W) → All IsName (fs.files_in d w)
