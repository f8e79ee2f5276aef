-- ===== src/ModelStorage/Memory.antt =====
-- Files in memory, for the examples: the paths with their contents. A write puts the path in front of
-- what was there before.
use synthgen_core.Prelude.{
  Text, Bool, true, false, ◌||◌, ◌&&◌, All, if_rule, text_eq, text_eq_iff, not, ◌≡◌, ◌≢◌, refl, ◌∙◌,
  Option, none, some, List, [], ◌∷◌, ◌++◌, length, take, drop, filter, arith, if◌then◌else◌,
}
use synthgen_core.Prelude.Dict.{find}
use synthgen_core.Common.Files.{
  Files, FileLaws, written, ReadResult, no_size, loaded, is_name, IsName,
}

-- The paths of the directories, and the regular files.
pub record Memory : Type 0 where
  pub folders : List Text
  pub entries : List (Text × Text)

abbrev pub without : Text → List (Text × Text) → List (Text × Text)
without p w = filter (λ e. not (text_eq e.0 p)) w

abbrev pub read_of : Option Text → ReadResult
read_of none = ReadResult.not_opened
read_of (some v) = loaded v

abbrev pub rename_to :
    Text → Text → List (Text × Text) → Option Text → Option Text × List (Text × Text)
rename_to p q w none = (some p, w)
rename_to p q w (some v) = (none, (q, v) ∷ without p w)

abbrev pub is_some {ℓ} : {A : Type ℓ} → Option A → Bool
is_some none = false
is_some (some a) = true

abbrev pub is_in : Text → List Text → Bool
is_in p [] = false
is_in p (q ∷ paths) = let rest = is_in p paths in text_eq p q || rest

abbrev pub paths_of : List (Text × Text) → List Text
paths_of [] = []
paths_of ((p, v) ∷ w) = p ∷ paths_of w

-- The names of the paths in a directory.
unfoldable pub names_in : Text → List Text → List Text
unfolding is_name
names_in dir [] = []
names_in dir (p ∷ paths) =
    let rest = names_in dir paths in
    if text_eq (take (length dir) p) dir && is_name (drop (length dir) p)
    then drop (length dir) p ∷ rest
    else rest

names_in-IsName : (dir : Text) (paths : List Text) → All IsName (names_in dir paths)
unfolding names_in
names_in-IsName dir [] = tt
names_in-IsName dir (p ∷ paths) =
    if_rule (All IsName) (text_eq (take (length dir) p) dir && is_name (drop (length dir) p))
      (λ here. (ground (arith, here), names_in-IsName dir paths)) (λ _. names_in-IsName dir paths)

instance unfoldable pub memory : Files Memory
unfolding find names_in
memory = record {
  exists = λ p w. is_in p w.folders || is_some (find p w.entries);
  create_directories = λ p w. (none, record { folders = p ∷ w.folders; entries = w.entries });
  write = λ p v w. (written, record { folders = w.folders; entries = (p, v) ∷ w.entries });
  read = λ p w. read_of (find p w.entries);
  rename = λ p q w.
      let out = rename_to p q w.entries (find p w.entries) in
      (out.0, record { folders = w.folders; entries = out.1 });
  remove = λ p w. (none, record { folders = w.folders; entries = without p w.entries });
  folders_in = λ dir w. names_in (dir ++ 47 ∷ []) w.folders;
  files_in = λ dir w. names_in (dir ++ 47 ∷ []) (paths_of w.entries);
}

find-first : (p v : Text) (w : List (Text × Text)) → find p ((p, v) ∷ w) ≡ some v
unfolding find
find-first p v w = ground (arith, text_eq_iff p p)

find-rest : (p q v : Text) (w : List (Text × Text)) → q ≢ p → find q ((p, v) ∷ w) ≡ find q w
unfolding find
find-rest p q v w ne = ground (arith, text_eq_iff p q)

find-without : (p q : Text) (w : List (Text × Text)) → q ≢ p → find q (without p w) ≡ find q w
unfolding find
find-without p q [] ne = refl
find-without p q ((r, v) ∷ w) ne =
    ground (arith, text_eq_iff r p, text_eq_iff r q, find-without p q w ne)

read_of-loaded : (o : Option Text) (v : Text) → read_of o ≡ loaded v → o ≡ some v
read_of-loaded none v e = absurd cc
read_of-loaded (some u) v e = cc

sized : (o : Option Text) → read_of o ≡ no_size → o ≡ none
sized none e = refl
sized (some u) e = absurd cc

-- What the rename gives, by what is at its first path.
rename_to-done :
    (p q : Text) (w : List (Text × Text)) (o : Option Text)
    → (rename_to p q w o).0 ≡ none
    → find q (rename_to p q w o).1 ≡ o
rename_to-done p q w none e = absurd cc
rename_to-done p q w (some v) e = find-first q v (without p w)

rename_to-kept :
    (p q message : Text) (w : List (Text × Text)) (o : Option Text)
    → (rename_to p q w o).0 ≡ some message
    → find q (rename_to p q w o).1 ≡ find q w
rename_to-kept p q message w none e = refl
rename_to-kept p q message w (some v) e = absurd cc

rename_to-other :
    (p q r : Text) (w : List (Text × Text)) (o : Option Text)
    → r ≢ p
    → r ≢ q
    → find r (rename_to p q w o).1 ≡ find r w
rename_to-other p q r w none np nq = refl
rename_to-other p q r w (some v) np nq = find-rest q r v (without p w) nq ∙ find-without p r w np

exists-content : (b : Bool) (o : Option Text) (v : Text) → o ≡ some v → (b || is_some o) ≡ true
exists-content b none v e = absurd cc
exists-content b (some u) v e = ground arith

pub memory_laws : FileLaws memory
unfolding memory
memory_laws = record {
  content = λ w p. find p w.entries;
  content_exists = λ p v w e. exists-content (is_in p w.folders) (find p w.entries) v e;
  read_content = λ d p w v _ e. read_of-loaded (find p w.entries) v e;
  no_size_content = λ d p w _ e. sized (find p w.entries) e;
  folder_content = λ p q w. refl;
  written_content = λ d p v w _ e. find-first p v w.entries;
  closed_content = λ d p v w _ e. absurd cc;
  write_other = λ d p q v w _ _ ne. find-rest p q v w.entries ne;
  renamed_content = λ d p q w _ _ e. rename_to-done p q w.entries (find p w.entries) e;
  kept_content = λ d p q w message _ _ e. rename_to-kept p q message w.entries (find p w.entries) e;
  rename_other = λ d p q r w _ _ _ np nq. rename_to-other p q r w.entries (find p w.entries) np nq;
  remove_other = λ d p q w _ _ ne. find-without p q w.entries ne;
  folder_names = λ d w. names_in-IsName (d ++ 47 ∷ []) w.folders;
  file_names = λ d w. names_in-IsName (d ++ 47 ∷ []) (paths_of w.entries);
}

pub memory_content : (p : Text) (w : Memory) → memory_laws.content w p ≡ find p w.entries
unfolding memory_laws
memory_content p w = refl
