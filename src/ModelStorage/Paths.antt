-- ===== src/ModelStorage/Paths.antt =====
-- The paths of the layer's files, by the keys of the cache.
use synthgen_core.Prelude.{
  ℕ, Text, text, text_eq, text_eq_iff, true, false, ◌&&◌, ◌≡◌, ◌≢◌, refl, sym, ap, ◌∙◌, subst, [],
  ◌∷◌, ◌++◌, append_assoc, append-cancel_left, append-cancel_right, arith, if_rule,
}
use synthgen_core.Common.Files.{is_plain, only_dots, is_name, IsName, IsFileOf}
use synthgen_core.ModelStorage.{
  ModelStorageLayer, join, no_file_name, is_absolute, checkpoint_path, pending_path, model_dir,
  cache_key,
}

-- The directory of the models of a root.
unfoldable pub models_dir : Text → Text
unfolding text join
models_dir root = join root (text "models")

-- A path in the directory of the models.
abbrev pub in_models : Text → Text → Text
in_models root name = models_dir root ++ (47 ∷ name)

unfoldable pub key_path : Text → Text → Text
unfolding text
key_path root key = in_models root (key ++ text ".parquet")

-- The key of a version id without separators, of a model with a name.
pub record IsKey (key : Text) : Type 0 where
  pub model_name : Text
  pub version_id : Text
  pub named : IsName model_name
  pub plain : is_plain version_id ≡ true
  pub spelled : key ≡ model_name ++ (47 ∷ version_id)

is_plain-append : (a b : Text) → is_plain (a ++ b) ≡ (is_plain a && is_plain b)
unfolding is_plain
is_plain-append [] b = refl
is_plain-append (c ∷ a) b = ground (arith, is_plain-append a b)

only_dots-append : (a b : Text) → only_dots (a ++ b) ≡ (only_dots a && only_dots b)
unfolding only_dots
only_dots-append [] b = refl
only_dots-append (c ∷ a) b = ground (arith, only_dots-append a b)

name_of_plain :
    (a b : Text) → is_plain a ≡ true → is_plain b ≡ true → only_dots b ≡ false → IsName (a ++ b)
unfolding is_name
name_of_plain a b plain ext other = ground (arith, is_plain-append a b, only_dots-append a b)

plain_of_name : (s : Text) → IsName s → is_plain s ≡ true
unfolding is_name
plain_of_name s h = ground arith

no_file_name-append : (a b : Text) (c : ℕ) → no_file_name (a ++ (c ∷ b)) ≡ no_file_name (c ∷ b)
unfolding no_file_name
no_file_name-append [] b c = refl
no_file_name-append (x ∷ []) b c = refl
no_file_name-append (x ∷ y ∷ a) b c = no_file_name-append (y ∷ a) b c

plain_end : (c : ℕ) (s : Text) → is_plain (c ∷ s) ≡ true → no_file_name (c ∷ s) ≡ false
unfolding no_file_name is_plain
plain_end c [] h = ground arith
plain_end c (d ∷ s) h = plain_end d s (ground arith)

plain-relative : (s : Text) → is_plain s ≡ true → is_absolute s ≡ false
unfolding is_absolute is_plain
plain-relative [] h = refl
plain-relative (c ∷ s) h = ground arith

join_below :
    (a b : Text) → no_file_name a ≡ false → is_absolute b ≡ false → join a b ≡ a ++ (47 ∷ b)
unfolding join
join_below a b file relative = rw (relative, file) refl

models_dir-named : (root : Text) → no_file_name (models_dir root) ≡ false
unfolding models_dir join text is_absolute
models_dir-named root =
    if_rule (λ (p : Text). no_file_name p ≡ false) (no_file_name root)
      (λ _. no_file_name-append root (text "odels") 109 ∙ unfold no_file_name in refl)
      (λ _. no_file_name-append root (text "models") 47 ∙ unfold no_file_name in refl)

-- The file of a plain name in the folder of a model.
join_twice :
    (root m f : Text)
    → IsName m
    → is_plain f ≡ true
    → join (join (models_dir root) m) f ≡ in_models root (m ++ (47 ∷ f))
unfolding is_name is_plain only_dots
join_twice root [] f name plain = absurd cc
join_twice root (c ∷ m) f name plain =
    let folder =
      join_below (models_dir root) (c ∷ m) (models_dir-named root)
        (plain-relative (c ∷ m) (plain_of_name (c ∷ m) name)) in
    let end : no_file_name (in_models root (c ∷ m)) ≡ false =
      no_file_name-append (models_dir root) (c ∷ m) 47
      ∙ unfold no_file_name in plain_end c m (plain_of_name (c ∷ m) name) in
    ap (λ (p : Text). join p f) folder
    ∙ (join_below (in_models root (c ∷ m)) f end (plain-relative f plain)
        ∙ append_assoc (models_dir root) (47 ∷ c ∷ m) (47 ∷ f))

-- The key splits in one way only.
split_of_plain :
    (m v m' v' : Text)
    → is_plain m' ≡ true
    → is_plain v' ≡ true
    → m ++ (47 ∷ v) ≡ m' ++ (47 ∷ v')
    → (m ≡ m') × (v ≡ v')
unfolding is_plain
split_of_plain [] v [] v' pm pv e = (refl, cc)
split_of_plain [] v (c ∷ m') v' pm pv e = let same : 47 ≡ c = cc in absurd (ground (arith, same))
split_of_plain (c ∷ m) v [] v' pm pv e =
    let rest : m ++ (47 ∷ v) ≡ v' = cc in
    absurd (ground (arith, is_plain-append m (47 ∷ v), ap is_plain rest))
split_of_plain (c ∷ m) v (d ∷ m') v' pm pv e =
    let rest = split_of_plain m v m' v' (ground arith) pv (cc) in
    let head : c ≡ d = cc in (cc, rest.1)

pub key_names : (m v : Text) → IsKey (cache_key m v) → IsName m × (is_plain v ≡ true)
unfolding cache_key
key_names m v k =
    let same =
      split_of_plain m v k.model_name k.version_id (plain_of_name k.model_name k.named) k.plain
        k.spelled in
    (
      subst IsName (sym same.0) k.named,
      subst (λ (t : Text). is_plain t ≡ true) (sym same.1) k.plain,
    )

pub names-IsKey : (m v : Text) → IsName m → is_plain v ≡ true → IsKey (cache_key m v)
unfolding cache_key
names-IsKey m v named plain = record {
  model_name = m;
  version_id = v;
  named = named;
  plain = plain;
  spelled = refl;
}

parquet_name : (v : Text) → is_plain v ≡ true → IsName (v ++ text ".parquet")
unfolding text
parquet_name v plain =
    name_of_plain v (text ".parquet") plain (unfold is_plain in refl) (unfold only_dots in refl)

pending_name : (v : Text) → is_plain v ≡ true → IsName (v ++ text ".pending")
unfolding text
pending_name v plain =
    name_of_plain v (text ".pending") plain (unfold is_plain in refl) (unfold only_dots in refl)

module _ {W : Type 0} (layer : ModelStorageLayer W) (m v : Text) (k : IsKey (cache_key m v)) where
  pub checkpoint_path-cache_key : checkpoint_path layer m v ≡ key_path layer.root (cache_key m v)
  unfolding checkpoint_path model_dir cache_key text models_dir key_path
  checkpoint_path-cache_key =
      let names = key_names m v k in
      join_twice layer.root m (v ++ text ".parquet") names.0
        (plain_of_name (v ++ text ".parquet") (parquet_name v names.1))
      ∙ ap (in_models layer.root) (sym (append_assoc m (47 ∷ v) (text ".parquet")))

  pub pending_path-cache_key :
      pending_path layer m v ≡ in_models layer.root (cache_key m v ++ text ".pending")
  unfolding pending_path model_dir cache_key text models_dir
  pending_path-cache_key =
      let names = key_names m v k in
      join_twice layer.root m (v ++ text ".pending") names.0
        (plain_of_name (v ++ text ".pending") (pending_name v names.1))
      ∙ ap (in_models layer.root) (sym (append_assoc m (47 ∷ v) (text ".pending")))

  pub pending_path-IsFileOf : IsFileOf (models_dir layer.root) (pending_path layer m v)
  unfolding cache_key
  pending_path-IsFileOf =
      let names = key_names m v k in
      record {
        folder = m;
        name = v ++ text ".pending";
        folder_name = names.0;
        file_name = pending_name v names.1;
        spelled =
            pending_path-cache_key
            ∙ ap (in_models layer.root) (append_assoc m (47 ∷ v) (text ".pending"));
      }

pub key_path-IsFileOf :
    (root key : Text) → IsKey key → IsFileOf (models_dir root) (key_path root key)
unfolding text key_path
key_path-IsFileOf root key k = record {
  folder = k.model_name;
  name = k.version_id ++ text ".parquet";
  folder_name = k.named;
  file_name = parquet_name k.version_id k.plain;
  spelled =
      ap (λ (t : Text). key_path root t) k.spelled
      ∙ ap (in_models root) (append_assoc k.model_name (47 ∷ k.version_id) (text ".parquet"));
}

in_models-injective : (r a b : Text) → in_models r a ≡ in_models r b → a ≡ b
in_models-injective r a b e =
    let tails = append-cancel_left (models_dir r) (47 ∷ a) (47 ∷ b) e in cc

pub key_path-injective : (r a b : Text) → key_path r a ≡ key_path r b → a ≡ b
unfolding text key_path
key_path-injective r a b e =
    append-cancel_right a b (text ".parquet") (text ".parquet") refl
      (in_models-injective r (a ++ text ".parquet") (b ++ text ".parquet") e)

text_eq-extensions : text_eq (text ".parquet") (text ".pending") ≡ false
unfolding text text_eq
text_eq-extensions = refl

extensions-apart : text ".parquet" ≢ text ".pending"
extensions-apart e =
    ground (arith, text_eq-extensions, text_eq_iff (text ".parquet") (text ".pending"))

-- No file of a checkpoint is one of a write that is under way.
pub pending-ne-key_path : (r a b : Text) → key_path r b ≢ in_models r (a ++ text ".pending")
unfolding key_path
pending-ne-key_path r a b e =
    let whole = in_models-injective r (b ++ text ".parquet") (a ++ text ".pending") e in
    let same : b ≡ a =
      unfold text in append-cancel_right b a (text ".parquet") (text ".pending") refl whole in
    extensions-apart (
      append-cancel_left a (text ".parquet") (text ".pending")
        (ap (λ (t : Text). t ++ text ".parquet") (sym same) ∙ whole))

-- The path of a file in a folder of the models, by their names.
module _ (root folder name : Text) (named : IsName folder) (file : IsName name) where
  file_path : join (join (models_dir root) folder) name ≡ in_models root (folder ++ (47 ∷ name))
  file_path = join_twice root folder name named (plain_of_name name file)

  pub path-IsFileOf : IsFileOf (models_dir root) (join (join (models_dir root) folder) name)
  path-IsFileOf = record {
    folder = folder;
    name = name;
    folder_name = named;
    file_name = file;
    spelled = file_path;
  }

  pub path-ne-key_path :
      (x key : Text)
      → name ≡ x ++ text ".pending"
      → key_path root key ≢ join (join (models_dir root) folder) name
  path-ne-key_path x key ends e = pending-ne-key_path root (folder ++ (47 ∷ x)) key (
      e
      ∙ file_path
      ∙ ap (λ (t : Text). in_models root (folder ++ (47 ∷ t))) ends
      ∙ ap (in_models root) (sym (append_assoc folder (47 ∷ x) (text ".pending"))))
