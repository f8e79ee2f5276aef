-- ===== src/ModelStorage/Cache.antt =====
-- The cache of the layer, as a list of entries.
use synthgen_core.Prelude.{
  ◌-◌, ◌≤◌, ◌<◌, Text, text_eq, text_eq_iff, text_eq_refl, ◌≡◌, ◌≢◌, refl, Option, none, some, List,
  [], ◌∷◌, length, leb, if◌then◌else◌, if_rule, arith, All, All-map, All-both, Pairs, subst, ◌∙◌,
  suc, All-take, Pairs-take, length-take,
}
use synthgen_core.ModelStorage.{CacheEntry, max_cache_size, cached, erase, evict, cache_value}

-- Two entries with different keys.
abbrev pub KeysApart : CacheEntry → CacheEntry → Type 0
KeysApart a b = a.0 ≢ b.0

abbrev pub Without : Text → CacheEntry → Type 0
Without key e = key ≢ e.0

module _ (P : CacheEntry → Type 0) where
  pub All-erase :
      (key : Text) (entries : List CacheEntry) → All P entries → All P (erase key entries)
  unfolding erase
  All-erase key [] h = tt
  All-erase key ((k, v) ∷ entries) h =
      if_rule (All P) (text_eq k key) (λ _. h.1) (λ _. (h.0, All-erase key entries h.1))

  pub All-cached :
      (key value : Text) (entries : List CacheEntry)
      → cached key entries ≡ some value
      → All P entries
      → P (key, value)
  unfolding cached
  All-cached key value [] e h = absurd cc
  All-cached key value ((k, v) ∷ entries) e h =
      if_rule (λ o. o ≡ some value → P (key, value)) (text_eq k key)
        (λ same found.
          let here : (k, v) ≡ (key, value) = ground (arith, same, found, text_eq_iff k key) in
          subst P here h.0)
        (λ _ found. All-cached key value entries found h.1) e

  All-evict : (entries : List CacheEntry) → All P entries → All P (evict entries)
  unfolding evict
  All-evict entries h =
      if_rule (All P) (leb max_cache_size (length entries))
        (λ _. All-take P (length entries - 1) entries h) (λ _. h)

module _ {ℓ} (P : List CacheEntry → Type ℓ) (key value : Text) (entries : List CacheEntry) where
  -- What holds whether the key is in the cache or not.
  cache_value_rule :
      (cached key entries ≡ none → P ((key, value) ∷ evict entries))
      → ((old : Text) → cached key entries ≡ some old → P ((key, value) ∷ erase key entries))
      → P (cache_value key value entries)
  unfolding cache_value
  cache_value_rule absent present = by_result (cached key entries) absent present
    where
      by_result :
          (o : Option Text)
          → (o ≡ none → P ((key, value) ∷ evict entries))
          → ((old : Text) → o ≡ some old → P ((key, value) ∷ erase key entries))
          → P (elim o [
            | none ↦ (key, value) ∷ evict entries
            | some old ↦ (key, value) ∷ erase key entries
          ])
      by_result none absent present = absent refl
      by_result (some old) absent present = present old refl

pub All-cache_value :
    (P : CacheEntry → Type 0) (key value : Text) (entries : List CacheEntry)
    → P (key, value)
    → All P entries
    → All P (cache_value key value entries)
All-cache_value P key value entries new h =
    cache_value_rule (All P) key value entries (λ _. (new, All-evict P entries h))
      (λ _ _. (new, All-erase P key entries h))

cached-none :
    (key : Text) (entries : List CacheEntry) → cached key entries ≡ none → All (Without key) entries
unfolding cached
cached-none key [] e = tt
cached-none key ((k, v) ∷ entries) e =
    if_rule (λ o. o ≡ none → All (Without key) ((k, v) ∷ entries)) (text_eq k key)
      (λ _ found. absurd cc)
      (λ other found.
        (λ same. ground (arith, other, text_eq_iff k key), cached-none key entries found))
      e

-- The keys are apart, and there are at most five.
pub record IsCache (entries : List CacheEntry) : Type 0 where
  pub few : length entries ≤ max_cache_size
  pub apart : Pairs KeysApart entries

erase-Without :
    (key : Text) (entries : List CacheEntry)
    → Pairs KeysApart entries
    → All (Without key) (erase key entries)
unfolding erase
erase-Without key [] h = tt
erase-Without key ((k, v) ∷ entries) h =
    if_rule (All (Without key)) (text_eq k key)
      (λ same. All-map (λ e ne eq. ne (ground (arith, same, text_eq_iff k key) ∙ eq)) entries h.0)
      (λ other. (λ eq. ground (arith, other, text_eq_iff k key), erase-Without key entries h.1))

Pairs-erase :
    (key : Text) (entries : List CacheEntry)
    → Pairs KeysApart entries
    → Pairs KeysApart (erase key entries)
unfolding erase
Pairs-erase key [] h = tt
Pairs-erase key ((k, v) ∷ entries) h =
    if_rule (Pairs KeysApart) (text_eq k key) (λ _. h.1)
      (λ _. (All-erase (KeysApart (k, v)) key entries h.0, Pairs-erase key entries h.1))

length-erase-le :
    (key : Text) (entries : List CacheEntry) → length (erase key entries) ≤ length entries
unfolding erase
length-erase-le key [] = omega arith
length-erase-le key ((k, v) ∷ entries) = ground (arith, length-erase-le key entries)

length-erase :
    (key value : Text) (entries : List CacheEntry)
    → cached key entries ≡ some value
    → suc (length (erase key entries)) ≤ length entries
unfolding erase cached
length-erase key value [] e = absurd cc
length-erase key value ((k, v) ∷ entries) e =
    if_rule
      (λ o.
        o ≡ some value
        → suc (length (if text_eq k key then entries else (k, v) ∷ erase key entries))
          ≤ suc (length entries))
      (text_eq k key) (λ same _. rw same (omega arith))
      (λ other (found : cached key entries ≡ some value).
        rw other (omega (arith, length-erase key value entries found)))
      e

length-evict-lt :
    (entries : List CacheEntry)
    → length entries ≤ max_cache_size
    → length (evict entries) < max_cache_size
unfolding evict
length-evict-lt entries h =
    if_rule (λ (es : List CacheEntry). length es < max_cache_size)
      (leb max_cache_size (length entries))
      (λ full. omega (arith, h, length-take (length entries - 1) entries))
      (λ room. ground (arith, room))

Pairs-evict :
    (entries : List CacheEntry) → Pairs KeysApart entries → Pairs KeysApart (evict entries)
unfolding evict
Pairs-evict entries h =
    if_rule (Pairs KeysApart) (leb max_cache_size (length entries))
      (λ _. Pairs-take KeysApart (length entries - 1) entries h) (λ _. h)

-- A hit: the entry moves to the front.
pub front-IsCache :
    (key old value : Text) (entries : List CacheEntry)
    → cached key entries ≡ some old
    → IsCache entries
    → IsCache ((key, value) ∷ erase key entries)
front-IsCache key old value entries present h = record {
  few = omega (arith, h.few, length-erase key old entries present);
  apart = (erase-Without key entries h.apart, Pairs-erase key entries h.apart);
}

pub cache_value-IsCache :
    (key value : Text) (entries : List CacheEntry)
    → IsCache entries
    → IsCache (cache_value key value entries)
cache_value-IsCache key value entries h =
    cache_value_rule IsCache key value entries
      (λ absent. record {
        few = omega (arith, length-evict-lt entries h.few);
        apart = (
          All-evict (Without key) entries (cached-none key entries absent),
          Pairs-evict entries h.apart,
        );
      })
      (λ old present. front-IsCache key old value entries present h)

pub erase-IsCache :
    (key : Text) (entries : List CacheEntry) → IsCache entries → IsCache (erase key entries)
erase-IsCache key entries h = record {
  few = omega (arith, h.few, length-erase-le key entries);
  apart = Pairs-erase key entries h.apart;
}

pub cached-cache_value :
    (key value : Text) (entries : List CacheEntry)
    → cached key (cache_value key value entries) ≡ some value
cached-cache_value key value entries =
    cache_value_rule (λ es. cached key es ≡ some value) key value entries
      (λ _. first (evict entries)) (λ _ _. first (erase key entries))
  where
    first : (es : List CacheEntry) → cached key ((key, value) ∷ es) ≡ some value
    first es = unfold cached in rw (text_eq_refl key) refl

-- The key of the cache gets a new value, and of the other entries the property is known.
pub All-replaced :
    (P : CacheEntry → Type 0) (key value : Text) (entries : List CacheEntry)
    → P (key, value)
    → All (λ e. key ≢ e.0 → P e) entries
    → IsCache entries
    → All P (cache_value key value entries)
All-replaced P key value entries new others h =
    cache_value_rule (All P) key value entries
      (λ absent. (
        new,
        All-evict P entries
            (All-both {R = P} entries others (cached-none key entries absent) (λ e f ne. f ne)),
      ))
      (λ old present. (
        new,
        All-both {R = P} (erase key entries) (All-erase (λ e. key ≢ e.0 → P e) key entries others)
            (erase-Without key entries h.apart) (λ e f ne. f ne),
      ))
