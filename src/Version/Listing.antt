-- ===== src/Version/Listing.antt =====
-- `list_versions` on a well-formed chain.
use mathlib.Core.List.{Mem, mem-cons_self, mem-cons_of_mem}
use mathlib.Core.List.Perm
use synthgen_core.Prelude.{
  ℕ, zero, suc, ◌<◌, ◌≤◌, Text, text_eq, text_eq_iff, text_mem, true, ◌≡◌, refl, sym, subst, none,
  some, List, [], ◌∷◌, inl, inr, arith, All, All-take, Pairs, Pairs-take, Option-cases, Bool-cases,
  if◌then◌else◌, length, length-take, take, ltb, take-nil, if_rule, ap,
}
use synthgen_core.Prelude.Dict.{Dict, find}
use synthgen_core.Prelude.Sort.{sort_by, sort_by-perm, sort_by-Pairs, All-sort_by}
use synthgen_core.Common.Result.{ok}
use synthgen_core.Version.{
  ModelVersion, ModelVersionChain, get_version, lookup_all, newer, list_versions,
}
use synthgen_core.Version.Invariant.{Listed, IsSound}

module _ {F : Type 0} where
  -- `a` is not older than `b`.
  abbrev pub NotOlder : ModelVersion F → ModelVersion F → Type 0
  NotOlder a b = b.created_at ≤ a.created_at

  -- A version of the model as the chain holds it.
  abbrev pub HeldFor : ModelVersionChain F → Text → ModelVersion F → Type 0
  HeldFor chain model_name v = (get_version chain v.version_id ≡ ok v) × (v.model_name ≡ model_name)

  pub record IsListing (chain : ModelVersionChain F) (model_name : Text) (limit : ℕ)
      (vs : List (ModelVersion F)) : Type 0 where
    pub bounded : length vs ≤ limit
    pub newest_first : Pairs NotOlder vs
    pub held : All (HeldFor chain model_name) vs
    pub complete :
        length vs < limit
        → (id : Text) (v : ModelVersion F) → get_version chain id ≡ ok v
        → v.model_name ≡ model_name
        → Mem v vs

  newest_first-sort : (vs : List (ModelVersion F)) → Pairs NotOlder (sort_by newer vs)
  newest_first-sort =
      sort_by-Pairs newer NotOlder (λ x y e. ground (arith, e)) (λ x y e. ground (arith, e))
        (λ x y z p q. omega (arith, p, q))

  lookup_all-found :
      (m : Dict (ModelVersion F)) (id : Text) (ids : List Text) (v : ModelVersion F)
      → find id m ≡ some v
      → lookup_all m (id ∷ ids) ≡ v ∷ lookup_all m ids
  unfolding lookup_all
  lookup_all-found m id ids v e = rw (e, lookup_all)

  lookup_all-missing :
      (m : Dict (ModelVersion F)) (id : Text) (ids : List Text)
      → find id m ≡ none
      → lookup_all m (id ∷ ids) ≡ lookup_all m ids
  unfolding lookup_all
  lookup_all-missing m id ids e = rw (e, lookup_all)

  get_version-found :
      (chain : ModelVersionChain F) (id : Text) (v : ModelVersion F)
      → find id chain.versions ≡ some v
      → get_version chain id ≡ ok v
  unfolding get_version
  get_version-found chain id v e = rw (e, get_version)

  pub found_of_get_version :
      (chain : ModelVersionChain F) (id : Text) (v : ModelVersion F)
      → get_version chain id ≡ ok v
      → find id chain.versions ≡ some v
  unfolding get_version
  found_of_get_version chain id v e = ground arith

  Listed-HeldFor :
      (chain : ModelVersionChain F) (sound : IsSound chain) (model_name : Text) (ids : List Text)
      → All (Listed chain model_name) ids
      → All (HeldFor chain model_name) (lookup_all chain.versions ids)
  unfolding lookup_all get_version
  Listed-HeldFor chain sound model_name [] h = tt
  Listed-HeldFor chain sound model_name (id ∷ ids) ((v, e, same), h) =
      rw (lookup_all-found chain.versions id ids v e) (
        (
          subst (λ i. get_version chain i ≡ ok v) (sym (sound.placed id v e).own_id)
              (get_version-found chain id v e),
          same,
        ),
        Listed-HeldFor chain sound model_name ids h,
      )

  mem-lookup_all :
      (m : Dict (ModelVersion F)) (ids : List Text) (id : Text) (v : ModelVersion F)
      → find id m ≡ some v
      → text_mem id ids ≡ true
      → Mem v (lookup_all m ids)
  unfolding text_mem
  mem-lookup_all m [] id v e h = absurd (ground arith)
  mem-lookup_all m (i ∷ ids) id v e h = elim (Bool-cases (text_eq i id)) [
    | inl same ↦ rw (lookup_all-found m i ids v (rw ((text_eq_iff i id).0 same) e)) mem-cons_self
    | inr other ↦
        let rest = mem-lookup_all m ids id v e (rw other at h) in
        elim (Option-cases (find i m)) [
          | inl f ↦ rw (lookup_all-missing m i ids f) rest
          | inr (w, f) ↦ rw (lookup_all-found m i ids w f) (mem-cons_of_mem w rest)
        ]
  ]

  take-long : (n : ℕ) (vs : List (ModelVersion F)) → length vs ≤ n → take n vs ≡ vs
  take-long n [] h = take-nil n
  take-long zero (v ∷ vs) h = absurd (omega arith)
  take-long (suc n) (v ∷ vs) h = rw (take-long n vs (omega arith))

  take-all : (n : ℕ) (vs : List (ModelVersion F)) → length (take n vs) < n → take n vs ≡ vs
  take-all zero vs h = absurd (omega arith)
  take-all (suc n) [] h = refl
  take-all (suc n) (v ∷ vs) h = rw (take-all n vs (omega arith))

  clip :
      (n : ℕ) (vs : List (ModelVersion F))
      → (if ltb n (length vs) then take n vs else vs) ≡ take n vs
  clip n vs =
      if_rule (λ r. r ≡ take n vs) (ltb n (length vs)) (λ e. refl)
        λ e. sym (take-long n vs (ground arith))

module _ {F : Type 0} (chain : ModelVersionChain F) (sound : IsSound chain) (model_name : Text)
    (limit : ℕ) where
  IsListing-found :
      (ids : List Text)
      → find model_name chain.model_versions ≡ some ids
      → IsListing chain model_name limit
          (take limit (sort_by newer (lookup_all chain.versions ids)))
  IsListing-found ids e = record {
    bounded = omega (arith, length-take {0} limit all);
    newest_first = Pairs-take NotOlder limit all (newest_first-sort found);
    held = All-take (HeldFor chain model_name) limit all (
        All-sort_by newer (HeldFor chain model_name) found
          (Listed-HeldFor chain sound model_name ids (sound.listed model_name ids e)));
    complete = λ few id v got same.
        rw (take-all limit all few)
          ((Perm.mem_iff (sort_by-perm newer found)).1 (known id v got same));
  }
    where
      found : List (ModelVersion F)
      found = lookup_all chain.versions ids

      all : List (ModelVersion F)
      all = sort_by newer found

      known :
          (id : Text) (v : ModelVersion F)
          → get_version chain id ≡ ok v
          → v.model_name ≡ model_name
          → Mem v found
      known id v got same =
          let f = found_of_get_version chain id v got in
          let (own_ids, g, mem) = sound.indexed id v f in
          let g' : find model_name chain.model_versions ≡ some own_ids =
            subst (λ m. find m chain.model_versions ≡ some own_ids) same g in
          let eq : own_ids ≡ ids = cc in
          mem-lookup_all chain.versions ids id v f
            (subst (λ (l : List Text). text_mem id l ≡ true) eq mem)

  IsListing-missing :
      find model_name chain.model_versions ≡ none → IsListing chain model_name limit []
  IsListing-missing e = record {
    bounded = omega arith;
    newest_first = tt;
    held = tt;
    complete = λ few id v got same. absurd (clash id v got same);
  }
    where
      clash :
          (id : Text) (v : ModelVersion F)
          → get_version chain id ≡ ok v
          → v.model_name ≡ model_name
          → ⊥
      clash id v got same =
          let (own_ids, g, mem) = sound.indexed id v (found_of_get_version chain id v got) in
          let g' : find model_name chain.model_versions ≡ some own_ids =
            subst (λ m. find m chain.model_versions ≡ some own_ids) same g in
          cc

  -- On a well-formed chain `list_versions` gives at most as many versions as the limit allows, all
  -- of the model and as the chain holds them, none older than a later one; and if they are fewer
  -- than the limit allows, every version of the model is among them.
  pub list_versions-IsListing :
      (vs : List (ModelVersion F)) × (list_versions chain model_name limit ≡ ok vs)
      × IsListing chain model_name limit vs
  unfolding list_versions
  list_versions-IsListing = elim (Option-cases (find model_name chain.model_versions)) [
    | inl e ↦ ([], rw (e, list_versions), IsListing-missing e)
    | inr (ids, e) ↦ (
      take limit (sort_by newer (lookup_all chain.versions ids)),
      rw (e, list_versions) (ap ok (clip limit (sort_by newer (lookup_all chain.versions ids)))),
      IsListing-found ids e,
    )
  ]
