-- ===== src/TimeTravel/Query.antt =====
-- The answers of `query_as_of` on a well-formed chain.
use synthgen_core.Prelude.{
  Text, text, text_eq, text_eq_iff, true, false, ◌≡◌, ◌≢◌, refl, sym, none, some, List, [], ◌∷◌,
  ◌⊎◌, inl, inr, All, subst, if_rule,
}
use synthgen_core.Common.Result.{Result, Error, ok, err, no_available_version}
use synthgen_core.Version.{ModelVersion, ModelVersionChain, get_version, list_versions}
use synthgen_core.Version.Invariant.{IsSound}
use synthgen_core.Version.Listing.{HeldFor, list_versions-IsListing}
use synthgen_core.TimeTravel.{
  CompactionBiasReport, TimeTravelResult, Storage, report_of, first_loaded, find_nearest_available,
  degraded, degradation_path, exact_or_degraded, after_lookup, query_as_of,
}

module _ {F S : Type 0} (storage : Storage S) (chain : ModelVersionChain F)
    (model_name : Text) where
  -- `v` is the first version of a list that loads, with these data; the loads before it fail.
  pub data FirstLoad : List (ModelVersion F) → S → ModelVersion F → Text → Type 0 where
    here :
        (v : ModelVersion F) (vs : List (ModelVersion F)) (s after : S) (loaded : Text)
        → storage.load_model model_name v.version_id s ≡ (ok loaded, after)
        → FirstLoad (v ∷ vs) s v loaded
    there :
        (w : ModelVersion F) (vs : List (ModelVersion F)) (s after : S) (e : Error)
        (v : ModelVersion F) (loaded : Text)
        → storage.load_model model_name w.version_id s ≡ (err e, after)
        → FirstLoad vs after v loaded
        → FirstLoad (w ∷ vs) s v loaded

  -- None of the versions of a list loads.
  pub data NoLoad : List (ModelVersion F) → S → Type 0 where
    none_left : (s : S) → NoLoad [] s
    fails :
        (w : ModelVersion F) (vs : List (ModelVersion F)) (s after : S) (e : Error)
        → storage.load_model model_name w.version_id s ≡ (err e, after)
        → NoLoad vs after
        → NoLoad (w ∷ vs) s

  -- What the loop returns.
  abbrev Loop : Text → List (ModelVersion F) → S → Result (Text × CompactionBiasReport F) → Type 0
  Loop requested vs s (err e) = NoLoad vs s × (e.code ≡ no_available_version)
  Loop requested vs s (ok (loaded, report)) =
      (v : ModelVersion F) × FirstLoad vs s v loaded × (report ≡ report_of requested v)

  first_loaded-Loop :
      (requested : Text) (vs : List (ModelVersion F)) (s : S)
      → Loop requested vs s (first_loaded storage chain model_name requested vs s).0
  unfolding first_loaded
  first_loaded-Loop requested [] s = (none_left s, refl)
  first_loaded-Loop requested (v ∷ vs) s =
      at (first_loaded-Loop requested vs) (storage.load_model model_name v.version_id s) refl
    where
      after_load : Result Text × S → Result (Text × CompactionBiasReport F) × S
      after_load out = elim out.0 [
        | ok loaded ↦ (ok (loaded, report_of requested v), out.1)
        | err e ↦ first_loaded storage chain model_name requested vs out.1
      ]

      lift :
          (after : S) (e : Error)
          → storage.load_model model_name v.version_id s ≡ (err e, after)
          → (r : Result (Text × CompactionBiasReport F)) → Loop requested vs after r
          → Loop requested (v ∷ vs) s r
      lift after e eq (err f) (failed, code) = (fails v vs s after e eq failed, code)
      lift after e eq (ok (loaded, report)) (w, first, same) =
          (w, there v vs s after e w loaded eq first, same)

      at :
          ((after : S)
            → Loop requested vs after (first_loaded storage chain model_name requested vs after).0)
          → (out : Result Text × S) → storage.load_model model_name v.version_id s ≡ out
          → Loop requested (v ∷ vs) s (after_load out).0
      at ih (ok loaded, after) e = (v, here v vs s after loaded e, refl)
      at ih (err f, after) e =
          lift after f e (first_loaded storage chain model_name requested vs after).0 (ih after)

  FirstLoad-All :
      (P : ModelVersion F → Type 0) (vs : List (ModelVersion F)) (s : S) (v : ModelVersion F)
      (loaded : Text)
      → All P vs
      → FirstLoad vs s v loaded
      → P v
  FirstLoad-All P vs s v loaded h (here w ws t after l e) = h.0
  FirstLoad-All P vs s v loaded h (there w ws t after e u l eq first) =
      FirstLoad-All P ws after u l h.1 first

  -- The version is not in the chain, or its data do not load; `t` is the state of the storage then.
  abbrev pub Missed : Text → S → S → Type 0
  Missed version_id s t =
      ((e : Error) × (get_version chain version_id ≡ err e) × (t ≡ s))
      ⊎ ((v : ModelVersion F) × (get_version chain version_id ≡ ok v)
          × ((e : Error) × (storage.load_model model_name version_id s ≡ (err e, t))))

  -- The answers of a query.
  pub data Answers (version_id : Text) (s : S) : Result (TimeTravelResult F) → Type 0 where
    exact :
        (v : ModelVersion F) (loaded : Text) (after : S)
        → get_version chain version_id ≡ ok v
        → storage.load_model model_name version_id s ≡ (ok loaded, after)
        → Answers version_id s (
            ok (record { payload = loaded; version = v; bias_report = none; was_degraded = false }))
    nearest :
        (t : S) (listed : List (ModelVersion F)) (v : ModelVersion F) (loaded : Text)
        → Missed version_id s t
        → list_versions chain model_name 100 ≡ ok listed
        → FirstLoad listed t v loaded
        → HeldFor chain model_name v
        → Answers version_id s (
            ok (record {
              payload = loaded;
              version = v;
              bias_report = some (report_of version_id v);
              was_degraded = true;
            }))
    unavailable :
        (t : S) (listed : List (ModelVersion F)) (e : Error)
        → Missed version_id s t
        → list_versions chain model_name 100 ≡ ok listed
        → NoLoad listed t
        → e.code ≡ no_available_version
        → Answers version_id s (err e)

  degradation_path-eq :
      (version_id : Text) (t : S) (listed : List (ModelVersion F))
      → list_versions chain model_name 100 ≡ ok listed
      → degradation_path storage chain model_name version_id t
        ≡ degraded storage chain model_name
            (first_loaded storage chain model_name version_id listed t)
  unfolding degradation_path find_nearest_available
  degradation_path-eq version_id t listed e = rw (degradation_path, find_nearest_available, e) refl

  found-Answers :
      (version_id : Text) (s t : S) (listed : List (ModelVersion F))
      → Missed version_id s t
      → list_versions chain model_name 100 ≡ ok listed
      → All (HeldFor chain model_name) listed
      → (out : Result (Text × CompactionBiasReport F) × S) → Loop version_id listed t out.0
      → Answers version_id s (degraded storage chain model_name out).0
  unfolding degraded report_of
  found-Answers version_id s t listed missed e held (err f, u) (failed, code) =
      unavailable t listed
        (record { code = f.code; message = f.message; component = text "TimeTravelEngine" }) missed
        e failed code
  found-Answers version_id s t listed missed e held (ok (loaded, report), u) (v, first, same) =
      let kept = FirstLoad-All (HeldFor chain model_name) listed t v loaded held first in
      subst (λ r. Answers version_id s (degraded storage chain model_name (ok (loaded, r), u)).0)
        (sym same) (rw (kept.0, degraded) (nearest t listed v loaded missed e first kept))

  degraded-Answers :
      (sound : IsSound chain) (version_id : Text) (s t : S)
      → Missed version_id s t
      → Answers version_id s (degradation_path storage chain model_name version_id t).0
  degraded-Answers sound version_id s t missed =
      let (listed, e, listing) = list_versions-IsListing chain sound model_name 100 in
      subst (λ out. Answers version_id s out.0) (sym (degradation_path-eq version_id t listed e))
        (found-Answers version_id s t listed missed e listing.held
          (first_loaded storage chain model_name version_id listed t)
          (first_loaded-Loop version_id listed t))

  exact-Answers :
      (sound : IsSound chain) (version_id : Text) (s : S) (v : ModelVersion F)
      → get_version chain version_id ≡ ok v
      → (out : Result Text × S) → storage.load_model model_name version_id s ≡ out
      → Answers version_id s (exact_or_degraded storage chain model_name version_id v out).0
  unfolding exact_or_degraded
  exact-Answers sound version_id s v e (ok loaded, after) f = exact v loaded after e f
  exact-Answers sound version_id s v e (err error, after) f =
      degraded-Answers sound version_id s after (inr (v, e, (error, f)))

  -- On a well-formed chain, a query of a named model and a version answers in one of three ways. It
  -- gives the version's own data where the version is in the chain and its data load. Otherwise it
  -- gives the data of the first version in the listing of the model that loads, as the chain holds
  -- it, with a report that names both versions. Otherwise no version of the listing loads, and it
  -- fails saying so.
  pub query_as_of-Answers :
      (sound : IsSound chain) (version_id : Text) (s : S)
      → model_name ≢ []
      → version_id ≢ []
      → Answers version_id s (query_as_of storage chain model_name version_id s).0
  unfolding query_as_of after_lookup
  query_as_of-Answers sound version_id s named given =
      if_rule {A = Result (TimeTravelResult F) × S} (λ out. Answers version_id s out.0)
        (text_eq model_name []) (λ e. absurd (named ((text_eq_iff model_name []).0 e)))
        (λ _.
          if_rule {A = Result (TimeTravelResult F) × S} (λ out. Answers version_id s out.0)
            (text_eq version_id []) (λ e. absurd (given ((text_eq_iff version_id []).0 e)))
            (λ _. at (get_version chain version_id) refl))
    where
      at :
          (r : Result (ModelVersion F))
          → get_version chain version_id ≡ r
          → Answers version_id s (after_lookup storage chain model_name version_id s r).0
      at (err f) e = degraded-Answers sound version_id s s (inl (f, e, refl))
      at (ok v) e =
          exact-Answers sound version_id s v e (storage.load_model model_name version_id s) refl
