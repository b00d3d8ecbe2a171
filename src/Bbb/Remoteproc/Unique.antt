-- ===== src/Bbb/Remoteproc/Unique.antt =====
-- boards/beaglebone_black/scripts/pru0_ctl.py and pru1_ctl.py: the search for the remoteproc of a core.
use text.Mathlib.Text.{◌==◌ as str_eq}
use hil_lab.Prelude.{
  ◌≡◌, refl, sym, ap, subst, ◌∙◌, Bool, true, false, not, if◌then◌else◌, String, Option, none, some,
  List, [], ◌∷◌, ◌⊎◌, inl, inr,
}
use hil_lab.Errors.{
  Error, Result, ok, err, pure, raise, raise_if, ◌>>=◌, ◌>>◌, OnOk, >>=-eq-ok, raise_if-eq-ok,
  ok-run, runtime_error, file_not_found,
}
use hil_lab.Bbb.Remoteproc.{
  Core, Sysfs, is_core, is_os_error, on_name, matches_in, found_in, only_match, search_remoteproc,
  find_remoteproc,
}

module _ (sysfs : Sysfs) (core : Core) where
  -- Whether a name can be read and is the core's, and the paths for which it is.
  abbrev pub named : Result String → Bool
  named (ok name) = is_core core name
  named (err e) = false

  abbrev pub kept : sysfs.State → List String → List String
  kept s [] = []
  kept s (path ∷ rest) =
      let later = kept s rest in
      if named (sysfs.read_text path "name" s).0 then path ∷ later else later

  -- The path is the only one of the core among those that were listed.
  abbrev pub IsUnique : sysfs.State → String → Type 0
  IsUnique s path =
      (paths : List String) × (t : sysfs.State) × (sysfs.remoteprocs s ≡ (ok paths, t))
      × (kept t paths ≡ path ∷ [])

  module _
      (steady : (path file : String) (s : sysfs.State) → (sysfs.read_text path file s).1 ≡ s) where
    matches_in-kept :
        (paths found : List String) (s t : sysfs.State)
        → matches_in sysfs core paths s ≡ (ok found, t)
        → (found ≡ kept s paths) × (t ≡ s)
    unfolding matches_in
    matches_in-kept [] found s t h = ok-run h
    matches_in-kept (path ∷ rest) found s t h =
        on_result (sysfs.read_text path "name" s).0
          (subst
            (λ u.
              on_name sysfs core (sysfs.read_text path "name" s).0
                (λ name.
                  if is_core core name
                  then (matches_in sysfs core rest >>= λ found. pure (path ∷ found))
                  else matches_in sysfs core rest)
                (matches_in sysfs core rest) u
              ≡ (ok found, t))
            (steady path "name" s) h)
          (λ others u e. matches_in-kept rest others s u e)
      where
        on_core :
            (b : Bool)
            → (if b
                  then (matches_in sysfs core rest >>= λ found. pure (path ∷ found))
                  else matches_in sysfs core rest)
                s
              ≡ (ok found, t)
            → ((others : List String) (u : sysfs.State)
                → matches_in sysfs core rest s ≡ (ok others, u)
                → (others ≡ kept s rest) × (u ≡ s))
            → (found ≡ (if b then path ∷ kept s rest else kept s rest)) × (t ≡ s)
        on_core true h later =
            let (others, u, e, k) = >>=-eq-ok (matches_in sysfs core rest) _ s h in
            let (p, q) = ok-run k in
            (p ∙ ap (λ xs. path ∷ xs) (later others u e).0, q ∙ (later others u e).1)
        on_core false h later = later found t h

        on_error :
            (e : Error) (b : Bool)
            → (if b then matches_in sysfs core rest else raise e) s ≡ (ok found, t)
            → matches_in sysfs core rest s ≡ (ok found, t)
        on_error e true h = h
        on_error e false h = cc

        on_result :
            (r : Result String)
            → on_name sysfs core r
                (λ name.
                  if is_core core name
                  then (matches_in sysfs core rest >>= λ found. pure (path ∷ found))
                  else matches_in sysfs core rest)
                (matches_in sysfs core rest)
                s
              ≡ (ok found, t)
            → ((others : List String) (u : sysfs.State)
                → matches_in sysfs core rest s ≡ (ok others, u)
                → (others ≡ kept s rest) × (u ≡ s))
            → (found ≡ (if named r then path ∷ kept s rest else kept s rest)) × (t ≡ s)
        on_result (ok name) h later = on_core (is_core core name) h later
        on_result (err e) h later = later found t (on_error e (is_os_error e) h)

    not_unique :
        (path : String) (s t : sysfs.State)
        → (sysfs.remoteprocs >>= λ paths. found_in sysfs core paths >> raise runtime_error) s
          ≡ (ok path, t)
        → ⊥
    not_unique path s t h =
        let (paths, u, e, k) =
          >>=-eq-ok sysfs.remoteprocs (λ paths. found_in sysfs core paths >> raise runtime_error) s
            h in
        let (d, v, f, l) = >>=-eq-ok (found_in sysfs core paths) (λ _. raise runtime_error) u k in
        refused v l
      where
        refused :
            (v : sysfs.State)
            → ◌≡◌ {A = Result String × sysfs.State} (err runtime_error, v) (ok path, t)
            → ⊥
        refused v l = cc

    only_match-eq-ok :
        (found : List String) (path : String) (s t : sysfs.State)
        → only_match sysfs core found s ≡ (ok path, t)
        → found ≡ path ∷ []
    unfolding only_match
    only_match-eq-ok [] path s t h = absurd (not_unique path s t h)
    only_match-eq-ok (x ∷ []) path s t h = ap (λ y. y ∷ []) (sym (ok-run h).0)
    only_match-eq-ok (x ∷ y ∷ xs) path s t h = absurd (not_unique path s t h)

    search_remoteproc-eq-ok :
        (path : String) (s t : sysfs.State)
        → search_remoteproc sysfs core s ≡ (ok path, t)
        → IsUnique s path
    unfolding search_remoteproc
    search_remoteproc-eq-ok path s t h =
        let (paths, u, e, k) = >>=-eq-ok sysfs.remoteprocs _ s h in
        let (found, v, f, l) = >>=-eq-ok (matches_in sysfs core paths) _ u k in
        (paths, u, e, sym (matches_in-kept paths found u v f).0 ∙ only_match-eq-ok found path v t l)

    find_remoteproc-eq-ok :
        (explicit : Option String) (path : String) (s t : sysfs.State)
        → find_remoteproc sysfs core explicit s ≡ (ok path, t)
        → (explicit ≡ some path) × (sysfs.exists path s ≡ (ok true, t)) ⊎ IsUnique s path
    unfolding find_remoteproc
    find_remoteproc-eq-ok none path s t h = inr (search_remoteproc-eq-ok path s t h)
    find_remoteproc-eq-ok (some explicit) path s t h = split (str_eq explicit "") h
      where
        given :
            (found : Bool) (u : sysfs.State)
            → sysfs.exists explicit s ≡ (ok found, u)
            → not found ≡ false
            → (path ≡ explicit) × (t ≡ u)
            → (some explicit ≡ some path) × (sysfs.exists path s ≡ (ok true, t))
        given false u e n same = cc
        given true u e n (p, q) = (ap some (sym p), rw (p, q) e)

        split :
            (b : Bool)
            → (if b
                  then search_remoteproc sysfs core
                  else (sysfs.exists explicit >>= λ found.
                      raise_if (not found) file_not_found >> pure explicit))
                s
              ≡ (ok path, t)
            → (some explicit ≡ some path) × (sysfs.exists path s ≡ (ok true, t)) ⊎ IsUnique s path
        split true h = inr (search_remoteproc-eq-ok path s t h)
        split false h =
            let (found, u, e, k) = >>=-eq-ok (sysfs.exists explicit) _ s h in
            let (n, l) = raise_if-eq-ok (not found) file_not_found (pure explicit) u k in
            inl (given found u e n (ok-run l))

-- Where reading a file changes nothing, the remoteproc that is found is the one that was given, which exists,
-- or the only one that was listed whose name can be read and is the core's.
pub find_remoteproc-IsFound :
    (sysfs : Sysfs) (core : Core) (explicit : Option String) (s : sysfs.State)
    → ((path file : String) (t : sysfs.State) → (sysfs.read_text path file t).1 ≡ t)
    → OnOk
        (λ path.
          (explicit ≡ some path)
            × (sysfs.exists path s ≡ (ok true, (find_remoteproc sysfs core explicit s).1))
          ⊎ IsUnique sysfs core s path)
        (find_remoteproc sysfs core explicit s).0
find_remoteproc-IsFound sysfs core explicit s steady =
    by_result (find_remoteproc sysfs core explicit s).0 refl
  where
    by_result :
        (r : Result String)
        → (find_remoteproc sysfs core explicit s).0 ≡ r
        → OnOk
            (λ path.
              (explicit ≡ some path)
                × (sysfs.exists path s ≡ (ok true, (find_remoteproc sysfs core explicit s).1))
              ⊎ IsUnique sysfs core s path)
            r
    by_result (ok path) e =
        find_remoteproc-eq-ok sysfs core steady explicit path s _
          (ap (λ r. (r, (find_remoteproc sysfs core explicit s).1)) e)
    by_result (err x) e = tt
