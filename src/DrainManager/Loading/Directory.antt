-- ===== src/DrainManager/Loading/Directory.antt =====
-- `loadPluginsFromDir`: the files of the directory and their clients.
use node_drain.Base.{
  String, Bool, true, false, ◌≡◌, refl, ◌==◌, ◌⊎◌, inl, inr, List, [], ◌∷◌, if◌then◌else◌, ok, ◌>>◌,
}
use node_drain.Base.Outcomes.{
  Outcome, Outcome-bind, Outcome-wrapping, Outcome-lift, Outcome-pure, Outcome-fail, Outcome-weaken,
}
use node_drain.Config.{Stat, missing, broken, file, directory}
use node_drain.DrainManager.Loading.{
  created_client, DirEntry, Tables, Processes, empty, plugin_call, set_clients, load_plugin,
  load_entries, load_dir, load_found, load_plugins_from_dir, new_drain_manager,
}
use node_drain.DrainManager.Loading.Table.{
  names, IsTable, Keeping, Made, called-IsTable, init_plugin-Outcome, register-Outcome,
}

-- The names of the plugins' files, newest first, before older ones.
abbrev pub plugin_files : List DirEntry → List String → List String
plugin_files [] found = found
plugin_files (e ∷ es) found =
    if e.is_dir
    then plugin_files es found
    else if e.ext == ".so"
    then plugin_files es (e.name ∷ found)
    else plugin_files es found

module _ (p : Processes) where
  load_plugin-Outcome :
      (ns : List String) (base : String) (st : Tables)
      → Keeping p ns st
      → Outcome (IsTable p) (λ _. Keeping p (base ∷ ns)) (load_plugin p base st)
  unfolding load_plugin plugin_call
  load_plugin-Outcome ns base st h =
      Outcome-bind (IsTable p) (λ _. Keeping p ns) _ _ _ st
        (called-IsTable p st (created_client base) h.0, h.1)
        (λ _ st1 h1.
          Outcome-bind (IsTable p) (Made p ns base) _ _ _ st1
            (Outcome-wrapping (IsTable p) _ _ _ st1 (init_plugin-Outcome p ns base st1 h1))
            (λ info st2 h2. register-Outcome p ns base info st2 h2))

  -- The names of the files stand in the order of the loop, and each has a client.
  abbrev pub IsComplete : List String → Tables → Type 0
  IsComplete files st = IsTable p st × (names st ≡ files) × (st.plugin_clients ≡ files)

  -- One entry, by the two tests on it.
  load_entry-Outcome :
      (dir so : Bool) (base : String) (es : List DirEntry) (found : List String) (st : Tables)
      → ((found' : List String) (st' : Tables)
          → Keeping p found' st'
          → Outcome
              (IsTable p)
              (λ _. IsComplete (plugin_files es found'))
              (load_entries p es found' st'))
      → Keeping p found st
      → Outcome
          (IsTable p)
          (λ _. IsComplete (
            if dir
            then plugin_files es found
            else if so
            then plugin_files es (base ∷ found)
            else plugin_files es found))
          ((if dir
              then load_entries p es found
              else if so
              then (do load_plugin p base; load_entries p es (base ∷ found))
              else load_entries p es found)
            st)
  load_entry-Outcome true so base es found st k h = k found st h
  load_entry-Outcome false false base es found st k h = k found st h
  load_entry-Outcome false true base es found st k h =
      Outcome-bind (IsTable p) (λ _. Keeping p (base ∷ found)) _ _ _ st
        (load_plugin-Outcome found base st h) (λ _ st1 h1. k (base ∷ found) st1 h1)

  load_entries-Outcome :
      (es : List DirEntry) (found : List String) (st : Tables)
      → Keeping p found st
      → Outcome (IsTable p) (λ _. IsComplete (plugin_files es found)) (load_entries p es found st)
  unfolding load_entries set_clients
  load_entries-Outcome [] found st h = (h.0, h.1, refl)
  load_entries-Outcome (e ∷ es) found st h =
      load_entry-Outcome e.is_dir (e.ext == ".so") e.name es found st
        (λ found' st' h'. load_entries-Outcome es found' st' h') h

  -- The directory was read, and its files are the ones that have plugins, or there is none.
  abbrev pub IsLoaded : Tables → Type 0
  IsLoaded st =
      (p.stat ≡ missing) × (st ≡ empty)
      ⊎ ((es : List DirEntry) × (p.read_dir ≡ ok es) × IsComplete (plugin_files es []) st)

  load_dir-Outcome : Outcome (IsTable p) (λ _. IsLoaded) (load_dir p empty)
  unfolding load_dir
  load_dir-Outcome =
      Outcome-bind (IsTable p) (λ es st. (p.read_dir ≡ ok es) × (st ≡ empty)) _ _ _ empty
        (Outcome-wrapping (IsTable p) _ _ _ empty
          (Outcome-lift (IsTable p) _ _ empty (tt, tt, tt) (λ es q. (q, refl))))
        (λ es st h. rw h.1 (
          Outcome-weaken (IsTable p) _ _ (load_entries p es []) empty (λ _ s q. inr (es, h.0, q))
            (load_entries-Outcome es [] empty ((tt, tt, tt), refl))))

  load_found-Outcome :
      (s : Stat) → p.stat ≡ s → Outcome (IsTable p) (λ _. IsLoaded) (load_found p s empty)
  unfolding load_found
  load_found-Outcome missing e = Outcome-pure (IsTable p) (λ _. IsLoaded) tt empty (inl (e, refl))
  load_found-Outcome (broken x) e = Outcome-fail (IsTable p) (λ _. IsLoaded) x empty (tt, tt, tt)
  load_found-Outcome (file name) e = load_dir-Outcome
  load_found-Outcome directory e = load_dir-Outcome

  abbrev Fresh : {A : Type 0} → A → Tables → Type 0
  Fresh a st = st ≡ empty

  -- Whatever the plugins, the directory and koanf answer, NewDrainManager leaves a table with
  -- distinct identifiers, each of a plugin whose PluginInfo returned this identifier and a
  -- configuration format and whose Init returned no error for its configuration, also where it
  -- returns an error. If it returns none, the directory is missing and nothing was loaded, or it
  -- was read, and the files with a client are its entries that are no directories and have the
  -- extension .so.
  pub new_drain_manager-IsLoaded : Outcome (IsTable p) (λ _. IsLoaded) (new_drain_manager p empty)
  unfolding new_drain_manager load_plugins_from_dir
  new_drain_manager-IsLoaded =
      Outcome-bind (IsTable p) Fresh _ _ _ empty
        (Outcome-lift (IsTable p) Fresh p.named_logger empty (tt, tt, tt) (λ a q. refl))
        (λ _ s1 e1.
          Outcome-bind (IsTable p) Fresh _ _ _ s1
            (Outcome-lift (IsTable p) Fresh p.new_client_set s1 (rw e1 (tt, tt, tt)) (λ a q. e1))
            (λ _ s2 e2.
              rw e2 (Outcome-wrapping (IsTable p) _ _ _ empty (load_found-Outcome p.stat refl))))
